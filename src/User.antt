-- ===== src/User.antt =====
-- apps/user-service/src: the table of users (entity/user.entity.ts) and the handlers of
-- user-service.service.ts. The hash of passwords and the signature of tokens are parameters; the
-- salt, the time and a new row's id are arguments.
pub mod Login
mod Tests
use text.Mathlib.Text.{◌==◌ as str_eq}
use nest_microservices_tempo.Prelude.{
  ℕ, String, Bool, true, false, ◌&&◌, Option, none, some, List, [], ◌∷◌, ◌++◌, ◌==◌, if◌then◌else◌,
  any, find?,
}
use nest_microservices_tempo.Errors.{
  Message, Exception, Result, ok, err, or_throw, AppErrorCode, UserErrorCode, conflict_exception,
  not_found_exception, unauthorized_exception,
}
use nest_microservices_tempo.Auth.{UserRole, customer, JwtPayload}

pub record UserEntity : Type 0 where
  pub id : ℕ
  pub email : String
  pub password_hash : String
  pub first_name : String
  pub last_name : String
  pub role : UserRole
  pub is_active : Bool

abbrev pub Users : Type 0
Users = List UserEntity

pub record RegisterUserDto : Type 0 where
  pub email : String
  pub password : String
  pub first_name : String
  pub last_name : String

-- bcrypt's `hash` and `compare`, and the JWT service's `sign`, which adds when the token was made and
-- when it expires.
pub record Crypto : Type 0 where
  pub hash : (salt password : String) → String
  pub compare : (password password_hash : String) → Bool
  pub sign : (now : ℕ) → JwtPayload → String

abbrev pub with_email : String → UserEntity → Bool
with_email email u = str_eq u.email email

abbrev pub new_user : ℕ → RegisterUserDto → String → UserEntity
new_user id dto password_hash = record {
  id = id;
  email = dto.email;
  password_hash = password_hash;
  first_name = dto.first_name;
  last_name = dto.last_name;
  role = customer;
  is_active = true;
}

abbrev pub email_exists : Exception
email_exists =
    conflict_exception (Message.text "Email already exists")
      (AppErrorCode.user UserErrorCode.email_exists)

abbrev pub invalid_credentials : Exception
invalid_credentials =
    unauthorized_exception (Message.text "Invalid credentials")
      (AppErrorCode.user UserErrorCode.invalid_credentials)

module _ (crypto : Crypto) where
  -- The access token.
  abbrev pub generate_auth_response : (now : ℕ) → UserEntity → String
  generate_auth_response now u =
      crypto.sign now (record { user_id = u.id; email = u.email; role = some u.role })

  unfoldable pub register_user :
      (now id : ℕ) (salt : String) → RegisterUserDto → Users → Result String × Users
  register_user now id salt dto t =
      let user = new_user id dto (crypto.hash salt dto.password) in
      if any (with_email dto.email) t
      then (err email_exists, t)
      else (ok (generate_auth_response now user), t ++ user ∷ [])

  unfoldable pub login_user : (now : ℕ) (email password : String) → Users → Result String
  login_user now email password t = elim (find? (λ u. with_email email u && u.is_active) t) [
    | none ↦ err invalid_credentials
    | some u ↦
        if crypto.compare password u.password_hash
        then ok (generate_auth_response now u)
        else err invalid_credentials
  ]

unfoldable pub get_user_by_id : ℕ → Users → Result UserEntity
get_user_by_id id t = or_throw (find? (λ u. (u.id == id) && u.is_active) t) (
    not_found_exception (Message.text "User not found") (AppErrorCode.user UserErrorCode.not_found))
