-- ===== src/User/Login.antt =====
-- Who can log in after a registration.
use text.Mathlib.TextEquality.{eq_iff}
use nest_microservices_tempo.Prelude.{
  ℕ, String, ◌≡◌, refl, ◌∙◌, true, false, ◌&&◌, Option, some, [], ◌∷◌, ◌++◌, if◌then◌else◌, any,
  find?, arith,
}
use nest_microservices_tempo.Errors.{ok, err}
use nest_microservices_tempo.Auth.{JwtPayload, customer}
use nest_microservices_tempo.User.{
  UserEntity, Users, RegisterUserDto, Crypto, with_email, new_user, invalid_credentials,
  generate_auth_response, register_user, login_user,
}

abbrev pub found_user : String → Users → Option UserEntity
found_user email t = find? (λ u. with_email email u && u.is_active) t

find_new :
    (email : String) (t : Users) (u : UserEntity)
    → any (with_email email) t ≡ false
    → with_email email u ≡ true
    → u.is_active ≡ true
    → found_user email (t ++ u ∷ []) ≡ some u
find_new email [] u h e f = rw (e, f) refl
find_new email (v ∷ t) u h e f = ground (arith, find_new email t u)

module _ (crypto : Crypto)
    (matches : (salt p : String) → crypto.compare p (crypto.hash salt p) ≡ true) (id : ℕ)
    (salt : String) (dto : RegisterUserDto) (t : Users) where
  login_found :
      (now : ℕ) (email password : String) (us : Users) (u : UserEntity)
      → found_user email us ≡ some u
      → login_user crypto now email password us ≡ (
          if crypto.compare password u.password_hash
          then ok (generate_auth_response crypto now u)
          else err invalid_credentials)
  unfolding login_user
  login_found now email password us u e = rw (e, login_user) refl

  -- A user who registers with an email that nobody has gets a token for a customer with the new id and
  -- that email, and gets one for the same payload, signed at its own time, by logging in with that email
  -- and the password; with a password that does not match the stored hash the login is refused. A
  -- password is taken to match its own hash.
  pub login-register :
      (now later : ℕ) (password : String)
      → any (with_email dto.email) t ≡ false
      → crypto.compare password (crypto.hash salt dto.password) ≡ false
      → let payload : JwtPayload = record {
        user_id = id;
        email = dto.email;
        role = some customer;
      } in
        let (r, t') = register_user crypto now id salt dto t in
        (r ≡ ok (crypto.sign now payload))
        × (login_user crypto later dto.email dto.password t' ≡ ok (crypto.sign later payload))
        × (login_user crypto later dto.email password t' ≡ err invalid_credentials)
  unfolding register_user
  login-register now later password new wrong =
      let user = new_user id dto (crypto.hash salt dto.password) in
      let found : found_user dto.email (t ++ user ∷ []) ≡ some user =
        find_new dto.email t user new ((eq_iff dto.email dto.email).1 refl) refl in
      rw new (
        refl,
        login_found later dto.email dto.password _ user found ∙ rw (matches salt dto.password) refl,
        login_found later dto.email password _ user found ∙ rw wrong refl,
      )
