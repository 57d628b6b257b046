-- ===== src/Auth.antt =====
-- libs/auth/src/guard: the roles guard, and what the JWT guard adds to Passport's. The token, its
-- check and the request's parts are arguments.
pub mod Roles
mod Tests
use nest_microservices_tempo.Prelude.{
  ℕ, zero, suc, String, Bool, true, false, ◌||◌, Option, none, some, List, ◌==◌, if◌then◌else◌, any,
}
use nest_microservices_tempo.Errors.{
  Message, Exception, Result, ok, err, AppErrorCode, SystemErrorCode, forbidden_exception,
  unauthorized_exception,
}

pub data UserRole : Type 0 where
  admin staff customer : UserRole

-- The values of the enum.
abbrev pub role_value : UserRole → ℕ
role_value admin = 0
role_value staff = 1
role_value customer = 2

pub record JwtPayload : Type 0 where
  pub user_id : ℕ
  pub email : String
  pub role : Option UserRole

-- `user.role`, as a condition: undefined and 0 are false.
abbrev pub has_role : Option UserRole → Bool
has_role none = false
has_role (some r) = elim (role_value r) [ zero ↦ false | suc n ↦ true ]

abbrev pub includes : List UserRole → Option UserRole → Bool
includes roles none = false
includes roles (some r) = any (λ q. role_value q == role_value r) roles

abbrev pub forbidden : String → Exception
forbidden m = forbidden_exception (Message.text m) (AppErrorCode.system SystemErrorCode.forbidden)

abbrev pub no_role : Exception
no_role = forbidden "User role not found"

abbrev pub not_permitted : Exception
not_permitted = forbidden "You do not have permission to access this resource"

abbrev pub check_user : List UserRole → Option JwtPayload → Result (Unit {0})
check_user required none = err no_role
check_user required (some user) =
    if has_role user.role
    then (if includes required user.role then ok tt else err not_permitted)
    else err no_role

-- RolesGuard.canActivate
unfoldable pub roles_can_activate :
    (is_http : Bool) (required_roles : Option (List UserRole))
    → Option JwtPayload
    → Result (Unit {0})
roles_can_activate false required user = ok tt
roles_can_activate true none user = ok tt
roles_can_activate true (some required) user = check_user required user

-- JwtAuthGuard.canActivate: `authenticate` is Passport's part.
unfoldable pub jwt_can_activate :
    (is_http has_metrics_url is_public : Bool) (authenticate : Result (Unit {0}))
    → Result (Unit {0})
jwt_can_activate false has_metrics_url is_public authenticate = ok tt
jwt_can_activate true has_metrics_url is_public authenticate =
    if has_metrics_url || is_public then ok tt else authenticate

-- What Passport reports of a failure.
pub data Info : Type 0 where
  not_an_error : Info
  token_expired_error wrong_secret_provider_error json_web_token_error : Info
  other_error : Message → Info

abbrev pub info_message : Info → Message
info_message not_an_error = Message.text "Authentication token is missing"
info_message token_expired_error = Message.text "Authentication token has expired"
info_message wrong_secret_provider_error = Message.text "Invalid authentication token secret key"
info_message json_web_token_error = Message.text "Authentication token is invalid"
info_message (other_error m) = m

abbrev pub unauthorized : Info → Exception
unauthorized info =
    unauthorized_exception (info_message info) (AppErrorCode.system SystemErrorCode.unauthorized)

-- JwtAuthGuard.handleRequest, with the `userId` that it leaves in the request's context.
unfoldable pub handle_request :
    (has_err : Bool) → Option JwtPayload → Info → Option ℕ → Result JwtPayload × Option ℕ
handle_request true user info context = (err (unauthorized info), context)
handle_request false none info context = (err (unauthorized info), context)
handle_request false (some user) info context = (ok user, some user.user_id)
