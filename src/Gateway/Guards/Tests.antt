-- ===== src/Gateway/Guards/Tests.antt =====
-- A request without a token, and over its limit, whose URL contains /metrics in its query; and one
-- that does not.
use nest_microservices_tempo.Prelude.{String, ◌≡◌, ◌↔◌, refl, false, none}
use nest_microservices_tempo.Errors.{Message, Exception, Result, ok, err}
use nest_microservices_tempo.Auth.{
  not_an_error, unauthorized, jwt_can_activate, roles_can_activate, handle_request,
}
use nest_microservices_tempo.Gateway.Guards.{
  Request, guards, guards_lem, IsLet, has_metrics_url, skip_if,
}

abbrev too_many : Exception
too_many = Exception.http 429 (Message.text "Too Many Requests") none

abbrev request_to : Result (Unit {0}) → String → Request
request_to limit url = record {
  url = url;
  is_public = false;
  required_roles = none;
  throttler = limit;
  has_err = false;
  payload = none;
  info = not_an_error;
}

-- Whatever the throttler says.
let_in : (limit : Result (Unit {0})) → guards (request_to limit "/api/v1/orders?x=/metrics") ≡ ok tt
unfolding guards has_metrics_url skip_if jwt_can_activate roles_can_activate handle_request
let_in limit = refl

kept_out : guards (request_to (ok tt) "/api/v1/orders") ≡ err (unauthorized not_an_error)
unfolding guards has_metrics_url skip_if jwt_can_activate roles_can_activate handle_request
kept_out = refl

guards_lem_example :
    (guards (request_to (err too_many) "/api/v1/orders?x=/metrics") ≡ ok tt)
    ↔ IsLet (request_to (err too_many) "/api/v1/orders?x=/metrics")
guards_lem_example = guards_lem (request_to (err too_many) "/api/v1/orders?x=/metrics")
