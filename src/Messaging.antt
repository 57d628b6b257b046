-- ===== src/Messaging.antt =====
-- libs/messaging/src and the two HTTP-layer counterparts in libs/common/src: how an answer or an error
-- of a service gets back to the client. The service's interceptor wraps what a handler returns
-- (interceptor/rmq-rpc-response.interceptor.ts), its filter what it throws
-- (filter/rmq-rpc-exception.filter.ts); the gateway's publisher unwraps either
-- (publisher/rmq-publisher.service.ts), and the gateway's interceptor and filter answer the request
-- (interceptor/http-response.interceptor.ts, filter/http-exception.filter.ts). A value is what JSON
-- carries; `none` is JavaScript's undefined, and a field that is undefined is left out.
pub mod Replies
pub mod Context
pub mod Tests
use nest_microservices_tempo.Prelude.{
  ℕ, ℤ, pos, String, Bool, true, false, not, Option, none, some, if◌then◌else◌, ◌==◌, ◌≡◌,
}
use text.Mathlib.Text.{◌==◌ as str_eq}

mutual
  pub data Value : Type 0 where
    null : Value
    boolean : Bool → Value
    number : ℤ → Value
    words : String → Value
    array : Values → Value
    object : Fields → Value

  pub data Values : Type 0 where
    no_item : Values
    item : Value → Values → Values

  pub data Fields : Type 0 where
    no_field : Fields
    entry : String → Value → Fields → Fields

abbrev pub member : String → Fields → Option Value
member k no_field = none
member k (entry name v rest) = if str_eq name k then some v else member k rest

-- `isObject(v) ? v[k] : undefined`; an array is no object.
abbrev pub field : String → Value → Option Value
field k (object f) = member k f
field k _ = none

-- `a ?? b`
abbrev pub coalesce : Option Value → Value → Value
coalesce none b = b
coalesce (some null) b = b
coalesce (some v) b = v

-- `if (v)`
abbrev pub is_truthy : Option Value → Bool
is_truthy none = false
is_truthy (some null) = false
is_truthy (some (boolean b)) = b
is_truthy (some (number n)) = elim n [ pos n ↦ not (n == 0) | _ ↦ true ]
is_truthy (some (words s)) = not (str_eq s "")
is_truthy (some (array v)) = true
is_truthy (some (object f)) = true

abbrev pub is_boolean : Option Value → Bool
is_boolean (some (boolean b)) = true
is_boolean _ = false

-- An object literal's field, left out if it is undefined.
abbrev pub defined : String → Option Value → Fields → Fields
defined k none rest = rest
defined k (some v) rest = entry k v rest

abbrev pub uncaught_exception : Value
uncaught_exception = words "SYS_999"

abbrev pub service_unavailable : Value
service_unavailable = words "SYS_005"

-- Nest's HttpException, which is not code of the repository: what the code reads of an exception, and
-- the two constructors that the publisher calls, with the response, the status and the error code.
pub record HttpExceptions (E : Type 0) : Type 0 where
  pub get_response : E → Value
  pub get_status : E → Value
  pub message : E → String
  pub error_code : E → Option Value
  pub make : Value → Value → Option Value → E
  pub gateway_timeout : Value → Option Value → E
  pub make_response : (r s : Value) (c : Option Value) → get_response (make r s c) ≡ r
  pub make_status : (r s : Value) (c : Option Value) → get_status (make r s c) ≡ s
  pub make_code : (r s : Value) (c : Option Value) → error_code (make r s c) ≡ c
  pub timeout_status :
      (m : Value) (c : Option Value) → get_status (gateway_timeout m c) ≡ number (pos 504)
  pub timeout_code : (m : Value) (c : Option Value) → error_code (gateway_timeout m c) ≡ c
  pub timeout_message :
      (m : Value) (c : Option Value)
      → (f : Fields) × (get_response (gateway_timeout m c) ≡ object f)
        × (member "message" f ≡ some m)
        × (member "details" f ≡ none)

-- What is thrown: an HttpException, the broker's RpcTimeoutError, another Error, or no Error at all.
pub data Thrown (E : Type 0) : Type 0 where
  http : E → Thrown E
  rpc_timeout : String → Thrown E
  other_error : String → Thrown E
  no_error : Thrown E

pub record HttpReply : Type 0 where
  pub status : Value
  pub body : Value

pub data Outcome (E : Type 0) : Type 0 where
  returned : Option Value → Outcome E
  thrown : Thrown E → Outcome E

abbrev pub internal_server_error : Value
internal_server_error = number (pos 500)

abbrev pub error_body : Fields → Value
error_body f = object (entry "success" (boolean false) (entry "error" (object f) no_field))

abbrev pub success_body : Option Value → Value
success_body data_ = object (entry "success" (boolean true) (defined "data" data_ no_field))

-- RmqRpcResponseInterceptor, on what the handler returns.
unfoldable pub rpc_intercept : (is_rabbit : Bool) → Option Value → Option Value
rpc_intercept false v = v
rpc_intercept true none = some (success_body (some (coalesce none null)))
rpc_intercept true (some v) =
    if is_boolean (field "success" v)
    then some v
    else some (success_body (some (coalesce (some v) null)))

-- HttpResponseInterceptor.
unfoldable pub http_intercept : (is_http is_metrics : Bool) → Option Value → Option Value
http_intercept false m v = v
http_intercept true true v = v
http_intercept true false v = some (success_body v)

abbrev uncaught_payload : Value → Fields
uncaught_payload m =
    entry "code" uncaught_exception
      (entry "message" m (entry "status" internal_server_error no_field))

module _ {E : Type 0} (errors : HttpExceptions E) where
  open errors use {get_response, get_status, message, error_code, make, gateway_timeout}

  -- The message of an exception, as both filters read it.
  abbrev pub message_in : Value → E → Value
  message_in (words s) e = words s
  message_in r e = coalesce (field "message" r) (words (message e))

  -- RmqRpcExceptionFilter.catch.
  unfoldable pub rpc_catch : Thrown E → Value
  rpc_catch (http e) = error_body (
      entry "code" (coalesce (error_code e) uncaught_exception) (
        entry "message" (message_in (get_response e) e) (
          entry "status" (get_status e)
            (defined "details" (field "details" (get_response e)) no_field))))
  rpc_catch (rpc_timeout m) = error_body (uncaught_payload (words m))
  rpc_catch (other_error m) = error_body (uncaught_payload (words m))
  rpc_catch no_error = error_body (uncaught_payload (words "Internal server error"))

  -- RmqPublisherService.request: the headers that it sends are in Messaging/Context, and `answer` is
  -- what the broker gives, the response of the service or an error of its own. A response without an
  -- error object makes the reading of its fields throw.
  abbrev thrown_with : Value → Thrown E
  thrown_with e = http (
      make
        (if is_truthy (field "details" e)
          then object (
              defined "message" (field "message" e)
                (defined "details" (field "details" e) no_field))
          else coalesce (field "message" e) null)
        (coalesce (field "status" e) internal_server_error) (field "code" e))

  abbrev thrown_for : Option Value → Thrown E
  thrown_for none = other_error "Cannot read properties of undefined"
  thrown_for (some null) = other_error "Cannot read properties of null"
  thrown_for (some e) = thrown_with e

  abbrev rethrown_rpc : String → Thrown E → Thrown E
  rethrown_rpc key (rpc_timeout m) = http (gateway_timeout (words key) (some service_unavailable))
  rethrown_rpc key (http e) = http e
  rethrown_rpc key (other_error m) = other_error m
  rethrown_rpc key no_error = no_error

  -- Inside the `try`.
  abbrev unwrapped : Outcome E → Outcome E
  unwrapped (thrown e) = thrown e
  unwrapped (returned none) = thrown (other_error "Cannot read properties of undefined")
  unwrapped (returned (some null)) = thrown (other_error "Cannot read properties of null")
  unwrapped (returned (some v)) =
      if is_truthy (field "success" v)
      then returned (field "data" v)
      else thrown (thrown_for (field "error" v))

  abbrev caught : String → Outcome E → Outcome E
  caught key (thrown e) = thrown (rethrown_rpc key e)
  caught key (returned v) = returned v

  -- `timeout_text` is the message with the routing key put in.
  unfoldable pub request : (timeout_text : String) → (answer : Outcome E) → Outcome E
  request timeout_text answer = caught timeout_text (unwrapped answer)

  -- HttpExceptionFilter.catch.
  unfoldable pub http_catch : Thrown E → HttpReply
  http_catch (http e) = record {
    status = get_status e;
    body = error_body (
        entry "code"
          (coalesce (error_code e) (coalesce (field "code" (get_response e)) uncaught_exception))
          (entry "message" (message_in (get_response e) e)
            (defined "details" (field "details" (get_response e)) no_field)));
  }
  http_catch e = record {
    status = internal_server_error;
    body =
        error_body
          (entry "code" uncaught_exception (entry "message" (words "Uncaught exception") no_field));
  }

  -- A handler of a service, behind its filter and its interceptor, as the broker delivers it.
  abbrev pub served : Outcome E → Outcome E
  served (returned v) = returned (rpc_intercept true v)
  served (thrown e) = returned (some (rpc_catch e))

  -- A handler of the gateway that passes on what `request` gives, behind the gateway's filter and
  -- interceptor: a status of `none` is the route's own.
  abbrev pub replied : Outcome E → (Option Value) × Option Value
  replied (returned v) = (none, http_intercept true false v)
  replied (thrown e) = let r = http_catch e in (some r.status, some r.body)
