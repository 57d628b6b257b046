-- ===== src/Messaging/Tests.antt =====
-- Exceptions as records, and the theorems at replies of a service.
use nest_microservices_tempo.Prelude.{pos, true, ◌≡◌, Option, none, some, refl, inl}
use nest_microservices_tempo.Messaging.{
  Value, number, words, boolean, rpc_intercept, object, no_field, entry, HttpExceptions, http,
  rpc_timeout, other_error, no_error, returned, thrown, uncaught_exception, service_unavailable,
  internal_server_error, request, served, replied,
}
use nest_microservices_tempo.Messaging.Context.{
  ClsStore, empty_store, setup_gateway, request_headers, setup_service,
}
use nest_microservices_tempo.Messaging.Replies.{IsTyped, reply_of, reply_exception, reply_error}

pub record Thing : Type 0 where
  response : Value
  status : Value
  code : Option Value

abbrev pub errors : HttpExceptions Thing
errors = record {
  get_response = λ e. e.response;
  get_status = λ e. e.status;
  message = λ e. "Http Exception";
  error_code = λ e. e.code;
  make = λ r s c. record { response = r; status = s; code = c };
  gateway_timeout = λ m c. record {
    response = object (entry "message" m (entry "statusCode" (number (pos 504)) no_field));
    status = number (pos 504);
    code = c;
  };
  make_response = λ r s c. refl;
  make_status = λ r s c. refl;
  make_code = λ r s c. refl;
  timeout_status = λ m c. refl;
  timeout_code = λ m c. refl;
  timeout_message = λ m c. (_, refl, refl, refl);
}

abbrev not_found : Thing
not_found = record {
  response =
      object (
        entry "message" (words "Order not found") (entry "statusCode" (number (pos 404)) no_field));
  status = number (pos 404);
  code = some (words "ORD_001");
}

not_found-IsTyped : IsTyped errors not_found
not_found-IsTyped = record {
  status = (pos 404, refl);
  message = ("Order not found", refl);
  details = inl refl;
  code = inl ("ORD_001", refl);
}

reply_exception_example :
    replied errors (request errors "late" (served errors (thrown (http not_found))))
    ≡ replied errors (thrown (http not_found))
reply_exception_example = reply_exception errors "late" not_found not_found-IsTyped

abbrev receipt : Value
receipt = object (entry "id" (number (pos 7)) no_field)

-- A value comes back, and one with a field `success` of its own is taken for an envelope.
value_back :
    request errors "late" (served errors (returned (some receipt))) ≡ returned (some receipt)
unfolding request rpc_intercept
value_back = refl

enveloped :
    request errors "late"
      (served errors (returned (some (object (entry "success" (boolean true) no_field)))))
    ≡ returned none
unfolding request rpc_intercept
enveloped = refl

reply_error_example :
    (replied errors (request errors "late" (served errors (thrown (other_error "syntax"))))
      ≡ reply_of errors uncaught_exception (words "syntax") internal_server_error none)
    × (replied errors (request errors "late" (served errors (thrown no_error)))
        ≡ reply_of errors uncaught_exception
            (words "Internal server error")
            internal_server_error
            none)
    × (replied errors (thrown (other_error "syntax"))
        ≡ reply_of errors uncaught_exception
            (words "Uncaught exception")
            internal_server_error
            none)
    × (replied errors (request errors "late" (thrown (rpc_timeout "syntax")))
        ≡ reply_of errors service_unavailable (words "late") (number (pos 504)) none)
reply_error_example = reply_error errors "late" "syntax"

abbrev signed_in : ClsStore
signed_in = record { correlation_id = none; user_id = some 3 }

context_kept :
    setup_service true (some (request_headers (setup_gateway "c-1" signed_in).1)) empty_store
    ≡ record { correlation_id = some "c-1"; user_id = some 3 }
unfolding setup_service request_headers setup_gateway
context_kept = refl
