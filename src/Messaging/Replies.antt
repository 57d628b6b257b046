-- ===== src/Messaging/Replies.antt =====
-- What the client is answered, when a handler of a service has returned or thrown.
use nest_microservices_tempo.Prelude.{
  ℤ, pos, String, false, Option, none, some, ◌≡◌, refl, ◌⊎◌, inl, inr, ◌∙◌, sym,
}
use nest_microservices_tempo.Messaging.{
  Value, Values, null, boolean, number, words, array, object, no_field, entry, field, is_boolean,
  HttpExceptions, http, rpc_timeout, other_error, no_error, returned, thrown, error_body,
  success_body, uncaught_exception, service_unavailable, internal_server_error, message_in,
  rpc_intercept, http_intercept, rpc_catch, request, http_catch, served, replied, defined, coalesce,
}

module _ {E : Type 0} (errors : HttpExceptions E) where
  -- An exception as the interfaces of libs/contract/src/base type it.
  pub record IsTyped (e : E) : Type 0 where
    pub status : (n : ℤ) × (errors.get_status e ≡ number n)
    pub message : (m : String) × (message_in errors (errors.get_response e) e ≡ words m)
    pub details :
        (field "details" (errors.get_response e) ≡ none)
        ⊎ ((d : Values) × (field "details" (errors.get_response e) ≡ some (array d)))
    pub code :
        ((c : String) × (errors.error_code e ≡ some (words c)))
        ⊎ ((errors.error_code e ≡ none) × (field "code" (errors.get_response e) ≡ none))

  pub request_value :
      (key : String) (v : Value)
      → is_boolean (field "success" v) ≡ false
      → request errors key (served errors (returned (some v))) ≡ returned (some v)
  unfolding request rpc_intercept
  request_value key null h = refl
  request_value key (boolean b) h = refl
  request_value key (number n) h = refl
  request_value key (words w) h = refl
  request_value key (array l) h = refl
  request_value key (object f) h = rw h refl

  abbrev pub reply_of :
      (code message_ status : Value) → Option Value → (Option Value) × Option Value
  reply_of c m st d = (
    some st,
    some (error_body (entry "code" c (entry "message" m (defined "details" d no_field)))),
  )

  -- An exception that the publisher makes, answered by the gateway's filter.
  made_words :
      (c m : String) (n : ℤ)
      → replied errors (thrown (http (errors.make (words m) (number n) (some (words c)))))
        ≡ reply_of (words c) (words m) (number n) none
  unfolding http_catch
  made_words c m n =
      rw
        (
          errors.make_response (words m) (number n) (some (words c)),
          errors.make_status (words m) (number n) (some (words c)),
          errors.make_code (words m) (number n) (some (words c)),
        )
        refl

  made_details :
      (c m : String) (d : Values) (n : ℤ)
      → let r = object (entry "message" (words m) (entry "details" (array d) no_field)) in
        replied errors (thrown (http (errors.make r (number n) (some (words c)))))
        ≡ reply_of (words c) (words m) (number n) (some (array d))
  unfolding http_catch
  made_details c m d n =
      let r = object (entry "message" (words m) (entry "details" (array d) no_field)) in
      rw
        (
          errors.make_response r (number n) (some (words c)),
          errors.make_status r (number n) (some (words c)),
          errors.make_code r (number n) (some (words c)),
        )
        refl

  -- What the service's filter and the publisher make of an exception.
  across :
      (key : String) (e : E) (c m : String) (n : ℤ) (d : Option Value)
      → coalesce (errors.error_code e) uncaught_exception ≡ words c
      → message_in errors (errors.get_response e) e ≡ words m
      → errors.get_status e ≡ number n
      → field "details" (errors.get_response e) ≡ d
      → (d ≡ none) ⊎ ((l : Values) × (d ≡ some (array l)))
      → replied errors (request errors key (served errors (thrown (http e))))
        ≡ reply_of (words c) (words m) (number n) d
  unfolding request rpc_catch
  across key e c m n d code message_ status details (inl h) =
      rw (code, message_, status, details, h) (made_words c m n)
  across key e c m n d code message_ status details (inr (l, h)) =
      rw (code, message_, status, details, h) (made_details c m l n)

  direct :
      (e : E) (c m : String) (n : ℤ) (d : Option Value)
      → coalesce
          (errors.error_code e)
          (coalesce (field "code" (errors.get_response e)) uncaught_exception)
        ≡ words c
      → message_in errors (errors.get_response e) e ≡ words m
      → errors.get_status e ≡ number n
      → field "details" (errors.get_response e) ≡ d
      → replied errors (thrown (http e)) ≡ reply_of (words c) (words m) (number n) d
  unfolding http_catch
  direct e c m n d code message_ status details = rw (code, message_, status, details) refl

  -- The code that both filters come to.
  codes :
      (e : E)
      → IsTyped e
      → (c : String) × (coalesce (errors.error_code e) uncaught_exception ≡ words c)
        × (coalesce
              (errors.error_code e)
              (coalesce (field "code" (errors.get_response e)) uncaught_exception)
            ≡ words c)
  codes e t = elim t.code [
    | inl (c, h) ↦ (c, (rw h refl), (rw h refl))
    | inr (h, k) ↦ ("SYS_999", (rw h refl), (rw (h, k) refl))
  ]

  details_cases :
      (e : E)
      → IsTyped e
      → (field "details" (errors.get_response e) ≡ none)
        ⊎ ((l : Values) × (field "details" (errors.get_response e) ≡ some (array l)))
  details_cases e t = t.details

  far_error :
      (key m : String)
      → replied errors (request errors key (served errors (thrown (other_error m))))
        ≡ reply_of uncaught_exception (words m) internal_server_error none
  unfolding request rpc_catch
  far_error key m = made_words "SYS_999" m (pos 500)

  far_none :
      (key : String)
      → replied errors (request errors key (served errors (thrown no_error)))
        ≡ reply_of uncaught_exception (words "Internal server error") internal_server_error none
  unfolding request rpc_catch
  far_none key = made_words "SYS_999" "Internal server error" (pos 500)

  near_error :
      (m : String)
      → replied errors (thrown (other_error m))
        ≡ reply_of uncaught_exception (words "Uncaught exception") internal_server_error none
  unfolding http_catch
  near_error m = refl

  timed_out :
      (key m : String)
      → replied errors (request errors key (thrown (rpc_timeout m)))
        ≡ reply_of service_unavailable (words key) (number (pos 504)) none
  unfolding request http_catch
  timed_out key m =
      let (f, response, said, no_details) =
        errors.timeout_message (words key) (some service_unavailable) in
      rw
        (
          response,
          errors.timeout_status (words key) (some service_unavailable),
          errors.timeout_code (words key) (some service_unavailable),
          said,
          no_details,
        )
        refl

  -- An HttpException that a handler of a service throws, and whose fields are of the types that the
  -- contract gives them, is answered to the client, across the broker, just as if the gateway had
  -- thrown it: with its status, its error code, its message and its details.
  pub reply_exception :
      (key : String) (e : E)
      → IsTyped e
      → replied errors (request errors key (served errors (thrown (http e))))
        ≡ replied errors (thrown (http e))
  reply_exception key e t =
      let (c, far, near) = codes e t in
      let (m, said) = t.message in
      let (n, status) = t.status in
      across key e c m n _ far said status refl (details_cases e t)
      ∙ sym (direct e c m n _ near said status refl)

  -- A value that a handler returns gets back to the caller as it is, unless it has a boolean field
  -- `success`, and to the client in an envelope; undefined becomes null.
  pub reply_value :
      (key : String) (v : Value)
      → is_boolean (field "success" v) ≡ false
      → (request errors key (served errors (returned (some v))) ≡ returned (some v))
        × (request errors key (served errors (returned none)) ≡ returned (some null))
        × (replied errors (returned (some v)) ≡ (none, some (success_body (some v))))
  unfolding request rpc_intercept http_intercept
  reply_value key v h = (request_value key v h, refl, refl)

  -- What is no HttpException is answered with 500 and UNCAUGHT_EXCEPTION: with the message of the
  -- Error that the service has thrown, though the gateway withholds that of its own; and a service
  -- that does not answer in time with 504 and SERVICE_UNAVAILABLE.
  pub reply_error :
      (key m : String)
      → (replied errors (request errors key (served errors (thrown (other_error m))))
          ≡ reply_of uncaught_exception (words m) internal_server_error none)
        × (replied errors (request errors key (served errors (thrown no_error)))
            ≡ reply_of uncaught_exception
                (words "Internal server error")
                internal_server_error
                none)
        × (replied errors (thrown (other_error m))
            ≡ reply_of uncaught_exception (words "Uncaught exception") internal_server_error none)
        × (replied errors (request errors key (thrown (rpc_timeout m)))
            ≡ reply_of service_unavailable (words key) (number (pos 504)) none)
  reply_error key m = (far_error key m, far_none key, near_error m, timed_out key m)
