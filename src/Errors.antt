-- ===== src/Errors.antt =====
-- The exceptions that the services throw, with the error codes that they carry:
-- libs/contract/src/*/error/*.ts. A message is the template that the code writes, with the values
-- that are put into it; of a class of exceptions the model keeps the status and the code.
use nest_microservices_tempo.Prelude.{
  ℕ, String, Bool, Option, none, some, true, List, ◌≡◌, refl, ◌⊎◌, inl, inr,
}

pub data InventoryErrorCode : Type 0 where
  adjustment_failed restore_failed not_found : InventoryErrorCode

pub data OrderErrorCode : Type 0 where
  not_found not_cancelable order_not_found create_order_failed delete_order_failed : OrderErrorCode
  update_order_failed workflow_failed : OrderErrorCode

pub data PaymentErrorCode : Type 0 where
  processing_failed declined : PaymentErrorCode

pub data ProductErrorCode : Type 0 where
  not_found category_not_found brand_not_found delete_product_failed tag_not_found :
      ProductErrorCode

pub data ShippingErrorCode : Type 0 where
  not_found : ShippingErrorCode

pub data UserErrorCode : Type 0 where
  email_exists invalid_credentials not_found : UserErrorCode

pub data SystemErrorCode : Type 0 where
  invalid_input validation_failed forbidden unauthorized service_unavailable : SystemErrorCode
  idempotency_key_required idempotency_key_invalid idempotency_key_conflict : SystemErrorCode
  idempotency_key_not_found idempotency_key_payload_mismatch too_many_requests : SystemErrorCode
  idempotency_key_kept_changing uncaught_exception : SystemErrorCode

-- The union `AppErrorCode`.
pub data AppErrorCode : Type 0 where
  inventory : InventoryErrorCode → AppErrorCode
  order : OrderErrorCode → AppErrorCode
  payment : PaymentErrorCode → AppErrorCode
  product : ProductErrorCode → AppErrorCode
  shipping : ShippingErrorCode → AppErrorCode
  user : UserErrorCode → AppErrorCode
  system : SystemErrorCode → AppErrorCode

-- `about s n` is the template `s` with the id `n` put in.
pub data Message : Type 0 where
  text : String → Message
  about : String → ℕ → Message
  about_two : String → ℕ → ℕ → Message
  about_list : String → List ℕ → Message
  with_status : String → ℕ → String → Message
  wrapping : String → Message → Message

pub data Exception : Type 0 where
  -- Nest's HttpException and its subclasses, told apart by their status.
  http : (status : ℕ) → Message → Option AppErrorCode → Exception
  -- Temporal's ApplicationFailure: message, type, nonRetryable, nextRetryDelay.
  application_failure : Message → Option String → Bool → Option ℕ → Exception
  -- The resilience library's CircuitOpenError, with its retryAfterMs.
  circuit_open : ℕ → Exception
  -- Stripe.errors.StripeError: statusCode, if it is a number, message, type.
  stripe_error : Option ℕ → Message → String → Exception
  -- Any other Error, such as one of the database or of the network.
  error : Message → Exception
  -- A thrown value that is no Error.
  unknown_value : Exception

pub data Result {ℓ} (A : Type ℓ) : Type ℓ where
  ok : A → Result A
  err : Exception → Result A

-- What is done after a result; a thrown error is passed on. An `abbrev`, so that it computes.
infixl 5 ◌>>=◌
abbrev pub ◌>>=◌ {ℓ} : {A B : Type ℓ} → Result A → (A → Result B) → Result B
err thrown >>= next = err thrown
ok value >>= next = next value

-- `if (!row) throw e; return row`
abbrev pub or_throw {ℓ} : {A : Type ℓ} → Option A → Exception → Result A
or_throw none e = err e
or_throw (some a) e = ok a

-- The subclasses that the code names.
abbrev pub bad_request_exception : Message → AppErrorCode → Exception
bad_request_exception m c = http 400 m (some c)

abbrev pub unauthorized_exception : Message → AppErrorCode → Exception
unauthorized_exception m c = http 401 m (some c)

abbrev pub forbidden_exception : Message → AppErrorCode → Exception
forbidden_exception m c = http 403 m (some c)

abbrev pub not_found_exception : Message → AppErrorCode → Exception
not_found_exception m c = http 404 m (some c)

abbrev pub conflict_exception : Message → AppErrorCode → Exception
conflict_exception m c = http 409 m (some c)

abbrev pub internal_server_error_exception : Message → AppErrorCode → Exception
internal_server_error_exception m c = http 500 m (some c)

abbrev pub service_unavailable_exception : Message → AppErrorCode → Exception
service_unavailable_exception m c = http 503 m (some c)

-- `error instanceof Error ? error.message : 'Unknown error'`
abbrev pub message_of : Exception → Message
message_of (http s m c) = m
message_of (application_failure m t n d) = m
message_of (circuit_open ms) = text "Circuit open"
message_of (stripe_error s m t) = m
message_of (error m) = m
message_of unknown_value = text "Unknown error"

-- `ApplicationFailure.nonRetryable(message)`, with the type if one is given.
abbrev pub non_retryable : Message → Option String → Exception
non_retryable m t = application_failure m t true none

-- What has returned has returned at each of its parts.
pub returned_parts {ℓ} :
    {A B : Type ℓ} {last : B} (first : Result A) (next : A → Result B)
    → (first >>= next) ≡ ok last
    → (value : A) × (first ≡ ok value) × (next value ≡ ok last)
returned_parts (err thrown) next e = cc
returned_parts (ok value) next e = (value, refl, e)

-- To split on a result and keep the equation.
pub Result-cases :
    {A : Type 0} (r : Result A) → ((e : Exception) × (r ≡ err e)) ⊎ ((a : A) × (r ≡ ok a))
Result-cases (err e) = inl (e, refl)
Result-cases (ok a) = inr (a, refl)
