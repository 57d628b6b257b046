-- ===== src/Payment.antt =====
-- apps/payment-service/src: the table of payments (entity/payment-transaction.entity.ts) and the
-- charge and the refund of an order (payment-service.service.ts, activity/*.ts).
-- Stripe behind the circuit breaker is a parameter, and so is whether the database accepts a write:
-- a charge may go through and its row be lost. Totals are in whole dollars, so `Math.round` is exact.
pub mod Stripe
pub mod Settle
pub mod Charge
pub mod Touches
pub mod Others
pub mod Numbered
pub mod Tests
use text.Mathlib.Text.{◌==◌ as str_eq}
use nest_microservices_tempo.Prelude.{
  ℕ, ℤ, pos, ◌*ℤ◌, String, Bool, true, false, not, ◌&&◌, ◌||◌, Option, none, some, List, [], ◌∷◌,
  ◌++◌, ltb, leb, ◌==◌, if◌then◌else◌, find?, any,
}
use nest_microservices_tempo.Errors.{
  Message, Exception, http, application_failure, circuit_open, stripe_error, error, Result, ok, err,
  AppErrorCode, PaymentErrorCode, bad_request_exception, internal_server_error_exception,
  service_unavailable_exception, non_retryable, message_of,
}
use nest_microservices_tempo.Store.{update_rows}

pub data PaymentStatus : Type 0 where
  pending success failed refunded : PaymentStatus

pub record PaymentTransactionEntity : Type 0 where
  pub id : ℕ
  pub order_id : ℕ
  pub stripe_payment_id : String
  pub amount : ℤ
  pub currency : String
  pub status : PaymentStatus

abbrev pub Payments : Type 0
Payments = List PaymentTransactionEntity

-- What Stripe returns.
pub record PaymentIntent : Type 0 where
  pub id : String
  pub amount : ℤ
  pub currency : String
  pub status : String

pub record Refund : Type 0 where
  pub id : String
  pub status : String

pub record IntentRequest : Type 0 where
  pub amount : ℤ
  pub currency : String
  pub payment_method : String
  pub confirm : Bool
  pub order_id : ℕ

-- `charge_order_${orderId}` and `refund_order_${orderId}`
pub data IdempotencyKey : Type 0 where
  charge_order refund_order : ℕ → IdempotencyKey

-- Stripe's client, called through the circuit breaker's policy.
pub record Gateway (S : Type 0) : Type 0 where
  pub create_intent : IntentRequest → IdempotencyKey → S → Result PaymentIntent × S
  pub create_refund : (payment_intent : String) → IdempotencyKey → S → Result Refund × S

abbrev pub succeeded : String → Bool
succeeded status = str_eq status "succeeded"

abbrev pub intent_request : ℕ → ℤ → IntentRequest
intent_request o total = record {
  amount = total *ℤ pos 100;
  currency = "usd";
  payment_method = "pm_card_visa";
  confirm = true;
  order_id = o;
}

-- Stripe 4xx except 408 (timeout) and 429 (rate limit).
unfoldable pub is_stripe_client_error : Exception → Bool
is_stripe_client_error (stripe_error (some code) m t) =
    leb 400 code && ltb code 500 && not (code == 408) && not (code == 429)
is_stripe_client_error _ = false

abbrev is_bad_request : Exception → Bool
is_bad_request (http s m c) = s == 400
is_bad_request _ = false

-- `error instanceof StripeError ? error.type : error.name`
abbrev failure_type : Exception → String
failure_type (stripe_error s m t) = t
failure_type _ = "BadRequestException"

-- The catch block of the charge.
unfoldable pub charge_failure : Exception → Exception
charge_failure (circuit_open ms) =
    application_failure
      (Message.about "Stripe service is temporarily unavailable (Circuit Breaker). Retry after #ms"
        ms)
      (some "CircuitOpenError") false (some ms)
charge_failure e =
    if is_stripe_client_error e || is_bad_request e
    then non_retryable (message_of e) (some (failure_type e))
    else e

-- The catch blocks of the refund.
unfoldable pub refund_failure : Exception → Exception
refund_failure (circuit_open ms) =
    service_unavailable_exception
      (Message.text "Stripe service is temporarily unavailable (Circuit Breaker)")
      (AppErrorCode.payment PaymentErrorCode.processing_failed)
refund_failure e = e

abbrev pub of_order : ℕ → PaymentTransactionEntity → Bool
of_order o r = r.order_id == o

abbrev pub is_success : PaymentTransactionEntity → Bool
is_success r = elim r.status [ success ↦ true | _ ↦ false ]

abbrev pub is_refunded : PaymentTransactionEntity → Bool
is_refunded r = elim r.status [ refunded ↦ true | _ ↦ false ]

abbrev pub database_error : Exception
database_error = error (Message.text "database error")

abbrev pub transaction_of : ℕ → ℕ → PaymentIntent → PaymentStatus → PaymentTransactionEntity
transaction_of id o intent status = record {
  id = id;
  order_id = o;
  stripe_payment_id = intent.id;
  amount = intent.amount;
  currency = intent.currency;
  status = status;
}

-- A row whose order or whose intent is there already is refused: both columns are unique.
abbrev pub taken : PaymentTransactionEntity → Payments → Bool
taken r t =
    any (λ q. (q.order_id == r.order_id) || str_eq q.stripe_payment_id r.stripe_payment_id) t

abbrev pub save : Bool → PaymentTransactionEntity → Payments → Result ℕ × Payments
save accepts r t =
    if accepts && not (taken r t) then (ok r.id, t ++ r ∷ []) else (err database_error, t)

abbrev pub payment_failed : String → ℕ → String → Exception
payment_failed template o status =
    internal_server_error_exception (Message.with_status template o status)
      (AppErrorCode.payment PaymentErrorCode.processing_failed)

module _ {S : Type 0} (g : Gateway S) (accepts : Bool) (id : ℕ) where
  -- What follows the answer to a charge, inside the `try`.
  abbrev record_charge : ℕ → Result PaymentIntent × S → Payments → Result ℕ × S × Payments
  record_charge o (err e, s) t = (err (charge_failure e), s, t)
  record_charge o (ok intent, s) t =
      let (saved, t') = save accepts (transaction_of id o intent success) t in
      if succeeded intent.status
      then (elim saved [ ok n ↦ ok n | err e ↦ err (charge_failure e) ], s, t')
      else (
        err (
            charge_failure (
              bad_request_exception
                (Message.with_status "[Order #] Payment failed: $" o intent.status)
                (AppErrorCode.payment PaymentErrorCode.processing_failed))),
        s,
        t,
      )

  unfoldable pub charge_payment :
      (order_id : ℕ) (total_amount : ℤ) → S → Payments → Result ℕ × S × Payments
  charge_payment o total s t = elim (find? (λ r. of_order o r && is_success r) t) [
    | some r ↦ (ok r.id, s, t)
    | none ↦ record_charge o (g.create_intent (intent_request o total) (charge_order o) s) t
  ]

  -- The refund of a payment that has a row.
  abbrev record_refund :
      ℕ → PaymentTransactionEntity → Result Refund × S → Payments → Result (Unit {0}) × S × Payments
  record_refund o r (err e, s) t = (err (refund_failure e), s, t)
  record_refund o r (ok refund, s) t =
      if succeeded refund.status
      then (if accepts
          then (ok tt, s, update_rows (λ q. q.id == r.id) (λ q. record q { status = refunded }) t)
          else (err database_error, s, t))
      else (err (payment_failed "[Order #] Refund failed: $" o refund.status), s, t)

  abbrev refund_known :
      ℕ → PaymentTransactionEntity → S → Payments → Result (Unit {0}) × S × Payments
  refund_known o r s t =
      if is_refunded r
      then (ok tt, s, t)
      else record_refund o r (g.create_refund r.stripe_payment_id (refund_order o) s) t

  -- The refund of a charge whose row is missing, after its intent has been looked up.
  abbrev record_dangling :
      ℕ → PaymentIntent → Result Refund × S → Payments → Result (Unit {0}) × S × Payments
  record_dangling o intent (err e, s) t = (err (refund_failure e), s, t)
  record_dangling o intent (ok refund, s) t =
      let (saved, t') = save accepts (transaction_of id o intent refunded) t in
      if succeeded refund.status
      then (elim saved [ ok n ↦ ok tt | err e ↦ err e ], s, t')
      else (err (payment_failed "[Order #] Stripe refund failed: $" o refund.status), s, t)

  abbrev refund_dangling :
      ℕ → Result PaymentIntent × S → Payments → Result (Unit {0}) × S × Payments
  refund_dangling o (err e, s) t = (err (refund_failure e), s, t)
  refund_dangling o (ok intent, s) t =
      if succeeded intent.status
      then record_dangling o intent (g.create_refund intent.id (refund_order o) s) t
      else (ok tt, s, t)

  abbrev refund_unknown : ℕ → Option ℤ → S → Payments → Result (Unit {0}) × S × Payments
  refund_unknown o none s t = (
    err (
        bad_request_exception
          (Message.about
            "Transaction not found in DB for order # and totalAmount was not provided for lookup."
            o)
          (AppErrorCode.payment PaymentErrorCode.processing_failed)),
    s,
    t,
  )
  refund_unknown o (some total) s t =
      refund_dangling o (g.create_intent (intent_request o total) (charge_order o) s) t

  unfoldable pub refund_payment :
      (order_id : ℕ) (total_amount : Option ℤ) → S → Payments → Result (Unit {0}) × S × Payments
  refund_payment o total s t = elim (find? (of_order o) t) [
    | some r ↦ refund_known o r s t
    | none ↦ refund_unknown o total s t
  ]
