-- ===== src/Order/Service.antt =====
-- apps/order-service/src/order-service.service.ts: the RPC handlers of the orders. Starting a
-- workflow is Temporal's part: a function of the workflow and of a state that is not read here.
use nest_microservices_tempo.Prelude.{
  ℕ, String, Bool, Option, none, some, List, ◌==◌, if◌then◌else◌, find?, keep, false,
}
use nest_microservices_tempo.Errors.{
  Message, Exception, Result, ok, err, or_throw, AppErrorCode, OrderErrorCode,
  bad_request_exception, internal_server_error_exception, not_found_exception,
}
use nest_microservices_tempo.Store.{update_rows}
use nest_microservices_tempo.Order.{
  CreateOrderDto, CancelOrderDto, OrderEntity, Orders, OrderStatus, status_name, is_cancelable,
}

-- The workflows that the services start, with their arguments.
pub data Workflow : Type 0 where
  place_order : CreateOrderDto → Option ℕ → Workflow
  cancel_order : CancelOrderDto → Workflow

pub record WorkflowExecutionResult : Type 0 where
  pub success : Bool
  pub error : Option Exception

-- `place-order:${correlationId}` and `cancel-order:${correlationId}`
pub record WorkflowId : Type 0 where
  pub prefix : String
  pub correlation_id : String

abbrev pub Start : Type 0 → Type 0
Start S = Workflow → WorkflowId → S → WorkflowExecutionResult × S

-- `if (!response.success) throw response.error ?? new InternalServerErrorException(…)`
abbrev pub checked : WorkflowExecutionResult → Message → AppErrorCode → Result (Unit {0})
checked r m c =
    if r.success
    then ok tt
    else err (elim r.error [ none ↦ internal_server_error_exception m c | some e ↦ e ])

abbrev workflow_failed : AppErrorCode
workflow_failed = AppErrorCode.order OrderErrorCode.workflow_failed

unfoldable pub get_order : ℕ → Orders → Result OrderEntity
get_order o t = or_throw (find? (λ r. r.id == o) t) (
    not_found_exception (Message.about "Order ## not found" o)
      (AppErrorCode.order OrderErrorCode.not_found))

module _ {S : Type 0} (start : Start S) where
  abbrev replied {ℓ} : {A : Type ℓ} → Result (Unit {0}) → A → Result A
  replied (ok _) a = ok a
  replied (err e) a = err e

  unfoldable pub create_order_rpc :
      (correlation_id : String) (user_id : Option ℕ) → CreateOrderDto → S → Result WorkflowId × S
  create_order_rpc correlation_id user_id dto s =
      let id : WorkflowId = record { prefix = "place-order:"; correlation_id = correlation_id } in
      let (r, s') = start (place_order dto user_id) id s in
      (replied (checked r (Message.text "Failed to start workflow") workflow_failed) id, s')

  abbrev start_cancel : String → CancelOrderDto → OrderEntity → S → Result ℕ × S
  start_cancel correlation_id dto order s =
      let id : WorkflowId = record { prefix = "cancel-order:"; correlation_id = correlation_id } in
      let (r, s') = start (cancel_order dto) id s in
      if is_cancelable order
      then (
        replied (checked r (Message.text "Failed to start cancel workflow") workflow_failed)
            order.id,
        s',
      )
      else (
        err (
            bad_request_exception
              (Message.with_status "Order # cannot be cancelled because it is in $ status." order.id
                (status_name order.status))
              (AppErrorCode.order OrderErrorCode.not_cancelable)),
        s,
      )

  -- The reply's order id; its other fields are constants and the time.
  unfoldable pub cancel_order_rpc :
      (correlation_id : String) → CancelOrderDto → Orders → S → Result ℕ × S
  cancel_order_rpc correlation_id dto t s = elim (get_order dto.order_id t) [
    | err e ↦ (err e, s)
    | ok order ↦ start_cancel correlation_id dto order s
  ]

unfoldable pub get_orders : Orders → List OrderEntity
get_orders t = t

abbrev is_users : ℕ → OrderEntity → Bool
is_users u r = elim r.user_id [ none ↦ false | some v ↦ v == u ]

-- A `where` value that is undefined is set to throw (invalidWhereValuesBehavior).
unfoldable pub get_my_orders : Option ℕ → Orders → Result (List OrderEntity)
get_my_orders none t = err (Exception.error (Message.text "Undefined value encountered"))
get_my_orders (some u) t = ok (keep (is_users u) t)

-- The handler finds the order, sets its status and saves it.
unfoldable pub update_order_status_rpc : ℕ → OrderStatus → Orders → Result OrderEntity × Orders
update_order_status_rpc o status t = elim (get_order o t) [
  | err e ↦ (err e, t)
  | ok order ↦
      let saved = record order { status = status } in
      (ok saved, update_rows (λ r. r.id == o) (λ _. saved) t)
]
