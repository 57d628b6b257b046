-- ===== src/Workflow.antt =====
-- apps/orchestrator-worker/src/workflows/order: the two sagas of an order. The activities are an
-- interface (libs/temporal/src/activity/interface): functions on a state that stands for all the
-- services, as the proxies of Temporal, with their retries, present them to the workflow.
pub mod Monad
pub mod Rules
pub mod Retry
pub mod Laws
pub mod Place
pub mod Undo
pub mod Cancel
pub mod Sparing
pub mod Repaid
pub mod Stocked
pub mod Returned
pub mod Straight
mod Tests
pub use Monad.{
  Action, ◌>>=◌, ◌>>◌, pure, throw, throw_unless, Activities, Progress, call, assign, nothing_done,
}
use nest_microservices_tempo.Prelude.{
  ℕ, zero, suc, ℤ, String, Bool, true, false, Option, none, some, List, map, if◌then◌else◌,
}
use nest_microservices_tempo.Errors.{
  Message, Exception, application_failure, Result, ok, err, message_of, non_retryable,
}
use nest_microservices_tempo.Inventory.{OrderItem}
use nest_microservices_tempo.Order.{
  OrderStatus, shipping, paid, place_failed, cancelled, cancel_failed, CreateOrderDto,
  CancelOrderDto,
}

pub record Receipt : Type 0 where
  pub order_id : ℕ
  pub status : OrderStatus
  pub shipment_id : ℕ
  pub payment_id : ℕ

-- `if (id)`: 0 and undefined are false.
abbrev pub truthy : Option ℕ → Bool
truthy none = false
truthy (some zero) = false
truthy (some (suc n)) = true

-- An ApplicationFailure is rethrown as it is, any other error as a non-retryable one.
abbrev pub rethrown : Exception → Exception
rethrown (application_failure m t n d) = application_failure m t n d
rethrown e = non_retryable (message_of e) none

module _ {S : Type 0} (a : Activities S) where
  -- The `try` block of placeOrderWorkflow, over its `let` variables and the services, in three
  -- parts: from the confirmation on, from the charge on, and whole.
  unfoldable pub ship_steps :
      CreateOrderDto → (order_id payment_id : ℕ) → Action (Progress × S) Receipt
  ship_steps dto order_id payment_id = do
    call (a.confirm_inventory order_id dto.items)
    assign (λ v. record v { inventory_confirmed = true })
    shipment_id ← call (a.create_shipment order_id dto.address)
    call (a.update_order_status order_id shipping none)
    pure (record {
      order_id = order_id;
      status = shipping;
      shipment_id = shipment_id;
      payment_id = payment_id;
    })

  unfoldable pub charge_steps : CreateOrderDto → ℕ → Action (Progress × S) Receipt
  unfolding ship_steps
  charge_steps dto order_id = do
    total ← call (a.get_order_total_amount order_id)
    assign (λ v. record v { total_amount = some total })
    assign (λ v. record v { charge_attempted = true })
    payment_id ← call (a.charge_payment order_id total)
    assign (λ v. record v { payment_id = some payment_id })
    call (a.save_payment_id order_id payment_id)
    call (a.update_order_status order_id paid none)
    ship_steps dto order_id payment_id

  unfoldable pub place_steps : CreateOrderDto → Option ℕ → Action (Progress × S) Receipt
  unfolding charge_steps
  place_steps dto user = do
    let product_ids = map (λ (i : OrderItem). i.product_id) dto.items
    is_valid ← call (a.validate_products product_ids)
    throw_unless is_valid
        (non_retryable (Message.text "Some products are invalid or inactive") none)
    prices ← call (a.get_product_prices product_ids)
    order_id ← call (a.create_order dto prices user)
    assign (λ v. record v { order_id = some order_id })
    call (a.reserve_inventory order_id dto.items)
    assign (λ v. record v { inventory_reserved = true })
    charge_steps dto order_id

  abbrev pub refund_if : Bool → ℕ → Option ℤ → Action S (Unit {0})
  refund_if attempted order_id total =
      if attempted then a.refund_payment order_id total else pure tt

  abbrev pub return_stock : Bool → Bool → ℕ → List OrderItem → Action S (Unit {0})
  return_stock confirmed reserved order_id items =
      if confirmed
      then a.restore_inventory order_id items
      else (if reserved then a.release_inventory order_id items else pure tt)

  -- The `catch` block, up to the rethrow.
  unfoldable pub compensate : CreateOrderDto → Exception → Progress → Action S (Unit {0})
  compensate dto e v = elim v.order_id [
    | none ↦ pure tt
    | some order_id ↦
        if truthy (some order_id)
        then (do
          refund_if v.charge_attempted order_id v.total_amount
          return_stock v.inventory_confirmed v.inventory_reserved order_id dto.items
          a.update_order_status order_id place_failed (some (message_of e)))
        else pure tt
  ]

  abbrev pub after_place : CreateOrderDto → Result Receipt × (Progress × S) → Result Receipt × S
  after_place dto (ok receipt, (v, s)) = (ok receipt, s)
  after_place dto (err e, (v, s)) = (compensate dto e v >> throw (rethrown e)) s

  unfoldable pub place_order_workflow : CreateOrderDto → Option ℕ → Action S Receipt
  place_order_workflow dto user s = after_place dto (place_steps dto user (nothing_done, s))

  abbrev pub refund_paid : Option ℕ → ℕ → Action S (Unit {0})
  refund_paid payment_id order_id =
      if truthy payment_id then a.refund_payment order_id none else pure tt

  abbrev pub give_back : Option ℕ → ℕ → List OrderItem → Action S (Unit {0})
  give_back payment_id order_id items =
      if truthy payment_id
      then a.restore_inventory order_id items
      else a.release_inventory order_id items

  -- The `try` block of cancelOrderWorkflow.
  unfoldable pub cancel_steps : CancelOrderDto → Action S (Unit {0})
  cancel_steps dto = do
    payment_id ← a.get_payment_id dto.order_id
    refund_paid payment_id dto.order_id
    items ← a.get_order_items dto.order_id
    give_back payment_id dto.order_id items
    a.update_order_status dto.order_id cancelled dto.cancel_reason

  abbrev pub after_cancel : CancelOrderDto → Result (Unit {0}) × S → Result (Unit {0}) × S
  after_cancel dto (ok _, s) = (ok tt, s)
  after_cancel dto (err e, s) =
      (a.update_order_status dto.order_id cancel_failed
            (some (Message.wrapping "Cancel failed: $ (manual check required)" (message_of e)))
          >> throw (rethrown e))
        s

  unfoldable pub cancel_order_workflow : CancelOrderDto → Action S (Unit {0})
  cancel_order_workflow dto s = after_cancel dto (cancel_steps dto s)
