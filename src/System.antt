-- ===== src/System.antt =====
-- The services together, as the sagas meet them: one state for all the tables and for
-- Stripe, and the activities over it, each run by Temporal under the policy of its proxy
-- (apps/orchestrator-worker/src/workflows/order). An attempt is one run of
-- the activity's code: that an answer is lost on the way is not modelled. Ids come from the
-- tables' sequences; whether the payment database takes a write is read off a clock.
pub mod Fresh
pub mod Created
pub mod Money
pub mod Kept
pub mod Lawful
pub mod Placed
pub mod Cancelled
pub mod Live
pub mod Cluster
pub mod Shared
pub mod Tests
use nest_microservices_tempo.Prelude.{
  ℕ, suc, ℤ, Bool, Option, none, some, List, ◌+◌, String, find?, map,
}
use nest_microservices_tempo.Errors.{Message, Result, ok, err}
use nest_microservices_tempo.Inventory.{
  OrderItem, Inventories, reserve_inventory, release_inventory, confirm_inventory,
  restore_inventory,
}
use nest_microservices_tempo.Order.{
  OrderStatus, CreateOrderDto, Prices, Orders, create_order, save_payment_id, update_order_status,
  get_order_total_amount, get_payment_id, get_order_items,
}
use nest_microservices_tempo.Payment.{Payments, Gateway, charge_payment, refund_payment}
use nest_microservices_tempo.Product.{Products, validate_products, get_product_prices}
use nest_microservices_tempo.Shipping.{Shippings, create_shipment}
use nest_microservices_tempo.Workflow.Monad.{Action, Activities}
use nest_microservices_tempo.Workflow.Retry.{RetryPolicy, Temporal, short_policy}

pub record Services (St : Type 0) : Type 0 where
  pub products : Products
  pub inventories : Inventories
  pub orders : Orders
  pub payments : Payments
  pub shippings : Shippings
  pub stripe : St
  pub clock : ℕ
  pub order_seq : ℕ
  pub payment_seq : ℕ
  pub shipping_seq : ℕ

module _ {St : Type 0} where
  abbrev pub with_inventories :
      {A : Type 0} → Services St → Result A × Inventories → Result A × Services St
  with_inventories s (r, t) = (r, record s { inventories = t })

  abbrev pub with_orders : {A : Type 0} → Services St → Result A × Orders → Result A × Services St
  with_orders s (r, t) = (r, record s { orders = t })

  abbrev pub with_payments :
      {A : Type 0} → Services St → Result A × St × Payments → Result A × Services St
  with_payments s (r, stripe, t) = (
    r,
    record s {
      stripe = stripe;
      payments = t;
      clock = suc s.clock;
      payment_seq = suc s.payment_seq;
    },
  )

  abbrev pub with_shippings : Services St → Result ℕ × Shippings → Result ℕ × Services St
  with_shippings s (r, t) =
      (r, record s { shippings = t; clock = suc s.clock; shipping_seq = suc s.shipping_seq })

  abbrev pub read {ℓ} : {A : Type ℓ} → Services St → Result A → Result A × Services St
  read s r = (r, s)

  abbrev pub create_attempt : CreateOrderDto → Prices → Option ℕ → Action (Services St) ℕ
  create_attempt dto prices user s =
      with_orders (record s { order_seq = suc s.order_seq })
        (create_order (suc s.order_seq) dto prices user s.orders)

  abbrev pub status_attempt : ℕ → OrderStatus → Option Message → Action (Services St) (Unit {0})
  status_attempt o status m s = with_orders s (update_order_status o status m s.orders)

  abbrev pub save_attempt : ℕ → ℕ → Action (Services St) (Unit {0})
  save_attempt o p s = with_orders s (save_payment_id o p s.orders)

  abbrev pub stock_attempt :
      (ℕ → List OrderItem → Inventories → Result (Unit {0}) × Inventories)
      → ℕ
      → List OrderItem
      → Action (Services St) (Unit {0})
  stock_attempt f o items s = with_inventories s (f o items s.inventories)

  abbrev pub shipment_attempt : ℕ → String → Action (Services St) ℕ
  shipment_attempt o address s =
      with_shippings s (create_shipment (suc s.shipping_seq) s.clock o address s.shippings)

  module _ (g : Gateway St) (accepts : ℕ → Bool) where
    abbrev pub charge_attempt : ℕ → ℤ → Action (Services St) ℕ
    charge_attempt o total s =
        with_payments s
          (charge_payment g (accepts s.clock) (suc s.payment_seq) o total s.stripe s.payments)

    abbrev pub refund_attempt : ℕ → Option ℤ → Action (Services St) (Unit {0})
    refund_attempt o total s =
        with_payments s
          (refund_payment g (accepts s.clock) (suc s.payment_seq) o total s.stripe s.payments)

    module _ (temporal : Temporal (Services St)) (refunds : RetryPolicy) where
      open temporal use {execute}

      abbrev pub services : Activities (Services St)
      services = record {
        validate_products =
            λ ids. execute short_policy (λ s. read s (ok (validate_products ids s.products)));
        get_product_prices =
            λ ids. execute short_policy (λ s. read s (ok (get_product_prices ids s.products)));
        create_order = λ dto prices user. execute short_policy (create_attempt dto prices user);
        get_order_total_amount =
            λ o. execute short_policy (λ s. read s (get_order_total_amount o s.orders));
        save_payment_id = λ o p. execute short_policy (save_attempt o p);
        update_order_status = λ o status m. execute short_policy (status_attempt o status m);
        get_payment_id = λ o. execute short_policy (λ s. read s (get_payment_id o s.orders));
        get_order_items = λ o. execute short_policy (λ s. read s (get_order_items o s.orders));
        reserve_inventory =
            λ o items. execute short_policy (stock_attempt reserve_inventory o items);
        release_inventory =
            λ o items. execute short_policy (stock_attempt release_inventory o items);
        confirm_inventory =
            λ o items. execute short_policy (stock_attempt confirm_inventory o items);
        restore_inventory =
            λ o items. execute short_policy (stock_attempt restore_inventory o items);
        charge_payment = λ o total. execute short_policy (charge_attempt o total);
        refund_payment = λ o total. execute refunds (refund_attempt o total);
        create_shipment = λ o address. execute short_policy (shipment_attempt o address);
      }
