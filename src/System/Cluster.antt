-- ===== src/System/Cluster.antt =====
-- The services under many workflows at once, and with answers that are lost (the workflows and proxies
-- of apps/orchestrator-worker/src/workflows): between two attempts of an activity the steps of others
-- fall, and an attempt that has gone through may be made again, or be reported as failed.
pub mod Steps
pub mod Repaid
pub mod Tests
use nest_microservices_tempo.Prelude.{ℕ, ℤ, ◌≢◌, Bool, Option, none, some, List, String}
use nest_microservices_tempo.Errors.{Message, ok}
use nest_microservices_tempo.Inventory.{
  Inventories, reserve_inventory, release_inventory, confirm_inventory, restore_inventory,
}
use nest_microservices_tempo.Order.{
  OrderStatus, CreateOrderDto, Prices, get_order_total_amount, get_payment_id, get_order_items,
}
use nest_microservices_tempo.Order.Ids.{Present}
use nest_microservices_tempo.Payment.{Gateway}
use nest_microservices_tempo.Payment.Stripe.{Ledger}
use nest_microservices_tempo.Payment.Numbered.{IsNumbered}
use nest_microservices_tempo.Payment.Settle.{Settled}
use nest_microservices_tempo.Product.{Products, validate_products, get_product_prices}
use nest_microservices_tempo.Workflow.Monad.{Action, Activities}
use nest_microservices_tempo.Workflow.Retry.{RetryPolicy, short_policy}
use nest_microservices_tempo.Workflow.Rules.{Ensures}
use nest_microservices_tempo.Workflow.Laws.{View}
use nest_microservices_tempo.System.{
  Services, read, create_attempt, status_attempt, save_attempt, stock_attempt, shipment_attempt,
  charge_attempt, refund_attempt,
}
use nest_microservices_tempo.System.Fresh.{Fresh, IsOpen, status_of}
use nest_microservices_tempo.Order.Laws.{with_id}

-- An execution of an activity of one workflow: `who` is that workflow's order, once it has one. Others
-- may step before each attempt. After an attempt that succeeds, the execution may end with its
-- result, go on to a further attempt, or report an error.
pub record Cluster (S : Type 0) (Others : Option ℕ → S → S → Type 0) : Type 1 where
  pub execute : {A : Type 0} → Option ℕ → RetryPolicy → Action S A → Action S A
  pub attempts_law :
      {A : Type 0} (who : Option ℕ) (p : RetryPolicy) (act : Action S A) (Between : S → Type 0)
      (Done : A → S → Type 0)
      → ((s : S) → Between s → Ensures Between Done (act s))
      → ((x : A) (s : S) → Done x s → Between s)
      → ((s s' : S) → Others who s s' → Between s → Between s')
      → (s : S) → Between s
      → Ensures Between Done (execute who p act s)

abbrev pub IsOther : Option ℕ → ℕ → Type 0
IsOther none q = Unit
IsOther (some o) q = o ≢ q

module _ {St : Type 0} (g : Gateway St) (accepts : ℕ → Bool) where
  -- One step of the others: anything on the products, the stocks and the shipments, any order's status
  -- and payment id, a new order, and a charge or a refund of an order that is not this workflow's.
  pub data Others (who : Option ℕ) (s : Services St) : Services St → Type 0 where
    lists : (t : Products) → Others who s (record s { products = t })
    stocks : (t : Inventories) → Others who s (record s { inventories = t })
    creates :
        (dto : CreateOrderDto) (prices : Prices) (user : Option ℕ)
        → Others who s (create_attempt dto prices user s).1
    updates :
        (q : ℕ) (status : OrderStatus) (m : Option Message)
        → Others who s (status_attempt q status m s).1
    saves : (q p : ℕ) → Others who s (save_attempt q p s).1
    ships : (q : ℕ) (address : String) → Others who s (shipment_attempt q address s).1
    charges :
        (q : ℕ) (total : ℤ)
        → IsOther who q
        → Present q s.orders
        → Others who s (charge_attempt g accepts q total s).1
    refunds :
        (q : ℕ) (total : Option ℤ)
        → IsOther who q
        → Present q s.orders
        → Others who s (refund_attempt g accepts q total s).1

  module _ (cluster : Cluster (Services St) Others) (refunds_policy : RetryPolicy) where
    open cluster use {execute}

    abbrev pub contended : Activities (Services St)
    contended = record {
      validate_products =
          λ ids. execute none short_policy (λ s. read s (ok (validate_products ids s.products)));
      get_product_prices =
          λ ids. execute none short_policy (λ s. read s (ok (get_product_prices ids s.products)));
      create_order = λ dto prices user. execute none short_policy (create_attempt dto prices user);
      get_order_total_amount =
          λ o. execute (some o) short_policy (λ s. read s (get_order_total_amount o s.orders));
      save_payment_id = λ o p. execute (some o) short_policy (save_attempt o p);
      update_order_status = λ o status m. execute (some o) short_policy (status_attempt o status m);
      get_payment_id = λ o. execute (some o) short_policy (λ s. read s (get_payment_id o s.orders));
      get_order_items =
          λ o. execute (some o) short_policy (λ s. read s (get_order_items o s.orders));
      reserve_inventory =
          λ o items. execute (some o) short_policy (stock_attempt reserve_inventory o items);
      release_inventory =
          λ o items. execute (some o) short_policy (stock_attempt release_inventory o items);
      confirm_inventory =
          λ o items. execute (some o) short_policy (stock_attempt confirm_inventory o items);
      restore_inventory =
          λ o items. execute (some o) short_policy (stock_attempt restore_inventory o items);
      charge_payment = λ o total. execute (some o) short_policy (charge_attempt g accepts o total);
      refund_payment =
          λ o total. execute (some o) refunds_policy (refund_attempt g accepts o total);
      create_shipment = λ o address. execute (some o) short_policy (shipment_attempt o address);
    }

module _ {St : Type 0} (l : Ledger St) where
  abbrev pub IsSound : Services St → Type 0
  IsSound s = Fresh l s × IsNumbered s.payment_seq s.payments

  abbrev pub IsAgreed : Services St → ℕ → Type 0
  IsAgreed s o = IsOpen l s o × IsNumbered s.payment_seq s.payments

  abbrev pub cluster_view : View (Services St)
  cluster_view = record {
    stocks = λ s. s.inventories;
    status = λ s o. status_of (with_id o s.orders);
    Sound = IsSound;
    Agree = IsAgreed;
    Settled = λ s o. Settled l s.stripe o;
  }
