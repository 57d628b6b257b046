-- ===== src/System/Shared.antt =====
-- The services under many orders at once (the workflows and proxies of
-- apps/orchestrator-worker/src/workflows), where no answer is lost. Beside the tables stands what the
-- code does not keep: which orders hold items and which have bought.
pub mod Bookings
pub mod Steps
pub mod Attempts
pub mod Neutral
pub mod Returned
mod Tests
use nest_microservices_tempo.Prelude.{
  ℕ, ◌≤◌, Bool, not, Option, none, some, List, [], ◌∷◌, All, ◌==◌, ◌≡◌, keep,
}
use nest_microservices_tempo.Errors.{Result, ok, err}
use nest_microservices_tempo.Inventory.{
  OrderItem, reserve_inventory, release_inventory, confirm_inventory, restore_inventory,
}
use nest_microservices_tempo.Inventory.Ledger.{Booking, Ledger, Step}
use nest_microservices_tempo.Order.{get_order_total_amount, get_payment_id, get_order_items}
use nest_microservices_tempo.Payment.{Gateway}
use nest_microservices_tempo.Product.{validate_products, get_product_prices}
use nest_microservices_tempo.Workflow.Monad.{Action, Activities}
use nest_microservices_tempo.Workflow.Retry.{RetryPolicy, short_policy}
use nest_microservices_tempo.Workflow.Rules.{Ensures}
use nest_microservices_tempo.System.{
  Services, read, create_attempt, status_attempt, save_attempt, stock_attempt, shipment_attempt,
  charge_attempt, refund_attempt,
}
use nest_microservices_tempo.System.Cluster as Cluster

pub record Tracked (St : Type 0) : Type 0 where
  pub services : Services St
  pub held : List Booking
  pub sold : List Booking
  pub supplied : List OrderItem

-- The bookings of an order, and the others.
abbrev pub own : ℕ → List Booking → List Booking
own o = keep (λ b. b.order_id == o)

abbrev pub rest_of : ℕ → List Booking → List Booking
rest_of o = keep (λ b. not (b.order_id == o))

abbrev pub booking : ℕ → List OrderItem → Booking
booking o items = record { order_id = o; items = items }

-- An execution: others may step before each attempt, an attempt that succeeds ends it, and one that
-- throws may be the last.
pub record Orderly (S : Type 0) (Others : Option ℕ → S → S → Type 0) : Type 1 where
  pub execute : {A : Type 0} → Option ℕ → RetryPolicy → Action S A → Action S A
  pub attempts_law :
      {A : Type 0} (who : Option ℕ) (p : RetryPolicy) (act : Action S A) (Between Fail : S → Type 0)
      (Done : A → S → Type 0)
      → ((s : S) → Between s → Ensures Fail Done (act s))
      → ((s : S) → Fail s → Between s)
      → ((s s' : S) → Others who s s' → Between s → Between s')
      → (s : S) → Between s
      → Ensures Fail Done (execute who p act s)

module _ {St : Type 0} where
  abbrev pub ledger_of : Tracked St → Ledger
  ledger_of x = record {
    table = x.services.inventories;
    held = x.held;
    sold = x.sold;
    supplied = x.supplied;
  }

  abbrev pub with_ledger : Tracked St → Ledger → Tracked St
  with_ledger x l = record {
    services = record x.services { inventories = l.table };
    held = l.held;
    sold = l.sold;
    supplied = l.supplied;
  }

  -- An attempt that books nothing, and one whose success is noted.
  abbrev pub tracked : {A : Type 0} → Action (Services St) A → Action (Tracked St) A
  tracked act x = ((act x.services).0, record x { services = (act x.services).1 })

  abbrev pub noted :
      (Tracked St → Tracked St) → Action (Services St) (Unit {0}) → Action (Tracked St) (Unit {0})
  noted f act x = elim (act x.services).0 [
    | ok _ ↦ (ok tt, f (record x { services = (act x.services).1 }))
    | err e ↦ (err e, record x { services = (act x.services).1 })
  ]

  abbrev pub hold_booking : ℕ → List OrderItem → Tracked St → Tracked St
  hold_booking o items x = record x { held = booking o items ∷ x.held }

  abbrev pub drop_booking : ℕ → Tracked St → Tracked St
  drop_booking o x = record x { held = rest_of o x.held }

  abbrev pub sell_booking : ℕ → List OrderItem → Tracked St → Tracked St
  sell_booking o items x = record x { held = rest_of o x.held; sold = booking o items ∷ x.sold }

  abbrev pub return_booking : ℕ → Tracked St → Tracked St
  return_booking o x = record x { sold = rest_of o x.sold }

  abbrev pub IsIssued : Tracked St → List Booking → Type 0
  IsIssued x = All (λ b. b.order_id ≤ x.services.order_seq)

  abbrev pub AllIssued : Tracked St → List Booking → List Booking → Type 0
  AllIssued x h d = IsIssued x h × IsIssued x d

  abbrev pub IsForeign : Option ℕ → Tracked St → Ledger → Type 0
  IsForeign none x l = Unit
  IsForeign (some o) x l = (own o l.held ≡ own o x.held) × (own o l.sold ≡ own o x.sold)

  module _ (g : Gateway St) (accepts : ℕ → Bool) where
    -- One step of the others: on anything but the stocks; or on the stocks, for no order that is yet to
    -- come and not for this workflow's.
    pub data Others (who : Option ℕ) (x : Tracked St) : Tracked St → Type 0 where
      serves :
          (s : Services St)
          → Cluster.Others g accepts who x.services s
          → s.inventories ≡ x.services.inventories
          → Others who x (record x { services = s })
      trades :
          (l : Ledger)
          → Step (ledger_of x) l
          → (AllIssued x x.held x.sold → AllIssued x l.held l.sold)
          → IsForeign who x l
          → Others who x (with_ledger x l)

    module _ (orderly : Orderly (Tracked St) Others) (refunds : RetryPolicy) where
      open orderly use {execute}

      abbrev pub shared : Activities (Tracked St)
      shared = record {
        validate_products = λ ids.
            execute none short_policy
              (tracked (λ s. read s (ok (validate_products ids s.products))));
        get_product_prices = λ ids.
            execute none short_policy
              (tracked (λ s. read s (ok (get_product_prices ids s.products))));
        create_order =
            λ dto prices user. execute none short_policy (tracked (create_attempt dto prices user));
        get_order_total_amount = λ o.
            execute (some o) short_policy
              (tracked (λ s. read s (get_order_total_amount o s.orders)));
        save_payment_id = λ o p. execute (some o) short_policy (tracked (save_attempt o p));
        update_order_status =
            λ o status m. execute (some o) short_policy (tracked (status_attempt o status m));
        get_payment_id =
            λ o. execute (some o) short_policy (tracked (λ s. read s (get_payment_id o s.orders)));
        get_order_items =
            λ o. execute (some o) short_policy (tracked (λ s. read s (get_order_items o s.orders)));
        reserve_inventory = λ o items.
            execute (some o) short_policy
              (noted (hold_booking o items) (stock_attempt reserve_inventory o items));
        release_inventory = λ o items.
            execute (some o) short_policy
              (noted (drop_booking o) (stock_attempt release_inventory o items));
        confirm_inventory = λ o items.
            execute (some o) short_policy
              (noted (sell_booking o items) (stock_attempt confirm_inventory o items));
        restore_inventory = λ o items.
            execute (some o) short_policy
              (noted (return_booking o) (stock_attempt restore_inventory o items));
        charge_payment =
            λ o total. execute (some o) short_policy (tracked (charge_attempt g accepts o total));
        refund_payment =
            λ o total. execute (some o) refunds (tracked (refund_attempt g accepts o total));
        create_shipment =
            λ o address. execute (some o) short_policy (tracked (shipment_attempt o address));
      }
