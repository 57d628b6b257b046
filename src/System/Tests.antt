-- ===== src/System/Tests.antt =====
-- Runs of the sagas over the services, with a Temporal that makes some attempts.
use nest_microservices_tempo.Prelude.{ℕ, pos, ◌≡◌, refl, Bool, true, none, some, [], ◌∷◌}
use nest_microservices_tempo.Inventory.Tests.{
  table, order, table-IsValid, order-IsPositive, reserved,
}
use nest_microservices_tempo.Order.{CreateOrderDto, shipping}
use nest_microservices_tempo.Product.Tests.{shirt}
use nest_microservices_tempo.Product.{validate_products, get_product_prices}
use nest_microservices_tempo.Errors.{ok}
use nest_microservices_tempo.Inventory.Saga.{IsAvailable, sell, reserve_exact}
use nest_microservices_tempo.Order.{OrderEntity}
use nest_microservices_tempo.Order.Laws.{with_id}
use nest_microservices_tempo.Shipping.{ShippingEntity}
use nest_microservices_tempo.Shipping.Laws.{shipment_of}
use nest_microservices_tempo.Workflow.Straight.{receipt_of}
use nest_microservices_tempo.Payment.Tests.{
  Account, gateway, ledger, stripe, new_account, intent, charge_it,
}
use nest_microservices_tempo.Workflow.{place_steps, place_order_workflow, nothing_done}
use nest_microservices_tempo.Workflow.Retry.{
  RetryPolicy, Temporal, Lossless, short_policy, refund_policy,
}
use nest_microservices_tempo.Workflow.Undo.{IsSaga}
use nest_microservices_tempo.System.{Services, services}
use nest_microservices_tempo.System.Fresh.{Fresh, system_view}
use nest_microservices_tempo.System.Live.{IsReady, place-IsReady}
use nest_microservices_tempo.System.Cancelled.{cancel-services}
use nest_microservices_tempo.Workflow.Rules.{Ensures}
use nest_microservices_tempo.Payment.Settle.{Settled}
use nest_microservices_tempo.Workflow.{cancel_order_workflow}
use nest_microservices_tempo.System.Fresh.{status_of}
use nest_microservices_tempo.Order.{new_order, CancelOrderDto, cancelled, cancel_failed}
use nest_microservices_tempo.Prelude.{arith, ==-ne, inl}
use nest_microservices_tempo.Inventory.Saga.{hold}
use nest_microservices_tempo.Prelude.{zero, suc, ◌-◌}
use nest_microservices_tempo.Errors.{Result, err}
use nest_microservices_tempo.Workflow.Monad.{Action}
use nest_microservices_tempo.System.Placed.{lawful, recovering, place-services}

-- At most so many attempts after the first.
abbrev retried : {S A : Type 0} → ℕ → Action S A → Result A × S → Result A × S
retried n act (ok x, s) = (ok x, s)
retried zero act (err e, s) = (err e, s)
retried (suc n) act (err e, s) = retried n act (act s)

retried-Ensures :
    {S A : Type 0} (n : ℕ) (act : Action S A) (Between : S → Type 0) (Done : A → S → Type 0)
    (x : Result A × S)
    → ((s : S) → Between s → Ensures Between Done (act s))
    → Ensures Between Done x
    → Ensures Between Done (retried n act x)
retried-Ensures n act Between Done (ok x, s) f h = h
retried-Ensures zero act Between Done (err e, s) f h = h
retried-Ensures (suc n) act Between Done (err e, s) f h =
    retried-Ensures n act Between Done (act s) f (f s h)

-- Where a policy has no limit, a limit of the test.
abbrev retries : RetryPolicy → ℕ
retries p = elim p.maximum_attempts [ none ↦ 100 | some n ↦ n - 1 ]

abbrev some_attempts : Temporal (Services Account)
some_attempts = record { execute = λ p act s. retried (retries p) act (act s) }

abbrev lossless : Lossless some_attempts
lossless = record {
  first_law = λ p act x s s' e. rw e refl;
  attempts_law =
      λ p act Between Done f s h. retried-Ensures (retries p) act Between Done (act s) f (f s h);
}

abbrev pub always : ℕ → Bool
always _ = true

abbrev pub dto : CreateOrderDto
dto = record { items = order; address = "1 Main Street"; email = "a@b.c" }

abbrev pub start : Services Account
start = record {
  products = shirt ∷ [];
  inventories = table;
  orders = [];
  payments = [];
  shippings = [];
  stripe = new_account;
  clock = 0;
  order_seq = 0;
  payment_seq = 0;
  shipping_seq = 0;
}

pub start-Fresh : Fresh ledger start
start-Fresh o later = (refl, refl, refl)

place-services_example :
    IsSaga
      (services gateway always some_attempts refund_policy)
      (system_view ledger)
      (lawful gateway ledger stripe always some_attempts lossless refund_policy)
      (recovering gateway ledger stripe always some_attempts lossless refund_policy)
      dto
      order-IsPositive
      table
      table-IsValid
      (place_steps
        (services gateway always some_attempts refund_policy)
        dto
        none
        (nothing_done, start))
      (place_order_workflow (services gateway always some_attempts refund_policy) dto none start)
place-services_example =
    place-services gateway ledger stripe always some_attempts lossless dto order-IsPositive none
      start table-IsValid start-Fresh

-- The shop, with a product for each item of the order.
abbrev pub shop : Services Account
shop = record start { products = shirt ∷ record shirt { id = 8; price = pos 15 } ∷ [] }

order-IsAvailable : IsAvailable order table
order-IsAvailable =
    let (okay, _, _) = reserve_exact 1 order table table-IsValid order-IsPositive in okay.0 reserved

shop-IsReady : IsReady gateway dto none shop always intent (charge_it 1 new_account)
unfolding validate_products get_product_prices
shop-IsReady = record {
  valid = table-IsValid;
  positive = order-IsPositive;
  for_sale = refl;
  available = order-IsAvailable;
  new_order_id = refl;
  new_payment = refl;
  charged = refl;
  charge_done = refl;
  new_intent = refl;
  accepted = refl;
  new_payment_id = refl;
  unshipped = refl;
}

place-IsReady_example :
    let (r, s') =
      place_order_workflow (services gateway always some_attempts refund_policy) dto none shop in
    (r ≡ ok (receipt_of 1 1 1))
    × (s'.inventories ≡ sell order table)
    × ((q : OrderEntity) × (with_id 1 s'.orders ≡ some q) × (q.status ≡ shipping))
    × ((h : ShippingEntity) × (shipment_of 1 s'.shippings ≡ some h) × (h.address ≡ "1 Main Street"))
place-IsReady_example =
    place-IsReady gateway dto none shop always intent (charge_it 1 new_account) shop-IsReady
      some_attempts lossless

-- An order that has been reserved and not paid.
abbrev waiting : Services Account
waiting = record shop {
  order_seq = 1;
  inventories = hold order table;
  orders =
      new_order 1 dto none (pos 200) (
        record { product_id = 7; quantity = pos 2; price = pos 20 }
        ∷ record { product_id = 8; quantity = pos 4; price = pos 15 }
        ∷ record { product_id = 7; quantity = pos 5; price = pos 20 }
        ∷ [])
      ∷ [];
}

waiting-Fresh : Fresh ledger waiting
waiting-Fresh o later = (rw (==-ne 1 o (omega arith)) refl, refl, refl)

abbrev request : CancelOrderDto
request = record { order_id = 1; cancel_reason = none }

cancel-services_example :
    Ensures
      (λ s'. status_of (with_id 1 s'.orders) ≡ some cancel_failed)
      (λ _ s'.
        ((s'.inventories ≡ table) × Settled ledger s'.stripe 1)
        × (status_of (with_id 1 s'.orders) ≡ some cancelled))
      (cancel_order_workflow (services gateway always some_attempts short_policy) request waiting)
cancel-services_example =
    cancel-services gateway ledger stripe always some_attempts lossless request none order
      order-IsPositive table table-IsValid waiting
      (
        (_, refl, refl, refl),
        (order-IsAvailable, refl),
        (waiting-Fresh, (_, refl), tt),
        (λ _. inl refl),
      )
