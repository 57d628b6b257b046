-- ===== src/System/Shared/Tests.antt =====
-- A run of the saga between whose attempts someone else orders and the stocks are replenished, while
-- an order placed before holds items of the same product.
use nest_microservices_tempo.Prelude.{
  ℕ, pos, ◌-ℤ◌, ◌+ℤ◌, ◌≡◌, refl, ap, subst, Option, none, some, [], ◌∷◌, arith,
}
use nest_microservices_tempo.Errors.{Result, ok, err}
use nest_microservices_tempo.Inventory.{
  Inventories, InventoryEntity, initialize_inventory, reserve_inventory, adjust_inventory,
}
use nest_microservices_tempo.Inventory.Ledger.{
  Booking, Ledger, reserves, initializes, adjusts, fails_to_adjust, Reachable, empty, after, supply,
}
use nest_microservices_tempo.Inventory.Ledger.Always.{Reachable-IsKept}
use nest_microservices_tempo.Order.{CreateOrderDto}
use nest_microservices_tempo.Payment.Tests.{Account, gateway}
use nest_microservices_tempo.Workflow.{place_steps, place_order_workflow, nothing_done}
use nest_microservices_tempo.Workflow.Monad.{Action}
use nest_microservices_tempo.Workflow.Retry.{refund_policy}
use nest_microservices_tempo.Workflow.Rules.{Ensures}
use nest_microservices_tempo.Workflow.Returned.{IsAccounted}
use nest_microservices_tempo.System.{create_attempt}
use nest_microservices_tempo.System.Tests.{always, start}
use nest_microservices_tempo.System.Cluster.{creates}
use nest_microservices_tempo.System.Shared.{
  Tracked, Orderly, Others, serves, trades, booking, ledger_of, with_ledger, IsForeign, shared,
}
use nest_microservices_tempo.System.Shared.Steps.{IsSound}
use nest_microservices_tempo.System.Shared.Returned.{shared_view, place-shared}

abbrev basket : CreateOrderDto
basket = record {
  items =
      record { product_id = 7; quantity = pos 2 }
      ∷ record { product_id = 7; quantity = pos 1 }
      ∷ [];
  address = "1 Main Street";
  email = "a@b.c";
}

abbrev rival : Booking
rival = booking 1 (record { product_id = 7; quantity = pos 3 } ∷ [])

abbrev stocked : Inventories
stocked = (initialize_inventory 1 7 (pos 9) []).1

abbrev opened : Ledger
opened = record {
  table = (reserve_inventory 1 rival.items stocked).1;
  held = rival ∷ [];
  sold = [];
  supplied = record { product_id = 7; quantity = pos 9 } ∷ [];
}

opened-Reachable : Reachable opened
unfolding initialize_inventory reserve_inventory ◌-ℤ◌ ◌+ℤ◌
opened-Reachable =
    after (after empty (initializes 1 7 (pos 9) refl)) (reserves rival (omega arith) refl)

abbrev at_start : Tracked Account
at_start =
    with_ledger
      (record { services = record start { order_seq = 1 }; held = []; sold = []; supplied = [] })
      opened

at_start-IsSound : IsSound at_start
at_start-IsSound = record {
  kept = Reachable-IsKept opened-Reachable;
  held_issued = omega arith;
  sold_issued = tt;
  fresh = λ o later. refl;
}

-- One more of product 7, where it is stocked.
abbrev replenished : Tracked Account → Result InventoryEntity × Inventories → Tracked Account
replenished x (ok _, t) =
    with_ledger x (record (ledger_of x) { table = t; supplied = supply 7 (pos 1) ∷ x.supplied })
replenished x (err _, t) = with_ledger x (record (ledger_of x) { table = t })

abbrev noise : Tracked Account → Tracked Account
noise x = replenished x (adjust_inventory 7 (pos 1) x.services.inventories)

abbrev ordered : Tracked Account → Tracked Account
ordered x = record x { services = (create_attempt basket [] none x.services).1 }

same_bookings :
    (who : Option ℕ) (x : Tracked Account) (l : Ledger)
    → l.held ≡ x.held
    → l.sold ≡ x.sold
    → IsForeign who x l
same_bookings none x l held sold = tt
same_bookings (some o) x l held sold = (cc, cc)

replenished-Others :
    (who : Option ℕ) (x : Tracked Account) (y : Result InventoryEntity × Inventories)
    → adjust_inventory 7 (pos 1) x.services.inventories ≡ y
    → Others gateway always who x (replenished x y)
replenished-Others who x (ok r, t) e =
    let same : (adjust_inventory 7 (pos 1) x.services.inventories).1 ≡ t = ap (λ z. z.1) e in
    subst (λ u. Others gateway always who x (replenished x (ok r, u))) same
      (trades _ (adjusts 7 (pos 1) r (ap (λ z. z.0) e)) (λ h. h) (same_bookings who x _ refl refl))
replenished-Others who x (err z, t) e =
    let same : (adjust_inventory 7 (pos 1) x.services.inventories).1 ≡ t = ap (λ w. w.1) e in
    subst (λ u. Others gateway always who x (replenished x (err z, u))) same
      (trades _ (fails_to_adjust 7 (pos 1) z (ap (λ w. w.0) e)) (λ h. h)
        (same_bookings who x _ refl refl))

abbrev again : {S A : Type 0} → Action S A → Result A × S → Result A × S
again act (ok a, s) = (ok a, s)
again act (err e, s) = act s

again-Ensures :
    {S A : Type 0} (Between Fail : S → Type 0) (Done : A → S → Type 0) (act : Action S A)
    (x : Result A × S)
    → ((s : S) → Between s → Ensures Fail Done (act s))
    → ((s : S) → Fail s → Between s)
    → Ensures Fail Done x
    → Ensures Fail Done (again act x)
again-Ensures Between Fail Done act (ok a, s) f back h = h
again-Ensures Between Fail Done act (err e, s) f back h = f s (back s h)

-- Someone orders and the product is replenished; an attempt that throws is made once more.
abbrev busy : Orderly (Tracked Account) (Others gateway always)
busy = record {
  execute = λ who p act x. again act (act (noise (ordered x)));
  attempts_law = λ who p act Between Fail Done f back other x h.
      again-Ensures Between Fail Done act _ f back (
        f _ (
          other _ _
            (replenished-Others who (ordered x)
              (adjust_inventory 7 (pos 1) (ordered x).services.inventories) refl)
            (other _ _ (serves _ (creates basket [] none) refl) h)));
}

place-shared_example :
    IsAccounted
      (shared gateway always busy refund_policy)
      (shared_view basket.items)
      (place_steps (shared gateway always busy refund_policy) basket none (nothing_done, at_start))
      (place_order_workflow (shared gateway always busy refund_policy) basket none at_start)
place-shared_example =
    place-shared gateway always busy refund_policy basket none at_start (omega arith)
      at_start-IsSound
