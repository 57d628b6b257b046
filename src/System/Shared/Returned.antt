-- ===== src/System/Shared/Returned.antt =====
-- placeOrderWorkflow among the orders of others (place-order.workflow.ts, order.service.ts,
-- inventory.service.ts): what becomes of the stocks it has taken.
use nest_microservices_tempo.Prelude.{ℕ, ◌≡◌, refl, Bool, Option, none, some, List, []}
use nest_microservices_tempo.Errors.{ok}
use nest_microservices_tempo.Inventory.{
  OrderItem, reserve_inventory, release_inventory, confirm_inventory, restore_inventory,
}
use nest_microservices_tempo.Inventory.Demand.{IsPositive}
use nest_microservices_tempo.Inventory.Ledger.{Booking}
use nest_microservices_tempo.Order.{place_failed, CreateOrderDto, get_order_total_amount}
use nest_microservices_tempo.Order.Laws.{with_id}
use nest_microservices_tempo.Payment.{Gateway}
use nest_microservices_tempo.Product.{validate_products, get_product_prices}
use nest_microservices_tempo.Workflow.{place_steps, place_order_workflow, nothing_done}
use nest_microservices_tempo.Workflow.Monad.{Action, Activities}
use nest_microservices_tempo.Workflow.Retry.{RetryPolicy, short_policy}
use nest_microservices_tempo.Workflow.Rules.{Ensures-of_state, Ensures-imp}
use nest_microservices_tempo.Workflow.Stocked.{StockView, Leaves, IsStocking}
use nest_microservices_tempo.Workflow.Returned.{IsAccounted, place_order_workflow-IsAccounted}
use nest_microservices_tempo.System.{
  Services, create_attempt, status_attempt, save_attempt, stock_attempt, shipment_attempt,
  charge_attempt, refund_attempt,
}
use nest_microservices_tempo.System.Fresh.{status_of}
use nest_microservices_tempo.System.Kept.{state_of-Ensures}
use nest_microservices_tempo.System.Shared.{
  Tracked, Orderly, tracked, noted, hold_booking, drop_booking, sell_booking, return_booking,
  Others, shared,
}
use nest_microservices_tempo.System.Shared.Steps.{
  IsSound, Standing, unmoved-KeepsOrders, served-IsSound, served-Standing, Others-IsSound,
  Others-Standing,
}
use nest_microservices_tempo.System.Shared.Attempts.{
  Free, Held, Sold, reserve_attempt, release_attempt, confirm_attempt, restore_attempt,
}
use nest_microservices_tempo.System.Shared.Neutral.{
  IsNeutral, created_order, failed_order, update-IsNeutral, save-IsNeutral,
}

abbrev pub shared_view : {St : Type 0} → List OrderItem → StockView (Tracked St)
shared_view items = record {
  Sound = IsSound;
  Free = Free;
  Held = Held items;
  Sold = Sold items;
  Failed = λ o x. status_of (with_id o x.services.orders) ≡ some place_failed;
}

module _ {St : Type 0} (g : Gateway St) (accepts : ℕ → Bool)
    (orderly : Orderly (Tracked St) (Others g accepts)) (refunds : RetryPolicy) where
  open orderly use {execute, attempts_law}

  abbrev them : Activities (Tracked St)
  them = shared g accepts orderly refunds

  executed-IsSound :
      {A : Type 0} (p : RetryPolicy) (act : Action (Services St) A)
      → IsNeutral act
      → (x : Tracked St) → IsSound x
      → IsSound (execute none p (tracked act) x).1
  executed-IsSound p act neutral x h = state_of-Ensures IsSound (execute none p (tracked act) x) (
      attempts_law none p (tracked act) IsSound IsSound (λ _. IsSound)
        (λ y k.
          let (kept, same) = neutral y.services k.fresh in
          Ensures-of_state IsSound (tracked act y)
            (served-IsSound y (act y.services).1 kept same k))
        (λ _ k. k) (Others-IsSound g accepts none) x h)

  executed-Standing :
      {A : Type 0} (o : ℕ) (h d : List Booking) (p : RetryPolicy) (act : Action (Services St) A)
      → IsNeutral act
      → (x : Tracked St) → Standing o h d x
      → Standing o h d (execute (some o) p (tracked act) x).1
  executed-Standing o h d p act neutral x st =
      state_of-Ensures (Standing o h d) (execute (some o) p (tracked act) x) (
        attempts_law (some o) p (tracked act) (Standing o h d) (Standing o h d)
          (λ _. Standing o h d)
          (λ y k.
            let (kept, same) = neutral y.services k.sound.fresh in
            Ensures-of_state (Standing o h d) (tracked act y)
              (served-Standing o h d y (act y.services).1 kept same k))
          (λ _ k. k) (Others-Standing g accepts o h d) x st)

  executed-Leaves :
      {A : Type 0} (items : List OrderItem) (o : ℕ) (p : RetryPolicy) (act : Action (Services St) A)
      → IsNeutral act
      → (x : Tracked St)
      → Leaves them (shared_view items) items o x (execute (some o) p (tracked act) x).1
  executed-Leaves items o p act neutral x = record {
    free = executed-Standing o _ _ p act neutral x;
    held = executed-Standing o _ _ p act neutral x;
    sold = executed-Standing o _ _ p act neutral x;
  }

  pub stocking :
      (items : List OrderItem) → IsPositive items → IsStocking them (shared_view items) items
  stocking items positive = record {
    validate_sound = λ ids x h.
        executed-IsSound short_policy (λ s. (ok (validate_products ids s.products), s))
          (λ s f. (unmoved-KeepsOrders s _ refl refl f, refl)) x h;
    prices_sound = λ ids x h.
        executed-IsSound short_policy (λ s. (ok (get_product_prices ids s.products), s))
          (λ s f. (unmoved-KeepsOrders s _ refl refl f, refl)) x h;
    create_free = λ dto p u x h.
        Ensures-imp _ _ _ _ (them.create_order dto p u x) (λ _ _. tt) (λ _ _ k. k)
          (attempts_law none short_policy (tracked (create_attempt dto p u)) IsSound IsSound _
            (created_order dto p u) (λ _ k. k) (Others-IsSound g accepts none) x h);
    total_law = λ o x.
        executed-Leaves items o short_policy (λ s. (get_order_total_amount o s.orders, s))
          (λ s f. (unmoved-KeepsOrders s _ refl refl f, refl)) x;
    save_law =
        λ o p x. executed-Leaves items o short_policy (save_attempt o p) (save-IsNeutral o p) x;
    status_law = λ o st m x.
        executed-Leaves items o short_policy (status_attempt o st m) (update-IsNeutral o st m) x;
    failed_law = λ o m x h.
        attempts_law (some o) short_policy (tracked (status_attempt o place_failed (some m)))
          (Free o) (λ _. ⊥) _ (failed_order o m) (λ _ k. elim k [ ])
          (Others-Standing g accepts o [] []) x h;
    shipment_law = λ o a x.
        executed-Leaves items o short_policy (shipment_attempt o a)
          (λ s f. (unmoved-KeepsOrders s _ refl refl f, refl)) x;
    charge_law = λ o t x.
        executed-Leaves items o short_policy (charge_attempt g accepts o t)
          (λ s f. (unmoved-KeepsOrders s _ refl refl f, refl)) x;
    refund_law = λ o t x.
        executed-Leaves items o refunds (refund_attempt g accepts o t)
          (λ s f. (unmoved-KeepsOrders s _ refl refl f, refl)) x;
    reserve_law = λ o x h.
        attempts_law (some o) short_policy
          (noted (hold_booking o items) (stock_attempt reserve_inventory o items)) (Free o) (Free o)
          _ (reserve_attempt o items positive) (λ _ k. k) (Others-Standing g accepts o _ _) x h;
    confirm_law = λ o x h.
        Ensures-imp _ _ _ _ (them.confirm_inventory o items x) (λ _ k. elim k [ ]) (λ _ _ k. k)
          (attempts_law (some o) short_policy
            (noted (sell_booking o items) (stock_attempt confirm_inventory o items)) (Held items o)
            (λ _. ⊥) _ (confirm_attempt o items positive) (λ _ k. elim k [ ])
            (Others-Standing g accepts o _ _) x h);
    release_law = λ o x h.
        attempts_law (some o) short_policy
          (noted (drop_booking o) (stock_attempt release_inventory o items)) (Held items o) (λ _. ⊥)
          _ (release_attempt o items positive) (λ _ k. elim k [ ]) (Others-Standing g accepts o _ _)
          x h;
    restore_law = λ o x h.
        attempts_law (some o) short_policy
          (noted (return_booking o) (stock_attempt restore_inventory o items)) (Sold items o)
          (λ _. ⊥) _ (restore_attempt o items positive) (λ _ k. elim k [ ])
          (Others-Standing g accepts o _ _) x h;
  }

  -- For an order whose quantities are not negative, from sound books, where the steps of other
  -- orders fall between the attempts and no answer is lost; nor has any other order that reserves a
  -- negative quantity, which the program does not enforce. Where the `try` block returns, the
  -- workflow returns its receipt, and the order has bought just its items and holds none. Where it
  -- throws and knows the order, the workflow throws that error, and the order holds and has bought
  -- nothing and is PLACE_FAILED; or the refund after an attempted charge has failed, and its error
  -- is thrown. In the first two cases the books are kept: every row holds just what the open
  -- bookings of all orders ask.
  pub place-shared :
      (dto : CreateOrderDto) (user : Option ℕ) (x : Tracked St)
      → IsPositive dto.items
      → IsSound x
      → IsAccounted them
          (shared_view dto.items)
          (place_steps them dto user (nothing_done, x))
          (place_order_workflow them dto user x)
  place-shared dto user x positive sound =
      place_order_workflow-IsAccounted them (shared_view dto.items) dto
        (stocking dto.items positive) user x sound
