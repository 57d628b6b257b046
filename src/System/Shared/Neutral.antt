-- ===== src/System/Shared/Neutral.antt =====
-- Attempts in which an order takes nothing from the stocks: what they leave of the orders and of the
-- bookings, and the attempts that create an order and that mark it as failed.
use nest_microservices_tempo.Prelude.{ℕ, suc, ◌≡◌, refl, ◌∙◌, ap, subst, Option, some, [], arith}
use nest_microservices_tempo.Errors.{Message, Result, ok, err}
use nest_microservices_tempo.Order.{OrderStatus, place_failed, CreateOrderDto, Prices}
use nest_microservices_tempo.Order.Laws.{with_id}
use nest_microservices_tempo.Order.Ids.{
  update_order_status_ids, save_payment_id_ids, status_of_Present,
}
use nest_microservices_tempo.Workflow.Monad.{Action}
use nest_microservices_tempo.Workflow.Rules.{Ensures}
use nest_microservices_tempo.System.{Services, create_attempt, status_attempt, save_attempt}
use nest_microservices_tempo.System.Fresh.{status_of}
use nest_microservices_tempo.System.Shared.{Tracked, tracked}
use nest_microservices_tempo.System.Shared.Bookings.{own_none}
use nest_microservices_tempo.System.Shared.Steps.{
  FreshIds, IsSound, KeepsOrders, create_made, create-KeepsOrders, SameIds-KeepsOrders,
  served-IsSound, served-Standing,
}
use nest_microservices_tempo.System.Shared.Attempts.{Free}

-- A step on the services that adds to the orders at most, and leaves the stocks alone.
abbrev pub IsNeutral : {St A : Type 0} → Action (Services St) A → Type 0
IsNeutral {St} act =
    (s : Services St)
    → FreshIds s
    → KeepsOrders s (act s).1 × ((act s).1.inventories ≡ s.inventories)

-- What the state and the result give, and a step that does not throw.
result_Ensures :
    {S A : Type 0} (P : S → Type 0) (Q : A → S → Type 0) (r : Result A × S)
    → P r.1
    → ((a : A) → r.0 ≡ ok a → P r.1 → Q a r.1)
    → Ensures P Q r
result_Ensures P Q (ok a, s) h f = f a refl h
result_Ensures P Q (err e, s) h f = h

done_Ensures :
    {S A : Type 0} (Q : A → S → Type 0) (r : Result A × S) (a : A)
    → r.0 ≡ ok a
    → Q a r.1
    → Ensures (λ _. ⊥) Q r
done_Ensures Q (ok b, s) a e h = let same : a ≡ b = cc in subst (λ z. Q z s) same h
done_Ensures Q (err z, s) a e h = cc

module _ {St : Type 0} where
  pub created_order :
      (dto : CreateOrderDto) (p : Prices) (u : Option ℕ) (x : Tracked St)
      → IsSound x
      → Ensures IsSound
          (λ o x'. (n : ℕ) × (o ≡ suc n) × Free o x')
          (tracked (create_attempt dto p u) x)
  created_order dto p u x sound =
      let s = x.services in
      let kept = create-KeepsOrders dto p u s sound.fresh in
      result_Ensures IsSound _ (tracked (create_attempt dto p u) x)
        (served-IsSound x (create_attempt dto p u s).1 kept refl sound)
        λ o made now.
          let (is, there) = (create_made dto p u s sound.fresh).result o made in
          (
            s.order_seq,
            is,
            record {
              sound = now;
              present = rw is there;
              held = own_none o s.order_seq x.held (omega (arith, is)) sound.held_issued;
              sold = own_none o s.order_seq x.sold (omega (arith, is)) sound.sold_issued;
            },
          )

  pub failed_order :
      (o : ℕ) (m : Message) (x : Tracked St)
      → Free o x
      → Ensures
          (λ _. ⊥)
          (λ _ x'. Free o x' × (status_of (with_id o x'.services.orders) ≡ some place_failed))
          (tracked (status_attempt o place_failed (some m)) x)
  failed_order o m x free =
      let s = x.services in
      let (done, (q, now, is)) = status_of_Present o place_failed (some m) s.orders free.present in
      let kept =
        SameIds-KeepsOrders s _ (update_order_status_ids o place_failed (some m) s.orders)
          free.sound.fresh in
      done_Ensures _ (tracked (status_attempt o place_failed (some m)) x) tt done (
        served-Standing o [] [] x (status_attempt o place_failed (some m) s).1 kept refl free,
        ap status_of now ∙ ap some is,
      )

  pub update-IsNeutral :
      (o : ℕ) (st : OrderStatus) (m : Option Message) → IsNeutral (status_attempt {St = St} o st m)
  update-IsNeutral o st m s fresh =
      (SameIds-KeepsOrders s _ (update_order_status_ids o st m s.orders) fresh, refl)

  pub save-IsNeutral : (o p : ℕ) → IsNeutral (save_attempt {St = St} o p)
  save-IsNeutral o p s fresh =
      (SameIds-KeepsOrders s _ (save_payment_id_ids o p s.orders) fresh, refl)
