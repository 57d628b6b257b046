-- ===== src/Workflow/Returned.antt =====
-- The stocks of an order in the `catch` block of the saga that places it (place-order.workflow.ts),
-- where the steps of other orders fall between its own.
use nest_microservices_tempo.Prelude.{
  ℕ, ℤ, Bool, true, false, Option, some, ◌≡◌, refl, ◌⊎◌, inl, inr,
}
use nest_microservices_tempo.Errors.{Exception, Result, ok, err, message_of}
use nest_microservices_tempo.Order.{place_failed, CreateOrderDto}
use nest_microservices_tempo.Workflow.Monad.{followed, Activities}
use nest_microservices_tempo.Workflow.{
  Progress, nothing_done, Receipt, rethrown, place_steps, refund_if, return_stock, compensate,
  after_place, place_order_workflow, throw, ◌>>◌,
}
use nest_microservices_tempo.Workflow.Rules.{Ensures, followed-Ensures}
use nest_microservices_tempo.Workflow.Stocked.{
  StockView, IsStocking, StockOf, Returnable, Bought, place_steps-Returnable,
}

module _ {S : Type 0} (a : Activities S) (view : StockView S) where
  -- What the workflow makes of an order that its `try` block has left unfinished.
  abbrev pub IsReturned : Exception → Progress → S → Result Receipt × S → Type 0
  IsReturned e v s (out, s') =
      (o : ℕ)
      → v.order_id ≡ some o
      → ((out ≡ err (rethrown e)) × view.Free o s' × view.Failed o s')
        ⊎ ((e' : Exception) × (v.charge_attempted ≡ true)
            × (a.refund_payment o v.total_amount s ≡ (err e', s'))
            × (out ≡ err e'))

  abbrev pub IsAccounted : Result Receipt × (Progress × S) → Result Receipt × S → Type 0
  IsAccounted (ok receipt, (v, s)) (out, s') = (out ≡ ok receipt) × view.Sold receipt.order_id s'
  IsAccounted (err e, (v, s)) x = IsReturned e v s x

module _ {S : Type 0} (a : Activities S) (view : StockView S) (dto : CreateOrderDto)
    (law : IsStocking a view dto.items) where
  abbrev Stock : ℕ → Bool → Bool → S → Type 0
  Stock = StockOf a view dto law

  refunded-Stock :
      (o : ℕ) (c r attempted : Bool) (total : Option ℤ) (s : S)
      → Stock o c r s
      → Stock o c r (refund_if a attempted o total s).1
  refunded-Stock o c r false total s h = h
  refunded-Stock o true r true total s h = (law.refund_law o total s).sold h
  refunded-Stock o false true true total s h = (law.refund_law o total s).held h
  refunded-Stock o false false true total s h = (law.refund_law o total s).free h

  return_step :
      (o : ℕ) (c r : Bool) (s : S)
      → Stock o c r s
      → Ensures (λ _. ⊥) (λ _. view.Free o) (return_stock a c r o dto.items s)
  return_step o true r s h = law.restore_law o s h
  return_step o false true s h = law.release_law o s h
  return_step o false false s h = h

  -- What the compensation of an order leaves: the items are free, or the refund has failed.
  abbrev GivesBack :
      (o : ℕ) (attempted : Bool) (total : Option ℤ) → S → Result (Unit {0}) × S → Type 0
  GivesBack o attempted total s (ok _, s') = view.Free o s' × view.Failed o s'
  GivesBack o attempted total s (err e, s') =
      (attempted ≡ true) × (refund_if a attempted o total s ≡ (err e, s'))

  given_back :
      (o : ℕ) (attempted : Bool) (total : Option ℤ) (s : S) (x : Result (Unit {0}) × S)
      → Ensures (λ _. ⊥) (λ _ s'. view.Free o s' × view.Failed o s') x
      → GivesBack o attempted total s x
  given_back o attempted total s (ok _, s') h = h
  given_back o attempted total s (err e, s') h = elim h [ ]

  was_attempted :
      (o : ℕ) (attempted : Bool) (total : Option ℤ) (s s' : S) (e : Exception)
      → refund_if a attempted o total s ≡ (err e, s')
      → attempted ≡ true
  was_attempted o true total s s' e h = refl
  was_attempted o false total s s' e h = cc

  undo_order :
      (e : Exception) (o : ℕ) (c r attempted : Bool) (total : Option ℤ) (s : S)
      (x : Result (Unit {0}) × S)
      → refund_if a attempted o total s ≡ x
      → Stock o c r x.1
      → GivesBack o attempted total s (
          followed x λ _. do
            return_stock a c r o dto.items
            a.update_order_status o place_failed (some (message_of e)))
  undo_order e o c r attempted total s (err e', s₁) same h =
      (was_attempted o attempted total s s₁ e' same, same)
  undo_order e o c r attempted total s (ok _, s₁) same h = given_back o attempted total s _ (
      followed-Ensures (λ _. ⊥) (λ _. view.Free o) _ (return_stock a c r o dto.items s₁) _
        (return_step o c r s₁ h) λ _ s₂ h₂. law.failed_law o (message_of e) s₂ h₂)

  compensate-GivesBack :
      (e : Exception) (o : ℕ) (v : Progress) (s : S)
      → v.order_id ≡ some o
      → Returnable a view dto law (v, s)
      → GivesBack o v.charge_attempted v.total_amount s (compensate a dto e v s)
  unfolding compensate
  compensate-GivesBack e o v s h returnable =
      let (is_id, stock) = rw h at returnable in
      rw (h, compensate)
        (rw is_id (
          undo_order e o v.inventory_confirmed v.inventory_reserved v.charge_attempted
            v.total_amount s _ refl
            (refunded-Stock o v.inventory_confirmed v.inventory_reserved v.charge_attempted
              v.total_amount s stock)))

  rethrow :
      (e : Exception) (o : ℕ) (v : Progress) (s : S) (x : Result (Unit {0}) × S)
      → GivesBack o v.charge_attempted v.total_amount s x
      → let (out, s') = followed {B = Receipt} x (λ _. throw (rethrown e)) in
        ((out ≡ err (rethrown e)) × view.Free o s' × view.Failed o s')
        ⊎ ((e' : Exception) × (v.charge_attempted ≡ true)
            × (a.refund_payment o v.total_amount s ≡ (err e', s'))
            × (out ≡ err e'))
  rethrow e o v s (ok _, s') (free, failed) = inl (refl, free, failed)
  rethrow e o v s (err x, s') (made, same) = inr (x, made, (rw made at same), refl)

  after_place-IsAccounted :
      (r : Result Receipt × (Progress × S))
      → Ensures (Returnable a view dto law) (Bought a view dto law) r
      → IsAccounted a view r (after_place a dto r)
  after_place-IsAccounted (ok receipt, (v, s)) h = (refl, h)
  after_place-IsAccounted (err e, (v, s)) h =
      λ o at_o. rethrow e o v s (compensate a dto e v s) (compensate-GivesBack e o v s at_o h)

  pub place_order_workflow-IsAccounted :
      (user : Option ℕ) (s : S)
      → view.Sound s
      → IsAccounted a view
          (place_steps a dto user (nothing_done, s))
          (place_order_workflow a dto user s)
  unfolding place_order_workflow
  place_order_workflow-IsAccounted user s sound =
      after_place-IsAccounted (place_steps a dto user (nothing_done, s))
        (place_steps-Returnable a view dto law user s sound)
