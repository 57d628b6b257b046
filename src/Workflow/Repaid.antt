-- ===== src/Workflow/Repaid.antt =====
-- The money of an order in the `catch` block of the saga that places it (place-order.workflow.ts), under
-- the weaker laws.
use nest_microservices_tempo.Prelude.{
  ℕ, ℤ, Bool, true, false, Option, some, ◌≡◌, refl, ◌⊎◌, inl, inr, if◌then◌else◌,
}
use nest_microservices_tempo.Errors.{Exception, Result, ok, err, message_of}
use nest_microservices_tempo.Order.{place_failed, CreateOrderDto}
use nest_microservices_tempo.Workflow.Monad.{followed, Action, Activities}
use nest_microservices_tempo.Workflow.{
  Progress, nothing_done, Receipt, rethrown, place_steps, refund_if, return_stock, compensate,
  after_place, place_order_workflow, throw, ◌>>◌,
}
use nest_microservices_tempo.Workflow.Rules.{Ensures, Ensures-imp}
use nest_microservices_tempo.Workflow.Laws.{View}
use nest_microservices_tempo.Workflow.Sparing.{
  Spares, IsSparing, Refundable, Placed, place_steps-Refundable,
}

module _ {S : Type 0} (a : Activities S) (view : View S) (law : IsSparing a view)
    (dto : CreateOrderDto) where
  -- Whatever comes of a step and of what follows it.
  state_after :
      {A B : Type 0} (P : S → Type 0) (x : Result A × S) (k : A → Action S B)
      → P x.1
      → ((y : A) (s : S) → P s → P (k y s).1)
      → P (followed x k).1
  state_after P (ok y, s) k h f = f y s h
  state_after P (err e, s) k h f = h

  abbrev Closed : ℕ → S → Type 0
  Closed o s = view.Agree s o × view.Settled s o

  Closed-kept : (o : ℕ) (s s' : S) → Spares a view o s s' → Closed o s → Closed o s'
  Closed-kept o s s' k (g, f) = let (g', keep) = k g in (g', keep f)

  -- What the compensation of an order leaves: its money is settled, or the refund has failed.
  abbrev Repays : (o : ℕ) (attempted : Bool) (total : Option ℤ) → S → Result (Unit {0}) × S → Type 0
  Repays o attempted total s (out, s') =
      view.Settled s' o
      ⊎ ((e : Exception) × (attempted ≡ true)
          × (refund_if a attempted o total s ≡ (err e, s'))
          × (out ≡ err e))

  refund_step :
      (o : ℕ) (attempted : Bool) (total : Option ℤ) (s : S)
      → view.Agree s o
      → (if attempted then ((n : ℤ) × (total ≡ some n)) else view.Settled s o)
      → Ensures (λ s'. attempted ≡ true) (λ _. Closed o) (refund_if a attempted o total s)
  refund_step o false total s g f = (g, f)
  refund_step o true total s g (n, e) = rw e (
      Ensures-imp _ _ _ _ (a.refund_payment o (some n) s) (λ s' _. refl) (λ _ s' h. h)
        (law.refund_law o n s g))

  returned :
      (o : ℕ) (c r : Bool) (s : S) → Closed o s → Closed o (return_stock a c r o dto.items s).1
  returned o true r s h = Closed-kept o s _ (law.restore_law o dto.items s) h
  returned o false true s h = Closed-kept o s _ (law.release_law o dto.items s) h
  returned o false false s h = h

  undo_order :
      (e : Exception) (o : ℕ) (c r attempted : Bool) (total : Option ℤ) (s : S)
      (x : Result (Unit {0}) × S)
      → refund_if a attempted o total s ≡ x
      → Ensures (λ s'. attempted ≡ true) (λ _. Closed o) x
      → Repays o attempted total s (
          followed x λ _. do
            return_stock a c r o dto.items
            a.update_order_status o place_failed (some (message_of e)))
  undo_order e o c r attempted total s (err e', s') same made = inr (e', made, same, refl)
  undo_order e o c r attempted total s (ok _, s') same closed =
      inl
        (state_after (Closed o) (return_stock a c r o dto.items s') _ (returned o c r s' closed)
          (λ _ s₁ h₁.
            Closed-kept o s₁ _ (law.status_law o place_failed (some (message_of e)) s₁) h₁)).1

  compensate-Repays :
      (e : Exception) (o : ℕ) (v : Progress) (s : S)
      → v.order_id ≡ some o
      → Refundable a view law dto (v, s)
      → Repays o v.charge_attempted v.total_amount s (compensate a dto e v s)
  unfolding compensate
  compensate-Repays e o v s h refundable =
      let (is_id, agree, flag) = rw h at refundable in
      rw (h, compensate)
        (rw is_id (
          undo_order e o v.inventory_confirmed v.inventory_reserved v.charge_attempted
            v.total_amount s _ refl (refund_step o v.charge_attempted v.total_amount s agree flag)))

  -- What the workflow makes of an order that its `try` block has left unfinished.
  abbrev pub IsRepaid : Progress → S → Result Receipt × S → Type 0
  IsRepaid v s (out, s') =
      ((x : Exception) × (out ≡ err x))
      × ((o : ℕ)
          → v.order_id ≡ some o
          → view.Settled s' o
            ⊎ ((e : Exception) × (v.charge_attempted ≡ true)
                × (a.refund_payment o v.total_amount s ≡ (err e, s'))
                × (out ≡ err e)))

  abbrev pub IsHonest : Result Receipt × (Progress × S) → Result Receipt × S → Type 0
  IsHonest (ok receipt, (v, s)) (out, s') = (out ≡ ok receipt) × view.Agree s' receipt.order_id
  IsHonest (err e, (v, s)) x = IsRepaid v s x

  rethrow :
      (e : Exception) (o : ℕ) (v : Progress) (s : S) (x : Result (Unit {0}) × S)
      → Repays o v.charge_attempted v.total_amount s x
      → let (out, s') = followed {B = Receipt} x (λ _. throw (rethrown e)) in
        view.Settled s' o
        ⊎ ((e' : Exception) × (v.charge_attempted ≡ true)
            × (a.refund_payment o v.total_amount s ≡ (err e', s'))
            × (out ≡ err e'))
  rethrow e o v s (ok _, s') (inl f) = inl f
  rethrow e o v s (err e', s') (inl f) = inl f
  rethrow e o v s (ok _, s') (inr (e', made, same, out)) = cc
  rethrow e o v s (err x, s') (inr (e', made, same, out)) = inr (e', made, (rw made at same), cc)

  thrown :
      {A : Type 0} (e : Exception) (x : Result A × S)
      → (y : Exception) × ((followed {B = Receipt} x (λ _. throw e)).0 ≡ err y)
  thrown e (ok _, s) = (e, refl)
  thrown e (err y, s) = (y, refl)

  after_place-IsHonest :
      (r : Result Receipt × (Progress × S))
      → Ensures (Refundable a view law dto) (Placed a view law dto) r
      → IsHonest r (after_place a dto r)
  after_place-IsHonest (ok receipt, (v, s)) h = (refl, h)
  after_place-IsHonest (err e, (v, s)) h = (
    thrown (rethrown e) (compensate a dto e v s),
    λ o at_o. rethrow e o v s (compensate a dto e v s) (compensate-Repays e o v s at_o h),
  )

  pub place_order_workflow-IsHonest :
      (user : Option ℕ) (s : S)
      → view.Sound s
      → IsHonest (place_steps a dto user (nothing_done, s)) (place_order_workflow a dto user s)
  unfolding place_order_workflow
  place_order_workflow-IsHonest user s sound =
      after_place-IsHonest (place_steps a dto user (nothing_done, s))
        (place_steps-Refundable a view law dto user s sound)
