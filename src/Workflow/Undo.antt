-- ===== src/Workflow/Undo.antt =====
-- The `catch` block of the saga that places an order: it takes back what the `try` block has done.
use nest_microservices_tempo.Prelude.{
  subst, sym, ◌⊎◌, ℕ, ℤ, Bool, true, false, Option, none, some, ◌≡◌, refl, ◌∙◌, if◌then◌else◌, inl,
  inr, Option-cases,
}
use nest_microservices_tempo.Errors.{Message, Exception, Result, ok, err, message_of}
use nest_microservices_tempo.Inventory.{Inventories}
use nest_microservices_tempo.Inventory.Demand.{IsPositive}
use nest_microservices_tempo.Inventory.Saga.{IsValid}
use nest_microservices_tempo.Order.{shipping, place_failed, CreateOrderDto}
use nest_microservices_tempo.Workflow.Monad.{followed}
use nest_microservices_tempo.Workflow.{
  Activities, Progress, nothing_done, Receipt, truthy, rethrown, place_steps, refund_if,
  return_stock, compensate, after_place, place_order_workflow, ◌>>◌, throw,
}
use nest_microservices_tempo.Workflow.Rules.{Ensures, followed-Ensures, Ensures-imp}
use nest_microservices_tempo.Workflow.Laws.{View, Held, Sold, IsLawful, IsRecovering}
use nest_microservices_tempo.Workflow.Place.{Undoable, Completed, place_steps-Ensures}

module _ {S : Type 0} (a : Activities S) (view : View S) (law : IsLawful a view)
    (recover : IsRecovering a view) (dto : CreateOrderDto) (positive : IsPositive dto.items)
    (t : Inventories) (valid : IsValid t) where
  -- The stocks with what the flags say was done to them.
  abbrev StockOf : Bool → Bool → S → Type 0
  StockOf confirmed reserved s =
      if confirmed
      then Sold a view dto.items t s
      else (if reserved then Held a view dto.items t s else (view.stocks s ≡ t))

  abbrev pub RolledBack : Option ℕ → S → Type 0
  RolledBack none s = view.stocks s ≡ t
  RolledBack (some o) s =
      (view.stocks s ≡ t) × view.Settled s o × (view.status s o ≡ some place_failed)

  StockOf-kept :
      (c r : Bool) (s s' : S) → view.stocks s' ≡ view.stocks s → StockOf c r s → StockOf c r s'
  StockOf-kept true r s s' k h = (h.0, k ∙ h.1)
  StockOf-kept false true s s' k h = (h.0, k ∙ h.1)
  StockOf-kept false false s s' k h = k ∙ h

  -- The refund, if a charge was attempted: it may fail for good.
  refund_step :
      (o : ℕ) (c r attempted : Bool) (total : Option ℤ) (s : S)
      → StockOf c r s
      → view.Agree s o
      → (if attempted then ((n : ℤ) × (total ≡ some n)) else view.Settled s o)
      → Ensures
          (λ s'. StockOf c r s' × (attempted ≡ true))
          (λ _ s'. StockOf c r s' × view.Agree s' o × view.Settled s' o)
          (refund_if a attempted o total s)
  refund_step o c r false total s h g f = (h, g, f)
  refund_step o c r true total s h g (n, e) = rw e (
      Ensures-imp _ _ _ _ (a.refund_payment o (some n) s)
        (λ s' (_, k). (StockOf-kept c r s s' k h, refl))
        (λ _ s' (g', k, f). (StockOf-kept c r s s' k h, g', f)) (recover.refund_law o n s g))

  abbrev Returned : ℕ → S → Type 0
  Returned o s = (view.stocks s ≡ t) × view.Agree s o × view.Settled s o

  return_step :
      (o : ℕ) (c r : Bool) (s : S)
      → StockOf c r s
      → view.Agree s o
      → view.Settled s o
      → Ensures (λ _. ⊥) (λ _. Returned o) (return_stock a c r o dto.items s)
  return_step o true r s h g f =
      Ensures-imp _ _ _ _ (a.restore_inventory o dto.items s) (λ _ x. x)
        (λ _ s' (k, m). (k, m.agree o g, m.settled o f))
        (recover.restore_law o dto.items t s valid positive h)
  return_step o false true s h g f =
      Ensures-imp _ _ _ _ (a.release_inventory o dto.items s) (λ _ x. x)
        (λ _ s' (k, m). (k, m.agree o g, m.settled o f))
        (recover.release_law o dto.items t s valid positive h)
  return_step o false false s h g f = (h, g, f)

  failed_step :
      (o : ℕ) (m : Message) (s : S)
      → Returned o s
      → Ensures
          (λ _. ⊥)
          (λ _. RolledBack (some o))
          (a.update_order_status o place_failed (some m) s)
  failed_step o m s (h, g, f) =
      Ensures-imp _ _ _ _ (a.update_order_status o place_failed (some m) s) (λ _ x. x)
        (λ _ s' (st, k). (k.stocks ∙ h, k.money.settled o f, st)) (recover.failed_law o m s g)

  -- What the compensation of an order comes to: all is undone, or the refund has failed, and its error
  -- is passed on from the state that it leaves, in which nothing else is undone.
  abbrev Undone :
      (o : ℕ) (c r attempted : Bool) (total : Option ℤ) → S → Result (Unit {0}) × S → Type 0
  Undone o c r attempted total s (ok _, s') = RolledBack (some o) s'
  Undone o c r attempted total s (err e, s') =
      (attempted ≡ true) × (refund_if a attempted o total s ≡ (err e, s')) × StockOf c r s'

  rolled_back :
      (o : ℕ) (c r attempted : Bool) (total : Option ℤ) (s : S) (x : Result (Unit {0}) × S)
      → Ensures (λ _. ⊥) (λ _. RolledBack (some o)) x
      → Undone o c r attempted total s x
  rolled_back o c r attempted total s (ok _, s') h = h
  rolled_back o c r attempted total s (err e, s') h = elim h [ ]

  undo_order :
      (e : Exception) (o : ℕ) (c r attempted : Bool) (total : Option ℤ) (s : S)
      (x : Result (Unit {0}) × S)
      → refund_if a attempted o total s ≡ x
      → Ensures
          (λ s'. StockOf c r s' × (attempted ≡ true))
          (λ _ s'. StockOf c r s' × view.Agree s' o × view.Settled s' o)
          x
      → Undone o c r attempted total s (
          followed x λ _. do
            return_stock a c r o dto.items
            a.update_order_status o place_failed (some (message_of e)))
  undo_order e o c r attempted total s (err e', s₁) same (h, made) = (made, same, h)
  undo_order e o c r attempted total s (ok _, s₁) same (h, g, f) =
      rolled_back o c r attempted total s _ (
        followed-Ensures (λ _. ⊥) (λ _. Returned o) _ (return_stock a c r o dto.items s₁) _
          (return_step o c r s₁ h g f) λ _ s₂ h₂. failed_step o (message_of e) s₂ h₂)

  -- The `catch` block, up to the rethrow.
  abbrev Compensated : Progress → S → Result (Unit {0}) × S → Type 0
  Compensated v s (ok _, s') = RolledBack v.order_id s'
  Compensated v s (err e, s') =
      (o : ℕ) × (v.order_id ≡ some o)
      × (v.charge_attempted ≡ true)
      × (a.refund_payment o v.total_amount s ≡ (err e, s'))
      × StockOf v.inventory_confirmed v.inventory_reserved s'

  of_order :
      (o : ℕ) (v : Progress) (s : S) (x : Result (Unit {0}) × S)
      → v.order_id ≡ some o
      → Undone o v.inventory_confirmed v.inventory_reserved v.charge_attempted v.total_amount s x
      → Compensated v s x
  of_order o v s (ok _, s') h u = rw h u
  of_order o v s (err e, s') h (made, same, stock) = (o, h, made, (rw made at same), stock)

  compensate-none :
      (e : Exception) (v : Progress) (s : S)
      → v.order_id ≡ none
      → compensate a dto e v s ≡ (ok tt, s)
  unfolding compensate
  compensate-none e v s h = rw (h, compensate) refl

  compensate-some :
      (e : Exception) (o : ℕ) (v : Progress) (s : S)
      → v.order_id ≡ some o
      → truthy (some o) ≡ true
      → compensate a dto e v s
        ≡ followed (refund_if a v.charge_attempted o v.total_amount s) λ _. do
          return_stock a v.inventory_confirmed v.inventory_reserved o dto.items
          a.update_order_status o place_failed (some (message_of e))
  unfolding compensate
  compensate-some e o v s h is_id = rw (h, compensate) (rw is_id refl)

  compensate-Compensated :
      (e : Exception) (v : Progress) (s : S)
      → Undoable a view law dto positive t valid (v, s)
      → Compensated v s (compensate a dto e v s)
  compensate-Compensated e v s (stock, money) = elim (Option-cases v.order_id) [
    | inl h ↦
        let (no_confirm, no_reserve) = rw h at money in
        subst (λ x. Compensated v s x) (sym (compensate-none e v s h))
          (rw h (rw (no_confirm, no_reserve) at stock))
    | inr (o, h) ↦
        let (is_id, agree, flag) = rw h at money in
        subst (λ x. Compensated v s x) (sym (compensate-some e o v s h is_id))
          (of_order o v s _ h (
            undo_order e o v.inventory_confirmed v.inventory_reserved v.charge_attempted
              v.total_amount s _ refl
              (refund_step o v.inventory_confirmed v.inventory_reserved v.charge_attempted
                v.total_amount s stock agree flag)))
  ]

  -- What the workflow makes of the error `e` that its `try` block has thrown in the state `s`.
  abbrev pub IsReverted : Exception → Progress → S → Result Receipt × S → Type 0
  IsReverted e v s (out, s') =
      ((out ≡ err (rethrown e)) × RolledBack v.order_id s')
      ⊎ ((e' : Exception) × (o : ℕ) × (out ≡ err e')
          × (v.order_id ≡ some o)
          × (v.charge_attempted ≡ true)
          × (a.refund_payment o v.total_amount s ≡ (err e', s'))
          × StockOf v.inventory_confirmed v.inventory_reserved s')

  abbrev pub IsSaga : Result Receipt × (Progress × S) → Result Receipt × S → Type 0
  IsSaga (ok receipt, (v, s)) (out, s') =
      (out ≡ ok receipt)
      × Sold a view dto.items t s'
      × (view.status s' receipt.order_id ≡ some shipping)
      × (receipt.status ≡ shipping)
  IsSaga (err e, (v, s)) x = IsReverted e v s x

  rethrow :
      (v : Progress) (e : Exception) (s : S) (r : Result (Unit {0}) × S)
      → Compensated v s r
      → IsReverted e v s (followed {B = Receipt} r (λ _. throw (rethrown e)))
  rethrow v e s (ok _, s') h = inl (refl, h)
  rethrow v e s (err e', s') (o, h, made, same, stock) = inr (e', o, refl, h, made, same, stock)

  after_place_lem :
      (r : Result Receipt × (Progress × S))
      → Ensures
          (Undoable a view law dto positive t valid)
          (Completed a view law dto positive t valid)
          r
      → IsSaga r (after_place a dto r)
  after_place_lem (ok receipt, (v, s)) (sold, st, r) = (refl, sold, st, r)
  after_place_lem (err e, (v, s)) h =
      rethrow v e s (compensate a dto e v s) (compensate-Compensated e v s h)

  -- For an order whose quantities are not negative, which the program does not enforce, from stocks
  -- `t` that are valid, and activities that keep their laws, also where they fail:
  -- placeOrderWorkflow ends in one of three ways. Where its `try` block returns, it returns that
  -- receipt, the items are sold, and the order is SHIPPING. Where its `try` block throws, it throws
  -- that error (an ApplicationFailure as it is, any other as a non-retryable one), the stocks are
  -- `t` again, and an order that was created is PLACE_FAILED with no money of its customer held; or
  -- else a charge was attempted and its refund has failed: then the workflow throws the refund's
  -- error, and the items are held, or sold, as they were.
  pub place_order_workflow_lem :
      (user : Option ℕ) (s : S)
      → view.stocks s ≡ t
      → view.Sound s
      → IsSaga (place_steps a dto user (nothing_done, s)) (place_order_workflow a dto user s)
  unfolding place_order_workflow
  place_order_workflow_lem user s h sound =
      after_place_lem (place_steps a dto user (nothing_done, s))
        (place_steps-Ensures a view law dto positive t valid user s (h, sound))
