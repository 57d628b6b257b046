-- ===== src/Workflow/Cancel.antt =====
-- The saga that cancels an order.
use nest_microservices_tempo.Prelude.{
  ℕ, Bool, true, false, Option, none, some, List, ◌≡◌, refl, ◌∙◌, if◌then◌else◌, inl, inr,
  Bool-cases,
}
use nest_microservices_tempo.Errors.{Message, Exception, Result, ok, err}
use nest_microservices_tempo.Inventory.{OrderItem, Inventories}
use nest_microservices_tempo.Inventory.Demand.{IsPositive}
use nest_microservices_tempo.Inventory.Saga.{IsValid}
use nest_microservices_tempo.Order.{OrderStatus, cancelled, cancel_failed, CancelOrderDto}
use nest_microservices_tempo.Workflow.Monad.{followed}
use nest_microservices_tempo.Workflow.{
  Activities, truthy, rethrown, refund_paid, give_back, cancel_steps, after_cancel,
  cancel_order_workflow, throw, pure,
}
use nest_microservices_tempo.Workflow.Rules.{
  Ensures, followed-Ensures, Ensures-imp, Ensures-both, Ensures-of_state,
}
use nest_microservices_tempo.Workflow.Laws.{View, Held, Sold, IsLawful, IsRecovering}

-- What the cancellation of one order relies on, wherever its row is there, with a payment and items that
-- nothing here changes: what the reads answer, that a refund without a total gives the money back
-- where it succeeds, and that the failure can be recorded.
pub record IsCancelling {S : Type 0} (a : Activities S) (view : View S) (o : ℕ) (payment : Option ℕ)
    (items : List OrderItem) (Row : S → Type 0) : Type 0 where
  pub payment_law :
      (s : S) → Row s → Ensures Row (λ p s'. (p ≡ payment) × (s' ≡ s)) (a.get_payment_id o s)
  pub items_law :
      (s : S) → Row s → Ensures Row (λ l s'. (l ≡ items) × (s' ≡ s)) (a.get_order_items o s)
  pub refund_law :
      (s : S)
      → view.Agree s o
      → Ensures
          (λ _. Unit {0})
          (λ _ s'. view.Settled s' o × (view.stocks s' ≡ view.stocks s))
          (a.refund_payment o none s)
  pub refund_row : (s : S) → Row s → Row (a.refund_payment o none s).1
  pub release_row : (s : S) → Row s → Row (a.release_inventory o items s).1
  pub restore_row : (s : S) → Row s → Row (a.restore_inventory o items s).1
  pub status_row :
      (status : OrderStatus) (m : Option Message) (s : S)
      → Row s
      → Row (a.update_order_status o status m s).1
  pub mark_law :
      (m : Message) (s : S)
      → Row s
      → Ensures
          (λ _. ⊥)
          (λ _ s'. view.status s' o ≡ some cancel_failed)
          (a.update_order_status o cancel_failed (some m) s)

module _ {S : Type 0} (a : Activities S) (view : View S) (law : IsLawful a view)
    (recover : IsRecovering a view) (dto : CancelOrderDto) (payment : Option ℕ)
    (items : List OrderItem) (Row : S → Type 0)
    (rely : IsCancelling a view dto.order_id payment items Row) (positive : IsPositive items)
    (t : Inventories) (valid : IsValid t) where
  -- An order that is paid has its items sold, one that is not has them held.
  abbrev StockOf : Bool → S → Type 0
  StockOf is_paid s = if is_paid then Sold a view items t s else Held a view items t s

  abbrev pub Cancellable : S → Type 0
  Cancellable s =
      Row s
      × StockOf (truthy payment) s
      × view.Agree s dto.order_id
      × (truthy payment ≡ false → view.Settled s dto.order_id)

  abbrev Refunded : S → Type 0
  Refunded s = Row s × StockOf (truthy payment) s × view.Settled s dto.order_id

  abbrev Returned : S → Type 0
  Returned s = (view.stocks s ≡ t) × view.Settled s dto.order_id

  -- With the row, also where the step fails.
  with_row :
      {A : Type 0} (Fail : S → Type 0) (Done Done' : A → S → Type 0) (r : Result A × S)
      → Row r.1
      → ((x : A) (s : S) → Done x s → Done' x s)
      → Ensures Fail Done r
      → Ensures Row (λ x s. Row s × Done' x s) r
  with_row Fail Done Done' (ok x, s) row f h = (row, f x s h)
  with_row Fail Done Done' (err e, s) row f h = row

  refund_Ensures :
      (is_paid : Bool) (s : S)
      → Row s
      → StockOf is_paid s
      → view.Agree s dto.order_id
      → (is_paid ≡ false → view.Settled s dto.order_id)
      → Ensures Row
          (λ _ s'. Row s' × StockOf is_paid s' × view.Settled s' dto.order_id)
          ((if is_paid then a.refund_payment dto.order_id none else pure tt) s)
  refund_Ensures true s row sold agree settled =
      Ensures-imp _ _ _ _ (a.refund_payment dto.order_id none s) (λ _ (r, _). r)
        (λ _ s' (r, (f, k)). (r, (sold.0, k ∙ sold.1), f))
        (Ensures-both Row _ (λ _. Row) _ _ (Ensures-of_state Row _ (rely.refund_row s row))
          (rely.refund_law s agree))
  refund_Ensures false s row held agree settled = (row, held, settled refl)

  refund_paid-Ensures :
      (s : S) → Cancellable s → Ensures Row (λ _. Refunded) (refund_paid a payment dto.order_id s)
  refund_paid-Ensures s (row, stock, agree, settled) =
      refund_Ensures (truthy payment) s row stock agree settled

  give_back-Ensures :
      (s : S)
      → Refunded s
      → Ensures Row (λ _ s'. Row s' × Returned s') (give_back a payment dto.order_id items s)
  give_back-Ensures s (row, stock, f) = elim (Bool-cases (truthy payment)) [
    | inl h ↦ rw h (
        with_row _ _ _ (a.restore_inventory dto.order_id items s) (rely.restore_row s row)
          (λ _ s' (k, m). (k, m.settled dto.order_id f))
          (recover.restore_law dto.order_id items t s valid positive (rw h at stock)))
    | inr h ↦ rw h (
        with_row _ _ _ (a.release_inventory dto.order_id items s) (rely.release_row s row)
          (λ _ s' (k, m). (k, m.settled dto.order_id f))
          (recover.release_law dto.order_id items t s valid positive (rw h at stock)))
  ]

  abbrev pub Cancelled : S → Type 0
  Cancelled s = Returned s × (view.status s dto.order_id ≡ some cancelled)

  cancelled_step :
      (s : S)
      → Row s
      → Returned s
      → Ensures Row
          (λ _. Cancelled)
          (a.update_order_status dto.order_id cancelled dto.cancel_reason s)
  cancelled_step s row (e, f) =
      let k = law.status_law dto.order_id cancelled dto.cancel_reason s in
      Ensures-imp _ _ _ _ (a.update_order_status dto.order_id cancelled dto.cancel_reason s)
        (λ _ (r, _). r) (λ _ s' (r, (ret, st)). (ret, st))
        (Ensures-both Row _ (λ _. Row) _ _
          (Ensures-of_state Row _ (rely.status_row cancelled dto.cancel_reason s row))
          (Ensures-both Returned _ (λ _. Returned) _ _
            (Ensures-of_state Returned _ (k.stocks ∙ e, k.money.settled dto.order_id f))
            (law.status_set dto.order_id cancelled dto.cancel_reason s)))

  cancel_steps-Ensures :
      (s : S) → Cancellable s → Ensures Row (λ _. Cancelled) (cancel_steps a dto s)
  unfolding cancel_steps
  cancel_steps-Ensures s h =
      followed-Ensures Row (λ p s'. (p ≡ payment) × (s' ≡ s)) _ (a.get_payment_id dto.order_id s) _
        (rely.payment_law s h.0)
        λ p s₁ (is_p, same).
          rw (is_p, same)
            (followed-Ensures Row (λ _. Refunded) _ (refund_paid a payment dto.order_id s) _
              (refund_paid-Ensures s h)
              λ _ s₂ h₂.
                followed-Ensures Row (λ l s'. (l ≡ items) × (s' ≡ s₂)) _
                  (a.get_order_items dto.order_id s₂) _ (rely.items_law s₂ h₂.0)
                  λ l s₃ (is_l, same').
                    rw (is_l, same')
                      (followed-Ensures Row (λ _ s'. Row s' × Returned s') _
                        (give_back a payment dto.order_id items s₂) _ (give_back-Ensures s₂ h₂)
                        λ _ s₄ (row, h₄). cancelled_step s₄ row h₄))

  marked :
      (e : Exception) (r : Result (Unit {0}) × S)
      → Ensures (λ _. ⊥) (λ _ s'. view.status s' dto.order_id ≡ some cancel_failed) r
      → Ensures
          (λ s'. view.status s' dto.order_id ≡ some cancel_failed)
          (λ (_ : Unit {0}). Cancelled)
          (followed {B = Unit {0}} r (λ _. throw (rethrown e)))
  marked e (ok _, s) h = h
  marked e (err _, s) h = elim h [ ]

  after_cancel_lem :
      (r : Result (Unit {0}) × S)
      → Ensures Row (λ _. Cancelled) r
      → Ensures
          (λ s'. view.status s' dto.order_id ≡ some cancel_failed)
          (λ _. Cancelled)
          (after_cancel a dto r)
  after_cancel_lem (ok _, s) h = h
  after_cancel_lem (err e, s) h = marked e _ (rely.mark_law _ s h)

  -- For an order whose quantities are not negative, which the program does not enforce, over a
  -- valid table `t` of stocks: if its items are sold and it is paid, or they are held and it is
  -- not, it is cancelled by cancelOrderWorkflow. Where that returns, the stocks are `t`, those
  -- before the order, no money of the customer is held and the order is CANCELLED; where it throws,
  -- the order is CANCEL_FAILED. The activities are taken to keep their laws, and CANCEL_FAILED to
  -- be recorded for an order that is there.
  pub cancel_order_workflow_lem :
      (s : S)
      → Cancellable s
      → Ensures
          (λ s'. view.status s' dto.order_id ≡ some cancel_failed)
          (λ _. Cancelled)
          (cancel_order_workflow a dto s)
  unfolding cancel_order_workflow
  cancel_order_workflow_lem s h = after_cancel_lem (cancel_steps a dto s) (cancel_steps-Ensures s h)
