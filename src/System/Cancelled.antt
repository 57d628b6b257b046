-- ===== src/System/Cancelled.antt =====
-- The cancel-order saga over the services of this repository.
use nest_microservices_tempo.Prelude.{
  ℕ, suc, ◌≡◌, refl, Bool, Option, none, some, List, map, ap, arith, inl, inr,
}
use nest_microservices_tempo.Errors.{Message, ok}
use nest_microservices_tempo.Inventory.{
  OrderItem, Inventories, release_inventory, restore_inventory,
}
use nest_microservices_tempo.Inventory.Demand.{IsPositive}
use nest_microservices_tempo.Inventory.Saga.{IsValid}
use nest_microservices_tempo.Order.{
  OrderEntity, OrderStatus, cancelled, cancel_failed, CancelOrderDto, Orders, update_order_status,
  get_payment_id, get_order_items, to_item,
}
use nest_microservices_tempo.Order.Laws.{with_id, update_order_status_lem}
use nest_microservices_tempo.Order.Ids.{status_of_Present}
use nest_microservices_tempo.Payment.{Gateway}
use nest_microservices_tempo.Payment.Stripe.{Ledger, IsStripe}
use nest_microservices_tempo.Payment.Settle.{Settled}
use nest_microservices_tempo.Workflow.{cancel_order_workflow}
use nest_microservices_tempo.Workflow.Monad.{Activities}
use nest_microservices_tempo.Workflow.Retry.{RetryPolicy, Temporal, Lossless, short_policy}
use nest_microservices_tempo.Workflow.Rules.{Ensures, Ensures-imp}
use nest_microservices_tempo.Workflow.Cancel.{IsCancelling, Cancellable, cancel_order_workflow_lem}
use nest_microservices_tempo.System.{
  Services, services, status_attempt, stock_attempt, refund_attempt,
}
use nest_microservices_tempo.System.Kept.{executed}
use nest_microservices_tempo.System.Fresh.{status_of, system_view}
use nest_microservices_tempo.System.Placed.{lawful, recovering, refunded}

-- The order's row, with its payment and its items.
abbrev pub IsRow : ℕ → Option ℕ → List OrderItem → Orders → Type 0
IsRow o payment items t =
    (r : OrderEntity) × (with_id o t ≡ some r)
    × (r.payment_id ≡ payment)
    × (map to_item r.items ≡ items)

reads_payment :
    (o : ℕ) (payment : Option ℕ) (items : List OrderItem) (t : Orders)
    → IsRow o payment items t
    → get_payment_id o t ≡ ok payment
unfolding get_payment_id
reads_payment o payment items t (r, there, paid, _) = ground (arith, there, paid)

reads_items :
    (o : ℕ) (payment : Option ℕ) (items : List OrderItem) (t : Orders)
    → IsRow o payment items t
    → get_order_items o t ≡ ok items
unfolding get_order_items
reads_items o payment items t (r, there, _, same) = ground (arith, there, same)

status-IsRow :
    (o : ℕ) (payment : Option ℕ) (items : List OrderItem) (status : OrderStatus)
    (m : Option Message) (t : Orders)
    → IsRow o payment items t
    → IsRow o payment items (update_order_status o status m t).1
status-IsRow o payment items status m t (r, there, paid, same) =
    elim (update_order_status_lem o (suc o) status m t (omega arith)) [
      | inl (q, found, (_, now, _)) ↦ let e : r ≡ q = cc in (_, now, rw e at paid, rw e at same)
      | inr (missing, _) ↦ cc
    ]

module _ {St : Type 0} (g : Gateway St) (l : Ledger St) (stripe : IsStripe g l) (accepts : ℕ → Bool)
    (temporal : Temporal (Services St)) (lossless : Lossless temporal) (refunds : RetryPolicy)
    (o : ℕ) (payment : Option ℕ) (items : List OrderItem) where
  open temporal use {execute}
  open lossless use {first_law}

  abbrev acts : Activities (Services St)
  acts = services g accepts temporal refunds

  abbrev pub Row : Services St → Type 0
  Row s = IsRow o payment items s.orders

  -- Steps that leave the orders alone.
  refund-Row : (s : Services St) → Row s → Row (acts.refund_payment o none s).1
  refund-Row s h =
      executed g l stripe accepts temporal lossless refunds refunds
        (refund_attempt g accepts o none) Row (λ s' h'. h') s h

  release-Row : (s : Services St) → Row s → Row (acts.release_inventory o items s).1
  release-Row s h =
      executed g l stripe accepts temporal lossless refunds short_policy
        (stock_attempt release_inventory o items) Row (λ s' h'. h') s h

  restore-Row : (s : Services St) → Row s → Row (acts.restore_inventory o items s).1
  restore-Row s h =
      executed g l stripe accepts temporal lossless refunds short_policy
        (stock_attempt restore_inventory o items) Row (λ s' h'. h') s h

  update-Row :
      (status : OrderStatus) (m : Option Message) (s : Services St)
      → Row s
      → Row (acts.update_order_status o status m s).1
  update-Row status m s h =
      executed g l stripe accepts temporal lossless refunds short_policy (status_attempt o status m)
        Row (λ s' h'. status-IsRow o payment items status m s'.orders h') s h

  marked :
      (m : Message) (s : Services St)
      → Row s
      → Ensures
          (λ _. ⊥)
          (λ _ s'. status_of (with_id o s'.orders) ≡ some cancel_failed)
          (acts.update_order_status o cancel_failed (some m) s)
  marked m s (r, there, _, _) =
      let (done, (q, now, is)) = status_of_Present o cancel_failed (some m) s.orders (r, there) in
      rw
        (first_law short_policy (status_attempt o cancel_failed (some m)) tt s
          (record s { orders = (update_order_status o cancel_failed (some m) s.orders).1 })
          (rw done refl))
        (rw now (ap some is))

  pub rely : IsCancelling acts (system_view l) o payment items Row
  rely = record {
    payment_law = λ s h.
        rw
          (first_law short_policy (λ s'. (get_payment_id o s'.orders, s')) payment s s
            (rw (reads_payment o payment items s.orders h) refl))
          (refl, refl);
    items_law = λ s h.
        rw
          (first_law short_policy (λ s'. (get_order_items o s'.orders, s')) items s s
            (rw (reads_items o payment items s.orders h) refl))
          (refl, refl);
    refund_law = λ s h.
        Ensures-imp _ _ _ _ (acts.refund_payment o none s) (λ _ _. tt) (λ _ _ (_, k, f). (f, k))
          (refunded g l stripe accepts temporal lossless refunds o none s h);
    refund_row = λ s h. refund-Row s h;
    release_row = λ s h. release-Row s h;
    restore_row = λ s h. restore-Row s h;
    status_row = λ status m s h. update-Row status m s h;
    mark_law = λ m s h. marked m s h;
  }

module _ {St : Type 0} (g : Gateway St) (l : Ledger St) (stripe : IsStripe g l) (accepts : ℕ → Bool)
    (temporal : Temporal (Services St)) (lossless : Lossless temporal) where
  -- For any Stripe that keeps its documented laws, in the runs of Temporal in which no answer of an
  -- attempt is lost and no other workflow runs (`Lossless`), for quantities that are not negative,
  -- which the program does not enforce, and over a valid table `t` of stocks: an order that is
  -- there, whose items are sold if it has a payment and held if it has none, whose payments agree
  -- with Stripe, and of whose customer no money is held if it has no payment, is cancelled by
  -- cancelOrderWorkflow over the services. Where that returns, the stocks are `t`, those before the
  -- order, no money of the customer is held and the order is CANCELLED; where it throws, the order
  -- is CANCEL_FAILED.
  pub cancel-services :
      (dto : CancelOrderDto) (payment : Option ℕ) (items : List OrderItem)
      (positive : IsPositive items) (t : Inventories) (valid : IsValid t) (s : Services St)
      → Cancellable
          (services g accepts temporal short_policy)
          (system_view l)
          (lawful g l stripe accepts temporal lossless short_policy)
          (recovering g l stripe accepts temporal lossless short_policy)
          dto
          payment
          items
          (Row g l stripe accepts temporal lossless short_policy dto.order_id payment items)
          (rely g l stripe accepts temporal lossless short_policy dto.order_id payment items)
          positive
          t
          valid
          s
      → Ensures
          (λ s'. status_of (with_id dto.order_id s'.orders) ≡ some cancel_failed)
          (λ _ s'.
            ((s'.inventories ≡ t) × Settled l s'.stripe dto.order_id)
            × (status_of (with_id dto.order_id s'.orders) ≡ some cancelled))
          (cancel_order_workflow (services g accepts temporal short_policy) dto s)
  cancel-services dto payment items positive t valid s h =
      cancel_order_workflow_lem (services g accepts temporal short_policy) (system_view l)
        (lawful g l stripe accepts temporal lossless short_policy)
        (recovering g l stripe accepts temporal lossless short_policy) dto payment items
        (Row g l stripe accepts temporal lossless short_policy dto.order_id payment items)
        (rely g l stripe accepts temporal lossless short_policy dto.order_id payment items) positive
        t valid s h
