-- ===== src/System/Placed.antt =====
-- The place-order saga over the services of this repository, as instances of its laws.
use nest_microservices_tempo.Prelude.{ℕ, ℤ, String, ◌≡◌, refl, Bool, Option, some, List, ap}
use nest_microservices_tempo.Errors.{Message, Result, ok, err}
use nest_microservices_tempo.Inventory.{
  OrderItem, Inventories, release_inventory, confirm_inventory, restore_inventory,
}
use nest_microservices_tempo.Inventory.Demand.{IsPositive}
use nest_microservices_tempo.Inventory.Saga.{IsValid}
use nest_microservices_tempo.Inventory.Held.{confirm_is, release_is, restore_is}
use nest_microservices_tempo.Product.{validate_products, get_product_prices}
use nest_microservices_tempo.Order.{
  get_order_total_amount, place_failed, CreateOrderDto, Prices, update_order_status,
}
use nest_microservices_tempo.Order.Laws.{with_id}
use nest_microservices_tempo.Order.Ids.{update_order_status_ids, status_of_Present}
use nest_microservices_tempo.Payment.{Gateway}
use nest_microservices_tempo.Payment.Stripe.{Ledger, IsStripe}
use nest_microservices_tempo.Payment.Settle.{Settled}
use nest_microservices_tempo.Workflow.Monad.{Activities}
use nest_microservices_tempo.Workflow.Retry.{
  RetryPolicy, Temporal, Lossless, short_policy, refund_policy,
}
use nest_microservices_tempo.Workflow.Rules.{Ensures, Ensures-imp}
use nest_microservices_tempo.Workflow.Laws.{Held, IsLawful, IsRecovering}
use nest_microservices_tempo.System.{
  Services, create_attempt, status_attempt, shipment_attempt, charge_attempt, refund_attempt,
  services,
}
use nest_microservices_tempo.System.Kept.{kept_money, kept, executed, executed_kept, orders_kept}
use nest_microservices_tempo.System.Fresh.{status_of, Fresh, IsOpen, system_view}
use nest_microservices_tempo.System.Money.{charge_attempt-IsOpen, refund_attempt-IsOpen}
use nest_microservices_tempo.System.Lawful.{
  Kept, MoneyKept, acts, AsBefore, created-IsNew, reserved, saved-Kept, status-Kept, status_is_set,
  create_attempt-Kept, stock_done, stocks_money,
}
use nest_microservices_tempo.Workflow.{place_steps, place_order_workflow, nothing_done}
use nest_microservices_tempo.Workflow.Undo.{IsSaga, place_order_workflow_lem}

module _ {St : Type 0} (g : Gateway St) (l : Ledger St) (stripe : IsStripe g l) (accepts : ℕ → Bool)
    (temporal : Temporal (Services St)) (lossless : Lossless temporal) (refunds : RetryPolicy) where
  open temporal use {execute}
  open lossless use {first_law, attempts_law}

  abbrev them : Activities (Services St)
  them = acts g l stripe accepts temporal lossless refunds

  reading-Kept :
      {A : Type 0} (r : Services St → Result A) (s : Services St)
      → Kept g l stripe accepts temporal lossless refunds s
          (execute short_policy (λ s'. (r s', s')) s).1
  reading-Kept r s =
      executed_kept g l stripe accepts temporal lossless refunds short_policy (λ s'. (r s', s'))
        (λ s'. kept g l stripe accepts temporal lossless refunds s') s

  charged_open :
      (o : ℕ) (total : ℤ) (s : Services St)
      → IsOpen l s o
      → IsOpen l (them.charge_payment o total s).1 o
  charged_open o total s =
      executed g l stripe accepts temporal lossless refunds short_policy
        (charge_attempt g accepts o total) (λ s'. IsOpen l s' o)
        (λ s' h. charge_attempt-IsOpen g l stripe accepts o total s' h) s

  charged_stocks :
      (o : ℕ) (total : ℤ) (s : Services St)
      → (them.charge_payment o total s).1.inventories ≡ s.inventories
  charged_stocks o total s =
      executed g l stripe accepts temporal lossless refunds short_policy
        (charge_attempt g accepts o total) (λ s'. s'.inventories ≡ s.inventories) (λ s' h. h) s refl

  shipped-Kept :
      (o : ℕ) (x : String) (s : Services St)
      → Kept g l stripe accepts temporal lossless refunds s (them.create_shipment o x s).1
  shipped-Kept o x s =
      executed_kept g l stripe accepts temporal lossless refunds short_policy (shipment_attempt o x)
        (λ s'. record {
          stocks = refl;
          money = record { sound = λ f. f; agree = λ o h. h; settled = λ o h. h };
        })
        s

  created-Kept :
      (d : CreateOrderDto) (p : Prices) (u : Option ℕ) (s : Services St)
      → Kept g l stripe accepts temporal lossless refunds s (them.create_order d p u s).1
  created-Kept d p u s =
      executed_kept g l stripe accepts temporal lossless refunds short_policy (create_attempt d p u)
        (λ s'. create_attempt-Kept g l stripe accepts temporal lossless refunds d p u s') s

  reserved_kept :
      {A : Type 0} (items : List OrderItem) (s : Services St) (x : Result A × Services St)
      → Ensures
          (AsBefore g l stripe accepts temporal lossless refunds s)
          (λ _ s'.
            MoneyKept g l stripe accepts temporal lossless refunds s s'
            × Held them (system_view l) items s.inventories s')
          x
      → MoneyKept g l stripe accepts temporal lossless refunds s x.1
        × Ensures
            (λ s'. s'.inventories ≡ s.inventories)
            (λ _. Held them (system_view l) items s.inventories)
            x
  reserved_kept items s (ok _, s') (k, h) = (k, h)
  reserved_kept items s (err _, s') (k, h) = (k, h)

  stocks_kept :
      (s : Services St) (t : Inventories)
      → MoneyKept g l stripe accepts temporal lossless refunds s (record s { inventories = t })
  stocks_kept s t =
      stocks_money g l stripe accepts temporal lossless refunds s s t
        (kept_money g l stripe accepts temporal lossless refunds s)

  pub lawful : IsLawful them (system_view l)
  lawful = record {
    validate_law = λ ids s. reading-Kept (λ s'. ok (validate_products ids s'.products)) s;
    prices_law = λ ids s. reading-Kept (λ s'. ok (get_product_prices ids s'.products)) s;
    total_law = λ o s. reading-Kept (λ s'. get_order_total_amount o s'.orders) s;
    save_law = λ o p s. saved-Kept g l stripe accepts temporal lossless refunds o p s;
    status_law = λ o st m s. status-Kept g l stripe accepts temporal lossless refunds o st m s;
    status_set = λ o st m s. status_is_set g l stripe accepts temporal lossless refunds o st m s;
    shipment_law = λ o x s. shipped-Kept o x s;
    create_law = λ d p u s. created-Kept d p u s;
    create_new = λ d p u s fresh.
        Ensures-imp _ _ _ _ (them.create_order d p u s) (λ _ h. h)
          (λ o s' (n, is, open_now, settled). (n, is, open_now, settled))
          (created-IsNew g l stripe accepts temporal lossless refunds d p u s fresh);
    reserve_law = λ o items s v p.
        reserved_kept items s _
          (reserved g l stripe accepts temporal lossless refunds o items s v p);
    confirm_law = λ o items t s v p (free, e).
        rw
          (stock_done g l stripe accepts temporal lossless refunds short_policy confirm_inventory o
            items s _ _ e (confirm_is o items t v p free))
          (stocks_kept s _, (free, refl));
    charge_law = λ o total s h. charged_open o total s h;
    charge_stocks = λ o total s. charged_stocks o total s;
  }

  refund_outcome :
      (o : ℕ) (s : Services St) (x : Result (Unit {0}) × Services St)
      → IsOpen l x.1 o
      → x.1.inventories ≡ s.inventories
      → Ensures (λ _. Unit {0}) (λ _ s'. Settled l s'.stripe o) x
      → Ensures
          (λ s'. IsOpen l s' o × (s'.inventories ≡ s.inventories))
          (λ _ s'. IsOpen l s' o × (s'.inventories ≡ s.inventories) × Settled l s'.stripe o)
          x
  refund_outcome o s (ok tt, s') h e settled = (h, e, settled)
  refund_outcome o s (err x, s') h e settled = (h, e)

  pub refunded :
      (o : ℕ) (total : Option ℤ) (s : Services St)
      → IsOpen l s o
      → Ensures
          (λ s'. IsOpen l s' o × (s'.inventories ≡ s.inventories))
          (λ _ s'. IsOpen l s' o × (s'.inventories ≡ s.inventories) × Settled l s'.stripe o)
          (them.refund_payment o total s)
  refunded o total s h =
      attempts_law refunds (refund_attempt g accepts o total)
        (λ s'. IsOpen l s' o × (s'.inventories ≡ s.inventories))
        (λ _ s'. IsOpen l s' o × (s'.inventories ≡ s.inventories) × Settled l s'.stripe o)
        (λ s' (h', e).
          let (open_now, settled) = refund_attempt-IsOpen g l stripe accepts o total s' h' in
          refund_outcome o s (refund_attempt g accepts o total s') open_now e settled)
        s (h, refl)

  failed :
      (o : ℕ) (m : Message) (s : Services St)
      → IsOpen l s o
      → Ensures
          (λ _. ⊥)
          (λ _ s'.
            (status_of (with_id o s'.orders) ≡ some place_failed)
            × Kept g l stripe accepts temporal lossless refunds s s')
          (them.update_order_status o place_failed (some m) s)
  failed o m s (_, there, _) =
      let (done, (q, now, is)) = status_of_Present o place_failed (some m) s.orders there in
      rw
        (first_law short_policy (status_attempt o place_failed (some m)) tt s
          (record s { orders = (update_order_status o place_failed (some m) s.orders).1 })
          (rw done refl))
        (
          rw now (ap some is),
          orders_kept g l stripe accepts temporal lossless refunds s _
              (update_order_status_ids o place_failed (some m) s.orders),
        )

  pub recovering : IsRecovering them (system_view l)
  recovering = record {
    refund_law = λ o total s h. refunded o (some total) s h;
    release_law = λ o items t s v p (free, e).
        rw
          (stock_done g l stripe accepts temporal lossless refunds short_policy release_inventory o
            items s _ _ e (release_is o items t v p free))
          (refl, stocks_kept s _);
    restore_law = λ o items t s v p (free, e).
        rw
          (stock_done g l stripe accepts temporal lossless refunds short_policy restore_inventory o
            items s _ _ e (restore_is o items t v p free))
          (refl, stocks_kept s _);
    failed_law = λ o m s h. failed o m s h;
  }

module _ {St : Type 0} (g : Gateway St) (l : Ledger St) (stripe : IsStripe g l) (accepts : ℕ → Bool)
    (temporal : Temporal (Services St)) (lossless : Lossless temporal) where
  -- For any Stripe that keeps its documented laws, any payment database that takes some writes and
  -- refuses others, in the runs of Temporal in which no answer of an attempt is lost and no other
  -- workflow runs (`Lossless`), for an order whose quantities are not negative, which the program
  -- does not enforce, from valid stocks and a state in which the orders' sequence is ahead of every
  -- table: placeOrderWorkflow over the services ends in one of three ways. Its `try` block returns:
  -- the items are sold and the order is SHIPPING. Its `try` block throws: the stocks are what they
  -- were, and an order that was created is PLACE_FAILED with no money of its customer held. Or a
  -- charge was attempted and its refund has failed: the refund's error is thrown, and the items are
  -- held, or sold, as they were.
  pub place-services :
      (dto : CreateOrderDto) (positive : IsPositive dto.items) (user : Option ℕ) (s : Services St)
      (valid : IsValid s.inventories)
      → Fresh l s
      → IsSaga
          (services g accepts temporal refund_policy)
          (system_view l)
          (lawful g l stripe accepts temporal lossless refund_policy)
          (recovering g l stripe accepts temporal lossless refund_policy)
          dto
          positive
          s.inventories
          valid
          (place_steps (services g accepts temporal refund_policy) dto user (nothing_done, s))
          (place_order_workflow (services g accepts temporal refund_policy) dto user s)
  place-services dto positive user s valid fresh =
      place_order_workflow_lem (services g accepts temporal refund_policy) (system_view l)
        (lawful g l stripe accepts temporal lossless refund_policy)
        (recovering g l stripe accepts temporal lossless refund_policy) dto positive s.inventories
        valid user s refl fresh
