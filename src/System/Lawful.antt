-- ===== src/System/Lawful.antt =====
-- The activities of the services, with their retries, and the laws that the sagas rely on.
use nest_microservices_tempo.Prelude.{ℕ, ◌≡◌, refl, Bool, Option, some, List, ap, inl, inr}
use nest_microservices_tempo.Errors.{Message, Result, ok, err}
use nest_microservices_tempo.Inventory.{OrderItem, Inventories, reserve_inventory}
use nest_microservices_tempo.Inventory.Demand.{IsPositive}
use nest_microservices_tempo.Inventory.Saga.{IsValid, reserve_outcome}
use nest_microservices_tempo.Order.{
  OrderEntity, OrderStatus, CreateOrderDto, Prices, Orders, update_order_status,
}
use nest_microservices_tempo.Order.Laws.{with_id}
use nest_microservices_tempo.Order.Ids.{update_order_status_ids, save_payment_id_ids, status_done}
use nest_microservices_tempo.Payment.{Gateway}
use nest_microservices_tempo.Payment.Stripe.{Ledger, IsStripe}
use nest_microservices_tempo.Workflow.Monad.{Activities}
use nest_microservices_tempo.Workflow.Retry.{RetryPolicy, Temporal, Lossless, short_policy}
use nest_microservices_tempo.Workflow.Rules.{Ensures, Ensures-imp}
use nest_microservices_tempo.Workflow.Laws.{Held}
use nest_microservices_tempo.System.{
  Services, with_orders, create_attempt, status_attempt, save_attempt, stock_attempt,
}
use nest_microservices_tempo.System.Kept.{
  a, KeepsAll, KeepsMoneyOf, kept_money, executed_kept, orders_kept,
}
use nest_microservices_tempo.System.Created.{created, IsNew, create_attempt-IsNew}
use nest_microservices_tempo.System.Fresh.{created-Fresh, status_of, Fresh, system_view}

module _ {St : Type 0} (g : Gateway St) (l : Ledger St) (stripe : IsStripe g l) (accepts : ℕ → Bool)
    (temporal : Temporal (Services St)) (lossless : Lossless temporal) (refunds : RetryPolicy) where
  open temporal use {execute}
  open lossless use {first_law, attempts_law}

  abbrev pub Kept : Services St → Services St → Type 0
  Kept = KeepsAll g l stripe accepts temporal lossless refunds

  abbrev pub MoneyKept : Services St → Services St → Type 0
  MoneyKept = KeepsMoneyOf g l stripe accepts temporal lossless refunds

  pub create_attempt-Kept :
      (d : CreateOrderDto) (p : Prices) (u : Option ℕ) (s : Services St)
      → Kept s (create_attempt d p u s).1
  create_attempt-Kept d p u s = record {
    stocks = refl;
    money = record {
      sound = λ fresh. created-Fresh l s _ (created l d p u s fresh) fresh;
      agree = λ o (fresh, there, agrees). (
        created-Fresh l s _ (created l d p u s fresh) fresh,
        (created l d p u s fresh).present o there,
        agrees,
      );
      settled = λ o h. h;
    };
  }

  status_outcome :
      (o : ℕ) (st : OrderStatus) (s : Services St) (x : Result (Unit {0}) × Orders)
      → (x.0 ≡ ok tt → (q : OrderEntity) × (with_id o x.1 ≡ some q) × (q.status ≡ st))
      → Ensures
          (λ _. Unit {0})
          (λ _ s'. status_of (with_id o s'.orders) ≡ some st)
          (with_orders s x)
  status_outcome o st s (err e, t) f = tt
  status_outcome o st s (ok _, t) f = let (q, there, is) = f refl in rw there (ap some is)

  -- A reservation, with the money left alone.
  abbrev pub AsBefore : Services St → Services St → Type 0
  AsBefore s s' = MoneyKept s s' × (s'.inventories ≡ s.inventories)

  pub stocks_money :
      (s s' : Services St) (t : Inventories)
      → MoneyKept s s'
      → MoneyKept s (record s' { inventories = t })
  stocks_money s s' t k = record {
    sound = λ f. k.sound f;
    agree = λ o h. k.agree o h;
    settled = λ o h. k.settled o h;
  }

  reserve_attempt_outcome :
      (o : ℕ) (items : List OrderItem) (s s' : Services St)
      → IsValid s.inventories
      → IsPositive items
      → AsBefore s s'
      → Ensures
          (AsBefore s)
          (λ _ s''.
            MoneyKept s s''
            × Held
                (a g l stripe accepts temporal lossless refunds)
                (system_view l)
                items
                s.inventories
                s'')
          (stock_attempt reserve_inventory o items s')
  reserve_attempt_outcome o items s s' v p (k, e) =
      elim (reserve_outcome o items s.inventories v p) [
        | inl (free, done) ↦ rw (e, done) (stocks_money s s' _ k, (free, refl))
        | inr (_, (x, refused)) ↦ rw (e, refused) (stocks_money s s' _ k, refl)
      ]

  -- An operation on the stocks whose first attempt succeeds.
  pub stock_done :
      (p : RetryPolicy) (f : ℕ → List OrderItem → Inventories → Result (Unit {0}) × Inventories)
      (o : ℕ) (items : List OrderItem) (s : Services St) (t t' : Inventories)
      → s.inventories ≡ t
      → f o items t ≡ (ok tt, t')
      → execute p (stock_attempt f o items) s ≡ (ok tt, record s { inventories = t' })
  stock_done p f o items s t t' e h =
      first_law p (stock_attempt f o items) tt s (record s { inventories = t' }) (rw (e, h) refl)

  abbrev pub acts : Activities (Services St)
  acts = a g l stripe accepts temporal lossless refunds

  pub status-Kept :
      (o : ℕ) (st : OrderStatus) (m : Option Message) (s : Services St)
      → Kept s (acts.update_order_status o st m s).1
  status-Kept o st m s =
      executed_kept g l stripe accepts temporal lossless refunds short_policy
        (status_attempt o st m)
        (λ s'.
          orders_kept g l stripe accepts temporal lossless refunds s' _
            (update_order_status_ids o st m s'.orders))
        s

  pub status_is_set :
      (o : ℕ) (st : OrderStatus) (m : Option Message) (s : Services St)
      → Ensures
          (λ _. Unit {0})
          (λ _ s'. status_of (with_id o s'.orders) ≡ some st)
          (acts.update_order_status o st m s)
  status_is_set o st m s =
      attempts_law short_policy (status_attempt o st m) (λ _. Unit {0})
        (λ _ s'. status_of (with_id o s'.orders) ≡ some st)
        (λ s' _.
          status_outcome o st s' (update_order_status o st m s'.orders)
            (status_done o st m s'.orders))
        s tt

  pub saved-Kept : (o p : ℕ) (s : Services St) → Kept s (acts.save_payment_id o p s).1
  saved-Kept o p s =
      executed_kept g l stripe accepts temporal lossless refunds short_policy (save_attempt o p)
        (λ s'.
          orders_kept g l stripe accepts temporal lossless refunds s' _
            (save_payment_id_ids o p s'.orders))
        s

  pub created-IsNew :
      (d : CreateOrderDto) (p : Prices) (u : Option ℕ) (s : Services St)
      → Fresh l s
      → Ensures (λ _. Unit {0}) (IsNew l) (acts.create_order d p u s)
  created-IsNew d p u s fresh =
      Ensures-imp _ _ _ _ (acts.create_order d p u s) (λ _ _. tt) (λ _ _ h. h)
        (attempts_law short_policy (create_attempt d p u) (Fresh l) (IsNew l)
          (λ s' h. create_attempt-IsNew l d p u s' h) s fresh)

  pub reserved :
      (o : ℕ) (items : List OrderItem) (s : Services St)
      → IsValid s.inventories
      → IsPositive items
      → Ensures
          (AsBefore s)
          (λ _ s'. MoneyKept s s' × Held acts (system_view l) items s.inventories s')
          (acts.reserve_inventory o items s)
  reserved o items s v p =
      attempts_law short_policy (stock_attempt reserve_inventory o items) (AsBefore s) _
        (λ s' h. reserve_attempt_outcome o items s s' v p h) s
        (kept_money g l stripe accepts temporal lossless refunds s, refl)
