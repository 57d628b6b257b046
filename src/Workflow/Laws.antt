-- ===== src/Workflow/Laws.antt =====
-- The interface of the sagas to the services: what each activity promises of the stocks, of the
-- money of an order and of its status, success or failure; and what a compensation leaves behind.
use nest_microservices_tempo.Prelude.{ℕ, suc, ℤ, String, Option, some, List, ◌≡◌}
use nest_microservices_tempo.Errors.{Message}
use nest_microservices_tempo.Inventory.{OrderItem, Inventories}
use nest_microservices_tempo.Inventory.Demand.{IsPositive}
use nest_microservices_tempo.Inventory.Saga.{IsValid, IsAvailable, hold, sell}
use nest_microservices_tempo.Order.{OrderStatus, place_failed, CreateOrderDto, Prices}
use nest_microservices_tempo.Workflow.Monad.{Activities}
use nest_microservices_tempo.Workflow.Rules.{Ensures}

-- What of the services' state the sagas are about. `Sound s`: the tables are well-formed. `Agree s o`:
-- they are, the order is there, and the payment service's records of it agree with Stripe.
-- `Settled s o`: no money of the order's customer is held.
pub record View (S : Type 0) : Type 1 where
  pub stocks : S → Inventories
  pub status : S → ℕ → Option OrderStatus
  pub Sound : S → Type 0
  pub Agree : S → ℕ → Type 0
  pub Settled : S → ℕ → Type 0

module _ {S : Type 0} (a : Activities S) (view : View S) where
  -- The money of no order has been touched.
  pub record KeepsMoney (s s' : S) : Type 0 where
    pub sound : view.Sound s → view.Sound s'
    pub agree : (o : ℕ) → view.Agree s o → view.Agree s' o
    pub settled : (o : ℕ) → view.Settled s o → view.Settled s' o

  pub record Keeps (s s' : S) : Type 0 where
    pub stocks : view.stocks s' ≡ view.stocks s
    pub money : KeepsMoney s s'

  -- A table of stocks in which the items of an order are held.
  abbrev pub Held : List OrderItem → Inventories → S → Type 0
  Held items t s = IsAvailable items t × (view.stocks s ≡ hold items t)

  abbrev pub Sold : List OrderItem → Inventories → S → Type 0
  Sold items t s = IsAvailable items t × (view.stocks s ≡ sell items t)

  -- What the activities promise, also where they fail.
  pub record IsLawful : Type 0 where
    pub validate_law : (l : List ℕ) (s : S) → Keeps s (a.validate_products l s).1
    pub prices_law : (l : List ℕ) (s : S) → Keeps s (a.get_product_prices l s).1
    pub total_law : (o : ℕ) (s : S) → Keeps s (a.get_order_total_amount o s).1
    pub save_law : (o p : ℕ) (s : S) → Keeps s (a.save_payment_id o p s).1
    pub status_law :
        (o : ℕ) (st : OrderStatus) (m : Option Message) (s : S)
        → Keeps s (a.update_order_status o st m s).1
    pub status_set :
        (o : ℕ) (st : OrderStatus) (m : Option Message) (s : S)
        → Ensures
            (λ _. Unit {0})
            (λ _ s'. view.status s' o ≡ some st)
            (a.update_order_status o st m s)
    pub shipment_law : (o : ℕ) (x : String) (s : S) → Keeps s (a.create_shipment o x s).1
    pub create_law :
        (d : CreateOrderDto) (p : Prices) (u : Option ℕ) (s : S)
        → Keeps s (a.create_order d p u s).1
    -- A new order has an id above 0, and no money has been taken for it.
    pub create_new :
        (d : CreateOrderDto) (p : Prices) (u : Option ℕ) (s : S)
        → view.Sound s
        → Ensures
            (λ _. Unit {0})
            (λ o s'. (n : ℕ) × (o ≡ suc n) × view.Agree s' o × view.Settled s' o)
            (a.create_order d p u s)
    pub reserve_law :
        (o : ℕ) (items : List OrderItem) (s : S)
        → IsValid (view.stocks s)
        → IsPositive items
        → KeepsMoney s (a.reserve_inventory o items s).1
          × Ensures
              (λ s'. view.stocks s' ≡ view.stocks s)
              (λ _. Held items (view.stocks s))
              (a.reserve_inventory o items s)
    pub confirm_law :
        (o : ℕ) (items : List OrderItem) (t : Inventories) (s : S)
        → IsValid t
        → IsPositive items
        → Held items t s
        → KeepsMoney s (a.confirm_inventory o items s).1
          × Ensures (Held items t) (λ _. Sold items t) (a.confirm_inventory o items s)
    -- A charge may have gone through where it reports a failure.
    pub charge_law :
        (o : ℕ) (total : ℤ) (s : S) → view.Agree s o → view.Agree (a.charge_payment o total s).1 o
    pub charge_stocks :
        (o : ℕ) (total : ℤ) (s : S) → view.stocks (a.charge_payment o total s).1 ≡ view.stocks s

  -- What the compensating activities promise. A refund may fail for good; the others undo what was done.
  pub record IsRecovering : Type 0 where
    pub refund_law :
        (o : ℕ) (total : ℤ) (s : S)
        → view.Agree s o
        → Ensures
            (λ s'. view.Agree s' o × (view.stocks s' ≡ view.stocks s))
            (λ _ s'. view.Agree s' o × (view.stocks s' ≡ view.stocks s) × view.Settled s' o)
            (a.refund_payment o (some total) s)
    pub release_law :
        (o : ℕ) (items : List OrderItem) (t : Inventories) (s : S)
        → IsValid t
        → IsPositive items
        → Held items t s
        → Ensures
            (λ _. ⊥)
            (λ _ s'. (view.stocks s' ≡ t) × KeepsMoney s s')
            (a.release_inventory o items s)
    pub restore_law :
        (o : ℕ) (items : List OrderItem) (t : Inventories) (s : S)
        → IsValid t
        → IsPositive items
        → Sold items t s
        → Ensures
            (λ _. ⊥)
            (λ _ s'. (view.stocks s' ≡ t) × KeepsMoney s s')
            (a.restore_inventory o items s)
    pub failed_law :
        (o : ℕ) (m : Message) (s : S)
        → view.Agree s o
        → Ensures
            (λ _. ⊥)
            (λ _ s'. (view.status s' o ≡ some place_failed) × Keeps s s')
            (a.update_order_status o place_failed (some m) s)
