-- ===== src/System/Fresh.antt =====
-- What of the services' state the sagas are about, and its being well-formed: no order, no row of a
-- payment and no charge has an id that the orders' sequence has not given out.
use nest_microservices_tempo.Prelude.{
  ℕ, suc, ◌<◌, ◌≡◌, ◌≢◌, Option, none, some, find?, arith, ◌∙◌, sym,
}
use nest_microservices_tempo.Errors.{Result}
use nest_microservices_tempo.Order.{OrderStatus, Orders, OrderEntity}
use nest_microservices_tempo.Order.Laws.{with_id}
use nest_microservices_tempo.Order.Ids.{Present, SameIds, IsCreated}
use nest_microservices_tempo.Payment.{of_order}
use nest_microservices_tempo.Payment.Stripe.{Ledger}
use nest_microservices_tempo.Payment.Settle.{Agrees, Settled}
use nest_microservices_tempo.Workflow.Laws.{View}
use nest_microservices_tempo.System.{Services}

abbrev pub status_of : Option OrderEntity → Option OrderStatus
status_of none = none
status_of (some r) = some r.status

module _ {St : Type 0} (l : Ledger St) where
  abbrev pub Fresh : Services St → Type 0
  Fresh s =
      (o : ℕ)
      → s.order_seq < o
      → (with_id o s.orders ≡ none)
        × (find? (of_order o) s.payments ≡ none)
        × (l.charged s.stripe o ≡ none)

  -- The order is there, and its payments agree with Stripe.
  abbrev pub IsOpen : Services St → ℕ → Type 0
  IsOpen s o = Fresh s × Present o s.orders × Agrees l o s.stripe s.payments

  abbrev pub system_view : View (Services St)
  system_view = record {
    stocks = λ s. s.inventories;
    status = λ s o. status_of (with_id o s.orders);
    Sound = Fresh;
    Agree = IsOpen;
    Settled = λ s o. Settled l s.stripe o;
  }

  -- An order that is there is not one that is to come.
  pub Present-ne :
      (s : Services St) (o p : ℕ) → Fresh s → Present o s.orders → s.order_seq < p → p ≢ o
  Present-ne s o p fresh (r, h) later e = cc (sym (rw e at (fresh p later).0) ∙ h)

  pub same-Fresh :
      (s : Services St) (t : Orders)
      → SameIds s.orders t
      → Fresh s
      → Fresh (record s { orders = t })
  same-Fresh s t same fresh o later =
      let (absent, unpaid, uncharged) = fresh o later in (same.absent o absent, unpaid, uncharged)

  -- After a creation under the next id.
  pub created-Fresh :
      (s : Services St) (x : Result ℕ × Orders)
      → IsCreated (suc s.order_seq) s.orders x
      → Fresh s
      → Fresh (record s { order_seq = suc s.order_seq; orders = x.1 })
  created-Fresh s x made fresh o later =
      let (absent, unpaid, uncharged) = fresh o (omega arith) in
      (made.absent o (λ e. omega (arith, e)) absent, unpaid, uncharged)
