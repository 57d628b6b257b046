-- ===== src/System/Created.antt =====
-- A new order: no money has been taken for it.
use nest_microservices_tempo.Prelude.{ℕ, suc, ◌≡◌, refl, Option, arith, inl}
use nest_microservices_tempo.Errors.{Result, ok, err}
use nest_microservices_tempo.Order.{CreateOrderDto, Prices, Orders, create_order}
use nest_microservices_tempo.Order.Ids.{IsCreated, create_order-IsCreated}
use nest_microservices_tempo.Payment.Stripe.{Ledger}
use nest_microservices_tempo.Payment.Settle.{absent_Agrees, Settled}
use nest_microservices_tempo.Workflow.Rules.{Ensures}
use nest_microservices_tempo.System.{Services, with_orders, create_attempt}
use nest_microservices_tempo.System.Fresh.{created-Fresh, Fresh, IsOpen}

module _ {St : Type 0} (l : Ledger St) where
  abbrev after_create : Services St → Result ℕ × Orders → Result ℕ × Services St
  after_create s x = with_orders (record s { order_seq = suc s.order_seq }) x

  pub created :
      (d : CreateOrderDto) (p : Prices) (u : Option ℕ) (s : Services St)
      → Fresh l s
      → IsCreated (suc s.order_seq) s.orders (create_order (suc s.order_seq) d p u s.orders)
  created d p u s fresh =
      create_order-IsCreated (suc s.order_seq) d p u s.orders
        (fresh (suc s.order_seq) (omega arith)).0

  abbrev pub IsNew : ℕ → Services St → Type 0
  IsNew o s = (n : ℕ) × (o ≡ suc n) × IsOpen l s o × Settled l s.stripe o

  created_outcome :
      (s : Services St) (x : Result ℕ × Orders)
      → Fresh l s
      → IsCreated (suc s.order_seq) s.orders x
      → Ensures (Fresh l) IsNew (after_create s x)
  created_outcome s (err e, t) fresh made = created-Fresh l s (err e, t) made fresh
  created_outcome s (ok o, t) fresh made =
      let (same, there) = made.result o refl in
      let (_, unpaid, uncharged) = fresh (suc s.order_seq) (omega arith) in
      let now = created-Fresh l s (ok o, t) made fresh in
      (
        s.order_seq,
        same,
        rw same (now, there, absent_Agrees l (suc s.order_seq) s.stripe s.payments unpaid),
        rw same (inl uncharged),
      )

  pub create_attempt-IsNew :
      (d : CreateOrderDto) (p : Prices) (u : Option ℕ) (s : Services St)
      → Fresh l s
      → Ensures (Fresh l) IsNew (create_attempt d p u s)
  create_attempt-IsNew d p u s fresh =
      created_outcome s (create_order (suc s.order_seq) d p u s.orders) fresh
        (created d p u s fresh)
