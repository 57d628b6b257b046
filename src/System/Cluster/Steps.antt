-- ===== src/System/Cluster/Steps.antt =====
-- The steps that fall between two attempts, and the attempts themselves: what they keep of the records
-- of an order.
use nest_microservices_tempo.Prelude.{ℕ, suc, ◌≢◌, ◌∙◌, inl, inr, Bool, Option, none, some, arith}
use nest_microservices_tempo.Errors.{Result}
use nest_microservices_tempo.Order.{CreateOrderDto, Prices, Orders, create_order}
use nest_microservices_tempo.Order.Ids.{
  Present, SameIds, IsCreated, create_order-IsCreated, update_order_status_ids, save_payment_id_ids,
}
use nest_microservices_tempo.Payment.{Gateway, Payments, charge_payment, refund_payment}
use nest_microservices_tempo.Payment.Stripe.{Ledger, IsStripe}
use nest_microservices_tempo.Payment.Settle.{Settled}
use nest_microservices_tempo.Payment.Touches.{Touches, charge-Touches, refund-Touches}
use nest_microservices_tempo.Payment.Others.{none-TableStep}
use nest_microservices_tempo.Payment.Numbered.{TableStep-IsNumbered, Agrees-Touches}
use nest_microservices_tempo.System.{Services, with_payments, create_attempt}
use nest_microservices_tempo.System.Fresh.{Fresh, Present-ne, same-Fresh, created-Fresh}
use nest_microservices_tempo.System.Cluster.{
  Others, lists, stocks, creates, updates, saves, ships, charges, refunds, IsSound, IsAgreed,
}

module _ {St : Type 0} (g : Gateway St) (l : Ledger St) (stripe : IsStripe g l)
    (accepts : ℕ → Bool) where
  -- The order's records still agree with Stripe, and no money of it is lost.
  abbrev pub Leaves : ℕ → Services St → Services St → Type 0
  Leaves o s s' = IsAgreed l s o → IsAgreed l s' o × (Settled l s.stripe o → Settled l s'.stripe o)

  -- A charge or a refund of the order `q`.
  module _ (acc : Bool) (q : ℕ) (s : Services St) where
    abbrev IsPayment {ℓ} : {A : Type ℓ} → Result A × St × Payments → Type 0
    IsPayment x = Touches g l stripe acc (suc s.payment_seq) q s.stripe s.payments x

    pub payment-IsSound :
        {A : Type 0} (x : Result A × St × Payments)
        → Present q s.orders
        → IsPayment x
        → IsSound l s
        → IsSound l (with_payments s x).1
    payment-IsSound (_, st, t) there (ledger, rows) (fresh, numbered) = (
      λ p later.
          let (absent, unpaid, uncharged) = fresh p later in
          let other = Present-ne l s q p fresh there later in
          (
            absent,
            none-TableStep (suc s.payment_seq) q p s.payments t other unpaid rows,
            ledger.charges p other ∙ uncharged,
          ),
      TableStep-IsNumbered s.payment_seq (suc s.payment_seq) q s.payments t (omega arith) numbered
          rows,
    )

    payment-Leaves :
        {A : Type 0} (o : ℕ) (x : Result A × St × Payments)
        → o ≢ q
        → Present q s.orders
        → IsPayment x
        → Leaves o s (with_payments s x).1
    payment-Leaves o (r, st, t) other there touched ((fresh, here, agrees), numbered) =
        let (fresh', numbered') = payment-IsSound (r, st, t) there touched (fresh, numbered) in
        let (ledger, rows) = touched in
        (
          (
            (
              fresh',
              here,
              Agrees-Touches l (suc s.payment_seq) s.payment_seq q o s.stripe st s.payments t other
                  numbered ledger rows agrees,
            ),
            numbered',
          ),
          λ settled. elim settled [
            | inl c ↦ inl (ledger.charges o other ∙ c)
            | inr (p, c, w) ↦ inr (p, ledger.charges o other ∙ c, ledger.refunds p.id w)
          ],
        )

  orders-IsSound :
      (s : Services St) (t : Orders)
      → SameIds s.orders t
      → IsSound l s
      → IsSound l (record s { orders = t })
  orders-IsSound s t same (fresh, numbered) = (same-Fresh l s t same fresh, numbered)

  pub orders-Leaves :
      (o : ℕ) (s : Services St) (t : Orders)
      → SameIds s.orders t
      → Leaves o s (record s { orders = t })
  orders-Leaves o s t same ((fresh, here, agrees), numbered) =
      (((same-Fresh l s t same fresh, same.present o here, agrees), numbered), λ f. f)

  create :
      (dto : CreateOrderDto) (p : Prices) (u : Option ℕ) (s : Services St)
      → Fresh l s
      → IsCreated (suc s.order_seq) s.orders (create_order (suc s.order_seq) dto p u s.orders)
  create dto p u s fresh =
      create_order-IsCreated (suc s.order_seq) dto p u s.orders
        (fresh (suc s.order_seq) (omega arith)).0

  create-Leaves :
      (dto : CreateOrderDto) (p : Prices) (u : Option ℕ) (o : ℕ) (s : Services St)
      → Leaves o s (create_attempt dto p u s).1
  create-Leaves dto p u o s ((fresh, here, agrees), numbered) =
      let made = create dto p u s fresh in
      (((created-Fresh l s _ made fresh, made.present o here, agrees), numbered), λ f. f)

  pub Others-IsSound :
      {s s' : Services St} → Others g accepts none s s' → IsSound l s → IsSound l s'
  Others-IsSound {s} (lists t) h = h
  Others-IsSound {s} (stocks t) h = h
  Others-IsSound {s} (creates dto p u) h = (created-Fresh l s _ (create dto p u s h.0) h.0, h.1)
  Others-IsSound {s} (updates q st m) h =
      orders-IsSound s _ (update_order_status_ids q st m s.orders) h
  Others-IsSound {s} (saves q p) h = orders-IsSound s _ (save_payment_id_ids q p s.orders) h
  Others-IsSound {s} (ships q x) h = h
  Others-IsSound {s} (charges q total _ there) h =
      payment-IsSound (accepts s.clock) q s
        (charge_payment g (accepts s.clock) (suc s.payment_seq) q total s.stripe s.payments) there
        (charge-Touches g l stripe (accepts s.clock) (suc s.payment_seq) q s.stripe s.payments
          total)
        h
  Others-IsSound {s} (refunds q total _ there) h =
      payment-IsSound (accepts s.clock) q s
        (refund_payment g (accepts s.clock) (suc s.payment_seq) q total s.stripe s.payments) there
        (refund-Touches g l stripe (accepts s.clock) (suc s.payment_seq) q s.stripe s.payments
          total)
        h

  pub Others-Leaves : {s s' : Services St} (o : ℕ) → Others g accepts (some o) s s' → Leaves o s s'
  Others-Leaves {s} o (lists t) h = (h, λ f. f)
  Others-Leaves {s} o (stocks t) h = (h, λ f. f)
  Others-Leaves {s} o (creates dto p u) h = create-Leaves dto p u o s h
  Others-Leaves {s} o (updates q st m) h =
      orders-Leaves o s _ (update_order_status_ids q st m s.orders) h
  Others-Leaves {s} o (saves q p) h = orders-Leaves o s _ (save_payment_id_ids q p s.orders) h
  Others-Leaves {s} o (ships q x) h = (h, λ f. f)
  Others-Leaves {s} o (charges q total other there) h =
      payment-Leaves (accepts s.clock) q s o
        (charge_payment g (accepts s.clock) (suc s.payment_seq) q total s.stripe s.payments) other
        there
        (charge-Touches g l stripe (accepts s.clock) (suc s.payment_seq) q s.stripe s.payments
          total)
        h
  Others-Leaves {s} o (refunds q total other there) h =
      payment-Leaves (accepts s.clock) q s o
        (refund_payment g (accepts s.clock) (suc s.payment_seq) q total s.stripe s.payments) other
        there
        (refund-Touches g l stripe (accepts s.clock) (suc s.payment_seq) q s.stripe s.payments
          total)
        h
