-- ===== src/Payment/Settle.antt =====
-- That a refund leaves the customer's money settled, whatever became of the charge before it.
use nest_microservices_tempo.Prelude.{
  Option, ℕ, ℤ, String, ◌≡◌, ◌⊎◌, inl, inr, refl, sym, ◌∙◌, Bool, true, not, ◌&&◌, none, some, [],
  ◌∷◌, ◌++◌, ◌==◌, find?, All, All-imp, Bool-cases, Option-cases, subst, some-injective,
}
use mathlib.Core.Bool.{false≢true}
use text.Mathlib.Text.{◌==◌ as str_eq}
use text.Mathlib.TextEquality.{eq_iff}
use nest_microservices_tempo.Errors.{Result, ok, err}
use nest_microservices_tempo.Store.{update_rows}
use nest_microservices_tempo.Payment.{
  PaymentTransactionEntity, Payments, refunded, PaymentIntent, Refund, IntentRequest, Gateway,
  charge_order, refund_order, succeeded, intent_request, of_order, is_refunded, taken,
  transaction_of, record_refund, refund_known, record_dangling, refund_dangling, refund_payment,
}
use nest_microservices_tempo.Payment.Stripe.{Ledger, Charged, Refunded, IsStripe}

module _ {S : Type 0} (l : Ledger S) where
  -- The row's charge is the one that Stripe made for the order; if it is marked refunded, it is.
  abbrev pub RowOk : S → ℕ → PaymentTransactionEntity → Type 0
  RowOk s o r =
      (p : PaymentIntent) × (l.charged s o ≡ some p)
      × (r.stripe_payment_id ≡ p.id)
      × (is_refunded r ≡ true → l.was_refunded s p.id ≡ true)

  -- The rows of the order agree with Stripe.
  abbrev pub Agrees : ℕ → S → Payments → Type 0
  Agrees o s t = All (λ r. of_order o r ≡ true → RowOk s o r) t

  -- The customer is not out of money for the order.
  abbrev pub Settled : S → ℕ → Type 0
  Settled s o =
      (l.charged s o ≡ none)
      ⊎ ((p : PaymentIntent) × (l.charged s o ≡ some p) × (l.was_refunded s p.id ≡ true))

  -- After a refund that succeeds the money is settled, and in any case the rows agree with Stripe.
  abbrev pub Settles : ℕ → Result (Unit {0}) × S × Payments → Type 0
  Settles o (r, s, t) = (r ≡ ok tt → Settled s o) × Agrees o s t

  pub found_RowOk :
      (o : ℕ) (s : S) (t : Payments) (r : PaymentTransactionEntity)
      → Agrees o s t
      → find? (of_order o) t ≡ some r
      → RowOk s o r
  found_RowOk o s [] r a e = cc
  found_RowOk o s (q ∷ t) r a e = elim (Bool-cases (of_order o q)) [
    | inl h ↦
        let same : some q ≡ some r = rw h at e in
        subst (λ x. RowOk s o x) (some-injective q r same) (a.0 h)
    | inr h ↦ found_RowOk o s t r a.1 (rw h at e)
  ]

  pub absent_Agrees : (o : ℕ) (s : S) (t : Payments) → find? (of_order o) t ≡ none → Agrees o s t
  absent_Agrees o s [] e = tt
  absent_Agrees o s (q ∷ t) e = elim (Bool-cases (of_order o q)) [
    | inl h ↦ cc (rw h at e)
    | inr h ↦ ((λ k. cc), absent_Agrees o s t (rw h at e))
  ]

  pub Agrees-append :
      (o : ℕ) (s : S) (t : Payments) (r : PaymentTransactionEntity)
      → Agrees o s t
      → RowOk s o r
      → Agrees o s (t ++ r ∷ [])
  Agrees-append o s [] r a h = ((λ _. h), tt)
  Agrees-append o s (q ∷ t) r a h = (a.0, Agrees-append o s t r a.1 h)

  -- Nothing that Stripe does to other charges disturbs the rows.
  RowOk-later :
      (o : ℕ) (s s' : S) (r : PaymentTransactionEntity)
      → l.charged s' o ≡ l.charged s o
      → ((c : String) → l.was_refunded s c ≡ true → l.was_refunded s' c ≡ true)
      → RowOk s o r
      → RowOk s' o r
  RowOk-later o s s' r e k (p, c, i, f) = (p, e ∙ c, i, (λ h. k p.id (f h)))

  pub Agrees-later :
      (o : ℕ) (s s' : S) (t : Payments)
      → l.charged s' o ≡ l.charged s o
      → ((c : String) → l.was_refunded s c ≡ true → l.was_refunded s' c ≡ true)
      → Agrees o s t
      → Agrees o s' t
  Agrees-later o s s' t e k a =
      All-imp (λ r. of_order o r ≡ true → RowOk s o r) _ (λ r f h. RowOk-later o s s' r e k (f h)) t
        a

  Agrees-update_rows :
      (o id : ℕ) (s : S) (t : Payments) (p : PaymentIntent)
      → l.charged s o ≡ some p
      → l.was_refunded s p.id ≡ true
      → Agrees o s t
      → Agrees o s (update_rows (λ q. q.id == id) (λ q. record q { status = refunded }) t)
  Agrees-update_rows o id s [] p c f a = tt
  Agrees-update_rows o id s (q ∷ t) p c f a = elim (Bool-cases (q.id == id)) [
    | inl e ↦ rw e (
      (λ h.
          let (p', c', i', f') = a.0 h in
          (
            p',
            c',
            i',
            (λ _. subst (λ x. l.was_refunded s x.id ≡ true) (some-injective p p' (sym c ∙ c')) f),
          )),
      Agrees-update_rows o id s t p c f a.1,
    )
    | inr e ↦ rw e (a.0, Agrees-update_rows o id s t p c f a.1)
  ]

module _ {S : Type 0} (g : Gateway S) (l : Ledger S) (stripe : IsStripe g l) where
  pub refunds_stay :
      (c : String) (o : ℕ) (s : S) (d : String)
      → l.was_refunded s d ≡ true
      → l.was_refunded (g.create_refund c (refund_order o) s).1 d ≡ true
  refunds_stay c o s d h = elim (Bool-cases (str_eq d c)) [
    | inl e ↦
        let same : d ≡ c = (eq_iff d c).0 e in
        subst (λ x. l.was_refunded (g.create_refund c (refund_order o) s).1 x ≡ true) (sym same)
          (kept (g.create_refund c (refund_order o) s) (stripe.refund_law c o s)
            (subst (λ x. l.was_refunded s x ≡ true) same h))
    | inr e ↦ stripe.refund_others c d o s (λ same. false≢true (sym e ∙ (eq_iff d c).1 same)) ∙ h
  ]
    where
      kept :
          (res : Result Refund × S)
          → Refunded g l c s res
          → l.was_refunded s c ≡ true
          → l.was_refunded res.1 c ≡ true
      kept (err e, s') f k = f k
      kept (ok r, s') (inl f) k = f.1
      kept (ok r, s') (inr f) k = f.1 ∙ k

  pub charge_stays :
      (q : IntentRequest) (o : ℕ) (s : S) (d : String)
      → l.was_refunded s d ≡ true
      → l.was_refunded (g.create_intent q (charge_order o) s).1 d ≡ true
  charge_stays q o s d h = stripe.charge_refunds q o s d ∙ h

  -- An answer `succeeded` means that the money has moved.
  moved_money :
      (p : PaymentIntent) (s s' : S) (refund : Refund)
      → Refunded g l p.id s (ok refund, s')
      → succeeded refund.status ≡ true
      → l.was_refunded s' p.id ≡ true
  moved_money p s s' refund (inl f) e = f.1
  moved_money p s s' refund (inr f) e = cc

  module _ (accepts : Bool) (id o : ℕ) where
    record_refund-Settles :
        (r : PaymentTransactionEntity) (s : S) (t : Payments) (p : PaymentIntent)
        (res : Result Refund × S)
        → l.charged res.1 o ≡ some p
        → Refunded g l p.id s res
        → Agrees l o res.1 t
        → Settles l o (record_refund g accepts id o r res t)
    record_refund-Settles r s t p (err e, s') c f a = ((λ h. cc), a)
    record_refund-Settles r s t p (ok refund, s') c f a =
        elim (Bool-cases (succeeded refund.status)) [
          | inl e ↦
              let w = moved_money p s s' refund f e in
              elim (Bool-cases accepts) [
                | inl y ↦ rw (e, y) ((λ _. inr (p, c, w)), Agrees-update_rows l o r.id s' t p c w a)
                | inr n ↦ rw (e, n) ((λ h. cc), a)
              ]
          | inr e ↦ rw e ((λ h. cc), a)
        ]

    record_dangling-Settles :
        (p : PaymentIntent) (s : S) (t : Payments) (res : Result Refund × S)
        → l.charged res.1 o ≡ some p
        → Refunded g l p.id s res
        → Agrees l o res.1 t
        → Settles l o (record_dangling g accepts id o p res t)
    record_dangling-Settles p s t (err e, s') c f a = ((λ h. cc), a)
    record_dangling-Settles p s t (ok refund, s') c f a =
        elim (Bool-cases (succeeded refund.status)) [
          | inl e ↦
              let w = moved_money p s s' refund f e in
              elim (Bool-cases (accepts && not (taken (transaction_of id o p refunded) t))) [
                | inl y ↦
                    rw (e, y)
                      (
                        (λ _. inr (p, c, w)),
                        Agrees-append l o s' t (transaction_of id o p refunded) a
                            (p, c, refl, (λ _. w)),
                      )
                | inr n ↦ rw (e, n) ((λ h. cc), a)
              ]
          | inr e ↦ rw e ((λ h. cc), a)
        ]

    refund_known-Settles :
        (r : PaymentTransactionEntity) (s : S) (t : Payments)
        → find? (of_order o) t ≡ some r
        → Agrees l o s t
        → Settles l o (refund_known g accepts id o r s t)
    refund_known-Settles r s t e a =
        let (p, c, i, f) = found_RowOk l o s t r a e in
        elim (Bool-cases (is_refunded r)) [
          | inl h ↦ rw h ((λ _. inr (p, c, f h)), a)
          | inr h ↦ rw h (
              record_refund-Settles r s t p (g.create_refund r.stripe_payment_id (refund_order o) s)
                (stripe.refund_charges r.stripe_payment_id o o s ∙ c)
                (subst
                  (λ x. Refunded g l x s (g.create_refund r.stripe_payment_id (refund_order o) s)) i
                  (stripe.refund_law r.stripe_payment_id o s))
                (Agrees-later l o s _ t (stripe.refund_charges r.stripe_payment_id o o s)
                  (refunds_stay r.stripe_payment_id o s) a))
        ]

    refund_dangling-Settles :
        (s : S) (t : Payments) (res : Result PaymentIntent × S)
        → find? (of_order o) t ≡ none
        → Charged g l o s res
        → Settles l o (refund_dangling g accepts id o res t)
    refund_dangling-Settles s t (err e, s') h c = ((λ k. cc), absent_Agrees l o s' t h)
    refund_dangling-Settles s t (ok p, s') h (inl (e, c, b)) = rw e (
        record_dangling-Settles p s' t (g.create_refund p.id (refund_order o) s')
          (stripe.refund_charges p.id o o s' ∙ c) (stripe.refund_law p.id o s')
          (absent_Agrees l o _ t h))
    refund_dangling-Settles s t (ok p, s') h (inr (e, c, b)) =
        rw e ((λ _. inl c), absent_Agrees l o s' t h)

-- Where the rows of an order agree with Stripe, a refund that is given the total leaves the money of
-- the order settled if it succeeds: Stripe has made no charge for the order, or has refunded it. So
-- it does also where the charge went through and no row was saved. Whether or not it succeeds, the
-- rows agree with Stripe after it.
pub refund_Settles :
    {S : Type 0} (g : Gateway S) (l : Ledger S)
    → IsStripe g l
    → (accepts : Bool) (id o : ℕ) (total : ℤ) (s : S) (t : Payments) → Agrees l o s t
    → Settles l o (refund_payment g accepts id o (some total) s t)
unfolding refund_payment
refund_Settles g l stripe accepts id o total s t a = elim (Option-cases (find? (of_order o) t)) [
  | inl e ↦
      rw (e, refund_payment)
        (refund_dangling-Settles g l stripe accepts id o s t
          (g.create_intent (intent_request o total) (charge_order o) s) e
          (stripe.charge_law (intent_request o total) o s))
  | inr (r, e) ↦ rw (e, refund_payment) (refund_known-Settles g l stripe accepts id o r s t e a)
]

-- A refund without a total finds a charge by its row alone.
refund_none-Settles :
    {S : Type 0} (g : Gateway S) (l : Ledger S)
    → IsStripe g l
    → (accepts : Bool) (id o : ℕ) (s : S) (t : Payments) → Agrees l o s t
    → Settles l o (refund_payment g accepts id o none s t)
unfolding refund_payment
refund_none-Settles g l stripe accepts id o s t a = elim (Option-cases (find? (of_order o) t)) [
  | inl e ↦ rw (e, refund_payment) ((λ h. cc), a)
  | inr (r, e) ↦ rw (e, refund_payment) (refund_known-Settles g l stripe accepts id o r s t e a)
]

pub refund_any-Settles :
    {S : Type 0} (g : Gateway S) (l : Ledger S)
    → IsStripe g l
    → (accepts : Bool) (id o : ℕ) (total : Option ℤ) (s : S) (t : Payments) → Agrees l o s t
    → Settles l o (refund_payment g accepts id o total s t)
refund_any-Settles g l stripe accepts id o none s t a =
    refund_none-Settles g l stripe accepts id o s t a
refund_any-Settles g l stripe accepts id o (some total) s t a =
    refund_Settles g l stripe accepts id o total s t a
