-- ===== src/Payment/Charge.antt =====
-- The charge: what it leaves for a refund, that it is made once, and which failures are retried.
use nest_microservices_tempo.Prelude.{
  ◌⊎◌, ℕ, ℤ, ◌≤◌, ◌<◌, ◌≡◌, ◌≢◌, inl, inr, refl, sym, ap, ◌∙◌, Bool, true, false, not, ◌&&◌, Option,
  none, some, [], ◌∷◌, ◌++◌, find?, Bool-cases, Option-cases, arith, ==-self,
}
use nest_microservices_tempo.Errors.{
  Message, stripe_error, circuit_open, application_failure, non_retryable, Result, ok, err,
  Exception, http,
}
use nest_microservices_tempo.Payment.{
  PaymentTransactionEntity, Payments, success, PaymentIntent, Gateway, IntentRequest, charge_order,
  succeeded, intent_request, of_order, is_success, taken, transaction_of, record_charge,
  charge_payment, refund_payment,
}
use nest_microservices_tempo.Payment.Stripe.{Ledger, Charged, IsStripe}
use nest_microservices_tempo.Payment.Settle.{
  Agrees, Settled, found_RowOk, absent_Agrees, Agrees-append, Agrees-later, charge_stays,
  refund_Settles,
}

module _ {S : Type 0} (g : Gateway S) (l : Ledger S) (stripe : IsStripe g l) (o : ℕ) where
  -- Once there is a charge, a further request changes nothing of it.
  charged_same :
      (s : S) (p : PaymentIntent) (res : Result PaymentIntent × S)
      → l.charged s o ≡ some p
      → Charged g l o s res
      → l.charged res.1 o ≡ l.charged s o
  charged_same s p (ok q, s') e (inl (_, c, inl n)) = cc
  charged_same s p (ok q, s') e (inl (_, c, inr n)) = c ∙ sym n
  charged_same s p (ok q, s') e (inr (_, c, n)) = cc
  charged_same s p (err x, s') e (inl same) = same
  charged_same s p (err x, s') e (inr (n, _)) = cc

  Agrees-charged :
      (q : IntentRequest) (s : S) (t : Payments)
      → Agrees l o s t
      → Agrees l o (g.create_intent q (charge_order o) s).1 t
  Agrees-charged q s t a = elim (Option-cases (find? (of_order o) t)) [
    | inl e ↦ absent_Agrees l o _ t e
    | inr (r, e) ↦
        let (p, c, _, _) = found_RowOk l o s t r a e in
        Agrees-later l o s _ t
          (charged_same s p (g.create_intent q (charge_order o) s) c (stripe.charge_law q o s))
          (charge_stays g l stripe q o s) a
  ]

  record_charge-Agrees :
      (accepts : Bool) (id : ℕ) (s : S) (t : Payments) (res : Result PaymentIntent × S)
      → Charged g l o s res
      → Agrees l o res.1 t
      → let (_, s', t') = record_charge g accepts id o res t in Agrees l o s' t'
  record_charge-Agrees accepts id s t (err e, s') c a = a
  record_charge-Agrees accepts id s t (ok p, s') (inr (e, _, _)) a = rw e a
  record_charge-Agrees accepts id s t (ok p, s') (inl (e, c, _)) a =
      elim (Bool-cases (accepts && not (taken (transaction_of id o p success) t))) [
        | inl y ↦
            rw (e, y)
              (Agrees-append l o s' t (transaction_of id o p success) a (p, c, refl, (λ h. cc)))
        | inr n ↦ rw (e, n) a
      ]

  -- A charge leaves the rows of its order in agreement with Stripe, however it ends.
  pub charge_Agrees :
      (accepts : Bool) (id : ℕ) (total : ℤ) (s : S) (t : Payments)
      → Agrees l o s t
      → let (_, s', t') = charge_payment g accepts id o total s t in Agrees l o s' t'
  unfolding charge_payment
  charge_Agrees accepts id total s t a =
      elim (Option-cases (find? (λ r. of_order o r && is_success r) t)) [
        | inl e ↦
            rw (e, charge_payment)
              (record_charge-Agrees accepts id s t
                (g.create_intent (intent_request o total) (charge_order o) s)
                (stripe.charge_law (intent_request o total) o s)
                (Agrees-charged (intent_request o total) s t a))
        | inr (r, e) ↦ rw (e, charge_payment) a
      ]

  -- A refund after an attempted charge, with the same total.
  abbrev pub refund_charged :
      (accepts accepts' : Bool) (id id' : ℕ) → ℤ → S → Payments → Result (Unit {0}) × S × Payments
  refund_charged accepts accepts' id id' total s t =
      let (_, s₁, t₁) = charge_payment g accepts id o total s t in
      refund_payment g accepts' id' o (some total) s₁ t₁

  -- A refund after an attempted charge, with the same total: if it succeeds the money of the order is
  -- settled, whether the charge had succeeded, had failed, or had gone through and been reported as
  -- failed.
  pub refund-charge :
      (accepts accepts' : Bool) (id id' : ℕ) (total : ℤ) (s : S) (t : Payments)
      → Agrees l o s t
      → (refund_charged accepts accepts' id id' total s t).0 ≡ ok tt
      → Settled l (refund_charged accepts accepts' id id' total s t).1 o
  refund-charge accepts accepts' id id' total s t a =
      (refund_Settles g l stripe accepts' id' o total _ _ (charge_Agrees accepts id total s t a)).0

find?-append :
    (f : PaymentTransactionEntity → Bool) (t : Payments) (r : PaymentTransactionEntity)
    → find? f t ≡ none
    → f r ≡ true
    → find? f (t ++ r ∷ []) ≡ some r
find?-append f [] r h e = rw e
find?-append f (q ∷ t) r h e = ground (arith, find?-append f t r)

abbrev success_of : ℕ → Payments → Option PaymentTransactionEntity
success_of o t = find? (λ r. of_order o r && is_success r) t

charge_again :
    {S : Type 0} (g : Gateway S) (accepts : Bool) (id o : ℕ) (total : ℤ) (s : S) (t : Payments)
    (r : PaymentTransactionEntity)
    → success_of o t ≡ some r
    → charge_payment g accepts id o total s t ≡ (ok r.id, s, t)
unfolding charge_payment
charge_again g accepts id o total s t r e = rw (e, charge_payment)

ok_injective : {A : Type 0} {a b : A} → ◌≡◌ {A = Result A} (ok a) (ok b) → a ≡ b
ok_injective h = cc

module _ {S : Type 0} (g : Gateway S) (accepts : Bool) (id o : ℕ) (total : ℤ) (s : S)
    (t : Payments) where
  record_charge_found :
      (n : ℕ) (res : Result PaymentIntent × S)
      → success_of o t ≡ none
      → (record_charge g accepts id o res t).0 ≡ ok n
      → (r : PaymentTransactionEntity) × (success_of o (record_charge g accepts id o res t).2
          ≡ some r)
        × (r.id ≡ n)
  record_charge_found n (err x, s') h e = cc
  record_charge_found n (ok p, s') h e = elim (Bool-cases (succeeded p.status)) [
    | inr z ↦ cc (rw z at e)
    | inl z ↦ elim (Bool-cases (accepts && not (taken (transaction_of id o p success) t))) [
      | inr y ↦ cc (rw (z, y) at e)
      | inl y ↦ (
        transaction_of id o p success,
        rw (z, y) (find?-append _ t (transaction_of id o p success) h (rw (==-self o))),
        ok_injective (rw (z, y) at e),
      )
    ]
  ]

  charge_found :
      (n : ℕ)
      → (charge_payment g accepts id o total s t).0 ≡ ok n
      → (r : PaymentTransactionEntity) × (success_of o (charge_payment g accepts id o total s t).2
          ≡ some r)
        × (r.id ≡ n)
  unfolding charge_payment
  charge_found n e = elim (Option-cases (success_of o t)) [
    | inl f ↦
        rw (f, charge_payment)
          (record_charge_found n (g.create_intent (intent_request o total) (charge_order o) s) f
            (rw (f, charge_payment) at e))
    | inr (r, f) ↦ (r, rw (f, charge_payment) f, ok_injective (rw (f, charge_payment) at e))
  ]

  -- A charge that has succeeded is not made again: a retry, with any total and any answer of Stripe
  -- and of the database, gives the same id, does not call Stripe and leaves the table alone.
  pub charge_once :
      (n : ℕ) (accepts' : Bool) (id' : ℕ) (total' : ℤ)
      → (charge_payment g accepts id o total s t).0 ≡ ok n
      → let (_, s', t') = charge_payment g accepts id o total s t in
        charge_payment g accepts' id' o total' s' t' ≡ (ok n, s', t')
  charge_once n accepts' id' total' e =
      let (r, found, same) = charge_found n e in
      let (_, s', t') = charge_payment g accepts id o total s t in
      charge_again g accepts' id' o total' s' t' r found
      ∙ ap {B = Result ℕ × S × Payments} (λ z. (ok z, s', t')) same

-- A status from 400 to 499 that is neither 408 nor 429. An error without a status, such as a failure
-- of the network, has none.
abbrev pub IsRefusal : Option ℕ → Type 0
IsRefusal none = ⊥
IsRefusal (some code) = (400 ≤ code) × (code < 500) × (code ≢ 408) × (code ≢ 429)

-- What a charge throws where Stripe's client, or the policy around it, throws `e`.
abbrev pub Answers : Exception → Exception → Type 0
Answers (stripe_error status m type) x =
    (IsRefusal status × (x ≡ non_retryable m (some type)))
    ⊎ ((¬ (IsRefusal status)) × (x ≡ stripe_error status m type))
Answers (http status m c) x =
    ((status ≡ 400) × (x ≡ non_retryable m (some "BadRequestException")))
    ⊎ ((status ≢ 400) × (x ≡ http status m c))
Answers (circuit_open ms) x =
    (m : Message) × (x ≡ application_failure m (some "CircuitOpenError") false (some ms))
Answers e x = x ≡ e
