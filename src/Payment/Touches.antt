-- ===== src/Payment/Touches.antt =====
-- What a charge or a refund of one order may do to the table of payments and to Stripe's ledger, as
-- seen from the rest of both.
use nest_microservices_tempo.Prelude.{
  ℕ, ℤ, String, ◌≡◌, ◌≢◌, refl, ◌∙◌, Bool, true, not, ◌&&◌, Option, none, some, [], ◌∷◌, ◌++◌, ◌==◌,
  find?, inl, inr, Bool-cases, Option-cases,
}
use nest_microservices_tempo.Errors.{Result, ok, err}
use nest_microservices_tempo.Store.{update_rows}
use nest_microservices_tempo.Payment.{
  PaymentTransactionEntity, Payments, success, refunded, PaymentIntent, Refund, IntentRequest,
  Gateway, charge_order, refund_order, succeeded, intent_request, of_order, is_success, is_refunded,
  taken, transaction_of, record_charge, charge_payment, record_refund, refund_known,
  record_dangling, refund_dangling, refund_unknown, refund_payment,
}
use nest_microservices_tempo.Payment.Stripe.{Ledger, IsStripe}
use nest_microservices_tempo.Payment.Settle.{refunds_stay, charge_stays}

-- A row of the order is added under the given id, or the rows with the id of the order's row are
-- marked.
pub data TableStep (id o : ℕ) (t t' : Payments) : Type 0 where
  same : t' ≡ t → TableStep id o t t'
  adds :
      (r : PaymentTransactionEntity)
      → r.id ≡ id
      → r.order_id ≡ o
      → t' ≡ t ++ r ∷ []
      → TableStep id o t t'
  marks :
      (r : PaymentTransactionEntity)
      → find? (of_order o) t ≡ some r
      → t' ≡ update_rows (λ q. q.id == r.id) (λ q. record q { status = refunded }) t
      → TableStep id o t t'

-- The charges of other orders are as they were, and what was refunded stays so.
pub record LedgerStep {S : Type 0} (l : Ledger S) (o : ℕ) (s s' : S) : Type 0 where
  pub charges : (p : ℕ) → p ≢ o → l.charged s' p ≡ l.charged s p
  pub refunds : (c : String) → l.was_refunded s c ≡ true → l.was_refunded s' c ≡ true

module _ {S : Type 0} (g : Gateway S) (l : Ledger S) (stripe : IsStripe g l) (accepts : Bool)
    (id o : ℕ) (s : S) (t : Payments) where
  abbrev pub Touches {ℓ} : {A : Type ℓ} → A × S × Payments → Type 0
  Touches (_, s', t') = LedgerStep l o s s' × TableStep id o t t'

  nothing : LedgerStep l o s s
  nothing = record { charges = λ p n. refl; refunds = λ c h. h }

  charging :
      (q : IntentRequest) (s' : S)
      → LedgerStep l o s s'
      → LedgerStep l o s (g.create_intent q (charge_order o) s').1
  charging q s' k = record {
    charges = λ p n. stripe.charge_others q o p s' n ∙ k.charges p n;
    refunds = λ c h. charge_stays g l stripe q o s' c (k.refunds c h);
  }

  refunding :
      (c : String) (s' : S)
      → LedgerStep l o s s'
      → LedgerStep l o s (g.create_refund c (refund_order o) s').1
  refunding c s' k = record {
    charges = λ p n. stripe.refund_charges c o p s' ∙ k.charges p n;
    refunds = λ d h. refunds_stay g l stripe c o s' d (k.refunds d h);
  }

  record_charge-Touches :
      (x : Result PaymentIntent × S)
      → LedgerStep l o s x.1
      → Touches (record_charge g accepts id o x t)
  record_charge-Touches (err e, s') k = (k, same refl)
  record_charge-Touches (ok i, s') k = elim (Bool-cases (succeeded i.status)) [
    | inr n ↦ rw n (k, same refl)
    | inl y ↦ elim (Bool-cases (accepts && not (taken (transaction_of id o i success) t))) [
      | inr n ↦ rw (y, n) (k, same refl)
      | inl m ↦ rw (y, m) (k, adds (transaction_of id o i success) refl refl refl)
    ]
  ]

  pub charge-Touches : (total : ℤ) → Touches (charge_payment g accepts id o total s t)
  unfolding charge_payment
  charge-Touches total = elim (Option-cases (find? (λ r. of_order o r && is_success r) t)) [
    | inl e ↦
        rw (e, charge_payment)
          (record_charge-Touches (g.create_intent (intent_request o total) (charge_order o) s)
            (charging (intent_request o total) s nothing))
    | inr (r, e) ↦ rw (e, charge_payment) (nothing, same refl)
  ]

  record_refund-Touches :
      (r : PaymentTransactionEntity) (x : Result Refund × S)
      → find? (of_order o) t ≡ some r
      → LedgerStep l o s x.1
      → Touches (record_refund g accepts id o r x t)
  record_refund-Touches r (err e, s') found k = (k, same refl)
  record_refund-Touches r (ok i, s') found k = elim (Bool-cases (succeeded i.status)) [
    | inr n ↦ rw n (k, same refl)
    | inl y ↦ elim (Bool-cases accepts) [
      | inr n ↦ rw (y, n) (k, same refl)
      | inl m ↦ rw (y, m) (k, marks r found refl)
    ]
  ]

  refund_known-Touches :
      (r : PaymentTransactionEntity)
      → find? (of_order o) t ≡ some r
      → Touches (refund_known g accepts id o r s t)
  refund_known-Touches r found = elim (Bool-cases (is_refunded r)) [
    | inl y ↦ rw y (nothing, same refl)
    | inr n ↦ rw n (
        record_refund-Touches r (g.create_refund r.stripe_payment_id (refund_order o) s) found
          (refunding r.stripe_payment_id s nothing))
  ]

  record_dangling-Touches :
      (i : PaymentIntent) (x : Result Refund × S)
      → LedgerStep l o s x.1
      → Touches (record_dangling g accepts id o i x t)
  record_dangling-Touches i (err e, s') k = (k, same refl)
  record_dangling-Touches i (ok r, s') k = elim (Bool-cases (succeeded r.status)) [
    | inr n ↦ rw n (k, same refl)
    | inl y ↦ elim (Bool-cases (accepts && not (taken (transaction_of id o i refunded) t))) [
      | inr n ↦ rw (y, n) (k, same refl)
      | inl m ↦ rw (y, m) (k, adds (transaction_of id o i refunded) refl refl refl)
    ]
  ]

  refund_dangling-Touches :
      (x : Result PaymentIntent × S)
      → LedgerStep l o s x.1
      → Touches (refund_dangling g accepts id o x t)
  refund_dangling-Touches (err e, s') k = (k, same refl)
  refund_dangling-Touches (ok i, s') k = elim (Bool-cases (succeeded i.status)) [
    | inr n ↦ rw n (k, same refl)
    | inl y ↦
        rw y (
          record_dangling-Touches i (g.create_refund i.id (refund_order o) s')
            (refunding i.id s' k))
  ]

  refund_unknown-Touches : (total : Option ℤ) → Touches (refund_unknown g accepts id o total s t)
  refund_unknown-Touches none = (nothing, same refl)
  refund_unknown-Touches (some total) =
      refund_dangling-Touches (g.create_intent (intent_request o total) (charge_order o) s)
        (charging (intent_request o total) s nothing)

  pub refund-Touches : (total : Option ℤ) → Touches (refund_payment g accepts id o total s t)
  unfolding refund_payment
  refund-Touches total = elim (Option-cases (find? (of_order o) t)) [
    | inl e ↦ rw (e, refund_payment) (refund_unknown-Touches total)
    | inr (r, e) ↦ rw (e, refund_payment) (refund_known-Touches r e)
  ]
