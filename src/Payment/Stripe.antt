-- ===== src/Payment/Stripe.antt =====
-- What the payments rely on of Stripe: an idempotency key makes at most one charge, which a repeated
-- request returns; an answer `succeeded` means that the money has moved; an error or a timeout says
-- nothing of whether it has. The laws are of Stripe's documentation of idempotent requests.
use nest_microservices_tempo.Prelude.{
  ℕ, String, ◌≡◌, ◌≢◌, ◌⊎◌, Bool, true, false, Option, none, some,
}
use nest_microservices_tempo.Errors.{Result, ok, err}
use nest_microservices_tempo.Payment.{
  Gateway, PaymentIntent, Refund, IntentRequest, charge_order, refund_order, succeeded,
}

-- The charge that Stripe made for an order, if it made one, and whether a charge was refunded.
pub record Ledger (S : Type 0) : Type 0 where
  pub charged : S → ℕ → Option PaymentIntent
  pub was_refunded : S → String → Bool

module _ {S : Type 0} (g : Gateway S) (l : Ledger S) where
  -- What a request for a charge may have done to the charge of its order.
  abbrev pub Charged : ℕ → S → Result PaymentIntent × S → Type 0
  Charged o s (ok p, s') =
      ((succeeded p.status ≡ true)
        × (l.charged s' o ≡ some p)
        × ((l.charged s o ≡ none) ⊎ (l.charged s o ≡ some p)))
      ⊎ ((succeeded p.status ≡ false) × (l.charged s' o ≡ none) × (l.charged s o ≡ none))
  Charged o s (err e, s') =
      (l.charged s' o ≡ l.charged s o)
      ⊎ ((l.charged s o ≡ none) × ((p : PaymentIntent) × (l.charged s' o ≡ some p)))

  abbrev pub Refunded : String → S → Result Refund × S → Type 0
  Refunded c s (ok r, s') =
      ((succeeded r.status ≡ true) × (l.was_refunded s' c ≡ true))
      ⊎ ((succeeded r.status ≡ false) × (l.was_refunded s' c ≡ l.was_refunded s c))
  Refunded c s (err e, s') = (l.was_refunded s c ≡ true → l.was_refunded s' c ≡ true)

  pub record IsStripe : Type 0 where
    pub charge_law :
        (q : IntentRequest) (o : ℕ) (s : S) → Charged o s (g.create_intent q (charge_order o) s)
    -- A charge refunds nothing, and touches no other order.
    pub charge_refunds :
        (q : IntentRequest) (o : ℕ) (s : S) (c : String)
        → l.was_refunded (g.create_intent q (charge_order o) s).1 c ≡ l.was_refunded s c
    pub charge_others :
        (q : IntentRequest) (o p : ℕ) (s : S)
        → p ≢ o
        → l.charged (g.create_intent q (charge_order o) s).1 p ≡ l.charged s p
    pub refund_law :
        (c : String) (o : ℕ) (s : S) → Refunded c s (g.create_refund c (refund_order o) s)
    -- A refund makes no charge, and touches no other one.
    pub refund_charges :
        (c : String) (o p : ℕ) (s : S)
        → l.charged (g.create_refund c (refund_order o) s).1 p ≡ l.charged s p
    pub refund_others :
        (c d : String) (o : ℕ) (s : S)
        → d ≢ c
        → l.was_refunded (g.create_refund c (refund_order o) s).1 d ≡ l.was_refunded s d
