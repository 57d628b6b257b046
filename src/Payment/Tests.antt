-- ===== src/Payment/Tests.antt =====
-- A small Stripe that keeps its laws, a run of the payments, and the theorems at it.
use nest_microservices_tempo.Prelude.{
  ℕ, pos, String, ◌≡◌, ◌≢◌, inl, inr, refl, Bool, true, false, none, some, [], ◌==◌, ==-self, ==-ne,
  if◌then◌else◌, Bool-cases,
}
use text.Mathlib.Text.{◌==◌ as str_eq}
use text.Mathlib.TextEquality.{eq_iff}
use nest_microservices_tempo.Errors.{Message, Exception, ok, err, error, stripe_error}
use nest_microservices_tempo.Payment.{
  Gateway, PaymentIntent, charge_order, refund_order, charge_payment, refund_payment,
}
use nest_microservices_tempo.Payment.Stripe.{Ledger, IsStripe}
use nest_microservices_tempo.Payment.Settle.{Settled, Settles, refund_Settles}
use nest_microservices_tempo.Payment.Charge.{refund_charged, refund-charge}

pub record Account : Type 0 where
  is_charged : ℕ → Bool
  is_refunded : String → Bool

abbrev pub intent : PaymentIntent
intent = record { id = "pi"; amount = pos 500; currency = "usd"; status = "succeeded" }

abbrev pub charge_it : ℕ → Account → Account
charge_it o s = record s { is_charged = λ p. if p == o then true else s.is_charged p }

abbrev refund_it : String → Account → Account
refund_it c s = record s { is_refunded = λ d. if str_eq d c then true else s.is_refunded d }

abbrev pub gateway : Gateway Account
gateway = record {
  create_intent = λ q k s. elim k [
    | charge_order o ↦ (ok intent, charge_it o s)
    | refund_order o ↦ (err (error (Message.text "wrong key")), s)
  ];
  create_refund = λ c k s. (ok (record { id = "re"; status = "succeeded" }), refund_it c s);
}

abbrev pub ledger : Ledger Account
ledger = record {
  charged = λ s o. if s.is_charged o then some intent else none;
  was_refunded = λ s c. s.is_refunded c;
}

other_string : (d c : String) → d ≢ c → str_eq d c ≡ false
other_string d c n = elim (Bool-cases (str_eq d c)) [
  | inl h ↦ absurd (n ((eq_iff d c).0 h))
  | inr h ↦ h
]

pub stripe : IsStripe gateway ledger
stripe = record {
  charge_law = λ q o s. elim (Bool-cases (s.is_charged o)) [
    | inl h ↦ inl (refl, rw (==-self o) refl, inr (rw h refl))
    | inr h ↦ inl (refl, rw (==-self o) refl, inl (rw h refl))
  ];
  charge_refunds = λ q o s c. refl;
  charge_others = λ q o p s n. rw (==-ne p o n) refl;
  refund_law = λ c o s. inl (refl, rw ((eq_iff c c).1 refl) refl);
  refund_charges = λ c o p s. refl;
  refund_others = λ c d o s n. rw (other_string d c n) refl;
}

abbrev pub new_account : Account
new_account = record { is_charged = λ _. false; is_refunded = λ _. false }

refund_Settles_example :
    Settles ledger 7 (refund_payment gateway true 1 7 (some (pos 5)) (charge_it 7 new_account) [])
refund_Settles_example =
    refund_Settles gateway ledger stripe true 1 7 (pos 5) (charge_it 7 new_account) [] tt

settled_again :
    (refund_charged gateway ledger stripe 7 false true 1 2 (pos 5) new_account []).0 ≡ ok tt
unfolding charge_payment refund_payment
settled_again = refl

-- The charge goes through and its row is lost; the refund finds it all the same.
refund-charge_example :
    Settled ledger
      (refund_charged gateway ledger stripe 7 false true 1 2 (pos 5) new_account []).1
      7
refund-charge_example =
    refund-charge gateway ledger stripe 7 false true 1 2 (pos 5) new_account [] tt settled_again

charged_once : (charge_payment gateway true 1 7 (pos 5) new_account []).0 ≡ ok 1
unfolding charge_payment
charged_once = refl

-- A failure of the network.
abbrev lost : Exception
lost = stripe_error none (Message.text "lost") "StripeConnectionError"

abbrev offline : Gateway Account
offline = record gateway { create_intent = λ q k s. (err lost, s) }
