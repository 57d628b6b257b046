-- ===== src/System/Money.antt =====
-- The charge and the refund of an order that is there, over the state of all the services.
use nest_microservices_tempo.Prelude.{ℕ, suc, ℤ, refl, Bool, Option}
use nest_microservices_tempo.Errors.{Result, ok, err}
use nest_microservices_tempo.Payment.{Payments, Gateway, refund_payment}
use nest_microservices_tempo.Payment.Stripe.{Ledger, IsStripe}
use nest_microservices_tempo.Payment.Settle.{Settled, Settles, refund_any-Settles}
use nest_microservices_tempo.Payment.Charge.{charge_Agrees}
use nest_microservices_tempo.Payment.Others.{charge-Leaves, refund-Leaves}
use nest_microservices_tempo.Workflow.Rules.{Ensures}
use nest_microservices_tempo.System.{Services, with_payments, charge_attempt, refund_attempt}
use nest_microservices_tempo.System.Fresh.{Fresh, IsOpen, Present-ne}

module _ {St : Type 0} (g : Gateway St) (l : Ledger St) (stripe : IsStripe g l) (accepts : ℕ → Bool)
    (o : ℕ) where
  pub charge_attempt-IsOpen :
      (total : ℤ) (s : Services St)
      → IsOpen l s o
      → IsOpen l (charge_attempt g accepts o total s).1 o
  charge_attempt-IsOpen total s (fresh, there, agrees) = (
    λ p later.
        let (absent, unpaid, uncharged) = fresh p later in
        let (unpaid', uncharged') =
          charge-Leaves g l stripe (accepts s.clock) (suc s.payment_seq) o p
            (Present-ne l s o p fresh there later) total s.stripe s.payments (unpaid, uncharged) in
        (absent, unpaid', uncharged'),
    there,
    charge_Agrees g l stripe o (accepts s.clock) (suc s.payment_seq) total s.stripe s.payments
        agrees,
  )

  refund_attempt-Fresh :
      (total : Option ℤ) (s : Services St)
      → IsOpen l s o
      → Fresh l (refund_attempt g accepts o total s).1
  refund_attempt-Fresh total s (fresh, there, agrees) p later =
      let (absent, unpaid, uncharged) = fresh p later in
      let (unpaid', uncharged') =
        refund-Leaves g l stripe (accepts s.clock) (suc s.payment_seq) o p
          (Present-ne l s o p fresh there later) total s.stripe s.payments (unpaid, uncharged) in
      (absent, unpaid', uncharged')

  settled_outcome :
      (s : Services St) (x : Result (Unit {0}) × St × Payments)
      → Settles l o x
      → Ensures (λ _. Unit {0}) (λ _ s'. Settled l s'.stripe o) (with_payments s x)
  settled_outcome s (ok tt, st, t) (settled, _) = settled refl
  settled_outcome s (err e, st, t) h = tt

  pub refund_attempt-IsOpen :
      (total : Option ℤ) (s : Services St)
      → IsOpen l s o
      → IsOpen l (refund_attempt g accepts o total s).1 o
        × Ensures
            (λ _. Unit {0})
            (λ _ s'. Settled l s'.stripe o)
            (refund_attempt g accepts o total s)
  refund_attempt-IsOpen total s (fresh, there, agrees) =
      let settles =
        refund_any-Settles g l stripe (accepts s.clock) (suc s.payment_seq) o total s.stripe
          s.payments agrees in
      (
        (refund_attempt-Fresh total s (fresh, there, agrees), there, settles.1),
        settled_outcome s
            (refund_payment g (accepts s.clock) (suc s.payment_seq) o total s.stripe s.payments)
            settles,
      )
