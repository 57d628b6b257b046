-- ===== src/Payment/Others.antt =====
-- A charge and a refund of one order, as they look from another.
use nest_microservices_tempo.Prelude.{
  ℕ, ℤ, ◌≡◌, ◌≢◌, refl, sym, ◌∙◌, Bool, false, Option, none, [], ◌∷◌, ◌++◌, ◌==◌, find?, arith,
  ==-ne,
}
use nest_microservices_tempo.Store.{update_rows}
use nest_microservices_tempo.Payment.{
  PaymentTransactionEntity, Payments, refunded, Gateway, of_order, charge_payment, refund_payment,
}
use nest_microservices_tempo.Payment.Stripe.{Ledger, IsStripe}
use nest_microservices_tempo.Payment.Touches.{
  TableStep, same, adds, marks, Touches, charge-Touches, refund-Touches,
}

none-append :
    (p : ℕ) (t : Payments) (r : PaymentTransactionEntity)
    → find? (of_order p) t ≡ none
    → of_order p r ≡ false
    → find? (of_order p) (t ++ r ∷ []) ≡ none
none-append p [] r h e = rw e refl
none-append p (q ∷ t) r h e = ground (arith, none-append p t r)

none-update_rows :
    (p id : ℕ) (t : Payments)
    → find? (of_order p) t ≡ none
    → find? (of_order p) (update_rows (λ q. q.id == id) (λ q. record q { status = refunded }) t)
      ≡ none
none-update_rows p id [] h = refl
none-update_rows p id (q ∷ t) h = ground (arith, none-update_rows p id t)

pub none-TableStep :
    (id o p : ℕ) (t t' : Payments)
    → p ≢ o
    → find? (of_order p) t ≡ none
    → TableStep id o t t'
    → find? (of_order p) t' ≡ none
none-TableStep id o p t t' other h (same e) = rw e h
none-TableStep id o p t t' other h (adds r e at_o e') =
    rw e' (none-append p t r h (rw at_o (==-ne o p λ f. other (sym f))))
none-TableStep id o p t t' other h (marks r found e) = rw e (none-update_rows p r.id t h)

module _ {S : Type 0} (g : Gateway S) (l : Ledger S) (stripe : IsStripe g l) (accepts : Bool)
    (id o p : ℕ) (other : p ≢ o) where
  -- No money was ever asked for the order.
  abbrev Untouched : S → Payments → Type 0
  Untouched s t = (find? (of_order p) t ≡ none) × (l.charged s p ≡ none)

  abbrev Leaves {ℓ} : {A : Type ℓ} → A × S × Payments → Type 0
  Leaves (_, s, t) = Untouched s t

  Leaves-of_Touches {ℓ} :
      {A : Type ℓ} (s : S) (t : Payments) (x : A × S × Payments)
      → Untouched s t
      → Touches g l stripe accepts id o s t x
      → Leaves x
  Leaves-of_Touches s t (a, s', t') (f, c) (k, rows) =
      (none-TableStep id o p t t' other f rows, k.charges p other ∙ c)

  pub charge-Leaves :
      (total : ℤ) (s : S) (t : Payments)
      → Untouched s t
      → Leaves (charge_payment g accepts id o total s t)
  charge-Leaves total s t u =
      Leaves-of_Touches s t (charge_payment g accepts id o total s t) u
        (charge-Touches g l stripe accepts id o s t total)

  pub refund-Leaves :
      (total : Option ℤ) (s : S) (t : Payments)
      → Untouched s t
      → Leaves (refund_payment g accepts id o total s t)
  refund-Leaves total s t u =
      Leaves-of_Touches s t (refund_payment g accepts id o total s t) u
        (refund-Touches g l stripe accepts id o s t total)
