-- ===== src/Payment/Numbered.antt =====
-- The ids of the rows of payments, which come from a sequence, and what they are good for: a refund
-- marks no row of another order.
use nest_microservices_tempo.Prelude.{
  ℕ, ◌≤◌, ◌<◌, ◌≡◌, ◌≢◌, sym, true, false, some, [], ◌∷◌, ◌++◌, ◌==◌, find?, All, All-imp, arith,
  inl, inr, Bool-cases, subst, some-injective, found_All,
}
use nest_microservices_tempo.Store.{update_rows}
use nest_microservices_tempo.Payment.{PaymentTransactionEntity, Payments, refunded, of_order}
use nest_microservices_tempo.Payment.Stripe.{Ledger}
use nest_microservices_tempo.Payment.Settle.{Agrees, Agrees-later}
use nest_microservices_tempo.Payment.Touches.{TableStep, same, adds, marks, LedgerStep}

abbrev IsDistinct : Payments → Type 0
IsDistinct [] = Unit
IsDistinct (r ∷ t) = All (λ q. q.id ≢ r.id) t × IsDistinct t

-- No two rows have one id, and none has an id that the sequence has not given out.
abbrev pub IsNumbered : ℕ → Payments → Type 0
IsNumbered n t = All (λ r. r.id ≤ n) t × IsDistinct t

ne-append :
    (k : ℕ) (t : Payments) (r : PaymentTransactionEntity)
    → All (λ q. q.id ≢ k) t
    → r.id ≢ k
    → All (λ q. q.id ≢ k) (t ++ r ∷ [])
ne-append k [] r h n = (n, tt)
ne-append k (q ∷ t) r h n = (h.0, ne-append k t r h.1 n)

IsNumbered-append :
    (n : ℕ) (t : Payments) (r : PaymentTransactionEntity)
    → n < r.id
    → IsNumbered n t
    → IsNumbered r.id (t ++ r ∷ [])
IsNumbered-append n [] r lt h = ((omega arith, tt), (tt, tt))
IsNumbered-append n (q ∷ t) r lt ((le, most), (apart, rest)) =
    let (most', rest') = IsNumbered-append n t r lt (most, rest) in
    ((omega (arith, le, lt), most'), (ne-append q.id t r apart (omega (arith, le, lt)), rest'))

ne-update_rows :
    (k id : ℕ) (t : Payments)
    → All (λ q. q.id ≢ k) t
    → All (λ q. q.id ≢ k) (update_rows (λ q. q.id == id) (λ q. record q { status = refunded }) t)
ne-update_rows k id [] h = tt
ne-update_rows k id (q ∷ t) h = elim (Bool-cases (q.id == id)) [
  | inl e ↦ rw e (h.0, ne-update_rows k id t h.1)
  | inr e ↦ rw e (h.0, ne-update_rows k id t h.1)
]

IsNumbered-update_rows :
    (n m id : ℕ) (t : Payments)
    → n ≤ m
    → IsNumbered n t
    → IsNumbered m (update_rows (λ q. q.id == id) (λ q. record q { status = refunded }) t)
IsNumbered-update_rows n m id [] le h = (tt, tt)
IsNumbered-update_rows n m id (q ∷ t) le ((here, most), (apart, rest)) =
    let (most', rest') = IsNumbered-update_rows n m id t le (most, rest) in
    elim (Bool-cases (q.id == id)) [
      | inl e ↦ rw e ((omega (arith, here, le), most'), (ne-update_rows q.id id t apart, rest'))
      | inr e ↦ rw e ((omega (arith, here, le), most'), (ne-update_rows q.id id t apart, rest'))
    ]

pub TableStep-IsNumbered :
    (n id o : ℕ) (t t' : Payments)
    → n < id
    → IsNumbered n t
    → TableStep id o t t'
    → IsNumbered id t'
TableStep-IsNumbered n id o t t' lt h (same e) =
    rw e (All-imp (λ r. r.id ≤ n) (λ r. r.id ≤ id) (λ r le. omega (arith, le, lt)) t h.0, h.1)
TableStep-IsNumbered n id o t t' lt h (adds r at_id _ e) =
    rw e (subst (λ k. IsNumbered k (t ++ r ∷ [])) at_id (IsNumbered-append n t r (rw at_id lt) h))
TableStep-IsNumbered n id o t t' lt h (marks r _ e) =
    rw e (IsNumbered-update_rows n id r.id t (omega (arith, lt)) h)

-- The row that is found for an order is the only one with its id.
only_row :
    (o : ℕ) (t : Payments) (r : PaymentTransactionEntity)
    → IsDistinct t
    → find? (of_order o) t ≡ some r
    → All (λ q. (q.id == r.id) ≡ true → of_order o q ≡ true) t
only_row o [] r d e = tt
only_row o (q ∷ t) r (apart, rest) e = elim (Bool-cases (of_order o q)) [
  | inl y ↦
      let first : some q ≡ some r = rw y at e in
      let is : q ≡ r = some-injective q r first in
      (
        λ _. y,
        All-imp (λ x. x.id ≢ q.id) _
            (λ x n h. absurd (n (subst (λ z. x.id ≡ z.id) (sym is) (ground arith)))) t apart,
      )
  | inr n ↦
      let found : find? (of_order o) t ≡ some r = rw n at e in
      let other : r.id ≢ q.id = found_All (λ x. x.id ≢ q.id) (of_order o) r t apart found in
      (λ h. absurd (other (ground arith)), only_row o t r rest found)
]

module _ {S : Type 0} (l : Ledger S) (p : ℕ) (s : S) where
  Agrees-append_other :
      (t : Payments) (r : PaymentTransactionEntity)
      → of_order p r ≡ false
      → Agrees l p s t
      → Agrees l p s (t ++ r ∷ [])
  Agrees-append_other [] r e a = (λ h. cc, tt)
  Agrees-append_other (q ∷ t) r e a = (a.0, Agrees-append_other t r e a.1)

  Agrees-mark_other :
      (o id : ℕ) (t : Payments)
      → p ≢ o
      → All (λ q. (q.id == id) ≡ true → of_order o q ≡ true) t
      → Agrees l p s t
      → Agrees l p s (update_rows (λ q. q.id == id) (λ q. record q { status = refunded }) t)
  Agrees-mark_other o id [] n h a = tt
  Agrees-mark_other o id (q ∷ t) n h a = elim (Bool-cases (q.id == id)) [
    | inl e ↦ rw e (
      (λ of_p. let of_o = h.0 e in absurd (n (ground arith))),
      Agrees-mark_other o id t n h.1 a.1,
    )
    | inr e ↦ rw e (a.0, Agrees-mark_other o id t n h.1 a.1)
  ]

-- What is done to the payment of one order leaves the rows of another in agreement with Stripe.
pub Agrees-Touches :
    {S : Type 0} (l : Ledger S) (id n o p : ℕ) (s s' : S) (t t' : Payments)
    → p ≢ o
    → IsNumbered n t
    → LedgerStep l o s s'
    → TableStep id o t t'
    → Agrees l p s t
    → Agrees l p s' t'
Agrees-Touches l id n o p s s' t t' other h k rows a = go rows
  where
    later : Agrees l p s' t
    later = Agrees-later l p s s' t (k.charges p other) k.refunds a

    go : TableStep id o t t' → Agrees l p s' t'
    go (same e) = rw e later
    go (adds r _ at_o e) = rw e (Agrees-append_other l p s' t r (ground arith) later)
    go (marks r found e) =
        rw e (Agrees-mark_other l p s' o r.id t other (only_row o t r h.1 found) later)
