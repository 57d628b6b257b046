-- ===== src/Store/Rows.antt =====
-- A loop of keyed updates, read row by row.
use nest_microservices_tempo.Prelude.{
  ℕ, ◌≡◌, refl, ◌≢◌, Bool, true, ◌&&◌, List, [], ◌∷◌, map, arith, ◌==◌, if◌then◌else◌, All, any,
  all,
}
use nest_microservices_tempo.Errors.{ok}
use nest_microservices_tempo.Store.{RowUpdate, update_rows, affected, execute}

module _ {X Row : Type 0} (u : RowUpdate X Row) where
  -- What an item does to one row, and whether its condition lets it.
  abbrev pub step : X → Row → Row
  step x r = if u.key r == u.item_key x then u.set x r else r

  abbrev pub admits : X → Row → Bool
  admits x r = if u.key r == u.item_key x then u.condition x r else true

  abbrev pub run : List X → Row → Row
  run [] r = r
  run (x ∷ xs) r = run xs (step x r)

  abbrev pub passes : List X → Row → Bool
  passes [] r = true
  passes (x ∷ xs) r = admits x r && passes xs (step x r)

  -- The table has a row for the key.
  abbrev pub Has : ℕ → List Row → Type 0
  Has k t = any (λ r. u.key r == k) t ≡ true

  -- No two rows have the same key: the column is declared unique.
  abbrev pub IsKeyed : List Row → Type 0
  IsKeyed [] = Unit
  IsKeyed (r ∷ t) = All (λ s. u.key s ≢ u.key r) t × IsKeyed t

  abbrev pub KeepsKey : Type 0
  KeepsKey = (x : X) (r : Row) → u.key (u.set x r) ≡ u.key r

  -- Every item's row is there, and lets the items through in their order.
  pub record Fits (xs : List X) (t : List Row) : Type 0 where
    pub listed : All (λ x. Has (u.item_key x) t) xs
    pub admitted : all (passes xs) t ≡ true

  -- The test of the statement that an item issues.
  abbrev test : X → Row → Bool
  test x r = (u.key r == u.item_key x) && u.condition x r

  update_rows-eq-map :
      (x : X) (t : List Row)
      → all (admits x) t ≡ true
      → update_rows (test x) (u.set x) t ≡ map (step x) t
  update_rows-eq-map x [] h = refl
  update_rows-eq-map x (r ∷ t) h = ground (arith, update_rows-eq-map x t)

  affected-ne-zero :
      (x : X) (t : List Row)
      → Has (u.item_key x) t
      → all (admits x) t ≡ true
      → affected (test x) t ≢ 0
  affected-ne-zero x [] h a = cc
  affected-ne-zero x (r ∷ t) h a = ground (arith, affected-ne-zero x t)

  affected-elsewhere :
      (x : X) (k : ℕ) (t : List Row)
      → All (λ s. u.key s ≢ k) t
      → k ≡ u.item_key x
      → (affected (test x) t ≡ 0) × (all (admits x) t ≡ true)
  affected-elsewhere x k [] h e = (refl, refl)
  affected-elsewhere x k (r ∷ t) h e = ground (arith, affected-elsewhere x k t h.1 e)

  affected_sound :
      (x : X) (t : List Row)
      → IsKeyed t
      → affected (test x) t ≢ 0
      → (Has (u.item_key x) t) × (all (admits x) t ≡ true)
  affected_sound x [] h a = absurd (a refl)
  affected_sound x (r ∷ t) h a =
      ground (arith, affected-elsewhere x (u.key r) t h.0, affected_sound x t h.1)

  pub execute_complete :
      (x : X) (t : List Row)
      → Has (u.item_key x) t
      → all (admits x) t ≡ true
      → execute u x t ≡ ok (map (step x) t)
  execute_complete x t h a = ground (arith, affected-ne-zero x t h a, update_rows-eq-map x t a)

  pub execute_sound :
      (x : X) (t : List Row) {t' : List Row}
      → IsKeyed t
      → execute u x t ≡ ok t'
      → (Has (u.item_key x) t) × (all (admits x) t ≡ true) × (t' ≡ map (step x) t)
  execute_sound x t {t'} keyed e =
      let nonzero : affected (test x) t ≢ 0 = ground arith in
      let (h, a) = affected_sound x t keyed nonzero in
      (h, a, ground (arith, update_rows-eq-map x t a))
