-- ===== src/Store.antt =====
-- The tables of the services' databases and the statements that the code issues on them: a table is
-- the list of its rows, `UPDATE … SET … WHERE …` changes the rows that pass the test and reports how
-- many did, and a transaction that throws leaves the table alone.
pub mod Rows
pub mod Loops
use nest_microservices_tempo.Prelude.{ℕ, suc, Bool, true, ◌&&◌, List, [], ◌∷◌, ◌==◌, if◌then◌else◌}
use nest_microservices_tempo.Errors.{Exception, Result, ok, err, ◌>>=◌}

module _ {Row : Type 0} where
  abbrev pub update_rows : (Row → Bool) → (Row → Row) → List Row → List Row
  update_rows p f [] = []
  update_rows p f (r ∷ t) = (if p r then f r else r) ∷ update_rows p f t

  -- `result.affected`
  abbrev pub affected : (Row → Bool) → List Row → ℕ
  affected p [] = 0
  affected p (r ∷ t) = if p r then suc (affected p t) else affected p t

  -- An update that throws if no row is affected.
  abbrev pub update_or_throw : (Row → Bool) → (Row → Row) → Exception → List Row → Result (List Row)
  update_or_throw p f e t = if affected p t == 0 then err e else ok (update_rows p f t)

-- `for (const x of xs) { … }` over a state, where the body may throw.
abbrev pub for_each : {X S : Type 0} → (X → S → Result S) → List X → S → Result S
for_each body [] s = ok s
for_each body (x ∷ xs) s = body x s >>= for_each body xs

-- `entityManager.transaction(…)`: all of the body's writes, or none.
abbrev pub transaction : {S : Type 0} → (S → Result S) → S → Result (Unit {0}) × S
transaction body s = elim (body s) [ ok s' ↦ (ok tt, s') | err e ↦ (err e, s) ]

-- An UPDATE of the row that an item names by its key, with a further condition on the row.
pub record RowUpdate (X Row : Type 0) : Type 0 where
  pub key : Row → ℕ
  pub item_key : X → ℕ
  pub condition : X → Row → Bool
  pub set : X → Row → Row
  pub failure : X → Exception

abbrev pub execute : {X Row : Type 0} → RowUpdate X Row → X → List Row → Result (List Row)
execute u x t =
    update_or_throw (λ r. (u.key r == u.item_key x) && u.condition x r) (u.set x) (u.failure x) t
