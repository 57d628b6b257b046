-- ===== src/Store/Loops.antt =====
-- A transaction that loops over items, read row by row: it goes through exactly when each item's row
-- is there and lets the items through, and then every row has had its items in their order.
use nest_microservices_tempo.Prelude.{
  ℕ, ◌≡◌, refl, ap, sym, ◌∙◌, ◌≢◌, ◌⊎◌, true, List, [], ◌∷◌, map, arith, All, all, inl, inr,
  map-map,
}
use nest_microservices_tempo.Errors.{Exception, Result, ok, err, returned_parts}
use nest_microservices_tempo.Store.{RowUpdate, execute, for_each, transaction}
use nest_microservices_tempo.Store.Rows.{
  step, admits, run, passes, Has, IsKeyed, KeepsKey, Fits, execute_complete, execute_sound,
}

module _ {X Row : Type 0} (u : RowUpdate X Row) (keeps : KeepsKey u) where
  key-step : (x : X) (r : Row) → u.key (step u x r) ≡ u.key r
  key-step x r = ground (arith, keeps x r)

  Has-map-step : (x : X) (k : ℕ) (t : List Row) → Has u k t → Has u k (map (step u x) t)
  Has-map-step x k [] h = h
  Has-map-step x k (r ∷ t) h = rw (key-step x r) (ground (arith, Has-map-step x k t))

  Has-of_map-step : (x : X) (k : ℕ) (t : List Row) → Has u k (map (step u x) t) → Has u k t
  Has-of_map-step x k [] h = h
  Has-of_map-step x k (r ∷ t) h =
      let h' = rw (key-step x r) at h in ground (arith, Has-of_map-step x k t)

  key-ne-map-step :
      (x : X) (k : ℕ) (t : List Row)
      → All (λ s. u.key s ≢ k) t
      → All (λ s. u.key s ≢ k) (map (step u x) t)
  key-ne-map-step x k [] h = tt
  key-ne-map-step x k (r ∷ t) h = (rw (key-step x r) h.0, key-ne-map-step x k t h.1)

  pub IsKeyed-map-step : (x : X) (t : List Row) → IsKeyed u t → IsKeyed u (map (step u x) t)
  IsKeyed-map-step x [] h = tt
  IsKeyed-map-step x (r ∷ t) h =
      (rw (key-step x r) (key-ne-map-step x (u.key r) t h.0), IsKeyed-map-step x t h.1)

  All-Has-map-step :
      (x : X) (xs : List X) (t : List Row)
      → All (λ y. Has u (u.item_key y) t) xs
      → All (λ y. Has u (u.item_key y) (map (step u x) t)) xs
  All-Has-map-step x [] t h = tt
  All-Has-map-step x (y ∷ ys) t h =
      (Has-map-step x (u.item_key y) t h.0, All-Has-map-step x ys t h.1)

  All-Has-of_map-step :
      (x : X) (xs : List X) (t : List Row)
      → All (λ y. Has u (u.item_key y) (map (step u x) t)) xs
      → All (λ y. Has u (u.item_key y) t) xs
  All-Has-of_map-step x [] t h = tt
  All-Has-of_map-step x (y ∷ ys) t h =
      (Has-of_map-step x (u.item_key y) t h.0, All-Has-of_map-step x ys t h.1)

  all-passes-cons :
      (x : X) (xs : List X) (t : List Row)
      → all (passes u (x ∷ xs)) t ≡ true
      → (all (admits u x) t ≡ true) × (all (passes u xs) (map (step u x) t) ≡ true)
  all-passes-cons x xs [] h = (refl, refl)
  all-passes-cons x xs (r ∷ t) h = ground (arith, all-passes-cons x xs t)

  all-passes_of_parts :
      (x : X) (xs : List X) (t : List Row)
      → all (admits u x) t ≡ true
      → all (passes u xs) (map (step u x) t) ≡ true
      → all (passes u (x ∷ xs)) t ≡ true
  all-passes_of_parts x xs [] h k = refl
  all-passes_of_parts x xs (r ∷ t) h k = ground (arith, all-passes_of_parts x xs t)

  map-run_nil : (t : List Row) → map (run u []) t ≡ t
  map-run_nil [] = refl
  map-run_nil (r ∷ t) = ap (λ s. r ∷ s) (map-run_nil t)

  all-passes_nil : (t : List Row) → all (passes u []) t ≡ true
  all-passes_nil [] = refl
  all-passes_nil (r ∷ t) = all-passes_nil t

  -- Items whose rows are there, and let them through, are all carried out.
  pub for_each_complete :
      (xs : List X) (t : List Row) → Fits u xs t → for_each (execute u) xs t ≡ ok (map (run u xs) t)
  for_each_complete [] t h = ap ok (sym (map-run_nil t))
  for_each_complete (x ∷ xs) t h =
      let (here, later) = all-passes-cons x xs t h.admitted in
      let fits : Fits u xs (map (step u x) t) = record {
        listed = All-Has-map-step x xs t h.listed.1;
        admitted = later;
      } in
      rw (execute_complete u x t h.listed.0 here)
        (for_each_complete xs (map (step u x) t) fits ∙ ap ok (map-map (run u xs) (step u x) t))

  -- A loop that goes through had a row for every item, let through, and changed no other row.
  pub for_each_sound :
      (xs : List X) (t : List Row) {t' : List Row}
      → IsKeyed u t
      → for_each (execute u) xs t ≡ ok t'
      → Fits u xs t × (t' ≡ map (run u xs) t)
  for_each_sound [] t {t'} keyed e =
      (record { listed = tt; admitted = all-passes_nil t }, cc (map-run_nil t))
  for_each_sound (x ∷ xs) t {t'} keyed e =
      let (t₁, e₁, e₂) = returned_parts (execute u x t) (for_each (execute u) xs) e in
      let (has, here, step₁) = execute_sound u x t keyed e₁ in
      let e₃ : for_each (execute u) xs (map (step u x) t) ≡ ok t' = rw (← step₁) e₂ in
      let (fits, rest) = for_each_sound xs (map (step u x) t) (IsKeyed-map-step x t keyed) e₃ in
      (
        record {
          listed = (has, All-Has-of_map-step x xs t fits.listed);
          admitted = all-passes_of_parts x xs t here fits.admitted;
        },
        rest ∙ map-map (run u xs) (step u x) t,
      )

  pub IsKeyed-map-run : (xs : List X) (t : List Row) → IsKeyed u t → IsKeyed u (map (run u xs) t)
  IsKeyed-map-run [] t h = rw (map-run_nil t) h
  IsKeyed-map-run (x ∷ xs) t h =
      rw (← map-map (run u xs) (step u x) t)
        (IsKeyed-map-run xs (map (step u x) t) (IsKeyed-map-step x t h))

  pub transaction_complete :
      (xs : List X) (t : List Row)
      → Fits u xs t
      → transaction (for_each (execute u) xs) t ≡ (ok tt, map (run u xs) t)
  transaction_complete xs t h = rw (for_each_complete xs t h, transaction)

  pub transaction_sound :
      (xs : List X) (t : List Row)
      → IsKeyed u t
      → (transaction (for_each (execute u) xs) t).0 ≡ ok tt
      → Fits u xs t × ((transaction (for_each (execute u) xs) t).1 ≡ map (run u xs) t)
  transaction_sound xs t keyed e = go (for_each (execute u) xs t) refl
    where
      go :
          (m : Result (List Row))
          → for_each (execute u) xs t ≡ m
          → Fits u xs t × ((transaction (for_each (execute u) xs) t).1 ≡ map (run u xs) t)
      go (ok t') q =
          let (fits, same) = for_each_sound xs t keyed q in (fits, rw (q, transaction) same)
      go (err x) q = cc (rw (q, transaction) at e)

-- A transaction is carried out, or it throws and nothing has changed.
pub transaction_cases :
    {S : Type 0} (m : S → Result S) (s : S)
    → ((transaction m s).0 ≡ ok tt) ⊎ ((e : Exception) × (transaction m s ≡ (err e, s)))
transaction_cases {S} m s = go (m s) refl
  where
    go :
        (r : Result S)
        → m s ≡ r
        → ((transaction m s).0 ≡ ok tt) ⊎ ((e : Exception) × (transaction m s ≡ (err e, s)))
    go (ok s') q = inl (rw (q, transaction))
    go (err e) q = inr (e, rw (q, transaction))
