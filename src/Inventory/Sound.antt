-- ===== src/Inventory/Sound.antt =====
-- What every operation on the stocks preserves, and the two ways out of it that the code leaves open.
use nest_microservices_tempo.Prelude.{
  find?, some, ℕ, ℤ, pos, negsuc, ◌+ℤ◌, ◌-ℤ◌, ◌≤ℤ◌, int_laws, ◌≡◌, refl, ◌≢◌, true, false, ==-self,
  List, [], ◌∷◌, ◌++◌, map, arith, ◌==◌, All, any, inl, inr, Bool-cases, all_of_All, All-of_all,
  All-imp, All-map, All-zip, le→leb_ℤ, leb_ℤ→le, and_elim,
}
use nest_microservices_tempo.Errors.{ok}
use nest_microservices_tempo.Store.{
  RowUpdate, for_each, execute, transaction, update_rows, affected,
}
use nest_microservices_tempo.Store.Rows.{run, passes, Has, IsKeyed, KeepsKey}
use nest_microservices_tempo.Store.Loops.{
  transaction_complete, transaction_sound, transaction_cases, IsKeyed-map-run,
}
use nest_microservices_tempo.Inventory.{
  InventoryEntity, OrderItem, Inventories, reserve_update, release_update, confirm_update,
  restore_update, reserve_inventory, release_inventory, confirm_inventory, restore_inventory,
  initialize_inventory, adjust_inventory, adjust_test, adjust_set,
}
use nest_microservices_tempo.Inventory.Demand.{
  demand_nonneg, IsPositive, moved, run-reserve, run-release, run-confirm, run-restore,
  passes-reserve_sound, passes-release_sound, passes-confirm_sound,
}
use nest_microservices_tempo.Inventory.Saga.{IsSoundRow, IsValid}

-- A transaction keeps every row as it should be if its items do, wherever they are let through.
pub transaction-All :
    (P : InventoryEntity → Type 0) (u : RowUpdate OrderItem InventoryEntity) (keeps : KeepsKey u)
    (items : List OrderItem) (t : Inventories)
    → IsKeyed u t
    → All P t
    → ((r : InventoryEntity) → P r → passes u items r ≡ true → P (run u items r))
    → IsKeyed u (transaction (for_each (execute u) items) t).1
      × All P (transaction (for_each (execute u) items) t).1
transaction-All P u keeps items t keyed sound row =
    elim (transaction_cases (for_each (execute u) items) t) [
      | inl e ↦
          let (fits, same) = transaction_sound u keeps items t keyed e in
          rw same (
            IsKeyed-map-run u keeps items t keyed,
            All-map P (run u items) t (
                All-imp (λ r. P r × (passes u items r ≡ true)) _ (λ r h. row r h.0 h.1) t
                  (All-zip P _ t sound (All-of_all (passes u items) t fits.admitted))),
          )
      | inr (x, e) ↦ rw e (keyed, sound)
    ]

module _ (items : List OrderItem) (positive : IsPositive items) (r : InventoryEntity)
    (sound : IsSoundRow r) where
  pub row-reserve : passes reserve_update items r ≡ true → IsSoundRow (run reserve_update items r)
  row-reserve h = rw (run-reserve items r) (
      omega (
        int_laws,
        passes-reserve_sound items r sound.1 h,
        demand_nonneg r.product_id items positive,
      ))

  pub row-release : passes release_update items r ≡ true → IsSoundRow (run release_update items r)
  row-release h = rw (run-release items r) (
      omega (
        int_laws,
        passes-release_sound items r sound.0 h,
        demand_nonneg r.product_id items positive,
      ))

  pub row-confirm : passes confirm_update items r ≡ true → IsSoundRow (run confirm_update items r)
  row-confirm h =
      rw (run-confirm items r) (omega (int_laws, passes-confirm_sound items r sound.0 h))

  pub row-restore : (o : ℕ) → IsSoundRow (run (restore_update o) items r)
  row-restore o =
      rw (run-restore o items r) (omega (int_laws, demand_nonneg r.product_id items positive))

-- On a table with one row to a product, on which nothing is held that is not in stock, each of the
-- four activities of the saga leaves such a table, whether it succeeds or throws, if no quantity is
-- negative.
pub activities-IsValid :
    (o : ℕ) (items : List OrderItem) (t : Inventories)
    → IsValid t
    → IsPositive items
    → IsValid (reserve_inventory o items t).1
      × IsValid (release_inventory o items t).1
      × IsValid (confirm_inventory o items t).1
      × IsValid (restore_inventory o items t).1
unfolding reserve_inventory release_inventory confirm_inventory restore_inventory
activities-IsValid o items t v p = (
  valid (
      transaction-All IsSoundRow reserve_update (λ i r. refl) items t v.keyed v.sound
        (row-reserve items p)),
  valid (
      transaction-All IsSoundRow release_update (λ i r. refl) items t v.keyed v.sound
        (row-release items p)),
  valid (
      transaction-All IsSoundRow confirm_update (λ i r. refl) items t v.keyed v.sound
        (row-confirm items p)),
  valid (
      transaction-All IsSoundRow (restore_update o) (λ i r. refl) items t v.keyed v.sound
        (λ r s _. row-restore items p r s o)),
)
  where
    valid : {s : Inventories} → IsKeyed reserve_update s × All IsSoundRow s → IsValid s
    valid (k, s) = record { keyed = k; sound = s }

product-ne-append :
    (k : ℕ) (t : Inventories) (s : InventoryEntity)
    → All (λ r. r.product_id ≢ k) t
    → s.product_id ≢ k
    → All (λ r. r.product_id ≢ k) (t ++ s ∷ [])
product-ne-append k [] s h n = (n, tt)
product-ne-append k (r ∷ t) s h n = (h.0, product-ne-append k t s h.1 n)

pub IsKeyed-append :
    (t : Inventories) (s : InventoryEntity)
    → any (λ r. r.product_id == s.product_id) t ≡ false
    → IsKeyed reserve_update t
    → IsKeyed reserve_update (t ++ s ∷ [])
IsKeyed-append [] s h k = (tt, tt)
IsKeyed-append (r ∷ t) s h k =
    (product-ne-append r.product_id t s k.0 (ground arith), IsKeyed-append t s (ground arith) k.1)

pub All-append :
    (P : InventoryEntity → Type 0) (t : Inventories) (s : InventoryEntity)
    → All P t
    → P s
    → All P (t ++ s ∷ [])
All-append P [] s h n = (n, tt)
All-append P (r ∷ t) s h n = (h.0, All-append P t s h.1 n)

-- A new product starts sound if its quantity is not negative; a product that has a row already is
-- refused, and the table stays as it was.
pub initialize-IsValid :
    (id p : ℕ) (q : ℤ) (t : Inventories)
    → IsValid t
    → pos 0 ≤ℤ q
    → IsValid (initialize_inventory id p q t).1
      × (any (λ r. r.product_id == p) t ≡ true → (initialize_inventory id p q t).1 ≡ t)
unfolding initialize_inventory
initialize-IsValid id p q t v h = elim (Bool-cases (any (λ r. r.product_id == p) t)) [
  | inl e ↦ rw e (v, λ _. refl)
  | inr e ↦ rw e (
    record {
      keyed = IsKeyed-append t _ e v.keyed;
      sound = All-append IsSoundRow t _ v.sound (omega arith, h);
    },
    λ c. cc,
  )
]

All-update_rows :
    (p : ℕ) (c : ℤ) (t : Inventories)
    → All (λ r. pos 0 ≤ℤ r.stock) t
    → All (λ r. pos 0 ≤ℤ r.stock) (update_rows (adjust_test p c) (adjust_set c) t)
All-update_rows p c [] h = tt
All-update_rows p c (r ∷ t) h = elim (Bool-cases (adjust_test p c r)) [
  | inl e ↦
      let (_, fits) = and_elim _ _ e in
      rw e (leb_ℤ→le (pos 0) (r.stock +ℤ c) fits, All-update_rows p c t h.1)
  | inr e ↦ rw e (h.0, All-update_rows p c t h.1)
]

-- An adjustment leaves no stock negative, whatever the change, on success and on failure.
pub adjust_nonneg :
    (p : ℕ) (c : ℤ) (t : Inventories)
    → All (λ r. pos 0 ≤ℤ r.stock) t
    → All (λ r. pos 0 ≤ℤ r.stock) (adjust_inventory p c t).1
unfolding adjust_inventory
adjust_nonneg p c t h = elim (Bool-cases (affected (adjust_test p c) t == 0)) [
  | inl e ↦ rw e h
  | inr e ↦ rw e (All-update_rows p c t h)
]

abbrev pub one_item : ℕ → ℤ → List OrderItem
one_item p q = record { product_id = p; quantity = q } ∷ []

adjust_one :
    (r : InventoryEntity) (c : ℤ)
    → pos 0 ≤ℤ r.stock +ℤ c
    → (adjust_inventory r.product_id c (r ∷ [])).1 ≡ adjust_set c r ∷ []
unfolding adjust_inventory
adjust_one r c h = ground (arith, ==-self r.product_id, le→leb_ℤ (pos 0) (r.stock +ℤ c) h)

confirm_one :
    (o : ℕ) (r : InventoryEntity)
    → confirm_inventory o (one_item r.product_id r.reserved_quantity) (r ∷ []) ≡ (
      ok tt,
      moved (r.stock -ℤ r.reserved_quantity) (r.reserved_quantity -ℤ r.reserved_quantity) r ∷ [],
    )
unfolding confirm_inventory
confirm_one o r =
    ground
      (arith, ==-self r.product_id, le→leb_ℤ r.reserved_quantity r.reserved_quantity (omega arith))

-- An adjustment may take the stock below what is held: then the holders' confirmation goes through
-- and leaves the stock negative.
pub oversold :
    (o : ℕ) (r : InventoryEntity) (c : ℤ)
    → pos 0 ≤ℤ r.stock +ℤ c
    → ¬ (r.reserved_quantity ≤ℤ r.stock +ℤ c)
    → let t = (adjust_inventory r.product_id c (r ∷ [])).1 in
      let held = one_item r.product_id r.reserved_quantity in
      ((confirm_inventory o held t).0 ≡ ok tt)
      × All (λ s. ¬ (pos 0 ≤ℤ s.stock)) (confirm_inventory o held t).1
unfolding adjust_inventory confirm_inventory
oversold o r c h n =
    rw (adjust_one r c h)
      (rw (confirm_one o (adjust_set c r)) (refl, (λ p. n (omega int_laws), tt)))

reserve_negative_passes :
    (p n : ℕ) (r : InventoryEntity)
    → IsSoundRow r
    → passes reserve_update (one_item p (negsuc n)) r ≡ true
reserve_negative_passes p n r s = elim (Bool-cases (r.product_id == p)) [
  | inl e ↦ rw e (rw (le→leb_ℤ (negsuc n) (r.stock -ℤ r.reserved_quantity) (omega int_laws)))
  | inr e ↦ rw e
]

reserve_negative_row :
    (p n : ℕ) (t : Inventories)
    → Has reserve_update p t
    → All (λ r. r.reserved_quantity ≤ℤ pos n) t
    → (q : InventoryEntity) × (find?
          (λ r. r.product_id == p)
          (map (run reserve_update (one_item p (negsuc n))) t)
        ≡ some q)
      × ¬ (pos 0 ≤ℤ q.reserved_quantity)
reserve_negative_row p n [] h a = cc
reserve_negative_row p n (r ∷ t) h a = elim (Bool-cases (r.product_id == p)) [
  | inl e ↦
      rw (run-reserve (one_item p (negsuc n)) r)
        (rw e (_, refl, λ s. let low = a.0 in omega (int_laws, low)))
  | inr e ↦
      let h' = rw e at h in
      rw (run-reserve (one_item p (negsuc n)) r) (rw e (reserve_negative_row p n t h' a.1))
]

-- A quantity may be negative: on a valid table, an order of fewer than none of a product is reserved
-- whenever the product has a row; and where every row holds less than the order falls below none, the
-- product's row is left with a negative held quantity.
pub reserve_negative :
    (o p n : ℕ) (t : Inventories)
    → IsValid t
    → Has reserve_update p t
    → ((reserve_inventory o (one_item p (negsuc n)) t).0 ≡ ok tt)
      × (All (λ r. r.reserved_quantity ≤ℤ pos n) t
          → (q : InventoryEntity) × (find?
                (λ r. r.product_id == p)
                (reserve_inventory o (one_item p (negsuc n)) t).1
              ≡ some q)
            × ¬ (pos 0 ≤ℤ q.reserved_quantity))
unfolding reserve_inventory
reserve_negative o p n t v h =
    let e =
      transaction_complete reserve_update (λ i r. refl) (one_item p (negsuc n)) t
        (record {
          listed = (h, tt);
          admitted =
              all_of_All (passes reserve_update (one_item p (negsuc n))) t
                (All-imp IsSoundRow _ (reserve_negative_passes p n) t v.sound);
        }) in
    rw e (refl, λ a. reserve_negative_row p n t h a)
