-- ===== src/Inventory/Saga.antt =====
-- The stocks under the activities of one order: what a reservation holds, and that releasing it,
-- selling it and taking the sale back undo one another.
use mathlib.Core.Path.{fun_ext}
use nest_microservices_tempo.Prelude.{
  ℕ, pos, ◌+ℤ◌, ◌-ℤ◌, ◌≤ℤ◌, int_laws, ◌≡◌, refl, ap, ap₂, sym, ◌∙◌, ◌↔◌, ◌⊎◌, true, List, [], ◌∷◌,
  map, arith, All, inl, inr, all_of_All, All-of_all, All-imp, All-map, All-zip, map-map, map_id,
}
use nest_microservices_tempo.Errors.{Exception, ok, err}
use nest_microservices_tempo.Store.{for_each, execute}
use nest_microservices_tempo.Store.Rows.{passes, Has, IsKeyed}
use nest_microservices_tempo.Store.Loops.{
  transaction_complete, transaction_sound, transaction_cases,
}
use nest_microservices_tempo.Inventory.{
  InventoryEntity, OrderItem, Inventories, reserve_update, release_update, confirm_update,
  restore_update, reserve_inventory, release_inventory, confirm_inventory, restore_inventory,
}
use nest_microservices_tempo.Inventory.Demand.{
  demand, IsPositive, run-reserve, run-release, run-confirm, run-restore, passes-reserve,
  passes-reserve_sound, passes-release, passes-confirm, passes-restore,
}

-- Nothing is held that is not in stock, and nothing negative is held.
abbrev pub IsSoundRow : InventoryEntity → Type 0
IsSoundRow r = (pos 0 ≤ℤ r.reserved_quantity) × (r.reserved_quantity ≤ℤ r.stock)

pub record IsValid (t : Inventories) : Type 0 where
  pub keyed : IsKeyed reserve_update t
  pub sound : All IsSoundRow t

-- Every item names a product of the table.
abbrev pub IsListed : List OrderItem → Inventories → Type 0
IsListed items t = All (λ i. Has reserve_update i.product_id t) items

-- What the items ask of each product, in all, is in stock and not held.
pub record IsAvailable (items : List OrderItem) (t : Inventories) : Type 0 where
  pub listed : IsListed items t
  pub enough : All (λ r. r.reserved_quantity +ℤ demand r.product_id items ≤ℤ r.stock) t

abbrev hold_row : List OrderItem → InventoryEntity → InventoryEntity
hold_row items r = record r { reserved_quantity = r.reserved_quantity +ℤ demand r.product_id items }

abbrev sell_row : List OrderItem → InventoryEntity → InventoryEntity
sell_row items r = record r { stock = r.stock -ℤ demand r.product_id items }

-- The table with the items held, and with the items sold.
abbrev pub hold : List OrderItem → Inventories → Inventories
hold items = map (hold_row items)

abbrev pub sell : List OrderItem → Inventories → Inventories
sell items = map (sell_row items)

Has-map :
    (f : InventoryEntity → InventoryEntity) (k : ℕ) (t : Inventories)
    → ((r : InventoryEntity) → (f r).product_id ≡ r.product_id)
    → Has reserve_update k t
    → Has reserve_update k (map f t)
Has-map f k [] e h = h
Has-map f k (r ∷ t) e h = rw (e r) (ground (arith, Has-map f k t e))

pub IsListed-map :
    (f : InventoryEntity → InventoryEntity) (items : List OrderItem) (t : Inventories)
    → ((r : InventoryEntity) → (f r).product_id ≡ r.product_id)
    → IsListed items t
    → IsListed items (map f t)
IsListed-map f items t e h =
    All-imp (λ i. Has reserve_update i.product_id t) _ (λ i. Has-map f i.product_id t e) items h

trivial : (t : Inventories) → All (λ r. Unit {0}) t
trivial [] = tt
trivial (r ∷ t) = (tt, trivial t)

module _ (o : ℕ) (items : List OrderItem) (t : Inventories) where
  reserve_complete :
      IsPositive items → IsAvailable items t → reserve_inventory o items t ≡ (ok tt, hold items t)
  unfolding reserve_inventory
  reserve_complete p a =
      transaction_complete reserve_update (λ i r. refl) items t
        (record {
          listed = a.listed;
          admitted = all_of_All (passes reserve_update items) t (
              All-imp (λ r. r.reserved_quantity +ℤ demand r.product_id items ≤ℤ r.stock) _
                (λ r. passes-reserve items r p) t a.enough);
        })
      ∙ ap (λ f. (ok tt, map f t)) (fun_ext (run-reserve items))

  reserve_sound : IsValid t → (reserve_inventory o items t).0 ≡ ok tt → IsAvailable items t
  unfolding reserve_inventory
  reserve_sound v e =
      let (fits, same) = transaction_sound reserve_update (λ i r. refl) items t v.keyed e in
      record {
        listed = fits.listed;
        enough =
            All-imp (λ r. IsSoundRow r × (passes reserve_update items r ≡ true)) _
              (λ r h. passes-reserve_sound items r h.0.1 h.1) t
              (All-zip IsSoundRow _ t v.sound
                (All-of_all (passes reserve_update items) t fits.admitted));
      }

  reserve_cases :
      ((reserve_inventory o items t).0 ≡ ok tt)
      ⊎ ((e : Exception) × (reserve_inventory o items t ≡ (err e, t)))
  unfolding reserve_inventory
  reserve_cases = transaction_cases (for_each (execute reserve_update) items) t

  -- When a reservation goes through, and what is left by one that does and by one that does not.
  pub reserve_exact :
      IsValid t
      → IsPositive items
      → ((reserve_inventory o items t).0 ≡ ok tt ↔ IsAvailable items t)
        × (IsAvailable items t → (reserve_inventory o items t).1 ≡ hold items t)
        × (¬ (IsAvailable items t) → (reserve_inventory o items t).1 ≡ t)
  reserve_exact v p = (
    (reserve_sound v, λ a. ap (λ s. s.0) (reserve_complete p a)),
    λ a. ap (λ s. s.1) (reserve_complete p a),
    λ n. elim reserve_cases [ inl e ↦ absurd (n (reserve_sound v e)) | inr (e, same) ↦ rw same ],
  )

  -- On a valid table and for quantities that are not negative, which the program does not enforce:
  -- a reservation either goes through, where the items are available, holds what they ask and
  -- changes nothing else, or throws, where they are not available, and changes nothing.
  pub reserve_outcome :
      IsValid t
      → IsPositive items
      → (IsAvailable items t × (reserve_inventory o items t ≡ (ok tt, hold items t)))
        ⊎ (¬ (IsAvailable items t) × ((e : Exception) × (reserve_inventory o items t ≡ (err e, t))))
  reserve_outcome v p = elim reserve_cases [
    | inl e ↦ let a = reserve_sound v e in inl (a, reserve_complete p a)
    | inr (e, same) ↦ inr ((λ a. cc (sym same ∙ reserve_complete p a)), (e, same))
  ]

  hold-IsListed : IsListed items t → IsListed items (hold items t)
  hold-IsListed h = IsListed-map (hold_row items) items t (λ r. refl) h

  -- What is held is there to be released or sold.
  hold_covered :
      IsValid t → All (λ r. demand r.product_id items ≤ℤ r.reserved_quantity) (hold items t)
  hold_covered v =
      All-map (λ r. demand r.product_id items ≤ℤ r.reserved_quantity) (hold_row items) t
        (All-imp IsSoundRow _ (λ r h. omega int_laws) t v.sound)

  -- On a valid table and for quantities that are not negative, which the program does not enforce:
  -- releasing the items of a reservation that has gone through gives back the table as it was
  -- before the reservation.
  pub release-reserve :
      IsValid t
      → IsPositive items
      → (reserve_inventory o items t).0 ≡ ok tt
      → release_inventory o items (reserve_inventory o items t).1 ≡ (ok tt, t)
  unfolding release_inventory
  release-reserve v p e =
      let a = reserve_sound v e in
      rw (reserve_complete p a) (
        transaction_complete release_update (λ i r. refl) items (hold items t)
          (record {
            listed = hold-IsListed a.listed;
            admitted =
                all_of_All (passes release_update items) (hold items t)
                  (All-imp _ _ (λ r. passes-release items r p) (hold items t) (hold_covered v));
          })
        ∙ ap (λ f. (ok tt, map f (hold items t))) (fun_ext (run-release items))
        ∙ ap (λ s. (ok tt, s))
            (map-map _ (hold_row items) t
              ∙ map_id _ t (λ r. ap (λ z. record r { reserved_quantity = z }) (omega int_laws))))

  -- On a valid table and for quantities that are not negative, which the program does not enforce:
  -- confirming a reservation that has gone through takes its items from the stock and holds what
  -- was held before it.
  pub confirm-reserve :
      IsValid t
      → IsPositive items
      → (reserve_inventory o items t).0 ≡ ok tt
      → confirm_inventory o items (reserve_inventory o items t).1 ≡ (ok tt, sell items t)
  unfolding confirm_inventory
  confirm-reserve v p e =
      let a = reserve_sound v e in
      rw (reserve_complete p a) (
        transaction_complete confirm_update (λ i r. refl) items (hold items t)
          (record {
            listed = hold-IsListed a.listed;
            admitted =
                all_of_All (passes confirm_update items) (hold items t)
                  (All-imp _ _ (λ r. passes-confirm items r p) (hold items t) (hold_covered v));
          })
        ∙ ap (λ f. (ok tt, map f (hold items t))) (fun_ext (run-confirm items))
        ∙ ap (λ s. (ok tt, s))
            (map-map _ (hold_row items) t
              ∙ ap (λ f. map f t)
                  (fun_ext (λ r.
                    ap
                      (λ z. record r {
                        stock = r.stock -ℤ demand r.product_id items;
                        reserved_quantity = z;
                      })
                      (omega int_laws)))))

  -- Restoring a confirmed reservation gives back the table as it was before the reservation.
  pub restore-confirm-reserve :
      IsValid t
      → IsPositive items
      → (reserve_inventory o items t).0 ≡ ok tt
      → restore_inventory o items (confirm_inventory o items (reserve_inventory o items t).1).1
        ≡ (ok tt, t)
  unfolding restore_inventory
  restore-confirm-reserve v p e =
      let a = reserve_sound v e in
      rw (confirm-reserve v p e) (
        transaction_complete (restore_update o) (λ i r. refl) items (sell items t)
          (record {
            listed = IsListed-map (sell_row items) items t (λ r. refl) a.listed;
            admitted = all_of_All (passes (restore_update o) items) (sell items t) (
                All-imp (λ r. Unit {0}) _ (λ r _. passes-restore o items r) (sell items t)
                  (trivial (sell items t)));
          })
        ∙ ap (λ f. (ok tt, map f (sell items t))) (fun_ext (run-restore o items))
        ∙ ap (λ s. (ok tt, s))
            (map-map _ (sell_row items) t
              ∙ map_id _ t (λ r. ap (λ z. record r { stock = z }) (omega int_laws))))

  -- Items that are held and given back as if they were sold.
  abbrev double_row : InventoryEntity → InventoryEntity
  double_row r = record r {
    stock = r.stock +ℤ demand r.product_id items;
    reserved_quantity = r.reserved_quantity +ℤ demand r.product_id items;
  }

  restore_held :
      IsValid t
      → IsAvailable items t
      → restore_inventory o items (hold items t) ≡ (ok tt, map double_row t)
  unfolding restore_inventory
  restore_held v a =
      transaction_complete (restore_update o) (λ i r. refl) items (hold items t)
        (record {
          listed = hold-IsListed a.listed;
          admitted = all_of_All (passes (restore_update o) items) (hold items t) (
              All-imp (λ r. Unit {0}) _ (λ r _. passes-restore o items r) (hold items t)
                (trivial (hold items t)));
        })
      ∙ ap (λ f. (ok tt, map f (hold items t))) (fun_ext (run-restore o items))
      ∙ ap (λ s. (ok tt, s)) (map-map _ (hold_row items) t)

  confirm_doubled :
      IsValid t
      → IsPositive items
      → IsAvailable items t
      → confirm_inventory o items (map double_row t) ≡ (ok tt, t)
  unfolding confirm_inventory
  confirm_doubled v p a =
      transaction_complete confirm_update (λ i r. refl) items (map double_row t)
        (record {
          listed = IsListed-map double_row items t (λ r. refl) a.listed;
          admitted = all_of_All (passes confirm_update items) (map double_row t) (
              All-imp (λ r. demand r.product_id items ≤ℤ r.reserved_quantity) _
                (λ r. passes-confirm items r p) (map double_row t)
                (All-map (λ r. demand r.product_id items ≤ℤ r.reserved_quantity) double_row t
                  (All-imp IsSoundRow _ (λ r h. omega int_laws) t v.sound)));
        })
      ∙ ap (λ f. (ok tt, map f (map double_row t))) (fun_ext (run-confirm items))
      ∙ ap (λ s. (ok tt, s))
          (map-map _ double_row t
            ∙ map_id _ t (λ r.
              ap₂ (λ y z. record r { stock = y; reserved_quantity = z }) (omega int_laws)
                (omega int_laws)))

  -- On a valid table and for quantities that are not negative, which the program does not enforce:
  -- a restoration that comes between a reservation that has gone through and its confirmation
  -- undoes the sale. Both go through, and the table is as it was before the reservation.
  pub confirm-restore-reserve :
      IsValid t
      → IsPositive items
      → (reserve_inventory o items t).0 ≡ ok tt
      → ((restore_inventory o items (reserve_inventory o items t).1).0 ≡ ok tt)
        × (confirm_inventory o items (restore_inventory o items (reserve_inventory o items t).1).1
            ≡ (ok tt, t))
  confirm-restore-reserve v p e =
      let a = reserve_sound v e in
      rw (reserve_complete p a, restore_held v a) (refl, confirm_doubled v p a)
