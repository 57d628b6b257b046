-- ===== src/Inventory/Bounds.antt =====
-- How large the numbers in the table of stocks become: its columns are integers of the database.
use nest_microservices_tempo.Prelude.{
  ℕ, ℤ, pos, ◌≤ℤ◌, int_laws, ◌≡◌, refl, true, List, All, All-imp, All-zip,
}
use nest_microservices_tempo.Store.Rows.{run, passes}
use nest_microservices_tempo.Inventory.{
  InventoryEntity, OrderItem, Inventories, reserve_update, release_update, confirm_update,
  reserve_inventory, release_inventory, confirm_inventory,
}
use nest_microservices_tempo.Inventory.Demand.{
  demand_nonneg, IsPositive, run-reserve, run-release, run-confirm,
}
use nest_microservices_tempo.Inventory.Saga.{IsSoundRow, IsValid}
use nest_microservices_tempo.Inventory.Sound.{
  transaction-All, row-reserve, row-release, row-confirm,
}

-- A sound row with a stock of at most `m`, and with both of its numbers from 0 to `m`.
abbrev pub IsAtMost : ℤ → InventoryEntity → Type 0
IsAtMost m r = IsSoundRow r × (r.stock ≤ℤ m)

abbrev pub IsWithin : ℤ → InventoryEntity → Type 0
IsWithin m r =
    ((pos 0 ≤ℤ r.stock) × (r.stock ≤ℤ m))
    × ((pos 0 ≤ℤ r.reserved_quantity) × (r.reserved_quantity ≤ℤ m))

within : (m : ℤ) (t : Inventories) → All (IsAtMost m) t → All (IsWithin m) t
within m t h =
    All-imp (IsAtMost m) (IsWithin m)
      (λ r (sound, most). (
        (omega (int_laws, sound, most), most),
        (omega (int_laws, sound, most), omega (int_laws, sound, most)),
      ))
      t h

module _ (items : List OrderItem) (positive : IsPositive items) (m : ℤ) (r : InventoryEntity)
    (h : IsAtMost m r) where
  most-reserve : passes reserve_update items r ≡ true → IsAtMost m (run reserve_update items r)
  most-reserve p = (row-reserve items positive r h.0 p, rw (run-reserve items r) h.1)

  most-release : passes release_update items r ≡ true → IsAtMost m (run release_update items r)
  most-release p = (row-release items positive r h.0 p, rw (run-release items r) h.1)

  most-confirm : passes confirm_update items r ≡ true → IsAtMost m (run confirm_update items r)
  most-confirm p = (
    row-confirm items positive r h.0 p,
    rw (run-confirm items r) (omega (int_laws, h.1, demand_nonneg r.product_id items positive)),
  )

-- On a valid table with stocks of at most `m`, and for quantities that are not negative, which the
-- program does not enforce: a reservation, a release and a confirmation, whether they succeed or
-- throw, leave every stock and every held quantity from 0 to `m`. So no number that they store is
-- larger than the largest stock.
pub activities-IsWithin :
    (o : ℕ) (items : List OrderItem) (m : ℤ) (t : Inventories)
    → IsValid t
    → IsPositive items
    → All (λ r. r.stock ≤ℤ m) t
    → All (IsWithin m) (reserve_inventory o items t).1
      × All (IsWithin m) (release_inventory o items t).1
      × All (IsWithin m) (confirm_inventory o items t).1
unfolding reserve_inventory release_inventory confirm_inventory
activities-IsWithin o items m t v p most =
    let start = All-zip IsSoundRow (λ r. r.stock ≤ℤ m) t v.sound most in
    (
      within m _
          (transaction-All (IsAtMost m) reserve_update (λ i r. refl) items t v.keyed start
            (most-reserve items p m)).1,
      within m _
          (transaction-All (IsAtMost m) release_update (λ i r. refl) items t v.keyed start
            (most-release items p m)).1,
      within m _
          (transaction-All (IsAtMost m) confirm_update (λ i r. refl) items t v.keyed start
            (most-confirm items p m)).1,
    )
