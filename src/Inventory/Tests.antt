-- ===== src/Inventory/Tests.antt =====
-- Runs of the stocks on one table, and the theorems at it.
use nest_microservices_tempo.Prelude.{
  ℤ, pos, negsuc, ◌≤ℤ◌, ◌+ℤ◌, ◌-ℤ◌, int_laws, ◌≡◌, refl, ◌⊎◌, none, List, [], ◌∷◌, All, arith, ◌==◌,
}
use nest_microservices_tempo.Errors.{Exception, ok, err}
use nest_microservices_tempo.Inventory.{
  InventoryEntity, OrderItem, Inventories, reserve_inventory, release_inventory, confirm_inventory,
  restore_inventory, initialize_inventory, adjust_inventory, get_available_stock,
}
use nest_microservices_tempo.Inventory.Saga.{
  IsValid, IsAvailable, hold, sell, reserve_outcome, release-reserve, confirm-reserve,
  confirm-restore-reserve,
}
use nest_microservices_tempo.Inventory.Demand.{IsPositive}
use nest_microservices_tempo.Inventory.Bounds.{IsWithin, activities-IsWithin}
use nest_microservices_tempo.Prelude.{find?, some}
use nest_microservices_tempo.Inventory.Reach.{
  Reachable, empty, after, initializes, reserves, Reachable-available,
}
use nest_microservices_tempo.Inventory.Retried.{release-reserve-reserve}
use nest_microservices_tempo.Inventory.Sound.{one_item, oversold, reserve_negative}

abbrev pub row_of : ℤ → ℤ → InventoryEntity
row_of s h = record {
  id = 1;
  product_id = 7;
  stock = s;
  reserved_quantity = h;
  warehouse_location = none;
}

abbrev other_row : InventoryEntity
other_row = record {
  id = 2;
  product_id = 8;
  stock = pos 4;
  reserved_quantity = pos 0;
  warehouse_location = none;
}

abbrev pub table : Inventories
table = row_of (pos 10) (pos 3) ∷ other_row ∷ []

-- Two lines for one product, and one for another.
abbrev pub order : List OrderItem
order =
    record { product_id = 7; quantity = pos 2 }
    ∷ record { product_id = 8; quantity = pos 4 }
    ∷ record { product_id = 7; quantity = pos 5 }
    ∷ []

pub table-IsValid : IsValid table
table-IsValid = omega arith

pub order-IsPositive : IsPositive order
order-IsPositive = omega arith

pub reserved : (reserve_inventory 1 order table).0 ≡ ok tt
unfolding reserve_inventory ◌+ℤ◌ ◌-ℤ◌
reserved = refl

reserve_outcome_example :
    (IsAvailable order table × (reserve_inventory 1 order table ≡ (ok tt, hold order table)))
    ⊎ (¬ (IsAvailable order table)
        × ((e : Exception) × (reserve_inventory 1 order table ≡ (err e, table))))
reserve_outcome_example = reserve_outcome 1 order table table-IsValid order-IsPositive

release-reserve_example :
    release_inventory 1 order (reserve_inventory 1 order table).1 ≡ (ok tt, table)
release-reserve_example = release-reserve 1 order table table-IsValid order-IsPositive reserved

confirm-reserve_example :
    confirm_inventory 1 order (reserve_inventory 1 order table).1 ≡ (ok tt, sell order table)
confirm-reserve_example = confirm-reserve 1 order table table-IsValid order-IsPositive reserved

-- Three are held; the stock is adjusted from 10 down to 1, and then the three are sold.
oversold_example :
    ((confirm_inventory 1
        (one_item 7 (pos 3))
        (adjust_inventory 7 (negsuc 8) (row_of (pos 10) (pos 3) ∷ [])).1).0
      ≡ ok tt)
    × All
        (λ s. ¬ (pos 0 ≤ℤ s.stock))
        (confirm_inventory 1
          (one_item 7 (pos 3))
          (adjust_inventory 7 (negsuc 8) (row_of (pos 10) (pos 3) ∷ [])).1).1
oversold_example = oversold 1 (row_of (pos 10) (pos 3)) (negsuc 8) (omega int_laws) (omega int_laws)

-- An order of minus five.
reserve_negative_example :
    ((reserve_inventory 1 (one_item 7 (negsuc 4)) table).0 ≡ ok tt)
    × (All (λ r. r.reserved_quantity ≤ℤ pos 4) table
        → (q : InventoryEntity) × (find?
              (λ r. r.product_id == 7)
              (reserve_inventory 1 (one_item 7 (negsuc 4)) table).1
            ≡ some q)
          × ¬ (pos 0 ≤ℤ q.reserved_quantity))
reserve_negative_example = reserve_negative 1 7 4 table table-IsValid refl

available : get_available_stock 7 table ≡ ok (7, pos 7)
unfolding get_available_stock ◌-ℤ◌
available = refl

confirm-restore-reserve_example :
    ((restore_inventory 1 order (reserve_inventory 1 order table).1).0 ≡ ok tt)
    × (confirm_inventory 1 order (restore_inventory 1 order (reserve_inventory 1 order table).1).1
        ≡ (ok tt, table))
confirm-restore-reserve_example =
    confirm-restore-reserve 1 order table table-IsValid order-IsPositive reserved

activities-IsWithin_example :
    All (IsWithin (pos 10)) (reserve_inventory 1 order table).1
    × All (IsWithin (pos 10)) (release_inventory 1 order table).1
    × All (IsWithin (pos 10)) (confirm_inventory 1 order table).1
activities-IsWithin_example =
    activities-IsWithin 1 order (pos 10) table table-IsValid order-IsPositive (omega arith)

abbrev small_order : List OrderItem
small_order = record { product_id = 7; quantity = pos 2 } ∷ []

release-reserve-reserve_example :
    let (first, t') = reserve_inventory 1 small_order table in
    let (second, t'') = reserve_inventory 1 small_order t' in
    (first ≡ ok tt)
    × (second ≡ ok tt)
    × (t'' ≡ hold small_order (hold small_order table))
    × (release_inventory 1 small_order t'' ≡ (ok tt, hold small_order table))
unfolding ◌+ℤ◌
release-reserve-reserve_example =
    release-reserve-reserve 1 small_order (omega arith) table table-IsValid
      (record { listed = (refl, tt); enough = omega arith })
      (record { listed = (refl, tt); enough = omega arith })

-- A new product with a stock of 5, of which 2 are then held.
abbrev new_stock : Inventories
new_stock = (initialize_inventory 1 7 (pos 5) []).1

abbrev with_held : Inventories
with_held = (reserve_inventory 1 small_order new_stock).1

with_held-Reachable : Reachable with_held
with_held-Reachable =
    after (after empty (initializes 1 7 (pos 5) [] (omega arith)))
      (reserves 1 small_order new_stock (omega arith))

with_held_found : find? (λ q. q.product_id == 7) with_held ≡ some (row_of (pos 5) (pos 2))
unfolding initialize_inventory reserve_inventory ◌+ℤ◌ ◌-ℤ◌
with_held_found = refl

Reachable-available_example :
    IsValid with_held
    × (get_available_stock 7 with_held ≡ ok (7, pos 5 -ℤ pos 2))
    × (pos 0 ≤ℤ (pos 5 -ℤ pos 2))
Reachable-available_example =
    Reachable-available 7 (row_of (pos 5) (pos 2)) with_held-Reachable with_held_found
