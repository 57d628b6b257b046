-- ===== src/Inventory/Ledger/Rows.antt =====
-- The activities on a table whose rows cover what they ask for, as maps over the rows.
use mathlib.Core.Path.{fun_ext}
use nest_microservices_tempo.Prelude.{
  ℕ, ◌+ℤ◌, ◌-ℤ◌, ◌≤ℤ◌, ◌≡◌, refl, ap, ◌∙◌, ◌≢◌, List, [], ◌∷◌, map, All, all_of_All, All-imp,
}
use nest_microservices_tempo.Errors.{ok}
use nest_microservices_tempo.Store.Rows.{passes, IsKeyed}
use nest_microservices_tempo.Store.Loops.{transaction_complete}
use nest_microservices_tempo.Inventory.{
  InventoryEntity, OrderItem, Inventories, reserve_update, release_update, confirm_update,
  restore_update, release_inventory, confirm_inventory, restore_inventory,
}
use nest_microservices_tempo.Inventory.Demand.{
  demand, IsPositive, moved, run-release, run-confirm, run-restore, passes-release, passes-confirm,
  passes-restore,
}
use nest_microservices_tempo.Inventory.Saga.{IsListed}

key-ne-map :
    (f : InventoryEntity → InventoryEntity) (k : ℕ) (t : Inventories)
    → ((r : InventoryEntity) → (f r).product_id ≡ r.product_id)
    → All (λ r. r.product_id ≢ k) t
    → All (λ r. r.product_id ≢ k) (map f t)
key-ne-map f k [] e h = tt
key-ne-map f k (r ∷ t) e h = (rw (e r) h.0, key-ne-map f k t e h.1)

pub IsKeyed-map :
    (f : InventoryEntity → InventoryEntity) (t : Inventories)
    → ((r : InventoryEntity) → (f r).product_id ≡ r.product_id)
    → IsKeyed reserve_update t
    → IsKeyed reserve_update (map f t)
IsKeyed-map f [] e h = tt
IsKeyed-map f (r ∷ t) e h = (rw (e r) (key-ne-map f r.product_id t e h.0), IsKeyed-map f t e h.1)

abbrev pub released_row : List OrderItem → InventoryEntity → InventoryEntity
released_row items r = record r {
  reserved_quantity = r.reserved_quantity -ℤ demand r.product_id items;
}

abbrev pub confirmed_row : List OrderItem → InventoryEntity → InventoryEntity
confirmed_row items r =
    moved (r.stock -ℤ demand r.product_id items) (r.reserved_quantity -ℤ demand r.product_id items)
      r

abbrev pub restored_row : List OrderItem → InventoryEntity → InventoryEntity
restored_row items r = record r { stock = r.stock +ℤ demand r.product_id items }

module _ (o : ℕ) (items : List OrderItem) (t : Inventories) (listed : IsListed items t) where
  pub release_covered :
      IsPositive items
      → All (λ r. demand r.product_id items ≤ℤ r.reserved_quantity) t
      → release_inventory o items t ≡ (ok tt, map (released_row items) t)
  unfolding release_inventory
  release_covered p c =
      transaction_complete release_update (λ i r. refl) items t
        (record {
          listed = listed;
          admitted = all_of_All (passes release_update items) t (
              All-imp (λ r. demand r.product_id items ≤ℤ r.reserved_quantity) _
                (λ r. passes-release items r p) t c);
        })
      ∙ ap (λ f. (ok tt, map f t)) (fun_ext (run-release items))

  pub confirm_covered :
      IsPositive items
      → All (λ r. demand r.product_id items ≤ℤ r.reserved_quantity) t
      → confirm_inventory o items t ≡ (ok tt, map (confirmed_row items) t)
  unfolding confirm_inventory
  confirm_covered p c =
      transaction_complete confirm_update (λ i r. refl) items t
        (record {
          listed = listed;
          admitted = all_of_All (passes confirm_update items) t (
              All-imp (λ r. demand r.product_id items ≤ℤ r.reserved_quantity) _
                (λ r. passes-confirm items r p) t c);
        })
      ∙ ap (λ f. (ok tt, map f t)) (fun_ext (run-confirm items))

  pub restore_listed : restore_inventory o items t ≡ (ok tt, map (restored_row items) t)
  unfolding restore_inventory
  restore_listed =
      transaction_complete (restore_update o) (λ i r. refl) items t
        (record {
          listed = listed;
          admitted =
              all_of_All (passes (restore_update o) items) t
                (All-imp (λ r. Unit {0}) _ (λ r _. passes-restore o items r) t (units t));
        })
      ∙ ap (λ f. (ok tt, map f t)) (fun_ext (run-restore o items))
    where
      units : (s : Inventories) → All (λ r. Unit {0}) s
      units [] = tt
      units (r ∷ s) = (tt, units s)
