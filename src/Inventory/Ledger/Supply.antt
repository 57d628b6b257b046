-- ===== src/Inventory/Ledger/Supply.antt =====
-- New products and adjustments (inventory-service.service.ts), row by row.
use nest_microservices_tempo.Prelude.{
  ℕ, ℤ, pos, ◌+ℤ◌, ◌≡◌, refl, ◌⊎◌, some, none, find?, List, [], ◌∷◌, ◌++◌, map, arith, true, false,
  any, All, ◌==◌, leb_ℤ, inl, inr, Bool-cases,
}
use nest_microservices_tempo.Errors.{
  Message, Exception, ok, err, AppErrorCode, InventoryErrorCode, bad_request_exception,
}
use nest_microservices_tempo.Store.{RowUpdate, affected, update_rows, execute}
use nest_microservices_tempo.Store.Rows.{step, Has, IsKeyed, execute_sound}
use nest_microservices_tempo.Inventory.{
  InventoryEntity, OrderItem, Inventories, reserve_update, initialize_inventory, adjust_inventory,
  adjust_test, adjust_set,
}
use nest_microservices_tempo.Inventory.Saga.{IsListed, IsListed-map}
use nest_microservices_tempo.Inventory.Ledger.{supply}

-- The statement of an adjustment.
abbrev adjust_update : RowUpdate OrderItem InventoryEntity
adjust_update = record {
  key = λ r. r.product_id;
  item_key = λ i. i.product_id;
  condition = λ i r. leb_ℤ (pos 0) (r.stock +ℤ i.quantity);
  set = λ i r. adjust_set i.quantity r;
  failure = λ i. Exception.error (Message.text "");
}

abbrev pub adjusted_row : ℕ → ℤ → InventoryEntity → InventoryEntity
adjusted_row p c = step adjust_update (supply p c)

pub adjusted_row-product :
    (p : ℕ) (c : ℤ) (r : InventoryEntity) → (adjusted_row p c r).product_id ≡ r.product_id
adjusted_row-product p c r = ground arith

find?_of_any :
    (p : ℕ) (t : Inventories)
    → any (λ r. r.product_id == p) t ≡ true
    → (r : InventoryEntity) × (find? (λ r. r.product_id == p) t ≡ some r)
find?_of_any p [] h = cc
find?_of_any p (r ∷ t) h = elim (Bool-cases (r.product_id == p)) [
  | inl e ↦ (r, rw e refl)
  | inr n ↦ let (q, found) = find?_of_any p t (rw n at h) in (q, rw n found)
]

-- An adjustment moves the stock of the product's row, or throws and moves nothing.
pub adjust_cases :
    (p : ℕ) (c : ℤ) (t : Inventories)
    → IsKeyed reserve_update t
    → ((e : Exception) × (adjust_inventory p c t ≡ (err e, t)))
      ⊎ ((r : InventoryEntity) × Has reserve_update p t
          × (adjust_inventory p c t ≡ (ok r, map (adjusted_row p c) t)))
unfolding adjust_inventory
adjust_cases p c t keyed = elim (Bool-cases (affected (adjust_test p c) t == 0)) [
  | inl e ↦ inl (
    bad_request_exception (Message.about "Cannot adjust stock for product #." p)
        (AppErrorCode.inventory InventoryErrorCode.adjustment_failed),
    rw e refl,
  )
  | inr e ↦
      let done : execute adjust_update (supply p c) t
          ≡ ok (update_rows (adjust_test p c) (adjust_set c) t) =
        rw e refl in
      let (has, _, same) = execute_sound adjust_update (supply p c) t keyed done in
      let (has', _) =
        IsListed-map (adjusted_row p c) (supply p c ∷ []) t (adjusted_row-product p c) (has, tt) in
      let (r, found) = find?_of_any p (map (adjusted_row p c) t) has' in
      inr (r, has, rw (e, same, found) refl)
]

-- A new product's row comes last, or the product is there already and nothing changes.
pub initialize_cases :
    (id p : ℕ) (q : ℤ) (t : Inventories)
    → ((e : Exception) × (initialize_inventory id p q t ≡ (err e, t)))
      ⊎ ((any (λ r. r.product_id == p) t ≡ false)
          × (initialize_inventory id p q t ≡ (
            ok tt,
            t
                ++ record {
                  id = id;
                  product_id = p;
                  stock = q;
                  reserved_quantity = pos 0;
                  warehouse_location = none;
                }
                  ∷ [],
          )))
unfolding initialize_inventory
initialize_cases id p q t = elim (Bool-cases (any (λ r. r.product_id == p) t)) [
  | inl e ↦ inl (Exception.error (Message.text "duplicate key value"), rw e refl)
  | inr e ↦ inr (e, rw e refl)
]

pub IsListed-append :
    (items : List OrderItem) (t s : Inventories) → IsListed items t → IsListed items (t ++ s)
IsListed-append [] t s h = tt
IsListed-append (i ∷ is) t s h = (Has-append i.product_id t h.0, IsListed-append is t s h.1)
  where
    Has-append : (k : ℕ) (u : Inventories) → Has reserve_update k u → Has reserve_update k (u ++ s)
    Has-append k [] e = cc
    Has-append k (r ∷ u) e = ground (arith, Has-append k u)

pub Has-append_new :
    (k : ℕ) (t : Inventories) (s : InventoryEntity)
    → s.product_id ≡ k
    → Has reserve_update k (t ++ s ∷ [])
Has-append_new k [] s e = ground arith
Has-append_new k (r ∷ t) s e = ground (arith, Has-append_new k t s e)

pub All-unlisted :
    (p : ℕ) (t : Inventories)
    → any (λ r. r.product_id == p) t ≡ false
    → All (λ r. (r.product_id == p) ≡ false) t
All-unlisted p [] h = tt
All-unlisted p (r ∷ t) h = (ground arith, All-unlisted p t (ground arith))
