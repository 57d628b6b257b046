-- ===== src/Inventory/Ledger/Kept.antt =====
-- What holds of the stocks whatever the orders do between one another's steps.
use mathlib.Core.Path.{fun_ext}
use nest_microservices_tempo.Prelude.{
  ℕ, ◌≤ℤ◌, int_laws, ◌≡◌, refl, ap, sym, subst, ◌∙◌, List, map, All, All-imp, All-map, inl, inr,
}
use nest_microservices_tempo.Errors.{Exception, ok, err}
use nest_microservices_tempo.Store.{for_each, execute}
use nest_microservices_tempo.Store.Rows.{IsKeyed}
use nest_microservices_tempo.Store.Loops.{transaction_sound, transaction_cases}
use nest_microservices_tempo.Inventory.{
  InventoryEntity, OrderItem, Inventories, reserve_update, reserve_inventory, release_inventory,
  confirm_inventory, restore_inventory,
}
use nest_microservices_tempo.Inventory.Demand.{demand, IsPositive, run-reserve}
use nest_microservices_tempo.Inventory.Saga.{IsListed, IsListed-map, hold}
use nest_microservices_tempo.Inventory.Ledger.{Booking, Ledger, Takes, IsBalancedRow, IsBalanced}
use nest_microservices_tempo.Inventory.Ledger.Totals.{booked-Takes, All-Takes, booked_nonneg}
use nest_microservices_tempo.Inventory.Ledger.Rows.{
  IsKeyed-map, released_row, confirmed_row, restored_row, release_covered, confirm_covered,
  restore_listed,
}

abbrev pub IsOpen : Inventories → Booking → Type 0
IsOpen t b = IsPositive b.items × IsListed b.items t

pub record IsKept (s : Ledger) : Type 0 where
  pub keyed : IsKeyed reserve_update s.table
  pub balanced : IsBalanced s
  pub held : All (IsOpen s.table) s.held
  pub sold : All (IsOpen s.table) s.sold
  pub supplied : IsListed s.supplied s.table

-- The rows change, and the lists of bookings with them.
module _ (s s' : Ledger) (k : IsKept s) (f : InventoryEntity → InventoryEntity)
    (id : (r : InventoryEntity) → (f r).product_id ≡ r.product_id)
    (mapped : s'.table ≡ map f s.table) where
  IsOpen-map : (b : Booking) → IsOpen s.table b → IsOpen (map f s.table) b
  IsOpen-map b h = (h.0, IsListed-map f b.items s.table id h.1)

  pub IsKept-map :
      ((r : InventoryEntity) → IsBalancedRow s r → IsBalancedRow s' (f r))
      → All (IsOpen s.table) s'.held
      → All (IsOpen s.table) s'.sold
      → IsListed s'.supplied s.table
      → IsKept s'
  IsKept-map row h o u = record {
    keyed = subst (IsKeyed reserve_update) (sym mapped) (IsKeyed-map f s.table id k.keyed);
    balanced = subst (All (IsBalancedRow s')) (sym mapped) (
        All-map (IsBalancedRow s') f s.table
          (All-imp (IsBalancedRow s) (λ r. IsBalancedRow s' (f r)) row s.table k.balanced));
    held =
        subst (λ t. All (IsOpen t) s'.held) (sym mapped)
          (All-imp (IsOpen s.table) (IsOpen (map f s.table)) IsOpen-map s'.held h);
    sold =
        subst (λ t. All (IsOpen t) s'.sold) (sym mapped)
          (All-imp (IsOpen s.table) (IsOpen (map f s.table)) IsOpen-map s'.sold o);
    supplied =
        subst (λ t. IsListed s'.supplied t) (sym mapped) (IsListed-map f s'.supplied s.table id u);
  }

-- What a booking that is held asks for is held on every row.
module _ (s : Ledger) (k : IsKept s) (b : Booking) (rest : List Booking) where
  covered :
      Takes b s.held rest → All (λ r. demand r.product_id b.items ≤ℤ r.reserved_quantity) s.table
  covered tk =
      All-imp (IsBalancedRow s) (λ r. demand r.product_id b.items ≤ℤ r.reserved_quantity)
        (λ r h.
          subst (λ z. demand r.product_id b.items ≤ℤ z) (sym (h.0 ∙ booked-Takes r.product_id tk))
            (omega (
              int_laws,
              booked_nonneg r.product_id rest (
                  All-imp (IsOpen s.table) (λ c. IsPositive c.items) (λ c p. p.0) rest
                    (All-Takes (IsOpen s.table) tk k.held).1),
            )))
        s.table k.balanced

  pub released :
      Takes b s.held rest
      → release_inventory b.order_id b.items s.table ≡ (ok tt, map (released_row b.items) s.table)
  released tk =
      let (open_b, _) = All-Takes (IsOpen s.table) tk k.held in
      release_covered b.order_id b.items s.table open_b.1 open_b.0 (covered tk)

  pub confirmed :
      Takes b s.held rest
      → confirm_inventory b.order_id b.items s.table ≡ (ok tt, map (confirmed_row b.items) s.table)
  confirmed tk =
      let (open_b, _) = All-Takes (IsOpen s.table) tk k.held in
      confirm_covered b.order_id b.items s.table open_b.1 open_b.0 (covered tk)

  pub restored :
      Takes b s.sold rest
      → restore_inventory b.order_id b.items s.table ≡ (ok tt, map (restored_row b.items) s.table)
  restored tk =
      let (open_b, _) = All-Takes (IsOpen s.table) tk k.sold in
      restore_listed b.order_id b.items s.table open_b.1

pub reserved_as :
    (o : ℕ) (items : List OrderItem) (t : Inventories)
    → IsKeyed reserve_update t
    → (reserve_inventory o items t).0 ≡ ok tt
    → IsListed items t × ((reserve_inventory o items t).1 ≡ hold items t)
unfolding reserve_inventory
reserved_as o items t keyed e =
    let (fits, same) = transaction_sound reserve_update (λ i r. refl) items t keyed e in
    (fits.listed, same ∙ ap (λ f. map f t) (fun_ext (run-reserve items)))

pub unreserved :
    (o : ℕ) (items : List OrderItem) (t : Inventories) (x : Exception)
    → (reserve_inventory o items t).0 ≡ err x
    → (reserve_inventory o items t).1 ≡ t
unfolding reserve_inventory
unreserved o items t x e = elim (transaction_cases (for_each (execute reserve_update) items) t) [
  | inl y ↦ cc
  | inr (z, y) ↦ ap (λ q. q.1) y
]

pub same_table :
    (s : Ledger) (t : Inventories) → t ≡ s.table → IsKept s → IsKept (record s { table = t })
same_table s t e k = record {
  keyed = subst (IsKeyed reserve_update) (sym e) k.keyed;
  balanced = subst (All (IsBalancedRow s)) (sym e) k.balanced;
  held = subst (λ u. All (IsOpen u) s.held) (sym e) k.held;
  sold = subst (λ u. All (IsOpen u) s.sold) (sym e) k.sold;
  supplied = subst (λ u. IsListed s.supplied u) (sym e) k.supplied;
}
