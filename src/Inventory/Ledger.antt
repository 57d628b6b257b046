-- ===== src/Inventory/Ledger.antt =====
-- The stocks under any number of orders at once: the activities of their sagas (activity/*.ts) in any
-- order, with new products and adjustments between them (inventory-service.service.ts). The ledger
-- lists what the orders hold, what they bought, and what was supplied; the code keeps no such list.
pub mod Totals
pub mod Rows
pub mod Supply
pub mod Kept
pub mod Always
pub mod Tests
use nest_microservices_tempo.Prelude.{ℕ, ℤ, pos, ◌+ℤ◌, ◌-ℤ◌, ◌≡◌, List, [], ◌∷◌, All}
use nest_microservices_tempo.Errors.{Exception, ok, err}
use nest_microservices_tempo.Inventory.{
  InventoryEntity, OrderItem, Inventories, reserve_inventory, release_inventory, confirm_inventory,
  restore_inventory, initialize_inventory, adjust_inventory,
}
use nest_microservices_tempo.Inventory.Demand.{demand, IsPositive}

pub record Booking : Type 0 where
  pub order_id : ℕ
  pub items : List OrderItem

pub record Ledger : Type 0 where
  pub table : Inventories
  pub held : List Booking
  pub sold : List Booking
  pub supplied : List OrderItem

-- The list without one of its bookings.
pub data Takes (b : Booking) : List Booking → List Booking → Type 0 where
  here : {l : List Booking} → Takes b (b ∷ l) l
  there : {c : Booking} {l l' : List Booking} → Takes b l l' → Takes b (c ∷ l) (c ∷ l')

-- What bookings ask of a product, in all.
abbrev pub booked : ℕ → List Booking → ℤ
booked p [] = pos 0
booked p (b ∷ bs) = demand p b.items +ℤ booked p bs

abbrev pub supply : ℕ → ℤ → OrderItem
supply p q = record { product_id = p; quantity = q }

-- One call, whatever its outcome. An order releases, or confirms, what it holds, and takes back what it
-- bought; the booking leaves its list whether or not the call succeeds.
pub data Step (s : Ledger) : Ledger → Type 0 where
  reserves :
      (b : Booking)
      → IsPositive b.items
      → (reserve_inventory b.order_id b.items s.table).0 ≡ ok tt
      → Step s
          (record s { table = (reserve_inventory b.order_id b.items s.table).1; held = b ∷ s.held })
  fails_to_reserve :
      (b : Booking) (e : Exception)
      → (reserve_inventory b.order_id b.items s.table).0 ≡ err e
      → Step s (record s { table = (reserve_inventory b.order_id b.items s.table).1 })
  releases :
      (b : Booking) (rest : List Booking)
      → Takes b s.held rest
      → Step s (record s { table = (release_inventory b.order_id b.items s.table).1; held = rest })
  confirms :
      (b : Booking) (rest : List Booking)
      → Takes b s.held rest
      → Step s (record s {
        table = (confirm_inventory b.order_id b.items s.table).1;
        held = rest;
        sold = b ∷ s.sold;
      })
  restores :
      (b : Booking) (rest : List Booking)
      → Takes b s.sold rest
      → Step s (record s { table = (restore_inventory b.order_id b.items s.table).1; sold = rest })
  initializes :
      (id p : ℕ) (q : ℤ)
      → (initialize_inventory id p q s.table).0 ≡ ok tt
      → Step s (record s {
        table = (initialize_inventory id p q s.table).1;
        supplied = supply p q ∷ s.supplied;
      })
  fails_to_initialize :
      (id p : ℕ) (q : ℤ) (e : Exception)
      → (initialize_inventory id p q s.table).0 ≡ err e
      → Step s (record s { table = (initialize_inventory id p q s.table).1 })
  adjusts :
      (p : ℕ) (c : ℤ) (r : InventoryEntity)
      → (adjust_inventory p c s.table).0 ≡ ok r
      → Step s (record s {
        table = (adjust_inventory p c s.table).1;
        supplied = supply p c ∷ s.supplied;
      })
  fails_to_adjust :
      (p : ℕ) (c : ℤ) (e : Exception)
      → (adjust_inventory p c s.table).0 ≡ err e
      → Step s (record s { table = (adjust_inventory p c s.table).1 })

abbrev pub empty_ledger : Ledger
empty_ledger = record { table = []; held = []; sold = []; supplied = [] }

pub data Reachable : Ledger → Type 0 where
  empty : Reachable empty_ledger
  after : {s s' : Ledger} → Reachable s → Step s s' → Reachable s'

-- What a row says is what the bookings add up to.
abbrev pub IsBalancedRow : Ledger → InventoryEntity → Type 0
IsBalancedRow s r =
    (r.reserved_quantity ≡ booked r.product_id s.held)
    × (r.stock ≡ demand r.product_id s.supplied -ℤ booked r.product_id s.sold)

abbrev pub IsBalanced : Ledger → Type 0
IsBalanced s = All (IsBalancedRow s) s.table
