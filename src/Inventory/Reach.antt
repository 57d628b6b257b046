-- ===== src/Inventory/Reach.antt =====
-- The tables of stocks that come about: from the empty one, by activities of any orders in any order.
use nest_microservices_tempo.Prelude.{
  ℕ, ℤ, pos, ◌≤ℤ◌, ◌-ℤ◌, int_laws, ◌≡◌, refl, List, [], ◌∷◌, some, find?, ◌==◌, All, if◌then◌else◌,
  Bool-cases, inl, inr, subst, ap, leb_ℤ, leb_ℤ→le,
}
use nest_microservices_tempo.Errors.{ok}
use nest_microservices_tempo.Inventory.{
  InventoryEntity, OrderItem, Inventories, reserve_inventory, release_inventory, confirm_inventory,
  restore_inventory, initialize_inventory, get_available_stock,
}
use nest_microservices_tempo.Inventory.Demand.{IsPositive}
use nest_microservices_tempo.Inventory.Saga.{IsValid, IsSoundRow}
use nest_microservices_tempo.Inventory.Sound.{activities-IsValid, initialize-IsValid}

-- One activity, whether it succeeds or throws.
pub data Step : Inventories → Inventories → Type 0 where
  reserves :
      (o : ℕ) (items : List OrderItem) (t : Inventories)
      → IsPositive items
      → Step t (reserve_inventory o items t).1
  releases :
      (o : ℕ) (items : List OrderItem) (t : Inventories)
      → IsPositive items
      → Step t (release_inventory o items t).1
  confirms :
      (o : ℕ) (items : List OrderItem) (t : Inventories)
      → IsPositive items
      → Step t (confirm_inventory o items t).1
  restores :
      (o : ℕ) (items : List OrderItem) (t : Inventories)
      → IsPositive items
      → Step t (restore_inventory o items t).1
  initializes :
      (id p : ℕ) (q : ℤ) (t : Inventories) → pos 0 ≤ℤ q → Step t (initialize_inventory id p q t).1

pub data Reachable : Inventories → Type 0 where
  empty : Reachable []
  after : {t t' : Inventories} → Reachable t → Step t t' → Reachable t'

Step-IsValid : {t t' : Inventories} → Step t t' → IsValid t → IsValid t'
Step-IsValid (reserves o items t p) v = (activities-IsValid o items t v p).0
Step-IsValid (releases o items t p) v = (activities-IsValid o items t v p).1
Step-IsValid (confirms o items t p) v = (activities-IsValid o items t v p).2
Step-IsValid (restores o items t p) v = (activities-IsValid o items t v p).3
Step-IsValid (initializes id p q t h) v = (initialize-IsValid id p q t v h).0

Reachable-IsValid : {t : Inventories} → Reachable t → IsValid t
Reachable-IsValid empty = record { keyed = tt; sound = tt }
Reachable-IsValid (after r s) = Step-IsValid s (Reachable-IsValid r)

found_sound :
    (p : ℕ) (r : InventoryEntity) (t : Inventories)
    → All IsSoundRow t
    → find? (λ r. r.product_id == p) t ≡ some r
    → IsSoundRow r
found_sound p r [] h e = cc
found_sound p r (q ∷ t) h e = elim (Bool-cases (q.product_id == p)) [
  | inl y ↦
      let first : some q ≡ some r = rw y at e in
      let same : q ≡ r = cc first in subst IsSoundRow same h.0
  | inr n ↦ found_sound p r t h.1 (rw n at e)
]

not_clamped : (a : ℤ) → pos 0 ≤ℤ a → (if leb_ℤ a (pos 0) then pos 0 else a) ≡ a
not_clamped a h = elim (Bool-cases (leb_ℤ a (pos 0))) [
  | inl e ↦ let most = leb_ℤ→le a (pos 0) e in rw e (omega (int_laws, most, h))
  | inr e ↦ rw e refl
]

-- In every table that activities of any orders lead to, in any order, from the empty one, by quantities
-- that are not negative: a product has one row at most, no row holds more than is in stock, and what
-- getAvailableStock answers for a product is just its stock less what is held, which is not negative.
pub Reachable-available :
    {t : Inventories} (p : ℕ) (r : InventoryEntity)
    → Reachable t
    → find? (λ q. q.product_id == p) t ≡ some r
    → IsValid t
      × (get_available_stock p t ≡ ok (p, r.stock -ℤ r.reserved_quantity))
      × (pos 0 ≤ℤ (r.stock -ℤ r.reserved_quantity))
unfolding get_available_stock
Reachable-available {t} p r reach found =
    let v = Reachable-IsValid reach in
    let sound = found_sound p r t v.sound found in
    let free : pos 0 ≤ℤ (r.stock -ℤ r.reserved_quantity) = omega (int_laws, sound) in
    (v, rw found (ap (λ a. ok (p, a)) (not_clamped (r.stock -ℤ r.reserved_quantity) free)), free)
