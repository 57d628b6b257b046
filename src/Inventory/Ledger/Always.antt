-- ===== src/Inventory/Ledger/Always.antt =====
-- Every step of the ledger keeps its books, and so every run does.
use nest_microservices_tempo.Prelude.{
  ℕ, ℤ, pos, ◌+ℤ◌, ◌-ℤ◌, int_laws, ◌≡◌, refl, ap, sym, subst, none, ◌∙◌, List, ◌∷◌, All-imp,
  All-zip, any, false, ◌==◌, inl, inr, Bool-cases, ==-self,
}
use nest_microservices_tempo.Errors.{Exception, ok, err}
use nest_microservices_tempo.Inventory.{
  InventoryEntity, reserve_inventory, release_inventory, confirm_inventory, restore_inventory,
  initialize_inventory, adjust_inventory,
}
use nest_microservices_tempo.Inventory.Demand.{demand, IsPositive}
use nest_microservices_tempo.Inventory.Saga.{IsListed}
use nest_microservices_tempo.Inventory.Sound.{IsKeyed-append, All-append}
use nest_microservices_tempo.Inventory.Ledger.{
  Booking, Ledger, Takes, booked, supply, Step, reserves, fails_to_reserve, releases, confirms,
  restores, initializes, fails_to_initialize, adjusts, fails_to_adjust, Reachable, empty, after,
  IsBalancedRow, IsBalanced,
}
use nest_microservices_tempo.Inventory.Ledger.Totals.{
  booked-Takes, All-Takes, demand-unlisted, booked-unlisted,
}
use nest_microservices_tempo.Inventory.Ledger.Rows.{released_row, confirmed_row, restored_row}
use nest_microservices_tempo.Inventory.Ledger.Supply.{
  adjusted_row, adjusted_row-product, adjust_cases, initialize_cases, IsListed-append,
  Has-append_new, All-unlisted,
}
use nest_microservices_tempo.Inventory.Ledger.Kept.{
  IsOpen, IsKept, IsKept-map, released, confirmed, restored, reserved_as, unreserved, same_table,
}

add_minus : (a b : ℤ) → (a +ℤ b) -ℤ a ≡ b
add_minus a b = omega int_laws

minus_add : (a b c : ℤ) → (a -ℤ b) -ℤ c ≡ a -ℤ (c +ℤ b)
minus_add a b c = omega int_laws

plus_back : (a b c : ℤ) → (a -ℤ (c +ℤ b)) +ℤ c ≡ a -ℤ b
plus_back a b c = omega int_laws

add_comm : (a b : ℤ) → a +ℤ b ≡ b +ℤ a
add_comm a b = omega int_laws

add_first : (a b c : ℤ) → (a -ℤ b) +ℤ c ≡ (c +ℤ a) -ℤ b
add_first a b c = omega int_laws

module _ (s : Ledger) (k : IsKept s) (b : Booking) where
  after_reserve :
      IsPositive b.items
      → (reserve_inventory b.order_id b.items s.table).0 ≡ ok tt
      → IsKept
          (record s { table = (reserve_inventory b.order_id b.items s.table).1; held = b ∷ s.held })
  after_reserve p e =
      let (listed, same) = reserved_as b.order_id b.items s.table k.keyed e in
      IsKept-map s _ k _ (λ r. refl) same
        (λ r h. (ap (λ z. z +ℤ demand r.product_id b.items) h.0 ∙ add_comm _ _, h.1))
        ((p, listed), k.held) k.sold k.supplied

  module _ (rest : List Booking) where
    after_release :
        Takes b s.held rest
        → IsKept
            (record s { table = (release_inventory b.order_id b.items s.table).1; held = rest })
    after_release tk =
        IsKept-map s _ k (released_row b.items) (λ r. refl) (ap (λ q. q.1) (released s k b rest tk))
          (λ r h. (
            ap (λ z. z -ℤ demand r.product_id b.items) (h.0 ∙ booked-Takes r.product_id tk)
                ∙ add_minus _ _,
            h.1,
          ))
          (All-Takes (IsOpen s.table) tk k.held).1 k.sold k.supplied

    after_confirm :
        Takes b s.held rest
        → IsKept (record s {
          table = (confirm_inventory b.order_id b.items s.table).1;
          held = rest;
          sold = b ∷ s.sold;
        })
    after_confirm tk =
        let (open_b, open_rest) = All-Takes (IsOpen s.table) tk k.held in
        IsKept-map s _ k (confirmed_row b.items) (λ r. refl)
          (ap (λ q. q.1) (confirmed s k b rest tk))
          (λ r h. (
            ap (λ z. z -ℤ demand r.product_id b.items) (h.0 ∙ booked-Takes r.product_id tk)
                ∙ add_minus _ _,
            ap (λ z. z -ℤ demand r.product_id b.items) h.1 ∙ minus_add _ _ _,
          ))
          open_rest (open_b, k.sold) k.supplied

    after_restore :
        Takes b s.sold rest
        → IsKept
            (record s { table = (restore_inventory b.order_id b.items s.table).1; sold = rest })
    after_restore tk =
        IsKept-map s _ k (restored_row b.items) (λ r. refl) (ap (λ q. q.1) (restored s k b rest tk))
          (λ r h. (
            h.0,
            ap (λ z. z +ℤ demand r.product_id b.items)
                  (h.1
                    ∙ ap (λ z. demand r.product_id s.supplied -ℤ z) (booked-Takes r.product_id tk))
                ∙ plus_back _ _ _,
          ))
          k.held (All-Takes (IsOpen s.table) tk k.sold).1 k.supplied

module _ (s : Ledger) (k : IsKept s) (p : ℕ) (q : ℤ) where
  -- The ledger with one more quantity supplied.
  abbrev grown : Ledger
  grown = record s { supplied = supply p q ∷ s.supplied }

  adjusted_balance :
      (r : InventoryEntity) → IsBalancedRow s r → IsBalancedRow grown (adjusted_row p q r)
  adjusted_balance r h = elim (Bool-cases (r.product_id == p)) [
    | inl e ↦
        let same : adjusted_row p q r ≡ record r { stock = r.stock +ℤ q } = rw e refl in
        subst (IsBalancedRow grown) (sym same) (h.0, rw e (ap (λ z. z +ℤ q) h.1 ∙ add_first _ _ _))
    | inr e ↦
        let same : adjusted_row p q r ≡ r = rw e refl in
        subst (IsBalancedRow grown) (sym same) (h.0, rw e h.1)
  ]

  after_adjust :
      (r : InventoryEntity)
      → (adjust_inventory p q s.table).0 ≡ ok r
      → IsKept (record s {
        table = (adjust_inventory p q s.table).1;
        supplied = supply p q ∷ s.supplied;
      })
  after_adjust r e = elim (adjust_cases p q s.table k.keyed) [
    | inl (x, failed) ↦ cc (ap (λ z. z.0) failed)
    | inr (r', has, done) ↦
        IsKept-map s _ k (adjusted_row p q) (adjusted_row-product p q) (ap (λ z. z.1) done)
          adjusted_balance k.held k.sold (has, k.supplied)
  ]

  not_adjusted :
      (x : Exception)
      → (adjust_inventory p q s.table).0 ≡ err x
      → (adjust_inventory p q s.table).1 ≡ s.table
  not_adjusted x e = elim (adjust_cases p q s.table k.keyed) [
    | inl (y, failed) ↦ ap (λ z. z.1) failed
    | inr (r', has, done) ↦ cc (ap (λ z. z.0) done)
  ]

  not_initialized :
      (id : ℕ) (x : Exception)
      → (initialize_inventory id p q s.table).0 ≡ err x
      → (initialize_inventory id p q s.table).1 ≡ s.table
  not_initialized id x e = elim (initialize_cases id p q s.table) [
    | inl (y, failed) ↦ ap (λ z. z.1) failed
    | inr (new, done) ↦ cc (ap (λ z. z.0) done)
  ]

  new_balance :
      (id : ℕ)
      → any (λ t. t.product_id == p) s.table ≡ false
      → IsBalancedRow grown (record {
        id = id;
        product_id = p;
        stock = q;
        reserved_quantity = pos 0;
        warehouse_location = none;
      })
  new_balance id new =
      let held : booked p s.held ≡ pos 0 =
        booked-unlisted p s.held s.table
          (All-imp (IsOpen s.table) (λ b. IsListed b.items s.table) (λ b h. h.1) s.held k.held)
          new in
      let sold : booked p s.sold ≡ pos 0 =
        booked-unlisted p s.sold s.table
          (All-imp (IsOpen s.table) (λ b. IsListed b.items s.table) (λ b h. h.1) s.sold k.sold)
          new in
      rw (held, sold, demand-unlisted p s.supplied s.table k.supplied new, ==-self p)
        (refl, omega int_laws)

  after_initialize :
      (id : ℕ)
      → (initialize_inventory id p q s.table).0 ≡ ok tt
      → IsKept (record s {
        table = (initialize_inventory id p q s.table).1;
        supplied = supply p q ∷ s.supplied;
      })
  after_initialize id e = elim (initialize_cases id p q s.table) [
    | inl (x, failed) ↦ cc (ap (λ z. z.0) failed)
    | inr (new, done) ↦ rw done (record {
      keyed = IsKeyed-append s.table _ new k.keyed;
      balanced =
          All-append (IsBalancedRow grown) s.table _
            (All-imp (λ r. IsBalancedRow s r × ((r.product_id == p) ≡ false)) _ (λ r h. rw h.1 h.0)
              s.table (All-zip (IsBalancedRow s) _ s.table k.balanced (All-unlisted p s.table new)))
            (new_balance id new);
      held =
          All-imp (IsOpen s.table) _ (λ b h. (h.0, IsListed-append b.items s.table _ h.1)) s.held
            k.held;
      sold =
          All-imp (IsOpen s.table) _ (λ b h. (h.0, IsListed-append b.items s.table _ h.1)) s.sold
            k.sold;
      supplied = (Has-append_new p s.table _ refl, IsListed-append s.supplied s.table _ k.supplied);
    })
  ]

pub Step-IsKept : {s s' : Ledger} → Step s s' → IsKept s → IsKept s'
Step-IsKept {s} (reserves b p e) k = after_reserve s k b p e
Step-IsKept {s} (fails_to_reserve b x e) k =
    same_table s _ (unreserved b.order_id b.items s.table x e) k
Step-IsKept {s} (releases b rest tk) k = after_release s k b rest tk
Step-IsKept {s} (confirms b rest tk) k = after_confirm s k b rest tk
Step-IsKept {s} (restores b rest tk) k = after_restore s k b rest tk
Step-IsKept {s} (initializes id p q e) k = after_initialize s k p q id e
Step-IsKept {s} (fails_to_initialize id p q x e) k =
    same_table s _ (not_initialized s k p q id x e) k
Step-IsKept {s} (adjusts p c r e) k = after_adjust s k p c r e
Step-IsKept {s} (fails_to_adjust p c x e) k = same_table s _ (not_adjusted s k p c x e) k

pub Reachable-IsKept : {s : Ledger} → Reachable s → IsKept s
Reachable-IsKept empty = record { keyed = tt; balanced = tt; held = tt; sold = tt; supplied = tt }
Reachable-IsKept (after r st) = Step-IsKept st (Reachable-IsKept r)

-- As long as no order that reserves has a negative quantity, which the program does not enforce:
-- whatever orders reserve, release, confirm and take back, in any order and however their steps
-- fall between one another's and between new products and adjustments, each row holds just what the
-- open bookings ask of its product, and its stock is what was supplied less what was sold. An order
-- releases, confirms or takes back only what it has booked.
pub Reachable-IsBalanced : {s : Ledger} → Reachable s → IsBalanced s
Reachable-IsBalanced r = (Reachable-IsKept r).balanced
