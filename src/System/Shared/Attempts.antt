-- ===== src/System/Shared/Attempts.antt =====
-- One attempt of each activity on the stocks, for an order whose items are free, held or sold.
use nest_microservices_tempo.Prelude.{
  ℕ, ◌≤◌, ◌<◌, ◌≡◌, refl, sym, ◌∙◌, ap, subst, List, [], ◌∷◌, arith,
}
use nest_microservices_tempo.Errors.{Result, ok, err}
use nest_microservices_tempo.Inventory.{
  OrderItem, Inventories, reserve_inventory, release_inventory, confirm_inventory,
  restore_inventory,
}
use nest_microservices_tempo.Inventory.Demand.{IsPositive}
use nest_microservices_tempo.Inventory.Ledger.{
  Booking, reserves, fails_to_reserve, releases, confirms, restores,
}
use nest_microservices_tempo.Inventory.Ledger.Kept.{IsKept, released, confirmed, restored}
use nest_microservices_tempo.Inventory.Ledger.Always.{Step-IsKept}
use nest_microservices_tempo.Order.Ids.{Present}
use nest_microservices_tempo.Workflow.Rules.{Ensures}
use nest_microservices_tempo.System.{stock_attempt}
use nest_microservices_tempo.System.Shared.{
  Tracked, rest_of, booking, ledger_of, noted, hold_booking, drop_booking, sell_booking,
  return_booking,
}
use nest_microservices_tempo.System.Shared.Bookings.{own-booking, own-rest_of, own-Takes, All-keep}
use nest_microservices_tempo.System.Shared.Steps.{FreshIds, Standing}

keeps_table :
    (h d : List Booking) (q : List OrderItem) (t t' : Inventories)
    → t ≡ t'
    → IsKept (record { table = t; held = h; sold = d; supplied = q })
    → IsKept (record { table = t'; held = h; sold = d; supplied = q })
keeps_table h d q t t' e k =
    subst (λ u. IsKept (record { table = u; held = h; sold = d; supplied = q })) e k

module _ {St : Type 0} where
  -- The order's items are neither held nor sold, or held, or sold.
  abbrev pub Free : ℕ → Tracked St → Type 0
  Free o = Standing o [] []

  abbrev pub Held : List OrderItem → ℕ → Tracked St → Type 0
  Held items o = Standing o (booking o items ∷ []) []

  abbrev pub Sold : List OrderItem → ℕ → Tracked St → Type 0
  Sold items o = Standing o [] (booking o items ∷ [])

module _ {St : Type 0} (o : ℕ) (items : List OrderItem) (positive : IsPositive items) where
  issued_id :
      (x : Tracked St)
      → FreshIds x.services
      → Present o x.services.orders
      → o ≤ x.services.order_seq
  issued_id x fresh (r, there) =
      let not_later : ¬ (x.services.order_seq < o) = λ later. cc (sym (fresh o later) ∙ there) in
      omega (arith, not_later)

  abbrev at :
      (Tracked St → Tracked St)
      → Tracked St
      → Result (Unit {0}) × Inventories
      → Result (Unit {0}) × Tracked St
  at f x (r, t) = elim r [
    | ok _ ↦ (ok tt, f (record x { services = record x.services { inventories = t } }))
    | err e ↦ (err e, record x { services = record x.services { inventories = t } })
  ]

  reserve_outcome_at :
      (x : Tracked St) (y : Result (Unit {0}) × Inventories)
      → reserve_inventory o items x.services.inventories ≡ y
      → Free o x
      → Ensures (Free o) (λ _. Held items o) (at (hold_booking o items) x y)
  reserve_outcome_at x (ok _, t) e free =
      let done : (reserve_inventory o items x.services.inventories).0 ≡ ok tt = ap (λ z. z.0) e in
      let same : (reserve_inventory o items x.services.inventories).1 ≡ t = ap (λ z. z.1) e in
      record {
        sound = record {
          kept =
              keeps_table _ _ _ _ _ same
                (Step-IsKept (reserves (booking o items) positive done) free.sound.kept);
          held_issued = (issued_id x free.sound.fresh free.present, free.sound.held_issued);
          sold_issued = free.sound.sold_issued;
          fresh = free.sound.fresh;
        };
        present = free.present;
        held = own-booking o items x.held free.held;
        sold = free.sold;
      }
  reserve_outcome_at x (err z, t) e free =
      let thrown : (reserve_inventory o items x.services.inventories).0 ≡ err z = ap (λ w. w.0) e in
      let same : (reserve_inventory o items x.services.inventories).1 ≡ t = ap (λ w. w.1) e in
      record {
        sound = record {
          kept =
              keeps_table _ _ _ _ _ same
                (Step-IsKept (fails_to_reserve (booking o items) z thrown) free.sound.kept);
          held_issued = free.sound.held_issued;
          sold_issued = free.sound.sold_issued;
          fresh = free.sound.fresh;
        };
        present = free.present;
        held = free.held;
        sold = free.sold;
      }

  pub reserve_attempt :
      (x : Tracked St)
      → Free o x
      → Ensures
          (Free o)
          (λ _. Held items o)
          (noted (hold_booking o items) (stock_attempt reserve_inventory o items) x)
  reserve_attempt x free =
      reserve_outcome_at x (reserve_inventory o items x.services.inventories) refl free

  settled :
      (P : Tracked St → Type 0) (f : Tracked St → Tracked St) (x : Tracked St)
      (y : Result (Unit {0}) × Inventories) (t : Inventories)
      → y ≡ (ok tt, t)
      → P (f (record x { services = record x.services { inventories = t } }))
      → Ensures (λ _. ⊥) (λ _. P) (at f x y)
  settled P f x y t e h = subst (λ z. Ensures (λ _. ⊥) (λ _. P) (at f x z)) (sym e) h

  pub release_attempt :
      (x : Tracked St)
      → Held items o x
      → Ensures
          (λ _. ⊥)
          (λ _. Free o)
          (noted (drop_booking o) (stock_attempt release_inventory o items) x)
  release_attempt x st =
      let tk = own-Takes o (booking o items) x.held st.held in
      let done = released (ledger_of x) st.sound.kept (booking o items) (rest_of o x.held) tk in
      let kept = Step-IsKept (releases (booking o items) (rest_of o x.held) tk) st.sound.kept in
      settled (Free o) (drop_booking o) x _ _ done (record {
        sound = record {
          kept = keeps_table _ _ _ _ _ (ap (λ z. z.1) done) kept;
          held_issued = All-keep _ _ x.held st.sound.held_issued;
          sold_issued = st.sound.sold_issued;
          fresh = st.sound.fresh;
        };
        present = st.present;
        held = own-rest_of o x.held;
        sold = st.sold;
      })

  pub confirm_attempt :
      (x : Tracked St)
      → Held items o x
      → Ensures
          (λ _. ⊥)
          (λ _. Sold items o)
          (noted (sell_booking o items) (stock_attempt confirm_inventory o items) x)
  confirm_attempt x st =
      let tk = own-Takes o (booking o items) x.held st.held in
      let done = confirmed (ledger_of x) st.sound.kept (booking o items) (rest_of o x.held) tk in
      let kept = Step-IsKept (confirms (booking o items) (rest_of o x.held) tk) st.sound.kept in
      settled (Sold items o) (sell_booking o items) x _ _ done (record {
        sound = record {
          kept = keeps_table _ _ _ _ _ (ap (λ z. z.1) done) kept;
          held_issued = All-keep _ _ x.held st.sound.held_issued;
          sold_issued = (issued_id x st.sound.fresh st.present, st.sound.sold_issued);
          fresh = st.sound.fresh;
        };
        present = st.present;
        held = own-rest_of o x.held;
        sold = own-booking o items x.sold st.sold;
      })

  pub restore_attempt :
      (x : Tracked St)
      → Sold items o x
      → Ensures
          (λ _. ⊥)
          (λ _. Free o)
          (noted (return_booking o) (stock_attempt restore_inventory o items) x)
  restore_attempt x st =
      let tk = own-Takes o (booking o items) x.sold st.sold in
      let done = restored (ledger_of x) st.sound.kept (booking o items) (rest_of o x.sold) tk in
      let kept = Step-IsKept (restores (booking o items) (rest_of o x.sold) tk) st.sound.kept in
      settled (Free o) (return_booking o) x _ _ done (record {
        sound = record {
          kept = keeps_table _ _ _ _ _ (ap (λ z. z.1) done) kept;
          held_issued = st.sound.held_issued;
          sold_issued = All-keep _ _ x.sold st.sound.sold_issued;
          fresh = st.sound.fresh;
        };
        present = st.present;
        held = st.held;
        sold = own-rest_of o x.sold;
      })
