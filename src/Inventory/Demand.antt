-- ===== src/Inventory/Demand.antt =====
-- What a list of items asks of one row of the stocks, and what each activity does to the row.
use nest_microservices_tempo.Prelude.{
  ℕ, ℤ, pos, ◌+ℤ◌, ◌-ℤ◌, ◌≤ℤ◌, leb_ℤ, leb_ℤ→le, le→leb_ℤ, int_laws, ◌≡◌, refl, ap, ap₂, sym, ◌∙◌,
  true, ◌&&◌, List, [], ◌∷◌, arith, ◌==◌, if◌then◌else◌, All, inl, inr, Bool-cases, and_intro,
  and_elim,
}
use nest_microservices_tempo.Store.Rows.{run, passes}
use nest_microservices_tempo.Inventory.{
  InventoryEntity, OrderItem, reserve_update, release_update, confirm_update, restore_update,
}

-- The quantity that the items ask of a product, in all.
abbrev pub demand : ℕ → List OrderItem → ℤ
demand p [] = pos 0
demand p (i ∷ is) = if p == i.product_id then i.quantity +ℤ demand p is else demand p is

abbrev pub IsPositive : List OrderItem → Type 0
IsPositive is = All (λ i. pos 0 ≤ℤ i.quantity) is

-- The row with both numbers moved.
abbrev pub moved : ℤ → ℤ → InventoryEntity → InventoryEntity
moved s h r = record r { stock = s; reserved_quantity = h }

pub demand_nonneg : (p : ℕ) (is : List OrderItem) → IsPositive is → pos 0 ≤ℤ demand p is
demand_nonneg p [] h = omega arith
demand_nonneg p (i ∷ is) h = elim (Bool-cases (p == i.product_id)) [
  | inl e ↦ rw e (omega (int_laws, demand_nonneg p is h.1))
  | inr e ↦ rw e (demand_nonneg p is h.1)
]

+ℤ_zero : (a : ℤ) → a +ℤ pos 0 ≡ a
+ℤ_zero a = omega int_laws

-ℤ_zero : (a : ℤ) → a -ℤ pos 0 ≡ a
-ℤ_zero a = omega int_laws

pub run-reserve :
    (is : List OrderItem) (r : InventoryEntity)
    → run reserve_update is r
      ≡ record r { reserved_quantity = r.reserved_quantity +ℤ demand r.product_id is }
run-reserve [] r = ap (λ z. record r { reserved_quantity = z }) (sym (+ℤ_zero r.reserved_quantity))
run-reserve (i ∷ is) r = elim (Bool-cases (r.product_id == i.product_id)) [
  | inl e ↦ rw e (
      run-reserve is (reserve_update.set i r)
      ∙ ap (λ z. record r { reserved_quantity = z }) (omega int_laws))
  | inr e ↦ rw e (run-reserve is r)
]

pub run-release :
    (is : List OrderItem) (r : InventoryEntity)
    → run release_update is r
      ≡ record r { reserved_quantity = r.reserved_quantity -ℤ demand r.product_id is }
run-release [] r = ap (λ z. record r { reserved_quantity = z }) (sym (-ℤ_zero r.reserved_quantity))
run-release (i ∷ is) r = elim (Bool-cases (r.product_id == i.product_id)) [
  | inl e ↦ rw e (
      run-release is (release_update.set i r)
      ∙ ap (λ z. record r { reserved_quantity = z }) (omega int_laws))
  | inr e ↦ rw e (run-release is r)
]

pub run-restore :
    (o : ℕ) (is : List OrderItem) (r : InventoryEntity)
    → run (restore_update o) is r ≡ record r { stock = r.stock +ℤ demand r.product_id is }
run-restore o [] r = ap (λ z. record r { stock = z }) (sym (+ℤ_zero r.stock))
run-restore o (i ∷ is) r = elim (Bool-cases (r.product_id == i.product_id)) [
  | inl e ↦ rw e (
      run-restore o is ((restore_update o).set i r)
      ∙ ap (λ z. record r { stock = z }) (omega int_laws))
  | inr e ↦ rw e (run-restore o is r)
]

pub run-confirm :
    (is : List OrderItem) (r : InventoryEntity)
    → run confirm_update is r
      ≡ moved (r.stock -ℤ demand r.product_id is) (r.reserved_quantity -ℤ demand r.product_id is) r
run-confirm [] r =
    ap₂ (λ s h. moved s h r) (sym (-ℤ_zero r.stock)) (sym (-ℤ_zero r.reserved_quantity))
run-confirm (i ∷ is) r = elim (Bool-cases (r.product_id == i.product_id)) [
  | inl e ↦ rw e (
      run-confirm is (confirm_update.set i r)
      ∙ ap₂ (λ s h. moved s h r) (omega int_laws) (omega int_laws))
  | inr e ↦ rw e (run-confirm is r)
]

-- A row admits the items exactly when what they ask in all is there.
pub passes-reserve :
    (is : List OrderItem) (r : InventoryEntity)
    → IsPositive is
    → r.reserved_quantity +ℤ demand r.product_id is ≤ℤ r.stock
    → passes reserve_update is r ≡ true
passes-reserve [] r p h = refl
passes-reserve (i ∷ is) r p h = elim (Bool-cases (r.product_id == i.product_id)) [
  | inl e ↦
      let h' = rw e at h in
      rw e (
        and_intro
          (le→leb_ℤ i.quantity (r.stock -ℤ r.reserved_quantity)
            (omega (int_laws, demand_nonneg r.product_id is p.1)))
          (passes-reserve is (reserve_update.set i r) p.1 (omega int_laws)))
  | inr e ↦ let h' = rw e at h in rw e (passes-reserve is r p.1 h')
]

pub passes-reserve_sound :
    (is : List OrderItem) (r : InventoryEntity)
    → r.reserved_quantity ≤ℤ r.stock
    → passes reserve_update is r ≡ true
    → r.reserved_quantity +ℤ demand r.product_id is ≤ℤ r.stock
passes-reserve_sound [] r p h = omega int_laws
passes-reserve_sound (i ∷ is) r p h = elim (Bool-cases (r.product_id == i.product_id)) [
  | inl e ↦
      let h' : (leb_ℤ i.quantity (r.stock -ℤ r.reserved_quantity)
            && passes reserve_update is (reserve_update.set i r))
          ≡ true =
        rw e at h in
      let (here, later) = and_elim _ _ h' in
      let fits : i.quantity ≤ℤ (r.stock -ℤ r.reserved_quantity) =
        leb_ℤ→le i.quantity (r.stock -ℤ r.reserved_quantity) here in
      rw e
        (omega (int_laws, passes-reserve_sound is (reserve_update.set i r) (omega int_laws) later))
  | inr e ↦ rw e (passes-reserve_sound is r p (rw e at h))
]

pub passes-release :
    (is : List OrderItem) (r : InventoryEntity)
    → IsPositive is
    → demand r.product_id is ≤ℤ r.reserved_quantity
    → passes release_update is r ≡ true
passes-release [] r p h = refl
passes-release (i ∷ is) r p h = elim (Bool-cases (r.product_id == i.product_id)) [
  | inl e ↦
      let h' = rw e at h in
      rw e (
        and_intro
          (le→leb_ℤ i.quantity r.reserved_quantity
            (omega (int_laws, demand_nonneg r.product_id is p.1)))
          (passes-release is (release_update.set i r) p.1 (omega int_laws)))
  | inr e ↦ let h' = rw e at h in rw e (passes-release is r p.1 h')
]

pub passes-release_sound :
    (is : List OrderItem) (r : InventoryEntity)
    → pos 0 ≤ℤ r.reserved_quantity
    → passes release_update is r ≡ true
    → demand r.product_id is ≤ℤ r.reserved_quantity
passes-release_sound [] r p h = omega arith
passes-release_sound (i ∷ is) r p h = elim (Bool-cases (r.product_id == i.product_id)) [
  | inl e ↦
      let h' : (leb_ℤ i.quantity r.reserved_quantity
            && passes release_update is (release_update.set i r))
          ≡ true =
        rw e at h in
      let (here, later) = and_elim _ _ h' in
      let fits : i.quantity ≤ℤ r.reserved_quantity = leb_ℤ→le i.quantity r.reserved_quantity here in
      rw e
        (omega (int_laws, passes-release_sound is (release_update.set i r) (omega int_laws) later))
  | inr e ↦ rw e (passes-release_sound is r p (rw e at h))
]

pub passes-confirm :
    (is : List OrderItem) (r : InventoryEntity)
    → IsPositive is
    → demand r.product_id is ≤ℤ r.reserved_quantity
    → passes confirm_update is r ≡ true
passes-confirm [] r p h = refl
passes-confirm (i ∷ is) r p h = elim (Bool-cases (r.product_id == i.product_id)) [
  | inl e ↦
      let h' = rw e at h in
      rw e (
        and_intro
          (le→leb_ℤ i.quantity r.reserved_quantity
            (omega (int_laws, demand_nonneg r.product_id is p.1)))
          (passes-confirm is (confirm_update.set i r) p.1 (omega int_laws)))
  | inr e ↦ let h' = rw e at h in rw e (passes-confirm is r p.1 h')
]

pub passes-confirm_sound :
    (is : List OrderItem) (r : InventoryEntity)
    → pos 0 ≤ℤ r.reserved_quantity
    → passes confirm_update is r ≡ true
    → demand r.product_id is ≤ℤ r.reserved_quantity
passes-confirm_sound [] r p h = omega arith
passes-confirm_sound (i ∷ is) r p h = elim (Bool-cases (r.product_id == i.product_id)) [
  | inl e ↦
      let h' : (leb_ℤ i.quantity r.reserved_quantity
            && passes confirm_update is (confirm_update.set i r))
          ≡ true =
        rw e at h in
      let (here, later) = and_elim _ _ h' in
      let fits : i.quantity ≤ℤ r.reserved_quantity = leb_ℤ→le i.quantity r.reserved_quantity here in
      rw e
        (omega (int_laws, passes-confirm_sound is (confirm_update.set i r) (omega int_laws) later))
  | inr e ↦ rw e (passes-confirm_sound is r p (rw e at h))
]

pub passes-restore :
    (o : ℕ) (is : List OrderItem) (r : InventoryEntity) → passes (restore_update o) is r ≡ true
passes-restore o [] r = refl
passes-restore o (i ∷ is) r = elim (Bool-cases (r.product_id == i.product_id)) [
  | inl e ↦ rw e (passes-restore o is ((restore_update o).set i r))
  | inr e ↦ rw e (passes-restore o is r)
]
