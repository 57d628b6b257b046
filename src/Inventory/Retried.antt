-- ===== src/Inventory/Retried.antt =====
-- A reservation that is attempted again after it has been committed.
use nest_microservices_tempo.Prelude.{ℕ, ◌≡◌, refl, List, ap, inl, inr}
use nest_microservices_tempo.Errors.{ok}
use nest_microservices_tempo.Inventory.{
  OrderItem, Inventories, reserve_inventory, release_inventory,
}
use nest_microservices_tempo.Inventory.Demand.{IsPositive}
use nest_microservices_tempo.Inventory.Saga.{
  IsValid, IsAvailable, hold, reserve_outcome, release-reserve,
}
use nest_microservices_tempo.Inventory.Sound.{activities-IsValid}

module _ (o : ℕ) (items : List OrderItem) (p : IsPositive items) where
  reserved :
      (t : Inventories)
      → IsValid t
      → IsAvailable items t
      → reserve_inventory o items t ≡ (ok tt, hold items t)
  reserved t v a = elim (reserve_outcome o items t v p) [
    | inl (_, e) ↦ e
    | inr (n, _) ↦ absurd (n a)
  ]

  hold-IsValid : (t : Inventories) → IsValid t → IsAvailable items t → IsValid (hold items t)
  hold-IsValid t v a = rw (reserved t v a) at (activities-IsValid o items t v p).0

  -- On a valid table and for quantities that are not negative, which the program does not enforce:
  -- a reservation has nothing to tell by that it has been made. Attempted again, as Temporal does
  -- where the answer to the first attempt is lost, it holds the items a second time, if they are
  -- there; and the one release by which the saga compensates leaves them held once.
  pub release-reserve-reserve :
      (t : Inventories)
      → IsValid t
      → IsAvailable items t
      → IsAvailable items (hold items t)
      → let (first, t') = reserve_inventory o items t in
        let (second, t'') = reserve_inventory o items t' in
        (first ≡ ok tt)
        × (second ≡ ok tt)
        × (t'' ≡ hold items (hold items t))
        × (release_inventory o items t'' ≡ (ok tt, hold items t))
  release-reserve-reserve t v a a' =
      let v' = hold-IsValid t v a in
      let again = reserved (hold items t) v' a' in
      let back = release-reserve o items (hold items t) v' p (ap (λ x. x.0) again) in
      rw (reserved t v a, again) (refl, refl, refl, rw again at back)
