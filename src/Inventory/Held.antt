-- ===== src/Inventory/Held.antt =====
-- The activities on a table in which the items of an order are held, or sold.
use nest_microservices_tempo.Prelude.{ℕ, ◌≡◌, List}
use nest_microservices_tempo.Errors.{ok}
use nest_microservices_tempo.Inventory.{
  OrderItem, Inventories, reserve_inventory, release_inventory, confirm_inventory,
  restore_inventory,
}
use nest_microservices_tempo.Inventory.Demand.{IsPositive}
use nest_microservices_tempo.Inventory.Saga.{
  IsValid, IsAvailable, hold, sell, reserve_exact, release-reserve, confirm-reserve,
  restore-confirm-reserve,
}

module _ (o : ℕ) (items : List OrderItem) (t : Inventories) (v : IsValid t) (p : IsPositive items)
    (a : IsAvailable items t) where
  pub held_is : (reserve_inventory o items t).1 ≡ hold items t
  held_is = let (_, held, _) = reserve_exact o items t v p in held a

  pub went_through : (reserve_inventory o items t).0 ≡ ok tt
  went_through = let (okay, _, _) = reserve_exact o items t v p in okay.1 a

  pub confirm_is : confirm_inventory o items (hold items t) ≡ (ok tt, sell items t)
  confirm_is = rw held_is at (confirm-reserve o items t v p went_through)

  pub release_is : release_inventory o items (hold items t) ≡ (ok tt, t)
  release_is = rw held_is at (release-reserve o items t v p went_through)

  pub restore_is : restore_inventory o items (sell items t) ≡ (ok tt, t)
  restore_is = rw (held_is, confirm_is) at (restore-confirm-reserve o items t v p went_through)
