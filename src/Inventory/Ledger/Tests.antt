-- ===== src/Inventory/Ledger/Tests.antt =====
-- A run of the stocks with two orders whose steps fall between one another's.
use nest_microservices_tempo.Prelude.{pos, ◌-ℤ◌, ◌+ℤ◌, negsuc, refl, [], ◌∷◌, arith}
use nest_microservices_tempo.Inventory.{
  Inventories, reserve_inventory, confirm_inventory, initialize_inventory, adjust_inventory,
}
use nest_microservices_tempo.Inventory.Ledger.{
  Booking, Ledger, here, there, reserves, confirms, initializes, adjusts, Reachable, empty, after,
  IsBalanced,
}
use nest_microservices_tempo.Inventory.Ledger.Always.{Reachable-IsBalanced}

abbrev first_order : Booking
first_order = record { order_id = 1; items = record { product_id = 7; quantity = pos 2 } ∷ [] }

abbrev second_order : Booking
second_order = record {
  order_id = 2;
  items =
      record { product_id = 7; quantity = pos 3 }
      ∷ record { product_id = 8; quantity = pos 1 }
      ∷ [];
}

abbrev two_products : Inventories
two_products = (initialize_inventory 2 8 (pos 4) (initialize_inventory 1 7 (pos 6) []).1).1

abbrev both_held : Inventories
both_held =
    (reserve_inventory 2 second_order.items
      (reserve_inventory 1 first_order.items two_products).1).1

-- Both orders hold their items; the first buys, and the stock of product 7 is adjusted.
abbrev interleaved : Ledger
interleaved = record {
  table = (adjust_inventory 7 (negsuc 0) (confirm_inventory 1 first_order.items both_held).1).1;
  held = second_order ∷ [];
  sold = first_order ∷ [];
  supplied =
      record { product_id = 7; quantity = negsuc 0 }
      ∷ record { product_id = 8; quantity = pos 4 }
      ∷ record { product_id = 7; quantity = pos 6 }
      ∷ [];
}

interleaved-Reachable : Reachable interleaved
unfolding initialize_inventory reserve_inventory confirm_inventory adjust_inventory ◌-ℤ◌ ◌+ℤ◌
interleaved-Reachable =
    after
      (after
        (after
          (after (after (after empty (initializes 1 7 (pos 6) refl)) (initializes 2 8 (pos 4) refl))
            (reserves first_order (omega arith) refl))
          (reserves second_order (omega arith) refl))
        (confirms first_order (second_order ∷ []) (there here)))
      (adjusts 7 (negsuc 0) _ refl)

Reachable-IsBalanced_example : IsBalanced interleaved
Reachable-IsBalanced_example = Reachable-IsBalanced interleaved-Reachable
