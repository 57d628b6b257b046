-- ===== src/Order/Tests.antt =====
-- The orders' operations at one table, and the theorems at it.
use nest_microservices_tempo.Prelude.{ℕ, pos, ◌≡◌, refl, true, none, [], ◌∷◌}
use nest_microservices_tempo.Errors.{err}
use nest_microservices_tempo.Order.{
  CreateOrderDto, CancelOrderDto, OrderEntity, Orders, pending, Prices, refused, create_order,
}
use nest_microservices_tempo.Order.Service.{Start}

abbrev old_order : OrderEntity
old_order = record {
  id = 4;
  user_id = none;
  status = pending;
  address = "1 Main Street";
  email = "a@b.c";
  payment_id = none;
  total_amount = pos 12;
  cancel_reason = none;
  items = [];
}

abbrev orders : Orders
orders = old_order ∷ []

abbrev dto : CreateOrderDto
dto = record {
  items =
      record { product_id = 7; quantity = pos 2 }
      ∷ record { product_id = 8; quantity = pos 1 }
      ∷ [];
  address = "1 Main Street";
  email = "a@b.c";
}

abbrev prices : Prices
prices = (7, pos 5) ∷ (8, pos 3) ∷ []

-- Without a price the order is refused.
unpriced : create_order 5 dto [] none orders ≡ (err refused, orders)
unfolding create_order
unpriced = refl

abbrev started : Start ℕ
started w id s = (record { success = true; error = none }, s)

abbrev request : CancelOrderDto
request = record { order_id = 4; cancel_reason = none }
