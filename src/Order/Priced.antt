-- ===== src/Order/Priced.antt =====
-- The prices in the rows of a new order (createOrder in apps/order-service/src).
use nest_microservices_tempo.Prelude.{
  subst, ℕ, pos, int_laws, ◌≡◌, inl, inr, refl, ap, ◌∙◌, true, Option, none, some, List, [], ◌∷◌,
  map, all, Option-cases,
}
use nest_microservices_tempo.Inventory.{OrderItem}
use nest_microservices_tempo.Order.{
  CreateOrderDto, OrderItemEntity, OrderEntity, Orders, Prices, price_of, total_from, order_items,
  create_order, to_item, new_order,
}
use nest_microservices_tempo.Order.Laws.{
  with_id, with_id-append, has_price, amount, order_items-IsPriced,
}

-- The rows of an order's items are the items, each at its price.
abbrev pub IsPricedAt : Prices → List OrderItem → List OrderItemEntity → Type 0
IsPricedAt prices items rows =
    (map to_item rows ≡ items)
    × (map (λ (r : OrderItemEntity). some r.price) rows
        ≡ map (λ (i : OrderItem). price_of prices i.product_id) items)

rows_priced :
    (prices : Prices) (is : List OrderItem) (rows : List OrderItemEntity)
    → order_items prices is ≡ some rows
    → IsPricedAt prices is rows
rows_priced prices [] [] e = (refl, refl)
rows_priced prices [] (r ∷ rows) e = cc
rows_priced prices (i ∷ is) rows e = elim (Option-cases (price_of prices i.product_id)) [
  | inl n ↦ cc (rw (n, order_items) at e)
  | inr (c, h) ↦ elim (Option-cases (order_items prices is)) [
    | inl n ↦ cc (rw (h, n, order_items) at e)
    | inr (more, k) ↦
        let (same, priced) = rows_priced prices is more k in
        let row : OrderItemEntity = record {
          product_id = i.product_id;
          quantity = i.quantity;
          price = c;
        } in
        let found : some (row ∷ more) ≡ some rows = rw (h, k, order_items) at e in
        let is_rows : row ∷ more ≡ rows = cc in
        subst (IsPricedAt prices (i ∷ is)) is_rows
          (ap (λ l. i ∷ l) same, rw h (ap (λ l. some c ∷ l) priced))
  ]
]

-- The rows of a new order whose items all have a price have those prices.
pub create_order_rows :
    (id : ℕ) (dto : CreateOrderDto) (prices : Prices) (user : Option ℕ) (t : Orders)
    → with_id id t ≡ none
    → all (has_price prices) dto.items ≡ true
    → (q : OrderEntity) × (with_id id (create_order id dto prices user t).1 ≡ some q)
      × IsPricedAt prices dto.items q.items
unfolding create_order
create_order_rows id dto prices user t new h =
    let (rows, made, total, _) = order_items-IsPriced prices dto.items h in
    let q = new_order id dto user (amount prices dto.items) rows in
    let sum' : total_from prices (some (pos 0)) dto.items ≡ some (amount prices dto.items) =
      total (pos 0) ∙ ap some (omega int_laws) in
    (q, rw (made, sum') (with_id-append id t q new refl), rows_priced prices dto.items rows made)
