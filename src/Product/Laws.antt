-- ===== src/Product/Laws.antt =====
-- What the products' operations do: the products and prices of an order, and a partial update.
use nest_microservices_tempo.Prelude.{
  ℕ, Bool, true, false, Option, none, some, List, [], ◌∷◌, map, ◌≡◌, refl, ◌∙◌, arith, inl, inr,
  Bool-cases, Option-cases, all, find?,
}
use nest_microservices_tempo.Errors.{Result-cases, ok}
use nest_microservices_tempo.Store.{update_rows}
use nest_microservices_tempo.Inventory.{OrderItem}
use nest_microservices_tempo.Order.{
  CreateOrderDto, OrderEntity, Orders, create_order, get_order_total_amount,
}
use nest_microservices_tempo.Order.Priced.{IsPricedAt, create_order_rows}
use nest_microservices_tempo.Order.Laws.{has_price, amount, with_id, create_order_priced}
use nest_microservices_tempo.Product.{
  ProductEntity, Products, Metadata, UpdateProductDto, has_id, missing_ids, found_products,
  validate_products, get_product_prices, validate_metadata, merged, save_update, update_product,
  or_else, live_id,
}

is_priced :
    (rows : Products) (i : OrderItem)
    → has_price (map (λ r. (r.id, r.price)) rows) i ≡ has_id (map (λ r. r.id) rows) i.product_id
is_priced [] i = refl
is_priced (r ∷ rows) i = ground (arith, is_priced rows i)

none_missing :
    (rows : Products) (items : List OrderItem)
    → missing_ids (map (λ r. r.id) rows) (map (λ (i : OrderItem). i.product_id) items) ≡ []
    → all (has_price (map (λ r. (r.id, r.price)) rows)) items ≡ true
none_missing rows [] e = refl
none_missing rows (i ∷ items) e = elim (Bool-cases (has_id (map (λ r. r.id) rows) i.product_id)) [
  | inl h ↦ rw (is_priced rows i, h) (none_missing rows items (rw h at e))
  | inr h ↦ cc (rw h at e)
]

is_empty : (l : List ℕ) → (elim l [ [] ↦ true | i ∷ is ↦ false ]) ≡ true → l ≡ []
is_empty [] e = refl
is_empty (i ∷ is) e = cc

abbrev pub product_ids : List OrderItem → List ℕ
product_ids items = map (λ (i : OrderItem). i.product_id) items

validate_products-has_price :
    (items : List OrderItem) (t : Products)
    → validate_products (product_ids items) t ≡ true
    → all (has_price (get_product_prices (product_ids items) t)) items ≡ true
unfolding validate_products get_product_prices
validate_products-has_price items t h =
    none_missing (found_products (product_ids items) t) items (is_empty _ h)

-- An order under a new id, whose products are valid, is stored: its rows are its items, each at the
-- price that the product service gives, and its total is what its items come to at those prices.
pub create_order-validate_products :
    (id : ℕ) (dto : CreateOrderDto) (user : Option ℕ) (p : Products) (t : Orders)
    → with_id id t ≡ none
    → validate_products (product_ids dto.items) p ≡ true
    → let prices = get_product_prices (product_ids dto.items) p in
      let (r, t') = create_order id dto prices user t in
      (r ≡ ok id)
      × (get_order_total_amount id t' ≡ ok (amount prices dto.items))
      × ((q : OrderEntity) × (with_id id t' ≡ some q) × IsPricedAt prices dto.items q.items)
create_order-validate_products id dto user p t new h =
    let prices = get_product_prices (product_ids dto.items) p in
    let priced = validate_products-has_price dto.items p h in
    let (r, total, _, _) = create_order_priced id dto prices user t new priced in
    (r, total, create_order_rows id dto prices user t new priced)

find?-update_rows :
    (p : ℕ) (f : ProductEntity → ProductEntity) (t : Products)
    → ((r : ProductEntity) → live_id p (f r) ≡ live_id p r)
    → find? (live_id p) (update_rows (live_id p) f t)
      ≡ elim (find? (live_id p) t) [ none ↦ none | some r ↦ some (f r) ]
find?-update_rows p f [] e = refl
find?-update_rows p f (r ∷ t) e = ground (arith, e r, find?-update_rows p f t e)

save_update-merged :
    (accepts : Bool) (dto : UpdateProductDto) (t : Products)
    → (save_update accepts dto t).0 ≡ ok dto.id
    → (r : ProductEntity) × (find? (live_id dto.id) t ≡ some r)
      × (find? (live_id dto.id) (save_update accepts dto t).1 ≡ some (merged dto r))
save_update-merged false dto t e = elim (Option-cases (find? (live_id dto.id) t)) [
  | inl h ↦ cc (rw (h, save_update) at e)
  | inr (r, h) ↦ cc (rw (h, save_update) at e)
]
save_update-merged true dto t e = elim (Option-cases (find? (live_id dto.id) t)) [
  | inl h ↦ cc (rw (h, save_update) at e)
  | inr (r, h) ↦ (
    r,
    h,
    rw (h, save_update) (find?-update_rows dto.id (merged dto) t (λ q. refl) ∙ rw (h) refl),
  )
]

-- An update that goes through, and names no tags, leaves the product with no tags, and with the name
-- and the price that it names or that were there.
pub update_product_untagged :
    (accepts : Bool) (m : Metadata) (dto : UpdateProductDto) (t : Products)
    → dto.tag_ids ≡ none
    → (update_product accepts m dto t).0 ≡ ok dto.id
    → (r : ProductEntity) × (q : ProductEntity) × (find? (live_id dto.id) t ≡ some r)
      × (find? (live_id dto.id) (update_product accepts m dto t).1 ≡ some q)
      × (q.tags ≡ [])
      × (q.name ≡ or_else dto.name r.name)
      × (q.price ≡ or_else dto.price r.price)
unfolding update_product
update_product_untagged accepts m dto t untagged e =
    elim (Result-cases (validate_metadata m dto.category_id dto.brand_id dto.tag_ids)) [
      | inl (x, h) ↦ cc (rw (h, update_product) at e)
      | inr (x, h) ↦
          let (r, there, now) = save_update-merged accepts dto t (rw (h, update_product) at e) in
          (r, merged dto r, there, rw (h, update_product) now, rw untagged refl, refl, refl)
    ]
