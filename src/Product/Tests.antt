-- ===== src/Product/Tests.antt =====
-- The products' operations at one table, and the theorems at it.
use nest_microservices_tempo.Prelude.{
  pos, ◌≡◌, refl, true, false, none, some, [], ◌∷◌, find?, ◌==◌, ==-ne, arith,
}
use nest_microservices_tempo.Errors.{ok, err}
use nest_microservices_tempo.Inventory.{initialize_inventory}
use nest_microservices_tempo.Workflow.Retry.{Temporal, Lossless}
use nest_microservices_tempo.Inventory.Tests.{table}
use nest_microservices_tempo.Order.{
  CreateOrderDto, OrderEntity, create_order, get_order_total_amount,
}
use nest_microservices_tempo.Order.Priced.{IsPricedAt}
use nest_microservices_tempo.Order.Laws.{amount, with_id}
use nest_microservices_tempo.Product.{
  ProductEntity, Products, Metadata, CreateProductDto, UpdateProductDto, get_product_prices,
  validate_metadata, validate_products, update_product, live_id, or_else, create_product,
  delete_product, database_error,
}
use nest_microservices_tempo.Product.Laws.{
  product_ids, create_order-validate_products, update_product_untagged,
}
use nest_microservices_tempo.Product.Shop.{Shop, shop_activities, create_product_workflow}
use nest_microservices_tempo.Product.Saga.{IsFresh, Outcome, create_product_workflow_lem}

abbrev pub shirt : ProductEntity
shirt = record {
  id = 7;
  name = "shirt";
  description = none;
  category_id = some 1;
  brand_id = none;
  price = pos 20;
  images = [];
  is_active = true;
  attributes = [];
  tags = 3 ∷ [];
  is_deleted = false;
}

abbrev products : Products
products = shirt ∷ []

abbrev metadata : Metadata
metadata = record { categories = 1 ∷ []; brands = []; tags = 3 ∷ [] }

abbrev cart : CreateOrderDto
cart = record {
  items = record { product_id = 7; quantity = pos 2 } ∷ [];
  address = "1 Main Street";
  email = "a@b.c";
}

valid_cart : validate_products (product_ids cart.items) products ≡ true
unfolding validate_products
valid_cart = refl

create_order-validate_products_example :
    let prices = get_product_prices (product_ids cart.items) products in
    let (r, t') = create_order 1 cart prices none [] in
    (r ≡ ok 1)
    × (get_order_total_amount 1 t' ≡ ok (amount prices cart.items))
    × ((q : OrderEntity) × (with_id 1 t' ≡ some q) × IsPricedAt prices cart.items q.items)
create_order-validate_products_example =
    create_order-validate_products 1 cart none products [] refl valid_cart

-- A new price, and nothing else.
abbrev sale : UpdateProductDto
sale = record {
  id = 7;
  name = none;
  description = none;
  price = some (pos 15);
  image_urls = none;
  category_id = none;
  brand_id = none;
  tag_ids = none;
  attributes = none;
}

on_sale : (update_product true metadata sale products).0 ≡ ok 7
unfolding update_product validate_metadata
on_sale = refl

update_product_untagged_example :
    (r : ProductEntity) × (q : ProductEntity) × (find? (live_id 7) products ≡ some r)
    × (find? (live_id 7) (update_product true metadata sale products).1 ≡ some q)
    × (q.tags ≡ [])
    × (q.name ≡ or_else none r.name)
    × (q.price ≡ or_else (some (pos 15)) r.price)
update_product_untagged_example = update_product_untagged true metadata sale products refl on_sale

abbrev hat : CreateProductDto
hat = record {
  name = "hat";
  description = none;
  price = pos 9;
  quantity = some (pos 30);
  image_urls = none;
  category_id = some 1;
  brand_id = none;
  tag_ids = some (3 ∷ []);
  attributes = none;
}

-- The table of stocks has a row for product 8 already, so the product is deleted again.
abbrev shop : Shop
shop = record { products = products; inventories = table; product_seq = 7; row_seq = 3; clock = 0 }

abbrev once : Temporal Shop
once = record { execute = λ p act s. act s }

abbrev lossless : Lossless once
lossless = record {
  first_law = λ p act x s s' e. e;
  attempts_law = λ p act Between Done f s h. f s h;
}

shop-IsFresh : IsFresh shop
shop-IsFresh id later = rw (==-ne 7 id (λ e. omega (arith, e, later))) refl

create_product_workflow_lem_example :
    Outcome
      (λ _. true)
      metadata
      once
      lossless
      hat
      shop
      (create_product_workflow (shop_activities (λ _. true) metadata once) hat shop)
create_product_workflow_lem_example =
    create_product_workflow_lem (λ _. true) metadata once lossless hat shop shop-IsFresh

-- The database takes the product and refuses its deletion.
not_deleted :
    (create_product_workflow (shop_activities (λ c. c == 0) metadata once) hat shop).0
    ≡ err database_error
unfolding create_product_workflow validate_metadata create_product initialize_inventory
    delete_product
not_deleted = refl
