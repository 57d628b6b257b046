-- ===== src/Product/Shop.antt =====
-- apps/orchestrator-worker/src/workflows/product/create-product.workflow.ts: the saga that creates a
-- product and its row of stock, over the activities of the product and the inventory service, which its
-- proxies run with retries.
use nest_microservices_tempo.Prelude.{ℕ, zero, suc, pos, ℤ, Bool}
use nest_microservices_tempo.Errors.{Exception, Result, ok, err}
use nest_microservices_tempo.Inventory.{Inventories, initialize_inventory}
use nest_microservices_tempo.Product.{
  Products, Metadata, CreateProductDto, validate_metadata, create_product, delete_product, or_else,
}
use nest_microservices_tempo.Workflow.Monad.{Action}
use nest_microservices_tempo.Workflow.Retry.{Temporal, short_policy}

pub record ProductActivities (S : Type 0) : Type 0 where
  pub validate_product_metadata : CreateProductDto → Action S (Unit {0})
  pub create_product : CreateProductDto → Action S ℕ
  pub initialize_inventory : (id : ℕ) (quantity : ℤ) → Action S (Unit {0})
  pub delete_product : ℕ → Action S (Unit {0})

module _ {S : Type 0} (a : ProductActivities S) where
  abbrev pub remove_again : Exception → Result (Unit {0}) × S → Result ℕ × S
  remove_again e (ok _, s) = (err e, s)
  remove_again e (err f, s) = (err f, s)

  -- The `catch` block, once there may be a product: `if (productId)`.
  abbrev pub undo_product : Exception → ℕ → S → Result ℕ × S
  undo_product e zero s = (err e, s)
  undo_product e (suc n) s = remove_again e (a.delete_product (suc n) s)

  abbrev pub after_initialize : ℕ → Result (Unit {0}) × S → Result ℕ × S
  after_initialize id (ok _, s) = (ok id, s)
  after_initialize id (err e, s) = undo_product e id s

  abbrev pub after_create : CreateProductDto → Result ℕ × S → Result ℕ × S
  after_create dto (err e, s) = (err e, s)
  after_create dto (ok id, s) =
      after_initialize id (a.initialize_inventory id (or_else dto.quantity (pos 0)) s)

  abbrev pub after_validate : CreateProductDto → Result (Unit {0}) × S → Result ℕ × S
  after_validate dto (err e, s) = (err e, s)
  after_validate dto (ok _, s) = after_create dto (a.create_product dto s)

  unfoldable pub create_product_workflow : CreateProductDto → Action S ℕ
  create_product_workflow dto s = after_validate dto (a.validate_product_metadata dto s)

-- The tables of both services, with their sequences; a clock tells whether a write is taken.
pub record Shop : Type 0 where
  pub products : Products
  pub inventories : Inventories
  pub product_seq : ℕ
  pub row_seq : ℕ
  pub clock : ℕ

abbrev pub create_attempt : (ℕ → Bool) → CreateProductDto → Action Shop ℕ
create_attempt accepts dto s =
    let (r, t) = create_product (accepts s.clock) (suc s.product_seq) dto s.products in
    (r, record s { products = t; product_seq = suc s.product_seq; clock = suc s.clock })

abbrev pub initialize_attempt : (id : ℕ) (quantity : ℤ) → Action Shop (Unit {0})
initialize_attempt id quantity s =
    let (r, t) = initialize_inventory (suc s.row_seq) id quantity s.inventories in
    (r, record s { inventories = t; row_seq = suc s.row_seq })

abbrev pub delete_attempt : (ℕ → Bool) → ℕ → Action Shop (Unit {0})
delete_attempt accepts id s =
    let (r, t) = delete_product (accepts s.clock) id s.products in
    (r, record s { products = t; clock = suc s.clock })

abbrev pub shop_activities : (ℕ → Bool) → Metadata → Temporal Shop → ProductActivities Shop
shop_activities accepts m temporal = record {
  validate_product_metadata = λ dto.
      temporal.execute short_policy
        (λ s. (validate_metadata m dto.category_id dto.brand_id dto.tag_ids, s));
  create_product = λ dto. temporal.execute short_policy (create_attempt accepts dto);
  initialize_inventory =
      λ id quantity. temporal.execute short_policy (initialize_attempt id quantity);
  delete_product = λ id. temporal.execute short_policy (delete_attempt accepts id);
}
