-- ===== src/Inventory.antt =====
-- apps/inventory-service/src: the table of stocks (entity/inventory.entity.ts), the activities of
-- the order saga (activity/*.ts) and the service (inventory-service.service.ts). Logging is left
-- out, and so are the columns that the database keeps itself (version, time stamps); a new row's id
-- is an argument. The columns of type `int` are taken as unbounded.
pub mod Demand
pub mod Saga
pub mod Held
pub mod Bounds
pub mod Retried
pub mod Reach
pub mod Ledger
pub mod Sound
pub mod Tests
use nest_microservices_tempo.Prelude.{
  ℕ, ℤ, pos, ◌+ℤ◌, ◌-ℤ◌, leb_ℤ, String, Bool, true, ◌&&◌, Option, none, List, [], ◌∷◌, ◌++◌, ◌==◌,
  if◌then◌else◌, find?, any,
}
use nest_microservices_tempo.Errors.{
  Message, Exception, Result, ok, err, ◌>>=◌, or_throw, AppErrorCode, InventoryErrorCode,
  bad_request_exception, internal_server_error_exception, not_found_exception,
}
use nest_microservices_tempo.Store.{
  RowUpdate, execute, for_each, transaction, affected, update_rows,
}

pub record InventoryEntity : Type 0 where
  pub id : ℕ
  pub product_id : ℕ
  pub stock : ℤ
  pub reserved_quantity : ℤ
  pub warehouse_location : Option String

-- The request types only ask that a quantity is there, so it may be negative.
pub record OrderItem : Type 0 where
  pub product_id : ℕ
  pub quantity : ℤ

abbrev pub Inventories : Type 0
Inventories = List InventoryEntity

-- What an activity leaves: its outcome, and the table.
abbrev pub Outcome : Type 0
Outcome = Result (Unit {0}) × Inventories

-- SET reserved_quantity + :quantity WHERE stock - reserved_quantity >= :quantity
abbrev pub reserve_update : RowUpdate OrderItem InventoryEntity
reserve_update = record {
  key = λ r. r.product_id;
  item_key = λ i. i.product_id;
  condition = λ i r. leb_ℤ i.quantity (r.stock -ℤ r.reserved_quantity);
  set = λ i r. record r { reserved_quantity = r.reserved_quantity +ℤ i.quantity };
  failure = λ i.
      bad_request_exception (Message.about "Product # out of stock." i.product_id)
        (AppErrorCode.inventory InventoryErrorCode.adjustment_failed);
}

-- SET reserved_quantity - :quantity WHERE reserved_quantity >= :quantity
abbrev pub release_update : RowUpdate OrderItem InventoryEntity
release_update = record {
  key = λ r. r.product_id;
  item_key = λ i. i.product_id;
  condition = λ i r. leb_ℤ i.quantity r.reserved_quantity;
  set = λ i r. record r { reserved_quantity = r.reserved_quantity -ℤ i.quantity };
  failure = λ i.
      internal_server_error_exception (Message.about "Product # out of stock." i.product_id)
        (AppErrorCode.inventory InventoryErrorCode.adjustment_failed);
}

-- SET stock - :quantity, reserved_quantity - :quantity WHERE reserved_quantity >= :quantity
abbrev pub confirm_update : RowUpdate OrderItem InventoryEntity
confirm_update = record {
  key = λ r. r.product_id;
  item_key = λ i. i.product_id;
  condition = λ i r. leb_ℤ i.quantity r.reserved_quantity;
  set = λ i r. record r {
    stock = r.stock -ℤ i.quantity;
    reserved_quantity = r.reserved_quantity -ℤ i.quantity;
  };
  failure = λ i.
      internal_server_error_exception
        (Message.about "Inventory reconciliation error for product #" i.product_id)
        (AppErrorCode.inventory InventoryErrorCode.adjustment_failed);
}

-- SET stock + :quantity
abbrev pub restore_update : ℕ → RowUpdate OrderItem InventoryEntity
restore_update order_id = record {
  key = λ r. r.product_id;
  item_key = λ i. i.product_id;
  condition = λ i r. true;
  set = λ i r. record r { stock = r.stock +ℤ i.quantity };
  failure = λ i.
      internal_server_error_exception
        (Message.about_two "Restore inventory failed for order # and product #" order_id
          i.product_id)
        (AppErrorCode.inventory InventoryErrorCode.restore_failed);
}

unfoldable pub reserve_inventory : ℕ → List OrderItem → Inventories → Outcome
reserve_inventory order_id items = transaction (for_each (execute reserve_update) items)

unfoldable pub release_inventory : ℕ → List OrderItem → Inventories → Outcome
release_inventory order_id items = transaction (for_each (execute release_update) items)

unfoldable pub confirm_inventory : ℕ → List OrderItem → Inventories → Outcome
confirm_inventory order_id items = transaction (for_each (execute confirm_update) items)

unfoldable pub restore_inventory : ℕ → List OrderItem → Inventories → Outcome
restore_inventory order_id items = transaction (for_each (execute (restore_update order_id)) items)

-- `product_id` is unique, so a second row for a product is refused.
unfoldable pub initialize_inventory : (id product_id : ℕ) → ℤ → Inventories → Outcome
initialize_inventory id product_id quantity t =
    if any (λ r. r.product_id == product_id) t
    then (err (Exception.error (Message.text "duplicate key value")), t)
    else (
      ok tt,
      t
          ++ record {
            id = id;
            product_id = product_id;
            stock = quantity;
            reserved_quantity = pos 0;
            warehouse_location = none;
          }
            ∷ [],
    )

abbrev adjust_test : ℕ → ℤ → InventoryEntity → Bool
adjust_test product_id change r = (r.product_id == product_id) && leb_ℤ (pos 0) (r.stock +ℤ change)

abbrev adjust_set : ℤ → InventoryEntity → InventoryEntity
adjust_set change r = record r { stock = r.stock +ℤ change }

unfoldable pub adjust_inventory :
    (product_id : ℕ) (quantity_change : ℤ) → Inventories → Result InventoryEntity × Inventories
adjust_inventory product_id change t =
    if affected (adjust_test product_id change) t == 0
    then (
      err (
          bad_request_exception (Message.about "Cannot adjust stock for product #." product_id)
            (AppErrorCode.inventory InventoryErrorCode.adjustment_failed)),
      t,
    )
    else let t' = update_rows (adjust_test product_id change) (adjust_set change) t in
      (
        or_throw (find? (λ r. r.product_id == product_id) t')
            (Exception.error (Message.text "Could not find any entity")),
        t',
      )

unfoldable pub get_all_inventories : Inventories → List InventoryEntity
get_all_inventories t = t

abbrev max_zero : ℤ → ℤ
max_zero a = if leb_ℤ a (pos 0) then pos 0 else a

unfoldable pub get_available_stock : ℕ → Inventories → Result (ℕ × ℤ)
get_available_stock product_id t = do
  r ← or_throw (find? (λ r. r.product_id == product_id) t) (
      not_found_exception (Message.about "Inventory for product ## not found" product_id)
        (AppErrorCode.inventory InventoryErrorCode.not_found))
  ok (product_id, max_zero (r.stock -ℤ r.reserved_quantity))
