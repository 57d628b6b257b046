-- ===== src/Order.antt =====
-- apps/order-service/src: the table of orders (entity/order.entity.ts, entity/order-item.entity.ts)
-- and the activities of the sagas (activity/*.ts). A new row's id is an argument. A total over a
-- missing price is NaN in the source, which the columns (int, not null) refuse.
pub mod Service
pub mod Laws
pub mod Priced
pub mod Ids
mod Tests
use nest_microservices_tempo.Prelude.{
  ℕ, ℤ, pos, ◌+ℤ◌, ◌*ℤ◌, String, Bool, true, false, not, ◌&&◌, ◌||◌, Option, none, some, List, [],
  ◌∷◌, ◌++◌, map, ◌==◌, if◌then◌else◌, find?, any,
}
use nest_microservices_tempo.Errors.{
  Message, Exception, Result, ok, err, AppErrorCode, OrderErrorCode, not_found_exception,
}
use nest_microservices_tempo.Store.{affected, update_rows}
use nest_microservices_tempo.Inventory.{OrderItem}

pub data OrderStatus : Type 0 where
  pending paid shipping delivered cancelled place_failed cancel_failed refunded : OrderStatus

-- The values of the enum, as the messages show them.
abbrev pub status_name : OrderStatus → String
status_name pending = "PENDING"
status_name paid = "PAID"
status_name shipping = "SHIPPING"
status_name delivered = "DELIVERED"
status_name cancelled = "CANCELLED"
status_name place_failed = "PLACE_FAILED"
status_name cancel_failed = "CANCEL_FAILED"
status_name refunded = "REFUNDED"

pub record CreateOrderDto : Type 0 where
  pub items : List OrderItem
  pub address : String
  pub email : String

pub record CancelOrderDto : Type 0 where
  pub order_id : ℕ
  pub cancel_reason : Option Message

pub record OrderItemEntity : Type 0 where
  pub product_id : ℕ
  pub quantity : ℤ
  pub price : ℤ

pub record OrderEntity : Type 0 where
  pub id : ℕ
  pub user_id : Option ℕ
  pub status : OrderStatus
  pub address : String
  pub email : String
  pub payment_id : Option ℕ
  pub total_amount : ℤ
  pub cancel_reason : Option Message
  pub items : List OrderItemEntity

abbrev pub Orders : Type 0
Orders = List OrderEntity

-- `get isCancelable()`
unfoldable pub is_cancelable : OrderEntity → Bool
is_cancelable o = elim o.status [ pending ↦ true | paid ↦ true | _ ↦ false ]

-- `Record<number, number>`, from product ids to prices; an id that is not there is undefined.
abbrev pub Prices : Type 0
Prices = List (ℕ × ℤ)

abbrev pub price_of : Prices → ℕ → Option ℤ
price_of [] p = none
price_of ((q, c) ∷ prices) p = if q == p then some c else price_of prices p

-- `sum + productPrices[id] * quantity`; `none` is NaN.
abbrev pub add_line : Prices → Option ℤ → OrderItem → Option ℤ
add_line prices none i = none
add_line prices (some sum) i = elim (price_of prices i.product_id) [
  | none ↦ none
  | some c ↦ some (sum +ℤ c *ℤ i.quantity)
]

-- The `reduce` over the items.
abbrev pub total_from : Prices → Option ℤ → List OrderItem → Option ℤ
total_from prices acc [] = acc
total_from prices acc (i ∷ is) = total_from prices (add_line prices acc i) is

-- The rows of the items; `none` if a price is undefined.
abbrev pub order_items : Prices → List OrderItem → Option (List OrderItemEntity)
order_items prices [] = some []
order_items prices (i ∷ is) = elim (price_of prices i.product_id) [
  | none ↦ none
  | some c ↦ elim (order_items prices is) [
    | none ↦ none
    | some rows ↦
        some (record { product_id = i.product_id; quantity = i.quantity; price = c } ∷ rows)
  ]
]

abbrev pub refused : Exception
refused = Exception.error (Message.text "invalid input for a column")

abbrev pub new_order : ℕ → CreateOrderDto → Option ℕ → ℤ → List OrderItemEntity → OrderEntity
new_order id dto user total rows = record {
  id = id;
  user_id = user;
  status = pending;
  address = dto.address;
  email = dto.email;
  payment_id = none;
  total_amount = total;
  cancel_reason = none;
  items = rows;
}

-- Saving an order whose total or whose prices are not numbers is refused by the database.
abbrev pub save_order :
    ℕ
    → CreateOrderDto
    → Option ℕ
    → Option ℤ
    → Option (List OrderItemEntity)
    → Orders
    → Result ℕ × Orders
save_order id dto user (some total) (some rows) t =
    (ok id, t ++ new_order id dto user total rows ∷ [])
save_order id dto user _ _ t = (err refused, t)

unfoldable pub create_order :
    (id : ℕ) → CreateOrderDto → Prices → (user_id : Option ℕ) → Orders → Result ℕ × Orders
create_order id dto prices user t =
    save_order id dto user (total_from prices (some (pos 0)) dto.items)
      (order_items prices dto.items) t

abbrev pub update_failed : ℕ → Exception
update_failed o =
    not_found_exception (Message.about "Update order # failed" o)
      (AppErrorCode.order OrderErrorCode.update_order_failed)

-- `orderRepository.update(orderId, …)`, which throws if no row is affected.
abbrev update_order : ℕ → (OrderEntity → OrderEntity) → Orders → Result (Unit {0}) × Orders
update_order o f t =
    if affected (λ r. r.id == o) t == 0
    then (err (update_failed o), t)
    else (ok tt, update_rows (λ r. r.id == o) f t)

abbrev pub has_payment : ℕ → OrderEntity → Bool
has_payment p r = elim r.payment_id [ none ↦ false | some q ↦ q == p ]

-- The column payment_id is unique: a payment that another order has is refused.
unfoldable pub save_payment_id : (order_id payment_id : ℕ) → Orders → Result (Unit {0}) × Orders
save_payment_id o p t =
    if any (λ r. not (r.id == o) && has_payment p r) t
    then (err (Exception.error (Message.text "duplicate key value")), t)
    else update_order o (λ r. record r { payment_id = some p }) t

-- A reason that is undefined leaves the column as it is.
abbrev pub new_reason : Option Message → Option Message → Option Message
new_reason none old = old
new_reason (some m) old = some m

unfoldable pub update_order_status :
    ℕ → OrderStatus → Option Message → Orders → Result (Unit {0}) × Orders
update_order_status o status reason t =
    update_order o
      (λ r. record r { status = status; cancel_reason = new_reason reason r.cancel_reason }) t

abbrev pub entity_not_found : Exception
entity_not_found = Exception.error (Message.text "Could not find any entity")

-- `findOneOrFail`, read through a projection.
abbrev pub read_order {ℓ} : {A : Type ℓ} → ℕ → (OrderEntity → A) → Orders → Result A
read_order o f t = elim (find? (λ r. r.id == o) t) [
  | none ↦ err entity_not_found
  | some r ↦ ok (f r)
]

unfoldable pub get_order_total_amount : ℕ → Orders → Result ℤ
get_order_total_amount o t = read_order o (λ r. r.total_amount) t

unfoldable pub get_payment_id : ℕ → Orders → Result (Option ℕ)
get_payment_id o t = read_order o (λ r. r.payment_id) t

abbrev pub to_item : OrderItemEntity → OrderItem
to_item r = record { product_id = r.product_id; quantity = r.quantity }

unfoldable pub get_order_items : ℕ → Orders → Result (List OrderItem)
get_order_items o t = read_order o (λ r. map to_item r.items) t

abbrev delete_rows : ℕ → Orders → Orders
delete_rows o [] = []
delete_rows o (r ∷ t) = if r.id == o then delete_rows o t else r ∷ delete_rows o t

unfoldable pub delete_order : ℕ → Orders → Result (Unit {0}) × Orders
delete_order o t =
    if affected (λ r. r.id == o) t == 0
    then (
      err (
          not_found_exception (Message.about "Delete order # failed" o)
            (AppErrorCode.order OrderErrorCode.delete_order_failed)),
      t,
    )
    else (ok tt, delete_rows o t)
