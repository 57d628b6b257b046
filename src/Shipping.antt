-- ===== src/Shipping.antt =====
-- apps/shipping-service/src: the table of shipments (entity/shipping.entity.ts), the activity that
-- creates one (activity/create-shipment.activity.ts) and the RPC handlers
-- (shipping-service.service.ts). A new row's id and the time in its tracking code are arguments.
pub mod Laws
mod Tests
use nest_microservices_tempo.Prelude.{
  ℕ, String, Option, none, some, List, [], ◌∷◌, ◌++◌, ◌==◌, if◌then◌else◌, find?, any,
}
use nest_microservices_tempo.Errors.{
  Message, Exception, Result, ok, err, AppErrorCode, ShippingErrorCode, not_found_exception,
}
use nest_microservices_tempo.Store.{update_rows}

pub data DeliveryStatus : Type 0 where
  pending picking_up delivering delivered returned : DeliveryStatus

-- The tracking code is the number after `TRK-`.
pub record ShippingEntity : Type 0 where
  pub id : ℕ
  pub order_id : ℕ
  pub address : String
  pub status : DeliveryStatus
  pub tracking_code : ℕ

abbrev pub Shippings : Type 0
Shippings = List ShippingEntity

abbrev pub new_shipping : (id now order_id : ℕ) → String → ShippingEntity
new_shipping id now o address = record {
  id = id;
  order_id = o;
  address = address;
  status = pending;
  tracking_code = now;
}

abbrev pub duplicate_order : Exception
duplicate_order = Exception.error (Message.text "duplicate key value")

-- The column order_id is unique.
unfoldable pub create_shipment : (id now order_id : ℕ) → String → Shippings → Result ℕ × Shippings
create_shipment id now o address t =
    if any (λ r. r.order_id == o) t
    then (err duplicate_order, t)
    else (ok id, t ++ new_shipping id now o address ∷ [])

unfoldable pub get_shippings : Shippings → List ShippingEntity
get_shippings t = t

abbrev pub shipping_not_found : ℕ → Exception
shipping_not_found id =
    not_found_exception (Message.about "Shipping not found with id: #" id)
      (AppErrorCode.shipping ShippingErrorCode.not_found)

-- The handler finds the row, sets its status and saves it.
unfoldable pub update_delivery_status :
    ℕ → DeliveryStatus → Shippings → Result ShippingEntity × Shippings
update_delivery_status id status t = elim (find? (λ r. r.id == id) t) [
  | none ↦ (err (shipping_not_found id), t)
  | some r ↦
      let saved = record r { status = status } in
      (ok saved, update_rows (λ q. q.id == id) (λ _. saved) t)
]
