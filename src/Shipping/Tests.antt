-- ===== src/Shipping/Tests.antt =====
-- A shipment and its delivery, and the theorems at them.
use nest_microservices_tempo.Prelude.{ℕ, refl, ◌≡◌, ◌≢◌, ◌⊎◌, none, some, [], ◌∷◌}
use nest_microservices_tempo.Errors.{ok, err}
use nest_microservices_tempo.Shipping.{
  ShippingEntity, Shippings, pending, delivered, new_shipping, create_shipment, duplicate_order,
  update_delivery_status, shipping_not_found,
}
use nest_microservices_tempo.Shipping.Laws.{shipment_of, create_shipment_lem}

abbrev shipments : Shippings
shipments = new_shipping 1 100 7 "1 Main Street" ∷ []

create_shipment_lem_example :
    ((r : ShippingEntity) × (shipment_of 7 shipments ≡ some r)
      × (create_shipment 2 105 7 "2 Main Street" shipments ≡ (err duplicate_order, shipments)))
    ⊎ ((shipment_of 7 shipments ≡ none)
        × ((create_shipment 2 105 7 "2 Main Street" shipments).0 ≡ ok 2)
        × (shipment_of 7 (create_shipment 2 105 7 "2 Main Street" shipments).1
            ≡ some (record {
              id = 2;
              order_id = 7;
              address = "2 Main Street";
              status = pending;
              tracking_code = 105;
            }))
        × ((p : ℕ)
            → p ≢ 7
            → shipment_of p (create_shipment 2 105 7 "2 Main Street" shipments).1
              ≡ shipment_of p shipments))
create_shipment_lem_example = create_shipment_lem 2 105 7 "2 Main Street" shipments

abbrev arrived : ShippingEntity
arrived = record (new_shipping 1 100 7 "1 Main Street") { status = delivered }

delivered_now : update_delivery_status 1 delivered shipments ≡ (ok arrived, arrived ∷ [])
unfolding update_delivery_status
delivered_now = refl

not_there : update_delivery_status 5 delivered shipments ≡ (err (shipping_not_found 5), shipments)
unfolding update_delivery_status
not_there = refl
