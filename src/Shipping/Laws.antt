-- ===== src/Shipping/Laws.antt =====
-- The table of shipments, as the activity and the handler change it.
use nest_microservices_tempo.Prelude.{
  ℕ, String, ◌≡◌, ◌≢◌, refl, ◌⊎◌, inl, inr, true, false, Option, none, some, [], ◌∷◌, ◌++◌, ◌==◌,
  ==-self, ==-ne, if◌then◌else◌, any, find?, arith, Bool-cases, Option-cases, ◌∙◌, sym,
}
use nest_microservices_tempo.Errors.{ok, err}
use nest_microservices_tempo.Store.{update_rows}
use nest_microservices_tempo.Shipping.{
  DeliveryStatus, pending, ShippingEntity, Shippings, new_shipping, create_shipment,
  duplicate_order, update_delivery_status, shipping_not_found,
}

abbrev pub shipment_of : ℕ → Shippings → Option ShippingEntity
shipment_of o t = find? (λ r. r.order_id == o) t

abbrev pub shipment_with : ℕ → Shippings → Option ShippingEntity
shipment_with id t = find? (λ r. r.id == id) t

absent_any : (o : ℕ) (t : Shippings) → any (λ r. r.order_id == o) t ≡ false → shipment_of o t ≡ none
absent_any o [] h = refl
absent_any o (r ∷ t) h = ground (arith, absent_any o t)

present_any :
    (o : ℕ) (t : Shippings)
    → any (λ r. r.order_id == o) t ≡ true
    → (r : ShippingEntity) × (shipment_of o t ≡ some r)
present_any o [] h = cc
present_any o (r ∷ t) h = elim (Bool-cases (r.order_id == o)) [
  | inl e ↦ (r, rw e refl)
  | inr e ↦ let (q, found) = present_any o t (rw e at h) in (q, rw e found)
]

append_of :
    (p : ℕ) (t : Shippings) (r : ShippingEntity)
    → shipment_of p (t ++ r ∷ [])
      ≡ elim (shipment_of p t) [ some q ↦ some q | none ↦ if r.order_id == p then some r else none ]
append_of p [] r = refl
append_of p (q ∷ t) r = ground (arith, append_of p t r)

other_of :
    (p o : ℕ)
    → p ≢ o
    → (t : Shippings) (r : ShippingEntity) → r.order_id ≡ o
    → shipment_of p (t ++ r ∷ []) ≡ shipment_of p t
other_of p o n t r same = append_of p t r ∙ elim (Option-cases (shipment_of p t)) [
  | inl e ↦ rw (e, same, ==-ne o p (λ q. n (sym q))) refl
  | inr (q, e) ↦ rw e refl
]

id_of : (id : ℕ) (r : ShippingEntity) (t : Shippings) → shipment_with id t ≡ some r → r.id ≡ id
id_of id r [] e = cc
id_of id r (q ∷ t) e = ground (arith, id_of id r t)

updated_with :
    (id : ℕ) (r : ShippingEntity) (status : DeliveryStatus) (t : Shippings)
    → shipment_with id t ≡ some r
    → shipment_with id (update_rows (λ q. q.id == id) (λ _. record r { status = status }) t)
      ≡ some (record r { status = status })
updated_with id r status [] e = cc
updated_with id r status (q ∷ t) e =
    ground (arith, id_of id r (q ∷ t) e, updated_with id r status t)

updated_other :
    (p id : ℕ)
    → p ≢ id
    → (r : ShippingEntity) → r.id ≡ id
    → (t : Shippings)
    → shipment_with p (update_rows (λ q. q.id == id) (λ _. r) t) ≡ shipment_with p t
updated_other p id n r same [] = refl
updated_other p id n r same (q ∷ t) = ground (arith, updated_other p id n r same t)

-- createShipment either finds a shipment of the order, and then throws and leaves the table as it
-- was; or there is none, and then it returns the new row's id, the order's shipment is a row with
-- that id, the address given, the status PENDING and the time as its tracking code, and the
-- shipments of the other orders are what they were. So an order has one shipment at most.
pub create_shipment_lem :
    (id now o : ℕ) (address : String) (t : Shippings)
    → ((r : ShippingEntity) × (shipment_of o t ≡ some r)
        × (create_shipment id now o address t ≡ (err duplicate_order, t)))
      ⊎ ((shipment_of o t ≡ none)
          × ((create_shipment id now o address t).0 ≡ ok id)
          × (shipment_of o (create_shipment id now o address t).1
              ≡ some (record {
                id = id;
                order_id = o;
                address = address;
                status = pending;
                tracking_code = now;
              }))
          × ((p : ℕ)
              → p ≢ o
              → shipment_of p (create_shipment id now o address t).1 ≡ shipment_of p t))
unfolding create_shipment
create_shipment_lem id now o address t = elim (Bool-cases (any (λ r. r.order_id == o) t)) [
  | inl e ↦ let (r, there) = present_any o t e in inl (r, there, rw e refl)
  | inr e ↦
      let absent = absent_any o t e in
      inr (
        absent,
        rw e refl,
        rw e (append_of o t (new_shipping id now o address) ∙ rw (absent, ==-self o) refl),
        λ p n. rw e (other_of p o n t (new_shipping id now o address) refl),
      )
]

-- updateDeliveryStatus either finds no row with the id, and then throws SHIPPING_NOT_FOUND and leaves
-- the table as it was; or it returns the row with its new status, which is what is stored under the id,
-- and the rows with other ids are what they were.
pub update_delivery_status_lem :
    (id : ℕ) (status : DeliveryStatus) (t : Shippings)
    → ((shipment_with id t ≡ none)
        × (update_delivery_status id status t ≡ (err (shipping_not_found id), t)))
      ⊎ ((r : ShippingEntity) × (shipment_with id t ≡ some r)
          × ((update_delivery_status id status t).0 ≡ ok (record r { status = status }))
          × (shipment_with id (update_delivery_status id status t).1
              ≡ some (record r { status = status }))
          × ((p : ℕ)
              → p ≢ id
              → shipment_with p (update_delivery_status id status t).1 ≡ shipment_with p t))
unfolding update_delivery_status
update_delivery_status_lem id status t = elim (Option-cases (shipment_with id t)) [
  | inl e ↦ inl (e, rw (e, update_delivery_status) refl)
  | inr (r, e) ↦ inr (
    r,
    e,
    rw (e, update_delivery_status) refl,
    rw (e, update_delivery_status) (updated_with id r status t e),
    λ p n.
        rw (e, update_delivery_status)
          (updated_other p id n (record r { status = status }) (id_of id r t e) t),
  )
]
