-- ===== src/System/Live.antt =====
-- The place-order saga over the services, where nothing is in its way.
use nest_microservices_tempo.Prelude.{
  ℕ, suc, ℤ, String, ◌≡◌, refl, Bool, true, false, not, ◌&&◌, Option, none, some, List, [], ◌∷◌,
  ◌++◌, ◌==◌, find?, any, arith, inl, inr,
}
use nest_microservices_tempo.Errors.{ok}
use nest_microservices_tempo.Inventory.{reserve_inventory, confirm_inventory}
use nest_microservices_tempo.Inventory.Demand.{IsPositive}
use nest_microservices_tempo.Inventory.Saga.{IsValid, IsAvailable, hold, sell}
use nest_microservices_tempo.Inventory.Held.{confirm_is, held_is, went_through}
use nest_microservices_tempo.Order.{
  OrderEntity, OrderItemEntity, paid, shipping, CreateOrderDto, Prices, Orders, create_order,
  save_order, new_order, has_payment, update_order_status, save_payment_id,
}
use nest_microservices_tempo.Order.Laws.{with_id, amount, save_payment_id_lem}
use nest_microservices_tempo.Order.Ids.{
  Present, create_order-IsCreated, update_order_status_ids, save_payment_id_ids, status_of_Present,
}
use nest_microservices_tempo.Payment.{
  Payments, PaymentIntent, Gateway, charge_payment, of_order, is_success, intent_request,
  charge_order, succeeded, taken, transaction_of, success,
}
use nest_microservices_tempo.Product.{validate_products, get_product_prices}
use nest_microservices_tempo.Product.Laws.{product_ids, create_order-validate_products}
use nest_microservices_tempo.Shipping.{Shippings, ShippingEntity, create_shipment, new_shipping}
use nest_microservices_tempo.Shipping.Laws.{shipment_of, create_shipment_lem}
use nest_microservices_tempo.Workflow.{place_order_workflow}
use nest_microservices_tempo.Workflow.Retry.{Temporal, Lossless, short_policy, refund_policy}
use nest_microservices_tempo.Workflow.Straight.{Straight, receipt_of, place_order-Straight}
use nest_microservices_tempo.System.{
  Services, services, create_attempt, stock_attempt, charge_attempt, save_attempt, status_attempt,
  shipment_attempt,
}

unpaid :
    (o : ℕ) (t : Payments)
    → find? (of_order o) t ≡ none
    → find? (λ r. of_order o r && is_success r) t ≡ none
unpaid o [] h = refl
unpaid o (r ∷ t) h = ground (arith, unpaid o t)

unused :
    (o p : ℕ) (t : Orders)
    → any (has_payment p) t ≡ false
    → any (λ r. not (r.id == o) && has_payment p r) t ≡ false
unused o p [] h = refl
unused o p (r ∷ t) h = ground (arith, unused o p t)

unused-append :
    (p : ℕ) (t : Orders) (r : OrderEntity)
    → any (has_payment p) t ≡ false
    → r.payment_id ≡ none
    → any (has_payment p) (t ++ r ∷ []) ≡ false
unused-append p [] r h e = rw e refl
unused-append p (q ∷ t) r h e = ground (arith, unused-append p t r)

unused_saved :
    (p id : ℕ) (dto : CreateOrderDto) (user : Option ℕ) (total : Option ℤ)
    (rows : Option (List OrderItemEntity)) (t : Orders)
    → any (has_payment p) t ≡ false
    → any (has_payment p) (save_order id dto user total rows t).1 ≡ false
unused_saved p id dto user (some n) (some rows) t h =
    unused-append p t (new_order id dto user n rows) h refl
unused_saved p id dto user (some n) none t h = h
unused_saved p id dto user none rows t h = h

unused_created :
    (p id : ℕ) (dto : CreateOrderDto) (prices : Prices) (user : Option ℕ) (t : Orders)
    → any (has_payment p) t ≡ false
    → any (has_payment p) (create_order id dto prices user t).1 ≡ false
unfolding create_order
unused_created p id dto prices user t h = unused_saved p id dto user _ _ t h

-- The first charge of an order.
charge_new :
    {S : Type 0} (g : Gateway S) (id o : ℕ) (total : ℤ) (s s' : S) (t : Payments)
    (i : PaymentIntent)
    → find? (of_order o) t ≡ none
    → g.create_intent (intent_request o total) (charge_order o) s ≡ (ok i, s')
    → succeeded i.status ≡ true
    → taken (transaction_of id o i success) t ≡ false
    → (charge_payment g true id o total s t).0 ≡ ok id
unfolding charge_payment
charge_new g id o total s s' t i absent answer done free =
    rw (unpaid o t absent, answer, charge_payment) (rw (done, free) refl)

create_ready :
    (id now o : ℕ) (address : String) (t : Shippings)
    → shipment_of o t ≡ none
    → (create_shipment id now o address t).0 ≡ ok id
create_ready id now o address t h = elim (create_shipment_lem id now o address t) [
  | inl (r, there, _) ↦ cc
  | inr (_, made, _, _) ↦ made
]

create_shipped :
    (id now o : ℕ) (address : String) (t : Shippings)
    → shipment_of o t ≡ none
    → (h : ShippingEntity) × (shipment_of o (create_shipment id now o address t).1 ≡ some h)
      × (h.address ≡ address)
create_shipped id now o address t h = elim (create_shipment_lem id now o address t) [
  | inl (r, there, _) ↦ cc
  | inr (_, _, found, _) ↦ (new_shipping id now o address, found, refl)
]

module _ {St : Type 0} (g : Gateway St) (dto : CreateOrderDto) (user : Option ℕ)
    (s : Services St) where
  abbrev prices : Prices
  prices = get_product_prices (product_ids dto.items) s.products

  abbrev total : ℤ
  total = amount prices dto.items

  -- Nothing is in the order's way: its products are for sale, its items are there, and the next id of
  -- each table is free; the payment database takes the charge's row.
  pub record IsReady (accepts : ℕ → Bool) (intent : PaymentIntent) (after : St) : Type 0 where
    pub valid : IsValid s.inventories
    pub positive : IsPositive dto.items
    pub for_sale : validate_products (product_ids dto.items) s.products ≡ true
    pub available : IsAvailable dto.items s.inventories
    pub new_order_id : with_id (suc s.order_seq) s.orders ≡ none
    pub new_payment : find? (of_order (suc s.order_seq)) s.payments ≡ none
    pub charged :
        g.create_intent
          (intent_request (suc s.order_seq) total)
          (charge_order (suc s.order_seq))
          s.stripe
        ≡ (ok intent, after)
    pub charge_done : succeeded intent.status ≡ true
    pub new_intent :
        taken (transaction_of (suc s.payment_seq) (suc s.order_seq) intent success) s.payments
        ≡ false
    pub accepted : accepts s.clock ≡ true
    pub new_payment_id : any (has_payment (suc s.payment_seq)) s.orders ≡ false
    pub unshipped : shipment_of (suc s.order_seq) s.shippings ≡ none

  module _ (accepts : ℕ → Bool) (intent : PaymentIntent) (after : St)
      (ready : IsReady accepts intent after) (temporal : Temporal (Services St))
      (lossless : Lossless temporal) where
    open temporal use {execute}
    open lossless use {first_law}

    abbrev o : ℕ
    o = suc s.order_seq

    abbrev p : ℕ
    p = suc s.payment_seq

    abbrev created : Services St
    created = record s { order_seq = o; orders = (create_order o dto prices user s.orders).1 }

    abbrev reserved : Services St
    reserved = record created { inventories = hold dto.items s.inventories }

    abbrev charged : Services St
    charged = record reserved {
      stripe = (charge_payment g true p o total s.stripe s.payments).1;
      payments = (charge_payment g true p o total s.stripe s.payments).2;
      clock = suc s.clock;
      payment_seq = p;
    }

    abbrev saved : Services St
    saved = record charged { orders = (save_payment_id o p charged.orders).1 }

    abbrev paid_for : Services St
    paid_for = record saved { orders = (update_order_status o paid none saved.orders).1 }

    abbrev confirmed : Services St
    confirmed = record paid_for { inventories = sell dto.items s.inventories }

    abbrev shipped : Services St
    shipped = record confirmed {
      shippings =
          (create_shipment (suc s.shipping_seq) confirmed.clock o dto.address s.shippings).1;
      clock = suc confirmed.clock;
      shipping_seq = suc s.shipping_seq;
    }

    abbrev done : Services St
    done = record shipped { orders = (update_order_status o shipping none shipped.orders).1 }

    there : Present o created.orders
    there =
        let (made, _, _) =
          create_order-validate_products o dto user s.products s.orders ready.new_order_id
            ready.for_sale in
        let (_, h) =
          (create_order-IsCreated o dto prices user s.orders ready.new_order_id).result o made in
        h

    straight :
        Straight
          (services g accepts temporal refund_policy)
          dto
          user
          o
          p
          (suc s.shipping_seq)
          prices
          total
          s
          created
          reserved
          charged
          saved
          paid_for
          confirmed
          shipped
          done
    straight =
        let (made, sums, _) =
          create_order-validate_products o dto user s.products s.orders ready.new_order_id
            ready.for_sale in
        let there_saved = (save_payment_id_ids o p created.orders).present o there in
        let there_paid = (update_order_status_ids o paid none saved.orders).present o there_saved in
        record {
          valid = first_law short_policy _ true s s (rw ready.for_sale refl);
          priced = first_law short_policy _ prices s s refl;
          creates =
              first_law short_policy (create_attempt dto prices user) o s created (rw made refl);
          reserves =
              first_law short_policy (stock_attempt reserve_inventory o dto.items) tt created
                reserved
                (rw
                  (
                    went_through o dto.items s.inventories ready.valid ready.positive
                        ready.available,
                    held_is o dto.items s.inventories ready.valid ready.positive ready.available,
                  )
                  refl);
          totals = first_law short_policy _ total reserved reserved (rw sums refl);
          charges = first_law short_policy (charge_attempt g accepts o total) p reserved charged (
              rw
                (
                  ready.accepted,
                  charge_new g p o total s.stripe after s.payments intent ready.new_payment
                      ready.charged ready.charge_done ready.new_intent,
                )
                refl);
          saves = first_law short_policy (save_attempt o p) tt charged saved (
              rw
                (save_payment_id_lem o p created.orders there.0 there.1 (
                  unused o p created.orders
                    (unused_created p o dto prices user s.orders ready.new_payment_id))).0
                refl);
          pays =
              first_law short_policy (status_attempt o paid none) tt saved paid_for
                (rw (status_of_Present o paid none saved.orders there_saved).0 refl);
          confirms =
              first_law short_policy (stock_attempt confirm_inventory o dto.items) tt paid_for
                confirmed
                (rw
                  (confirm_is o dto.items s.inventories ready.valid ready.positive ready.available)
                  refl);
          ships =
              first_law short_policy (shipment_attempt o dto.address) (suc s.shipping_seq) confirmed
                shipped
                (rw
                  (create_ready (suc s.shipping_seq) confirmed.clock o dto.address s.shippings
                    ready.unshipped)
                  refl);
          finishes =
              first_law short_policy (status_attempt o shipping none) tt shipped done
                (rw (status_of_Present o shipping none shipped.orders there_paid).0 refl);
        }

    -- An order of quantities that are not negative, which the program does not enforce, whose
    -- products are for sale and whose items are there in valid stocks, in tables whose next ids are
    -- free, with a Stripe that takes the charge and a database that takes its row, in a run of
    -- Temporal in which no answer of an attempt is lost and no other workflow runs (`Lossless`):
    -- placeOrderWorkflow returns the ids of the new order, payment and shipment, the items are
    -- sold, the order is SHIPPING and has a shipment to its address.
    pub place-IsReady :
        let (r, s') = place_order_workflow (services g accepts temporal refund_policy) dto user s in
        (r ≡ ok (receipt_of (suc s.order_seq) (suc s.shipping_seq) (suc s.payment_seq)))
        × (s'.inventories ≡ sell dto.items s.inventories)
        × ((q : OrderEntity) × (with_id (suc s.order_seq) s'.orders ≡ some q)
            × (q.status ≡ shipping))
        × ((h : ShippingEntity) × (shipment_of (suc s.order_seq) s'.shippings ≡ some h)
            × (h.address ≡ dto.address))
    place-IsReady =
        let there_saved = (save_payment_id_ids o p created.orders).present o there in
        let there_paid = (update_order_status_ids o paid none saved.orders).present o there_saved in
        rw
          (place_order-Straight (services g accepts temporal refund_policy) dto user o p
            (suc s.shipping_seq) prices total straight)
          (
            refl,
            refl,
            (status_of_Present o shipping none shipped.orders there_paid).1,
            create_shipped (suc s.shipping_seq) confirmed.clock o dto.address s.shippings
                ready.unshipped,
          )
