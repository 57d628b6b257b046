-- ===== src/Workflow/Straight.antt =====
-- A run of the `try` block in which every activity succeeds.
use nest_microservices_tempo.Prelude.{ℕ, ℤ, ◌≡◌, refl, true, Option, none, some, map}
use nest_microservices_tempo.Errors.{ok}
use nest_microservices_tempo.Inventory.{OrderItem}
use nest_microservices_tempo.Order.{shipping, paid, CreateOrderDto, Prices}
use nest_microservices_tempo.Workflow.{
  Activities, Receipt, Progress, nothing_done, place_steps, charge_steps, ship_steps,
  place_order_workflow,
}

abbrev pub receipt_of : (order_id shipment_id payment_id : ℕ) → Receipt
receipt_of o q p = record { order_id = o; status = shipping; shipment_id = q; payment_id = p }

abbrev pub all_done : (order_id payment_id : ℕ) → ℤ → Progress
all_done o p n = record {
  order_id = some o;
  payment_id = some p;
  total_amount = some n;
  inventory_reserved = true;
  charge_attempted = true;
  inventory_confirmed = true;
}

module _ {S : Type 0} (a : Activities S) (dto : CreateOrderDto) (user : Option ℕ) (o p q : ℕ)
    (prices : Prices) (total : ℤ) where
  -- The answers of the activities, and the states between them.
  pub record Straight (s created reserved charged saved paid_for confirmed shipped done : S)
      : Type 0 where
    pub valid :
        a.validate_products (map (λ (i : OrderItem). i.product_id) dto.items) s ≡ (ok true, s)
    pub priced :
        a.get_product_prices (map (λ (i : OrderItem). i.product_id) dto.items) s ≡ (ok prices, s)
    pub creates : a.create_order dto prices user s ≡ (ok o, created)
    pub reserves : a.reserve_inventory o dto.items created ≡ (ok tt, reserved)
    pub totals : a.get_order_total_amount o reserved ≡ (ok total, reserved)
    pub charges : a.charge_payment o total reserved ≡ (ok p, charged)
    pub saves : a.save_payment_id o p charged ≡ (ok tt, saved)
    pub pays : a.update_order_status o paid none saved ≡ (ok tt, paid_for)
    pub confirms : a.confirm_inventory o dto.items paid_for ≡ (ok tt, confirmed)
    pub ships : a.create_shipment o dto.address confirmed ≡ (ok q, shipped)
    pub finishes : a.update_order_status o shipping none shipped ≡ (ok tt, done)

  pub place_steps-Straight :
      {s s₁ s₂ s₃ s₄ s₅ s₆ s₇ s₈ : S}
      → Straight s s₁ s₂ s₃ s₄ s₅ s₆ s₇ s₈
      → place_steps a dto user (nothing_done, s) ≡ (ok (receipt_of o q p), (all_done o p total, s₈))
  unfolding place_steps charge_steps ship_steps
  place_steps-Straight r =
      rw
        (
          r.valid, r.priced, r.creates, r.reserves, r.totals, r.charges, r.saves, r.pays,
          r.confirms, r.ships, r.finishes,
        )
        refl

  pub place_order-Straight :
      {s s₁ s₂ s₃ s₄ s₅ s₆ s₇ s₈ : S}
      → Straight s s₁ s₂ s₃ s₄ s₅ s₆ s₇ s₈
      → place_order_workflow a dto user s ≡ (ok (receipt_of o q p), s₈)
  unfolding place_order_workflow
  place_order-Straight r = rw (place_steps-Straight r) refl
