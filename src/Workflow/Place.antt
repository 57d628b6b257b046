-- ===== src/Workflow/Place.antt =====
-- The saga that places an order: what it leaves when it succeeds, and that it takes back what it has
-- done when it fails.
use nest_microservices_tempo.Prelude.{
  ℕ, ℤ, true, false, Option, none, some, map, ◌≡◌, refl, ◌∙◌, if◌then◌else◌,
}
use nest_microservices_tempo.Errors.{Result}
use nest_microservices_tempo.Inventory.{OrderItem, Inventories}
use nest_microservices_tempo.Inventory.Demand.{IsPositive}
use nest_microservices_tempo.Inventory.Saga.{IsValid}
use nest_microservices_tempo.Order.{shipping, paid, CreateOrderDto, Prices}
use nest_microservices_tempo.Workflow.Monad.{followed}
use nest_microservices_tempo.Workflow.{
  Activities, Progress, nothing_done, Receipt, truthy, ship_steps, charge_steps, place_steps,
  Action,
}
use nest_microservices_tempo.Workflow.Rules.{
  Ensures, call_Ensures, unless_Ensures, Ensures-of_state, Ensures-both, Ensures-imp,
}
use nest_microservices_tempo.Workflow.Laws.{View, KeepsMoney, Keeps, Held, Sold, IsLawful}

module _ {S : Type 0} (a : Activities S) (view : View S) (law : IsLawful a view)
    (dto : CreateOrderDto) (positive : IsPositive dto.items) (t : Inventories)
    (valid : IsValid t) where
  -- The stocks of the start, with what the flags say was done to them.
  abbrev pub StockState : Progress → S → Type 0
  StockState v s =
      if v.inventory_confirmed
      then Sold a view dto.items t s
      else (if v.inventory_reserved then Held a view dto.items t s else (view.stocks s ≡ t))

  -- Of a new order the payments agree with Stripe; before a charge is attempted no money is held, and
  -- afterwards the total is known.
  abbrev pub MoneyState : Progress → S → Type 0
  MoneyState v s = elim v.order_id [
    | none ↦ (v.inventory_confirmed ≡ false) × (v.inventory_reserved ≡ false)
    | some o ↦
        (truthy (some o) ≡ true)
        × view.Agree s o
        × (if v.charge_attempted then ((n : ℤ) × (v.total_amount ≡ some n)) else view.Settled s o)
  ]

  -- What the `catch` block relies on, wherever the `try` block has thrown.
  abbrev pub Undoable : Progress × S → Type 0
  Undoable (v, s) = StockState v s × MoneyState v s

  abbrev pub Completed : Receipt → Progress × S → Type 0
  Completed r (v, s) =
      Sold a view dto.items t s × (view.status s r.order_id ≡ some shipping) × (r.status ≡ shipping)

  abbrev pub Start : S → Type 0
  Start s = (view.stocks s ≡ t) × view.Sound s

  -- After the order has been created, and before its reservation.
  abbrev Created : ℕ → S → Type 0
  Created o s = (view.stocks s ≡ t) × (truthy (some o) ≡ true) × view.Agree s o × view.Settled s o

  -- With the items reserved, and no charge attempted.
  abbrev Reserved : ℕ → S → Type 0
  Reserved o s =
      Held a view dto.items t s × (truthy (some o) ≡ true) × view.Agree s o × view.Settled s o

  -- With the items reserved, and a charge attempted.
  abbrev Charging : ℕ → S → Type 0
  Charging o s = Held a view dto.items t s × (truthy (some o) ≡ true) × view.Agree s o

  abbrev Confirmed : ℕ → S → Type 0
  Confirmed o s = Sold a view dto.items t s × (truthy (some o) ≡ true) × view.Agree s o

  Start_kept : (s s' : S) → Keeps a view s s' → Start s → Start s'
  Start_kept s s' k (h, sound) = (k.stocks ∙ h, k.money.sound sound)

  Reserved-kept : (o : ℕ) (s s' : S) → Keeps a view s s' → Reserved o s → Reserved o s'
  Reserved-kept o s s' k (h, n, g, f) =
      ((h.0, k.stocks ∙ h.1), n, k.money.agree o g, k.money.settled o f)

  Charging-kept : (o : ℕ) (s s' : S) → Keeps a view s s' → Charging o s → Charging o s'
  Charging-kept o s s' k (h, n, g) = ((h.0, k.stocks ∙ h.1), n, k.money.agree o g)

  Confirmed-kept : (o : ℕ) (s s' : S) → Keeps a view s s' → Confirmed o s → Confirmed o s'
  Confirmed-kept o s s' k (h, n, g) = ((h.0, k.stocks ∙ h.1), n, k.money.agree o g)

  reserve_step :
      (o : ℕ) (s : S)
      → Created o s
      → Ensures (Created o) (λ _. Reserved o) (a.reserve_inventory o dto.items s)
  reserve_step o s (e, n, g, f) =
      let (money, outcome) = law.reserve_law o dto.items s (rw e valid) positive in
      Ensures-imp _ _ _ _ (a.reserve_inventory o dto.items s)
        (λ s' (m, h). (h ∙ e, n, m.agree o g, m.settled o f))
        (λ _ s' (m, h). (rw e at h, n, m.agree o g, m.settled o f))
        (Ensures-both (KeepsMoney a view s) _ (λ _. KeepsMoney a view s) _ _
          (Ensures-of_state (KeepsMoney a view s) _ money) outcome)

  confirm_step :
      (o : ℕ) (s : S)
      → Charging o s
      → Ensures (Charging o) (λ _. Confirmed o) (a.confirm_inventory o dto.items s)
  confirm_step o s (e, n, g) =
      let (money, outcome) = law.confirm_law o dto.items t s valid positive e in
      Ensures-imp _ _ _ _ (a.confirm_inventory o dto.items s) (λ s' (m, h). (h, n, m.agree o g))
        (λ _ s' (m, h). (h, n, m.agree o g))
        (Ensures-both (KeepsMoney a view s) _ (λ _. KeepsMoney a view s) _ _
          (Ensures-of_state (KeepsMoney a view s) _ money) outcome)

  create_step :
      (user : Option ℕ) (prices : Prices) (s : S)
      → Start s
      → Ensures Start Created (a.create_order dto prices user s)
  create_step user prices s e =
      let k = law.create_law dto prices user s in
      Ensures-imp _ _ _ _ (a.create_order dto prices user s) (λ s' (h, _). h)
        (λ o s' (h, (n, same, g, f)). (h.0, rw same refl, g, f))
        (Ensures-both Start _ (λ _. Start) _ _ (Ensures-of_state Start _ (Start_kept s _ k e))
          (law.create_new dto prices user s e.1))

  -- A call whose failure can be undone, and what follows it.
  then_call :
      {A : Type 0} (v : Progress) (Fail : S → Type 0) (Mid : A → S → Type 0) (r : Result A × S)
      (k : A → Action (Progress × S) Receipt)
      → ((s : S) → Fail s → Undoable (v, s))
      → Ensures Fail Mid r
      → ((x : A) (s : S) → Mid x s → Ensures Undoable Completed (k x (v, s)))
      → Ensures Undoable Completed (followed (let (x, s') = r in (x, (v, s'))) k)
  then_call v Fail Mid r k undo e f =
      call_Ensures Undoable Mid Completed v r k (Ensures-imp _ _ _ _ r undo (λ _ _ h. h) e) f

  shipped_step :
      (o : ℕ) (s : S)
      → Confirmed o s
      → Ensures
          (Confirmed o)
          (λ _ s'. Confirmed o s' × (view.status s' o ≡ some shipping))
          (a.update_order_status o shipping none s)
  shipped_step o s e =
      Ensures-imp _ _ _ _ (a.update_order_status o shipping none s) (λ s' (h, _). h) (λ _ s' h. h)
        (Ensures-both (Confirmed o) _ (λ _. Confirmed o) _ _
          (Ensures-of_state (Confirmed o) _
            (Confirmed-kept o s _ (law.status_law o shipping none s) e))
          (law.status_set o shipping none s))

  abbrev reserved_progress : ℕ → Progress
  reserved_progress o = record {
    order_id = some o;
    payment_id = none;
    total_amount = none;
    inventory_reserved = true;
    charge_attempted = false;
    inventory_confirmed = false;
  }

  abbrev charged_progress : ℕ → ℕ → ℤ → Progress
  charged_progress o p n = record {
    order_id = some o;
    payment_id = some p;
    total_amount = some n;
    inventory_reserved = true;
    charge_attempted = true;
    inventory_confirmed = false;
  }

  -- From the confirmation on.
  ship_steps-Ensures :
      (o p : ℕ) (n : ℤ) (s : S)
      → Charging o s
      → Ensures Undoable Completed (ship_steps a dto o p (charged_progress o p n, s))
  unfolding ship_steps
  ship_steps-Ensures o p n s e =
      then_call _ (Charging o) (λ _. Confirmed o) (a.confirm_inventory o dto.items s) _
        (λ s' (h, m, g). (h, (m, g, (n, refl)))) (confirm_step o s e)
        λ _ s₁ e₁.
          then_call _ (Confirmed o) (λ _. Confirmed o) (a.create_shipment o dto.address s₁) _
            (λ s' (h, m, g). (h, (m, g, (n, refl))))
            (Ensures-of_state (Confirmed o) _
              (Confirmed-kept o s₁ _ (law.shipment_law o dto.address s₁) e₁))
            λ q s₂ e₂.
              then_call _ (Confirmed o)
                (λ _ s'. Confirmed o s' × (view.status s' o ≡ some shipping))
                (a.update_order_status o shipping none s₂) _
                (λ s' (h, m, g). (h, (m, g, (n, refl)))) (shipped_step o s₂ e₂)
                λ _ s₃ (c, st). (c.0, st, refl)

  -- From the charge on: the block after the reservation.
  charge_steps-Ensures :
      (o : ℕ) (s : S)
      → Reserved o s
      → Ensures Undoable Completed (charge_steps a dto o (reserved_progress o, s))
  unfolding charge_steps ship_steps
  charge_steps-Ensures o s e =
      then_call _ (Reserved o) (λ _. Reserved o) (a.get_order_total_amount o s) _
        (λ s' (h, n, g, f). (h, (n, g, f)))
        (Ensures-of_state (Reserved o) _ (Reserved-kept o s _ (law.total_law o s) e))
        λ total s₁ (h₁, n₁, g₁, _).
          then_call _ (Charging o) (λ _. Charging o) (a.charge_payment o total s₁) _
            (λ s' (h, n, g). (h, (n, g, (total, refl))))
            (Ensures-of_state (Charging o) _
              ((h₁.0, law.charge_stocks o total s₁ ∙ h₁.1), n₁, law.charge_law o total s₁ g₁))
            λ p s₂ e₂.
              then_call _ (Charging o) (λ _. Charging o) (a.save_payment_id o p s₂) _
                (λ s' (h, n, g). (h, (n, g, (total, refl))))
                (Ensures-of_state (Charging o) _ (Charging-kept o s₂ _ (law.save_law o p s₂) e₂))
                λ _ s₃ e₃.
                  then_call _ (Charging o) (λ _. Charging o) (a.update_order_status o paid none s₃)
                    _ (λ s' (h, n, g). (h, (n, g, (total, refl))))
                    (Ensures-of_state (Charging o) _
                      (Charging-kept o s₃ _ (law.status_law o paid none s₃) e₃))
                    λ _ s₄ e₄. ship_steps-Ensures o p total s₄ e₄

  pub place_steps-Ensures :
      (user : Option ℕ) (s : S)
      → Start s
      → Ensures Undoable Completed (place_steps a dto user (nothing_done, s))
  unfolding place_steps
  place_steps-Ensures user s e =
      let ids = map (λ (i : OrderItem). i.product_id) dto.items in
      then_call _ Start (λ _. Start) (a.validate_products ids s) _ (λ s' h. (h.0, (refl, refl)))
        (Ensures-of_state Start _ (Start_kept s _ (law.validate_law ids s) e))
        λ is_valid s₁ e₁.
          unless_Ensures Undoable Completed is_valid _ (nothing_done, s₁) _ (e₁.0, (refl, refl))
            (then_call _ Start (λ _. Start) (a.get_product_prices ids s₁) _
              (λ s' h. (h.0, (refl, refl)))
              (Ensures-of_state Start _ (Start_kept s₁ _ (law.prices_law ids s₁) e₁))
              λ prices s₂ e₂.
                then_call _ Start Created (a.create_order dto prices user s₂) _
                  (λ s' h. (h.0, (refl, refl))) (create_step user prices s₂ e₂)
                  λ o s₃ e₃.
                    then_call _ (Created o) (λ _. Reserved o) (a.reserve_inventory o dto.items s₃) _
                      (λ s' (h, n, g, f). (h, (n, g, f))) (reserve_step o s₃ e₃)
                      λ _ s₄ e₄. charge_steps-Ensures o s₄ e₄)
