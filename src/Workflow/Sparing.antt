-- ===== src/Workflow/Sparing.antt =====
-- The `try` block of the saga that places an order (place-order.workflow.ts), under weaker laws than those of
-- the whole saga: an activity may have run any number of times, also where it reports a failure, and
-- others may have run between its attempts, so that nothing is said of the stocks.
use nest_microservices_tempo.Prelude.{
  ℕ, suc, ℤ, String, true, false, Option, none, some, List, map, ◌≡◌, refl, if◌then◌else◌,
}
use nest_microservices_tempo.Errors.{Message, Result}
use nest_microservices_tempo.Inventory.{OrderItem}
use nest_microservices_tempo.Order.{OrderStatus, shipping, paid, CreateOrderDto, Prices}
use nest_microservices_tempo.Workflow.Monad.{followed, Action, Activities}
use nest_microservices_tempo.Workflow.{
  Progress, nothing_done, Receipt, truthy, ship_steps, charge_steps, place_steps,
}
use nest_microservices_tempo.Workflow.Rules.{
  Ensures, call_Ensures, unless_Ensures, Ensures-of_state, Ensures-imp,
}
use nest_microservices_tempo.Workflow.Laws.{View}

module _ {S : Type 0} (a : Activities S) (view : View S) where
  -- The order's records still agree with Stripe, and its money is settled if it was.
  abbrev pub Spares : ℕ → S → S → Type 0
  Spares o s s' = view.Agree s o → view.Agree s' o × (view.Settled s o → view.Settled s' o)

  pub record IsSparing : Type 0 where
    pub validate_sound :
        (l : List ℕ) (s : S) → view.Sound s → view.Sound (a.validate_products l s).1
    pub prices_sound : (l : List ℕ) (s : S) → view.Sound s → view.Sound (a.get_product_prices l s).1
    pub create_new :
        (d : CreateOrderDto) (p : Prices) (u : Option ℕ) (s : S)
        → view.Sound s
        → Ensures
            (λ _. Unit {0})
            (λ o s'. (n : ℕ) × (o ≡ suc n) × view.Agree s' o × view.Settled s' o)
            (a.create_order d p u s)
    pub total_law : (o : ℕ) (s : S) → Spares o s (a.get_order_total_amount o s).1
    pub save_law : (o p : ℕ) (s : S) → Spares o s (a.save_payment_id o p s).1
    pub status_law :
        (o : ℕ) (st : OrderStatus) (m : Option Message) (s : S)
        → Spares o s (a.update_order_status o st m s).1
    pub shipment_law : (o : ℕ) (x : String) (s : S) → Spares o s (a.create_shipment o x s).1
    pub reserve_law :
        (o : ℕ) (items : List OrderItem) (s : S) → Spares o s (a.reserve_inventory o items s).1
    pub release_law :
        (o : ℕ) (items : List OrderItem) (s : S) → Spares o s (a.release_inventory o items s).1
    pub confirm_law :
        (o : ℕ) (items : List OrderItem) (s : S) → Spares o s (a.confirm_inventory o items s).1
    pub restore_law :
        (o : ℕ) (items : List OrderItem) (s : S) → Spares o s (a.restore_inventory o items s).1
    pub charge_law :
        (o : ℕ) (total : ℤ) (s : S) → view.Agree s o → view.Agree (a.charge_payment o total s).1 o
    pub refund_law :
        (o : ℕ) (total : ℤ) (s : S)
        → view.Agree s o
        → Ensures
            (λ s'. view.Agree s' o)
            (λ _ s'. view.Agree s' o × view.Settled s' o)
            (a.refund_payment o (some total) s)

module _ {S : Type 0} (a : Activities S) (view : View S) (law : IsSparing a view)
    (dto : CreateOrderDto) where
  -- What the `catch` block finds, wherever the `try` block has thrown.
  abbrev pub Refundable : Progress × S → Type 0
  Refundable (v, s) = elim v.order_id [
    | none ↦ Unit {0}
    | some o ↦
        (truthy (some o) ≡ true)
        × view.Agree s o
        × (if v.charge_attempted then ((n : ℤ) × (v.total_amount ≡ some n)) else view.Settled s o)
  ]

  abbrev pub Placed : Receipt → Progress × S → Type 0
  Placed r (v, s) = view.Agree s r.order_id

  -- Before a charge is attempted, and after.
  abbrev Unpaid : ℕ → S → Type 0
  Unpaid o s = (truthy (some o) ≡ true) × view.Agree s o × view.Settled s o

  abbrev Charging : ℕ → S → Type 0
  Charging o s = (truthy (some o) ≡ true) × view.Agree s o

  Unpaid-kept : (o : ℕ) (s s' : S) → Spares a view o s s' → Unpaid o s → Unpaid o s'
  Unpaid-kept o s s' k (n, g, f) = let (g', keep) = k g in (n, g', keep f)

  Charging-kept : (o : ℕ) (s s' : S) → Spares a view o s s' → Charging o s → Charging o s'
  Charging-kept o s s' k (n, g) = (n, (k g).0)

  -- A call after which, whatever its outcome, something holds, and what follows it.
  then_call :
      {A : Type 0} (v : Progress) (P : S → Type 0) (r : Result A × S)
      (k : A → Action (Progress × S) Receipt)
      → ((s : S) → P s → Refundable (v, s))
      → P r.1
      → ((x : A) (s : S) → P s → Ensures Refundable Placed (k x (v, s)))
      → Ensures Refundable Placed (followed (let (x, s') = r in (x, (v, s'))) k)
  then_call v P r k refundable p f =
      call_Ensures Refundable (λ _. P) Placed v r k
        (Ensures-imp _ _ _ _ r refundable (λ _ _ h. h) (Ensures-of_state P r p)) f

  ship_steps-Refundable :
      (o p : ℕ) (v : Progress) (s : S)
      → v.order_id ≡ some o
      → v.charge_attempted ≡ true
      → (n : ℤ) × (v.total_amount ≡ some n)
      → Charging o s
      → Ensures Refundable Placed (ship_steps a dto o p (v, s))
  unfolding ship_steps
  ship_steps-Refundable o p v s at_o made total e =
      then_call _ (Charging o) (a.confirm_inventory o dto.items s) _
        (λ s' (m, g). rw (at_o, made) (m, g, total))
        (Charging-kept o s _ (law.confirm_law o dto.items s) e)
        λ _ s₁ e₁.
          then_call _ (Charging o) (a.create_shipment o dto.address s₁) _
            (λ s' (m, g). rw (at_o, made) (m, g, total))
            (Charging-kept o s₁ _ (law.shipment_law o dto.address s₁) e₁)
            λ q s₂ e₂.
              then_call _ (Charging o) (a.update_order_status o shipping none s₂) _
                (λ s' (m, g). rw (at_o, made) (m, g, total))
                (Charging-kept o s₂ _ (law.status_law o shipping none s₂) e₂) λ _ s₃ (_, g). g

  charge_steps-Refundable :
      (o : ℕ) (v : Progress) (s : S)
      → v.order_id ≡ some o
      → v.charge_attempted ≡ false
      → Unpaid o s
      → Ensures Refundable Placed (charge_steps a dto o (v, s))
  unfolding charge_steps
  charge_steps-Refundable o v s at_o unmade e =
      then_call _ (Unpaid o) (a.get_order_total_amount o s) _ (λ s' h. rw (at_o, unmade) h)
        (Unpaid-kept o s _ (law.total_law o s) e)
        λ total s₁ (n₁, g₁, _).
          then_call _ (Charging o) (a.charge_payment o total s₁) _
            (λ s' (n, g). rw at_o (n, g, (total, refl))) (n₁, law.charge_law o total s₁ g₁)
            λ p s₂ e₂.
              then_call _ (Charging o) (a.save_payment_id o p s₂) _
                (λ s' (n, g). rw at_o (n, g, (total, refl)))
                (Charging-kept o s₂ _ (law.save_law o p s₂) e₂)
                λ _ s₃ e₃.
                  then_call _ (Charging o) (a.update_order_status o paid none s₃) _
                    (λ s' (n, g). rw at_o (n, g, (total, refl)))
                    (Charging-kept o s₃ _ (law.status_law o paid none s₃) e₃)
                    λ _ s₄ e₄. ship_steps-Refundable o p _ s₄ at_o refl (total, refl) e₄

  pub place_steps-Refundable :
      (user : Option ℕ) (s : S)
      → view.Sound s
      → Ensures Refundable Placed (place_steps a dto user (nothing_done, s))
  unfolding place_steps
  place_steps-Refundable user s sound =
      let ids = map (λ (i : OrderItem). i.product_id) dto.items in
      then_call _ view.Sound (a.validate_products ids s) _ (λ s' _. tt)
        (law.validate_sound ids s sound)
        λ is_valid s₁ e₁.
          unless_Ensures Refundable Placed is_valid _ (nothing_done, s₁) _ tt
            (then_call _ view.Sound (a.get_product_prices ids s₁) _ (λ s' _. tt)
              (law.prices_sound ids s₁ e₁)
              λ prices s₂ e₂.
                call_Ensures Refundable Unpaid Placed nothing_done
                  (a.create_order dto prices user s₂) _
                  (Ensures-imp _ _ _ _ (a.create_order dto prices user s₂) (λ _ _. tt)
                    (λ o s' (n, is, g, f). (rw is refl, g, f))
                    (law.create_new dto prices user s₂ e₂))
                  λ o s₃ e₃.
                    then_call _ (Unpaid o) (a.reserve_inventory o dto.items s₃) _ (λ s' h. h)
                      (Unpaid-kept o s₃ _ (law.reserve_law o dto.items s₃) e₃)
                      λ _ s₄ e₄. charge_steps-Refundable o _ s₄ refl refl e₄)
