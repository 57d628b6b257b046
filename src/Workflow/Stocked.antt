-- ===== src/Workflow/Stocked.antt =====
-- The stocks of the saga that places an order (place-order.workflow.ts), where the steps of other orders
-- fall between its own: whether the order's items are free, held or sold.
use nest_microservices_tempo.Prelude.{
  ℕ, suc, ℤ, String, Bool, true, false, Option, none, some, List, map, ◌≡◌, refl, if◌then◌else◌,
}
use nest_microservices_tempo.Errors.{Message, Result}
use nest_microservices_tempo.Inventory.{OrderItem}
use nest_microservices_tempo.Order.{
  OrderStatus, shipping, paid, place_failed, CreateOrderDto, Prices,
}
use nest_microservices_tempo.Workflow.Monad.{followed, Action, Activities}
use nest_microservices_tempo.Workflow.{
  Progress, nothing_done, Receipt, truthy, ship_steps, charge_steps, place_steps,
}
use nest_microservices_tempo.Workflow.Rules.{
  Ensures, call_Ensures, unless_Ensures, Ensures-of_state, Ensures-imp,
}

-- `Sound s`: the tables are well-formed. The others are of one order: it is there, and its items are
-- neither held nor sold, or held, or sold; its status is PLACE_FAILED.
pub record StockView (S : Type 0) : Type 1 where
  pub Sound : S → Type 0
  pub Free : ℕ → S → Type 0
  pub Held : ℕ → S → Type 0
  pub Sold : ℕ → S → Type 0
  pub Failed : ℕ → S → Type 0

module _ {S : Type 0} (a : Activities S) (view : StockView S) (items : List OrderItem) where
  -- What was free, held or sold of the order is so still.
  pub record Leaves (o : ℕ) (s s' : S) : Type 0 where
    pub free : view.Free o s → view.Free o s'
    pub held : view.Held o s → view.Held o s'
    pub sold : view.Sold o s → view.Sold o s'

  pub record IsStocking : Type 0 where
    pub validate_sound :
        (l : List ℕ) (s : S) → view.Sound s → view.Sound (a.validate_products l s).1
    pub prices_sound : (l : List ℕ) (s : S) → view.Sound s → view.Sound (a.get_product_prices l s).1
    pub create_free :
        (d : CreateOrderDto) (p : Prices) (u : Option ℕ) (s : S)
        → view.Sound s
        → Ensures
            (λ _. Unit {0})
            (λ o s'. (n : ℕ) × (o ≡ suc n) × view.Free o s')
            (a.create_order d p u s)
    pub total_law : (o : ℕ) (s : S) → Leaves o s (a.get_order_total_amount o s).1
    pub save_law : (o p : ℕ) (s : S) → Leaves o s (a.save_payment_id o p s).1
    pub status_law :
        (o : ℕ) (st : OrderStatus) (m : Option Message) (s : S)
        → Leaves o s (a.update_order_status o st m s).1
    pub failed_law :
        (o : ℕ) (m : Message) (s : S)
        → view.Free o s
        → Ensures
            (λ _. ⊥)
            (λ _ s'. view.Free o s' × view.Failed o s')
            (a.update_order_status o place_failed (some m) s)
    pub shipment_law : (o : ℕ) (x : String) (s : S) → Leaves o s (a.create_shipment o x s).1
    pub charge_law : (o : ℕ) (total : ℤ) (s : S) → Leaves o s (a.charge_payment o total s).1
    pub refund_law : (o : ℕ) (total : Option ℤ) (s : S) → Leaves o s (a.refund_payment o total s).1
    pub reserve_law :
        (o : ℕ) (s : S)
        → view.Free o s
        → Ensures (view.Free o) (λ _. view.Held o) (a.reserve_inventory o items s)
    pub confirm_law :
        (o : ℕ) (s : S)
        → view.Held o s
        → Ensures (view.Held o) (λ _. view.Sold o) (a.confirm_inventory o items s)
    pub release_law :
        (o : ℕ) (s : S)
        → view.Held o s
        → Ensures (λ _. ⊥) (λ _. view.Free o) (a.release_inventory o items s)
    pub restore_law :
        (o : ℕ) (s : S)
        → view.Sold o s
        → Ensures (λ _. ⊥) (λ _. view.Free o) (a.restore_inventory o items s)

module _ {S : Type 0} (a : Activities S) (view : StockView S) (dto : CreateOrderDto)
    (law : IsStocking a view dto.items) where
  -- What the flags say was done to the stocks.
  abbrev pub StockOf : ℕ → Bool → Bool → S → Type 0
  StockOf o confirmed reserved s =
      if confirmed then view.Sold o s else (if reserved then view.Held o s else view.Free o s)

  -- What the `catch` block finds, wherever the `try` block has thrown.
  abbrev pub Returnable : Progress × S → Type 0
  Returnable (v, s) = elim v.order_id [
    | none ↦ Unit {0}
    | some o ↦ (truthy (some o) ≡ true) × StockOf o v.inventory_confirmed v.inventory_reserved s
  ]

  abbrev pub Bought : Receipt → Progress × S → Type 0
  Bought r (v, s) = view.Sold r.order_id s

  abbrev Known : (ℕ → S → Type 0) → ℕ → S → Type 0
  Known P o s = (truthy (some o) ≡ true) × P o s

  then_call :
      {A : Type 0} (v : Progress) (Fail : S → Type 0) (Mid : A → S → Type 0) (r : Result A × S)
      (k : A → Action (Progress × S) Receipt)
      → ((s : S) → Fail s → Returnable (v, s))
      → Ensures Fail Mid r
      → ((x : A) (s : S) → Mid x s → Ensures Returnable Bought (k x (v, s)))
      → Ensures Returnable Bought (followed (let (x, s') = r in (x, (v, s'))) k)
  then_call v Fail Mid r k undo e f =
      call_Ensures Returnable Mid Bought v r k (Ensures-imp _ _ _ _ r undo (λ _ _ h. h) e) f

  ship_steps-Returnable :
      (o p : ℕ) (v : Progress) (s : S)
      → v.order_id ≡ some o
      → v.inventory_confirmed ≡ false
      → v.inventory_reserved ≡ true
      → Known view.Held o s
      → Ensures Returnable Bought (ship_steps a dto o p (v, s))
  unfolding ship_steps
  ship_steps-Returnable o p v s at_o unconfirmed reserved (n, h) =
      then_call _ (view.Held o) (λ _. view.Sold o) (a.confirm_inventory o dto.items s) _
        (λ s' k. rw (at_o, unconfirmed, reserved) (n, k)) (law.confirm_law o s h)
        λ _ s₁ h₁.
          then_call _ (view.Sold o) (λ _. view.Sold o) (a.create_shipment o dto.address s₁) _
            (λ s' k. rw at_o (n, k))
            (Ensures-of_state (view.Sold o) _ ((law.shipment_law o dto.address s₁).sold h₁))
            λ q s₂ h₂.
              then_call _ (view.Sold o) (λ _. view.Sold o)
                (a.update_order_status o shipping none s₂) _ (λ s' k. rw at_o (n, k))
                (Ensures-of_state (view.Sold o) _ ((law.status_law o shipping none s₂).sold h₂))
                λ _ s₃ h₃. h₃

  charge_steps-Returnable :
      (o : ℕ) (v : Progress) (s : S)
      → v.order_id ≡ some o
      → v.inventory_confirmed ≡ false
      → v.inventory_reserved ≡ true
      → Known view.Held o s
      → Ensures Returnable Bought (charge_steps a dto o (v, s))
  unfolding charge_steps
  charge_steps-Returnable o v s at_o unconfirmed reserved (n, h) =
      then_call _ (view.Held o) (λ _. view.Held o) (a.get_order_total_amount o s) _
        (λ s' k. rw (at_o, unconfirmed, reserved) (n, k))
        (Ensures-of_state (view.Held o) _ ((law.total_law o s).held h))
        λ total s₁ h₁.
          then_call _ (view.Held o) (λ _. view.Held o) (a.charge_payment o total s₁) _
            (λ s' k. rw (at_o, unconfirmed, reserved) (n, k))
            (Ensures-of_state (view.Held o) _ ((law.charge_law o total s₁).held h₁))
            λ p s₂ h₂.
              then_call _ (view.Held o) (λ _. view.Held o) (a.save_payment_id o p s₂) _
                (λ s' k. rw (at_o, unconfirmed, reserved) (n, k))
                (Ensures-of_state (view.Held o) _ ((law.save_law o p s₂).held h₂))
                λ _ s₃ h₃.
                  then_call _ (view.Held o) (λ _. view.Held o)
                    (a.update_order_status o paid none s₃) _
                    (λ s' k. rw (at_o, unconfirmed, reserved) (n, k))
                    (Ensures-of_state (view.Held o) _ ((law.status_law o paid none s₃).held h₃))
                    λ _ s₄ h₄. ship_steps-Returnable o p _ s₄ at_o unconfirmed reserved (n, h₄)

  pub place_steps-Returnable :
      (user : Option ℕ) (s : S)
      → view.Sound s
      → Ensures Returnable Bought (place_steps a dto user (nothing_done, s))
  unfolding place_steps
  place_steps-Returnable user s sound =
      let ids = map (λ (i : OrderItem). i.product_id) dto.items in
      then_call _ view.Sound (λ _. view.Sound) (a.validate_products ids s) _ (λ s' _. tt)
        (Ensures-of_state view.Sound _ (law.validate_sound ids s sound))
        λ is_valid s₁ e₁.
          unless_Ensures Returnable Bought is_valid _ (nothing_done, s₁) _ tt
            (then_call _ view.Sound (λ _. view.Sound) (a.get_product_prices ids s₁) _ (λ s' _. tt)
              (Ensures-of_state view.Sound _ (law.prices_sound ids s₁ e₁))
              λ prices s₂ e₂.
                then_call _ (λ _. Unit {0}) (Known view.Free) (a.create_order dto prices user s₂) _
                  (λ s' _. tt)
                  (Ensures-imp _ _ _ _ (a.create_order dto prices user s₂) (λ _ _. tt)
                    (λ o s' (n, is, free). (rw is refl, free))
                    (law.create_free dto prices user s₂ e₂))
                  λ o s₃ (n, free).
                    then_call _ (view.Free o) (λ _. view.Held o)
                      (a.reserve_inventory o dto.items s₃) _ (λ s' k. (n, k))
                      (law.reserve_law o s₃ free)
                      λ _ s₄ h₄. charge_steps-Returnable o _ s₄ refl refl refl (n, h₄))
