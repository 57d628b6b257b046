-- ===== src/System/Cluster/Repaid.antt =====
-- placeOrderWorkflow among other workflows, and with answers that are lost: what becomes of the money.
use nest_microservices_tempo.Prelude.{ℕ, suc, ℤ, ◌≡◌, Bool, Option, none, some}
use nest_microservices_tempo.Errors.{ok}
use nest_microservices_tempo.Inventory.{
  reserve_inventory, release_inventory, confirm_inventory, restore_inventory,
}
use nest_microservices_tempo.Order.{CreateOrderDto, Prices, get_order_total_amount}
use nest_microservices_tempo.Order.Ids.{update_order_status_ids, save_payment_id_ids}
use nest_microservices_tempo.Payment.{Gateway, charge_payment, refund_payment}
use nest_microservices_tempo.Payment.Stripe.{Ledger, IsStripe}
use nest_microservices_tempo.Payment.Settle.{Settled}
use nest_microservices_tempo.Payment.Touches.{charge-Touches, refund-Touches}
use nest_microservices_tempo.Product.{validate_products, get_product_prices}
use nest_microservices_tempo.Workflow.{place_steps, place_order_workflow, nothing_done}
use nest_microservices_tempo.Workflow.Monad.{Action, Activities}
use nest_microservices_tempo.Workflow.Retry.{RetryPolicy, short_policy}
use nest_microservices_tempo.Workflow.Rules.{Ensures, Ensures-of_state, Ensures-imp, Ensures-both}
use nest_microservices_tempo.Workflow.Sparing.{IsSparing}
use nest_microservices_tempo.Workflow.Repaid.{IsHonest, place_order_workflow-IsHonest}
use nest_microservices_tempo.System.{
  Services, create_attempt, status_attempt, save_attempt, stock_attempt, shipment_attempt,
  charge_attempt, refund_attempt,
}
use nest_microservices_tempo.System.Created.{created, create_attempt-IsNew}
use nest_microservices_tempo.System.Fresh.{created-Fresh}
use nest_microservices_tempo.System.Kept.{state_of-Ensures}
use nest_microservices_tempo.System.Money.{charge_attempt-IsOpen, refund_attempt-IsOpen}
use nest_microservices_tempo.System.Cluster.{
  Others, Cluster, contended, IsSound, IsAgreed, cluster_view,
}
use nest_microservices_tempo.System.Cluster.Steps.{
  Leaves, Others-IsSound, Others-Leaves, orders-Leaves, payment-IsSound,
}

module _ {St : Type 0} (g : Gateway St) (l : Ledger St) (stripe : IsStripe g l) (accepts : ℕ → Bool)
    (cluster : Cluster (Services St) (Others g accepts)) (refunds : RetryPolicy) where
  open cluster use {execute, attempts_law}

  abbrev them : Activities (Services St)
  them = contended g accepts cluster refunds

  -- What no attempt loses of a state that is well-formed.
  executed-IsSound :
      {A : Type 0} (p : RetryPolicy) (act : Action (Services St) A)
      → ((s : Services St) → IsSound l s → IsSound l (act s).1)
      → (s : Services St) → IsSound l s
      → IsSound l (execute none p act s).1
  executed-IsSound p act f s h = state_of-Ensures (IsSound l) (execute none p act s) (
      attempts_law none p act (IsSound l) (λ _. IsSound l)
        (λ s' h'. Ensures-of_state (IsSound l) (act s') (f s' h')) (λ _ _ h'. h')
        (λ s₁ s₂ st. Others-IsSound g l stripe accepts st) s h)

  -- What no attempt loses of the money of an order.
  executed-Leaves :
      {A : Type 0} (o : ℕ) (p : RetryPolicy) (act : Action (Services St) A)
      → ((s : Services St) → Leaves g l stripe accepts o s (act s).1)
      → (s : Services St) → Leaves g l stripe accepts o s (execute (some o) p act s).1
  executed-Leaves {A} o p act f s h = state_of-Ensures Kept (execute (some o) p act s) (
      attempts_law (some o) p act Kept (λ _. Kept)
        (λ s' h'. Ensures-of_state Kept (act s') (later s' (act s').1 (f s') h')) (λ _ _ h'. h')
        (λ s₁ s₂ st. later s₁ s₂ (Others-Leaves g l stripe accepts o st)) s (h, λ f. f))
    where
      Kept : Services St → Type 0
      Kept s' = IsAgreed l s' o × (Settled l s.stripe o → Settled l s'.stripe o)

      later : (s₁ s₂ : Services St) → Leaves g l stripe accepts o s₁ s₂ → Kept s₁ → Kept s₂
      later s₁ s₂ k (agreed, settled) =
          let (agreed', keep) = k agreed in (agreed', λ z. keep (settled z))

  create_attempt-IsOpen :
      (dto : CreateOrderDto) (p : Prices) (u : Option ℕ) (s : Services St)
      → IsSound l s
      → Ensures
          (IsSound l)
          (λ o s'. (n : ℕ) × (o ≡ suc n) × IsAgreed l s' o × Settled l s'.stripe o)
          (create_attempt dto p u s)
  create_attempt-IsOpen dto p u s (fresh, numbered) =
      let kept : IsSound l (create_attempt dto p u s).1 =
        (created-Fresh l s _ (created l dto p u s fresh) fresh, numbered) in
      Ensures-imp _ _ _ _ (create_attempt dto p u s) (λ s' (_, h). h)
        (λ o s' ((n, is, now, settled), h). (n, is, (now, h.1), settled))
        (Ensures-both _ _ _ _ (create_attempt dto p u s) (create_attempt-IsNew l dto p u s fresh)
          (Ensures-of_state (IsSound l) _ kept))

  charge_attempt-IsAgreed :
      (o : ℕ) (total : ℤ) (s : Services St)
      → IsAgreed l s o
      → IsAgreed l (charge_attempt g accepts o total s).1 o
  charge_attempt-IsAgreed o total s ((fresh, there, agrees), numbered) = (
    charge_attempt-IsOpen g l stripe accepts o total s (fresh, there, agrees),
    (payment-IsSound g l stripe accepts (accepts s.clock) o s
        (charge_payment g (accepts s.clock) (suc s.payment_seq) o total s.stripe s.payments) there
        (charge-Touches g l stripe (accepts s.clock) (suc s.payment_seq) o s.stripe s.payments
          total)
        (fresh, numbered)).1,
  )

  refund_attempt-IsAgreed :
      (o : ℕ) (total : Option ℤ) (s : Services St)
      → IsAgreed l s o
      → Ensures
          (λ s'. IsAgreed l s' o)
          (λ _ s'. IsAgreed l s' o × Settled l s'.stripe o)
          (refund_attempt g accepts o total s)
  refund_attempt-IsAgreed o total s ((fresh, there, agrees), numbered) =
      let (now, settled) =
        refund_attempt-IsOpen g l stripe accepts o total s (fresh, there, agrees) in
      let (_, numbered') =
        payment-IsSound g l stripe accepts (accepts s.clock) o s
          (refund_payment g (accepts s.clock) (suc s.payment_seq) o total s.stripe s.payments) there
          (refund-Touches g l stripe (accepts s.clock) (suc s.payment_seq) o s.stripe s.payments
            total)
          (fresh, numbered) in
      Ensures-imp _ _ _ _ (refund_attempt g accepts o total s) (λ _ (h, _). h) (λ _ _ h. h)
        (Ensures-both _ _ _ _ (refund_attempt g accepts o total s)
          (Ensures-of_state (λ s'. IsAgreed l s' o) _ (now, numbered')) settled)

  neutral : (s : Services St) (o : ℕ) → Leaves g l stripe accepts o s s
  neutral s o h = (h, λ f. f)

  pub sparing : IsSparing them (cluster_view l)
  sparing = record {
    validate_sound = λ ids s h.
        executed-IsSound short_policy (λ s'. (ok (validate_products ids s'.products), s'))
          (λ s' h'. h') s h;
    prices_sound = λ ids s h.
        executed-IsSound short_policy (λ s'. (ok (get_product_prices ids s'.products), s'))
          (λ s' h'. h') s h;
    create_new = λ dto p u s h.
        Ensures-imp _ _ _ _ (them.create_order dto p u s) (λ _ _. tt) (λ _ _ h'. h')
          (attempts_law none short_policy (create_attempt dto p u) (IsSound l)
            (λ o s'. (n : ℕ) × (o ≡ suc n) × IsAgreed l s' o × Settled l s'.stripe o)
            (λ s' h'. create_attempt-IsOpen dto p u s' h')
            (λ o s' (_, _, ((fresh, _, _), numbered), _). (fresh, numbered))
            (λ s₁ s₂ st. Others-IsSound g l stripe accepts st) s h);
    total_law = λ o s.
        executed-Leaves o short_policy (λ s'. (get_order_total_amount o s'.orders, s'))
          (λ s'. neutral s' o) s;
    save_law = λ o p s.
        executed-Leaves o short_policy (save_attempt o p)
          (λ s'. orders-Leaves g l stripe accepts o s' _ (save_payment_id_ids o p s'.orders)) s;
    status_law = λ o st m s.
        executed-Leaves o short_policy (status_attempt o st m)
          (λ s'. orders-Leaves g l stripe accepts o s' _ (update_order_status_ids o st m s'.orders))
          s;
    shipment_law =
        λ o x s. executed-Leaves o short_policy (shipment_attempt o x) (λ s' h. (h, λ f. f)) s;
    reserve_law = λ o items s.
        executed-Leaves o short_policy (stock_attempt reserve_inventory o items)
          (λ s' h. (h, λ f. f)) s;
    release_law = λ o items s.
        executed-Leaves o short_policy (stock_attempt release_inventory o items)
          (λ s' h. (h, λ f. f)) s;
    confirm_law = λ o items s.
        executed-Leaves o short_policy (stock_attempt confirm_inventory o items)
          (λ s' h. (h, λ f. f)) s;
    restore_law = λ o items s.
        executed-Leaves o short_policy (stock_attempt restore_inventory o items)
          (λ s' h. (h, λ f. f)) s;
    charge_law = λ o total s h.
        state_of-Ensures (λ s'. IsAgreed l s' o) (them.charge_payment o total s)
          (attempts_law (some o) short_policy (charge_attempt g accepts o total)
            (λ s'. IsAgreed l s' o) (λ _ s'. IsAgreed l s' o)
            (λ s' h'.
              Ensures-of_state (λ s''. IsAgreed l s'' o) (charge_attempt g accepts o total s')
                (charge_attempt-IsAgreed o total s' h'))
            (λ _ _ h'. h') (λ s₁ s₂ st h'. (Others-Leaves g l stripe accepts o st h').0) s h);
    refund_law = λ o total s h.
        attempts_law (some o) refunds (refund_attempt g accepts o (some total))
          (λ s'. IsAgreed l s' o) (λ _ s'. IsAgreed l s' o × Settled l s'.stripe o)
          (λ s' h'. refund_attempt-IsAgreed o (some total) s' h') (λ _ _ (h', _). h')
          (λ s₁ s₂ st h'. (Others-Leaves g l stripe accepts o st h').0) s h;
  }

  -- placeOrderWorkflow over the services, among any steps of other workflows that charge and refund
  -- other orders only, where any answer of an activity may be lost and any attempt made again: where
  -- its `try` block returns, the workflow returns that receipt, and the payment records of the order
  -- agree with Stripe. Where the `try` block throws, the workflow throws; an order that it knows by
  -- then has no money of its customer held at the end, or else a charge was attempted, its refund has
  -- failed for good, and the workflow throws the refund's error.
  pub place-contended :
      (dto : CreateOrderDto) (user : Option ℕ) (s : Services St)
      → IsSound l s
      → IsHonest them
          (cluster_view l)
          sparing
          dto
          (place_steps them dto user (nothing_done, s))
          (place_order_workflow them dto user s)
  place-contended dto user s sound =
      place_order_workflow-IsHonest them (cluster_view l) sparing dto user s sound
