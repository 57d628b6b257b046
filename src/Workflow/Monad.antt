-- ===== src/Workflow/Monad.antt =====
-- Steps of a workflow: an outcome and the state after it, also where the outcome is a thrown error.
use nest_microservices_tempo.Prelude.{ℕ, ℤ, String, Bool, false, Option, none, List, if◌then◌else◌}
use nest_microservices_tempo.Errors.{Message, Exception, Result, ok, err}
use nest_microservices_tempo.Inventory.{OrderItem}
use nest_microservices_tempo.Order.{OrderStatus, CreateOrderDto, Prices}

abbrev pub Action : Type 0 → Type 0 → Type 0
Action S A = S → Result A × S

-- What follows the outcome of a step.
abbrev pub followed : {S A B : Type 0} → Result A × S → (A → Action S B) → Result B × S
followed (ok a, s) k = k a s
followed (err e, s) k = (err e, s)

infixl 5 ◌>>=◌ ◌>>◌
abbrev pub ◌>>=◌ : {S A B : Type 0} → Action S A → (A → Action S B) → Action S B
◌>>=◌ m k s = followed (m s) k

abbrev pub ◌>>◌ : {S A B : Type 0} → Action S A → Action S B → Action S B
m >> k = m >>= λ _. k

abbrev pub pure : {S A : Type 0} → A → Action S A
pure a s = (ok a, s)

abbrev pub throw : {S A : Type 0} → Exception → Action S A
throw e s = (err e, s)

abbrev pub throw_unless : {S : Type 0} → Bool → Exception → Action S (Unit {0})
throw_unless c e s = (if c then ok tt else err e, s)

-- The activities that the workflows of an order call.
pub record Activities (S : Type 0) : Type 0 where
  pub validate_products : List ℕ → Action S Bool
  pub get_product_prices : List ℕ → Action S Prices
  pub create_order : CreateOrderDto → Prices → Option ℕ → Action S ℕ
  pub get_order_total_amount : ℕ → Action S ℤ
  pub save_payment_id : ℕ → ℕ → Action S (Unit {0})
  pub update_order_status : ℕ → OrderStatus → Option Message → Action S (Unit {0})
  pub get_payment_id : ℕ → Action S (Option ℕ)
  pub get_order_items : ℕ → Action S (List OrderItem)
  pub reserve_inventory : ℕ → List OrderItem → Action S (Unit {0})
  pub release_inventory : ℕ → List OrderItem → Action S (Unit {0})
  pub confirm_inventory : ℕ → List OrderItem → Action S (Unit {0})
  pub restore_inventory : ℕ → List OrderItem → Action S (Unit {0})
  pub charge_payment : ℕ → ℤ → Action S ℕ
  pub refund_payment : ℕ → Option ℤ → Action S (Unit {0})
  pub create_shipment : ℕ → String → Action S ℕ

-- The variables and progress flags of placeOrderWorkflow, which its `catch` reads.
pub record Progress : Type 0 where
  pub order_id : Option ℕ
  pub payment_id : Option ℕ
  pub total_amount : Option ℤ
  pub inventory_reserved : Bool
  pub charge_attempted : Bool
  pub inventory_confirmed : Bool

abbrev pub nothing_done : Progress
nothing_done = record {
  order_id = none;
  payment_id = none;
  total_amount = none;
  inventory_reserved = false;
  charge_attempted = false;
  inventory_confirmed = false;
}

-- A call of an activity leaves the variables alone, an assignment the services.
abbrev pub call : {S A : Type 0} → Action S A → Action (Progress × S) A
call m (v, s) = let (r, s') = m s in (r, (v, s'))

abbrev pub assign : {S : Type 0} → (Progress → Progress) → Action (Progress × S) (Unit {0})
assign f (v, s) = (ok tt, (f v, s))
