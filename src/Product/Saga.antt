-- ===== src/Product/Saga.antt =====
-- What the saga that creates a product leaves behind (create-product.workflow.ts).
use nest_microservices_tempo.Prelude.{
  ℕ, zero, suc, ◌<◌, pos, Bool, true, false, none, [], ◌∷◌, ◌++◌, ◌≡◌, refl, ◌∙◌, ap, ◌==◌, ==-self,
  arith, ◌⊎◌, inl, inr, Bool-cases, any, keep,
}
use nest_microservices_tempo.Errors.{Exception, Result, ok, err}
use nest_microservices_tempo.Store.{update_rows, affected}
use nest_microservices_tempo.Inventory.{Inventories, InventoryEntity, initialize_inventory}
use nest_microservices_tempo.Product.{
  ProductEntity, Products, Metadata, CreateProductDto, validate_metadata, create_product,
  delete_product, new_product, or_else, live_id, is_listed, deleted, get_products,
}
use nest_microservices_tempo.Workflow.Retry.{Temporal, Lossless, short_policy}
use nest_microservices_tempo.Workflow.Rules.{Ensures, Ensures-of_state}
use nest_microservices_tempo.Product.Shop.{
  ProductActivities, remove_again, after_initialize, after_create, after_validate,
  create_product_workflow, Shop, create_attempt, initialize_attempt, delete_attempt,
  shop_activities,
}

abbrev pub new_row : (row_id id : ℕ) → CreateProductDto → InventoryEntity
new_row row_id id dto = record {
  id = row_id;
  product_id = id;
  stock = or_else dto.quantity (pos 0);
  reserved_quantity = pos 0;
  warehouse_location = none;
}

abbrev pub IsFresh : Shop → Type 0
IsFresh s = (id : ℕ) → s.product_seq < id → any (live_id id) s.products ≡ false

abbrev pub IsListing : Shop → Products → Inventories → Type 0
IsListing s listed stocks = (get_products s.products ≡ listed) × (s.inventories ≡ stocks)

listed_append :
    (p : Products) (r : ProductEntity)
    → is_listed r ≡ true
    → keep is_listed (p ++ r ∷ []) ≡ keep is_listed p ++ r ∷ []
listed_append [] r h = rw h refl
listed_append (q ∷ p) r h = ground (arith, listed_append p r h)

removed_listed :
    (id : ℕ) (p : Products) (r : ProductEntity)
    → any (live_id id) p ≡ false
    → live_id id r ≡ true
    → keep is_listed (update_rows (live_id id) deleted (p ++ r ∷ [])) ≡ keep is_listed p
removed_listed id [] r h e = rw e refl
removed_listed id (q ∷ p) r h e = ground (arith, removed_listed id p r, e)

affected_append :
    (id : ℕ) (p : Products) (r : ProductEntity)
    → live_id id r ≡ true
    → (affected (live_id id) (p ++ r ∷ []) == 0) ≡ false
affected_append id [] r e = rw e refl
affected_append id (q ∷ p) r e = ground (arith, affected_append id p r e)

any_append :
    (id : ℕ) (p : Products) (r : ProductEntity)
    → any (live_id id) p ≡ false
    → live_id id r ≡ false
    → any (live_id id) (p ++ r ∷ []) ≡ false
any_append id [] r h e = rw e refl
any_append id (q ∷ p) r h e = ground (arith, any_append id p r, e)

module _ (accepts : ℕ → Bool) (m : Metadata) (temporal : Temporal Shop)
    (lossless : Lossless temporal) (dto : CreateProductDto) (start : Shop) where
  open lossless use {attempts_law}

  abbrev them : ProductActivities Shop
  them = shop_activities accepts m temporal

  -- Before the product is there; with the product as the last row; and with its stock.
  abbrev Before : Shop → Type 0
  Before s = IsFresh s × IsListing s (get_products start.products) start.inventories

  abbrev IsLast : ℕ → Shop → Type 0
  IsLast id s =
      (rest : Products) × (s.products ≡ rest ++ new_product id dto ∷ [])
      × (any (live_id id) rest ≡ false)
      × (get_products rest ≡ get_products start.products)

  abbrev Made : ℕ → Shop → Type 0
  Made id s = ((n : ℕ) × (id ≡ suc n)) × IsLast id s × (s.inventories ≡ start.inventories)

  abbrev IsStocked : ℕ → Shop → Type 0
  IsStocked id s =
      IsLast id s × ((row : ℕ) × (s.inventories ≡ start.inventories ++ new_row row id dto ∷ []))

  created : (s : Shop) → Before s → Ensures Before (λ id. Made id) (create_attempt accepts dto s)
  unfolding create_product
  created s (fresh, (listed, stocks)) = elim (Bool-cases (accepts s.clock)) [
    | inl h ↦ rw h (
      (s.product_seq, refl),
      (s.products, refl, fresh (suc s.product_seq) (omega arith), listed),
      stocks,
    )
    | inr h ↦ rw h ((λ id later. fresh id (omega (arith, later))), (listed, stocks))
  ]

  stocked :
      (id : ℕ) (s : Shop)
      → Made id s
      → Ensures
          (Made id)
          (λ _. IsStocked id)
          (initialize_attempt id (or_else dto.quantity (pos 0)) s)
  unfolding initialize_inventory
  stocked id s (positive, last, stocks) =
      elim (Bool-cases (any (λ r. r.product_id == id) s.inventories)) [
        | inl h ↦ rw h (positive, last, stocks)
        | inr h ↦
            rw h (last, (suc s.row_seq, ap (λ t. t ++ new_row (suc s.row_seq) id dto ∷ []) stocks))
      ]

  removed :
      (id : ℕ) (s : Shop)
      → Made id s
      → Ensures
          (Made id)
          (λ _ s'. IsListing s' (get_products start.products) start.inventories)
          (delete_attempt accepts id s)
  unfolding delete_product get_products
  removed id s (positive, (rest, is, new, listed), stocks) = elim (Bool-cases (accepts s.clock)) [
    | inl h ↦
        let it : live_id id (new_product id dto) ≡ true = ==-self id in
        rw (h, is, affected_append id rest (new_product id dto) it)
          (removed_listed id rest (new_product id dto) new it ∙ listed, stocks)
    | inr h ↦ rw h (positive, (rest, is, new, listed), stocks)
  ]

  listed_last :
      (id : ℕ) (s : Shop)
      → IsLast id s
      → get_products s.products ≡ get_products start.products ++ new_product id dto ∷ []
  unfolding get_products
  listed_last id s (rest, is, _, listed) =
      rw is (
        listed_append rest (new_product id dto) refl
        ∙ ap (λ t. t ++ new_product id dto ∷ []) listed)

  -- Of a success: the product and its stock. Of a failure: the stocks as they were, and no product
  -- more to be seen; or the compensation has failed with the error that is thrown, and the product is
  -- still there.
  abbrev pub Outcome : Result ℕ × Shop → Type 0
  Outcome (ok id, s) =
      (row : ℕ) × IsListing s (get_products start.products ++ new_product id dto ∷ [])
        (start.inventories ++ new_row row id dto ∷ [])
  Outcome (err e, s) =
      IsListing s (get_products start.products) start.inventories
      ⊎ ((id : ℕ) × (s₂ : Shop) × (them.delete_product id s₂ ≡ (err e, s))
          × IsListing s (get_products start.products ++ new_product id dto ∷ []) start.inventories)

  after_removal :
      (id : ℕ) (e : Exception) (s₂ : Shop) (x : Result (Unit {0}) × Shop)
      → them.delete_product id s₂ ≡ x
      → Ensures (Made id) (λ _ s'. IsListing s' (get_products start.products) start.inventories) x
      → Outcome (remove_again them e x)
  after_removal id e s₂ (ok _, s) same h = inl h
  after_removal id e s₂ (err f, s) same (_, last, stocks) =
      inr (id, s₂, same, (listed_last id s last, stocks))

  after_stock :
      (id : ℕ) (x : Result (Unit {0}) × Shop)
      → Ensures (Made id) (λ _. IsStocked id) x
      → Outcome (after_initialize them id x)
  after_stock id (ok _, s) (last, (row, stocks)) = (row, (listed_last id s last, stocks))
  after_stock zero (err e, s) ((_, none_such), _, _) = cc
  after_stock (suc n) (err e, s) made =
      after_removal (suc n) e s (them.delete_product (suc n) s) refl (
        attempts_law short_policy (delete_attempt accepts (suc n)) (Made (suc n)) _
          (removed (suc n)) s made)

  after_product :
      (x : Result ℕ × Shop) → Ensures Before (λ id. Made id) x → Outcome (after_create them dto x)
  after_product (err e, s) (_, listing) = inl listing
  after_product (ok id, s) made = after_stock id _ (
      attempts_law short_policy (initialize_attempt id (or_else dto.quantity (pos 0))) (Made id) _
        (stocked id) s made)

  after_check :
      (x : Result (Unit {0}) × Shop)
      → Ensures Before (λ _. Before) x
      → Outcome (after_validate them dto x)
  after_check (err e, s) (_, listing) = inl listing
  after_check (ok _, s) before =
      after_product _
        (attempts_law short_policy (create_attempt accepts dto) Before _ created s before)

  -- Over the services, whose attempts are retried, where no answer of an attempt is lost and no other
  -- workflow runs (`Lossless`), from a state whose next ids no product has: where createProductWorkflow
  -- returns an id, that product is to be seen after the others, with its quantity in a new row of stock.
  -- Where it throws, the stocks are as they were; and either the products to be seen are as they were
  -- too, since a product whose stock cannot be set up is deleted again; or that deletion has failed with
  -- the error that is thrown, and then the product is to be seen and has no stock.
  pub create_product_workflow_lem : IsFresh start → Outcome (create_product_workflow them dto start)
  unfolding create_product_workflow
  create_product_workflow_lem fresh = after_check _ (
      attempts_law short_policy
        (λ s. (validate_metadata m dto.category_id dto.brand_id dto.tag_ids, s)) Before
        (λ _. Before)
        (λ s h.
          Ensures-of_state Before (validate_metadata m dto.category_id dto.brand_id dto.tag_ids, s)
            h)
        start (fresh, (refl, refl)))
