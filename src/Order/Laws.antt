-- ===== src/Order/Laws.antt =====
-- The orders' operations: totals and items of a new order, what an update touches, and when a
-- cancellation is started.
use nest_microservices_tempo.Prelude.{
  ℕ, ℤ, pos, ◌+ℤ◌, ◌*ℤ◌, int_laws, ◌≡◌, ◌≢◌, ◌⊎◌, inl, inr, refl, ap, ◌∙◌, sym, Bool, true, false,
  Option, none, some, List, [], ◌∷◌, ◌++◌, map, arith, ◌==◌, if◌then◌else◌, find?, any, all, not,
  ◌&&◌, String, ==-ne, Option-cases, ==-self,
}
use nest_microservices_tempo.Errors.{
  Message, ok, err, AppErrorCode, OrderErrorCode, bad_request_exception, not_found_exception,
}
use nest_microservices_tempo.Store.{affected, update_rows}
use nest_microservices_tempo.Inventory.{OrderItem}
use nest_microservices_tempo.Order.{
  CreateOrderDto, CancelOrderDto, OrderItemEntity, OrderEntity, Orders, OrderStatus, paid, shipping,
  delivered, cancelled, place_failed, cancel_failed, refunded, pending, Prices, price_of,
  total_from, order_items, refused, create_order, update_order_status, get_order_total_amount,
  get_order_items, get_payment_id, save_payment_id, to_item, is_cancelable, new_reason,
  update_failed, new_order, has_payment, status_name,
}
use nest_microservices_tempo.Order.Service.{Start, cancel_order, get_order, cancel_order_rpc}

abbrev price_or_zero : Option ℤ → ℤ
price_or_zero none = pos 0
price_or_zero (some c) = c

-- What the items come to at the prices.
abbrev pub amount : Prices → List OrderItem → ℤ
amount prices [] = pos 0
amount prices (i ∷ is) =
    price_or_zero (price_of prices i.product_id) *ℤ i.quantity +ℤ amount prices is

abbrev pub has_price : Prices → OrderItem → Bool
has_price prices i = elim (price_of prices i.product_id) [ none ↦ false | some c ↦ true ]

+ℤ_assoc : (a b c : ℤ) → a +ℤ b +ℤ c ≡ a +ℤ (b +ℤ c)
+ℤ_assoc a b c = omega int_laws

-- The rows of priced items, their total, and the items that they give back.
abbrev IsPriced : Prices → List OrderItem → Type 0
IsPriced prices is =
    (rows : List OrderItemEntity) × (order_items prices is ≡ some rows)
    × ((acc : ℤ) → total_from prices (some acc) is ≡ some (acc +ℤ amount prices is))
    × (map to_item rows ≡ is)

pub order_items-IsPriced :
    (prices : Prices) (is : List OrderItem) → all (has_price prices) is ≡ true → IsPriced prices is
order_items-IsPriced prices [] h = ([], refl, (λ acc. ap some (omega int_laws)), refl)
order_items-IsPriced prices (i ∷ is) h = elim (Option-cases (price_of prices i.product_id)) [
  | inl e ↦ cc (rw (e, has_price) at h)
  | inr (c, e) ↦
      let (rows, made, total, back) = order_items-IsPriced prices is (rw (e, has_price) at h) in
      (
        record { product_id = i.product_id; quantity = i.quantity; price = c } ∷ rows,
        ground (arith, e, made),
        λ acc.
            ap
              (λ z.
                total_from prices (elim z [ none ↦ none | some d ↦ some (acc +ℤ d *ℤ i.quantity) ])
                  is)
              e
            ∙ total (acc +ℤ c *ℤ i.quantity)
            ∙ ap {B = Option ℤ} some (+ℤ_assoc acc (c *ℤ i.quantity) (amount prices is))
            ∙ ap (λ z. some (acc +ℤ (price_or_zero z *ℤ i.quantity +ℤ amount prices is))) (sym e),
        ap (λ l. i ∷ l) back,
      )
]

no_rows :
    (prices : Prices) (is : List OrderItem)
    → all (has_price prices) is ≡ false
    → order_items prices is ≡ none
no_rows prices [] h = cc
no_rows prices (i ∷ is) h = ground (arith, no_rows prices is)

-- Looking up the row that an order id has.
abbrev pub with_id : ℕ → Orders → Option OrderEntity
with_id o t = find? (λ r. r.id == o) t

pub with_id-append :
    (o : ℕ) (t : Orders) (r : OrderEntity)
    → with_id o t ≡ none
    → r.id ≡ o
    → with_id o (t ++ r ∷ []) ≡ some r
with_id-append o [] r h e = ground arith
with_id-append o (q ∷ t) r h e = ground (arith, with_id-append o t r)

-- A new order whose items all have a price is stored under its new id: its total is what the items
-- come to at those prices, and its items read back as they were ordered.
pub create_order_priced :
    (id : ℕ) (dto : CreateOrderDto) (prices : Prices) (user : Option ℕ) (t : Orders)
    → with_id id t ≡ none
    → all (has_price prices) dto.items ≡ true
    → let (r, t') = create_order id dto prices user t in
      (r ≡ ok id)
      × (get_order_total_amount id t' ≡ ok (amount prices dto.items))
      × (get_order_items id t' ≡ ok dto.items)
      × (get_payment_id id t' ≡ ok none)
unfolding create_order get_order_total_amount get_order_items get_payment_id
create_order_priced id dto prices user t new h =
    let (rows, made, total, back) = order_items-IsPriced prices dto.items h in
    let sum = total (pos 0) in
    let found =
      with_id-append id t (new_order id dto user (amount prices dto.items) rows) new refl in
    let sum' : total_from prices (some (pos 0)) dto.items ≡ some (amount prices dto.items) =
      sum ∙ ap some (omega int_laws) in
    ground (arith, made, sum', found, back)

-- An order with an item that has no price is refused, and the table stays as it was.
pub create_order_unpriced :
    (id : ℕ) (dto : CreateOrderDto) (prices : Prices) (user : Option ℕ) (t : Orders)
    → all (has_price prices) dto.items ≡ false
    → create_order id dto prices user t ≡ (err refused, t)
unfolding create_order
create_order_unpriced id dto prices user t h = ground (arith, no_rows prices dto.items h)

pub with_id-update_rows :
    (o p : ℕ) (f : OrderEntity → OrderEntity) (t : Orders)
    → ((r : OrderEntity) → (f r).id ≡ r.id)
    → with_id p (update_rows (λ r. r.id == o) f t)
      ≡ (if p == o then elim (with_id p t) [ none ↦ none | some r ↦ some (f r) ] else with_id p t)
with_id-update_rows o p f [] keeps = ground arith
with_id-update_rows o p f (r ∷ t) keeps = ground (arith, keeps r, with_id-update_rows o p f t keeps)

affected_of_with_id :
    (o : ℕ) (t : Orders) (r : OrderEntity)
    → with_id o t ≡ some r
    → (affected (λ s. s.id == o) t == 0) ≡ false
affected_of_with_id o [] r e = cc
affected_of_with_id o (q ∷ t) r e = ground (arith, affected_of_with_id o t r)

affected_of_none :
    (o : ℕ) (t : Orders) → with_id o t ≡ none → (affected (λ s. s.id == o) t == 0) ≡ true
affected_of_none o [] e = refl
affected_of_none o (q ∷ t) e = ground (arith, affected_of_none o t)

abbrev set_status : OrderStatus → Option Message → OrderEntity → OrderEntity
set_status status reason r = record r {
  status = status;
  cancel_reason = new_reason reason r.cancel_reason;
}

abbrev set_payment : ℕ → OrderEntity → OrderEntity
set_payment payment r = record r { payment_id = some payment }

-- An update of a status either finds the order, sets its status, and the reason if one is given, and
-- leaves any other order alone; or finds no order, throws and changes nothing.
pub update_order_status_lem :
    (o p : ℕ) (status : OrderStatus) (reason : Option Message) (t : Orders)
    → p ≢ o
    → ((r : OrderEntity) × (with_id o t ≡ some r)
        × (let (res, t') = update_order_status o status reason t in
            (res ≡ ok tt)
            × (with_id o t'
                ≡ some (record r {
                  status = status;
                  cancel_reason = new_reason reason r.cancel_reason;
                }))
            × (with_id p t' ≡ with_id p t)))
      ⊎ ((with_id o t ≡ none)
          × (update_order_status o status reason t ≡ (err (update_failed o), t)))
unfolding update_order_status
update_order_status_lem o p status reason t n = elim (Option-cases (with_id o t)) [
  | inl h ↦ inr (h, rw (affected_of_none o t h) refl)
  | inr (r, h) ↦ inl (
    r,
    h,
    rw (affected_of_with_id o t r h) (
      refl,
      with_id-update_rows o o (set_status status reason) t (λ q. refl) ∙ rw (==-self o, h) refl,
      with_id-update_rows o p (set_status status reason) t (λ q. refl) ∙ rw (==-ne p o n) refl,
    ),
  )
]

-- A payment's id is saved in its order, if no other order has it, and no other order changes.
pub save_payment_id_lem :
    (o payment : ℕ) (t : Orders) (r : OrderEntity)
    → with_id o t ≡ some r
    → any (λ q. not (q.id == o) && has_payment payment q) t ≡ false
    → let (res, t') = save_payment_id o payment t in
      (res ≡ ok tt)
      × (get_payment_id o t' ≡ ok (some payment))
      × ((p : ℕ) → p ≢ o → with_id p t' ≡ with_id p t)
unfolding save_payment_id get_payment_id
save_payment_id_lem o payment t r h free =
    let found : with_id o (update_rows (λ q. q.id == o) (set_payment payment) t)
        ≡ some (set_payment payment r) =
      with_id-update_rows o o (set_payment payment) t (λ q. refl) ∙ rw (==-self o, h) in
    rw (free, affected_of_with_id o t r h)
      (
        refl,
        ground (arith, found),
        λ p n. with_id-update_rows o p (set_payment payment) t (λ q. refl) ∙ rw (==-ne p o n),
      )

is_pending_or_paid :
    (status : OrderStatus)
    → ((status ≡ pending) ⊎ (status ≡ paid)) ⊎ ((status ≢ pending) × (status ≢ paid))
is_pending_or_paid pending = inl (inl refl)
is_pending_or_paid paid = inl (inr refl)
is_pending_or_paid shipping = inr ((λ e. cc), (λ e. cc))
is_pending_or_paid delivered = inr ((λ e. cc), (λ e. cc))
is_pending_or_paid cancelled = inr ((λ e. cc), (λ e. cc))
is_pending_or_paid place_failed = inr ((λ e. cc), (λ e. cc))
is_pending_or_paid cancel_failed = inr ((λ e. cc), (λ e. cc))
is_pending_or_paid refunded = inr ((λ e. cc), (λ e. cc))

module _ {S : Type 0} (start : Start S) (c : String) (dto : CancelOrderDto) (t : Orders)
    (s : S) where
  -- A cancellation is answered in one of three ways: with 404 where the order is not there; with 400
  -- where it is neither pending nor paid, in both cases with no workflow started; else the cancel
  -- workflow is started with the request.
  pub cancel_order_rpc_lem :
      ((with_id dto.order_id t ≡ none)
        × (cancel_order_rpc start c dto t s ≡ (
          err (
              not_found_exception
                (Message.about "Order ## not found" dto.order_id)
                (AppErrorCode.order OrderErrorCode.not_found)),
          s,
        )))
      ⊎ ((r : OrderEntity) × (with_id dto.order_id t ≡ some r)
          × ((((r.status ≡ pending) ⊎ (r.status ≡ paid))
                × ((cancel_order_rpc start c dto t s).1
                    ≡ (start
                        (cancel_order dto)
                        (record { prefix = "cancel-order:"; correlation_id = c })
                        s).1))
              ⊎ ((r.status ≢ pending)
                  × (r.status ≢ paid)
                  × (cancel_order_rpc start c dto t s ≡ (
                    err (
                        bad_request_exception
                          (Message.with_status
                            "Order # cannot be cancelled because it is in $ status." r.id
                            (status_name r.status))
                          (AppErrorCode.order OrderErrorCode.not_cancelable)),
                    s,
                  )))))
  unfolding cancel_order_rpc get_order is_cancelable
  cancel_order_rpc_lem = elim (Option-cases (with_id dto.order_id t)) [
    | inl h ↦ inl (h, ground arith)
    | inr (r, h) ↦ inr (
      r,
      h,
      elim (is_pending_or_paid r.status) [
        | inl p ↦ inl (p, ground arith)
        | inr (p, q) ↦ inr (p, q, ground arith)
      ],
    )
  ]
