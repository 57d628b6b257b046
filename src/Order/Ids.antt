-- ===== src/Order/Ids.antt =====
-- Which orders are there: what the activities do to that, and to no other order.
use nest_microservices_tempo.Prelude.{
  ℕ, suc, ℤ, ◌≡◌, ◌≢◌, refl, sym, ◌∙◌, ap, false, not, ◌&&◌, Option, none, some, List, [], ◌∷◌,
  ◌++◌, ◌==◌, any, arith, inl, inr, Bool-cases, ==-ne,
}
use nest_microservices_tempo.Errors.{Message, Exception, Result, ok, err}
use nest_microservices_tempo.Store.{affected, update_rows}
use nest_microservices_tempo.Order.{
  OrderEntity, OrderItemEntity, Orders, OrderStatus, CreateOrderDto, Prices, create_order,
  save_order, new_order, update_order, update_order_status, save_payment_id, has_payment,
  new_reason,
}
use nest_microservices_tempo.Order.Laws.{
  with_id, with_id-append, with_id-update_rows, update_order_status_lem,
}

abbrev pub Present : ℕ → Orders → Type 0
Present o t = (r : OrderEntity) × (with_id o t ≡ some r)

-- The orders that are there after it are those that were there before it.
pub record SameIds (t t' : Orders) : Type 0 where
  pub present : (o : ℕ) → Present o t → Present o t'
  pub absent : (o : ℕ) → with_id o t ≡ none → with_id o t' ≡ none

same_ids : (t : Orders) → SameIds t t
same_ids t = record { present = λ o h. h; absent = λ o h. h }

updated_ids :
    (k : ℕ) (f : OrderEntity → OrderEntity) (t : Orders)
    → ((r : OrderEntity) → (f r).id ≡ r.id)
    → SameIds t (update_rows (λ r. r.id == k) f t)
updated_ids k f t keeps = record {
  present = λ o (r, h). elim (Bool-cases (o == k)) [
    | inl e ↦ (f r, with_id-update_rows k o f t keeps ∙ rw (e, h) refl)
    | inr e ↦ (r, with_id-update_rows k o f t keeps ∙ rw (e, h) refl)
  ];
  absent = λ o h. elim (Bool-cases (o == k)) [
    | inl e ↦ with_id-update_rows k o f t keeps ∙ rw (e, h) refl
    | inr e ↦ with_id-update_rows k o f t keeps ∙ rw (e, h) refl
  ];
}

update_order_ids :
    (k : ℕ) (f : OrderEntity → OrderEntity) (t : Orders)
    → ((r : OrderEntity) → (f r).id ≡ r.id)
    → SameIds t (update_order k f t).1
update_order_ids k f t keeps = elim (Bool-cases (affected (λ r. r.id == k) t == 0)) [
  | inl e ↦ rw e (same_ids t)
  | inr e ↦ rw e (updated_ids k f t keeps)
]

pub update_order_status_ids :
    (k : ℕ) (status : OrderStatus) (m : Option Message) (t : Orders)
    → SameIds t (update_order_status k status m t).1
unfolding update_order_status
update_order_status_ids k status m t =
    update_order_ids k
      (λ r. record r { status = status; cancel_reason = new_reason m r.cancel_reason }) t
      (λ r. refl)

pub save_payment_id_ids : (k p : ℕ) (t : Orders) → SameIds t (save_payment_id k p t).1
unfolding save_payment_id
save_payment_id_ids k p t = elim (Bool-cases (any (λ r. not (r.id == k) && has_payment p r) t)) [
  | inl e ↦ rw e (same_ids t)
  | inr e ↦ rw e (update_order_ids k (λ r. record r { payment_id = some p }) t (λ r. refl))
]

present-append :
    (o : ℕ) (t : Orders) (q r : OrderEntity)
    → with_id o t ≡ some r
    → with_id o (t ++ q ∷ []) ≡ some r
present-append o [] q r h = cc
present-append o (x ∷ t) q r h = ground (arith, present-append o t q r)

absent-append :
    (o : ℕ) (t : Orders) (q : OrderEntity)
    → with_id o t ≡ none
    → (q.id == o) ≡ false
    → with_id o (t ++ q ∷ []) ≡ none
absent-append o [] q h e = rw e refl
absent-append o (x ∷ t) q h e = ground (arith, absent-append o t q)

-- What a creation under a new id leaves: no order less, none more but the new one, and that one where
-- it has gone through.
pub record IsCreated (id : ℕ) (t : Orders) (x : Result ℕ × Orders) : Type 0 where
  pub present : (o : ℕ) → Present o t → Present o x.1
  pub absent : (o : ℕ) → o ≢ id → with_id o t ≡ none → with_id o x.1 ≡ none
  pub result : (o : ℕ) → x.0 ≡ ok o → (o ≡ id) × Present id x.1

created :
    (id : ℕ) (t : Orders) (q : OrderEntity)
    → q.id ≡ id
    → with_id id t ≡ none
    → IsCreated id t (ok id, t ++ q ∷ [])
created id t q same new = record {
  present = λ o (r, h). (r, present-append o t q r h);
  absent = λ o n h. absent-append o t q h (rw same (==-ne id o λ e. n (sym e)));
  result = λ o e. (cc, (q, with_id-append id t q new same));
}

not_created : (id : ℕ) (t : Orders) (e : Exception) → IsCreated id t (err e, t)
not_created id t e = record { present = λ o h. h; absent = λ o n h. h; result = λ o h. cc }

save_order-IsCreated :
    (id : ℕ) (dto : CreateOrderDto) (user : Option ℕ) (total : Option ℤ)
    (rows : Option (List OrderItemEntity)) (t : Orders)
    → with_id id t ≡ none
    → IsCreated id t (save_order id dto user total rows t)
save_order-IsCreated id dto user (some total) (some rows) t new =
    created id t (new_order id dto user total rows) refl new
save_order-IsCreated id dto user (some total) none t new = not_created id t _
save_order-IsCreated id dto user none rows t new = not_created id t _

pub create_order-IsCreated :
    (id : ℕ) (dto : CreateOrderDto) (prices : Prices) (user : Option ℕ) (t : Orders)
    → with_id id t ≡ none
    → IsCreated id t (create_order id dto prices user t)
unfolding create_order
create_order-IsCreated id dto prices user t new = save_order-IsCreated id dto user _ _ t new

-- An update of an order that is there goes through, and its status is set.
pub status_of_Present :
    (o : ℕ) (status : OrderStatus) (m : Option Message) (t : Orders)
    → Present o t
    → ((update_order_status o status m t).0 ≡ ok tt)
      × ((q : OrderEntity) × (with_id o (update_order_status o status m t).1 ≡ some q)
          × (q.status ≡ status))
status_of_Present o status m t (r, h) =
    elim (update_order_status_lem o (suc o) status m t (omega arith)) [
      | inl (q, _, (done, now, _)) ↦ (done, (_, now, refl))
      | inr (none_there, _) ↦ cc
    ]

-- After an update that has gone through the status is set.
pub status_done :
    (o : ℕ) (status : OrderStatus) (m : Option Message) (t : Orders)
    → (update_order_status o status m t).0 ≡ ok tt
    → (q : OrderEntity) × (with_id o (update_order_status o status m t).1 ≡ some q)
      × (q.status ≡ status)
status_done o status m t e = elim (update_order_status_lem o (suc o) status m t (omega arith)) [
  | inl (q, _, (done, now, _)) ↦ (_, now, refl)
  | inr (_, thrown) ↦ cc (ap (λ x. x.0) thrown)
]
