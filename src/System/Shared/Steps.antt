-- ===== src/System/Shared/Steps.antt =====
-- What the steps of others, and the order's own, keep of the tables and of the order's bookings.
use nest_microservices_tempo.Prelude.{
  refl, ap, ℕ, suc, ◌≤◌, ◌<◌, ◌≡◌, ◌∙◌, Option, none, some, Bool, List, All, All-imp, arith,
}
use nest_microservices_tempo.Inventory.Ledger.{Booking}
use nest_microservices_tempo.Inventory.Ledger.Kept.{IsKept, same_table}
use nest_microservices_tempo.Inventory.Ledger.Always.{Step-IsKept}
use nest_microservices_tempo.Order.{CreateOrderDto, Prices, Orders, create_order}
use nest_microservices_tempo.Order.Laws.{with_id}
use nest_microservices_tempo.Order.Ids.{
  SameIds, Present, IsCreated, create_order-IsCreated, update_order_status_ids, save_payment_id_ids,
}
use nest_microservices_tempo.Payment.{Gateway}
use nest_microservices_tempo.System.{Services, create_attempt}
use nest_microservices_tempo.System.Cluster as Cluster
use nest_microservices_tempo.System.Cluster.{
  lists, stocks, creates, updates, saves, ships, charges, refunds,
}
use nest_microservices_tempo.System.Shared.{
  Tracked, own, ledger_of, IsIssued, Others, serves, trades,
}

issued_later :
    (n m : ℕ) (l : List Booking) → n ≤ m → All (λ b. b.order_id ≤ n) l → All (λ b. b.order_id ≤ m) l
issued_later n m l le h =
    All-imp (λ b. b.order_id ≤ n) (λ b. b.order_id ≤ m) (λ b k. omega (arith, le, k)) l h

module _ {St : Type 0} where
  abbrev pub FreshIds : Services St → Type 0
  FreshIds s = (o : ℕ) → s.order_seq < o → with_id o s.orders ≡ none

  -- The books are kept, and no order that is to come is there or has a booking.
  pub record IsSound (x : Tracked St) : Type 0 where
    pub kept : IsKept (ledger_of x)
    pub held_issued : IsIssued x x.held
    pub sold_issued : IsIssued x x.sold
    pub fresh : FreshIds x.services

  -- The order is there, with these bookings.
  pub record Standing (o : ℕ) (h d : List Booking) (x : Tracked St) : Type 0 where
    pub sound : IsSound x
    pub present : Present o x.services.orders
    pub held : own o x.held ≡ h
    pub sold : own o x.sold ≡ d

  -- What a step on the services keeps of the orders.
  pub record KeepsOrders (s s' : Services St) : Type 0 where
    pub later : s.order_seq ≤ s'.order_seq
    pub fresh : FreshIds s'
    pub present : (o : ℕ) → Present o s.orders → Present o s'.orders

  pub create_made :
      (dto : CreateOrderDto) (p : Prices) (u : Option ℕ) (s : Services St)
      → FreshIds s
      → IsCreated (suc s.order_seq) s.orders (create_order (suc s.order_seq) dto p u s.orders)
  create_made dto p u s fresh =
      create_order-IsCreated (suc s.order_seq) dto p u s.orders
        (fresh (suc s.order_seq) (omega arith))

  pub create-KeepsOrders :
      (dto : CreateOrderDto) (p : Prices) (u : Option ℕ) (s : Services St)
      → FreshIds s
      → KeepsOrders s (create_attempt dto p u s).1
  create-KeepsOrders dto p u s fresh = record {
    later = omega arith;
    fresh = λ o later.
        (create_made dto p u s fresh).absent o (λ e. omega (arith, e, later))
          (fresh o (omega (arith, later)));
    present = λ o h. (create_made dto p u s fresh).present o h;
  }

  pub SameIds-KeepsOrders :
      (s : Services St) (t : Orders)
      → SameIds s.orders t
      → FreshIds s
      → KeepsOrders s (record s { orders = t })
  SameIds-KeepsOrders s t same fresh = record {
    later = omega arith;
    fresh = λ o later. same.absent o (fresh o later);
    present = same.present;
  }

  pub unmoved-KeepsOrders :
      (s s' : Services St)
      → s'.order_seq ≡ s.order_seq
      → s'.orders ≡ s.orders
      → FreshIds s
      → KeepsOrders s s'
  unmoved-KeepsOrders s s' seq orders fresh = record {
    later = omega (arith, seq);
    fresh = λ o later. ap (with_id o) orders ∙ fresh o (omega (arith, seq, later));
    present = λ o (r, h). (r, ap (with_id o) orders ∙ h);
  }

  pub Others-KeepsOrders :
      (g : Gateway St) (accepts : ℕ → Bool) (who : Option ℕ) (s s' : Services St)
      → Cluster.Others g accepts who s s'
      → FreshIds s
      → KeepsOrders s s'
  Others-KeepsOrders g accepts who s _ (lists t) f = unmoved-KeepsOrders s _ refl refl f
  Others-KeepsOrders g accepts who s _ (stocks t) f = unmoved-KeepsOrders s _ refl refl f
  Others-KeepsOrders g accepts who s _ (creates dto p u) f = create-KeepsOrders dto p u s f
  Others-KeepsOrders g accepts who s _ (updates q st m) f =
      SameIds-KeepsOrders s _ (update_order_status_ids q st m s.orders) f
  Others-KeepsOrders g accepts who s _ (saves q p) f =
      SameIds-KeepsOrders s _ (save_payment_id_ids q p s.orders) f
  Others-KeepsOrders g accepts who s _ (ships q a) f = unmoved-KeepsOrders s _ refl refl f
  Others-KeepsOrders g accepts who s _ (charges q total _ _) f = unmoved-KeepsOrders s _ refl refl f
  Others-KeepsOrders g accepts who s _ (refunds q total _ _) f = unmoved-KeepsOrders s _ refl refl f

  -- A step on the services that leaves the stocks alone.
  pub served-IsSound :
      (x : Tracked St) (s : Services St)
      → KeepsOrders x.services s
      → s.inventories ≡ x.services.inventories
      → IsSound x
      → IsSound (record x { services = s })
  served-IsSound x s k e sound = record {
    kept = same_table (ledger_of x) s.inventories e sound.kept;
    held_issued = issued_later x.services.order_seq s.order_seq x.held k.later sound.held_issued;
    sold_issued = issued_later x.services.order_seq s.order_seq x.sold k.later sound.sold_issued;
    fresh = k.fresh;
  }

  pub served-Standing :
      (o : ℕ) (h d : List Booking) (x : Tracked St) (s : Services St)
      → KeepsOrders x.services s
      → s.inventories ≡ x.services.inventories
      → Standing o h d x
      → Standing o h d (record x { services = s })
  served-Standing o h d x s k e st = record {
    sound = served-IsSound x s k e st.sound;
    present = k.present o st.present;
    held = st.held;
    sold = st.sold;
  }

  pub Others-IsSound :
      (g : Gateway St) (accepts : ℕ → Bool) (who : Option ℕ) (x x' : Tracked St)
      → Others g accepts who x x'
      → IsSound x
      → IsSound x'
  Others-IsSound g accepts who x _ (serves s st e) sound =
      served-IsSound x s (Others-KeepsOrders g accepts who x.services s st sound.fresh) e sound
  Others-IsSound g accepts who x _ (trades l st issued _) sound = record {
    kept = Step-IsKept st sound.kept;
    held_issued = (issued (sound.held_issued, sound.sold_issued)).0;
    sold_issued = (issued (sound.held_issued, sound.sold_issued)).1;
    fresh = sound.fresh;
  }

  pub Others-Standing :
      (g : Gateway St) (accepts : ℕ → Bool) (o : ℕ) (h d : List Booking) (x x' : Tracked St)
      → Others g accepts (some o) x x'
      → Standing o h d x
      → Standing o h d x'
  Others-Standing g accepts o h d x _ (serves s st e) k =
      served-Standing o h d x s
        (Others-KeepsOrders g accepts (some o) x.services s st k.sound.fresh) e k
  Others-Standing g accepts o h d x _ (trades l st issued (same_held, same_sold)) k = record {
    sound =
        Others-IsSound g accepts (some o) x _ (trades l st issued (same_held, same_sold)) k.sound;
    present = k.present;
    held = same_held ∙ k.held;
    sold = same_sold ∙ k.sold;
  }
