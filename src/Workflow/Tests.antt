-- ===== src/Workflow/Tests.antt =====
-- A run of the sagas: the stocks are those of the inventory service, the other services are as small
-- as their laws allow, and no shipment can be made.
use nest_microservices_tempo.Prelude.{
  ℕ, pos, Bool, true, false, Option, none, some, List, [], ◌≡◌, refl, ◌==◌, ◌↔◌, ==-self,
  if◌then◌else◌, ◌∙◌,
}
use nest_microservices_tempo.Errors.{Message, error, Result, ok, err}
use nest_microservices_tempo.Inventory.{
  OrderItem, Inventories, reserve_inventory, release_inventory, confirm_inventory,
  restore_inventory,
}
use nest_microservices_tempo.Inventory.Saga.{IsAvailable, hold, reserve_exact}
use nest_microservices_tempo.Inventory.Held.{confirm_is, release_is, restore_is}
use nest_microservices_tempo.Inventory.Tests.{
  table, order, table-IsValid, order-IsPositive, reserved,
}
use nest_microservices_tempo.Order.{OrderStatus, CreateOrderDto, CancelOrderDto, cancel_failed}
use nest_microservices_tempo.Workflow.Monad.{Action, Activities, nothing_done}
use nest_microservices_tempo.Workflow.Rules.{Ensures}
use nest_microservices_tempo.Workflow.Laws.{View, KeepsMoney, Keeps, Held, IsLawful, IsRecovering}
use nest_microservices_tempo.Workflow.{place_steps, place_order_workflow, cancel_order_workflow}
use nest_microservices_tempo.Workflow.Cancel.{
  IsCancelling, Cancelled, Cancellable, cancel_order_workflow_lem,
}
use nest_microservices_tempo.Workflow.Undo.{IsSaga, place_order_workflow_lem}

record Services : Type 0 where
  table : Inventories
  status : ℕ → Option OrderStatus
  -- whether no money is held
  settled : Bool

abbrev with_table : Services → Result (Unit {0}) × Inventories → Result (Unit {0}) × Services
with_table s (r, t) = (r, record s { table = t })

abbrev on_table : (Inventories → Result (Unit {0}) × Inventories) → Action Services (Unit {0})
on_table f s = with_table s (f s.table)

abbrev activities : Activities Services
activities = record {
  validate_products = λ l s. (ok true, s);
  get_product_prices = λ l s. (ok [], s);
  create_order = λ d p u s. (ok 1, record s { settled = true });
  get_order_total_amount = λ o s. (ok (pos 5), s);
  save_payment_id = λ o p s. (ok tt, s);
  update_order_status =
      λ o st m s. (ok tt, record s { status = λ p. if p == o then some st else s.status p });
  get_payment_id = λ o s. (ok none, s);
  get_order_items = λ o s. (ok order, s);
  reserve_inventory = λ o items. on_table (reserve_inventory o items);
  release_inventory = λ o items. on_table (release_inventory o items);
  confirm_inventory = λ o items. on_table (confirm_inventory o items);
  restore_inventory = λ o items. on_table (restore_inventory o items);
  charge_payment = λ o n s. (ok 3, record s { settled = false });
  refund_payment = λ o n s. (ok tt, record s { settled = true });
  create_shipment = λ o x s. (err (error (Message.text "no courier")), s);
}

abbrev view : View Services
view = record {
  stocks = λ s. s.table;
  status = λ s. s.status;
  Sound = λ s. Unit {0};
  Agree = λ s o. Unit {0};
  Settled = λ s o. s.settled ≡ true;
}

same_money : (s s' : Services) → s'.settled ≡ s.settled → KeepsMoney activities view s s'
same_money s s' e = record { sound = λ _. tt; agree = λ o _. tt; settled = λ o h. e ∙ h }

kept : (s : Services) → Keeps activities view s s
kept s = record { stocks = refl; money = same_money s s refl }

reserved_kept :
    (items : List OrderItem) (s : Services) (r : Result (Unit {0}) × Inventories)
    → (r.0 ≡ ok tt ↔ IsAvailable items s.table)
    → (IsAvailable items s.table → r.1 ≡ hold items s.table)
    → (¬ (IsAvailable items s.table) → r.1 ≡ s.table)
    → KeepsMoney activities view s (with_table s r).1
      × Ensures
          (λ s'. s'.table ≡ s.table)
          (λ _. Held activities view items s.table)
          (with_table s r)
reserved_kept items s (ok tt, t) i h n = (same_money s _ refl, (i.0 refl, h (i.0 refl)))
reserved_kept items s (err e, t) i h n = (same_money s _ refl, n (λ a. cc (i.1 a)))

-- An operation on stocks whose outcome is known.
ran :
    (f : Inventories → Result (Unit {0}) × Inventories) (s : Services) (t t' : Inventories)
    → s.table ≡ t
    → f t ≡ (ok tt, t')
    → with_table s (f s.table) ≡ (ok tt, record s { table = t' })
ran f s t t' e h = rw (e, h) refl

lawful : IsLawful activities view
lawful = record {
  validate_law = λ l s. kept s;
  prices_law = λ l s. kept s;
  total_law = λ o s. kept s;
  save_law = λ o p s. kept s;
  status_law = λ o st m s. record { stocks = refl; money = same_money s _ refl };
  status_set = λ o st m s. rw (==-self o) refl;
  shipment_law = λ o x s. kept s;
  create_law = λ d p u s. record {
    stocks = refl;
    money = record { sound = λ _. tt; agree = λ o _. tt; settled = λ o h. refl };
  };
  create_new = λ d p u s _. (0, refl, tt, refl);
  reserve_law = λ o items s v p.
      let (okay, held, same) = reserve_exact o items s.table v p in
      reserved_kept items s (reserve_inventory o items s.table) okay held same;
  confirm_law = λ o items t s v p (a, e).
      rw (ran (confirm_inventory o items) s _ _ e (confirm_is o items t v p a))
        (same_money s _ refl, (a, refl));
  charge_law = λ o n s _. tt;
  charge_stocks = λ o n s. refl;
}

recovering : IsRecovering activities view
recovering = record {
  refund_law = λ o n s _. (tt, refl, refl);
  release_law = λ o items t s v p (a, e).
      rw (ran (release_inventory o items) s _ _ e (release_is o items t v p a))
        (refl, same_money s _ refl);
  restore_law = λ o items t s v p (a, e).
      rw (ran (restore_inventory o items) s _ _ e (restore_is o items t v p a))
        (refl, same_money s _ refl);
  failed_law =
      λ o m s _. (rw (==-self o) refl, record { stocks = refl; money = same_money s _ refl });
}

abbrev dto : CreateOrderDto
dto = record { items = order; address = "1 Main Street"; email = "a@b.c" }

abbrev start : Services
start = record { table = table; status = λ _. none; settled = true }

place_order_workflow_lem_example :
    IsSaga activities view lawful recovering dto order-IsPositive table table-IsValid
      (place_steps activities dto none (nothing_done, start))
      (place_order_workflow activities dto none start)
place_order_workflow_lem_example =
    place_order_workflow_lem activities view lawful recovering dto order-IsPositive table
      table-IsValid none start refl tt

rely : IsCancelling activities view 1 none order (λ _. Unit {0})
rely = record {
  payment_law = λ s _. (refl, refl);
  items_law = λ s _. (refl, refl);
  refund_row = λ s _. tt;
  release_row = λ s _. tt;
  restore_row = λ s _. tt;
  status_row = λ st m s _. tt;
  refund_law = λ s _. (refl, refl);
  mark_law = λ m s _. refl;
}

abbrev request : CancelOrderDto
request = record { order_id = 1; cancel_reason = none }

abbrev holding : Services
holding = record start { table = hold order table }

holding-Cancellable :
    Cancellable activities view lawful recovering request none order
      (λ _. Unit {0})
      rely
      order-IsPositive
      table
      table-IsValid
      holding
holding-Cancellable =
    let (okay, _, _) = reserve_exact 1 order table table-IsValid order-IsPositive in
    (tt, (okay.0 reserved, refl), tt, (λ _. refl))

cancel_order_workflow_lem_example :
    Ensures
      (λ s'. s'.status 1 ≡ some cancel_failed)
      (λ _.
        Cancelled activities view lawful recovering request none order
          (λ _. Unit {0})
          rely
          order-IsPositive
          table
          table-IsValid)
      (cancel_order_workflow activities request holding)
cancel_order_workflow_lem_example =
    cancel_order_workflow_lem activities view lawful recovering request none order (λ _. Unit {0})
      rely order-IsPositive table table-IsValid holding holding-Cancellable
