-- ===== src/Workers/Served.antt =====
-- Which worker a task comes to, and that it can run it.
use nest_microservices_tempo.Prelude.{
  String, ◌≡◌, refl, true, Option, some, List, [], ◌∷◌, All, All-imp, all, ◌&&◌, Bool, and_elim,
  All-of_all,
}
use nest_microservices_tempo.Workers.{
  TaskQueue, Worker, Proxy, Start, starts, listed, activity_pollers, workflow_pollers, order,
  inventory, payment, product, shipping, place_order_start, cancel_order_start,
  create_product_start, payment_worker, order_worker, product_worker, inventory_worker,
  shipping_worker,
}

-- Temporal gives a task to one of the workers that poll for it, as long as there is one.
pub record Dispatch : Type 1 where
  pub pick : List Worker → Option Worker
  pub picks :
      (l : List Worker) (P : Worker → Type 0) → All P l → (w : Worker) → pick l ≡ some w → P w
  pub some_law : (w : Worker) (l : List Worker) → (u : Worker) × (pick (w ∷ l) ≡ some u)

module _ (d : Dispatch) where
  -- The activity's task reaches a worker that registers the activity, and can build its class.
  abbrev pub CanRun : String → Worker → Type 0
  CanRun name w = (listed name w.activities ≡ true) × (listed name w.providers ≡ true)

  abbrev pub IsRun : TaskQueue → String → Type 0
  IsRun q name = (w : Worker) × (d.pick (activity_pollers q) ≡ some w) × CanRun name w

  abbrev pub IsServed : Start → Type 0
  IsServed s =
      ((w : Worker) × (d.pick (workflow_pollers s.task_queue) ≡ some w)
        × (listed s.workflow w.workflows ≡ true))
      × All (λ (p : Proxy). All (IsRun p.task_queue) p.methods) s.proxies

  -- The one worker that polls.
  only :
      (l : List Worker) (w : Worker) (P : Worker → Type 0)
      → l ≡ w ∷ []
      → P w
      → (u : Worker) × (d.pick l ≡ some u) × P u
  only l w P e h =
      let (u, taken) = d.some_law w [] in (u, rw e taken, d.picks (w ∷ []) P (h, tt) u taken)

  abbrev has : Worker → String → Bool
  has w name = listed name w.activities && listed name w.providers

  abbrev worker_of : TaskQueue → Worker
  worker_of order = order_worker
  worker_of inventory = inventory_worker
  worker_of payment = payment_worker
  worker_of product = product_worker
  worker_of shipping = shipping_worker

  one_poller : (q : TaskQueue) → activity_pollers q ≡ worker_of q ∷ []
  one_poller order = refl
  one_poller inventory = refl
  one_poller payment = refl
  one_poller product = refl
  one_poller shipping = refl

  abbrev covers : Proxy → Bool
  covers p = all (has (worker_of p.task_queue)) p.methods

  proxy-IsRun : (p : Proxy) → covers p ≡ true → All (IsRun p.task_queue) p.methods
  proxy-IsRun p h =
      All-imp (λ name. has (worker_of p.task_queue) name ≡ true) (IsRun p.task_queue)
        (λ name k.
          only (activity_pollers p.task_queue) (worker_of p.task_queue) (CanRun name)
            (one_poller p.task_queue) (and_elim _ _ k))
        p.methods (All-of_all (has (worker_of p.task_queue)) p.methods h)

  start-IsServed :
      (s : Start) (w : Worker)
      → workflow_pollers s.task_queue ≡ w ∷ []
      → listed s.workflow w.workflows ≡ true
      → all covers s.proxies ≡ true
      → IsServed s
  start-IsServed s w e has_it covered = (
    only (workflow_pollers s.task_queue) w (λ u. listed s.workflow u.workflows ≡ true) e has_it,
    All-imp (λ p. covers p ≡ true) (λ p. All (IsRun p.task_queue) p.methods) proxy-IsRun s.proxies
        (All-of_all covers s.proxies covered),
  )

  -- Every workflow that the services start, and every activity that it can call, is run: whichever
  -- worker Temporal picks among those that poll the queue that is named, that worker has the workflow;
  -- and for an activity it registers it and can build its class.
  pub starts-IsServed : All IsServed starts
  starts-IsServed = (
    start-IsServed place_order_start _ refl refl refl,
    (
      start-IsServed cancel_order_start _ refl refl refl,
      (start-IsServed create_product_start _ refl refl refl, tt),
    ),
  )
