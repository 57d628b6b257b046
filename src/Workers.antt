-- ===== src/Workers.antt =====
-- Who runs what on Temporal: the task queues (libs/temporal/src/enum/queue/workflow-task.queue.ts), the
-- workers that the modules of the services and of apps/orchestrator-worker register, the proxies
-- through which the workflows call activities, and the calls that start a workflow. An activity is
-- named by the method that its class registers (`@ActivityMethod`).
pub mod Served
mod Tests
use nest_microservices_tempo.Prelude.{
  ℕ, String, Bool, true, false, ◌&&◌, Option, none, some, List, [], ◌∷◌, any, keep,
}
use text.Mathlib.Text.{◌==◌ as str_eq}
use nest_microservices_tempo.Workflow.Retry.{RetryPolicy, short_policy, refund_policy}

pub data TaskQueue : Type 0 where
  order : TaskQueue
  inventory : TaskQueue
  payment : TaskQueue
  product : TaskQueue
  shipping : TaskQueue

abbrev pub queue_name : TaskQueue → String
queue_name order = "order-workflow-task-queue"
queue_name inventory = "inventory-workflow-task-queue"
queue_name payment = "payment-workflow-task-queue"
queue_name product = "product-workflow-task-queue"
queue_name shipping = "shipping-workflow-task-queue"

-- A worker polls its queue for workflow tasks if it has workflows, and for activity tasks if it has
-- activities. `providers` are the activities whose classes the module can build.
pub record Worker : Type 0 where
  pub task_queue : TaskQueue
  pub workflows : List String
  pub activities : List String
  pub providers : List String
  pub max_concurrent : ℕ
  pub max_per_second : Option ℕ

abbrev pub payment_worker : Worker
payment_worker = record {
  task_queue = payment;
  workflows = [];
  activities = "chargePayment" ∷ "refundPayment" ∷ [];
  providers = "chargePayment" ∷ "refundPayment" ∷ [];
  max_concurrent = 10;
  max_per_second = some 5;
}

abbrev pub order_worker : Worker
order_worker = record {
  task_queue = order;
  workflows = [];
  activities =
      "createOrder" ∷ "deleteOrder" ∷ "savePaymentId" ∷ "updateOrderStatus" ∷ "getOrderTotalAmount"
      ∷ "getOrderItems" ∷ "getPaymentId" ∷ [];
  providers =
      "createOrder" ∷ "deleteOrder" ∷ "savePaymentId" ∷ "updateOrderStatus" ∷ "getOrderTotalAmount"
      ∷ "getOrderItems" ∷ "getPaymentId" ∷ [];
  max_concurrent = 25;
  max_per_second = none;
}

abbrev pub product_worker : Worker
product_worker = record {
  task_queue = product;
  workflows = [];
  activities =
      "validateProductMetadata" ∷ "validateProducts" ∷ "createProduct" ∷ "deleteProduct"
      ∷ "getProductPrices" ∷ [];
  providers =
      "validateProductMetadata" ∷ "validateProducts" ∷ "createProduct" ∷ "deleteProduct"
      ∷ "getProductPrices" ∷ [];
  max_concurrent = 30;
  max_per_second = none;
}

abbrev pub inventory_worker : Worker
inventory_worker = record {
  task_queue = inventory;
  workflows = [];
  activities =
      "reserveInventory" ∷ "releaseInventory" ∷ "confirmInventory" ∷ "restoreInventory"
      ∷ "initializeInventory" ∷ [];
  providers =
      "reserveInventory" ∷ "releaseInventory" ∷ "confirmInventory" ∷ "restoreInventory"
      ∷ "initializeInventory" ∷ [];
  max_concurrent = 20;
  max_per_second = none;
}

abbrev pub shipping_worker : Worker
shipping_worker = record {
  task_queue = shipping;
  workflows = [];
  activities = "createShipment" ∷ [];
  providers = "createShipment" ∷ [];
  max_concurrent = 15;
  max_per_second = some 5;
}

-- `workers` of the orchestrator: the workflows are what the folder's index exports.
abbrev pub orchestrator_workers : List Worker
orchestrator_workers =
    record {
      task_queue = order;
      workflows = "cancelOrderWorkflow" ∷ "placeOrderWorkflow" ∷ [];
      activities = [];
      providers = [];
      max_concurrent = 50;
      max_per_second = none;
    }
    ∷ record {
      task_queue = product;
      workflows = "createProductWorkflow" ∷ [];
      activities = [];
      providers = [];
      max_concurrent = 50;
      max_per_second = none;
    }
    ∷ []

abbrev pub workers : List Worker
workers =
    payment_worker ∷ order_worker ∷ product_worker ∷ inventory_worker ∷ shipping_worker
    ∷ orchestrator_workers

pub record Proxy : Type 0 where
  pub task_queue : TaskQueue
  pub policy : RetryPolicy
  pub methods : List String

abbrev proxy : TaskQueue → RetryPolicy → List String → Proxy
proxy q p methods = record { task_queue = q; policy = p; methods = methods }

abbrev pub place_order_proxies : List Proxy
place_order_proxies =
    proxy product short_policy ("validateProducts" ∷ "getProductPrices" ∷ [])
    ∷ proxy inventory short_policy
        ("reserveInventory" ∷ "releaseInventory" ∷ "confirmInventory" ∷ "restoreInventory" ∷ [])
    ∷ proxy payment short_policy ("chargePayment" ∷ [])
    ∷ proxy payment refund_policy ("refundPayment" ∷ [])
    ∷ proxy shipping short_policy ("createShipment" ∷ [])
    ∷ proxy order short_policy
        ("createOrder" ∷ "getOrderTotalAmount" ∷ "savePaymentId" ∷ "updateOrderStatus" ∷ [])
    ∷ []

abbrev pub cancel_order_proxies : List Proxy
cancel_order_proxies =
    proxy order short_policy ("getPaymentId" ∷ "getOrderItems" ∷ "updateOrderStatus" ∷ [])
    ∷ proxy payment short_policy ("refundPayment" ∷ [])
    ∷ proxy inventory short_policy ("restoreInventory" ∷ "releaseInventory" ∷ [])
    ∷ []

abbrev pub create_product_proxies : List Proxy
create_product_proxies =
    proxy product short_policy ("validateProductMetadata" ∷ "createProduct" ∷ "deleteProduct" ∷ [])
    ∷ proxy inventory short_policy ("initializeInventory" ∷ [])
    ∷ []

-- A call of `startWorkflow`, with the proxies of the workflow that it names.
pub record Start : Type 0 where
  pub workflow : String
  pub task_queue : TaskQueue
  pub proxies : List Proxy

abbrev pub place_order_start : Start
place_order_start = record {
  workflow = "placeOrderWorkflow";
  task_queue = order;
  proxies = place_order_proxies;
}

abbrev pub cancel_order_start : Start
cancel_order_start = record {
  workflow = "cancelOrderWorkflow";
  task_queue = order;
  proxies = cancel_order_proxies;
}

abbrev pub create_product_start : Start
create_product_start = record {
  workflow = "createProductWorkflow";
  task_queue = product;
  proxies = create_product_proxies;
}

abbrev pub starts : List Start
starts = place_order_start ∷ cancel_order_start ∷ create_product_start ∷ []

abbrev pub listed : String → List String → Bool
listed name names = any (str_eq name) names

abbrev pub on_queue : TaskQueue → Worker → Bool
on_queue q w = str_eq (queue_name q) (queue_name w.task_queue)

abbrev pub has_some : List String → Bool
has_some [] = false
has_some (_ ∷ _) = true

-- The workers that poll a queue for tasks of activities, and of workflows.
abbrev pub activity_pollers : TaskQueue → List Worker
activity_pollers q = keep (λ w. on_queue q w && has_some w.activities) workers

abbrev pub workflow_pollers : TaskQueue → List Worker
workflow_pollers q = keep (λ w. on_queue q w && has_some w.workflows) workers
