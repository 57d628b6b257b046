-- ===== src/Lib.antt =====
-- Verification of nest-microservices-temporal: microservices of a shop, in TypeScript on NestJS, that
-- run their business transactions as sagas on Temporal.
--
-- An order is placed through the gateway; the order service starts a workflow, which calls activities
-- of the product, order, inventory, payment and shipping services, each with its own database, and
-- undoes what it has done if one of them fails.
--
-- Errors      libs/contract/src/*/error, and the exceptions of NestJS and of Temporal.
-- Store       TypeORM's updates and transactions as the services use them: a table is a list of rows,
--             an update a test and a change of rows, a transaction a loop whose failure leaves the
--             table as it was.
-- Inventory   apps/inventory-service/src: activity/*.ts are reserve_inventory, release_inventory,
--             confirm_inventory, restore_inventory and initialize_inventory; the RPC handlers of
--             inventory-service.service.ts are adjust_inventory, get_all_inventories and
--             get_available_stock. Inventory/Demand and Inventory/Saga follow the activities of one
--             order, Inventory/Sound the table through all of them, Inventory/Bounds how large its
--             numbers become, Inventory/Retried a reservation that is attempted again, Inventory/Reach
--             the tables that come about from the empty one. Inventory/Ledger follows any number of
--             orders whose activities fall between one another's, by a list of what each holds and has
--             bought, which the code does not keep.
-- Order       apps/order-service/src: the activities (create_order, save_payment_id,
--             update_order_status and the reads) and, in Order/Service, the RPC handlers.
-- Product     apps/product-service/src: the activities and modules/product/product.service.ts, of which
--             Product/Rpc is the handler that starts a workflow. Product/Shop is
--             apps/orchestrator-worker/src/workflows/product/create-product.workflow.ts, over the
--             activities that its proxies run, in a state of both tables, and Product/Saga what it
--             leaves behind.
-- Catalog     apps/product-service/src/modules: product-brand, product-category and product-tag, whose
--             services are the same five operations over three kinds of row.
-- Shipping    apps/shipping-service/src: create_shipment, get_shippings and update_delivery_status.
-- Payment     apps/payment-service/src: charge_payment and refund_payment of
--             payment-service.service.ts. Stripe is a parameter, Gateway; what it promises on its
--             idempotency keys is IsStripe in Payment/Stripe.
-- Workflow    apps/orchestrator-worker/src/workflows/order: place_order_workflow and
--             cancel_order_workflow over the interface Activities, whose laws are in Workflow/Laws.
--             Workflow/Place follows the try block, Workflow/Undo the catch block, and
--             Workflow/Straight a run in which nothing fails. Workflow/Retry has the retry policies,
--             and Temporal, which is a parameter; Lossless says of a run of it that an activity is
--             attempted one or more times and that the first attempt that succeeds ends it, which
--             Temporal itself does not promise.
-- System      the services together: the tables of all of them in one state, and the activities over
--             it, each under the policy of its proxy in the workflow. System/Lawful and System/Placed are about
--             the laws of Workflow/Laws, System/Cancelled about those of Workflow/Cancel; System/Live
--             follows an order that nothing is in the way of. System/Cluster has the same attempts of the
--             activities among the steps of other workflows, and with answers that are lost: its
--             parameter Cluster is a Temporal that promises less. Workflow/Sparing and
--             Workflow/Repaid are the laws, and the saga, as far as they reach there. System/Shared has
--             the stocks among the steps of other orders: beside the tables it notes, for the proofs,
--             which orders hold items and which have bought, as in Inventory/Ledger, and its parameter
--             Orderly is a Temporal that loses no answer. Workflow/Stocked and Workflow/Returned are
--             its laws, and the saga under them.
-- Workers     the workers that the modules of the services and of apps/orchestrator-worker/src register
--             with Temporal, the proxies of the workflows, and the calls that start them.
-- Messaging   libs/messaging/src and the filter, interceptor and context of libs/common/src: how what
--             a handler returns or throws gets back to the client (Messaging/Replies), and how the
--             user and the correlation id get to the service (Messaging/Context). The broker is what
--             it answers, and Nest's HttpException a parameter.
-- Gateway     apps/api-gateway/src/modules: the routes, and the routing keys of libs/messaging/src/enum.
--             The router is a parameter, which tells no case from another. Gateway/Bodies has the rules of the request classes
--             (apps/api-gateway/src/modules/*/dto), Gateway/Bodies/Shapes what the services are told
--             of a request (libs/contract/src), and Gateway/Bodies/Refused the exception that main.ts
--             makes of a body's errors; class-validator and Nest's pipe are the parameter Validator.
--             Gateway/Guards has the guards of every route in their order
--             (apps/api-gateway/src/api-gateway.module.ts).
-- Idempotency libs/common/src/idempotency: acquire, complete, release and extend. Redis is a parameter; a
--             function of the state stands for what other processes do between any two of its
--             commands. The loop of acquire has the five attempts of the source; Idempotency/Attempts
--             says when they are not enough.
-- Auth        libs/auth/src/guard: RolesGuard and what JwtAuthGuard adds to Passport.
-- User        apps/user-service/src: register_user, login_user and get_user_by_id; bcrypt and the
--             signature of tokens, which depends on the time, are parameters.
--
-- State is passed on explicitly and an error is a value. Ids are naturals, quantities and amounts
-- integers; a column's 32-bit bound is not modelled, and no definition needs fuel. Whether the database
-- takes a write in the payment and the product service, Stripe, Redis, Temporal, the broker and the
-- start of a workflow are parameters.
--
-- A quantity that is negative is let through by the gateway and by the reservation, and breaks what the
-- activities on the stocks keep to otherwise. Where a theorem takes the quantities not to be negative
-- (IsPositive), or a table of stocks to be valid (IsValid), it says so.
--
-- Not modelled: in Product/Saga, and in System outside System/Cluster and System/Shared, that two
-- workflows run at once, and outside System/Cluster, that an activity has succeeded and its answer is
-- lost; in System/Cluster and System/Shared, that two workflows are about one order (a cancellation
-- while an order is being placed); in System/Cluster, what becomes of the stocks, which a repeated
-- attempt of a reservation changes again; log output, metrics, the circuit breaker's state, the
-- registration of databases and loggers, the descriptions for Swagger, and what a body becomes after
-- its validation.
pub mod Prelude
pub mod Errors
pub mod Store
pub mod Auth
pub mod Catalog
pub mod Gateway
pub mod Idempotency
pub mod Inventory
pub mod Messaging
pub mod Order
pub mod Payment
pub mod Product
pub mod Shipping
pub mod System
pub mod User
pub mod Workers
pub mod Workflow
