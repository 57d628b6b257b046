-- ===== src/Gateway.antt =====
-- The routes of apps/api-gateway/src/modules, the routing keys of libs/messaging/src/enum, and the RPC
-- handlers that the services register under them (`@RabbitRPC`). A route has its method, its path, the
-- status of its success (`@HttpCode`, or Nest's default), the mark `@Public`, and the key under which
-- the request goes to a service. The order in
-- which the modules, their controllers and the methods of these are declared is that of `routes`. The prefix
-- `api/v1` is left out, and a parameter is any segment: `ParseIntPipe` comes later.
pub mod Reached
pub mod Bodies
pub mod Guards
mod Tests
use nest_microservices_tempo.Prelude.{
  same_word, ℕ, String, Bool, true, false, ◌&&◌, Option, none, some, List, [], ◌∷◌, ◌++◌, find?,
  if◌then◌else◌, ◌≡◌,
}

pub data InventoryRoutingKey : Type 0 where
  adjust get_all get_available_stock reserve confirm restore : InventoryRoutingKey

pub data OrderRoutingKey : Type 0 where
  create created cancel cancelled : OrderRoutingKey
  deliver get_by_id get_all get_my_orders update_status : OrderRoutingKey

pub data PaymentRoutingKey : Type 0 where
  charge refund : PaymentRoutingKey

pub data ProductBrandRoutingKey : Type 0 where
  create get_by_id get_all update delete : ProductBrandRoutingKey

pub data ProductCategoryRoutingKey : Type 0 where
  create get_by_id get_all update delete : ProductCategoryRoutingKey

pub data ProductRoutingKey : Type 0 where
  create get_by_id get_all update delete : ProductRoutingKey

pub data ProductTagRoutingKey : Type 0 where
  create get_by_id get_all update delete : ProductTagRoutingKey

pub data ShippingRoutingKey : Type 0 where
  get_all update_status : ShippingRoutingKey

pub data UserRoutingKey : Type 0 where
  register login get_by_id : UserRoutingKey

-- The union `RoutingKey`.
pub data RoutingKey : Type 0 where
  inventory : InventoryRoutingKey → RoutingKey
  order : OrderRoutingKey → RoutingKey
  payment : PaymentRoutingKey → RoutingKey
  product_brand : ProductBrandRoutingKey → RoutingKey
  product_category : ProductCategoryRoutingKey → RoutingKey
  product : ProductRoutingKey → RoutingKey
  product_tag : ProductTagRoutingKey → RoutingKey
  shipping : ShippingRoutingKey → RoutingKey
  user : UserRoutingKey → RoutingKey

pub data RmqQueue : Type 0 where
  order_queue inventory_queue payment_queue shipping_queue product_queue user_queue : RmqQueue

-- The queue of the service that handles a key; some keys have no handler.
abbrev inventory_handler : InventoryRoutingKey → Option RmqQueue
inventory_handler InventoryRoutingKey.adjust = some inventory_queue
inventory_handler InventoryRoutingKey.get_all = some inventory_queue
inventory_handler InventoryRoutingKey.get_available_stock = some inventory_queue
inventory_handler InventoryRoutingKey.reserve = none
inventory_handler InventoryRoutingKey.confirm = none
inventory_handler InventoryRoutingKey.restore = none

abbrev order_handler : OrderRoutingKey → Option RmqQueue
order_handler OrderRoutingKey.create = some order_queue
order_handler OrderRoutingKey.created = none
order_handler OrderRoutingKey.cancel = some order_queue
order_handler OrderRoutingKey.cancelled = none
order_handler OrderRoutingKey.deliver = none
order_handler OrderRoutingKey.get_by_id = some order_queue
order_handler OrderRoutingKey.get_all = some order_queue
order_handler OrderRoutingKey.get_my_orders = some order_queue
order_handler OrderRoutingKey.update_status = some order_queue

abbrev shipping_handler : ShippingRoutingKey → Option RmqQueue
shipping_handler ShippingRoutingKey.get_all = some shipping_queue
shipping_handler ShippingRoutingKey.update_status = some shipping_queue

abbrev user_handler : UserRoutingKey → Option RmqQueue
user_handler UserRoutingKey.register = some user_queue
user_handler UserRoutingKey.login = some user_queue
user_handler UserRoutingKey.get_by_id = some user_queue

abbrev pub handler : RoutingKey → Option RmqQueue
handler (RoutingKey.inventory k) = inventory_handler k
handler (RoutingKey.order k) = order_handler k
handler (RoutingKey.payment k) = none
handler (RoutingKey.product_brand k) = some product_queue
handler (RoutingKey.product_category k) = some product_queue
handler (RoutingKey.product k) = some product_queue
handler (RoutingKey.product_tag k) = some product_queue
handler (RoutingKey.shipping k) = shipping_handler k
handler (RoutingKey.user k) = user_handler k

pub data Method : Type 0 where
  get post put patch delete : Method

pub data Segment : Type 0 where
  literal : String → Segment
  param : Segment

pub record Route : Type 0 where
  pub method : Method
  pub path : List Segment
  pub status : ℕ
  pub is_public : Bool
  pub key : RoutingKey

abbrev pub same_method : Method → Method → Bool
same_method Method.get Method.get = true
same_method Method.post Method.post = true
same_method Method.put Method.put = true
same_method Method.patch Method.patch = true
same_method Method.delete Method.delete = true
same_method _ _ = false

abbrev pub matches_path : List Segment → List String → Bool
matches_path [] [] = true
matches_path (literal w ∷ path) (s ∷ segments) = same_word w s && matches_path path segments
matches_path (param ∷ path) (s ∷ segments) = matches_path path segments
matches_path _ _ = false

abbrev pub matches : Method → List String → Route → Bool
matches m segments r = same_method r.method m && matches_path r.path segments

abbrev route : Method → List Segment → ℕ → RoutingKey → Route
route m path status key = record {
  method = m;
  path = path;
  status = status;
  is_public = false;
  key = key;
}

abbrev public : Route → Route
public r = record r { is_public = true }

abbrev pub user_routes : List Route
user_routes =
    public (
      route Method.post (literal "auth" ∷ literal "register" ∷ []) 201
        (RoutingKey.user UserRoutingKey.register))
    ∷ public (
        route Method.post (literal "auth" ∷ literal "login" ∷ []) 200
          (RoutingKey.user UserRoutingKey.login))
    ∷ route Method.get (literal "users" ∷ literal "me" ∷ []) 200
        (RoutingKey.user UserRoutingKey.get_by_id)
    ∷ []

abbrev pub product_routes : List Route
product_routes =
    route Method.post (literal "products" ∷ []) 202 (RoutingKey.product ProductRoutingKey.create)
    ∷ route Method.get (literal "products" ∷ []) 200 (RoutingKey.product ProductRoutingKey.get_all)
    ∷ route Method.get (literal "products" ∷ param ∷ []) 200
        (RoutingKey.product ProductRoutingKey.get_by_id)
    ∷ route Method.put (literal "products" ∷ []) 204 (RoutingKey.product ProductRoutingKey.update)
    ∷ route Method.delete (literal "products" ∷ param ∷ []) 204
        (RoutingKey.product ProductRoutingKey.delete)
    ∷ []

abbrev pub product_category_routes : List Route
product_category_routes =
    route Method.post (literal "product-categories" ∷ []) 201
      (RoutingKey.product_category ProductCategoryRoutingKey.create)
    ∷ route Method.get (literal "product-categories" ∷ []) 200
        (RoutingKey.product_category ProductCategoryRoutingKey.get_all)
    ∷ route Method.get (literal "product-categories" ∷ param ∷ []) 200
        (RoutingKey.product_category ProductCategoryRoutingKey.get_by_id)
    ∷ route Method.put (literal "product-categories" ∷ []) 204
        (RoutingKey.product_category ProductCategoryRoutingKey.update)
    ∷ route Method.delete (literal "product-categories" ∷ param ∷ []) 204
        (RoutingKey.product_category ProductCategoryRoutingKey.delete)
    ∷ []

abbrev pub product_brand_routes : List Route
product_brand_routes =
    route Method.post (literal "product-brands" ∷ []) 201
      (RoutingKey.product_brand ProductBrandRoutingKey.create)
    ∷ route Method.get (literal "product-brands" ∷ []) 200
        (RoutingKey.product_brand ProductBrandRoutingKey.get_all)
    ∷ route Method.get (literal "product-brands" ∷ param ∷ []) 200
        (RoutingKey.product_brand ProductBrandRoutingKey.get_by_id)
    ∷ route Method.put (literal "product-brands" ∷ []) 204
        (RoutingKey.product_brand ProductBrandRoutingKey.update)
    ∷ route Method.delete (literal "product-brands" ∷ param ∷ []) 204
        (RoutingKey.product_brand ProductBrandRoutingKey.delete)
    ∷ []

abbrev pub product_tag_routes : List Route
product_tag_routes =
    route Method.post (literal "product-tags" ∷ []) 201
      (RoutingKey.product_tag ProductTagRoutingKey.create)
    ∷ route Method.get (literal "product-tags" ∷ []) 200
        (RoutingKey.product_tag ProductTagRoutingKey.get_all)
    ∷ route Method.get (literal "product-tags" ∷ param ∷ []) 200
        (RoutingKey.product_tag ProductTagRoutingKey.get_by_id)
    ∷ route Method.put (literal "product-tags" ∷ []) 204
        (RoutingKey.product_tag ProductTagRoutingKey.update)
    ∷ route Method.delete (literal "product-tags" ∷ param ∷ []) 204
        (RoutingKey.product_tag ProductTagRoutingKey.delete)
    ∷ []

abbrev pub order_routes : List Route
order_routes =
    route Method.post (literal "orders" ∷ literal "place" ∷ []) 202
      (RoutingKey.order OrderRoutingKey.create)
    ∷ route Method.get (literal "orders" ∷ []) 200 (RoutingKey.order OrderRoutingKey.get_all)
    ∷ route Method.get (literal "orders" ∷ literal "my-orders" ∷ []) 200
        (RoutingKey.order OrderRoutingKey.get_my_orders)
    ∷ route Method.get (literal "orders" ∷ param ∷ []) 200
        (RoutingKey.order OrderRoutingKey.get_by_id)
    ∷ route Method.patch (literal "orders" ∷ literal "status" ∷ []) 204
        (RoutingKey.order OrderRoutingKey.update_status)
    ∷ route Method.post (literal "orders" ∷ literal "cancel" ∷ []) 202
        (RoutingKey.order OrderRoutingKey.cancel)
    ∷ []

abbrev pub inventory_routes : List Route
inventory_routes =
    route Method.patch (literal "inventories" ∷ literal "adjust" ∷ []) 200
      (RoutingKey.inventory InventoryRoutingKey.adjust)
    ∷ route Method.get (literal "inventories" ∷ []) 200
        (RoutingKey.inventory InventoryRoutingKey.get_all)
    ∷ route Method.get
        (literal "inventories" ∷ literal "products" ∷ param ∷ literal "available-stock" ∷ []) 200
        (RoutingKey.inventory InventoryRoutingKey.get_available_stock)
    ∷ []

abbrev pub shipping_routes : List Route
shipping_routes =
    route Method.get (literal "shipping" ∷ []) 200 (RoutingKey.shipping ShippingRoutingKey.get_all)
    ∷ route Method.patch (literal "shipping" ∷ literal "status" ∷ []) 200
        (RoutingKey.shipping ShippingRoutingKey.update_status)
    ∷ []

abbrev pub routes : List Route
routes =
    user_routes ++ product_routes ++ product_brand_routes ++ product_category_routes
    ++ product_tag_routes ++ order_routes ++ inventory_routes ++ shipping_routes

-- Nest's router over Express, which is not code of the repository: the route that takes a request,
-- of those that are registered. It is documented to take the first that matches, and to tell no case
-- from another.
pub record Router : Type 0 where
  pub take : List Route → Method → List String → Option Route
  pub take_first :
      (l : List Route) (m : Method) (segments : List String)
      → take l m segments ≡ find? (matches m segments) l
