-- ===== src/Gateway/Reached.antt =====
-- Which route takes a request, and which service it goes to.
use nest_microservices_tempo.Prelude.{
  same_word, String, ◌≡◌, refl, false, some, List, [], ◌∷◌, ◌++◌, All, All-imp, find?, ◌∙◌,
}
use nest_microservices_tempo.Gateway.{
  Route, RmqQueue, Segment, literal, param, routes, matches, Router, handler, user_routes,
  product_routes, product_brand_routes, product_category_routes, product_tag_routes, order_routes,
  inventory_routes, shipping_routes,
}

-- The segments of a path, with `id` for its parameter.
abbrev pub segments_of : String → List Segment → List String
segments_of id [] = []
segments_of id (literal w ∷ path) = w ∷ segments_of id path
segments_of id (param ∷ path) = id ∷ segments_of id path

abbrev IsFirst : String → Route → Type 0
IsFirst id r =
    (find? (matches r.method (segments_of id r.path)) routes ≡ some r)
    × ((q : RmqQueue) × (handler r.key ≡ some q))

All-append : {A : Type 0} (P : A → Type 0) (t u : List A) → All P t → All P u → All P (t ++ u)
All-append P [] u h k = k
All-append P (r ∷ t) u h k = (h.0, All-append P t u h.1 k)

user_reached : (id : String) → All (IsFirst id) user_routes
user_reached id = ((refl, (_, refl)), ((refl, (_, refl)), ((refl, (_, refl)), tt)))

product_reached : (id : String) → All (IsFirst id) product_routes
product_reached id = (
  (refl, (_, refl)),
  ((refl, (_, refl)), ((refl, (_, refl)), ((refl, (_, refl)), ((refl, (_, refl)), tt)))),
)

product_brand_reached : (id : String) → All (IsFirst id) product_brand_routes
product_brand_reached id = (
  (refl, (_, refl)),
  ((refl, (_, refl)), ((refl, (_, refl)), ((refl, (_, refl)), ((refl, (_, refl)), tt)))),
)

product_category_reached : (id : String) → All (IsFirst id) product_category_routes
product_category_reached id = (
  (refl, (_, refl)),
  ((refl, (_, refl)), ((refl, (_, refl)), ((refl, (_, refl)), ((refl, (_, refl)), tt)))),
)

product_tag_reached : (id : String) → All (IsFirst id) product_tag_routes
product_tag_reached id = (
  (refl, (_, refl)),
  ((refl, (_, refl)), ((refl, (_, refl)), ((refl, (_, refl)), ((refl, (_, refl)), tt)))),
)

inventory_reached : (id : String) → All (IsFirst id) inventory_routes
inventory_reached id = ((refl, (_, refl)), ((refl, (_, refl)), ((refl, (_, refl)), tt)))

shipping_reached : (id : String) → All (IsFirst id) shipping_routes
shipping_reached id = ((refl, (_, refl)), ((refl, (_, refl)), tt))

-- `my-orders` stands before `:id`.
order_reached : (id : String) → same_word "my-orders" id ≡ false → All (IsFirst id) order_routes
order_reached id other = (
  (refl, (_, refl)),
  (
    (refl, (_, refl)),
    (
      (refl, (_, refl)),
      (((rw other refl), (_, refl)), ((refl, (_, refl)), ((refl, (_, refl)), tt))),
    ),
  ),
)

IsFirst-routes : (id : String) → same_word "my-orders" id ≡ false → All (IsFirst id) routes
IsFirst-routes id other =
    let after_inventory =
      All-append (IsFirst id) inventory_routes shipping_routes (inventory_reached id)
        (shipping_reached id) in
    let after_order =
      All-append (IsFirst id) order_routes (inventory_routes ++ shipping_routes)
        (order_reached id other) after_inventory in
    let after_product_tag =
      All-append (IsFirst id) product_tag_routes
        (order_routes ++ inventory_routes ++ shipping_routes) (product_tag_reached id)
        after_order in
    let after_product_category =
      All-append (IsFirst id) product_category_routes
        (product_tag_routes ++ order_routes ++ inventory_routes ++ shipping_routes)
        (product_category_reached id) after_product_tag in
    let after_product_brand =
      All-append (IsFirst id) product_brand_routes
        (product_category_routes ++ product_tag_routes ++ order_routes ++ inventory_routes
          ++ shipping_routes)
        (product_brand_reached id) after_product_category in
    let after_product =
      All-append (IsFirst id) product_routes
        (product_brand_routes ++ product_category_routes ++ product_tag_routes ++ order_routes
          ++ inventory_routes ++ shipping_routes)
        (product_reached id) after_product_brand in
    let after_user =
      All-append (IsFirst id) user_routes
        (product_routes ++ product_brand_routes ++ product_category_routes ++ product_tag_routes
          ++ order_routes ++ inventory_routes ++ shipping_routes)
        (user_reached id) after_product in
    after_user

abbrev pub IsReached : Router → String → Route → Type 0
IsReached router id r =
    (router.take routes r.method (segments_of id r.path) ≡ some r)
    × ((q : RmqQueue) × (handler r.key ≡ some q))

-- A request with a route's method and path, whatever its parameter is, is taken by that route and by
-- no other, and goes out under a key that a service handles; except that `my-orders`, in any case, is no
-- order's id.
pub routes-IsReached :
    (router : Router) (id : String)
    → same_word "my-orders" id ≡ false
    → All (IsReached router id) routes
routes-IsReached router id other =
    All-imp (IsFirst id) (IsReached router id)
      (λ r (first, handled).
        (router.take_first routes r.method (segments_of id r.path) ∙ first, handled))
      routes (IsFirst-routes id other)
