-- ===== src/Gateway/Bodies/Shapes.antt =====
-- The types that the services are told of a request (libs/contract/src/*/interface): each field with
-- what its value is. `attributes` of a product is left out, for which no rule asks anything, and so are
-- the fields of an order's items.
use nest_microservices_tempo.Prelude.{
  ℤ, pos, ◌≤ℤ◌, String, Bool, true, false, some, List, [], ◌∷◌, any, All, ◌≡◌, ◌⊎◌,
}
use text.Mathlib.Text.{◌==◌ as str_eq}
use nest_microservices_tempo.Messaging.{Value, number, words, array, Values, Fields, member}
use nest_microservices_tempo.Gateway.Bodies.{
  Schema, register_user_rules, login_user_rules, create_order_rules, cancel_order_rules,
  update_order_status_rules, update_delivery_status_rules, adjust_inventory_rules,
  create_product_rules, update_product_rules, create_product_brand_rules,
  update_product_brand_rules, create_product_category_rules, update_product_category_rules,
  create_product_tag_rules, update_product_tag_rules, Enum, order_status, delivery_status, names_of,
  all_values, is_words, is_integer, is_missing,
}

pub data Kind : Type 0 where
  numeric : Kind
  from : ℤ → Kind
  textual : Kind
  one_of : Enum → Kind
  texts : Kind
  numerics : Kind
  listing : Kind

abbrev pub HasKind : Kind → Value → Type 0
HasKind numeric v = (n : ℤ) × (v ≡ number n)
HasKind (from k) v = (n : ℤ) × (v ≡ number n) × (k ≤ℤ n)
HasKind textual v = (s : String) × (v ≡ words s)
HasKind (one_of e) v = (s : String) × (v ≡ words s) × (any (str_eq s) (names_of e) ≡ true)
HasKind texts v = (vs : Values) × (v ≡ array vs) × (all_values is_words vs ≡ true)
HasKind numerics v = (vs : Values) × (v ≡ array vs) × (all_values is_integer vs ≡ true)
HasKind listing v = (vs : Values) × (v ≡ array vs)

-- A value of the kind; or, in place of a list of texts or of numbers, one of them alone.
abbrev pub Resembles : Kind → Value → Type 0
Resembles texts v = HasKind texts v ⊎ ((s : String) × (v ≡ words s))
Resembles numerics v = HasKind numerics v ⊎ ((n : ℤ) × (v ≡ number n))
Resembles k v = HasKind k v

pub record Member : Type 0 where
  pub name : String
  pub kind : Kind
  pub is_optional : Bool

abbrev must : String → Kind → Member
must name kind = record { name = name; kind = kind; is_optional = false }

abbrev may : String → Kind → Member
may name kind = record { name = name; kind = kind; is_optional = true }

abbrev pub register_user_shape : List Member
register_user_shape =
    must "email" textual
    ∷ must "password" textual
    ∷ must "first_name" textual
    ∷ must "last_name" textual
    ∷ []

abbrev pub login_user_shape : List Member
login_user_shape = must "email" textual ∷ must "password" textual ∷ []

abbrev pub create_order_shape : List Member
create_order_shape = must "items" listing ∷ must "address" textual ∷ must "email" textual ∷ []

abbrev pub cancel_order_shape : List Member
cancel_order_shape = must "order_id" (from (pos 0)) ∷ may "cancel_reason" textual ∷ []

abbrev pub update_order_status_shape : List Member
update_order_status_shape =
    must "order_id" (from (pos 1)) ∷ must "status" (one_of order_status) ∷ []

abbrev pub update_delivery_status_shape : List Member
update_delivery_status_shape = must "id" numeric ∷ must "status" (one_of delivery_status) ∷ []

abbrev pub adjust_inventory_shape : List Member
adjust_inventory_shape =
    must "product_id" (from (pos 1)) ∷ must "quantity_change" numeric ∷ may "reason" textual ∷ []

abbrev pub create_product_shape : List Member
create_product_shape =
    must "name" textual
    ∷ may "description" textual
    ∷ must "price" (from (pos 0))
    ∷ may "quantity" (from (pos 0))
    ∷ may "image_urls" texts
    ∷ may "category_id" numeric
    ∷ may "brand_id" numeric
    ∷ may "tag_ids" numerics
    ∷ []

abbrev pub update_product_shape : List Member
update_product_shape =
    must "id" (from (pos 1))
    ∷ may "name" textual
    ∷ may "description" textual
    ∷ may "price" (from (pos 0))
    ∷ may "image_urls" texts
    ∷ may "category_id" numeric
    ∷ may "brand_id" numeric
    ∷ may "tag_ids" numerics
    ∷ []

abbrev pub create_product_brand_shape : List Member
create_product_brand_shape =
    must "name" textual ∷ may "description" textual ∷ may "logo_url" textual ∷ []

abbrev pub update_product_brand_shape : List Member
update_product_brand_shape =
    must "id" (from (pos 1))
    ∷ may "name" textual
    ∷ may "description" textual
    ∷ may "logo_url" textual
    ∷ []

abbrev pub create_product_category_shape : List Member
create_product_category_shape = must "name" textual ∷ may "description" textual ∷ []

abbrev pub update_product_category_shape : List Member
update_product_category_shape =
    must "id" (from (pos 1)) ∷ may "name" textual ∷ may "description" textual ∷ []

abbrev pub create_product_tag_shape : List Member
create_product_tag_shape = must "name" textual ∷ []

abbrev pub update_product_tag_shape : List Member
update_product_tag_shape = must "id" (from (pos 1)) ∷ may "name" textual ∷ []

-- The field is there with a value of its kind; if it is optional, it may be missing or null.
abbrev pub HasMember : Fields → Member → Type 0
HasMember f m =
    ((m.is_optional ≡ true) × (is_missing (member m.name f) ≡ true))
    ⊎ ((v : Value) × (member m.name f ≡ some v) × Resembles m.kind v)

abbrev pub Conforms : List Member → Fields → Type 0
Conforms shape f = All (HasMember f) shape

-- The requests that have a body.
pub data Request : Type 0 where
  register_user : Request
  login_user : Request
  create_order : Request
  cancel_order : Request
  update_order_status : Request
  update_delivery_status : Request
  adjust_inventory : Request
  create_product : Request
  update_product : Request
  create_product_brand : Request
  update_product_brand : Request
  create_product_category : Request
  update_product_category : Request
  create_product_tag : Request
  update_product_tag : Request

abbrev pub rules_of : Request → Schema
rules_of register_user = register_user_rules
rules_of login_user = login_user_rules
rules_of create_order = create_order_rules
rules_of cancel_order = cancel_order_rules
rules_of update_order_status = update_order_status_rules
rules_of update_delivery_status = update_delivery_status_rules
rules_of adjust_inventory = adjust_inventory_rules
rules_of create_product = create_product_rules
rules_of update_product = update_product_rules
rules_of create_product_brand = create_product_brand_rules
rules_of update_product_brand = update_product_brand_rules
rules_of create_product_category = create_product_category_rules
rules_of update_product_category = update_product_category_rules
rules_of create_product_tag = create_product_tag_rules
rules_of update_product_tag = update_product_tag_rules

abbrev pub shape_of : Request → List Member
shape_of register_user = register_user_shape
shape_of login_user = login_user_shape
shape_of create_order = create_order_shape
shape_of cancel_order = cancel_order_shape
shape_of update_order_status = update_order_status_shape
shape_of update_delivery_status = update_delivery_status_shape
shape_of adjust_inventory = adjust_inventory_shape
shape_of create_product = create_product_shape
shape_of update_product = update_product_shape
shape_of create_product_brand = create_product_brand_shape
shape_of update_product_brand = update_product_brand_shape
shape_of create_product_category = create_product_category_shape
shape_of update_product_category = update_product_category_shape
shape_of create_product_tag = create_product_tag_shape
shape_of update_product_tag = update_product_tag_shape
