-- ===== src/Gateway/Bodies.antt =====
-- What the gateway asks of a request's body: the rules that the DTO classes of
-- apps/api-gateway/src/modules/*/dto declare for class-validator, the types that the services are
-- told (libs/contract/src/*/interface), and the answer to a body that is refused (main.ts).
-- class-validator and Nest's ValidationPipe are parameters.
pub mod Shapes
pub mod Typed
pub mod Refused
mod Tests
use nest_microservices_tempo.Prelude.{
  ℕ, ℤ, pos, ◌≤ℤ◌, leb_ℤ, String, Bool, true, false, not, ◌&&◌, ◌||◌, Option, none, some, List, [],
  ◌∷◌, ◌++◌, map, any, all, ◌≡◌, ◌↔◌, ◌⊎◌, keep,
}
use text.Mathlib.Text.{◌==◌ as str_eq}
use nest_microservices_tempo.Messaging.{
  Value, null, boolean, number, words, array, object, Values, no_item, item, Fields, no_field,
  entry, member,
}

pub data Enum : Type 0 where
  order_status : Enum
  delivery_status : Enum

abbrev pub names_of : Enum → List String
names_of order_status =
    "PENDING" ∷ "PAID" ∷ "SHIPPING" ∷ "DELIVERED" ∷ "CANCELLED" ∷ "PLACE_FAILED" ∷ "CANCEL_FAILED"
    ∷ "REFUNDED" ∷ []
names_of delivery_status = "PENDING" ∷ "PICKING_UP" ∷ "DELIVERING" ∷ "DELIVERED" ∷ "RETURNED" ∷ []

-- The decorators: `at_least` is Min, `each_is_string` is IsString({ each: true }).
pub data Check : Type 0 where
  is_int : Check
  is_number : Check
  at_least : ℤ → Check
  is_string : Check
  is_email : Check
  min_length : ℕ → Check
  is_array : Check
  is_enum : Enum → Check
  not_empty : Check
  each_is_string : Check
  each_is_int : Check

-- A property of a class: its decorators, whether IsOptional is among them, and the properties of the
-- class of its items where it has ValidateNested({ each: true }).
pub record Rule : Type 0 where
  pub name : String
  pub checks : List Check
  pub is_optional : Bool

pub record Schema : Type 0 where
  pub rules : List Rule
  pub nested : Option (String × List Rule)

abbrev required : String → List Check → Rule
required name checks = record { name = name; checks = checks; is_optional = false }

abbrev optional : String → List Check → Rule
optional name checks = record { name = name; checks = checks; is_optional = true }

abbrev flat : List Rule → Schema
flat rules = record { rules = rules; nested = none }

abbrev pub register_user_rules : Schema
register_user_rules = flat (
    required "email" (is_email ∷ not_empty ∷ [])
    ∷ required "password" (is_string ∷ not_empty ∷ min_length 6 ∷ [])
    ∷ required "first_name" (is_string ∷ not_empty ∷ [])
    ∷ required "last_name" (is_string ∷ not_empty ∷ [])
    ∷ [])

abbrev pub login_user_rules : Schema
login_user_rules = flat (
    required "email" (is_email ∷ not_empty ∷ [])
    ∷ required "password" (is_string ∷ not_empty ∷ min_length 6 ∷ [])
    ∷ [])

abbrev pub order_item_rules : List Rule
order_item_rules =
    required "product_id" (not_empty ∷ []) ∷ required "quantity" (not_empty ∷ []) ∷ []

abbrev pub create_order_rules : Schema
create_order_rules = record {
  rules =
      required "items" (is_array ∷ not_empty ∷ [])
      ∷ required "address" (is_string ∷ not_empty ∷ [])
      ∷ required "email" (is_email ∷ not_empty ∷ [])
      ∷ [];
  nested = some ("items", order_item_rules);
}

abbrev pub cancel_order_rules : Schema
cancel_order_rules = flat (
    required "order_id" (is_int ∷ at_least (pos 0) ∷ [])
    ∷ optional "cancel_reason" (is_string ∷ [])
    ∷ [])

abbrev pub update_order_status_rules : Schema
update_order_status_rules = flat (
    required "order_id" (is_int ∷ at_least (pos 1) ∷ [])
    ∷ required "status" (is_enum order_status ∷ not_empty ∷ [])
    ∷ [])

abbrev pub update_delivery_status_rules : Schema
update_delivery_status_rules = flat (
    required "id" (is_number ∷ not_empty ∷ [])
    ∷ required "status" (is_enum delivery_status ∷ not_empty ∷ [])
    ∷ [])

abbrev pub adjust_inventory_rules : Schema
adjust_inventory_rules = flat (
    required "product_id" (is_int ∷ at_least (pos 1) ∷ not_empty ∷ [])
    ∷ required "quantity_change" (is_int ∷ not_empty ∷ [])
    ∷ optional "reason" (is_string ∷ [])
    ∷ [])

abbrev pub create_product_rules : Schema
create_product_rules = flat (
    required "name" (is_string ∷ not_empty ∷ [])
    ∷ optional "description" (is_string ∷ [])
    ∷ required "price" (is_int ∷ at_least (pos 0) ∷ not_empty ∷ [])
    ∷ optional "quantity" (is_int ∷ at_least (pos 0) ∷ [])
    ∷ optional "image_urls" (each_is_string ∷ [])
    ∷ optional "category_id" (is_int ∷ [])
    ∷ optional "brand_id" (is_int ∷ [])
    ∷ optional "tag_ids" (each_is_int ∷ [])
    ∷ optional "attributes" []
    ∷ [])

abbrev pub create_product_brand_rules : Schema
create_product_brand_rules = flat (
    required "name" (is_string ∷ not_empty ∷ [])
    ∷ optional "description" (is_string ∷ [])
    ∷ optional "logo_url" (is_string ∷ [])
    ∷ [])

abbrev pub create_product_category_rules : Schema
create_product_category_rules =
    flat
      (required "name" (is_string ∷ not_empty ∷ []) ∷ optional "description" (is_string ∷ []) ∷ [])

abbrev pub create_product_tag_rules : Schema
create_product_tag_rules = flat (required "name" (is_string ∷ not_empty ∷ []) ∷ [])

-- `PartialType` makes every property optional, `OmitType` leaves properties out.
abbrev partial_type : List Rule → List Rule
partial_type = map (λ (r : Rule). record r { is_optional = true })

abbrev omit_type : String → List Rule → List Rule
omit_type name = keep (λ r. not (str_eq r.name name))

-- The id that the classes of the updates add.
abbrev with_id : List Rule → Schema
with_id rules = flat (rules ++ required "id" (is_int ∷ not_empty ∷ at_least (pos 1) ∷ []) ∷ [])

abbrev pub update_product_rules : Schema
update_product_rules = with_id (partial_type (omit_type "quantity" create_product_rules.rules))

abbrev pub update_product_brand_rules : Schema
update_product_brand_rules = with_id (partial_type create_product_brand_rules.rules)

abbrev pub update_product_category_rules : Schema
update_product_category_rules = with_id (partial_type create_product_category_rules.rules)

abbrev pub update_product_tag_rules : Schema
update_product_tag_rules = with_id (partial_type create_product_tag_rules.rules)

-- What the pipe reports of a property: the messages of the checks that failed, and for a nested one the
-- errors below it.
pub record ValidationError : Type 0 where
  pub property : String
  pub constraints : Option (List String)

-- `null` or `undefined`
abbrev pub is_missing : Option Value → Bool
is_missing none = true
is_missing (some null) = true
is_missing (some _) = false

abbrev pub is_given : Option Value → Bool
is_given none = false
is_given (some null) = false
is_given (some (words s)) = not (str_eq s "")
is_given (some _) = true

abbrev pub all_values : (Value → Bool) → Values → Bool
all_values p no_item = true
all_values p (item v vs) = p v && all_values p vs

abbrev pub is_words : Value → Bool
is_words (words s) = true
is_words _ = false

abbrev pub is_integer : Value → Bool
is_integer (number n) = true
is_integer _ = false

-- The fields that a class does not declare are refused.
abbrev pub known : List Rule → Fields → Bool
known rules no_field = true
known rules (entry name v f) = any (λ r. str_eq r.name name) rules && known rules f

module _ (check : Check → Option Value → Bool) where
  abbrev pub rule_holds : Fields → Rule → Bool
  rule_holds f r =
      (r.is_optional && is_missing (member r.name f))
      || all (λ c. check c (member r.name f)) r.checks

  -- A nested value: one that is null is passed over, and a list is its items.
  abbrev mutual
    pub item_holds : List Rule → Value → Bool
    item_holds rules null = true
    item_holds rules (object f) = all (rule_holds f) rules && known rules f
    item_holds rules (array vs) = each_holds rules vs
    item_holds rules _ = false

    pub each_holds : List Rule → Values → Bool
    each_holds rules no_item = true
    each_holds rules (item v vs) = item_holds rules v && each_holds rules vs

  abbrev pub items_hold : List Rule → Option Value → Bool
  items_hold rules none = true
  items_hold rules (some v) = item_holds rules v

  abbrev pub nested_holds : Option (String × List Rule) → Fields → Bool
  nested_holds none f = true
  nested_holds (some (name, rules)) f = items_hold rules (member name f)

  -- Every declared property holds, the items of a nested one too, and nothing else is there.
  abbrev pub accepted : Schema → Fields → Bool
  accepted s f = all (rule_holds f) s.rules && (known s.rules f && nested_holds s.nested f)

-- The documented behaviour of the decorators, and of the pipe with the options `whitelist` and
-- `forbidNonWhitelisted`. The numbers of a body are taken as integers. With `each` a value that is no
-- list is checked itself.
pub record Validator : Type 0 where
  pub check : Check → Option Value → Bool
  pub validate : Schema → Fields → List ValidationError
  pub accepts_law : (s : Schema) (f : Fields) → (validate s f ≡ []) ↔ (accepted check s f ≡ true)
  pub int_law : (v : Option Value) → check is_int v ≡ true → (n : ℤ) × (v ≡ some (number n))
  pub number_law : (v : Option Value) → check is_number v ≡ true → (n : ℤ) × (v ≡ some (number n))
  pub at_least_law : (k n : ℤ) → check (at_least k) (some (number n)) ≡ leb_ℤ k n
  pub string_law :
      (v : Option Value) → check is_string v ≡ true → (s : String) × (v ≡ some (words s))
  pub string_holds : (s : String) → check is_string (some (words s)) ≡ true
  pub array_holds : (vs : Values) → check is_array (some (array vs)) ≡ true
  pub email_law : (v : Option Value) → check is_email v ≡ true → (s : String) × (v ≡ some (words s))
  pub array_law :
      (v : Option Value) → check is_array v ≡ true → (vs : Values) × (v ≡ some (array vs))
  pub enum_law :
      (e : Enum) (v : Option Value)
      → check (is_enum e) v ≡ true
      → (s : String) × (v ≡ some (words s)) × (any (str_eq s) (names_of e) ≡ true)
  pub each_string_law :
      (v : Option Value)
      → check each_is_string v ≡ true
      → ((vs : Values) × (v ≡ some (array vs)) × (all_values is_words vs ≡ true))
        ⊎ ((s : String) × (v ≡ some (words s)))
  pub each_int_law :
      (v : Option Value)
      → check each_is_int v ≡ true
      → ((vs : Values) × (v ≡ some (array vs)) × (all_values is_integer vs ≡ true))
        ⊎ ((n : ℤ) × (v ≡ some (number n)))
  pub not_empty_law : (v : Option Value) → check not_empty v ≡ is_given v
