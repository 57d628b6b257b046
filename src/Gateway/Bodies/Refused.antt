-- ===== src/Gateway/Bodies/Refused.antt =====
-- The answer to a body that is refused (`exceptionFactory` in apps/api-gateway/src/main.ts), and the
-- bodies of orders that are not.
use nest_microservices_tempo.Prelude.{
  pos, String, true, false, Option, none, some, List, [], ◌∷◌, ◌≡◌, refl, All,
}
use text.Mathlib.Text.{◌==◌ as str_eq}
use nest_microservices_tempo.Messaging.{
  Value, number, words, array, object, Values, no_item, item, Fields, no_field, entry, defined,
  HttpExceptions, HttpReply, error_body,
}
use nest_microservices_tempo.Gateway.Bodies.{
  Schema, ValidationError, Validator, create_order_rules, order_item_rules, is_given, accepted,
  each_holds, is_email,
}

-- `Object.values(err.constraints ?? {})[0]`
abbrev pub first_message : Option (List String) → Option Value
first_message none = none
first_message (some []) = none
first_message (some (m ∷ _)) = some (words m)

abbrev pub detail : ValidationError → Value
detail e =
    object
      (entry "field" (words e.property) (defined "message" (first_message e.constraints) no_field))

abbrev pub details : List ValidationError → Values
details [] = no_item
details (e ∷ es) = item (detail e) (details es)

module _ {E : Type 0} (x : HttpExceptions E) where
  open x use {make}

  -- An UnprocessableEntityException, whose status is 422.
  unfoldable pub validation_exception : List ValidationError → E
  validation_exception errors =
      make
        (object (
          entry "message" (words "Validation error")
            (entry "details" (array (details errors)) no_field)))
        (number (pos 422)) (some (words "SYS_002"))

  -- The pipe: a body goes on to the controller, or the exception is thrown.
  unfoldable pub pipe : Validator → Schema → Fields → Option E
  unfolding validation_exception
  pipe val s f = elim (val.validate s f) [
    | [] ↦ none
    | e ∷ es ↦ some (validation_exception (e ∷ es))
  ]

  -- The answer to the errors of a body.
  abbrev pub refusal : List ValidationError → HttpReply
  refusal errors = record {
    status = number (pos 422);
    body = error_body (
        entry "code" (words "SYS_002") (
          entry "message" (words "Validation error")
            (entry "details" (array (details errors)) no_field)));
  }

abbrev pub order_item : Value × Value → Value
order_item (p, q) = object (entry "product_id" p (entry "quantity" q no_field))

abbrev pub order_items : List (Value × Value) → Values
order_items [] = no_item
order_items (i ∷ is) = item (order_item i) (order_items is)

abbrev pub order_body : List (Value × Value) → String → String → Fields
order_body is address email =
    entry "items" (array (order_items is))
      (entry "address" (words address) (entry "email" (words email) no_field))

module _ (val : Validator) where
  order_items_hold :
      (is : List (Value × Value))
      → All (λ i. (is_given (some i.0) ≡ true) × (is_given (some i.1) ≡ true)) is
      → each_holds val.check order_item_rules (order_items is) ≡ true
  order_items_hold [] h = refl
  order_items_hold ((p, q) ∷ is) ((hp, hq), h) =
      rw (val.not_empty_law (some p), val.not_empty_law (some q), hp, hq, order_items_hold is h)
        refl

  -- The body of an order goes on to the order service whatever its items' product ids and quantities
  -- are, a negative number, a text or an object, as long as none is missing, null or empty; its address is a text and its email an address, neither empty.
  pub order_unchecked :
      {E : Type 0} (x : HttpExceptions E) (is : List (Value × Value)) (address email : String)
      → All (λ i. (is_given (some i.0) ≡ true) × (is_given (some i.1) ≡ true)) is
      → str_eq address "" ≡ false
      → str_eq email "" ≡ false
      → val.check is_email (some (words email)) ≡ true
      → pipe x val create_order_rules (order_body is address email) ≡ none
  unfolding pipe
  order_unchecked x is address email given some_address some_email valid_email =
      let fine : accepted val.check create_order_rules (order_body is address email) ≡ true =
        rw
          (
            val.array_holds (order_items is),
            val.string_holds address,
            valid_email,
            val.not_empty_law (some (array (order_items is))),
            val.not_empty_law (some (words address)),
            val.not_empty_law (some (words email)),
            some_address,
            some_email,
            order_items_hold is given,
          )
          refl in
      rw ((val.accepts_law create_order_rules (order_body is address email)).1 fine, pipe) refl
