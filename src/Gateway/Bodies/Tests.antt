-- ===== src/Gateway/Bodies/Tests.antt =====
-- A validator that decides the rules itself, and bodies that pass it.
use nest_microservices_tempo.Prelude.{
  ℤ, pos, negsuc, leb_ℤ, String, Bool, true, false, Option, none, some, List, [], ◌∷◌, ◌≡◌, refl,
  any, ◌↔◌, ◌||◌, inl, inr, Bool-cases,
}
use text.Mathlib.Text.{◌==◌ as str_eq}
use nest_microservices_tempo.Messaging.{
  Value, null, number, words, array, Values, no_item, item, Fields, no_field, entry,
}
use nest_microservices_tempo.Messaging.Tests.{errors}
use nest_microservices_tempo.Gateway.Bodies.{
  Check, is_int, is_number, at_least, is_string, is_email, min_length, is_array, is_enum, not_empty,
  each_is_string, each_is_int, ValidationError, Validator, names_of, is_given, all_values, is_words,
  is_integer, accepted, known, create_order_rules,
}
use nest_microservices_tempo.Gateway.Bodies.Shapes.{Conforms, rules_of, shape_of, adjust_inventory}
use nest_microservices_tempo.Gateway.Bodies.Typed.{accepted-Conforms}
use nest_microservices_tempo.Gateway.Bodies.Refused.{pipe, order_body, order_unchecked}

abbrev holds_number : (ℤ → Bool) → Option Value → Bool
holds_number p (some (number n)) = p n
holds_number p _ = false

abbrev holds_words : (String → Bool) → Option Value → Bool
holds_words p (some (words s)) = p s
holds_words p _ = false

abbrev holds_array : (Values → Bool) → Option Value → Bool
holds_array p (some (array vs)) = p vs
holds_array p _ = false

number_of :
    (p : ℤ → Bool) (v : Option Value) → holds_number p v ≡ true → (n : ℤ) × (v ≡ some (number n))
number_of p (some (number n)) h = (n, refl)
number_of p _ h = cc

words_of :
    (p : String → Bool) (v : Option Value)
    → holds_words p v ≡ true
    → (s : String) × (v ≡ some (words s)) × (p s ≡ true)
words_of p (some (words s)) h = (s, refl, h)
words_of p _ h = cc

array_of :
    (p : Values → Bool) (v : Option Value)
    → holds_array p v ≡ true
    → (vs : Values) × (v ≡ some (array vs)) × (p vs ≡ true)
array_of p (some (array vs)) h = (vs, refl, h)
array_of p _ h = cc

-- Any text is an address here.
abbrev decides : Check → Option Value → Bool
decides is_int v = holds_number (λ n. true) v
decides is_number v = holds_number (λ n. true) v
decides (at_least k) v = holds_number (leb_ℤ k) v
decides is_string v = holds_words (λ s. true) v
decides is_email v = holds_words (λ s. true) v
decides (min_length n) v = holds_words (λ s. true) v
decides is_array v = holds_array (λ vs. true) v
decides (is_enum e) v = holds_words (λ s. any (str_eq s) (names_of e)) v
decides not_empty v = is_given v
decides each_is_string v = holds_array (all_values is_words) v || holds_words (λ s. true) v
decides each_is_int v = holds_array (all_values is_integer) v || holds_number (λ n. true) v

abbrev an_error : ValidationError
an_error = record { property = "quantity"; constraints = some ("must be an integer" ∷ []) }

abbrev errors_if : Bool → List ValidationError
errors_if true = []
errors_if false = an_error ∷ []

no_errors : (b : Bool) → (errors_if b ≡ []) ↔ (b ≡ true)
no_errors true = (λ _. refl, λ _. refl)
no_errors false = (λ h. cc, λ h. cc)

abbrev strict : Validator
strict = record {
  check = decides;
  validate = λ s f. errors_if (accepted decides s f);
  accepts_law = λ s f. no_errors (accepted decides s f);
  int_law = λ v h. number_of (λ n. true) v h;
  number_law = λ v h. number_of (λ n. true) v h;
  at_least_law = λ k n. refl;
  string_law = λ v h. let (s, e, _) = words_of (λ s. true) v h in (s, e);
  string_holds = λ s. refl;
  array_holds = λ vs. refl;
  email_law = λ v h. let (s, e, _) = words_of (λ s. true) v h in (s, e);
  array_law = λ v h. let (vs, e, _) = array_of (λ vs. true) v h in (vs, e);
  enum_law = λ e v h. words_of (λ s. any (str_eq s) (names_of e)) v h;
  each_string_law = λ v h. elim (Bool-cases (holds_array (all_values is_words) v)) [
    | inl e ↦ inl (array_of (all_values is_words) v e)
    | inr e ↦ let (s, there, _) = words_of (λ s. true) v (rw e at h) in inr (s, there)
  ];
  each_int_law = λ v h. elim (Bool-cases (holds_array (all_values is_integer) v)) [
    | inl e ↦ inl (array_of (all_values is_integer) v e)
    | inr e ↦ inr (number_of (λ n. true) v (rw e at h))
  ];
  not_empty_law = λ v. refl;
}

abbrev adjustment : Fields
adjustment =
    entry "product_id" (number (pos 7))
      (entry "quantity_change" (number (negsuc 4)) (entry "reason" null no_field))

accepted-Conforms_example :
    Conforms (shape_of adjust_inventory) adjustment
    × (known (rules_of adjust_inventory).rules adjustment ≡ true)
accepted-Conforms_example = accepted-Conforms strict adjust_inventory adjustment refl

-- A quantity below nothing, and one that is no number.
abbrev odd_items : List (Value × Value)
odd_items = (number (pos 7), number (negsuc 2)) ∷ (number (pos 8), words "many") ∷ []

order_unchecked_example :
    pipe errors strict create_order_rules (order_body odd_items "1 Main Street" "a@b.c") ≡ none
order_unchecked_example =
    order_unchecked strict errors odd_items "1 Main Street" "a@b.c"
      ((refl, refl), ((refl, refl), tt)) refl refl refl

-- A body without a product.
abbrev nameless : Fields
nameless = entry "quantity_change" (number (pos 5)) no_field

-- Items that are null pass.
null_item :
    accepted decides create_order_rules (
      entry "items"
        (array (item null no_item))
        (entry "address" (words "1 Main Street") (entry "email" (words "a@b.c") no_field)))
    ≡ true
null_item = refl
