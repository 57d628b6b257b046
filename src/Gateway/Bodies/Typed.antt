-- ===== src/Gateway/Bodies/Typed.antt =====
-- That the rules of a class give its fields the types that the services are told.
use nest_microservices_tempo.Prelude.{
  ℤ, ◌≤ℤ◌, leb_ℤ, leb_ℤ→le, int_laws, Bool, true, false, not, ◌&&◌, ◌||◌, Option, some, List, [],
  ◌∷◌, any, all, All-imp, All-of_all, ◌≡◌, refl, sym, ◌∙◌, ap, inl, inr, Bool-cases, and_elim,
  arith, subst,
}
use text.Mathlib.Text.{◌==◌ as str_eq}
use text.Mathlib.TextEquality.{eq_iff}
use nest_microservices_tempo.Messaging.{Value, number, words, array, Fields, member}
use nest_microservices_tempo.Gateway.Bodies.{
  Enum, order_status, delivery_status, Check, is_int, is_number, at_least, is_string, is_email,
  is_array, is_enum, each_is_string, each_is_int, Rule, Validator, is_missing, known, rule_holds,
}
use nest_microservices_tempo.Gateway.Bodies.Shapes.{
  Kind, numeric, from, textual, one_of, texts, numerics, listing, Resembles, Member, HasMember,
  Conforms, Request, rules_of, shape_of, register_user, login_user, create_order, cancel_order,
  update_order_status, update_delivery_status, adjust_inventory, create_product, update_product,
  create_product_brand, update_product_brand, create_product_category, update_product_category,
  create_product_tag, update_product_tag,
}

abbrev is_numeric : Check → Bool
is_numeric is_int = true
is_numeric is_number = true
is_numeric _ = false

abbrev is_from : ℤ → Check → Bool
is_from k (at_least n) = leb_ℤ k n
is_from k _ = false

abbrev is_text : Check → Bool
is_text is_string = true
is_text is_email = true
is_text _ = false

abbrev same_enum : Enum → Enum → Bool
same_enum order_status order_status = true
same_enum delivery_status delivery_status = true
same_enum _ _ = false

abbrev is_one_of : Enum → Check → Bool
is_one_of e (is_enum d) = same_enum e d
is_one_of e _ = false

abbrev is_texts : Check → Bool
is_texts each_is_string = true
is_texts _ = false

abbrev is_numerics : Check → Bool
is_numerics each_is_int = true
is_numerics _ = false

abbrev is_listing : Check → Bool
is_listing is_array = true
is_listing _ = false

-- Whether the checks make sure of a kind.
abbrev covers : List Check → Kind → Bool
covers cs numeric = any is_numeric cs
covers cs (from k) = any is_numeric cs && any (is_from k) cs
covers cs textual = any is_text cs
covers cs (one_of e) = any (is_one_of e) cs
covers cs texts = any is_texts cs
covers cs numerics = any is_numerics cs
covers cs listing = any is_listing cs

any_All :
    {A : Type 0} (p q : A → Bool) (l : List A)
    → any p l ≡ true
    → all q l ≡ true
    → (a : A) × (p a ≡ true) × (q a ≡ true)
any_All p q [] h k = cc
any_All p q (a ∷ l) h k =
    let (here, later) = and_elim (q a) (all q l) k in
    elim (Bool-cases (p a)) [ inl e ↦ (a, e, here) | inr e ↦ any_All p q l (rw e at h) later ]

module _ (val : Validator) where
  open val use {check}

  abbrev IsOf : Kind → Option Value → Type 0
  IsOf k o = (v : Value) × (o ≡ some v) × Resembles k v

  numeric_check :
      (c : Check) (o : Option Value) → is_numeric c ≡ true → check c o ≡ true → IsOf numeric o
  numeric_check is_int o p h = let (n, e) = val.int_law o h in (number n, e, (n, refl))
  numeric_check is_number o p h = let (n, e) = val.number_law o h in (number n, e, (n, refl))
  numeric_check _ o p h = cc

  from_check :
      (k n : ℤ) (c : Check) → is_from k c ≡ true → check c (some (number n)) ≡ true → k ≤ℤ n
  from_check k n (at_least m) p h =
      let least : m ≤ℤ n = leb_ℤ→le m n (sym (val.at_least_law m n) ∙ h) in
      omega (int_laws, leb_ℤ→le k m p, least)
  from_check k n _ p h = cc

  text_check : (c : Check) (o : Option Value) → is_text c ≡ true → check c o ≡ true → IsOf textual o
  text_check is_string o p h = let (s, e) = val.string_law o h in (words s, e, (s, refl))
  text_check is_email o p h = let (s, e) = val.email_law o h in (words s, e, (s, refl))
  text_check _ o p h = cc

  one_of_check :
      (e : Enum) (c : Check) (o : Option Value)
      → is_one_of e c ≡ true
      → check c o ≡ true
      → IsOf (one_of e) o
  one_of_check order_status (is_enum order_status) o p h =
      let (s, e, k) = val.enum_law order_status o h in (words s, e, (s, refl, k))
  one_of_check delivery_status (is_enum delivery_status) o p h =
      let (s, e, k) = val.enum_law delivery_status o h in (words s, e, (s, refl, k))
  one_of_check order_status (is_enum delivery_status) o p h = cc
  one_of_check delivery_status (is_enum order_status) o p h = cc
  one_of_check e _ o p h = cc

  texts_check : (c : Check) (o : Option Value) → is_texts c ≡ true → check c o ≡ true → IsOf texts o
  texts_check each_is_string o p h = elim (val.each_string_law o h) [
    | inl (vs, e, k) ↦ (array vs, e, inl (vs, refl, k))
    | inr (s, e) ↦ (words s, e, inr (s, refl))
  ]
  texts_check _ o p h = cc

  numerics_check :
      (c : Check) (o : Option Value) → is_numerics c ≡ true → check c o ≡ true → IsOf numerics o
  numerics_check each_is_int o p h = elim (val.each_int_law o h) [
    | inl (vs, e, k) ↦ (array vs, e, inl (vs, refl, k))
    | inr (n, e) ↦ (number n, e, inr (n, refl))
  ]
  numerics_check _ o p h = cc

  listing_check :
      (c : Check) (o : Option Value) → is_listing c ≡ true → check c o ≡ true → IsOf listing o
  listing_check is_array o p h = let (vs, e) = val.array_law o h in (array vs, e, (vs, refl))
  listing_check _ o p h = cc

  covers-Resembles :
      (cs : List Check) (k : Kind) (o : Option Value)
      → covers cs k ≡ true
      → all (λ c. check c o) cs ≡ true
      → IsOf k o
  covers-Resembles cs numeric o p h =
      let (c, is, holds) = any_All is_numeric (λ c. check c o) cs p h in numeric_check c o is holds
  covers-Resembles cs (from k) o p h =
      let (one, two) = and_elim (any is_numeric cs) (any (is_from k) cs) p in
      let (c, is, holds) = any_All is_numeric (λ c. check c o) cs one h in
      let (d, bound, limits) = any_All (is_from k) (λ c. check c o) cs two h in
      let (v, there, (n, same)) = numeric_check c o is holds in
      let at_n : o ≡ some (number n) = there ∙ ap some same in
      (v, there, (n, same, from_check k n d bound (subst (λ x. check d x ≡ true) at_n limits)))
  covers-Resembles cs textual o p h =
      let (c, is, holds) = any_All is_text (λ c. check c o) cs p h in text_check c o is holds
  covers-Resembles cs (one_of e) o p h =
      let (c, is, holds) = any_All (is_one_of e) (λ c. check c o) cs p h in
      one_of_check e c o is holds
  covers-Resembles cs texts o p h =
      let (c, is, holds) = any_All is_texts (λ c. check c o) cs p h in texts_check c o is holds
  covers-Resembles cs numerics o p h =
      let (c, is, holds) = any_All is_numerics (λ c. check c o) cs p h in
      numerics_check c o is holds
  covers-Resembles cs listing o p h =
      let (c, is, holds) = any_All is_listing (λ c. check c o) cs p h in listing_check c o is holds

  -- A rule that makes sure of a member.
  abbrev serves : Member → Rule → Bool
  serves m r =
      str_eq r.name m.name && ((m.is_optional || not r.is_optional) && covers r.checks m.kind)

  serves-HasMember :
      (f : Fields) (m : Member) (r : Rule)
      → serves m r ≡ true
      → rule_holds check f r ≡ true
      → HasMember f m
  serves-HasMember f m r p h =
      let (same, rest) = and_elim (str_eq r.name m.name) _ p in
      let (free, covered) =
        and_elim (m.is_optional || not r.is_optional) (covers r.checks m.kind) rest in
      let at_m : r.name ≡ m.name = (eq_iff r.name m.name).0 same in
      elim (Bool-cases (r.is_optional && is_missing (member r.name f))) [
        | inl e ↦
            let (may, missing) = and_elim r.is_optional (is_missing (member r.name f)) e in
            inl (ground arith, subst (λ n. is_missing (member n f) ≡ true) at_m missing)
        | inr e ↦ inr (
            subst (λ n. IsOf m.kind (member n f)) at_m
              (covers-Resembles r.checks m.kind (member r.name f) covered (rw e at h)))
      ]

  abbrev fits : List Rule → List Member → Bool
  fits rules shape = all (λ m. any (serves m) rules) shape

  fits-Conforms :
      (f : Fields) (rules : List Rule) (shape : List Member)
      → fits rules shape ≡ true
      → all (rule_holds check f) rules ≡ true
      → Conforms shape f
  fits-Conforms f rules shape p h =
      All-imp (λ m. any (serves m) rules ≡ true) (HasMember f)
        (λ m k.
          let (r, is, holds) = any_All (serves m) (rule_holds check f) rules k h in
          serves-HasMember f m r is holds)
        shape (All-of_all (λ m. any (serves m) rules) shape p)

  rules_fit : (r : Request) → fits (rules_of r).rules (shape_of r) ≡ true
  rules_fit register_user = refl
  rules_fit login_user = refl
  rules_fit create_order = refl
  rules_fit cancel_order = refl
  rules_fit update_order_status = refl
  rules_fit update_delivery_status = refl
  rules_fit adjust_inventory = refl
  rules_fit create_product = refl
  rules_fit update_product = refl
  rules_fit create_product_brand = refl
  rules_fit update_product_brand = refl
  rules_fit create_product_category = refl
  rules_fit update_product_category = refl
  rules_fit create_product_tag = refl
  rules_fit update_product_tag = refl

-- A body that the pipe accepts has the type that the service is told: every field of the interface is
-- there with a value of its type, an id from its least value on and a status one of those there are,
-- or is optional and missing or null; and no field is there that the class does not declare.
-- Left out are `attributes` of a product and the fields of an order's items; and in place of the list
-- that the service is told of, `image_urls` may be one text and `tag_ids` one number.
pub accepted-Conforms :
    (val : Validator) (r : Request) (f : Fields)
    → val.validate (rules_of r) f ≡ []
    → Conforms (shape_of r) f × (known (rules_of r).rules f ≡ true)
accepted-Conforms val r f h =
    let ok_body = (val.accepts_law (rules_of r) f).0 h in
    let (holds, rest) = and_elim (all (rule_holds val.check f) (rules_of r).rules) _ ok_body in
    let (only, _) = and_elim (known (rules_of r).rules f) _ rest in
    (fits-Conforms val f (rules_of r).rules (shape_of r) (rules_fit val r) holds, only)
