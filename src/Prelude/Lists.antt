-- ===== src/Prelude/Lists.antt =====
-- Lists: predicates by recursion, tests on all or some elements, and searching.
use Prim.Native.Nat.{ℕ, ◌+◌}
use mathlib.Core.Bool.{Bool, true, false, ◌&&◌, ◌||◌}
use mathlib.Core.Path.{◌≡◌, refl, ap, subst}
use mathlib.Core.Logic.{inl, inr}
use mathlib.Core.List.{List, [], ◌∷◌, map}
use mathlib.Core.Option.{Option, none, some}
use nest_microservices_tempo.Prelude.Tests.{if◌then◌else◌, and_elim, Bool-cases}

abbrev pub All {ℓ κ} : {A : Type ℓ} → (A → Type κ) → List A → Type κ
All P [] = Unit
All P (first ∷ rest) = P first × All P rest

module _ {ℓ} {A : Type ℓ} where
  abbrev pub any : (A → Bool) → List A → Bool
  any p [] = false
  any p (x ∷ xs) = p x || any p xs

  abbrev pub all : (A → Bool) → List A → Bool
  all p [] = true
  all p (x ∷ xs) = p x && all p xs

  abbrev pub length : List A → ℕ
  length [] = 0
  length (x ∷ xs) = 1 + length xs

  -- The elements that pass the test.
  abbrev pub keep : (A → Bool) → List A → List A
  keep p [] = []
  keep p (x ∷ xs) = if p x then x ∷ keep p xs else keep p xs

  -- The first element that passes the test.
  abbrev pub find? : (A → Bool) → List A → Option A
  find? p [] = none
  find? p (x ∷ xs) = if p x then some x else find? p xs

pub all_of_All {ℓ} :
    {A : Type ℓ} (p : A → Bool) (t : List A) → All (λ r. p r ≡ true) t → all p t ≡ true
all_of_All p [] h = refl
all_of_All p (r ∷ t) h = rw (h.0, all_of_All p t h.1)

pub All-of_all {ℓ} :
    {A : Type ℓ} (p : A → Bool) (t : List A) → all p t ≡ true → All (λ r. p r ≡ true) t
All-of_all p [] h = tt
All-of_all p (r ∷ t) h =
    let (here, later) = and_elim (p r) (all p t) h in (here, All-of_all p t later)

-- A property goes over by a rule for each element.
pub All-imp {ℓ κ} :
    {A : Type ℓ} (P Q : A → Type κ) → ((a : A) → P a → Q a) → (t : List A) → All P t → All Q t
All-imp P Q f [] h = tt
All-imp P Q f (r ∷ t) h = (f r h.0, All-imp P Q f t h.1)

pub All-map {ℓ κ} :
    {A : Type ℓ} (P : A → Type κ) (f : A → A) (t : List A) → All (λ r. P (f r)) t → All P (map f t)
All-map P f [] h = tt
All-map P f (r ∷ t) h = (h.0, All-map P f t h.1)

pub All-zip {ℓ κ} :
    {A : Type ℓ} (P Q : A → Type κ) (t : List A) → All P t → All Q t → All (λ r. P r × Q r) t
All-zip P Q [] h k = tt
All-zip P Q (r ∷ t) h k = ((h.0, k.0), All-zip P Q t h.1 k.1)

pub map-map {ℓ} : {A : Type ℓ} (f g : A → A) (t : List A) → map f (map g t) ≡ map (λ r. f (g r)) t
map-map f g [] = refl
map-map f g (r ∷ t) = ap (λ s. f (g r) ∷ s) (map-map f g t)

pub map_id {ℓ} : {A : Type ℓ} (f : A → A) (t : List A) → ((r : A) → f r ≡ r) → map f t ≡ t
map_id f [] h = refl
map_id f (r ∷ t) h = rw (h r, map_id f t h)

-- What holds of every element holds of the one that is found.
pub found_All {ℓ κ} :
    {A : Type ℓ} (P : A → Type κ) (p : A → Bool) (r : A) (t : List A)
    → All P t
    → find? p t ≡ some r
    → P r
found_All P p r [] h e = cc
found_All P p r (q ∷ t) h e = elim (Bool-cases (p q)) [
  | inl y ↦
      let first : some q ≡ some r = rw y at e in let same : q ≡ r = cc first in subst P same h.0
  | inr n ↦ found_All P p r t h.1 (rw n at e)
]
