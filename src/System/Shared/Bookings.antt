-- ===== src/System/Shared/Bookings.antt =====
-- The bookings of one order among those of others.
use nest_microservices_tempo.Prelude.{
  ℕ, ◌≤◌, ◌<◌, ◌≡◌, refl, sym, ap, subst, Bool, List, [], ◌∷◌, All, ◌==◌, keep, arith, inl, inr,
  Bool-cases, ==-ne, ==-self,
}
use nest_microservices_tempo.Inventory.{OrderItem}
use nest_microservices_tempo.Inventory.Ledger.{Booking, Takes, here, there}
use nest_microservices_tempo.System.Shared.{own, rest_of, booking}

pub rest_same : (o : ℕ) (l : List Booking) → own o l ≡ [] → rest_of o l ≡ l
rest_same o [] h = refl
rest_same o (c ∷ l) h = elim (Bool-cases (c.order_id == o)) [
  | inl e ↦ cc (rw e at h)
  | inr e ↦ rw e (ap (λ t. c ∷ t) (rest_same o l (rw e at h)))
]

pub own-rest_of : (o : ℕ) (l : List Booking) → own o (rest_of o l) ≡ []
own-rest_of o [] = refl
own-rest_of o (c ∷ l) = elim (Bool-cases (c.order_id == o)) [
  | inl e ↦ rw e (own-rest_of o l)
  | inr e ↦ rw e (rw e (own-rest_of o l))
]

cons_parts : {a b : Booking} {l m : List Booking} → a ∷ l ≡ b ∷ m → (a ≡ b) × (l ≡ m)
cons_parts e = (cc, cc)

pub own-Takes :
    (o : ℕ) (b : Booking) (l : List Booking) → own o l ≡ b ∷ [] → Takes b l (rest_of o l)
own-Takes o b [] h = cc
own-Takes o b (c ∷ l) h = elim (Bool-cases (c.order_id == o)) [
  | inl e ↦
      let h' : c ∷ own o l ≡ b ∷ [] = rw e at h in
      let (is, none_left) = cons_parts h' in
      rw e (
        subst (λ z. Takes b (z ∷ l) (rest_of o l)) (sym is)
          (subst (λ t. Takes b (b ∷ l) t) (sym (rest_same o l none_left)) here))
  | inr e ↦ rw e (there (own-Takes o b l (rw e at h)))
]

-- No order that is to come has a booking.
pub own_none : (o n : ℕ) (l : List Booking) → n < o → All (λ b. b.order_id ≤ n) l → own o l ≡ []
own_none o n [] lt h = refl
own_none o n (c ∷ l) lt h =
    rw (==-ne c.order_id o (λ e. omega (arith, e, h.0, lt))) (own_none o n l lt h.1)

pub All-keep :
    (P : Booking → Type 0) (p : Booking → Bool) (l : List Booking) → All P l → All P (keep p l)
All-keep P p [] h = tt
All-keep P p (c ∷ l) h = elim (Bool-cases (p c)) [
  | inl e ↦ rw e (h.0, All-keep P p l h.1)
  | inr e ↦ rw e (All-keep P p l h.1)
]

pub own-booking :
    (o : ℕ) (items : List OrderItem) (l : List Booking)
    → own o l ≡ []
    → own o (booking o items ∷ l) ≡ booking o items ∷ []
own-booking o items l h = rw (==-self o) (ap (λ t. booking o items ∷ t) h)
