-- ===== src/Inventory/Ledger/Totals.antt =====
-- What the bookings of the ledger add up to.
use nest_microservices_tempo.Prelude.{
  ℕ, pos, ◌+ℤ◌, ◌≤ℤ◌, int_laws, ◌≡◌, refl, List, [], ◌∷◌, All, true, false, any, arith, ◌==◌, inl,
  inr, Bool-cases,
}
use nest_microservices_tempo.Inventory.{OrderItem, Inventories}
use nest_microservices_tempo.Inventory.Demand.{demand, demand_nonneg, IsPositive}
use nest_microservices_tempo.Inventory.Saga.{IsListed}
use nest_microservices_tempo.Inventory.Ledger.{Booking, Takes, here, there, booked}

pub booked-Takes :
    {b : Booking} {l l' : List Booking} (p : ℕ)
    → Takes b l l'
    → booked p l ≡ demand p b.items +ℤ booked p l'
booked-Takes p here = refl
booked-Takes {b} p (there {c} {l} {l'} h) = rw (booked-Takes p h) (omega int_laws)

pub All-Takes :
    {b : Booking} {l l' : List Booking} (P : Booking → Type 0)
    → Takes b l l'
    → All P l
    → P b × All P l'
All-Takes P here a = a
All-Takes P (there h) a = let (first, rest) = All-Takes P h a.1 in (first, (a.0, rest))

pub booked_nonneg :
    (p : ℕ) (l : List Booking) → All (λ b. IsPositive b.items) l → pos 0 ≤ℤ booked p l
booked_nonneg p [] h = omega arith
booked_nonneg p (b ∷ l) h = omega (int_laws, demand_nonneg p b.items h.0, booked_nonneg p l h.1)

-- A product that the table lacks is in no list of items of it.
pub demand-unlisted :
    (p : ℕ) (items : List OrderItem) (t : Inventories)
    → IsListed items t
    → any (λ r. r.product_id == p) t ≡ false
    → demand p items ≡ pos 0
demand-unlisted p [] t h n = refl
demand-unlisted p (i ∷ is) t h n = elim (Bool-cases (p == i.product_id)) [
  | inl e ↦
      let same : p ≡ i.product_id = ground arith in
      let has : any (λ r. r.product_id == p) t ≡ true = rw same h.0 in cc
  | inr e ↦ rw e (demand-unlisted p is t h.1 n)
]

pub booked-unlisted :
    (p : ℕ) (l : List Booking) (t : Inventories)
    → All (λ b. IsListed b.items t) l
    → any (λ r. r.product_id == p) t ≡ false
    → booked p l ≡ pos 0
booked-unlisted p [] t h n = refl
booked-unlisted p (b ∷ l) t h n =
    rw (demand-unlisted p b.items t h.0 n, booked-unlisted p l t h.1 n) (omega int_laws)
