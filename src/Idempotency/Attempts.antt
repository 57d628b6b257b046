-- ===== src/Idempotency/Attempts.antt =====
-- The loop of `acquire`: when it gives up.
use nest_microservices_tempo.Prelude.{ℕ, zero, suc, String, ◌≡◌, ◌⊎◌, Option, none, some}
use nest_microservices_tempo.Errors.{Result, ok, err}
use nest_microservices_tempo.Idempotency.{
  IdempotencyRecord, AcquireResult, acquired, Redis, inspected, kept_changing,
}
use nest_microservices_tempo.Idempotency.Laws.{IsRedis}

module _ {R S : Type 0} (redis : Redis R S) (entry : S → String → Option (IdempotencyRecord R))
    (law : IsRedis redis entry) (other : S → S) (key : String) where
  -- In each of so many attempts the key is taken at the SET, and gone at the GET that follows.
  abbrev pub Vanishes : ℕ → S → Type 0
  Vanishes zero s = Unit
  Vanishes (suc n) s =
      ((r : IdempotencyRecord R) × (entry s key ≡ some r))
      × (entry (other s) key ≡ none)
      × Vanishes n (other (other s))

  -- What an attempt answers: the lock where the key was free, or what the record says that the GET
  -- has found.
  abbrev pub Answered : AcquireResult R → Type 0
  Answered x = (x ≡ acquired) ⊎ ((r : IdempotencyRecord R) × (x ≡ inspected r))

  abbrev Ends : ℕ → S → Result (AcquireResult R) × S → Type 0
  Ends n s x =
      ((a : AcquireResult R) × (x.0 ≡ ok a) × Answered a)
      ⊎ ((x.0 ≡ err kept_changing) × Vanishes n s)
