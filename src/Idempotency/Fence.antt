-- ===== src/Idempotency/Fence.antt =====
-- Locks, replays and fencing tokens of the idempotency store.
use text.Mathlib.TextEquality.{eq_iff}
use nest_microservices_tempo.Prelude.{
  ℕ, String, ◌≡◌, refl, Bool, true, false, Option, none, some, ◌∙◌, ap,
}
use nest_microservices_tempo.Errors.{Result, ok}
use nest_microservices_tempo.Idempotency.{
  IdempotencyRecord, Redis, AcquireResult, acquired, replay, busy, locked, finished, inspected,
  owned_by, attempts, after_set_nx, after_get, acquire, fenced, did, complete, release, extend,
}
use nest_microservices_tempo.Idempotency.Laws.{IsRedis}

-- No other process runs.
abbrev pub alone : {S : Type 0} → S → S
alone s = s

module _ {R S : Type 0} (redis : Redis R S) (entry : S → String → Option (IdempotencyRecord R))
    (law : IsRedis redis entry) (key : String) where
  got : (r : Option (IdempotencyRecord R)) (s : S) → entry s key ≡ r → redis.get key s ≡ (r, s)
  got r s e = law.get_law key s ∙ ap (λ x. (x, s)) e

  first_attempt :
      (other : S → S) (rest : S → Result (AcquireResult R) × S) (owner fingerprint : String)
      (x : Bool × S)
      → (x.0 ≡ true) × (entry x.1 key ≡ some (locked owner fingerprint))
      → let (r, s') = after_set_nx redis other key rest x in
        (r ≡ ok acquired) × (entry s' key ≡ some (locked owner fingerprint))
  first_attempt other rest owner fingerprint (true, s) (_, now) = (refl, now)
  first_attempt other rest owner fingerprint (false, s) (h, now) = cc

  -- A key that is free is locked by the request that asks first.
  acquire_free :
      (other : S → S) (owner fingerprint : String) (ttl : ℕ) (s : S)
      → entry s key ≡ none
      → let (r, s') = acquire redis other key owner fingerprint ttl s in
        (r ≡ ok acquired) × (entry s' key ≡ some (locked owner fingerprint))
  unfolding acquire
  acquire_free other owner fingerprint ttl s e =
      first_attempt other (attempts redis other key 4 owner fingerprint ttl) owner fingerprint _
        (law.set_nx_new key (locked owner fingerprint) ttl s e)

  -- A key that is taken tells what is stored, and stays as it is.
  acquire_taken :
      (owner fingerprint : String) (ttl : ℕ) (r : IdempotencyRecord R) (s : S)
      → entry s key ≡ some r
      → acquire redis alone key owner fingerprint ttl s ≡ (ok (inspected r), s)
  unfolding acquire
  acquire_taken owner fingerprint ttl r s e =
      ap (λ x. after_set_nx redis alone key (attempts redis alone key 4 owner fingerprint ttl) x)
        (law.set_nx_taken key (locked owner fingerprint) r ttl s e)
      ∙ ap (λ x. after_get redis alone key (attempts redis alone key 4 owner fingerprint ttl) x)
          (got (some r) s e)

  -- Of two requests for a free key, with no expiry between them, the first gets the lock and the
  -- second is told that the key is in use.
  pub acquire-acquire :
      (other : S → S) (owner owner' fingerprint fingerprint' : String) (ttl ttl' : ℕ) (s : S)
      → entry s key ≡ none
      → let (r, s₁) = acquire redis other key owner fingerprint ttl s in
        (r ≡ ok acquired)
        × (acquire redis alone key owner' fingerprint' ttl' s₁ ≡ (ok (busy fingerprint), s₁))
  acquire-acquire other owner owner' fingerprint fingerprint' ttl ttl' s e =
      let (first, now) = acquire_free other owner fingerprint ttl s e in
      (first, acquire_taken owner' fingerprint' ttl' (locked owner fingerprint) _ now)

  refused :
      (other : S → S) (owner : String) (command : IdempotencyRecord R → S → Bool × S)
      (r : IdempotencyRecord R) (s : S)
      → redis.get key s ≡ (some r, s)
      → owned_by owner r ≡ false
      → fenced redis other key owner command (redis.get key s) ≡ (false, s)
  refused other owner command r s e n =
      ap (λ x. fenced redis other key owner command x) e ∙ rw n refl

  allowed :
      (other : S → S) (owner fingerprint : String) (command : IdempotencyRecord R → S → Bool × S)
      (s : S)
      → redis.get key s ≡ (some (locked owner fingerprint), s)
      → fenced redis other key owner command (redis.get key s)
        ≡ command (locked owner fingerprint) (other s)
  allowed other owner fingerprint command s e =
      ap (λ x. fenced redis other key owner command x) e ∙ rw ((eq_iff owner owner).1 refl) refl

  -- The key is free, or its record is not a lock of this attempt.
  abbrev pub NotOwned : String → Option (IdempotencyRecord R) → Type 0
  NotOwned owner none = Unit
  NotOwned owner (some r) = owned_by owner r ≡ false

  kept_off :
      (other : S → S) (owner : String) (command : IdempotencyRecord R → S → Bool × S)
      (r : Option (IdempotencyRecord R)) (s : S)
      → redis.get key s ≡ (r, s)
      → NotOwned owner r
      → fenced redis other key owner command (redis.get key s) ≡ (false, s)
  kept_off other owner command none s e n = ap (λ x. fenced redis other key owner command x) e
  kept_off other owner command (some r) s e n = refused other owner command r s e n

  -- An attempt that does not own the lock when the operation reads it, whether another attempt does, the
  -- key is completed, or the key is free or has expired, changes nothing: not by `complete`, not by
  -- `release` and not by `extend`.
  pub fenced_off :
      (other : S → S) (owner : String) (response : R) (ttl : ℕ) (s : S)
      → NotOwned owner (entry s key)
      → (complete redis other key owner response ttl s ≡ (false, s))
        × (release redis other key owner s ≡ (false, s))
        × (extend redis other key owner ttl s ≡ (false, s))
  unfolding complete release extend
  fenced_off other owner response ttl s n =
      let r = entry s key in
      let get_r = got r s refl in
      (
        kept_off other owner (λ x. redis.set key (finished x.fingerprint response) ttl) r s get_r n,
        kept_off other owner (λ _ s'. did redis other key (redis.del key s')) r s get_r n,
        kept_off other owner (λ _ s'. did redis other key (redis.p_expire key ttl s')) r s get_r n,
      )

  -- Between the GET and the SET of `complete` other processes may do what they like, such as take the
  -- key over once the lock has expired: `complete` answers true and stores its own response.
  pub complete_overwrites :
      (other : S → S) (owner fingerprint : String) (response : R) (ttl : ℕ) (s : S)
      → entry s key ≡ some (locked owner fingerprint)
      → let (done, s') = complete redis other key owner response ttl s in
        (done ≡ true) × (entry s' key ≡ some (finished fingerprint response))
  unfolding complete
  complete_overwrites other owner fingerprint response ttl s e =
      rw
        (allowed other owner fingerprint (λ r. redis.set key (finished r.fingerprint response) ttl)
          s (got _ s e))
        (law.set_law key (finished fingerprint response) ttl (other s))

  -- A response that the owner of the lock stores is replayed, with its fingerprint, to a request in any
  -- later state in which the key still has the record that `complete` has left: one in which it has
  -- neither expired nor been deleted. No other process runs between the commands of that request.
  pub acquire-complete :
      (other : S → S) (owner owner' fingerprint fingerprint' : String) (response : R) (ttl ttl' : ℕ)
      (s s₂ : S)
      → entry s key ≡ some (locked owner fingerprint)
      → entry s₂ key ≡ entry (complete redis other key owner response ttl s).1 key
      → ((complete redis other key owner response ttl s).0 ≡ true)
        × (acquire redis alone key owner' fingerprint' ttl' s₂
            ≡ (ok (replay fingerprint response), s₂))
  acquire-complete other owner owner' fingerprint fingerprint' response ttl ttl' s s₂ e kept =
      let (done, now) = complete_overwrites other owner fingerprint response ttl s e in
      (done, acquire_taken owner' fingerprint' ttl' (finished fingerprint response) s₂ (kept ∙ now))
