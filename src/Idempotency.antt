-- ===== src/Idempotency.antt =====
-- libs/common/src/idempotency/redis-idempotency.store.ts: the store of idempotency keys. Redis is a
-- parameter: a record of its commands, on a state that is not read here. A key stands for itself
-- behind the constant prefix, and a stored value for its JSON. Between any two commands of an
-- operation other processes may run, and locks expire: that is a function of the state, `other`.
pub mod Laws
pub mod Fence
pub mod Attempts
mod Tests
use text.Mathlib.Text.{◌==◌ as str_eq}
use nest_microservices_tempo.Prelude.{
  ℕ, zero, suc, String, Bool, true, false, ◌&&◌, Option, none, some, if◌then◌else◌,
}
use nest_microservices_tempo.Errors.{
  Message, Exception, Result, ok, err, AppErrorCode, SystemErrorCode,
  internal_server_error_exception,
}

pub data State : Type 0 where
  in_flight completed : State

-- The response is an opaque value.
pub record IdempotencyRecord (R : Type 0) : Type 0 where
  pub state : State
  pub owner : Option String
  pub fingerprint : String
  pub response : Option R

pub data AcquireResult (R : Type 0) : Type 0 where
  acquired : AcquireResult R
  replay : (fingerprint : String) → R → AcquireResult R
  busy : (fingerprint : String) → AcquireResult R

-- The commands, with their reply: SET NX PX, GET, SET PX, DEL and PEXPIRE.
pub record Redis (R S : Type 0) : Type 0 where
  pub set_nx : String → IdempotencyRecord R → (ttl : ℕ) → S → Bool × S
  pub get : String → S → Option (IdempotencyRecord R) × S
  pub set : String → IdempotencyRecord R → (ttl : ℕ) → S → Bool × S
  pub del : String → S → ℕ × S
  pub p_expire : String → (ttl : ℕ) → S → ℕ × S

abbrev pub locked : {R : Type 0} → (owner fingerprint : String) → IdempotencyRecord R
locked owner fingerprint = record {
  state = in_flight;
  owner = some owner;
  fingerprint = fingerprint;
  response = none;
}

abbrev pub finished : {R : Type 0} → (fingerprint : String) → R → IdempotencyRecord R
finished fingerprint response = record {
  state = completed;
  owner = none;
  fingerprint = fingerprint;
  response = some response;
}

-- What a stored record tells a request that has not got the lock.
abbrev pub inspected : {R : Type 0} → IdempotencyRecord R → AcquireResult R
inspected r = elim r.state [
  | in_flight ↦ busy r.fingerprint
  | completed ↦ elim r.response [ none ↦ busy r.fingerprint | some p ↦ replay r.fingerprint p ]
]

-- `parsed.state === 'in-flight' && parsed.owner === owner`
abbrev pub owned_by : {R : Type 0} → String → IdempotencyRecord R → Bool
owned_by owner r = elim r.state [
  | in_flight ↦ elim r.owner [ none ↦ false | some o ↦ str_eq o owner ]
  | completed ↦ false
]

abbrev pub max_retries : ℕ
max_retries = 5

abbrev pub kept_changing : Exception
kept_changing =
    internal_server_error_exception (Message.text "Idempotency key kept changing; please retry.")
      (AppErrorCode.system SystemErrorCode.idempotency_key_kept_changing)

module _ {R S : Type 0} (redis : Redis R S) (other : S → S) (key : String) where
  -- What a GET after a refused SET NX leads to, given what the next attempts lead to.
  abbrev pub after_get :
      (S → Result (AcquireResult R) × S)
      → Option (IdempotencyRecord R) × S
      → Result (AcquireResult R) × S
  after_get rest (none, s) = rest (other s)
  after_get rest (some r, s) = (ok (inspected r), s)

  abbrev pub after_set_nx :
      (S → Result (AcquireResult R) × S) → Bool × S → Result (AcquireResult R) × S
  after_set_nx rest (true, s) = (ok acquired, s)
  after_set_nx rest (false, s) = after_get rest (redis.get key (other s))

  -- The loop of `acquire`, with the attempts that are left.
  abbrev pub attempts :
      ℕ → (owner fingerprint : String) (lock_ttl : ℕ) → S → Result (AcquireResult R) × S
  attempts zero owner fingerprint ttl s = (err kept_changing, s)
  attempts (suc n) owner fingerprint ttl s =
      after_set_nx (attempts n owner fingerprint ttl)
        (redis.set_nx key (locked owner fingerprint) ttl s)

  unfoldable pub acquire :
      (owner fingerprint : String) (lock_ttl : ℕ) → S → Result (AcquireResult R) × S
  acquire owner fingerprint ttl s = attempts max_retries owner fingerprint ttl s

  -- A command on the record that the operation has read, if the attempt owns it.
  abbrev pub fenced :
      String → (IdempotencyRecord R → S → Bool × S) → Option (IdempotencyRecord R) × S → Bool × S
  fenced owner command (none, s) = (false, s)
  fenced owner command (some r, s) = if owned_by owner r then command r (other s) else (false, s)

  abbrev pub did : ℕ × S → Bool × S
  did (zero, s) = (false, s)
  did (suc n, s) = (true, s)

  unfoldable pub complete : (owner : String) → R → (ttl : ℕ) → S → Bool × S
  complete owner response ttl s =
      fenced owner (λ r. redis.set key (finished r.fingerprint response) ttl) (redis.get key s)

  unfoldable pub release : (owner : String) → S → Bool × S
  release owner s = fenced owner (λ r s. did (redis.del key s)) (redis.get key s)

  unfoldable pub extend : (owner : String) (lock_ttl : ℕ) → S → Bool × S
  extend owner ttl s = fenced owner (λ r s. did (redis.p_expire key ttl s)) (redis.get key s)
