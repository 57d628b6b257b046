-- ===== src/Idempotency/Laws.antt =====
-- What the store relies on of Redis: the commands act on one key at once.
use nest_microservices_tempo.Prelude.{ℕ, String, ◌≡◌, true, false, Option, none, some}
use nest_microservices_tempo.Idempotency.{IdempotencyRecord, Redis}

-- `entry s key` is the record stored under a key, if there is one that has not expired.
pub record IsRedis {R S : Type 0} (redis : Redis R S)
    (entry : S → String → Option (IdempotencyRecord R)) : Type 0 where
  pub get_law : (k : String) (s : S) → redis.get k s ≡ (entry s k, s)
  pub set_nx_new :
      (k : String) (r : IdempotencyRecord R) (ttl : ℕ) (s : S)
      → entry s k ≡ none
      → let (reply, s') = redis.set_nx k r ttl s in (reply ≡ true) × (entry s' k ≡ some r)
  pub set_nx_taken :
      (k : String) (r q : IdempotencyRecord R) (ttl : ℕ) (s : S)
      → entry s k ≡ some q
      → redis.set_nx k r ttl s ≡ (false, s)
  pub set_law :
      (k : String) (r : IdempotencyRecord R) (ttl : ℕ) (s : S)
      → let (reply, s') = redis.set k r ttl s in (reply ≡ true) × (entry s' k ≡ some r)
  pub del_law :
      (k : String) (q : IdempotencyRecord R) (s : S)
      → entry s k ≡ some q
      → let (count, s') = redis.del k s in (count ≡ 1) × (entry s' k ≡ none)
