-- ===== src/Workflow/Retry.antt =====
-- How the proxies of the workflows run an activity: the retry policies, and Temporal,
-- which is a parameter.
use nest_microservices_tempo.Prelude.{ℕ, ◌≡◌, Option, none, some}
use nest_microservices_tempo.Errors.{ok}
use nest_microservices_tempo.Workflow.Monad.{Action}
use nest_microservices_tempo.Workflow.Rules.{Ensures}

-- Times in seconds; `none` is Temporal's default, which is no limit on the attempts.
pub record RetryPolicy : Type 0 where
  pub start_to_close : ℕ
  pub schedule_to_close : Option ℕ
  pub maximum_attempts : Option ℕ
  pub initial_interval : ℕ
  pub backoff_coefficient : ℕ
  pub maximum_interval : Option ℕ

abbrev pub short_policy : RetryPolicy
short_policy = record {
  start_to_close = 30;
  schedule_to_close = none;
  maximum_attempts = some 3;
  initial_interval = 1;
  backoff_coefficient = 2;
  maximum_interval = none;
}

abbrev pub refund_policy : RetryPolicy
refund_policy = record {
  start_to_close = 30;
  schedule_to_close = some 86400;
  maximum_attempts = none;
  initial_interval = 5;
  backoff_coefficient = 2;
  maximum_interval = some 120;
}

-- Temporal: the execution of an activity under a policy.
pub record Temporal (S : Type 0) : Type 1 where
  pub execute : {A : Type 0} → RetryPolicy → Action S A → Action S A

-- A run of Temporal in which no answer of an attempt is lost and no other workflow runs: an execution is
-- one or more attempts, each from the state that the one before it has left; the first that succeeds
-- ends it, and its result is that of the last. Temporal itself does not promise that.
pub record Lossless {S : Type 0} (temporal : Temporal S) : Type 1 where
  pub first_law :
      {A : Type 0} (p : RetryPolicy) (act : Action S A) (x : A) (s s' : S)
      → act s ≡ (ok x, s')
      → temporal.execute p act s ≡ (ok x, s')
  pub attempts_law :
      {A : Type 0} (p : RetryPolicy) (act : Action S A) (Between : S → Type 0)
      (Done : A → S → Type 0)
      → ((s : S) → Between s → Ensures Between Done (act s))
      → (s : S) → Between s
      → Ensures Between Done (temporal.execute p act s)
