-- ===== src/Workflow/Rules.antt =====
-- Rules for what a step ensures: of its result, or of the state in which it throws.
use nest_microservices_tempo.Prelude.{Bool, true, false, if◌then◌else◌}
use nest_microservices_tempo.Errors.{Exception, Result, ok, err}
use nest_microservices_tempo.Workflow.Monad.{Action, followed, Progress}

-- `Fail` holds of the state in which the step has thrown, `Done` of its result and state.
abbrev pub Ensures : {S A : Type 0} → (S → Type 0) → (A → S → Type 0) → Result A × S → Type 0
Ensures Fail Done (ok a, s) = Done a s
Ensures Fail Done (err e, s) = Fail s

-- One step, and what follows it.
pub followed-Ensures :
    {S A B : Type 0} (Fail : S → Type 0) (Mid : A → S → Type 0) (Done : B → S → Type 0)
    (r : Result A × S) (k : A → Action S B)
    → Ensures Fail Mid r
    → ((a : A) (s : S) → Mid a s → Ensures Fail Done (k a s))
    → Ensures Fail Done (followed r k)
followed-Ensures Fail Mid Done (ok a, s) k h f = f a s h
followed-Ensures Fail Mid Done (err e, s) k h f = h

-- A weaker statement.
pub Ensures-imp :
    {S A : Type 0} (Fail Fail' : S → Type 0) (Mid Mid' : A → S → Type 0) (r : Result A × S)
    → ((s : S) → Fail s → Fail' s)
    → ((a : A) (s : S) → Mid a s → Mid' a s)
    → Ensures Fail Mid r
    → Ensures Fail' Mid' r
Ensures-imp Fail Fail' Mid Mid' (ok a, s) f g h = g a s h
Ensures-imp Fail Fail' Mid Mid' (err e, s) f g h = f s h

-- A call in a block with variables: the variables are known before and after it.
pub call_Ensures :
    {S A B : Type 0} (Fail : Progress × S → Type 0) (Mid : A → S → Type 0)
    (Done : B → Progress × S → Type 0) (v : Progress) (r : Result A × S)
    (k : A → Action (Progress × S) B)
    → Ensures (λ s. Fail (v, s)) Mid r
    → ((a : A) (s : S) → Mid a s → Ensures Fail Done (k a (v, s)))
    → Ensures Fail Done (followed (let (x, s') = r in (x, (v, s'))) k)
call_Ensures Fail Mid Done v (ok a, s) k h f = f a s h
call_Ensures Fail Mid Done v (err e, s) k h f = h

-- What holds of the state, whatever the outcome.
pub Ensures-of_state :
    {S A : Type 0} (P : S → Type 0) (r : Result A × S) → P r.1 → Ensures P (λ _. P) r
Ensures-of_state P (ok a, s) h = h
Ensures-of_state P (err e, s) h = h

-- Two statements at once.
pub Ensures-both :
    {S A : Type 0} (F G : S → Type 0) (P Q : A → S → Type 0) (r : Result A × S)
    → Ensures F P r
    → Ensures G Q r
    → Ensures (λ s. F s × G s) (λ a s. P a s × Q a s) r
Ensures-both F G P Q (ok a, s) h k = (h, k)
Ensures-both F G P Q (err e, s) h k = (h, k)

-- A test that throws.
pub unless_Ensures :
    {S B : Type 0} (Fail : S → Type 0) (Done : B → S → Type 0) (c : Bool) (e : Exception) (s : S)
    (k : Unit {0} → Action S B)
    → Fail s
    → Ensures Fail Done (k tt s)
    → Ensures Fail Done (followed (if c then ok tt else err e, s) k)
unless_Ensures Fail Done true e s k f d = d
unless_Ensures Fail Done false e s k f d = f
