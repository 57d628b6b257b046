-- ===== src/System/Kept.antt =====
-- What an execution of an activity keeps, if each of its attempts does.
use nest_microservices_tempo.Prelude.{ℕ, refl, Bool, ◌∙◌}
use nest_microservices_tempo.Errors.{Result, ok, err}
use nest_microservices_tempo.Order.{Orders}
use nest_microservices_tempo.Order.Ids.{SameIds}
use nest_microservices_tempo.Payment.{Gateway}
use nest_microservices_tempo.Payment.Stripe.{Ledger, IsStripe}
use nest_microservices_tempo.Workflow.Monad.{Action, Activities}
use nest_microservices_tempo.Workflow.Retry.{RetryPolicy, Temporal, Lossless}
use nest_microservices_tempo.Workflow.Rules.{Ensures, Ensures-of_state}
use nest_microservices_tempo.Workflow.Laws.{KeepsMoney, Keeps}
use nest_microservices_tempo.System.{Services, services}
use nest_microservices_tempo.System.Fresh.{system_view, same-Fresh}

pub state_of-Ensures :
    {S A : Type 0} (P : S → Type 0) (x : Result A × S) → Ensures P (λ _. P) x → P x.1
state_of-Ensures P (ok a, s) h = h
state_of-Ensures P (err e, s) h = h

module _ {St : Type 0} (g : Gateway St) (l : Ledger St) (stripe : IsStripe g l) (accepts : ℕ → Bool)
    (temporal : Temporal (Services St)) (lossless : Lossless temporal) (refunds : RetryPolicy) where
  open temporal use {execute}
  open lossless use {first_law, attempts_law}

  abbrev pub a : Activities (Services St)
  a = services g accepts temporal refunds

  abbrev pub KeepsAll : Services St → Services St → Type 0
  KeepsAll = Keeps a (system_view l)

  abbrev pub KeepsMoneyOf : Services St → Services St → Type 0
  KeepsMoneyOf = KeepsMoney a (system_view l)

  pub kept_money : (s : Services St) → KeepsMoneyOf s s
  kept_money s = record { sound = λ f. f; agree = λ o h. h; settled = λ o h. h }

  pub kept : (s : Services St) → KeepsAll s s
  kept s = record { stocks = refl; money = kept_money s }

  pub money_trans :
      (s s' s'' : Services St) → KeepsMoneyOf s s' → KeepsMoneyOf s' s'' → KeepsMoneyOf s s''
  money_trans s s' s'' k m = record {
    sound = λ f. m.sound (k.sound f);
    agree = λ o h. m.agree o (k.agree o h);
    settled = λ o h. m.settled o (k.settled o h);
  }

  pub kept_trans : (s s' s'' : Services St) → KeepsAll s s' → KeepsAll s' s'' → KeepsAll s s''
  kept_trans s s' s'' k m = record {
    stocks = m.stocks ∙ k.stocks;
    money = money_trans s s' s'' k.money m.money;
  }

  -- What every attempt keeps, the execution keeps.
  pub executed :
      {A : Type 0} (p : RetryPolicy) (act : Action (Services St) A) (P : Services St → Type 0)
      → ((s : Services St) → P s → P (act s).1)
      → (s : Services St) → P s
      → P (execute p act s).1
  executed p act P f s h =
      state_of-Ensures P (execute p act s)
        (attempts_law p act P (λ _. P) (λ s' h'. Ensures-of_state P (act s') (f s' h')) s h)

  pub executed_kept :
      {A : Type 0} (p : RetryPolicy) (act : Action (Services St) A)
      → ((s : Services St) → KeepsAll s (act s).1)
      → (s : Services St) → KeepsAll s (execute p act s).1
  executed_kept p act f s =
      executed p act (KeepsAll s) (λ s' h. kept_trans s s' _ h (f s')) s (kept s)

  pub orders_kept :
      (s : Services St) (t : Orders) → SameIds s.orders t → KeepsAll s (record s { orders = t })
  orders_kept s t same = record {
    stocks = refl;
    money = record {
      sound = same-Fresh l s t same;
      agree =
          λ o (fresh, there, agrees). (same-Fresh l s t same fresh, same.present o there, agrees);
      settled = λ o h. h;
    };
  }
