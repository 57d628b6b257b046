-- ===== src/Workers/Tests.antt =====
-- A Temporal that gives every task to the first worker that polls for it.
use nest_microservices_tempo.Prelude.{
  ◌≡◌, refl, none, some, some-injective, subst, List, [], ◌∷◌, All, Option,
}
use nest_microservices_tempo.Workers.{Worker, starts}
use nest_microservices_tempo.Workers.Served.{Dispatch, IsServed, starts-IsServed}

abbrev first : List Worker → Option Worker
first [] = none
first (w ∷ l) = some w

first_All :
    (l : List Worker) (P : Worker → Type 0) → All P l → (w : Worker) → first l ≡ some w → P w
first_All [] P h w e = cc
first_All (u ∷ l) P h w e = subst P (some-injective u w e) h.0

abbrev in_turn : Dispatch
in_turn = record { pick = first; picks = first_All; some_law = λ w l. (w, refl) }

starts-IsServed_example : All (IsServed in_turn) starts
starts-IsServed_example = starts-IsServed in_turn
