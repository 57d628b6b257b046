-- ===== src/Idempotency/Tests.antt =====
-- A store of one key, and the theorems at it.
use nest_microservices_tempo.Prelude.{ℕ, String, ◌≡◌, refl, true, false, Option, none, some}
use nest_microservices_tempo.Errors.{ok, err}
use nest_microservices_tempo.Idempotency.{
  IdempotencyRecord, Redis, acquired, busy, replay, locked, finished, acquire, complete, release,
  extend, kept_changing,
}
use nest_microservices_tempo.Idempotency.Laws.{IsRedis}
use nest_microservices_tempo.Idempotency.Fence.{
  alone, acquire-acquire, fenced_off, complete_overwrites, acquire-complete,
}

-- A response is its status.
abbrev Cell : Type 0
Cell = Option (IdempotencyRecord ℕ)

abbrev redis : Redis ℕ Cell
redis = record {
  set_nx = λ k r ttl s. elim s [ none ↦ (true, some r) | some q ↦ (false, some q) ];
  get = λ k s. (s, s);
  set = λ k r ttl s. (true, some r);
  del = λ k s. elim s [ none ↦ (0, none) | some q ↦ (1, none) ];
  p_expire = λ k ttl s. elim s [ none ↦ (0, none) | some q ↦ (1, some q) ];
}

abbrev entry : Cell → String → Cell
entry s k = s

lawful : IsRedis redis entry
lawful = record {
  get_law = λ k s. refl;
  set_nx_new = λ k r ttl s e. rw e (refl, refl);
  set_nx_taken = λ k r q ttl s e. rw e refl;
  set_law = λ k r ttl s. (refl, refl);
  del_law = λ k q s e. rw e (refl, refl);
}

acquire-acquire_example :
    let (r, s₁) = acquire redis alone "k" "a" "f" 30 none in
    (r ≡ ok acquired) × (acquire redis alone "k" "b" "g" 30 s₁ ≡ (ok (busy "f"), s₁))
acquire-acquire_example =
    acquire-acquire redis entry lawful "k" alone "a" "b" "f" "g" 30 30 none refl

fenced_off_example :
    (complete redis alone "k" "b" 200 60 (some (locked "a" "f")) ≡ (false, some (locked "a" "f")))
    × (release redis alone "k" "b" (some (locked "a" "f")) ≡ (false, some (locked "a" "f")))
    × (extend redis alone "k" "b" 60 (some (locked "a" "f")) ≡ (false, some (locked "a" "f")))
fenced_off_example = fenced_off redis entry lawful "k" alone "b" 200 60 (some (locked "a" "f")) refl

-- The lock of `a` expires and `b` takes the key, between the two commands.
abbrev taken_over : Cell → Cell
taken_over s = some (locked "b" "f")

complete_overwrites_example :
    let (done, s') = complete redis taken_over "k" "a" 200 60 (some (locked "a" "f")) in
    (done ≡ true) × (s' ≡ some (finished "f" 200))
complete_overwrites_example =
    complete_overwrites redis entry lawful "k" taken_over "a" "f" 200 60 (some (locked "a" "f"))
      refl

unchanged :
    entry (some (finished "f" 200)) "k"
    ≡ entry (complete redis alone "k" "a" 200 60 (some (locked "a" "f"))).1 "k"
unfolding complete
unchanged = refl

acquire-complete_example :
    ((complete redis alone "k" "a" 200 60 (some (locked "a" "f"))).0 ≡ true)
    × (acquire redis alone "k" "b" "f" 30 (some (finished "f" 200))
        ≡ (ok (replay "f" 200), some (finished "f" 200)))
acquire-complete_example =
    acquire-complete redis entry lawful "k" alone "a" "b" "f" "f" 200 60 30 (some (locked "a" "f"))
      (some (finished "f" 200)) refl unchanged

-- Between any two commands the lock of `a` expires, or is taken once more.
abbrev flickers : Cell → Cell
flickers s = elim s [ none ↦ some (locked "a" "f") | some _ ↦ none ]

gives_up : (acquire redis flickers "k" "b" "g" 30 (some (locked "a" "f"))).0 ≡ err kept_changing
unfolding acquire
gives_up = refl
