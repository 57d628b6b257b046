-- ===== src/Prelude/Words.antt =====
-- Words that are the same but for the case of their letters, from A to Z.
use Prim.Native.Char.{code}
use Prim.Native.String.{String, [], ◌∷◌}
use Prim.Native.Nat.{ℕ, ◌+◌}
use mathlib.Core.Bool.{Bool, true, false, ◌&&◌}
use nest_microservices_tempo.Prelude.Tests.{◌==◌, leb, if◌then◌else◌}

abbrev lower : ℕ → ℕ
lower c = if leb 65 c && leb c 90 then c + 32 else c

abbrev pub same_word : String → String → Bool
same_word [] [] = true
same_word (c ∷ s) (d ∷ t) = (lower (code c) == lower (code d)) && same_word s t
same_word _ _ = false
