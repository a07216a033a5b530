-- ===== src/Base/Text.antt =====
-- Rust's `String` and `&str` as lists of Unicode scalar values, with a decided equality.
use Prim.Native.Nat.{ℕ}
use Prim.Native.Char.{code}
use Prim.Native.String.{String}
use mathlib.Core.Bool.{Bool, true, false, ◌&&◌, ◌||◌, Bool-discrete}
use mathlib.Core.List.{List, [], ◌∷◌}
use mathlib.Core.Logic.{ite, dite, ◌↔◌, ◌≢◌}
use mathlib.Core.Path.{◌≡◌}
use native.Mathlib.Omega.{arith}
use aircd.Base.Tests.{eqb, ltb}

abbrev pub Str : Type 0
Str = List ℕ

-- The scalar values of a literal. `String` has its own `[]` and `∷`.
unfoldable pub codes : String → Str
codes String.[] = []
codes (String.◌∷◌ c s) = code c ∷ codes s

unfoldable pub same : Str → Str → Bool
same [] [] = true
same (c ∷ s) (d ∷ t) = eqb c d && same s t
same _ _ = false

pub same_iff : (s t : Str) → (same s t ≡ true) ↔ (s ≡ t)
unfolding same
same_iff [] [] = ground arith
same_iff [] (d ∷ t) = ground arith
same_iff (c ∷ s) [] = ground arith
same_iff (c ∷ s) (d ∷ t) = ground (arith, same_iff s t)

-- Shut in proofs, where a split on `s == t` yields the equation or its negation.
unfoldable pub Str-discrete : Discrete Str
unfolding same
Str-discrete s t =
    dite (Bool-discrete (same s t) true) (λ e. yes ((same_iff s t).0 e))
      (λ differ. no (λ p. differ ((same_iff s t).1 p)))

infix 50 ◌==◌
abbrev pub ◌==◌ : Str → Str → Bool
s == t = ite (Str-discrete s t) true false

pub eq_refl : (s : Str) → (s == s) ≡ true
eq_refl s = ground arith

-- Two texts that the test tells apart.
pub ne_of_test : (s t : Str) → (s == t) ≡ false → s ≢ t
ne_of_test s t h e = ground arith

-- The order of SQLite's BINARY collation on UTF-8 text, which is the order of the scalar values.
unfoldable pub text_lt : Str → Str → Bool
text_lt [] [] = false
text_lt [] (d ∷ t) = true
text_lt (c ∷ s) [] = false
text_lt (c ∷ s) (d ∷ t) = ltb c d || (eqb c d && text_lt s t)
