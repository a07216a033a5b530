-- ===== src/Strings/Pieces.antt =====
-- `split_once` at one character that a text lacks.
use aircd.Base.{ℕ, ◌≡◌, ◌≢◌, refl, none, some, [], ◌∷◌, ◌++◌, Str, All, arith}
use aircd.Strings.{strip_prefix, split_once}

abbrev pub Lacks : ℕ → Str → Type 0
Lacks b = All (λ c. c ≢ b)

-- The text before the first `b` lacks it.
pub split_once-Lacks :
    (b : ℕ) (s t : Str) → Lacks b s → split_once (b ∷ []) (s ++ b ∷ t) ≡ some (s, t)
unfolding split_once strip_prefix
split_once-Lacks b [] t h = ground arith
split_once-Lacks b (c ∷ s) t (p, h) = ground (arith, split_once-Lacks b s t h)

pub split_once-none_of_Lacks : (b : ℕ) (s : Str) → Lacks b s → split_once (b ∷ []) s ≡ none
unfolding split_once strip_prefix
split_once-none_of_Lacks b [] h = refl
split_once-none_of_Lacks b (c ∷ s) (p, h) = ground (arith, split_once-none_of_Lacks b s h)
