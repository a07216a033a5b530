-- ===== src/Strings/Words.antt =====
-- `trim`, `split_once` and `split_whitespace` on texts made of words.
use aircd.Base.{
  ℕ, ◌≡◌, ◌≢◌, refl, sym, ap, ◌∙◌, false, Option, none, some, List, [], ◌∷◌, ◌++◌, append_assoc,
  append-nil, Str, eqb, All, arith,
}
use aircd.Strings.{
  is_whitespace, strip_prefix, split_once, onto_head, trim_start, trim_end, trim, push_word,
  first_word, split_whitespace,
}

abbrev pub IsVisible : ℕ → Type 0
IsVisible c = is_whitespace c ≡ false

-- A word has a character, no white space, and no colon in front.
abbrev pub IsWord : Str → Type 0
IsWord [] = ⊥
IsWord (c ∷ s) = (c ≢ b':') × IsVisible c × All IsVisible s

-- the words behind the first, each behind a space
abbrev pub spaced : List Str → Str
spaced [] = []
spaced (w ∷ ws) = b' ' ∷ (w ++ spaced ws)

-- a text that ends visibly
abbrev pub EndsVisibly : Str → Type 0
EndsVisibly [] = ⊥
EndsVisibly (c ∷ []) = IsVisible c
EndsVisibly (c ∷ d ∷ s) = EndsVisibly (d ∷ s)

pub EndsVisibly-append : (s t : Str) → EndsVisibly t → EndsVisibly (s ++ t)
EndsVisibly-append [] t h = h
EndsVisibly-append (c ∷ []) [] h = absurd h
EndsVisibly-append (c ∷ []) (d ∷ t) h = h
EndsVisibly-append (c ∷ d ∷ s) t h = EndsVisibly-append (d ∷ s) t h

EndsVisibly-word : (c : ℕ) (s : Str) → IsVisible c → All IsVisible s → EndsVisibly (c ∷ s)
EndsVisibly-word c [] v h = v
EndsVisibly-word c (d ∷ s) v (w, h) = EndsVisibly-word d s w h

pub IsWord-EndsVisibly : (w : Str) → IsWord w → EndsVisibly w
IsWord-EndsVisibly [] h = absurd h
IsWord-EndsVisibly (c ∷ s) (n, v, h) = EndsVisibly-word c s v h

pub EndsVisibly-words :
    (w : Str) (ws : List Str) → IsWord w → All IsWord ws → EndsVisibly (w ++ spaced ws)
EndsVisibly-words w [] h hs = rw (append-nil w) (IsWord-EndsVisibly w h)
EndsVisibly-words w (v ∷ ws) h (hv, hs) =
    EndsVisibly-append w (spaced (v ∷ ws))
      (EndsVisibly-append (b' ' ∷ []) (v ++ spaced ws) (EndsVisibly-words v ws hv hs))

trim_end-EndsVisibly : (s : Str) → EndsVisibly s → trim_end s ≡ s
unfolding trim_end
trim_end-EndsVisibly [] h = absurd h
trim_end-EndsVisibly (c ∷ []) h = ground (arith, h)
trim_end-EndsVisibly (c ∷ d ∷ s) h = rw (trim_end-EndsVisibly (d ∷ s) h) (ground arith)

-- a text with no white space at its ends is not trimmed
pub trim-visible : (c : ℕ) (s : Str) → IsVisible c → EndsVisibly (c ∷ s) → trim (c ∷ s) ≡ c ∷ s
unfolding trim trim_start
trim-visible c s v h = rw v (trim_end-EndsVisibly (c ∷ s) h)

-- `split_once` behind a piece without the separator's first character
abbrev pub onto : Str → Option (Str × Str) → Option (Str × Str)
onto w none = none
onto w (some (a, b)) = some (w ++ a, b)

abbrev pub mark : Str
mark = b' ' ∷ b':' ∷ []

not_space : (c : ℕ) → IsVisible c → eqb b' ' c ≡ false
unfolding is_whitespace
not_space c h = ground arith

split_once-skip :
    (c : ℕ) (s : Str)
    → strip_prefix mark (c ∷ s) ≡ none
    → split_once mark (c ∷ s) ≡ onto_head c (split_once mark s)
unfolding split_once
split_once-skip c s h = rw h refl

onto-head : (c : ℕ) (w : Str) (o : Option (Str × Str)) → onto_head c (onto w o) ≡ onto (c ∷ w) o
onto-head c w none = refl
onto-head c w (some (a, b)) = refl

onto_nil : (o : Option (Str × Str)) → o ≡ onto [] o
onto_nil none = refl
onto_nil (some (a, b)) = refl

onto-append : (v w : Str) (o : Option (Str × Str)) → onto v (onto w o) ≡ onto (v ++ w) o
onto-append v w none = refl
onto-append v w (some (a, b)) = ap (λ t. some (t, b)) (sym (append_assoc v w a))

visible_no_mark : (c : ℕ) (s : Str) → IsVisible c → strip_prefix mark (c ∷ s) ≡ none
unfolding strip_prefix
visible_no_mark c s v = rw (not_space c v) refl

space_no_mark : (d : ℕ) (s : Str) → d ≢ b':' → strip_prefix mark (b' ' ∷ d ∷ s) ≡ none
unfolding strip_prefix
space_no_mark d s h = ground (arith, h)

split_once-visible :
    (w rest : Str) → All IsVisible w → split_once mark (w ++ rest) ≡ onto w (split_once mark rest)
split_once-visible [] rest h = onto_nil (split_once mark rest)
split_once-visible (c ∷ w) rest (v, h) =
    split_once-skip c (w ++ rest) (visible_no_mark c (w ++ rest) v)
    ∙ ap (onto_head c) (split_once-visible w rest h)
    ∙ onto-head c w (split_once mark rest)

split_once-word :
    (w rest : Str) → IsWord w → split_once mark (w ++ rest) ≡ onto w (split_once mark rest)
split_once-word [] rest h = absurd h
split_once-word (c ∷ w) rest (n, v, h) = split_once-visible (c ∷ w) rest (v, h)

-- the words of a line hold no mark
split_once-spaced :
    (ws : List Str) (rest : Str)
    → All IsWord ws
    → split_once mark (spaced ws ++ rest) ≡ onto (spaced ws) (split_once mark rest)
split_once-spaced [] rest h = onto_nil (split_once mark rest)
split_once-spaced ([] ∷ ws) rest (hw, hs) = absurd hw
split_once-spaced ((c ∷ w) ∷ ws) rest (hw, hs) =
    split_once-skip b' ' _ (space_no_mark c _ hw.0)
    ∙ ap (λ t. onto_head b' ' (split_once mark t)) (append_assoc (c ∷ w) (spaced ws) rest)
    ∙ ap (onto_head b' ') (
        split_once-word (c ∷ w) (spaced ws ++ rest) hw
        ∙ ap (onto (c ∷ w)) (split_once-spaced ws rest hs)
        ∙ onto-append (c ∷ w) (spaced ws) (split_once mark rest))
    ∙ onto-head b' ' ((c ∷ w) ++ spaced ws) (split_once mark rest)

split_once-words :
    (w : Str) (ws : List Str) (rest : Str)
    → IsWord w
    → All IsWord ws
    → split_once mark ((w ++ spaced ws) ++ rest) ≡ onto (w ++ spaced ws) (split_once mark rest)
split_once-words w ws rest h hs =
    ap (split_once mark) (append_assoc w (spaced ws) rest)
    ∙ split_once-word w (spaced ws ++ rest) h
    ∙ ap (onto w) (split_once-spaced ws rest hs)
    ∙ onto-append w (spaced ws) (split_once mark rest)

-- A line of words is split at the first mark, which is that of the trailing text.
pub split_once-trailing :
    (w : Str) (ws : List Str) (trailing : Str)
    → IsWord w
    → All IsWord ws
    → split_once mark ((w ++ spaced ws) ++ (mark ++ trailing)) ≡ some (w ++ spaced ws, trailing)
unfolding strip_prefix split_once
split_once-trailing w ws trailing h hs =
    split_once-words w ws (mark ++ trailing) h hs
    ∙ ap (λ t. some (t, trailing)) (append-nil (w ++ spaced ws))

pub split_once-none :
    (w : Str) (ws : List Str) → IsWord w → All IsWord ws → split_once mark (w ++ spaced ws) ≡ none
split_once-none w ws h hs =
    ap (split_once mark) (sym (append-nil (w ++ spaced ws)))
    ∙ split_once-words w ws [] h hs
    ∙ (unfold split_once strip_prefix in refl)

first_word-visible :
    (w rest : Str)
    → All IsVisible w
    → first_word (w ++ rest) ≡ (w ++ (first_word rest).0, (first_word rest).1)
unfolding first_word
first_word-visible [] rest h = refl
first_word-visible (c ∷ w) rest (v, h) = rw (v, first_word-visible w rest h) refl

first_word-nil :
    (w : Str) → ◌≡◌ {A = Str × List Str} (w ++ (first_word []).0, (first_word []).1) (w, [])
unfolding first_word
first_word-nil w = rw (append-nil w) refl

first_word-space : (s : Str) → first_word (b' ' ∷ s) ≡ ([], push_word (first_word s))
unfolding first_word is_whitespace
first_word-space s = refl

first_word-word :
    (w : Str) (ws : List Str) → IsWord w → All IsWord ws → first_word (w ++ spaced ws) ≡ (w, ws)
first_word-word [] ws h hs = absurd h
first_word-word (c ∷ w) [] (n, v, h) hs =
    first_word-visible (c ∷ w) [] (v, h) ∙ first_word-nil (c ∷ w)
first_word-word (c ∷ w) ([] ∷ ws) h (hu, hs) = absurd hu
first_word-word (c ∷ w) ((d ∷ u) ∷ ws) (n, v, h) (hu, hs) =
    first_word-visible (c ∷ w) _ (v, h)
    ∙ rw
        (
          first_word-space ((d ∷ u) ++ spaced ws),
          first_word-word (d ∷ u) ws hu hs,
          append-nil (c ∷ w),
        )
        refl

-- and its words are those of the line
pub split_whitespace-words :
    (w : Str) (ws : List Str)
    → IsWord w
    → All IsWord ws
    → split_whitespace (w ++ spaced ws) ≡ w ∷ ws
unfolding split_whitespace
split_whitespace-words [] ws h hs = absurd h
split_whitespace-words (c ∷ w) ws h hs = rw (first_word-word (c ∷ w) ws h hs) refl
