-- ===== src/Protocol/Lines.antt =====
-- `parse_command` of src/protocol.rs on lines made of words and a trailing text.
use aircd.Base.{
  ℕ, ◌≡◌, ◌≢◌, refl, sym, ap, ◌∙◌, Option, none, some, List, [], ◌∷◌, ◌++◌, append-nil, Str, codes,
  All, arith,
}
use aircd.Strings.{strip_prefix, starts_with, split_once, trim, split_whitespace}
use aircd.Strings.Words.{
  IsWord, spaced, EndsVisibly, EndsVisibly-append, EndsVisibly-words, trim-visible, mark,
  split_once-trailing, split_once-none, split_whitespace-words,
}
use aircd.Protocol.{
  strip_tags_and_prefix, split_trailing, head_and_trailing, parse_parts, parse_command,
}

-- The first word of a command: no tags and no prefix.
abbrev pub IsVerb : Str → Type 0
IsVerb [] = ⊥
IsVerb (c ∷ s) = (c ≢ b'@') × IsWord (c ∷ s)

no_prefix : (c : ℕ) (s : Str) → c ≢ b'@' → c ≢ b':' → strip_tags_and_prefix (c ∷ s) ≡ c ∷ s
unfolding strip_tags_and_prefix starts_with strip_prefix codes
no_prefix c s h k = ground (arith, h, k)

after_trim :
    (verb : Str) (ws : List Str) (tail : Str)
    → IsVerb verb
    → EndsVisibly ((verb ++ spaced ws) ++ tail)
    → strip_tags_and_prefix (trim ((verb ++ spaced ws) ++ tail)) ≡ (verb ++ spaced ws) ++ tail
after_trim [] ws tail v e = absurd v
after_trim (c ∷ s) ws tail (at, (n, v, h)) e =
    ap strip_tags_and_prefix (trim-visible c ((s ++ spaced ws) ++ tail) v e)
    ∙ no_prefix c ((s ++ spaced ws) ++ tail) at n

IsVerb-IsWord : (verb : Str) → IsVerb verb → IsWord verb
IsVerb-IsWord [] h = absurd h
IsVerb-IsWord (c ∷ s) h = h.1

marks : codes " :" ≡ mark
unfolding codes
marks = refl

parse_whole :
    (line head : Str) (trailing : Option Str)
    → split_trailing (strip_tags_and_prefix (trim line)) ≡ (head, trailing)
    → parse_command line ≡ parse_parts (split_whitespace head) trailing
unfolding parse_command
parse_whole line head trailing e = rw e refl

-- A line of words and a trailing text, which does not end in white space, is parsed as the command of
-- these words with that text, whatever the text holds.
pub parse_with_trailing :
    (verb : Str) (ws : List Str) (trailing : Str)
    → IsVerb verb
    → All IsWord ws
    → EndsVisibly trailing
    → parse_command ((verb ++ spaced ws) ++ (mark ++ trailing))
      ≡ parse_parts (verb ∷ ws) (some trailing)
unfolding split_trailing
parse_with_trailing verb ws trailing v hs e =
    let word = IsVerb-IsWord verb v in
    let line = (verb ++ spaced ws) ++ (mark ++ trailing) in
    let visible =
      EndsVisibly-append (verb ++ spaced ws) (mark ++ trailing)
        (EndsVisibly-append mark trailing e) in
    parse_whole line (verb ++ spaced ws) (some trailing) (
      ap split_trailing (after_trim verb ws (mark ++ trailing) v visible)
      ∙ ap (λ m. head_and_trailing line (split_once m line)) marks
      ∙ ap (head_and_trailing line) (split_once-trailing verb ws trailing word hs))
    ∙ ap (λ parts. parse_parts parts (some trailing)) (split_whitespace-words verb ws word hs)

-- A line of words alone is parsed as the command of these words.
pub parse_words :
    (verb : Str) (ws : List Str)
    → IsVerb verb
    → All IsWord ws
    → parse_command (verb ++ spaced ws) ≡ parse_parts (verb ∷ ws) none
unfolding split_trailing
parse_words verb ws v hs =
    let word = IsVerb-IsWord verb v in
    let line = verb ++ spaced ws in
    parse_whole line line none (
      ap (λ l. split_trailing (strip_tags_and_prefix (trim l))) (sym (append-nil line))
      ∙ ap split_trailing
          (after_trim verb ws [] v (rw (append-nil line) (EndsVisibly-words verb ws word hs)))
      ∙ ap split_trailing (append-nil line)
      ∙ ap (λ m. head_and_trailing line (split_once m line)) marks
      ∙ ap (head_and_trailing line) (split_once-none verb ws word hs))
    ∙ ap (λ parts. parse_parts parts none) (split_whitespace-words verb ws word hs)
