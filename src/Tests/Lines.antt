-- ===== src/Tests/Lines.antt =====
-- A reader of lines to run the examples with, and two requests on one stream.
use aircd.Base.{
  ◌≡◌, refl, arith, if◌then◌else◌, some, ℕ, All, List, [], ◌∷◌, ◌++◌, map, Str, codes, eqb, pos,
  ◌∙◌, ap,
}
use aircd.Strings.Pieces.{Lacks}
use aircd.Protocol.{parse_command, history}
use aircd.Protocol.Client.{
  Request, send, request_history, request_line, carriage_return, line_feed, written, meant,
}
use aircd.Protocol.Understood.{IsSendable}
use aircd.Protocol.Stream.{IsLineReader, IsOneLine, requests_are_understood}
use aircd.Protocol.Bounds.{fits, history_numbers}
use aircd.Tests.Running.{running}
use aircd.Tests.EdgeExamples.{work-IsChannel}

put_first : ℕ → List Str → List Str
put_first c [] = (c ∷ []) ∷ []
put_first c (l ∷ ls) = (c ∷ l) ∷ ls

-- a line feed ends a line
unfoldable pub pieces : Str → List Str
unfolding put_first
pieces [] = []
pieces (c ∷ s) = let rest = pieces s in if eqb c line_feed then [] ∷ rest else put_first c rest

-- a line without the carriage return at its end
unfoldable pub chop : Str → Str
chop [] = []
chop (c ∷ []) = if eqb c carriage_return then [] else c ∷ []
chop (c ∷ d ∷ s) = c ∷ chop (d ∷ s)

abbrev pub split_lines : Str → List Str
split_lines s = map chop (pieces s)

chop-return : (s : Str) → chop (s ++ carriage_return ∷ []) ≡ s
unfolding chop
chop-return [] = refl
chop-return (c ∷ []) = refl
chop-return (c ∷ d ∷ s) = ap (λ t. c ∷ t) (chop-return (d ∷ s))

pieces-line :
    (l rest : Str)
    → Lacks line_feed l
    → pieces (l ++ carriage_return ∷ line_feed ∷ rest) ≡ (l ++ carriage_return ∷ []) ∷ pieces rest
unfolding pieces put_first
pieces-line [] rest h = refl
pieces-line (c ∷ l) rest (n, h) = rw (pieces-line l rest h) (ground (arith, n))

pub split_lines-IsLineReader : IsLineReader split_lines
unfolding pieces
split_lines-IsLineReader = record {
  at_end = refl;
  next_line = λ l rest h.
      ap (map chop) (pieces-line l rest h) ∙ ap (λ t. t ∷ split_lines rest) (chop-return l);
}

-- a message and the history behind number 17
abbrev two_requests : List Request
two_requests =
    send (codes "#work") (codes "hi") ∷ request_history (codes "#work") (pos 17) (pos 50) ∷ []

two_are-IsSendable : All IsSendable two_requests
unfolding running
two_are-IsSendable = (
  ((omega arith, refl, (refl, (refl, (refl, (refl, tt))))), refl),
  ((work-IsChannel, omega arith, omega arith), tt),
)

two_are_lines : All IsOneLine two_requests
unfolding running request_line
two_are_lines = omega arith

requests_are_understood_example :
    map parse_command (split_lines (written two_requests)) ≡ map meant two_requests
requests_are_understood_example =
    requests_are_understood split_lines split_lines-IsLineReader two_requests two_are-IsSendable
      two_are_lines

-- the position is one more than an `i64` can hold
history_numbers_example :
    parse_command
      (request_line (request_history (codes "#work") (pos 9223372036854775808) (pos 50)))
    ≡ history
        (some (codes "#work"))
        (if fits (pos 9223372036854775808) then pos 9223372036854775808 else pos 0)
        (if fits (pos 50) then pos 50 else pos 100)
history_numbers_example =
    history_numbers (codes "#work") (pos 9223372036854775808) (pos 50) work-IsChannel

it_is_missing :
    parse_command
      (request_line (request_history (codes "#work") (pos 9223372036854775808) (pos 50)))
    ≡ history (some (codes "#work")) (pos 0) (pos 50)
unfolding running
it_is_missing = history_numbers (codes "#work") (pos 9223372036854775808) (pos 50) work-IsChannel
