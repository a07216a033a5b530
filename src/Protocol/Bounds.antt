-- ===== src/Protocol/Bounds.antt =====
-- The numbers of CHATHISTORY in src/protocol.rs, whose fields are `i64`, where a client's are unbounded.
use mathlib.Core.Path.{ap₂}
use aircd.Base.{
  ℕ, ◌≡◌, refl, ap, ◌∙◌, Bool, true, false, not, ◌&&◌, some, none, Str, codes, ℤ, pos, ltb_ℤ,
  i64_min, i64_max, if◌then◌else◌,
}
use aircd.Strings.Numbers.{show_i64}
use aircd.Strings.Numbers.RoundTrip.{parse_i64-show}
use aircd.Protocol.{unwrap_or, parse_or, parse_command, history}
use aircd.Protocol.Client.{request_history, request_line}
use aircd.Protocol.Understood.{IsChannel, history_text}

-- Whether an `i64` holds the number.
abbrev pub fits : ℤ → Bool
fits v = not (ltb_ℤ v i64_min) && not (ltb_ℤ i64_max v)

unwrap_if : (b : Bool) (v d : ℤ) → unwrap_or (if b then some v else none) d ≡ (if b then v else d)
unwrap_if true v d = refl
unwrap_if false v d = refl

parse_or-show : (v : ℤ) (d : ℕ) → parse_or (show_i64 v) d ≡ (if fits v then v else pos d)
unfolding parse_or
parse_or-show v d = ap (λ o. unwrap_or o (pos d)) (parse_i64-show v) ∙ unwrap_if (fits v) v (pos d)

-- A number of CHATHISTORY that an `i64` cannot hold counts as missing: of the request that the client
-- writes for any two numbers, the server reads each number that fits as it is, 0 in place of a position
-- that does not fit, and 100 in place of a limit that does not. The channel is a word with `#` in front.
pub history_numbers :
    (channel : Str) (after_seq limit : ℤ)
    → IsChannel channel
    → parse_command (request_line (request_history channel after_seq limit))
      ≡ history
          (some channel)
          (if fits after_seq then after_seq else pos 0)
          (if fits limit then limit else pos 100)
unfolding request_line codes
history_numbers channel after_seq limit h =
    history_text channel after_seq limit h
    ∙ ap₂ (history (some channel)) (parse_or-show after_seq 0) (parse_or-show limit 100)
