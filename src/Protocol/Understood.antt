-- ===== src/Protocol/Understood.antt =====
-- The server of src/protocol.rs reads what the Python client writes.
use mathlib.Core.Path.{ap₂}
use aircd.Strings.Numbers.AsWord.{show_i64-IsWord}
use aircd.Base.{
  ℕ, ◌≤◌, ◌≡◌, refl, sym, ap, ◌∙◌, true, none, some, [], ◌∷◌, ◌++◌, append_assoc, append-nil, Str,
  codes, All, arith, Str-discrete, ℤ, InI64,
}
use aircd.Strings.{is_whitespace, starts_with, to_ascii_uppercase, eq_ignore_ascii_case}
use aircd.Strings.Numbers.{show_i64}
use aircd.Strings.Numbers.RoundTrip.{parse_i64-show_i64}
use aircd.Strings.Words.{IsVisible, IsWord, EndsVisibly, mark}
use aircd.Protocol.{parse_parts, dispatch, parse_chathistory, parse_or, parse_command, history}
use aircd.Protocol.Lines.{IsVerb, parse_with_trailing, parse_words}
use aircd.Protocol.Client.{
  Request, join, leave, send, request_history, create_task, claim_task, done_task, release_task,
  list_tasks, request_line, meant,
}

IsUpper : ℕ → Type 0
IsUpper c = (65 ≤ c) × (c ≤ 90)

upper-IsVisible : (c : ℕ) → IsUpper c → IsVisible c
unfolding is_whitespace IsUpper
upper-IsVisible c h = ground arith

IsUpper-IsVisible : (s : Str) → All IsUpper s → All IsVisible s
IsUpper-IsVisible [] h = tt
IsUpper-IsVisible (c ∷ s) (u, h) = (upper-IsVisible c u, IsUpper-IsVisible s h)

IsUpperWord : Str → Type 0
IsUpperWord [] = ⊥
IsUpperWord (c ∷ s) = IsUpper c × All IsUpper s

upper-IsVerb : (s : Str) → IsUpperWord s → IsVerb s
unfolding IsUpper IsUpperWord
upper-IsVerb [] h = absurd h
upper-IsVerb (c ∷ s) (u, h) =
    (omega arith, (omega arith, upper-IsVisible c u, IsUpper-IsVisible s h))

upper-IsWord : (s : Str) → IsUpperWord s → IsWord s
unfolding IsUpperWord
upper-IsWord [] h = absurd h
upper-IsWord (c ∷ s) h = (upper-IsVerb (c ∷ s) h).1

-- A channel's name as the server has it, a word with `#` in front.
abbrev pub IsChannel : Str → Type 0
IsChannel channel = IsWord channel × (starts_with (b'#' ∷ []) channel ≡ true)

-- What the client can ask for in one line: names and ids are words, texts do not end in white space, and
-- numbers are in the range of `i64`.
abbrev pub IsSendable : Request → Type 0
IsSendable (join channel) = IsWord channel
IsSendable (leave channel) = IsWord channel
IsSendable (send target text) = IsWord target × EndsVisibly text
IsSendable (request_history channel after_seq limit) =
    IsChannel channel × InI64 after_seq × InI64 limit
IsSendable (create_task channel title) = IsWord channel × EndsVisibly title
IsSendable (claim_task task_id) = IsWord task_id
IsSendable (done_task task_id) = IsWord task_id
IsSendable (release_task task_id) = IsWord task_id
IsSendable (list_tasks channel) = IsWord channel

module _ (verb : Str) (v : IsVerb verb) where
  one_word :
      (w : Str) → IsWord w → parse_command (verb ++ (b' ' ∷ w)) ≡ parse_parts (verb ∷ w ∷ []) none
  one_word w h =
      ap (λ t. parse_command (verb ++ (b' ' ∷ t))) (sym (append-nil w))
      ∙ parse_words verb (w ∷ []) v (h, tt)

  two_words :
      (u w : Str)
      → IsWord u
      → IsWord w
      → parse_command (verb ++ (b' ' ∷ (u ++ (b' ' ∷ w)))) ≡ parse_parts (verb ∷ u ∷ w ∷ []) none
  two_words u w g h =
      ap (λ t. parse_command (verb ++ (b' ' ∷ (u ++ (b' ' ∷ t))))) (sym (append-nil w))
      ∙ parse_words verb (u ∷ w ∷ []) v (g, (h, tt))

  word_and_text :
      (w text : Str)
      → IsWord w
      → EndsVisibly text
      → parse_command (verb ++ (b' ' ∷ ((w ++ mark) ++ text)))
        ≡ parse_parts (verb ∷ w ∷ []) (some text)
  word_and_text w text h e =
      ap parse_command (simp (append_assoc, append-nil))
      ∙ parse_with_trailing verb (w ∷ []) text v (h, tt) e

  words_and_text :
      (u w text : Str)
      → IsWord u
      → IsWord w
      → EndsVisibly text
      → parse_command (verb ++ (b' ' ∷ (u ++ (b' ' ∷ ((w ++ mark) ++ text)))))
        ≡ parse_parts (verb ∷ u ∷ w ∷ []) (some text)
  words_and_text u w text g h e =
      ap parse_command (simp (append_assoc, append-nil))
      ∙ parse_with_trailing verb (u ∷ w ∷ []) text v (g, (h, tt)) e

history_parts :
    (channel s t : Str)
    → starts_with (b'#' ∷ []) channel ≡ true
    → parse_parts (codes "CHATHISTORY" ∷ codes "AFTER" ∷ channel ∷ s ∷ t ∷ []) none
      ≡ history (some channel) (parse_or s 0) (parse_or t 100)
unfolding parse_parts dispatch parse_chathistory to_ascii_uppercase eq_ignore_ascii_case
    Str-discrete codes
history_parts channel s t h = rw h refl

read_back : (v : ℤ) (d : ℕ) → InI64 v → parse_or (show_i64 v) d ≡ v
unfolding parse_or
read_back v d h = rw (parse_i64-show_i64 v h) refl

-- the numbers are read as they stand in the line
pub history_text :
    (channel : Str) (m n : ℤ)
    → IsChannel channel
    → parse_command (
        codes "CHATHISTORY"
        ++ (b' '
            ∷ (codes "AFTER"
                ++ (b' ' ∷ ((((channel ++ b' ' ∷ []) ++ show_i64 m) ++ b' ' ∷ []) ++ show_i64 n)))))
      ≡ history (some channel) (parse_or (show_i64 m) 0) (parse_or (show_i64 n) 100)
unfolding IsUpper IsUpperWord codes
history_text channel m n (h, hash) =
    ap parse_command (simp (append_assoc, append-nil))
    ∙ parse_words (codes "CHATHISTORY") (codes "AFTER" ∷ channel ∷ show_i64 m ∷ show_i64 n ∷ [])
        (upper-IsVerb (codes "CHATHISTORY") (omega arith))
        (
          upper-IsWord (codes "AFTER") (omega arith),
          (h, (show_i64-IsWord m, (show_i64-IsWord n, tt))),
        )
    ∙ history_parts channel (show_i64 m) (show_i64 n) hash

history_line :
    (channel : Str) (m n : ℤ)
    → IsChannel channel
    → InI64 m
    → InI64 n
    → parse_command (request_line (request_history channel m n)) ≡ history (some channel) m n
unfolding request_line codes
history_line channel m n h hm hn =
    history_text channel m n h
    ∙ ap₂ (history (some channel)) (read_back m 0 hm) (read_back n 100 hn)

-- The text of a request, as one line, is parsed as the command that the request means, if names and ids are words, texts do not end in white space, and
-- numbers are in the range of `i64`.
pub parse_command-request_line :
    (r : Request) → IsSendable r → parse_command (request_line r) ≡ meant r
unfolding request_line codes IsUpper IsUpperWord
parse_command-request_line (join channel) h =
    one_word (codes "JOIN") (upper-IsVerb (codes "JOIN") (omega arith)) channel h
    ∙ (unfold parse_parts to_ascii_uppercase Str-discrete in refl)
parse_command-request_line (leave channel) h =
    one_word (codes "PART") (upper-IsVerb (codes "PART") (omega arith)) channel h
    ∙ (unfold parse_parts to_ascii_uppercase Str-discrete in refl)
parse_command-request_line (send target text) (h, e) =
    word_and_text (codes "PRIVMSG") (upper-IsVerb (codes "PRIVMSG") (omega arith)) target text h e
    ∙ (unfold parse_parts to_ascii_uppercase Str-discrete in refl)
parse_command-request_line (request_history channel after_seq limit) (h, m, n) =
    history_line channel after_seq limit h m n
parse_command-request_line (create_task channel title) (h, e) =
    words_and_text (codes "TASK") (upper-IsVerb (codes "TASK") (omega arith)) (codes "CREATE")
      channel title (upper-IsWord (codes "CREATE") (omega arith)) h e
    ∙ (unfold parse_parts to_ascii_uppercase Str-discrete in refl)
parse_command-request_line (claim_task task_id) h =
    two_words (codes "TASK") (upper-IsVerb (codes "TASK") (omega arith)) (codes "CLAIM") task_id
      (upper-IsWord (codes "CLAIM") (omega arith)) h
    ∙ (unfold parse_parts to_ascii_uppercase Str-discrete in refl)
parse_command-request_line (done_task task_id) h =
    two_words (codes "TASK") (upper-IsVerb (codes "TASK") (omega arith)) (codes "DONE") task_id
      (upper-IsWord (codes "DONE") (omega arith)) h
    ∙ (unfold parse_parts to_ascii_uppercase Str-discrete in refl)
parse_command-request_line (release_task task_id) h =
    two_words (codes "TASK") (upper-IsVerb (codes "TASK") (omega arith)) (codes "RELEASE") task_id
      (upper-IsWord (codes "RELEASE") (omega arith)) h
    ∙ (unfold parse_parts to_ascii_uppercase Str-discrete in refl)
parse_command-request_line (list_tasks channel) h =
    two_words (codes "TASK") (upper-IsVerb (codes "TASK") (omega arith)) (codes "LIST") channel
      (upper-IsWord (codes "LIST") (omega arith)) h
    ∙ (unfold parse_parts to_ascii_uppercase Str-discrete in refl)
