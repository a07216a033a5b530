-- ===== src/Daemon/MsgIds.antt =====
-- The id by which clients/python/aircd/daemon.py knows a message of src/server.rs, delivered or replayed.
use aircd.Base.{
  arith, ℕ, ◌≡◌, ◌≢◌, refl, ap, ◌∙◌, Bool, false, some, [], ◌∷◌, ◌++◌, map, append_assoc,
  append-nil, Str, codes, All, All-append, eqb, if◌then◌else◌,
}
use aircd.Strings.{is_whitespace, strip_prefix, join, concat}
use aircd.Strings.Numbers.{show_i64}
use aircd.Strings.Numbers.AsWord.{IsNumeric, show_i64-IsNumeric}
use aircd.Database.{StoredMessage}
use aircd.Tags.{escape_char, escape_tag_value, format_tag, format_message_tags, metadata_tags}
use aircd.Server.Chat.{message_line}
use aircd.Client.{is_space}
use aircd.Daemon.{value_run, search_tag}

-- A character that is neither escaped nor ends a value.
abbrev pub IsIdChar : ℕ → Type 0
IsIdChar c = (is_space c ≡ false) × (c ≢ b';') × (c ≢ b'\\')

-- The id of a message, as the server makes them.
abbrev pub IsMsgId : Str → Type 0
IsMsgId [] = ⊥
IsMsgId (c ∷ s) = IsIdChar c × All IsIdChar s

eqb-ne : (a b : ℕ) → a ≢ b → eqb a b ≡ false
eqb-ne a b h = ground (arith, h)

escape_char-id : (c : ℕ) → IsIdChar c → escape_char c ≡ c ∷ []
unfolding escape_char is_space is_whitespace
escape_char-id c h = ground (arith, h)

escape-id : (s : Str) → All IsIdChar s → escape_tag_value s ≡ s
unfolding escape_tag_value
escape-id [] h = refl
escape-id (c ∷ s) (k, h) = rw (escape_char-id c k, escape-id s h) refl

value_run-id : (s rest : Str) → All IsIdChar s → value_run (s ++ b';' ∷ rest) ≡ s
unfolding value_run
value_run-id [] rest h = ground arith
value_run-id (c ∷ s) rest ((shown, inner, whole), h) =
    ground (arith, value_run-id s rest h, shown, inner)

abbrev key : Str
key = codes "msg-id="

search_tag-skip :
    (s rest : Str) → All (λ c. c ≢ b'm') s → search_tag key (s ++ rest) ≡ search_tag key rest
unfolding search_tag strip_prefix codes
search_tag-skip [] rest h = refl
search_tag-skip (c ∷ s) rest (n, h) = ground (arith, n, search_tag-skip s rest h)

search_tag-found :
    (c : ℕ) (s rest : Str)
    → All IsIdChar (c ∷ s)
    → search_tag key (key ++ c ∷ s ++ b';' ∷ rest) ≡ some (c ∷ s)
unfolding search_tag strip_prefix codes
search_tag-found c s rest ((shown, inner, whole), h) =
    rw (shown, eqb-ne c b';' inner, value_run-id s rest h) refl

-- what stands in front of the id's tag has no `m`
in_front : StoredMessage → Str
in_front m = codes "@seq=" ++ (escape_tag_value (show_i64 m.seq) ++ b';' ∷ [])

escape_char-no_m : (c : ℕ) → IsNumeric c → All (λ d. d ≢ b'm') (escape_char c)
unfolding escape_char
escape_char-no_m c h = ground (arith, h)

escape-no_m : (s : Str) → All IsNumeric s → All (λ c. c ≢ b'm') (escape_tag_value s)
unfolding escape_tag_value
escape-no_m [] h = tt
escape-no_m (c ∷ s) (d, h) =
    All-append (λ c. c ≢ b'm') (escape_char c) (escape_tag_value s) (escape_char-no_m c d)
      (escape-no_m s h)

in_front-no_m : (m : StoredMessage) → All (λ c. c ≢ b'm') (in_front m)
unfolding in_front codes
in_front-no_m m =
    All-append (λ c. c ≢ b'm') (codes "@seq=") (escape_tag_value (show_i64 m.seq) ++ b';' ∷ [])
      (omega arith)
      (All-append (λ c. c ≢ b'm') (escape_tag_value (show_i64 m.seq)) (b';' ∷ [])
        (escape-no_m (show_i64 m.seq) (show_i64-IsNumeric m.seq)) (omega arith))

message_line-id :
    (replay : Bool) (sender channel body : Str) (m : StoredMessage)
    → (rest : Str) × (message_line replay sender channel body m
        ≡ in_front m ++ (key ++ (escape_tag_value m.msg_id ++ b';' ∷ rest)))
unfolding in_front metadata_tags format_message_tags format_tag join concat codes
message_line-id replay sender channel body m = (
  join (b';' ∷ []) (
        map format_tag (
          (codes "time", show_i64 m.created_at)
          ∷ (if replay then (codes "replay", codes "1") ∷ [] else [])))
      ++ concat (codes " :" ∷ sender ∷ codes " PRIVMSG " ∷ channel ∷ codes " :" ∷ body ∷ []),
  simp (append_assoc, append-nil),
)

found_id :
    (msg_id rest : Str)
    → IsMsgId msg_id
    → search_tag key (key ++ (msg_id ++ b';' ∷ rest)) ≡ some msg_id
unfolding codes
found_id [] rest h = absurd h
found_id (c ∷ s) rest h = search_tag-found c s rest h

IsMsgId-All : (msg_id : Str) → IsMsgId msg_id → All IsIdChar msg_id
IsMsgId-All [] h = absurd h
IsMsgId-All (c ∷ s) h = h

-- The daemon finds in the line of a message the id that the server has given it.
pub search_tag-message_line :
    (replay : Bool) (sender channel body : Str) (m : StoredMessage)
    → IsMsgId m.msg_id
    → search_tag (codes "msg-id=") (message_line replay sender channel body m) ≡ some m.msg_id
search_tag-message_line replay sender channel body m h =
    let (rest, e) = message_line-id replay sender channel body m in
    ap (search_tag key) e
    ∙ search_tag-skip (in_front m) _ (in_front-no_m m)
    ∙ ap (λ v. search_tag key (key ++ (v ++ b';' ∷ rest)))
        (escape-id m.msg_id (IsMsgId-All m.msg_id h))
    ∙ found_id m.msg_id rest h
