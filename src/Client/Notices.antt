-- ===== src/Client/Notices.antt =====
-- The notices about tasks that src/server.rs sends, as clients/python/aircd/client.py reads them.
use aircd.Base.{
  ◌≡◌, ◌≢◌, refl, Bool-cases, inl, inr, some, List, [], ◌∷◌, ◌++◌, append-nil, Str, codes, All,
  arith, Str-discrete, is_empty,
}
use aircd.Strings.{concat, is_whitespace}
use aircd.Maps.{insert}
use aircd.Tags.{format_message_tags}
use aircd.Database.{StoredMessage}
use aircd.Tasks.{Task}
use aircd.Strings.Pieces.{Lacks}
use aircd.Server.TaskCommands.{event_tags}
use aircd.Client.{Python, Client, is_space, message_of, queue_message, on_line}
use aircd.Client.Tags.{IsTag, add_tags}
use aircd.Client.Lines.{IsName, behind_tags}
use aircd.Client.Reading.{tagged_line, on_line-tagged}

notice-IsName : IsName (codes "NOTICE")
unfolding is_space is_whitespace codes
notice-IsName = (omega arith, refl, (refl, (refl, (refl, (refl, (refl, tt))))))

server-Lacks : Lacks b' ' (codes "aircd")
unfolding codes
server-Lacks = omega arith

-- a notice of the server, with tags
abbrev pub notice_line : List (Str × Str) → Str → Str → Str
notice_line tags target body =
    concat (format_message_tags tags ∷ codes " :aircd NOTICE " ∷ target ∷ codes " :" ∷ body ∷ [])

notice_line-parts :
    (tags : List (Str × Str)) (target body : Str)
    → notice_line tags target body
      ≡ format_message_tags tags ++ b' ' ∷ behind_tags (codes "aircd") (codes "NOTICE") target body
unfolding concat codes
notice_line-parts tags target body = simp append-nil

-- A notice with tags, which are all different, is queued with these tags.
pub on_line-notice_line :
    (python : Python) (client : Client) (tag : Str × Str) (tags : List (Str × Str))
    (target body : Str)
    → All IsTag (tag ∷ tags)
    → add_tags (tag ∷ tags) [] ≡ tag ∷ tags
    → IsName target
    → python.upper (codes "NOTICE") ≡ codes "NOTICE"
    → body ≢ []
    → on_line python (notice_line (tag ∷ tags) target body) client
      ≡ some (
          queue_message
            (message_of python
              (notice_line (tag ∷ tags) target body)
              (tagged_line (tag ∷ tags) (codes "aircd") (codes "NOTICE") target body)
              target
              body)
            client)
on_line-notice_line python client tag tags target [] ok distinct word upper text =
    absurd (text refl)
on_line-notice_line python client tag tags target (c ∷ body) ok distinct word upper text =
    on_line-tagged python (notice_line (tag ∷ tags) target (c ∷ body)) client tag tags
      (codes "aircd") (codes "NOTICE") target c body
      (notice_line-parts (tag ∷ tags) target (c ∷ body)) ok server-Lacks notice-IsName word
      (inr refl) upper (tag ∷ tags) distinct

module _ (m : StoredMessage) (task : Task) (action status actor : Str) where
  pub event_tags-IsTag : All IsTag (event_tags m task action status actor)
  unfolding event_tags codes
  event_tags-IsTag = elim (Bool-cases (is_empty task.title)) [
    | inl e ↦ rw e (omega arith)
    | inr e ↦ rw e (omega arith)
  ]

  pub event_tags-distinct :
      add_tags (event_tags m task action status actor) [] ≡ event_tags m task action status actor
  unfolding event_tags insert codes Str-discrete
  event_tags-distinct = elim (Bool-cases (is_empty task.title)) [
    | inl e ↦ rw e refl
    | inr e ↦ rw e refl
  ]
