-- ===== src/Client/Reading.antt =====
-- What clients/python/aircd/client.py makes of the messages and notices that src/server.rs sends.
use mathlib.Core.Path.{ap₂}
use aircd.Base.{
  ◌⊎◌, inl, inr, ℕ, ◌≡◌, ◌≢◌, refl, ap, ◌∙◌, Bool, true, false, some, List, [], ◌∷◌, ◌++◌,
  append-nil, Str, codes, All, arith, Str-discrete, if◌then◌else◌,
}
use aircd.Strings.{concat, is_whitespace}
use aircd.Strings.Numbers.{show_i64}
use aircd.Strings.Pieces.{Lacks, split_once-none_of_Lacks}
use aircd.Maps.{lookup, insert}
use aircd.Tags.{format_message_tags, metadata_tags}
use aircd.Database.{StoredMessage}
use aircd.Server.Chat.{message_line}
use aircd.Client.{
  Python, IrcLine, Message, Client, is_space, extract_nick, message_of, queue_message,
  dispatch_line, on_parsed, on_line, parse_irc_line,
}
use aircd.Client.Tags.{IsTag, add_tags}
use aircd.Client.Lines.{IsName, behind_tags, parse_tagged}

abbrev pub privmsg_word : Str
privmsg_word = codes "PRIVMSG"

privmsg-IsName : IsName privmsg_word
unfolding is_space is_whitespace codes
privmsg-IsName = (omega arith, refl, (refl, (refl, (refl, (refl, (refl, (refl, tt)))))))

extract_nick-Lacks : (prefix : Str) → Lacks b'!' prefix → extract_nick prefix ≡ prefix
unfolding extract_nick
extract_nick-Lacks prefix h = rw (split_once-none_of_Lacks b'!' prefix h) refl

-- the tags of a message
abbrev pub metadata : Bool → StoredMessage → List (Str × Str)
metadata replay m =
    (codes "seq", show_i64 m.seq)
    ∷ (codes "msg-id", m.msg_id)
    ∷ (codes "time", show_i64 m.created_at)
    ∷ (if replay then (codes "replay", codes "1") ∷ [] else [])

-- the message as the agent gets it
abbrev pub received : Bool → Str → Str → Str → StoredMessage → Message
received replay sender channel body m = record {
  seq = some m.seq;
  channel = channel;
  sender = sender;
  content = body;
  raw = message_line replay sender channel body m;
  tags = metadata replay m;
  is_replay = replay;
}

module _ (replay : Bool) (sender channel body : Str) (m : StoredMessage) where
  message_line-parts :
      message_line replay sender channel body m
      ≡ format_message_tags (metadata replay m)
        ++ b' ' ∷ behind_tags sender privmsg_word channel body
  unfolding metadata_tags concat codes
  message_line-parts = simp append-nil

metadata-IsTag : (replay : Bool) (m : StoredMessage) → All IsTag (metadata replay m)
unfolding codes
metadata-IsTag true m = omega arith
metadata-IsTag false m = omega arith

add_tags-metadata :
    (replay : Bool) (m : StoredMessage) → add_tags (metadata replay m) [] ≡ metadata replay m
unfolding insert codes Str-discrete
add_tags-metadata true m = refl
add_tags-metadata false m = refl

-- a line in parts as it is formatted: a tag and more, a prefix, a command, a word, and a text
abbrev pub tagged_line : List (Str × Str) → Str → Str → Str → Str → IrcLine
tagged_line tags prefix command param trailing = record {
  prefix = prefix;
  command = command;
  params = param ∷ trailing ∷ [];
  tags = tags;
}

-- the commands that carry a message
abbrev pub IsMessage : Str → Type 0
IsMessage command = (command ≡ codes "PRIVMSG") ⊎ (command ≡ codes "NOTICE")

module _ (python : Python) (raw : Str) (client : Client) where
  dispatch_message :
      (tags : List (Str × Str)) (prefix command param trailing : Str)
      → IsMessage command
      → dispatch_line python raw (tagged_line tags prefix command param trailing) client
        ≡ queue_message
            (message_of python raw (tagged_line tags prefix command param trailing) param trailing)
            client
  unfolding codes Str-discrete
  dispatch_message tags prefix command param trailing (inl e) = rw e refl
  dispatch_message tags prefix command param trailing (inr e) = rw e refl

  -- a message with tags is read and queued
  pub on_line-tagged :
      (tag : Str × Str) (tags : List (Str × Str)) (prefix command param : Str) (c : ℕ)
      (trailing : Str)
      → raw
        ≡ format_message_tags (tag ∷ tags) ++ b' ' ∷ behind_tags prefix command param (c ∷ trailing)
      → All IsTag (tag ∷ tags)
      → Lacks b' ' prefix
      → IsName command
      → IsName param
      → IsMessage command
      → python.upper command ≡ command
      → (dict : List (Str × Str)) → add_tags (tag ∷ tags) [] ≡ dict
      → on_line python raw client
        ≡ some (
            queue_message
              (message_of python raw
                (tagged_line dict prefix command param (c ∷ trailing))
                param
                (c ∷ trailing))
              client)
  unfolding on_line
  on_line-tagged tag tags prefix command param c trailing e ok_tags one_word h k is_message upper
        dict d =
      ap (λ o. on_parsed python raw o client)
        (ap (parse_irc_line python) e
          ∙ parse_tagged python tag tags prefix command param c trailing ok_tags one_word h k
          ∙ ap₂ (λ u t. some (tagged_line t prefix u param (c ∷ trailing))) upper d)
      ∙ ap some (dispatch_message dict prefix command param (c ∷ trailing) is_message)

message_of-metadata :
    (python : Python) (replay : Bool) (sender channel body : Str) (m : StoredMessage)
    → python.int (show_i64 m.seq) ≡ some m.seq
    → Lacks b'!' sender
    → message_of python
        (message_line replay sender channel body m)
        (tagged_line (metadata replay m) sender privmsg_word channel body)
        channel
        body
      ≡ received replay sender channel body m
unfolding message_of lookup codes Str-discrete
message_of-metadata python true sender channel body m int no_host =
    rw (extract_nick-Lacks sender no_host, int) refl
message_of-metadata python false sender channel body m int no_host =
    rw (extract_nick-Lacks sender no_host, int) refl

on_line-message_text :
    (python : Python) (replay : Bool) (sender channel : Str) (c : ℕ) (text : Str)
    (m : StoredMessage) (client : Client)
    → python.upper privmsg_word ≡ privmsg_word
    → python.int (show_i64 m.seq) ≡ some m.seq
    → Lacks b' ' sender
    → Lacks b'!' sender
    → IsName channel
    → on_line python (message_line replay sender channel (c ∷ text) m) client
      ≡ some (queue_message (received replay sender channel (c ∷ text) m) client)
on_line-message_text python replay sender channel c text m client upper int one_word no_host word =
    let body = c ∷ text in
    on_line-tagged python (message_line replay sender channel body m) client _ _ sender privmsg_word
      channel c text (message_line-parts replay sender channel body m) (metadata-IsTag replay m)
      one_word privmsg-IsName word (inl refl) upper (metadata replay m) (add_tags-metadata replay m)
    ∙ ap (λ s. some (queue_message s client))
        (message_of-metadata python replay sender channel body m int no_host)

pub on_line-message_line :
    (python : Python) (replay : Bool) (sender channel body : Str) (m : StoredMessage)
    (client : Client)
    → python.upper (codes "PRIVMSG") ≡ codes "PRIVMSG"
    → python.int (show_i64 m.seq) ≡ some m.seq
    → Lacks b' ' sender
    → Lacks b'!' sender
    → IsName channel
    → body ≢ []
    → on_line python (message_line replay sender channel body m) client
      ≡ some (queue_message (received replay sender channel body m) client)
on_line-message_line python replay sender channel [] m client upper int one_word no_host word text =
    absurd (text refl)
on_line-message_line python replay sender channel (c ∷ body) m client upper int one_word no_host
      word text =
    on_line-message_text python replay sender channel c body m client upper int one_word no_host
      word
