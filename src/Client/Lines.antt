-- ===== src/Client/Lines.antt =====
-- The tagged lines of src/server.rs, PRIVMSG and NOTICE, as clients/python/aircd/client.py parses them.
use aircd.Base.{
  ℕ, ◌≡◌, ◌≢◌, ap, ◌∙◌, some, List, [], ◌∷◌, ◌++◌, append-nil, Str, codes, All, arith, Option,
}
use aircd.Strings.{starts_with, split_once}
use aircd.Strings.Pieces.{Lacks, split_once-Lacks}
use aircd.Strings.Words.{IsVisible, IsWord, spaced, mark, split_once-trailing}
use aircd.Tags.{format_message_tags}
use aircd.Client.{
  Python, is_space, split, read_tagged, read_prefixed, line_of, head_and_trailing, read_command,
  read_prefix, parse_irc_line,
}
use aircd.Client.Pieces.{IsShown, split-two}
use aircd.Client.Tags.{IsTag, add_tags, tags_are_read}

-- A word for both ends: with no white space of either language, and no colon in front.
abbrev pub IsName : Str → Type 0
IsName [] = ⊥
IsName (c ∷ s) = (c ≢ b':') × IsShown c × All IsShown s

shown-IsVisible : (c : ℕ) → IsShown c → IsVisible c
unfolding is_space
shown-IsVisible c h = ground arith

All-IsVisible : (s : Str) → All IsShown s → All IsVisible s
All-IsVisible [] h = tt
All-IsVisible (c ∷ s) (d, h) = (shown-IsVisible c d, All-IsVisible s h)

pub IsName-IsWord : (s : Str) → IsName s → IsWord s
IsName-IsWord [] h = absurd h
IsName-IsWord (c ∷ s) (n, d, h) = (n, shown-IsVisible c d, All-IsVisible s h)

IsName-ne-nil : (s : Str) → IsName s → s ≢ []
IsName-ne-nil [] h e = h
IsName-ne-nil (c ∷ s) h e = cc

IsName-IsShown : (s : Str) → IsName s → All IsShown s
IsName-IsShown [] h = absurd h
IsName-IsShown (c ∷ s) (n, d, h) = (d, h)

-- what follows the tags: a prefix, a command, a word and a trailing text
abbrev pub behind_tags : Str → Str → Str → Str → Str
behind_tags prefix command param trailing =
    b':' ∷ (prefix ++ b' ' ∷ ((command ++ spaced (param ∷ [])) ++ (mark ++ trailing)))

module _ (python : Python) (prefix : Str) (tags : List (Str × Str)) where
  command_is_read :
      (command param : Str) (c : ℕ) (trailing : Str)
      → IsName command
      → IsName param
      → read_command python prefix tags ((command ++ spaced (param ∷ [])) ++ (mark ++ c ∷ trailing))
        ≡ record {
          prefix = prefix;
          command = python.upper command;
          params = param ∷ (c ∷ trailing) ∷ [];
          tags = tags;
        }
  unfolding read_command codes
  command_is_read command param c trailing h k =
      let line = (command ++ spaced (param ∷ [])) ++ (mark ++ c ∷ trailing) in
      ap
        (λ (o : Option (Str × Str)).
          let (head, rest) = head_and_trailing line o in
          line_of python prefix tags rest (split head))
        (split_once-trailing command (param ∷ []) (c ∷ trailing) (IsName-IsWord command h)
          (IsName-IsWord param k, tt))
      ∙ ap (λ t. line_of python prefix tags (c ∷ trailing) (split (command ++ b' ' ∷ t)))
          (append-nil param)
      ∙ ap (line_of python prefix tags (c ∷ trailing)) (
          split-two command param (IsName-ne-nil command h) (IsName-ne-nil param k)
            (IsName-IsShown command h) (IsName-IsShown param k))

-- A tagged line is read in its parts, the tags as a dictionary, whatever the values of the tags hold.
pub parse_tagged :
    (python : Python) (tag : Str × Str) (tags : List (Str × Str)) (prefix command param : Str)
    (c : ℕ) (trailing : Str)
    → All IsTag (tag ∷ tags)
    → Lacks b' ' prefix
    → IsName command
    → IsName param
    → parse_irc_line python
        (format_message_tags (tag ∷ tags) ++ b' ' ∷ behind_tags prefix command param (c ∷ trailing))
      ≡ some (record {
        prefix = prefix;
        command = python.upper command;
        params = param ∷ (c ∷ trailing) ∷ [];
        tags = add_tags (tag ∷ tags) [];
      })
unfolding parse_irc_line read_prefix split_once starts_with
parse_tagged python tag tags prefix command param c trailing ok_tags one_word h k =
    let line = behind_tags prefix command param (c ∷ trailing) in
    let rest = (command ++ spaced (param ∷ [])) ++ (mark ++ c ∷ trailing) in
    let (tag_str, formatted, parted, read) = tags_are_read tag tags line ok_tags in
    let dict = add_tags (tag ∷ tags) [] in
    ap (λ t. parse_irc_line python (t ++ b' ' ∷ line)) formatted
    ∙ ap (read_tagged python) parted
    ∙ ap (λ d. read_prefix python d line) read
    ∙ ap (read_prefixed python dict) (split_once-Lacks b' ' prefix rest one_word)
    ∙ ap some (command_is_read python prefix dict command param c trailing h k)
