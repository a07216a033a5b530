-- ===== src/Client/Tags.antt =====
-- The tags that src/server.rs formats, as clients/python/aircd/client.py reads them.
use aircd.Base.{
  ℕ, ◌≡◌, ◌≢◌, ◌⊎◌, inl, inr, refl, ap, ◌∙◌, some, List, [], ◌∷◌, ◌++◌, map, Str, All, All-append,
  arith,
}
use aircd.Maps.{insert}
use aircd.Strings.{split_once, join}
use aircd.Strings.Pieces.{Lacks, split_once-Lacks}
use aircd.Tags.{escape_tag_value, format_tag, format_message_tags}
use aircd.Tags.Escaping.{unescape-escape, escape-IsPlain, IsPlain}
use aircd.Client.{split_at, read_tags, set_tag}
use aircd.Client.Pieces.{split_at-join}

-- A key of a tag does not hold what separates tags and their parts.
abbrev pub IsKey : Str → Type 0
IsKey = All (λ c. (c ≢ b'=') × (c ≢ b';') × (c ≢ b' '))

abbrev pub IsTag : Str × Str → Type 0
IsTag (key, value) = IsKey key

-- the dictionary that a list of tags makes
abbrev pub add_tags : List (Str × Str) → List (Str × Str) → List (Str × Str)
add_tags [] dict = dict
add_tags ((key, value) ∷ tags) dict = add_tags tags (insert key value dict)

All-Lacks : (b : ℕ) (P : ℕ → Type 0) → ((c : ℕ) → P c → c ≢ b) → (s : Str) → All P s → Lacks b s
All-Lacks b P f [] h = tt
All-Lacks b P f (c ∷ s) (p, h) = (f c p, All-Lacks b P f s h)

key-Lacks : (key : Str) → IsKey key → Lacks b'=' key
key-Lacks = All-Lacks b'=' _ (λ c h. h.0)

format_tag-Lacks :
    (b : ℕ) → (b ≡ b';') ⊎ (b ≡ b' ') → (tag : Str × Str) → IsTag tag → Lacks b (format_tag tag)
unfolding format_tag
format_tag-Lacks b w (key, value) h =
    All-append (λ c. c ≢ b) key (b'=' ∷ escape_tag_value value)
      (All-Lacks b _ (λ c k. ground arith) key h)
      (
        ground arith,
        All-Lacks b IsPlain (λ c k. ground arith) (escape_tag_value value) (escape-IsPlain value),
      )

read_tags-format :
    (tags dict : List (Str × Str))
    → All IsTag tags
    → read_tags (map format_tag tags) dict ≡ add_tags tags dict
unfolding read_tags format_tag
read_tags-format [] dict h = refl
read_tags-format ((key, value) ∷ tags) dict (k, h) =
    ap (λ o. read_tags (map format_tag tags) (set_tag (format_tag (key, value)) o dict))
      (split_once-Lacks b'=' key (escape_tag_value value) (key-Lacks key k))
    ∙ ap (λ v. read_tags (map format_tag tags) (insert key v dict)) (unescape-escape value)
    ∙ read_tags-format tags (insert key value dict) h

formatted-Lacks :
    (b : ℕ)
    → (b ≡ b';') ⊎ (b ≡ b' ')
    → (tags : List (Str × Str)) → All IsTag tags
    → All (Lacks b) (map format_tag tags)
formatted-Lacks b w [] h = tt
formatted-Lacks b w (tag ∷ tags) (k, h) = (format_tag-Lacks b w tag k, formatted-Lacks b w tags h)

join-Lacks :
    (b : ℕ) (separator : Str) (pieces : List Str)
    → Lacks b separator
    → All (Lacks b) pieces
    → Lacks b (join separator pieces)
unfolding join
join-Lacks b separator [] l h = tt
join-Lacks b separator (p ∷ []) l (k, h) = k
join-Lacks b separator (p ∷ q ∷ ps) l (k, h) =
    All-append (λ c. c ≢ b) (p ++ separator) (join separator (q ∷ ps))
      (All-append (λ c. c ≢ b) p separator k l) (join-Lacks b separator (q ∷ ps) l h)

-- The tags stand before the first space of the line, and are read as they were formatted.
pub tags_are_read :
    (tag : Str × Str) (tags : List (Str × Str)) (line : Str)
    → All IsTag (tag ∷ tags)
    → (tag_str : Str) × (format_message_tags (tag ∷ tags) ≡ b'@' ∷ tag_str)
      × (split_once (b' ' ∷ []) (tag_str ++ b' ' ∷ line) ≡ some (tag_str, line))
      × (read_tags (split_at b';' tag_str) [] ≡ add_tags (tag ∷ tags) [])
unfolding format_message_tags
tags_are_read tag tags line (k, h) = (
  join (b';' ∷ []) (map format_tag (tag ∷ tags)),
  refl,
  split_once-Lacks b' ' _ line (
      join-Lacks b' ' (b';' ∷ []) (map format_tag (tag ∷ tags)) (ground arith, tt)
        (formatted-Lacks b' ' (inr refl) (tag ∷ tags) (k, h))),
  ap (λ ps. read_tags ps [])
        (split_at-join b';' (format_tag tag) (map format_tag tags)
          (format_tag-Lacks b';' (inl refl) tag k) (formatted-Lacks b';' (inl refl) tags h))
      ∙ read_tags-format (tag ∷ tags) [] (k, h),
)
