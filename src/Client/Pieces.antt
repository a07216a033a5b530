-- ===== src/Client/Pieces.antt =====
-- `str.split` of clients/python/aircd/client.py, with and without a separator.
use aircd.Base.{
  ℕ, ◌≡◌, ◌≢◌, refl, ap, ◌∙◌, false, List, [], ◌∷◌, ◌++◌, append-nil, Str, All, arith, append_assoc,
}
use aircd.Strings.{join}
use aircd.Strings.Pieces.{Lacks}
use aircd.Client.{is_space, first_piece, push_piece, split, split_at}

split_at-Lacks : (b : ℕ) (s : Str) → Lacks b s → split_at b s ≡ s ∷ []
unfolding split_at
split_at-Lacks b [] h = refl
split_at-Lacks b (c ∷ s) (p, h) = ground (arith, split_at-Lacks b s h)

split_at-piece : (b : ℕ) (s t : Str) → Lacks b s → split_at b (s ++ b ∷ t) ≡ s ∷ split_at b t
unfolding split_at
split_at-piece b [] t h = ground arith
split_at-piece b (c ∷ s) t (p, h) = ground (arith, split_at-piece b s t h)

-- Pieces that lack the separator are joined by it and split again.
pub split_at-join :
    (b : ℕ) (piece : Str) (pieces : List Str)
    → Lacks b piece
    → All (Lacks b) pieces
    → split_at b (join (b ∷ []) (piece ∷ pieces)) ≡ piece ∷ pieces
unfolding join
split_at-join b piece [] h hs = split_at-Lacks b piece h
split_at-join b piece (next ∷ pieces) h (k, hs) =
    ap (split_at b) (append_assoc piece (b ∷ []) (join (b ∷ []) (next ∷ pieces)))
    ∙ split_at-piece b piece (join (b ∷ []) (next ∷ pieces)) h
    ∙ ap (λ ps. piece ∷ ps) (split_at-join b next pieces k hs)

-- A character that `str.split()` keeps.
abbrev pub IsShown : ℕ → Type 0
IsShown c = is_space c ≡ false

first_piece-IsShown :
    (w rest : Str)
    → All IsShown w
    → first_piece (w ++ rest) ≡ (w ++ (first_piece rest).0, (first_piece rest).1)
unfolding first_piece
first_piece-IsShown [] rest h = refl
first_piece-IsShown (c ∷ w) rest (v, h) = rw (v, first_piece-IsShown w rest h) refl

first_piece_whole : (w : Str) → All IsShown w → first_piece w ≡ (w, [])
unfolding first_piece
first_piece_whole [] h = refl
first_piece_whole (c ∷ w) (v, h) = rw (v, first_piece_whole w h) refl

first_piece-space : (s : Str) → first_piece (b' ' ∷ s) ≡ ([], push_piece (first_piece s))
unfolding first_piece is_space
first_piece-space s = refl

first_piece-two :
    (v : Str) (d : ℕ) (w : Str)
    → All IsShown v
    → All IsShown (d ∷ w)
    → first_piece (v ++ b' ' ∷ d ∷ w) ≡ (v, (d ∷ w) ∷ [])
first_piece-two v d w h j =
    first_piece-IsShown v (b' ' ∷ d ∷ w) h
    ∙ ap (λ (q : Str × List Str). (v ++ q.0, q.1))
        (first_piece-space (d ∷ w)
          ∙ ap (λ (q : Str × List Str). ([], push_piece q)) (first_piece_whole (d ∷ w) j))
    ∙ ap (λ (t : Str). (t, (d ∷ w) ∷ [])) (append-nil v)

-- two words with a space between them
pub split-two :
    (v w : Str)
    → v ≢ []
    → w ≢ []
    → All IsShown v
    → All IsShown w
    → split (v ++ b' ' ∷ w) ≡ v ∷ w ∷ []
unfolding split
split-two [] w n k h j = absurd (n refl)
split-two (c ∷ v) [] n k h j = absurd (k refl)
split-two (c ∷ v) (d ∷ w) n k h j = ap push_piece (first_piece-two (c ∷ v) d w h j)
