-- ===== src/Tokens/RoundTrip.antt =====
-- `parse` against the shape of a token, and against `generate`.
use mathlib.Core.Option.{some-injective, none-ne-some}
use mathlib.Core.Path.{ap₂}
use mathlib.Core.List.{cons-ne-nil}
use aircd.Base.{
  ℕ, ◌*◌, ◌≡◌, ◌≢◌, ◌↔◌, refl, ap, ◌∙◌, some, List, [], ◌∷◌, ◌++◌, Str, eqb, arith, inl, inr,
  Bool-cases, Option-cases, subst, length,
}
use aircd.Strings.{strip_prefix, split_once}
use aircd.Strings.Pieces.{Lacks, split_once-Lacks}
use aircd.Tokens.{token_prefix, hex_digit, hex_encode, generate, both_present, parse}

abbrev underscore : Str
underscore = b'_' ∷ []

pub parse_complete :
    (token_id secret : Str)
    → token_id ≢ []
    → secret ≢ []
    → Lacks b'_' token_id
    → parse (token_prefix ++ token_id ++ b'_' ∷ secret) ≡ some (token_id, secret)
unfolding parse strip_prefix
parse_complete [] secret h k l = absurd (h refl)
parse_complete (c ∷ a) [] h k l = absurd (k refl)
parse_complete (c ∷ a) (d ∷ s) h k l = rw (split_once-Lacks b'_' (c ∷ a) (d ∷ s) l)

strip_prefix_sound : (p s : Str) {r : Str} → strip_prefix p s ≡ some r → s ≡ p ++ r
unfolding strip_prefix
strip_prefix_sound [] s h = some-injective _ _ h
strip_prefix_sound (c ∷ p) [] h = absurd (none-ne-some _ h)
strip_prefix_sound (c ∷ p) (d ∷ s) {r} h = elim (Bool-cases (eqb c d)) [
  | inl e ↦ ground (arith, strip_prefix_sound p s {r = r} (rw e at h))
  | inr e ↦ absurd (none-ne-some _ (rw e at h))
]

split_sound :
    (s a b : Str) → split_once underscore s ≡ some (a, b) → (s ≡ a ++ b'_' ∷ b) × Lacks b'_' a
unfolding split_once strip_prefix
split_sound [] a b h = absurd (none-ne-some _ h)
split_sound (c ∷ s) [] b h = ground arith
split_sound (c ∷ s) (d ∷ a) b h = ground (arith, split_sound s a b)

abbrev IsHex : ℕ → Type 0
IsHex c = c ≢ b'_'

hex_digit-IsHex : (d : ℕ) → IsHex (hex_digit d)
unfolding hex_digit
hex_digit-IsHex d = ground arith

pub hex_encode-Lacks : (bytes : List ℕ) → Lacks b'_' (hex_encode bytes)
unfolding hex_encode
hex_encode-Lacks [] = tt
hex_encode-Lacks (byte ∷ bytes) = (hex_digit-IsHex _, (hex_digit-IsHex _, hex_encode-Lacks bytes))

pub length-hex_encode : (bytes : List ℕ) → length (hex_encode bytes) ≡ 2 * length bytes
unfolding hex_encode
length-hex_encode [] = refl
length-hex_encode (byte ∷ bytes) = omega (arith, length-hex_encode bytes)

hex_encode-ne-nil : (bytes : List ℕ) → bytes ≢ [] → hex_encode bytes ≢ []
unfolding hex_encode
hex_encode-ne-nil [] h = absurd (h refl)
hex_encode-ne-nil (byte ∷ bytes) h = cons-ne-nil _ _

-- A generated token is parsed back into its id and its secret, which are twice as long as the random
-- bytes behind them.
pub parse-generate :
    (id_bytes secret : List ℕ)
    → id_bytes ≢ []
    → secret ≢ []
    → (parse (generate id_bytes secret).0
        ≡ some ((generate id_bytes secret).1, (generate id_bytes secret).2))
      × (length (generate id_bytes secret).1 ≡ 2 * length id_bytes)
      × (length (generate id_bytes secret).2 ≡ 2 * length secret)
unfolding generate
parse-generate id_bytes secret h k = (
  parse_complete (hex_encode id_bytes) (hex_encode secret) (hex_encode-ne-nil id_bytes h)
      (hex_encode-ne-nil secret k) (hex_encode-Lacks id_bytes),
  length-hex_encode id_bytes,
  length-hex_encode secret,
)

both_present_sound :
    (x y a b : Str)
    → both_present (some (x, y)) ≡ some (a, b)
    → (x ≡ a) × (y ≡ b) × (a ≢ []) × (b ≢ [])
unfolding both_present
both_present_sound [] y a b h = absurd (none-ne-some _ h)
both_present_sound (c ∷ x) [] a b h = absurd (none-ne-some _ h)
both_present_sound (c ∷ x) (d ∷ y) a b h =
    let e = some-injective _ _ h in
    let p = ap (λ (t : Str × Str). t.0) e in
    let q = ap (λ (t : Str × Str). t.1) e in
    (p, q, λ n. cons-ne-nil c x (p ∙ n), λ n. cons-ne-nil d y (q ∙ n))

pub parse_sound :
    (token token_id secret : Str)
    → parse token ≡ some (token_id, secret)
    → (token ≡ token_prefix ++ token_id ++ b'_' ∷ secret)
      × (token_id ≢ [])
      × (secret ≢ [])
      × Lacks b'_' token_id
unfolding parse
parse_sound token a b h = elim (Option-cases (strip_prefix token_prefix token)) [
  | inl e ↦ absurd (none-ne-some _ (rw e at h))
  | inr (body, e) ↦ elim (Option-cases (split_once underscore body)) [
    | inl f ↦ absurd (none-ne-some _ (rw (e, f) at h))
    | inr ((x, y), f) ↦
        let (p, q, some_id, some_secret) = both_present_sound x y a b (rw (e, f) at h) in
        let (whole, lacks) = split_sound body x y f in
        (
          strip_prefix_sound token_prefix token e
              ∙ ap (λ t. token_prefix ++ t)
                  (whole ∙ ap₂ (λ (s : Str) (t : Str). s ++ b'_' ∷ t) p q),
          some_id,
          some_secret,
          subst (Lacks b'_') p lacks,
        )
  ]
]

-- A text is parsed into an id and a secret exactly if it is of the form `airc_<id>_<secret>`, the id
-- without an underscore and both parts not empty.
parse_lem :
    (token token_id secret : Str)
    → (parse token ≡ some (token_id, secret)) ↔ (
        (token ≡ token_prefix ++ token_id ++ b'_' ∷ secret)
        × (token_id ≢ [])
        × (secret ≢ [])
        × Lacks b'_' token_id)
parse_lem token a b = (
  parse_sound token a b,
  λ (e, some_id, some_secret, lacks). ap parse e ∙ parse_complete a b some_id some_secret lacks,
)
