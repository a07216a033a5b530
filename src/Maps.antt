-- ===== src/Maps.antt =====
-- Rust's `HashMap<String, V>` and `HashSet<String>`: association lists and lists with text keys. The
-- order of a list is the order in which a set is walked; the program promises none.
use aircd.Base.{
  not, ◌≡◌, Bool, true, false, Bool-cases, inl, inr, Option, none, some, List, [], ◌∷◌, ◌++◌, Str,
  ◌==◌, if◌then◌else◌, any, select, arith,
}

module _ {ℓ} {V : Type ℓ} where
  unfoldable pub lookup : Str → List (Str × V) → Option V
  lookup k [] = none
  lookup k ((j, v) ∷ m) = let later = lookup k m in if j == k then some v else later

  unfoldable pub insert : Str → V → List (Str × V) → List (Str × V)
  insert k v [] = (k, v) ∷ []
  insert k v ((j, w) ∷ m) =
      let later = insert k v m in if j == k then (k, v) ∷ m else (j, w) ∷ later

  unfoldable pub remove : Str → List (Str × V) → List (Str × V)
  remove k [] = []
  remove k ((j, w) ∷ m) = let later = remove k m in if j == k then later else (j, w) ∷ later

  pub lookup-insert :
      (k j : Str) (v : V) (m : List (Str × V))
      → lookup j (insert k v m) ≡ (if k == j then some v else lookup j m)
  unfolding lookup insert
  lookup-insert k j v [] = ground arith
  lookup-insert k j v ((i, w) ∷ m) = ground (arith, lookup-insert k j v m)

  pub lookup-remove :
      (k j : Str) (m : List (Str × V))
      → lookup j (remove k m) ≡ (if k == j then none else lookup j m)
  unfolding lookup remove
  lookup-remove k j [] = ground arith
  lookup-remove k j ((i, w) ∷ m) = ground (arith, lookup-remove k j m)

-- `HashSet::insert` and `HashSet::remove`
unfoldable pub insert_member : Str → List Str → List Str
insert_member x xs = if any (λ y. y == x) xs then xs else xs ++ x ∷ []

unfoldable pub remove_member : Str → List Str → List Str
unfolding select
remove_member x xs = select (λ y. not (y == x)) xs

-- a test of membership
abbrev pub holds : Str → List Str → Bool
holds x xs = any (λ y. y == x) xs

pub holds-insert_member :
    (x y : Str) (xs : List Str)
    → holds y (insert_member x xs) ≡ (if y == x then true else holds y xs)
unfolding insert_member
holds-insert_member x y xs = elim (Bool-cases (holds x xs)) [
  | inl e ↦ rw e (ground (arith, e))
  | inr e ↦ rw e (holds-snoc xs)
]
  where
    holds-snoc : (ys : List Str) → holds y (ys ++ x ∷ []) ≡ (if y == x then true else holds y ys)
    holds-snoc [] = ground arith
    holds-snoc (z ∷ ys) = ground (arith, holds-snoc ys)

pub holds-remove_member :
    (x y : Str) (xs : List Str)
    → holds y (remove_member x xs) ≡ (if y == x then false else holds y xs)
unfolding remove_member select
holds-remove_member x y [] = ground arith
holds-remove_member x y (z ∷ xs) = ground (arith, holds-remove_member x y xs)
