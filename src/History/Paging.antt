-- ===== src/History/Paging.antt =====
-- Reading a channel page by page with `after`: each page starts behind the last message of the page
-- before it.
use aircd.Base.{
  ℕ, zero, suc, ◌+◌, ◌≤◌, ◌≡◌, refl, ap, subst, sym, ◌∙◌, Bool, true, List, [], ◌∷◌, ◌++◌, Str,
  take, drop, length, length-take, select, All, All-map, All-take, select-All, ℤ, ◌<ℤ◌, ltb_ℤ,
  arith,
}
use mathlib.Core.List.{head-eq_of_cons-eq, tail-eq_of_cons-eq}
use aircd.Database.{Database, StoredMessage}
use aircd.History.{clamp_limit, wanted, after}
use aircd.History.Log.{Newer, Ascending, Ascending-select, IsLog, after_lem}

-- `limit.clamp(1, 500)` is in the range, and is the limit if that is in the range.
pub clamp_limit_bounds : (limit : ℤ) → (1 ≤ clamp_limit limit) × (clamp_limit limit ≤ 500)
unfolding clamp_limit
clamp_limit_bounds limit = ground arith

abbrev newer_than : StoredMessage → StoredMessage → Bool
newer_than m n = ltb_ℤ m.seq n.seq

take-nil : (k : ℕ) → take {A = StoredMessage} k [] ≡ []
take-nil zero = refl
take-nil (suc k) = refl

take_add : (n k : ℕ) (xs : List StoredMessage) → take (n + k) xs ≡ take n xs ++ take k (drop n xs)
take_add zero k xs = ap (λ (i : ℕ). take i xs) (omega arith)
take_add (suc n) k [] = let e : suc n + k ≡ suc (n + k) = omega arith in rw e (sym (take-nil k))
take_add (suc n) k (x ∷ xs) =
    let e : suc n + k ≡ suc (n + k) = omega arith in rw e (ap (λ ys. x ∷ ys) (take_add n k xs))

last_holds :
    (P : StoredMessage → Type 0) (front : List StoredMessage) (m : StoredMessage)
    → All P (front ++ m ∷ [])
    → P m
last_holds P [] m (p, _) = p
last_holds P (x ∷ front) m (_, h) = last_holds P front m h

select-Newer :
    (m : StoredMessage) (xs : List StoredMessage) → All (Newer m) xs → select (newer_than m) xs ≡ xs
unfolding select
select-Newer m [] h = refl
select-Newer m (x ∷ xs) (p, h) = ground (arith, select-Newer m xs h)

drop_of_take-nil : (n : ℕ) (xs : List StoredMessage) → take n xs ≡ [] → drop n xs ≡ xs
drop_of_take-nil zero xs h = refl
drop_of_take-nil (suc n) [] h = refl
drop_of_take-nil (suc n) (x ∷ xs) h = cc

-- What is newer than the last row of a page is what the page leaves over.
select_behind :
    (n : ℕ) (xs front : List StoredMessage) (m : StoredMessage)
    → Ascending xs
    → take n xs ≡ front ++ m ∷ []
    → select (newer_than m) xs ≡ drop n xs
unfolding select
select_behind zero xs [] m asc h = cc
select_behind zero xs (f ∷ front) m asc h = cc
select_behind (suc n) [] [] m asc h = cc
select_behind (suc n) [] (f ∷ front) m asc h = cc
select_behind (suc n) (x ∷ xs) [] m (k, asc) h =
    let same = head-eq_of_cons-eq h in
    let rest = select-Newer m xs (subst (λ y. All (Newer y) xs) same k) in
    ground (
      arith,
      rest,
      same,
      drop_of_take-nil n xs (tail-eq_of_cons-eq h),
      ap (λ (y : StoredMessage). y.seq) same,
    )
select_behind (suc n) (x ∷ xs) (f ∷ front) m (k, asc) h =
    let page = tail-eq_of_cons-eq h in
    let older =
      last_holds (Newer x) front m (subst (All (Newer x)) page (All-take (Newer x) n xs k)) in
    ground (arith, select_behind n xs front m asc page)

select-wanted :
    (channel : Str) (after_seq : ℤ) (m : StoredMessage) (xs : List StoredMessage)
    → after_seq <ℤ m.seq
    → select (wanted channel m.seq) xs
      ≡ select (newer_than m) (select (wanted channel after_seq) xs)
unfolding select
select-wanted channel a m [] h = refl
select-wanted channel a m (x ∷ xs) h = ground (arith, select-wanted channel a m xs h)

-- Two pages in a row, the second read from behind the last message of the first, are what one read with
-- both limits would give: no message is lost between them and none comes twice.
pub after-pages :
    (channel : Str) (after_seq limit next_limit : ℤ) (db : Database) (front : List StoredMessage)
    (m : StoredMessage)
    → IsLog db
    → after channel after_seq limit db ≡ front ++ m ∷ []
    → after channel after_seq limit db ++ after channel m.seq next_limit db
      ≡ take
          (clamp_limit limit + clamp_limit next_limit)
          (select (wanted channel after_seq) db.messages)
after-pages channel a limit next_limit db front m log page =
    let n = clamp_limit limit in
    let k = clamp_limit next_limit in
    let xs = select (wanted channel a) db.messages in
    let first = after_lem channel a limit db log in
    let taken : take n xs ≡ front ++ m ∷ [] = sym first ∙ page in
    let is_wanted =
      last_holds (λ x. wanted channel a x ≡ true) front m
        (subst (All (λ x. wanted channel a x ≡ true)) taken (
          All-take (λ x. wanted channel a x ≡ true) n xs
            (select-All (wanted channel a) db.messages))) in
    let behind =
      select_behind n xs front m (Ascending-select (wanted channel a) db.messages log.ascending)
        taken in
    rw (
      first,
      after_lem channel m.seq next_limit db log,
      select-wanted channel a m db.messages (ground (arith, is_wanted)),
      behind,
      take_add n k xs,
    )

-- A page holds messages of the channel behind the number that was asked for, oldest first, and at most
-- as many as the clamped limit.
pub after_sound :
    (channel : Str) (after_seq limit : ℤ) (db : Database)
    → IsLog db
    → All (λ m. (m.channel ≡ channel) × (after_seq <ℤ m.seq)) (after channel after_seq limit db)
      × Ascending (after channel after_seq limit db)
      × (length (after channel after_seq limit db) ≤ clamp_limit limit)
after_sound channel a limit db log =
    let n = clamp_limit limit in
    let xs = select (wanted channel a) db.messages in
    rw (after_lem channel a limit db log) (
      All-take (λ m. (m.channel ≡ channel) × (a <ℤ m.seq)) n xs
          (All-map (λ m. wanted channel a m ≡ true) (λ m. (m.channel ≡ channel) × (a <ℤ m.seq))
            (λ m h. (ground arith, ground arith)) xs (select-All (wanted channel a) db.messages)),
      Ascending-take n xs (Ascending-select (wanted channel a) db.messages log.ascending),
      omega (arith, length-take n xs),
    )
  where
    Ascending-take : (n : ℕ) (xs : List StoredMessage) → Ascending xs → Ascending (take n xs)
    Ascending-take zero xs h = tt
    Ascending-take (suc n) [] h = tt
    Ascending-take (suc n) (x ∷ xs) (k, h) = (All-take (Newer x) n xs k, Ascending-take n xs h)
