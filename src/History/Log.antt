-- ===== src/History/Log.antt =====
-- The message table as a log: sequence numbers ascend, and `append` writes the newest one.
use aircd.Base.{
  err, ok-injective, inl, inr, subst, ap, ◌≡◌, refl, Bool, true, List, [], ◌∷◌, ◌++◌, Str, codes,
  take, select, insert_by, sort_by, All, All-map, All-append, All-select, ℤ, ◌<ℤ◌, ◌≤ℤ◌, ≤ℤ→ltb_ℤ,
  ◌+ℤ◌, ok, arith, Bool-cases, select-append,
}
use aircd.Database.{Database, StoredMessage}
use aircd.History.{
  append, next_message, can_insert, with_message, clamp_limit, by_seq, wanted, after,
}

abbrev pub Newer : StoredMessage → StoredMessage → Type 0
Newer m n = m.seq <ℤ n.seq

abbrev pub Ascending : List StoredMessage → Type 0
Ascending [] = Unit
Ascending (m ∷ ms) = All (Newer m) ms × Ascending ms

abbrev pub UpTo : ℤ → StoredMessage → Type 0
UpTo last m = m.seq ≤ℤ last

pub record IsLog (db : Database) : Type 0 where
  pub ascending : Ascending db.messages
  pub bounded : All (UpTo db.last_message_seq) db.messages

Ascending-append :
    (ms : List StoredMessage) (n : StoredMessage)
    → Ascending ms
    → All (λ m. Newer m n) ms
    → Ascending (ms ++ n ∷ [])
Ascending-append [] n h k = (tt, tt)
Ascending-append (m ∷ ms) n (p, h) (q, k) =
    (All-append (Newer m) ms (n ∷ []) p (q, tt), Ascending-append ms n h k)

pub Ascending-select :
    (p : StoredMessage → Bool) (ms : List StoredMessage) → Ascending ms → Ascending (select p ms)
unfolding select
Ascending-select p [] h = tt
Ascending-select p (m ∷ ms) (k, h) = elim (Bool-cases (p m)) [
  | inl e ↦ rw e (All-select (Newer m) p ms k, Ascending-select p ms h)
  | inr e ↦ rw e (Ascending-select p ms h)
]

-- ORDER BY seq does not move the rows of an ascending table.
insert_by-least :
    (m : StoredMessage) (ms : List StoredMessage)
    → All (Newer m) ms
    → insert_by by_seq m ms ≡ m ∷ ms
unfolding insert_by
insert_by-least m [] h = refl
insert_by-least m (n ∷ ms) (p, h) = rw (≤ℤ→ltb_ℤ n.seq m.seq (omega arith))

sort_by-Ascending : (ms : List StoredMessage) → Ascending ms → sort_by by_seq ms ≡ ms
unfolding sort_by
sort_by-Ascending [] h = refl
sort_by-Ascending (m ∷ ms) (k, h) = rw (sort_by-Ascending ms h) (insert_by-least m ms k)

-- `after` reads nothing of the database but the messages.
pub after-messages :
    (channel : Str) (after_seq limit : ℤ) (db db' : Database)
    → db.messages ≡ db'.messages
    → after channel after_seq limit db ≡ after channel after_seq limit db'
unfolding after
after-messages channel after_seq limit db db' same =
    ap (λ ms. take (clamp_limit limit) (sort_by by_seq (select (wanted channel after_seq) ms))) same

-- On a log, `after` returns the oldest messages of the channel behind a sequence number, as many as the
-- limit allows, in the order in which they were appended.
pub after_lem :
    (channel : Str) (after_seq limit : ℤ) (db : Database)
    → IsLog db
    → after channel after_seq limit db
      ≡ take (clamp_limit limit) (select (wanted channel after_seq) db.messages)
unfolding after
after_lem channel after_seq limit db log =
    rw (sort_by-Ascending _ (Ascending-select (wanted channel after_seq) db.messages log.ascending))

module _ (channel sender body uuid : Str) (now : ℤ) (db : Database) where
  next-above :
      (m : StoredMessage)
      → UpTo db.last_message_seq m
      → Newer m (next_message channel sender body uuid now db)
  unfolding ◌+ℤ◌
  next-above m h = ground arith

  -- `append` keeps the log: sequence numbers ascend, and none is above the counter.
  pub append-IsLog : IsLog db → IsLog (append channel sender body uuid now db).1
  unfolding append
  append-IsLog log = elim (Bool-cases (can_insert (codes "msg_" ++ uuid) db)) [
    | inl e ↦
        let newest = next_message channel sender body uuid now db in
        let below =
          All-map (UpTo db.last_message_seq) (λ m. Newer m newest) next-above db.messages
            log.bounded in
        rw e (record {
          ascending = Ascending-append db.messages newest log.ascending below;
          bounded =
              All-append (UpTo newest.seq) db.messages (newest ∷ [])
                (All-map (λ m. Newer m newest) (UpTo newest.seq) (λ m h. omega arith) db.messages
                  below)
                (omega arith, tt);
        })
    | inr e ↦ rw e log
  ]

  -- a successful call has inserted the next message
  pub append-value :
      {m : StoredMessage}
      → (append channel sender body uuid now db).0 ≡ ok m
      → (next_message channel sender body uuid now db ≡ m)
        × ((append channel sender body uuid now db).1 ≡ with_message m db)
  unfolding append
  append-value done = elim (Bool-cases (can_insert (codes "msg_" ++ uuid) db)) [
    | inl e ↦
        let same = ok-injective (rw e at done) in (same, rw e (ap (λ x. with_message x db) same))
    | inr e ↦ absurd (cc (e, done))
  ]

  -- a failed call has inserted nothing
  pub append-failed :
      {e : Str}
      → (append channel sender body uuid now db).0 ≡ err e
      → (append channel sender body uuid now db).1 ≡ db
  unfolding append
  append-failed failed = elim (Bool-cases (can_insert (codes "msg_" ++ uuid) db)) [
    | inl h ↦ absurd (cc (h, failed))
    | inr h ↦ rw h refl
  ]

  -- A message that is appended is newer than every message before it, of any channel, and stands alone
  -- behind them.
  pub append-newest :
      {m : StoredMessage}
      → IsLog db
      → (append channel sender body uuid now db).0 ≡ ok m
      → All (λ older. Newer older m) db.messages
        × ((append channel sender body uuid now db).1.messages ≡ db.messages ++ m ∷ [])
  append-newest {m} log done =
      let (same, stored) = append-value done in
      let newest = next_message channel sender body uuid now db in
      let below =
        All-map (UpTo db.last_message_seq) (λ m. Newer m newest) next-above db.messages
          log.bounded in
      (
        subst (λ x. All (λ older. Newer older x) db.messages) same below,
        ap (λ (d : Database). d.messages) stored,
      )

  next-wanted :
      (after_seq : ℤ)
      → after_seq ≤ℤ db.last_message_seq
      → wanted channel after_seq (next_message channel sender body uuid now db) ≡ true
  unfolding ◌+ℤ◌
  next-wanted after_seq old = ground arith

  -- A reader of the channel that has seen at most the messages so far is handed the new message behind
  -- those that it has not seen, as far as its limit goes.
  pub after-append :
      (after_seq limit : ℤ) {m : StoredMessage}
      → IsLog db
      → (append channel sender body uuid now db).0 ≡ ok m
      → after_seq ≤ℤ db.last_message_seq
      → after channel after_seq limit (append channel sender body uuid now db).1
        ≡ take (clamp_limit limit) (select (wanted channel after_seq) db.messages ++ m ∷ [])
  after-append after_seq limit {m} log done old =
      let (same, stored) = append-value done in
      let fits = subst (λ x. wanted channel after_seq x ≡ true) same (next-wanted after_seq old) in
      rw
        (
          after_lem channel after_seq limit _ (append-IsLog log),
          stored,
          select-append (wanted channel after_seq) db.messages (m ∷ []),
        )
        (ap (λ x. take (clamp_limit limit) (select (wanted channel after_seq) db.messages ++ x))
          (select_one m fits))
    where
      select_one :
          (x : StoredMessage)
          → wanted channel after_seq x ≡ true
          → select (wanted channel after_seq) (x ∷ []) ≡ x ∷ []
      select_one x h = unfold select in rw h
