-- ===== src/Daemon/Dedup.antt =====
-- The dedup by msg-id in clients/python/aircd/daemon.py, with at most MAX_DEDUP_ENTRIES ids remembered.
use aircd.Base.{
  subst, arith, ◌≡◌, inl, inr, refl, ap, ◌∙◌, ℕ, suc, ◌≤◌, ◌<◌, Bool, true, not, Bool-cases, List,
  [], ◌∷◌, ◌++◌, append_assoc, Str, ◌==◌, select, length, length-append, select-append, ltb,
}
use aircd.Strings.{is_some}
use aircd.Maps.{lookup, holds, remove_member}
use aircd.Daemon.{
  Held, Inbox, max_dedup_entries, requeue, ack_one, ack_each, evict, move_to_end, receive_new,
}
use aircd.Daemon.Redelivery.{Event, checks, acks, reaps, arrives, idles}

-- The id is remembered, and at most `n` ids are newer.
abbrev pub IsRecent : Str → ℕ → List Str → Type 0
IsRecent id n seen = (older newer : List Str) × (seen ≡ older ++ id ∷ newer) × (length newer ≤ n)

length-select : (p : Str → Bool) (xs : List Str) → length (select p xs) ≤ length xs
unfolding select
length-select p [] = omega arith
length-select p (x ∷ xs) = ground (arith, length-select p xs)

holds-middle : (id : Str) (older newer : List Str) → holds id (older ++ id ∷ newer) ≡ true
holds-middle id [] newer = ground arith
holds-middle id (x ∷ older) newer = ground (arith, holds-middle id older newer)

pub IsRecent-holds :
    (id : Str) (n : ℕ) (seen : List Str) → IsRecent id n seen → holds id seen ≡ true
IsRecent-holds id n seen (older, newer, e, few) = ap (holds id) e ∙ holds-middle id older newer

evict-middle :
    (id : Str) (older newer : List Str)
    → length newer < max_dedup_entries
    → (kept : List Str) × (evict (older ++ id ∷ newer) ≡ kept ++ id ∷ newer)
unfolding evict
evict-middle id [] newer few = ([], ground (arith, few))
evict-middle id (x ∷ older) newer few =
    let (kept, e) = evict-middle id older newer few in
    elim (Bool-cases (ltb max_dedup_entries (length (x ∷ older ++ id ∷ newer)))) [
      | inl over ↦ (kept, rw over e)
      | inr room ↦ (x ∷ older, rw room refl)
    ]

-- a new id at the end, and the oldest ids forgotten
remember-IsRecent :
    (id other : Str) (n : ℕ) (seen : List Str)
    → suc n < max_dedup_entries
    → IsRecent id n seen
    → IsRecent id (suc n) (evict (seen ++ other ∷ []))
remember-IsRecent id other n seen room (older, newer, e, few) =
    let longer = length-append newer (other ∷ []) in
    let (kept, f) =
      evict-middle id older (newer ++ other ∷ []) (omega (arith, longer, room, few)) in
    (
      kept,
      newer ++ other ∷ [],
      ap (λ s. evict (s ++ other ∷ [])) e
          ∙ ap evict (append_assoc older (id ∷ newer) (other ∷ []))
          ∙ f,
      omega (arith, longer, few),
    )

pub move_to_end-newest : (id : Str) (seen : List Str) → IsRecent id 0 (move_to_end id seen)
unfolding move_to_end
move_to_end-newest id seen = (remove_member id seen, [], refl, omega arith)

pub IsRecent-weaken :
    (id : Str) (m n : ℕ) (seen : List Str) → m ≤ n → IsRecent id m seen → IsRecent id n seen
IsRecent-weaken id m n seen h (older, newer, e, few) = (older, newer, e, omega (arith, h, few))

select-middle :
    (p : Str → Bool) (id : Str) (older newer : List Str)
    → p id ≡ true
    → select p (older ++ id ∷ newer) ≡ select p older ++ id ∷ select p newer
unfolding select
select-middle p id older newer h = select-append p older (id ∷ newer) ∙ rw h refl

same_text : (s t : Str) → (s == t) ≡ true → s ≡ t
same_text s t e = ground (arith, e)

move_to_end-IsRecent :
    (id other : Str) (n : ℕ) (seen : List Str)
    → IsRecent id n seen
    → IsRecent id (suc n) (move_to_end other seen)
unfolding move_to_end remove_member
move_to_end-IsRecent id other n seen (older, newer, e, few) = elim (Bool-cases (id == other)) [
  | inl same ↦
      subst (λ o. IsRecent id (suc n) (move_to_end o seen)) (same_text id other same)
        (IsRecent-weaken id 0 (suc n) _ (omega arith) (move_to_end-newest id seen))
  | inr differ ↦
      let keeps : Str → Bool = λ y. not (y == other) in
      (
        select keeps older,
        select keeps newer ++ other ∷ [],
        ap (λ s. select keeps s ++ other ∷ []) e
            ∙ ap (λ s. s ++ other ∷ []) (select-middle keeps id older newer (rw differ refl))
            ∙ append_assoc (select keeps older) (id ∷ select keeps newer) (other ∷ []),
        omega (
          arith,
          length-append (select keeps newer) (other ∷ []),
          length-select keeps newer,
          few,
        ),
      )
]

pub remember-newest : (id : Str) (seen : List Str) → IsRecent id 0 (evict (seen ++ id ∷ []))
remember-newest id seen =
    let (kept, e) = evict-middle id seen [] (omega arith) in (kept, [], e, omega arith)

-- how many messages arrive
abbrev pub arrivals : {Time : Type 0} → List (Event Time) → ℕ
arrivals [] = 0
arrivals (arrives is_busy held ∷ events) = suc (arrivals events)
arrivals (checks now ∷ events) = arrivals events
arrivals (acks ids ∷ events) = arrivals events
arrivals (reaps now ∷ events) = arrivals events
arrivals (idles is_written ∷ events) = arrivals events

module _ {Time : Type 0} where
  pub requeue-seen :
      (expired : List (Str × (Held × Time))) (inbox : Inbox Time)
      → (requeue expired inbox).seen_msg_ids ≡ inbox.seen_msg_ids
  unfolding requeue
  requeue-seen [] inbox = refl
  requeue-seen ((mid, (m, t)) ∷ expired) inbox = requeue-seen expired _

  ack_one-seen :
      (mid : Str) (acked : ℕ) (inbox : Inbox Time)
      → (ack_one mid (acked, inbox)).1.seen_msg_ids ≡ inbox.seen_msg_ids
  unfolding ack_one
  ack_one-seen mid acked inbox = elim (Bool-cases (is_some (lookup mid inbox.in_flight))) [
    | inl e ↦ rw e refl
    | inr e ↦ rw e refl
  ]

  pub ack_each-seen :
      (ids : List Str) (acked : ℕ) (inbox : Inbox Time)
      → (ack_each ids (acked, inbox)).1.seen_msg_ids ≡ inbox.seen_msg_ids
  unfolding ack_each
  ack_each-seen [] acked inbox = refl
  ack_each-seen (mid ∷ ids) acked inbox =
      let (acked', inbox') = ack_one mid (acked, inbox) in
      ack_each-seen ids acked' inbox' ∙ ack_one-seen mid acked inbox

  pub received_new-IsRecent :
      (id : Str) (n : ℕ) (is_busy : Bool) (m : Held) (msg_id : Str) (inbox : Inbox Time)
      → suc n < max_dedup_entries
      → IsRecent id n inbox.seen_msg_ids
      → IsRecent id (suc n) (receive_new is_busy m msg_id inbox).seen_msg_ids
  received_new-IsRecent id n is_busy m [] inbox room recent =
      IsRecent-weaken id n (suc n) _ (omega arith) recent
  received_new-IsRecent id n is_busy m (c ∷ msg_id) inbox room recent =
      elim (Bool-cases (holds (c ∷ msg_id) inbox.seen_msg_ids)) [
        | inl e ↦ rw e (move_to_end-IsRecent id (c ∷ msg_id) n _ recent)
        | inr e ↦ rw e (remember-IsRecent id (c ∷ msg_id) n _ room recent)
      ]
