-- ===== src/Daemon/Holding.antt =====
-- Which messages the inbox of clients/python/aircd/daemon.py holds, by their delivery ids: pending or in
-- flight.
use aircd.Base.{
  arith, ◌≡◌, refl, ap, ◌∙◌, ℕ, Bool, true, false, not, ◌||◌, ◌&&◌, Bool-cases, inl, inr, Option,
  some, List, [], ◌∷◌, Str, ◌==◌, any, All, if◌then◌else◌,
}
use aircd.Strings.{is_some}
use aircd.Maps.{lookup, insert, remove, lookup-insert, lookup-remove, holds}
use aircd.Daemon.{Held, Inbox, delivery_id, requeue, deliver, ack_one, ack_each}

or_left : (a b c : Bool) → (a || (b || c)) ≡ ((b || a) || c)
or_left a b c = ground arith

abbrev pub is_called : Str → Held → Bool
is_called id held = delivery_id held == id

module _ {Time : Type 0} where
  abbrev pub is_in_flight : Str → Inbox Time → Bool
  is_in_flight id inbox = is_some (lookup id inbox.in_flight)

  abbrev pub is_held : Str → Inbox Time → Bool
  is_held id inbox = any (is_called id) inbox.pending_inbox || is_in_flight id inbox

  -- every message in flight stands under its delivery id
  abbrev pub IsKeyed : List (Str × (Held × Time)) → Type 0
  IsKeyed = All (λ e. delivery_id e.1.0 ≡ e.0)

  IsKeyed-remove :
      (mid : Str) (in_flight : List (Str × (Held × Time)))
      → IsKeyed in_flight
      → IsKeyed (remove mid in_flight)
  unfolding remove
  IsKeyed-remove mid [] h = tt
  IsKeyed-remove mid ((j, (held, t)) ∷ in_flight) (k, h) = elim (Bool-cases (j == mid)) [
    | inl e ↦ rw e (IsKeyed-remove mid in_flight h)
    | inr e ↦ rw e (k, IsKeyed-remove mid in_flight h)
  ]

  IsKeyed-insert :
      (held : Held) (now : Time) (in_flight : List (Str × (Held × Time)))
      → IsKeyed in_flight
      → IsKeyed (insert (delivery_id held) (held, now) in_flight)
  unfolding insert
  IsKeyed-insert held now [] h = (refl, tt)
  IsKeyed-insert held now ((j, (other, t)) ∷ in_flight) (k, h) =
      elim (Bool-cases (j == delivery_id held)) [
        | inl e ↦ rw e (refl, h)
        | inr e ↦ rw e (k, IsKeyed-insert held now in_flight h)
      ]

  pub requeue-IsKeyed :
      (expired : List (Str × (Held × Time))) (inbox : Inbox Time)
      → IsKeyed inbox.in_flight
      → IsKeyed (requeue expired inbox).in_flight
  unfolding requeue
  requeue-IsKeyed [] inbox h = h
  requeue-IsKeyed ((mid, (held, t)) ∷ expired) inbox h =
      requeue-IsKeyed expired _ (IsKeyed-remove mid inbox.in_flight h)

  pub deliver-IsKeyed :
      (now : Time) (pending : List Held) (in_flight : List (Str × (Held × Time)))
      → IsKeyed in_flight
      → IsKeyed (deliver now pending in_flight)
  unfolding deliver
  deliver-IsKeyed now [] in_flight h = h
  deliver-IsKeyed now (held ∷ pending) in_flight h =
      deliver-IsKeyed now pending _ (IsKeyed-insert held now in_flight h)

  ack_one-IsKeyed :
      (mid : Str) (acked : ℕ) (inbox : Inbox Time)
      → IsKeyed inbox.in_flight
      → IsKeyed (ack_one mid (acked, inbox)).1.in_flight
  unfolding ack_one
  ack_one-IsKeyed mid acked inbox h = elim (Bool-cases (is_in_flight mid inbox)) [
    | inl e ↦ rw e (IsKeyed-remove mid inbox.in_flight h)
    | inr e ↦ rw e h
  ]

  pub ack_each-IsKeyed :
      (ids : List Str) (acked : ℕ) (inbox : Inbox Time)
      → IsKeyed inbox.in_flight
      → IsKeyed (ack_each ids (acked, inbox)).1.in_flight
  unfolding ack_each
  ack_each-IsKeyed [] acked inbox h = h
  ack_each-IsKeyed (mid ∷ ids) acked inbox h =
      let (acked', inbox') = ack_one mid (acked, inbox) in
      ack_each-IsKeyed ids acked' inbox' (ack_one-IsKeyed mid acked inbox h)

  module _ (id : Str) where
    requeued-is_held :
        (mid : Str) (m : Held) (inbox : Inbox Time)
        → delivery_id m ≡ mid
        → is_held id inbox ≡ true
        → (is_called id m
            || any (is_called id) inbox.pending_inbox
            || is_some (lookup id (remove mid inbox.in_flight)))
          ≡ true
    requeued-is_held mid m inbox k held =
        rw (k, lookup-remove mid id inbox.in_flight) (ground (arith, held))

    -- what expires is pending again, under its delivery id
    pub requeue-is_held :
        (expired : List (Str × (Held × Time))) (inbox : Inbox Time)
        → IsKeyed expired
        → is_held id inbox ≡ true
        → is_held id (requeue expired inbox) ≡ true
    unfolding requeue
    requeue-is_held [] inbox h held = held
    requeue-is_held ((mid, (m, t)) ∷ expired) inbox (k, h) held =
        requeue-is_held expired _ h (requeued-is_held mid m inbox k held)

    some_if :
        (b : Bool) (v : Held × Time) (o : Option (Held × Time))
        → is_some (if b then some v else o) ≡ (b || is_some o)
    some_if true v o = refl
    some_if false v o = refl

    pub deliver-lookup :
        (now : Time) (pending : List Held) (in_flight : List (Str × (Held × Time)))
        → is_some (lookup id (deliver now pending in_flight))
          ≡ (any (is_called id) pending || is_some (lookup id in_flight))
    unfolding deliver
    deliver-lookup now [] in_flight = refl
    deliver-lookup now (held ∷ pending) in_flight =
        deliver-lookup now pending _
        ∙ ap (λ b. any (is_called id) pending || b)
            (ap is_some (lookup-insert (delivery_id held) id (held, now) in_flight)
              ∙ some_if (is_called id held) (held, now) (lookup id in_flight))
        ∙ or_left (any (is_called id) pending) (is_called id held) (is_some (lookup id in_flight))

    ack_one-in_flight :
        (mid : Str) (acked : ℕ) (inbox : Inbox Time)
        → is_in_flight id (ack_one mid (acked, inbox)).1
          ≡ (not (mid == id) && is_in_flight id inbox)
    unfolding ack_one
    ack_one-in_flight mid acked inbox = elim (Bool-cases (is_in_flight mid inbox)) [
      | inl e ↦ rw (e, lookup-remove mid id inbox.in_flight) (ground arith)
      | inr e ↦ rw e (ground (arith, e))
    ]

    -- an acknowledged id is in flight no more, and no other id leaves
    pub ack_each-in_flight :
        (ids : List Str) (acked : ℕ) (inbox : Inbox Time)
        → is_in_flight id (ack_each ids (acked, inbox)).1
          ≡ (not (holds id ids) && is_in_flight id inbox)
    unfolding ack_each
    ack_each-in_flight [] acked inbox = refl
    ack_each-in_flight (mid ∷ ids) acked inbox =
        let (acked', inbox') = ack_one mid (acked, inbox) in
        ack_each-in_flight ids acked' inbox'
        ∙ ap (λ b. not (holds id ids) && b) (ack_one-in_flight mid acked inbox)
        ∙ ground arith

  ack_one-pending :
      (mid : Str) (acked : ℕ) (inbox : Inbox Time)
      → (ack_one mid (acked, inbox)).1.pending_inbox ≡ inbox.pending_inbox
  unfolding ack_one
  ack_one-pending mid acked inbox = elim (Bool-cases (is_in_flight mid inbox)) [
    | inl e ↦ rw e refl
    | inr e ↦ rw e refl
  ]

  pub ack_each-pending :
      (ids : List Str) (acked : ℕ) (inbox : Inbox Time)
      → (ack_each ids (acked, inbox)).1.pending_inbox ≡ inbox.pending_inbox
  unfolding ack_each
  ack_each-pending [] acked inbox = refl
  ack_each-pending (mid ∷ ids) acked inbox =
      let (acked', inbox') = ack_one mid (acked, inbox) in
      ack_each-pending ids acked' inbox' ∙ ack_one-pending mid acked inbox
