-- ===== src/Server/Positions.antt =====
-- The read positions of src/server.rs: `last_seen_seq` of a membership.
use aircd.Base.{
  arith, ◌≡◌, refl, ℕ, zero, suc, true, false, ◌&&◌, Bool-cases, inl, inr, Option, none, some, List,
  [], ◌∷◌, ◌++◌, Str, ℤ, max_ℤ, any, select, find, update_where, if◌then◌else◌, ◌==◌, ◌≤ℤ◌, take,
  sort_by, All, All-map,
}
use aircd.Database.{Database, MembershipRow, StoredMessage}
use aircd.History.{after, clamp_limit, wanted}
use aircd.Server.Joining.{new_row}
use aircd.Server.Members.{is_row_of, insert_membership, current_channel_seq, raise_seen, max_seq}

abbrev pub last_seen_of : Option MembershipRow → Option ℤ
last_seen_of none = none
last_seen_of (some m) = some m.last_seen_seq

-- the read position of a principal in a channel, if it is a member
abbrev pub position : Str → Str → Database → Option ℤ
position id channel db = last_seen_of (find (is_row_of id channel) db.memberships)

abbrev pub raised : ℤ → Option ℤ → Option ℤ
raised seq none = none
raised seq (some s) = some (max_ℤ s seq)

module _ (id channel : Str) (seq : ℤ) (other room : Str) where
  position-update :
      (rows : List MembershipRow)
      → last_seen_of (
          find (is_row_of other room) (
            update_where
              (is_row_of id channel)
              (λ m. record m { last_seen_seq = max_ℤ m.last_seen_seq seq })
              rows))
        ≡ (if other == id && room == channel
            then raised seq (last_seen_of (find (is_row_of other room) rows))
            else last_seen_of (find (is_row_of other room) rows))
  unfolding find update_where
  position-update [] = ground arith
  position-update (r ∷ rows) = ground (arith, position-update rows)

  -- `mark_seen` moves one read position, and only forward: it becomes the larger of itself and the
  -- number of the message that was seen. The other positions, and who is a member, stay.
  pub position-raise_seen :
      (db : Database)
      → position other room (raise_seen id channel seq db) ≡ (
          if other == id && room == channel
          then raised seq (position other room db)
          else position other room db)
  unfolding raise_seen
  position-raise_seen db = position-update db.memberships

max_ℤ-left : (a b : ℤ) → a ≤ℤ max_ℤ a b
max_ℤ-left a b = ground arith

max_ℤ-right : (a b c : ℤ) → c ≤ℤ b → c ≤ℤ max_ℤ a b
max_ℤ-right a b c h = ground (arith, h)

max_seq-bounds : (ms : List StoredMessage) → All (λ m. m.seq ≤ℤ max_seq ms) ms
unfolding max_seq
max_seq-bounds [] = tt
max_seq-bounds (m ∷ []) = (ground arith, tt)
max_seq-bounds (m ∷ n ∷ ms) = (
  max_ℤ-left m.seq (max_seq (n ∷ ms)),
  All-map (λ k. k.seq ≤ℤ max_seq (n ∷ ms)) _ (λ k. max_ℤ-right m.seq (max_seq (n ∷ ms)) k.seq)
      (n ∷ ms) (max_seq-bounds (n ∷ ms)),
)

none_above :
    (channel : Str) (bound : ℤ) (ms : List StoredMessage)
    → All (λ m. m.seq ≤ℤ bound) (select (λ m. m.channel == channel) ms)
    → select (wanted channel bound) ms ≡ []
unfolding select
none_above channel bound [] h = refl
none_above channel bound (m ∷ ms) h = elim (Bool-cases (m.channel == channel)) [
  | inl e ↦
      let (low, later) = rw e at h in ground (arith, none_above channel bound ms later, low, e)
  | inr e ↦ ground (arith, none_above channel bound ms (rw e at h), e)
]

module _ (id channel : Str) where
  absent :
      (rows : List MembershipRow)
      → last_seen_of (find (is_row_of id channel) rows) ≡ none
      → any (is_row_of id channel) rows ≡ false
  unfolding find
  absent [] h = refl
  absent (r ∷ rows) h = ground (arith, absent rows, h)

  position-append :
      (rows : List MembershipRow) (r : MembershipRow)
      → last_seen_of (find (is_row_of id channel) rows) ≡ none
      → is_row_of id channel r ≡ true
      → last_seen_of (find (is_row_of id channel) (rows ++ r ∷ [])) ≡ some r.last_seen_seq
  unfolding find
  position-append [] r h k = rw k refl
  position-append (x ∷ rows) r h k = ground (arith, position-append rows r, h, k)

take-nil : (n : ℕ) → take {A = StoredMessage} n [] ≡ []
take-nil zero = refl
take-nil (suc n) = refl

-- A principal that joins a channel anew starts behind all its messages: the history holds nothing that
-- it has not seen, whatever the limit.
pub newcomer_starts_at_the_end :
    (id channel : Str) (now : ℤ) (db : Database)
    → position id channel db ≡ none
    → (seq : ℤ) × (position id channel (insert_membership id channel now db) ≡ some seq)
      × ((limit : ℤ) → after channel seq limit (insert_membership id channel now db) ≡ [])
unfolding insert_membership current_channel_seq after sort_by
newcomer_starts_at_the_end id channel now db fresh =
    let row = new_row id channel now db in
    let new = absent id channel db.memberships fresh in
    (
      current_channel_seq channel db,
      rw new (position-append id channel db.memberships row fresh (ground arith)),
      λ limit.
          rw
            (
              new,
              none_above channel (current_channel_seq channel db) db.messages
                  (max_seq-bounds (select (λ m. m.channel == channel) db.messages)),
            )
            (take-nil (clamp_limit limit)),
    )
