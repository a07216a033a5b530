-- ===== src/Server/Joining.antt =====
-- JOIN and PART of src/server.rs on the two views of membership: the table `channel_memberships` and
-- the sets of members that broadcasts read.
use aircd.Base.{
  arith, ◌≡◌, refl, ◌∙◌, true, false, not, ◌&&◌, Bool-cases, inl, inr, List, [], ◌∷◌, ◌++◌, Str,
  ltb, ℤ, any, select, length, if◌then◌else◌, ◌==◌,
}
use aircd.Database.{Database, MembershipRow}
use aircd.Server.Members.{
  is_row_of, insert_membership, delete_membership, has_membership, current_channel_seq,
}

abbrev pub new_row : Str → Str → ℤ → Database → MembershipRow
new_row id channel now db = record {
  principal_id = id;
  channel = channel;
  joined_at = now;
  last_seen_seq = current_channel_seq channel db;
}

module _ (id channel : Str) where
  pub has_membership-any :
      (db : Database) → has_membership id channel db ≡ any (is_row_of id channel) db.memberships
  unfolding has_membership select
  has_membership-any db = any_of db.memberships
    where
      any_of :
          (rows : List MembershipRow)
          → ltb 0 (length (select (is_row_of id channel) rows)) ≡ any (is_row_of id channel) rows
      any_of [] = refl
      any_of (r ∷ rows) = ground (arith, any_of rows)

  any-append :
      (rows : List MembershipRow) (r : MembershipRow)
      → any (is_row_of id channel) (rows ++ r ∷ [])
        ≡ (if is_row_of id channel r then true else any (is_row_of id channel) rows)
  any-append [] r = ground arith
  any-append (x ∷ rows) r = ground (arith, any-append rows r)

pub has_membership-insert :
    (id channel : Str) (now : ℤ) (db : Database) (other room : Str)
    → has_membership other room (insert_membership id channel now db)
      ≡ (if other == id && room == channel then true else has_membership other room db)
unfolding insert_membership
has_membership-insert id channel now db other room =
    elim (Bool-cases (any (is_row_of id channel) db.memberships)) [
      | inl e ↦
          rw e
            (ground (arith, has_membership-any other room db, has_membership-any id channel db, e))
      | inr e ↦ rw e (
          ground (
            arith,
            has_membership-any other room
                (record db { memberships = db.memberships ++ new_row id channel now db ∷ [] }),
            has_membership-any other room db,
            any-append other room db.memberships (new_row id channel now db),
          ))
    ]

pub has_membership-delete :
    (id channel : Str) (db : Database) (other room : Str)
    → has_membership other room (delete_membership id channel db)
      ≡ (if other == id && room == channel then false else has_membership other room db)
unfolding delete_membership select
has_membership-delete id channel db other room =
    has_membership-any other room (delete_membership id channel db)
    ∙ any_left db.memberships
    ∙ rw (has_membership-any other room db) refl
  where
    any_left :
        (rows : List MembershipRow)
        → any (is_row_of other room) (select (λ m. not (is_row_of id channel m)) rows)
          ≡ (if other == id && room == channel then false else any (is_row_of other room) rows)
    any_left [] = ground arith
    any_left (r ∷ rows) = ground (arith, any_left rows)
