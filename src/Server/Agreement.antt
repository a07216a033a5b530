-- ===== src/Server/Agreement.antt =====
-- The two views of membership of src/server.rs, the table `channel_memberships` and the sets of members
-- in memory, in every state that the server reaches.
use aircd.Base.{
  arith, ◌≡◌, refl, sym, ap, ◌∙◌, Bool, true, ◌&&◌, ◌||◌, Option, none, some, List, [], ◌∷◌, map,
  Str, ℤ, max_ℤ, codes, ◌++◌, if◌then◌else◌, ◌==◌, any, select, sort_by, insert_by, update_where,
  Bool-cases, inl, inr,
}
use aircd.Database.{Database, MembershipRow}
use aircd.History
use aircd.Tasks
use aircd.Maps.{lookup, insert, lookup-insert, lookup-remove}
use aircd.World.{World, ServerInner, ClientHandle, Env}
use aircd.World.Keeps.{Core, core}
use aircd.Server.Members.{
  Membership, is_row_of, by_channel, membership_of, memberships_of, has_membership,
  insert_membership, delete_membership, set_connected, raise_seen,
}
use aircd.Server.Chat.{enter_channel, leave_channel, without_member}
use aircd.Server.Registration.{enter_channels, set_disconnected}
use aircd.Server.Joining.{has_membership-any, has_membership-insert, has_membership-delete}
use aircd.Server.Membership.{is_listed, is_listed-enter_channel, is_listed-leave_channel}
use aircd.Server.Invariants.{IsKept}
use aircd.Server.System.{Reach, Reach-keeps}

-- Who is listed in a channel has its row, and who has a row and a client is listed.
pub record Agree (c : Core) : Type 0 where
  pub has_row :
      (id channel : Str) → is_listed id channel c.1 ≡ true → has_membership id channel c.0 ≡ true
  pub listed :
      (id channel : Str) (client : ClientHandle)
      → lookup id c.1.clients ≡ some client
      → has_membership id channel c.0 ≡ true
      → is_listed id channel c.1 ≡ true

module _ {A : Type 0} (p : A → Bool) (before : A → A → Bool) where
  any-insert_by : (x : A) (xs : List A) → any p (insert_by before x xs) ≡ (p x || any p xs)
  unfolding insert_by
  any-insert_by x [] = refl
  any-insert_by x (y ∷ ys) = ground (arith, any-insert_by x ys)

  any-sort_by : (xs : List A) → any p (sort_by before xs) ≡ any p xs
  unfolding sort_by
  any-sort_by [] = refl
  any-sort_by (x ∷ xs) = any-insert_by x (sort_by before xs) ∙ ap (λ b. p x || b) (any-sort_by xs)

any-map :
    {A B : Type 0} (p : B → Bool) (f : A → B) (xs : List A)
    → any p (map f xs) ≡ any (λ x. p (f x)) xs
any-map p f [] = refl
any-map p f (x ∷ xs) = ap (λ b. p (f x) || b) (any-map p f xs)

any-rows :
    (id room : Str) (rows : List MembershipRow)
    → any (λ m. m.channel == room) (select (λ m. m.principal_id == id) rows)
      ≡ any (is_row_of id room) rows
unfolding select
any-rows id room [] = refl
any-rows id room (r ∷ rows) = ground (arith, any-rows id room rows)

-- `memberships` returns the channels of the rows
any-memberships_of :
    (id room : Str) (db : Database)
    → any (λ c. c == room) (map (λ m. m.channel) (memberships_of id db)) ≡ has_membership id room db
unfolding memberships_of
any-memberships_of id room db =
    let rows = select (λ m. m.principal_id == id) db.memberships in
    any-map (λ c. c == room) (λ (m : Membership). m.channel)
      (map membership_of (sort_by by_channel rows))
    ∙ any-map (λ m. m.channel == room) membership_of (sort_by by_channel rows)
    ∙ any-sort_by (λ m. m.channel == room) by_channel rows
    ∙ any-rows id room db.memberships
    ∙ sym (has_membership-any id room db)

is_listed-enter_channels :
    (id : Str) (channels : List Str) (inner : ServerInner) (other room : Str)
    → is_listed other room (enter_channels id channels inner)
      ≡ (if other == id && any (λ c. c == room) channels then true else is_listed other room inner)
unfolding enter_channels
is_listed-enter_channels id [] inner other room = ground arith
is_listed-enter_channels id (c ∷ channels) inner other room =
    is_listed-enter_channels id channels (enter_channel id c inner) other room
    ∙ ground (arith, is_listed-enter_channel id c inner other room)

enter_channel-clients :
    (id c : Str) (inner : ServerInner) → (enter_channel id c inner).clients ≡ inner.clients
unfolding enter_channel
enter_channel-clients id c inner = refl

leave_channel-clients :
    (id c : Str) (inner : ServerInner) → (leave_channel id c inner).clients ≡ inner.clients
unfolding leave_channel
leave_channel-clients id c inner = go (lookup c inner.channels)
  where
    go : (found : Option (List Str)) → (without_member id c inner found).clients ≡ inner.clients
    go none = refl
    go (some members) = refl

enter_channels-clients :
    (id : Str) (channels : List Str) (inner : ServerInner)
    → (enter_channels id channels inner).clients ≡ inner.clients
unfolding enter_channels
enter_channels-clients id [] inner = refl
enter_channels-clients id (c ∷ channels) inner =
    enter_channels-clients id channels (enter_channel id c inner) ∙ enter_channel-clients id c inner

has_membership-raise_seen :
    (id channel : Str) (seq : ℤ) (db : Database) (other room : Str)
    → has_membership other room (raise_seen id channel seq db) ≡ has_membership other room db
unfolding raise_seen update_where
has_membership-raise_seen id channel seq db other room =
    has_membership-any other room (raise_seen id channel seq db)
    ∙ same db.memberships
    ∙ sym (has_membership-any other room db)
  where
    same :
        (rows : List MembershipRow)
        → any (is_row_of other room) (
            update_where
              (is_row_of id channel)
              (λ m. record m { last_seen_seq = max_ℤ m.last_seen_seq seq })
              rows)
          ≡ any (is_row_of other room) rows
    same [] = refl
    same (r ∷ rows) = elim (Bool-cases (is_row_of id channel r)) [
      | inl e ↦ rw e (ap (λ b. is_row_of other room r || b) (same rows))
      | inr e ↦ rw e (ap (λ b. is_row_of other room r || b) (same rows))
    ]

append-memberships :
    (channel sender body uuid : Str) (now : ℤ) (db : Database)
    → (History.append channel sender body uuid now db).1.memberships ≡ db.memberships
unfolding History.append
append-memberships channel sender body uuid now db =
    elim (Bool-cases (History.can_insert (codes "msg_" ++ uuid) db)) [
      | inl e ↦ rw e refl
      | inr e ↦ rw e refl
    ]

create-memberships :
    (channel title uuid : Str) (now : ℤ) (db : Database)
    → (Tasks.create channel title uuid now db).1.memberships ≡ db.memberships
unfolding Tasks.create
create-memberships channel title uuid now db =
    elim (Bool-cases (any (λ r. r.id == codes "task_" ++ uuid) db.tasks)) [
      | inl e ↦ rw e refl
      | inr e ↦ rw e refl
    ]

module _ (db db' : Database) (inner : ServerInner) where
  same_table :
      ((id channel : Str) → has_membership id channel db' ≡ has_membership id channel db)
      → Agree (db, inner)
      → Agree (db', inner)
  same_table same a = record {
    has_row = λ id channel l. same id channel ∙ a.has_row id channel l;
    listed = λ id channel client k m. a.listed id channel client k (sym (same id channel) ∙ m);
  }

  same_rows : db'.memberships ≡ db.memberships → Agree (db, inner) → Agree (db', inner)
  same_rows e = same_table (λ id channel.
      has_membership-any id channel db'
      ∙ ap (any (is_row_of id channel)) e
      ∙ sym (has_membership-any id channel db))

joined-Agree :
    (id channel : Str) (now : ℤ) (db : Database) (inner : ServerInner)
    → Agree (db, inner)
    → Agree (insert_membership id channel now db, enter_channel id channel inner)
joined-Agree id channel now db inner a = record {
  has_row = λ other room l. ground (
    arith,
    is_listed-enter_channel id channel inner other room,
    has_membership-insert id channel now db other room,
    a.has_row other room,
  );
  listed = λ other room client k m. ground (
    arith,
    is_listed-enter_channel id channel inner other room,
    has_membership-insert id channel now db other room,
    a.listed other room client
        (ap (lookup other) (sym (enter_channel-clients id channel inner)) ∙ k),
  );
}

parted-Agree :
    (id channel : Str) (db : Database) (inner : ServerInner)
    → Agree (db, inner)
    → Agree (delete_membership id channel db, leave_channel id channel inner)
parted-Agree id channel db inner a = record {
  has_row = λ other room l. ground (
    arith,
    is_listed-leave_channel id channel inner other room,
    has_membership-delete id channel db other room,
    a.has_row other room,
  );
  listed = λ other room client k m. ground (
    arith,
    is_listed-leave_channel id channel inner other room,
    has_membership-delete id channel db other room,
    a.listed other room client
        (ap (lookup other) (sym (leave_channel-clients id channel inner)) ∙ k),
  );
}

-- the channels of all rows of a principal are entered with its new client
attached-Agree :
    (id : Str) (client : ClientHandle) (db : Database) (inner : ServerInner)
    → Agree (db, inner)
    → Agree (
      db,
      enter_channels id
          (map (λ m. m.channel) (memberships_of id db))
          (record inner { clients = insert id client inner.clients }),
    )
attached-Agree id client db inner a =
    let channels = map (λ (m : Membership). m.channel) (memberships_of id db) in
    let placed : ServerInner = record inner { clients = insert id client inner.clients } in
    record {
      has_row = λ other room l. ground (
        arith,
        is_listed-enter_channels id channels placed other room,
        any-memberships_of id room db,
        a.has_row other room,
      );
      listed = λ other room c k m. ground (
        arith,
        is_listed-enter_channels id channels placed other room,
        any-memberships_of id room db,
        ap (lookup other) (sym (enter_channels-clients id channels placed)) ∙ k,
        lookup-insert id other client inner.clients,
        a.listed other room c,
      );
    }

Agree-kept : IsKept Agree
unfolding Tasks.claim Tasks.done Tasks.release set_connected set_disconnected
Agree-kept = record {
  append = λ channel sender body uuid now db inner.
      same_rows db _ inner (append-memberships channel sender body uuid now db);
  create = λ channel title uuid now db inner.
      same_rows db _ inner (create-memberships channel title uuid now db);
  claim = λ lease j id now db inner. same_rows db _ inner refl;
  done = λ j id now db inner. same_rows db _ inner refl;
  release = λ j id now db inner. same_rows db _ inner refl;
  set_disconnected = λ id now db inner. same_rows db _ inner refl;
  joined = joined-Agree;
  parted = parted-Agree;
  raise_seen = λ id channel seq db inner.
      same_table db _ inner (has_membership-raise_seen id channel seq db);
  attached = λ id client now db inner a.
      attached-Agree id client (set_connected id now db) inner
        (same_rows db (set_connected id now db) inner refl a);
  dropped = λ id db inner a. record {
    has_row = a.has_row;
    listed = λ other room client k m.
        a.listed other room client (ground (arith, lookup-remove id other inner.clients)) m;
  };
}

-- If the rounds of the connections run one after the other, whatever they do and in whatever order, the
-- two views of membership agree in every state that the server reaches: a principal that broadcasts find
-- in a channel has its row in the table, and a principal with a row whose client is connected is found by
-- broadcasts. It holds where no channel is in memory yet and no client is connected, as at the start.
-- Rounds that overlap between the lock of the table and the lock of the memory are not covered.
pub Reach-Agree : (env : Env) {w w' : World} → Reach env w w' → Agree (core w) → Agree (core w')
Reach-Agree env r = Reach-keeps Agree-kept env r
