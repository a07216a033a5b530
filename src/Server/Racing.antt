-- ===== src/Server/Racing.antt =====
-- TASK CLAIM of src/server.rs on the task store: what the loser of a race is told.
use aircd.Base.{
  ◌≡◌, refl, sym, ap, ◌∙◌, some, List, [], ◌∷◌, Str, codes, ℤ, ◌+◌, ◌≤ℤ◌, add_i64, Result, ok, err,
  subst, select,
}
use aircd.Strings.{concat}
use aircd.Tags.{task_failure_tags}
use aircd.Auth.{Principal}
use aircd.Database.{Database, TaskRow}
use aircd.Tasks.{Task, claim}
use aircd.Tasks.Rows.{UniqueIds}
use aircd.Tasks.Outcomes.{claim_refusal, claim-refused}
use aircd.Tasks.Operations.{IsValid, claim-IsValid}
use aircd.Tasks.Lifecycle.{claimed_row, still_leased}
use aircd.World.{
  World, Session, Env, ◌>>=◌, session_principal, principal_or_error, unix_timestamp, attempt, lift,
}
use aircd.World.Returns.{told, say-returns}
use aircd.World.Keeps.{Keeps, Core, Keeps-bind, keeps_rules, Keeps-on_db}
use aircd.Server.Members.{raise_seen}
use aircd.Server.Chat.{append_message}
use aircd.Server.Delivery.{broadcast_message, recipients_with_ids}
use aircd.Server.Fanout.{seen_by, is_listening, broadcast_message_lem}
use aircd.Server.Guarantees.{append-tasks}
use aircd.Server.TaskCommands.{broadcast_task_event, report, task_claim}

abbrev HasTasks : List TaskRow → Core → Type 0
HasTasks rows (db, inner) = db.tasks ≡ rows

seen_by-tasks :
    (rs : _) (channel : Str) (seq : ℤ) (db : Database)
    → (seen_by rs channel seq db).tasks ≡ db.tasks
unfolding raise_seen
seen_by-tasks [] channel seq db = refl
seen_by-tasks ((id, client) ∷ rs) channel seq db =
    seen_by-tasks rs channel seq (raise_seen id channel seq db)

-- An event is stored and broadcast; the tasks stay as they are, also when the log refuses it.
module _ (rows : List TaskRow) where
  broadcast-HasTasks :
      (channel text : Str) (seq : ℤ) → Keeps (HasTasks rows) (broadcast_message channel text seq)
  broadcast-HasTasks channel text seq = record {
    at = λ w h.
        ap (λ r. r.1.db.tasks) (broadcast_message_lem channel text seq w)
        ∙ seen_by-tasks (select (is_listening w.closed) (recipients_with_ids channel w.inner))
            channel seq w.db
        ∙ h;
  }

  append-HasTasks :
      (env : Env) (channel sender body : Str)
      → Keeps (HasTasks rows) (append_message env channel sender body)
  unfolding append_message
  append-HasTasks env channel sender body = Keeps-bind _ _ (search keeps_rules) (λ uuid.
      Keeps-bind _ _ (search keeps_rules)
        (λ now. Keeps-on_db _ (λ db inner h. append-tasks channel sender body uuid now db ∙ h)))

  event-HasTasks :
      (env : Env) (task : Task) (action status actor body : Str)
      → Keeps (HasTasks rows) (broadcast_task_event env task action status actor body)
  unfolding broadcast_task_event
  event-HasTasks env task action status actor body =
      search (keeps_rules, append-HasTasks, broadcast-HasTasks)

-- the notice of a claim that failed
abbrev pub claim_failed : Str → Str → Str → Str
claim_failed task_id nick error = concat (
    task_failure_tags (codes "claim") task_id nick
    ∷ codes " :aircd NOTICE "
    ∷ nick
    ∷ codes " :"
    ∷ codes "TASK CLAIM "
    ∷ task_id
    ∷ codes " failed: "
    ∷ error
    ∷ [])

module _ (env : Env) (session : Session) (p : Principal) (task_id : Str) (w : World) where
  abbrev pub tried : Result Task × Database
  tried = claim env.lease_seconds task_id p.id (env.clock w.readings) w.db

  -- the state behind the call of the task store
  abbrev pub behind_try : World
  behind_try = record w { db = tried.1; readings = w.readings + 1 }

  pub to_report :
      session.principal ≡ some p
      → task_claim env session task_id w
        ≡ report env session p.nick
            (codes "claim")
            (codes "TASK CLAIM ")
            (codes " claimed by ")
            task_id
            tried.0
            behind_try
  unfolding task_claim session_principal lift unix_timestamp attempt ◌>>=◌
  to_report known =
      ap
        (λ q.
          (lift (principal_or_error q) >>= λ principal. unix_timestamp env >>= λ now.
          attempt (claim env.lease_seconds task_id principal.id now) >>= λ outcome.
          report env session principal.nick (codes "claim") (codes "TASK CLAIM ")
            (codes " claimed by ") task_id outcome)
            w)
        known

  -- A claim that is refused is told to the session alone, and changes nothing.
  refused_claim :
      {e : Str}
      → session.principal ≡ some p
      → tried ≡ (err e, w.db)
      → task_claim env session task_id w ≡ (
        ok tt,
        told session (claim_failed task_id p.nick e) (record w { readings = w.readings + 1 }),
      )
  unfolding report
  refused_claim known refused =
      to_report known
      ∙ ap
          (λ (r : Result Task × Database).
            report env session p.nick (codes "claim") (codes "TASK CLAIM ") (codes " claimed by ")
              task_id r.0 (record w { db = r.1; readings = w.readings + 1 }))
          refused
      ∙ say-returns session _ _

  -- The tasks behind a claim that is granted: the event leaves them as the claim has made them.
  granted_claim :
      {t : Task}
      → session.principal ≡ some p
      → tried.0 ≡ ok t
      → (task_claim env session task_id w).1.db.tasks ≡ tried.1.tasks
  unfolding report
  granted_claim {t} known granted =
      ap (λ r. r.1.db.tasks)
        (to_report known
          ∙ ap
              (λ r.
                report env session p.nick (codes "claim") (codes "TASK CLAIM ")
                  (codes " claimed by ") task_id r behind_try)
              granted)
      ∙ (event-HasTasks tried.1.tasks env t _ _ _ _).at behind_try refl

-- The loser of a race is told: where a session has claimed a task with success, the next session that
-- sends TASK CLAIM for it before the lease ends gets the notice that it is already claimed, and nobody
-- else gets a line and nothing in the database changes. The task table is valid.
pub loser_is_told :
    (env : Env) (winner loser : Session) (p q : Principal) (task_id : Str) (w : World) {t : Task}
    → IsValid w.db
    → winner.principal ≡ some p
    → loser.principal ≡ some q
    → (tried env winner p task_id w).0 ≡ ok t
    → (w' : World) → w' ≡ (task_claim env winner task_id w).1
    → env.clock w'.readings ≤ℤ add_i64 (env.clock w.readings) env.lease_seconds
    → task_claim env loser task_id w' ≡ (
      ok tt,
      told loser
          (claim_failed task_id q.nick claim_refusal)
          (record w' { readings = w'.readings + 1 }),
    )
loser_is_told env winner loser p q task_id w v is_p is_q granted w' e early =
    let lease = env.lease_seconds in
    let now = env.clock w.readings in
    let same =
      ap (λ (x : World). x.db.tasks) e ∙ granted_claim env winner p task_id w is_p granted in
    let (r, found) = claimed_row lease task_id p.id now w.db v granted in
    let unique =
      subst UniqueIds (sym same) ((claim-IsValid lease task_id p.id now w.db v).unique) in
    refused_claim env loser q task_id w' is_q (
      claim-refused lease task_id q.id (env.clock w'.readings) w'.db unique (λ r' f c.
        still_leased p.id (add_i64 now lease) now (env.clock w'.readings) r r' early
          (cc (f, found, same)) c))
