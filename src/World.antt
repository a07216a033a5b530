-- ===== src/World.antt =====
-- The state of src/server.rs, and actions on it. A tokio channel is a number: `outbox` holds what was
-- sent on every channel, oldest first, and `closed` the channels whose receiver is gone. Every reading
-- of the clock and every uuid comes from the `Env`, by the number of the reading.
pub mod Keeps
pub mod Returns
pub mod Succeeds
use aircd.Base.{
  ℕ, ◌+◌, Bool, true, false, Option, none, some, List, [], ◌∷◌, ◌++◌, Str, codes, eqb,
  if◌then◌else◌, any, ℤ, Result, ok, err,
}
use aircd.Database.{Database}
use aircd.Auth.{Principal}

-- What the server takes from outside its sources: the clock, the uuids, the argon2 check, and the
-- configured lease.
pub record Env : Type 0 where
  pub clock : ℕ → ℤ
  pub uuid : ℕ → Str
  pub verify : Str → Str → Result Bool
  pub lease_seconds : ℤ

pub record ClientHandle : Type 0 where
  pub session_id : Str
  pub tx : ℕ
  pub shutdown_tx : ℕ

pub record ServerInner : Type 0 where
  pub clients : List (Str × ClientHandle)
  pub channels : List (Str × List Str)

pub record Session : Type 0 where
  pub session_id : Str
  pub principal : Option Principal
  pub nick : Option Str
  pub pass_token : Option Str
  pub registered : Bool
  pub tx : ℕ
  pub shutdown_tx : ℕ

pub record World : Type 0 where
  pub db : Database
  pub legacy_hits : ℕ
  pub inner : ServerInner
  pub outbox : List (ℕ × Str)
  pub closed : List ℕ
  pub readings : ℕ
  pub uuids : ℕ

-- What was written before an error stays written.
abbrev pub Exec {ℓ} : Type ℓ → Type ℓ
Exec A = World → Result A × World

module _ {ℓ} {A : Type ℓ} where
  unfoldable pub pure : A → Exec A
  pure a w = (ok a, w)

  -- a result that fails under `?`
  unfoldable pub lift : Result A → Exec A
  lift r w = (r, w)

  unfoldable pub gets : (World → A) → Exec A
  gets f w = (ok (f w), w)

  -- an operation of one of the stores
  unfoldable pub on_db : (Database → Result A × Database) → Exec A
  on_db f w = let (r, db) = f w.db in (r, record w { db = db })

module _ {ℓ κ} {A : Type ℓ} {B : Type κ} where
  abbrev pub continue : Result A → (A → Exec B) → Exec B
  continue (ok a) f w = f a w
  continue (err e) f w = (err e, w)

  infixl 10 ◌>>=◌ ◌>>◌
  unfoldable pub ◌>>=◌ : Exec A → (A → Exec B) → Exec B
  ◌>>=◌ m f w = let (r, w') = m w in continue r f w'

  abbrev pub ◌>>◌ : Exec A → Exec B → Exec B
  m >> n = m >>= λ _. n

unfoldable pub modify : (World → World) → Exec (Unit {0})
modify f w = (ok tt, f w)

-- the outcome of a store's operation, to be matched on
unfoldable pub attempt {ℓ} : {A : Type ℓ} → (Database → Result A × Database) → Exec (Result A)
attempt f w = let (r, db) = f w.db in (ok r, record w { db = db })

unfoldable pub unix_timestamp : Env → Exec ℤ
unix_timestamp env w = (ok (env.clock w.readings), record w { readings = w.readings + 1 })

unfoldable pub new_v4 : Env → Exec Str
new_v4 env w = (ok (env.uuid w.uuids), record w { uuids = w.uuids + 1 })

-- `tx.send(line).is_ok()`
unfoldable pub send : ℕ → Str → Exec Bool
send tx line w =
    if any (eqb tx) w.closed
    then (ok false, w)
    else (ok true, record w { outbox = w.outbox ++ (tx, line) ∷ [] })

-- `Session::send`, which ignores the outcome
unfoldable pub say : Session → Str → Exec (Unit {0})
say session line = do send session.tx line; pure tt

abbrev pub principal_or_error : Option Principal → Result Principal
principal_or_error none = err (codes "session has no principal")
principal_or_error (some p) = ok p

-- `Session::principal`
unfoldable pub session_principal : Session → Exec Principal
session_principal session = lift (principal_or_error session.principal)

abbrev pub server_name : Str
server_name = codes "aircd"
