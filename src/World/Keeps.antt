-- ===== src/World/Keeps.antt =====
-- Properties of the database that an action keeps, whether it returns or fails: one rule for each way
-- to build an action.
use aircd.Base.{
  Bool, true, false, Str, ℕ, if◌then◌else◌, Result, ok, err, eqb, any, Bool-cases, inl, inr,
}
use aircd.Database.{Database}
use aircd.World.{
  World, ServerInner, Env, Session, Exec, continue, ◌>>=◌, pure, lift, gets, on_db, modify, attempt,
  unix_timestamp, new_v4, send, say, session_principal,
}

-- What is shared by the sessions and outlives a line: the database and the tables in memory.
abbrev pub Core : Type 0
Core = Database × ServerInner

abbrev pub core : World → Core
core w = (w.db, w.inner)

pub record Keeps {A : Type 0} (P : Core → Type 0) (m : Exec A) : Type 0 where
  pub at : (w : World) → P (core w) → P (core (m w).1)

module _ {A : Type 0} {P : Core → Type 0} where
  pub Keeps-pure : (a : A) → Keeps P (pure a)
  unfolding pure
  Keeps-pure a = record { at = λ w h. h }

  pub Keeps-lift : (r : Result A) → Keeps P (lift r)
  unfolding lift
  Keeps-lift r = record { at = λ w h. h }

  pub Keeps-gets : (f : World → A) → Keeps P (gets f)
  unfolding gets
  Keeps-gets f = record { at = λ w h. h }

  pub Keeps-on_db :
      (f : Database → Result A × Database)
      → ((db : Database) (inner : ServerInner) → P (db, inner) → P ((f db).1, inner))
      → Keeps P (on_db f)
  unfolding on_db
  Keeps-on_db f step = record { at = λ w h. step w.db w.inner h }

  pub Keeps-attempt :
      (f : Database → Result A × Database)
      → ((db : Database) (inner : ServerInner) → P (db, inner) → P ((f db).1, inner))
      → Keeps P (attempt f)
  unfolding attempt
  Keeps-attempt f step = record { at = λ w h. step w.db w.inner h }

module _ {P : Core → Type 0} where
  pub Keeps-modify :
      (f : World → World) → ((w : World) → P (core w) → P (core (f w))) → Keeps P (modify f)
  unfolding modify
  Keeps-modify f step = record { at = step }

  pub Keeps-unix_timestamp : (env : Env) → Keeps P (unix_timestamp env)
  unfolding unix_timestamp
  Keeps-unix_timestamp env = record { at = λ w h. h }

  pub Keeps-new_v4 : (env : Env) → Keeps P (new_v4 env)
  unfolding new_v4
  Keeps-new_v4 env = record { at = λ w h. h }

  pub Keeps-send : (tx : ℕ) (text : Str) → Keeps P (send tx text)
  unfolding send
  Keeps-send tx text = record {
    at = λ w h. elim (Bool-cases (any (eqb tx) w.closed)) [ inl e ↦ rw e h | inr e ↦ rw e h ];
  }

  pub Keeps-session_principal : (session : Session) → Keeps P (session_principal session)
  unfolding session_principal
  Keeps-session_principal session = Keeps-lift _

module _ {A B : Type 0} {P : Core → Type 0} where
  continue_keeps :
      (r : Result A) (f : A → Exec B) (w : World)
      → ((a : A) → Keeps P (f a))
      → P (core w)
      → P (core (continue r f w).1)
  continue_keeps (ok a) f w kf h = (kf a).at w h
  continue_keeps (err e) f w kf h = h

  pub Keeps-bind :
      (m : Exec A) (f : A → Exec B) → Keeps P m → ((a : A) → Keeps P (f a)) → Keeps P (m >>= f)
  unfolding ◌>>=◌
  Keeps-bind m f km kf = record {
    at = λ w h. let (r, w') = m w in continue_keeps r f w' kf (km.at w h);
  }

module _ {P : Core → Type 0} where
  pub Keeps-say : (session : Session) (text : Str) → Keeps P (say session text)
  unfolding say
  Keeps-say session text = Keeps-bind _ _ (Keeps-send session.tx text) (λ _. Keeps-pure tt)

pub ruleset keeps_rules = (
  Keeps-pure, Keeps-lift, Keeps-gets, Keeps-unix_timestamp, Keeps-new_v4, Keeps-send, Keeps-say,
  Keeps-session_principal, Keeps-bind,
)

module _ {A : Type 0} {P : Core → Type 0} where
  pub Keeps-if : (b : Bool) (m n : Exec A) → Keeps P m → Keeps P n → Keeps P (if b then m else n)
  Keeps-if true m n km kn = km
  Keeps-if false m n km kn = kn
