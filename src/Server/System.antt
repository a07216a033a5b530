-- ===== src/Server/System.antt =====
-- The running server: connections take their turns in any order, each with any input, and a tokio
-- receiver may go away at any time. The sessions are arbitrary, so a property of every reachable state
-- holds whatever the tasks of the runtime do between two rounds.
use aircd.Base.{ℕ, ◌≡◌, ◌∷◌, Str, subst, sym}
use aircd.World.{World, Session, Env, say}
use aircd.World.Keeps.{Core, core, Keeps-say}
use aircd.Server.Connection.{Input, on_input}
use aircd.Server.Invariants.{IsKept}
use aircd.Server.Invariants.Connections.{on_input_keeps}

pub data Step (env : Env) (w w' : World) : Type 0 where
  round : (session : Session) (i : Input) → w' ≡ (on_input env session i w).1 → Step env w w'
  greeting : (session : Session) (text : Str) → w' ≡ (say session text w).1 → Step env w w'
  receiver_gone : (tx : ℕ) → w' ≡ record w { closed = tx ∷ w.closed } → Step env w w'

pub data Reach (env : Env) (w : World) : World → Type 0 where
  here : Reach env w w
  next : {v u : World} → Reach env w v → Step env v u → Reach env w u

module _ {P : Core → Type 0} (kept : IsKept P) (env : Env) where
  Step-keeps : {w w' : World} → Step env w w' → P (core w) → P (core w')
  Step-keeps {w} (round session i e) h =
      subst (λ (v : World). P (core v)) (sym e) (on_input_keeps kept env session i w h)
  Step-keeps {w} (greeting session text e) h =
      subst (λ (v : World). P (core v)) (sym e) ((Keeps-say {P = P} session text).at w h)
  Step-keeps {w} (receiver_gone tx e) h = subst (λ (v : World). P (core v)) (sym e) h

  pub Reach-keeps : {w w' : World} → Reach env w w' → P (core w) → P (core w')
  Reach-keeps here h = h
  Reach-keeps (next r s) h = Step-keeps s (Reach-keeps r h)
