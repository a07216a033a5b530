-- ===== src/World/Returns.antt =====
-- What an action made by `◌>>=◌` returns, from what its parts return.
use aircd.Base.{◌≡◌, refl, Str, ok, err, Bool-cases, inl, inr, any, eqb}
use aircd.World.{World, Session, Exec, ◌>>=◌, pure, send, say}

module _ {A B : Type 0} (m : Exec A) (f : A → Exec B) (w w' : World) where
  pub bind_ok : (a : A) → m w ≡ (ok a, w') → (m >>= f) w ≡ f a w'
  unfolding ◌>>=◌
  bind_ok a returned = rw returned refl

  pub bind_err : (e : Str) → m w ≡ (err e, w') → (m >>= f) w ≡ (err e, w')
  unfolding ◌>>=◌
  bind_err e returned = rw returned refl

-- the state behind a line to the session: nothing but the outbox changes
abbrev pub told : Session → Str → World → World
told session text w = (say session text w).1

say-succeeds : (session : Session) (text : Str) (w : World) → (say session text w).0 ≡ ok tt
unfolding say ◌>>=◌ send pure
say-succeeds session text w = elim (Bool-cases (any (eqb session.tx) w.closed)) [
  | inl e ↦ rw e refl
  | inr e ↦ rw e refl
]

pub say-returns :
    (session : Session) (text : Str) (w : World) → say session text w ≡ (ok tt, told session text w)
say-returns session text w = rw (say-succeeds session text w) refl

pub say-bind :
    {B : Type 0} (session : Session) (text : Str) (f : Unit {0} → Exec B) (w : World)
    → (say session text >>= f) w ≡ f tt (told session text w)
say-bind session text f w = bind_ok (say session text) f w _ tt (say-returns session text w)

pub say-then :
    {B : Type 0} (session : Session) (text : Str) (b : B) (w : World)
    → (say session text >>= λ _. pure b) w ≡ (ok b, told session text w)
unfolding pure
say-then session text b w = say-bind session text (λ _. pure b) w
