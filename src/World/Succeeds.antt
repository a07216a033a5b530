-- ===== src/World/Succeeds.antt =====
-- Actions that return a value in every state and leave the clients and channels of the server alone:
-- one rule for each way to build one.
use aircd.Base.{
  Bool-cases, inl, inr, ◌≡◌, refl, ◌∙◌, Bool, true, false, Str, ℕ, ◌+◌, [], ◌∷◌, ◌++◌, any, eqb,
  not, ap, some, ok, if◌then◌else◌,
}
use aircd.Database.{Database}
use aircd.Auth.{Principal}
use aircd.World.{
  World, Env, Session, Exec, ◌>>=◌, pure, gets, modify, unix_timestamp, send, say,
  session_principal, lift, principal_or_error,
}
use aircd.World.Returns.{bind_ok}

pub record Succeeds {A : Type 0} (m : Exec A) : Type 0 where
  pub value : World → A
  pub state : World → World
  pub returns : (w : World) → m w ≡ (ok (value w), state w)
  pub inner_kept : (w : World) → (state w).inner ≡ w.inner

module _ {A : Type 0} where
  pub Succeeds-pure : (a : A) → Succeeds (pure a)
  unfolding pure
  Succeeds-pure a = record {
    value = λ _. a;
    state = λ w. w;
    returns = λ w. refl;
    inner_kept = λ w. refl;
  }

  pub Succeeds-gets : (f : World → A) → Succeeds (gets f)
  unfolding gets
  Succeeds-gets f = record {
    value = f;
    state = λ w. w;
    returns = λ w. refl;
    inner_kept = λ w. refl;
  }

pub Succeeds-modify_db :
    (f : Database → Database) → Succeeds (modify (λ w. record w { db = f w.db }))
unfolding modify
Succeeds-modify_db f = record {
  value = λ _. tt;
  state = λ w. record w { db = f w.db };
  returns = λ w. refl;
  inner_kept = λ w. refl;
}

pub Succeeds-unix_timestamp : (env : Env) → Succeeds (unix_timestamp env)
unfolding unix_timestamp
Succeeds-unix_timestamp env = record {
  value = λ w. env.clock w.readings;
  state = λ w. record w { readings = w.readings + 1 };
  returns = λ w. refl;
  inner_kept = λ w. refl;
}

module _ {A B : Type 0} (m : Exec A) (f : A → Exec B) where
  pub Succeeds-bind : Succeeds m → ((a : A) → Succeeds (f a)) → Succeeds (m >>= f)
  Succeeds-bind sm sf = record {
    value = λ w. (sf (sm.value w)).value (sm.state w);
    state = λ w. (sf (sm.value w)).state (sm.state w);
    returns = λ w.
        bind_ok m f w (sm.state w) (sm.value w) (sm.returns w)
        ∙ (sf (sm.value w)).returns (sm.state w);
    inner_kept = λ w. (sf (sm.value w)).inner_kept (sm.state w) ∙ sm.inner_kept w;
  }

pub Succeeds-send : (tx : ℕ) (text : Str) → Succeeds (send tx text)
unfolding send
Succeeds-send tx text = record {
  value = λ w. not (any (eqb tx) w.closed);
  state =
      λ w. if any (eqb tx) w.closed then w else record w { outbox = w.outbox ++ (tx, text) ∷ [] };
  returns =
      λ w. elim (Bool-cases (any (eqb tx) w.closed)) [ inl e ↦ rw e refl | inr e ↦ rw e refl ];
  inner_kept =
      λ w. elim (Bool-cases (any (eqb tx) w.closed)) [ inl e ↦ rw e refl | inr e ↦ rw e refl ];
}

pub Succeeds-say : (session : Session) (text : Str) → Succeeds (say session text)
unfolding say
Succeeds-say session text =
    Succeeds-bind _ _ (Succeeds-send session.tx text) (λ _. Succeeds-pure tt)

pub Succeeds-session_principal :
    (session : Session) (p : Principal)
    → session.principal ≡ some p
    → Succeeds (session_principal session)
unfolding session_principal lift
Succeeds-session_principal session p known = record {
  value = λ _. p;
  state = λ w. w;
  returns = λ w. ap (λ q. (principal_or_error q, w)) known;
  inner_kept = λ w. refl;
}

module _ {A : Type 0} where
  pub Succeeds-if :
      (b : Bool) (m n : Exec A) → Succeeds m → Succeeds n → Succeeds (if b then m else n)
  Succeeds-if true m n sm sn = sm
  Succeeds-if false m n sm sn = sn
