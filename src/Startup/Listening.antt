-- ===== src/Startup/Listening.antt =====
-- `listen` and `listen_tls` of src/server.rs, and how src/main.rs awaits them: which error ends the process.
use mathlib.Core.List.{Memᴰ}
use aircd.Base.{
  ◌≡◌, ◌⊎◌, inl, inr, refl, sym, subst, Bool, true, false, Option, none, some, List, [], ◌∷◌, ◌++◌,
  Str, codes, All, Result, ok, err,
}
use aircd.Startup.{
  Listeners, plain, plain_and_tls, accept_loop, listen, accept_loop_tls, listen_tls, Sockets,
  first_error, await_listeners,
}

module _ {Stream Tls : Type 0} (handshake : Stream → Result Tls) where
  accept_loop_tls-ended_by :
      (rounds : List (Result Stream))
      → (accept_loop_tls handshake rounds).ended_by ≡ (accept_loop rounds).ended_by
  unfolding accept_loop_tls accept_loop
  accept_loop_tls-ended_by [] = refl
  accept_loop_tls-ended_by (err e ∷ rounds) = refl
  accept_loop_tls-ended_by (ok stream ∷ rounds) = accept_loop_tls-ended_by rounds

  -- A listener's end does not depend on its handshakes.
  listen_tls-ended_by :
      (addr : Str) (bind : Result (Unit {0})) (rounds : List (Result Stream))
      → (listen_tls handshake addr bind rounds).ended_by ≡ (listen addr bind rounds).ended_by
  unfolding listen_tls listen
  listen_tls-ended_by addr (ok u) rounds = accept_loop_tls-ended_by rounds
  listen_tls-ended_by addr (err e) rounds = refl

module _ {Stream : Type 0} where
  -- The address was bound, and `accept` has yielded streams only.
  abbrev pub IsUp : Result (Unit {0}) → List (Result Stream) → Type 0
  IsUp bind rounds =
      (bind ≡ ok tt) × All (λ (r : Result Stream). (stream : Stream) × (r ≡ ok stream)) rounds

  -- The address could not be bound, or `accept` has yielded this error.
  abbrev pub IsDown : Str → Result (Unit {0}) → List (Result Stream) → Str → Type 0
  IsDown addr bind rounds e =
      ((cause : Str) × (bind ≡ err cause) × (e ≡ codes "bind " ++ addr))
      ⊎ ((bind ≡ ok tt) × Memᴰ (err e) rounds)

  abbrev LoopEnd : List (Result Stream) → Option Str → Type 0
  LoopEnd rounds none = All (λ (r : Result Stream). (stream : Stream) × (r ≡ ok stream)) rounds
  LoopEnd rounds (some e) = Memᴰ (err e) rounds

  after_one :
      (stream : Stream) (rounds : List (Result Stream)) (end : Option Str)
      → LoopEnd rounds end
      → LoopEnd (ok stream ∷ rounds) end
  after_one stream rounds none h = ((stream, refl), h)
  after_one stream rounds (some e) h = Memᴰ.tail h

  accept_loop-LoopEnd :
      (rounds : List (Result Stream)) → LoopEnd rounds (accept_loop rounds).ended_by
  unfolding accept_loop
  accept_loop-LoopEnd [] = tt
  accept_loop-LoopEnd (err e ∷ rounds) = Memᴰ.head refl
  accept_loop-LoopEnd (ok stream ∷ rounds) = after_one stream rounds _ (accept_loop-LoopEnd rounds)

  abbrev End : Str → Result (Unit {0}) → List (Result Stream) → Option Str → Type 0
  End addr bind rounds none = IsUp bind rounds
  End addr bind rounds (some e) = IsDown addr bind rounds e

  when_bound :
      (addr : Str) (rounds : List (Result Stream)) (end : Option Str)
      → LoopEnd rounds end
      → End addr (ok tt) rounds end
  when_bound addr rounds none h = (refl, h)
  when_bound addr rounds (some e) h = inr (refl, h)

  listen-End :
      (addr : Str) (bind : Result (Unit {0})) (rounds : List (Result Stream))
      → End addr bind rounds (listen addr bind rounds).ended_by
  unfolding listen
  listen-End addr (ok tt) rounds = when_bound addr rounds _ (accept_loop-LoopEnd rounds)
  listen-End addr (err e) rounds = inl (e, refl, refl)

module _ {Stream Tls Acceptor : Type 0} (sockets : Sockets Stream Tls Acceptor) where
  -- every listener is up
  abbrev pub AllUp : Listeners Acceptor → Type 0
  AllUp (plain addr) = IsUp (sockets.bind addr) (sockets.accepts addr)
  AllUp (plain_and_tls addr tls_addr acceptor) =
      IsUp (sockets.bind addr) (sockets.accepts addr)
      × IsUp (sockets.bind tls_addr) (sockets.accepts tls_addr)

  -- a listener is down, for this reason
  abbrev pub OneDown : Listeners Acceptor → Str → Type 0
  OneDown (plain addr) e = IsDown addr (sockets.bind addr) (sockets.accepts addr) e
  OneDown (plain_and_tls addr tls_addr acceptor) e =
      IsDown addr (sockets.bind addr) (sockets.accepts addr) e
      ⊎ IsDown tls_addr (sockets.bind tls_addr) (sockets.accepts tls_addr) e

  abbrev pub Awaited : Listeners Acceptor → Option Str → Type 0
  Awaited listeners none = AllUp listeners
  Awaited listeners (some e) = OneDown listeners e

  joined :
      (is_tls_first : Bool) (addr tls_addr : Str) (acceptor : Acceptor) (end tls_end : Option Str)
      → End addr (sockets.bind addr) (sockets.accepts addr) end
      → End tls_addr (sockets.bind tls_addr) (sockets.accepts tls_addr) tls_end
      → Awaited (plain_and_tls addr tls_addr acceptor) (first_error is_tls_first end tls_end)
  joined is_tls_first addr tls_addr acceptor none none h k = (h, k)
  joined is_tls_first addr tls_addr acceptor none (some e) h k = inr k
  joined is_tls_first addr tls_addr acceptor (some e) none h k = inl h
  joined true addr tls_addr acceptor (some e) (some d) h k = inr k
  joined false addr tls_addr acceptor (some e) (some d) h k = inl h

  pub await_listeners-Awaited :
      (listeners : Listeners Acceptor) → Awaited listeners (await_listeners sockets listeners)
  unfolding await_listeners
  await_listeners-Awaited (plain addr) =
      of_plain _ (listen-End addr (sockets.bind addr) (sockets.accepts addr))
    where
      of_plain :
          (end : Option Str)
          → End addr (sockets.bind addr) (sockets.accepts addr) end
          → Awaited (plain addr) end
      of_plain none h = h
      of_plain (some e) h = h
  await_listeners-Awaited (plain_and_tls addr tls_addr acceptor) =
      joined sockets.is_tls_first addr tls_addr acceptor _ _
        (listen-End addr (sockets.bind addr) (sockets.accepts addr))
        (subst (End tls_addr (sockets.bind tls_addr) (sockets.accepts tls_addr))
          (sym (
            listen_tls-ended_by (sockets.handshake acceptor) tls_addr (sockets.bind tls_addr)
              (sockets.accepts tls_addr)))
          (listen-End tls_addr (sockets.bind tls_addr) (sockets.accepts tls_addr)))
