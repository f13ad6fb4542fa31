-- ===== src/Xmpp/Supervisor/Failing.antt =====
-- xmpp/client.go: a connection that ends ends by an error.
use fngo.Prelude.{
  ℕ, ◌≡◌, refl, String, true, false, Option, none, some, List, [], ◌∷◌, if◌then◌else◌, ◌∙◌, All,
  ◌||◌,
}
use fngo.Prelude.Int.{pos, leb_ℤ}
use fngo.Events.{Kind}
use fngo.Xmpp.Frames.{frame_events}
use fngo.Xmpp.Handshake.{
  Signal, read, wrote, ended, ticked, Error, other, Answer, value, failure, Env, Config, Result,
  done, waiting, fails, write_frame, perform_handshake,
}
use fngo.Xmpp.Supervisor.{
  Loop, Ended, returned, not_yet, emit, emit_kinds, run_loops, at_world, closed, connected, greeted,
  send_presence, dialled, authorization, tokened,
}

-- `ctx.Err()` is not nil once the context has ended
abbrev pub IsDocumented : Signal → Type 0
IsDocumented (ended none) = ⊥
IsDocumented (ended (some e)) = Unit
IsDocumented (read _) = Unit
IsDocumented (wrote _) = Unit
IsDocumented (ticked _) = Unit

-- what `errCh` gave, if anything, is not nil
abbrev IsError : Option (Option Error) → Type 0
IsError none = Unit
IsError (some none) = ⊥
IsError (some (some e)) = Unit

module _ {W : Type 0} (n : ℕ) (cfg : Config) (env : Env W) where
  emit_kinds-failures :
      (l : List Kind) (s : Loop W) → (emit_kinds n cfg env l s).failures ≡ s.failures
  emit_kinds-failures [] s = refl
  emit_kinds-failures (k ∷ l) s = emit_kinds-failures l (emit n cfg env k s)

  run_loops-failures :
      (l : List Signal) (s : Loop W) → (run_loops n cfg env l s).1.failures ≡ s.failures
  unfolding run_loops
  run_loops-failures [] s = refl
  run_loops-failures (read (value f) ∷ l) s =
      let kinds = frame_events env.xml f in
      run_loops-failures l (emit_kinds n cfg env kinds s) ∙ emit_kinds-failures kinds s
  run_loops-failures (read (failure e) ∷ l) s = refl
  run_loops-failures (wrote none ∷ l) s = run_loops-failures l s
  run_loops-failures (wrote (some e) ∷ l) s = refl
  run_loops-failures (ended e ∷ l) s = refl
  run_loops-failures (ticked room ∷ l) s =
      elim (room || leb_ℤ cfg.keep_alive_interval (pos 0))
        as (λ b.
          (if b
            then run_loops n cfg env l s
            else (some (some (other "xmpp: keepalive queue is full")), s)).1.failures
          ≡ s.failures) [ true ↦ run_loops-failures l s | false ↦ refl ]

  -- no loop sends nil
  run_loops-IsError :
      (l : List Signal) (s : Loop W) → All IsDocumented l → IsError (run_loops n cfg env l s).0
  unfolding run_loops
  run_loops-IsError [] s h = tt
  run_loops-IsError (read (value f) ∷ l) s h =
      run_loops-IsError l (emit_kinds n cfg env (frame_events env.xml f) s) h.1
  run_loops-IsError (read (failure e) ∷ l) s h = tt
  run_loops-IsError (wrote none ∷ l) s h = run_loops-IsError l s h.1
  run_loops-IsError (wrote (some e) ∷ l) s h = tt
  run_loops-IsError (ended none ∷ l) s h = h.0
  run_loops-IsError (ended (some e) ∷ l) s h = tt
  run_loops-IsError (ticked room ∷ l) s h =
      elim (room || leb_ℤ cfg.keep_alive_interval (pos 0))
        as (λ b.
          IsError
            (if b
              then run_loops n cfg env l s
              else (some (some (other "xmpp: keepalive queue is full")), s)).0) [
                | true ↦ run_loops-IsError l s h.1
                | false ↦ tt
              ]

  -- a connection that ends ends by an error, with the counter that it began with
  abbrev pub Fails : Loop W → Ended × Loop W → Type 0
  Fails s (not_yet, t) = Unit
  Fails s (returned none, t) = ⊥
  Fails s (returned (some e), t) = t.failures ≡ s.failures

  closed-Fails :
      (s : Loop W) (r : Option (Option Error) × Loop W)
      → r.1.failures ≡ s.failures
      → IsError r.0
      → Fails s (closed n cfg env r)
  closed-Fails s (none, t) h k = tt
  closed-Fails s (some none, t) h k = k
  closed-Fails s (some (some e), t) h k = h

  module _ (documented : (w : W) → All IsDocumented (env.session w).0) where
    connected-Fails : (s : Loop W) → Fails s (connected n cfg env s)
    unfolding connected
    connected-Fails s =
        let opened = emit n cfg env (Kind.xmpp_connected cfg.endpoint) s in
        let (signals, w) = env.session opened.world in
        let t = at_world n cfg env opened w in
        closed-Fails s (run_loops n cfg env signals t) (run_loops-failures signals t)
          (run_loops-IsError signals t (documented opened.world))

    greeted-Fails :
        (s : Loop W) (next : Loop W → Ended × Loop W) (r : Result × W)
        → ((t : Loop W) → Fails t (next t))
        → Fails s (greeted n cfg env s next r)
    greeted-Fails s next (done, w) h = h (at_world n cfg env s w)
    greeted-Fails s next (waiting, w) h = tt
    greeted-Fails s next (fails e, w) h = refl

    send_presence-Fails : (s : Loop W) → Fails s (send_presence n cfg env s)
    unfolding send_presence
    send_presence-Fails s =
        greeted-Fails s (connected n cfg env) (write_frame env "<presence/>" s.world)
          connected-Fails

    dialled-Fails :
        (token : String) (s : Loop W) (r : Answer (Unit {0}) × W)
        → Fails s (dialled n cfg env token s r)
    unfolding dialled
    dialled-Fails token s (failure e, w) = refl
    dialled-Fails token s (value u, w) =
        let greet =
          greeted n cfg env s (send_presence n cfg env) (perform_handshake env n cfg token w) in
        let go = connected n cfg env (at_world n cfg env s w) in
        elim cfg.enable_handshake as (λ b. Fails s (if b then greet else go)) [
          | true ↦
              greeted-Fails s (send_presence n cfg env) (perform_handshake env n cfg token w)
                send_presence-Fails
          | false ↦ connected-Fails (at_world n cfg env s w)
        ]

    pub tokened-Fails : (s : Loop W) (r : Answer String × W) → Fails s (tokened n cfg env s r)
    unfolding tokened
    tokened-Fails s (failure e, w) = refl
    tokened-Fails s (value token, w) =
        dialled-Fails token (at_world n cfg env s w)
          (env.dial cfg.endpoint (authorization n cfg env token) w)
