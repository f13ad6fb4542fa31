-- ===== src/Xmpp/Supervisor/Budget.antt =====
-- xmpp/client.go: how often the supervisor connects when MaxReconnectAttempts is positive.
use fngo.Prelude.{
  ℕ, zero, suc, ◌+◌, ◌≤◌, ◌≡◌, refl, arith, String, Bool, true, false, none, some, is_some,
  Bool-cases, inl, inr, ap, All,
}
use fngo.Prelude.Int.{pos}
use fngo.Backoff.{exponential}
use fngo.Events.{Kind}
use fngo.Xmpp.Handshake.{canceled, other, Env, Config}
use fngo.Xmpp.Supervisor.{
  Loop, Ended, returned, not_yet, Turn, again, stop, held, emit, access_token, connect_and_run,
  slept, sleep_context, retry, is_spent, after, pass, follow, supervisor,
}
use fngo.Xmpp.Supervisor.Failing.{IsDocumented, Fails, tokened-Fails}

-- the supervisor makes another pass
abbrev pub reconnects : Turn → Bool
reconnects again = true
reconnects stop = false
reconnects held = false

module _ {W : Type 0} (n : ℕ) (cfg : Config) (env : Env W) where
  -- a pass that goes on has counted, within the budget
  abbrev Within : ℕ → Loop W → Turn × Loop W → Type 0
  Within m s (again, t) = (t.failures ≡ s.failures + 1) × (t.failures ≤ suc m)
  Within m s (stop, t) = Unit
  Within m s (held, t) = Unit

  slept-Within :
      (m : ℕ) (s t : Loop W) (r : Bool × W)
      → t.failures ≡ s.failures + 1
      → t.failures ≤ suc m
      → Within m s (slept n cfg env t r)
  slept-Within m s t (true, w) h k = (h, k)
  slept-Within m s t (false, w) h k = tt

  within_budget :
      (m f : ℕ)
      → cfg.max_reconnect_attempts ≡ pos (suc m)
      → is_spent cfg.max_reconnect_attempts f ≡ false
      → f ≤ suc m
  unfolding is_spent
  within_budget m f h b = ground arith

  retry-Within :
      (m : ℕ) (s t : Loop W) (x : String)
      → cfg.max_reconnect_attempts ≡ pos (suc m)
      → t.failures ≡ s.failures
      → Within m s (retry n cfg env t x)
  unfolding retry
  retry-Within m s t x h k =
      elim (Bool-cases (is_spent cfg.max_reconnect_attempts (t.failures + 1))) [
        | inl b ↦ rw b tt
        | inr b ↦ rw b (
            let delay =
              exponential (pos t.failures) cfg.min_reconnect_delay cfg.max_reconnect_delay in
            let told =
              emit n cfg env (Kind.xmpp_reconnecting (pos (t.failures + 1)) delay x)
                (record t { failures = t.failures + 1 }) in
            slept-Within m s (emit n cfg env (Kind.xmpp_error (some x) false) told)
              (sleep_context n cfg env delay t.world) (ap (λ i. i + 1) k)
              (within_budget m (t.failures + 1) h b))
      ]

  after-Within :
      (m : ℕ) (s : Loop W) (x : Ended × Loop W)
      → cfg.max_reconnect_attempts ≡ pos (suc m)
      → Fails n cfg env s x
      → Within m s (after n cfg env x)
  unfolding after
  after-Within m s (not_yet, t) h k = tt
  after-Within m s (returned none, t) h k = absurd k
  after-Within m s (returned (some canceled), t) h k = tt
  after-Within m s (returned (some (other x)), t) h k = retry-Within m s t x h k

  pass-Within :
      (m : ℕ) (s : Loop W)
      → ((w : W) → All IsDocumented (env.session w).0)
      → cfg.max_reconnect_attempts ≡ pos (suc m)
      → Within m s (pass n cfg env s)
  unfolding pass connect_and_run
  pass-Within m s d h = elim (Bool-cases (is_some (env.context_error s.world))) [
    | inl b ↦ rw b tt
    | inr b ↦ rw b (
        after-Within m s (connect_and_run n cfg env s) h
          (tokened-Fails n cfg env d s (access_token n cfg env env.access_token s.world)))
  ]

  follow-settled :
      (m k : ℕ) (s : Loop W) (x : Turn × Loop W)
      → Within m s x
      → suc (suc m) ≤ s.failures + suc k
      → ((t : Loop W)
          → t.failures ≤ suc m
          → suc (suc m) ≤ t.failures + k
          → reconnects (supervisor n cfg env k t).0 ≡ false)
      → reconnects (follow n cfg env (supervisor n cfg env k) x).0 ≡ false
  follow-settled m k s (stop, t) h l next = refl
  follow-settled m k s (held, t) h l next = refl
  follow-settled m k s (again, t) (h, b) l next = next t b (omega (arith, h, l))

  -- If MaxReconnectAttempts is positive and an ended context has an error (as its documentation says),
  -- then after that many passes and one more, less the failures counted before, the supervisor does
  -- not connect again: it has ended, or its last connection has not. That holds also if each connection
  -- was established and read frames, since none of the three loops reports nil and so the code never
  -- sets the count of failures back.
  pub supervisor-settled :
      (m k : ℕ) (s : Loop W)
      → ((w : W) → All IsDocumented (env.session w).0)
      → cfg.max_reconnect_attempts ≡ pos (suc m)
      → s.failures ≤ suc m
      → suc (suc m) ≤ s.failures + k
      → reconnects (supervisor n cfg env k s).0 ≡ false
  unfolding supervisor
  supervisor-settled m zero s d h a b = absurd (omega (arith, a, b))
  supervisor-settled m (suc k) s d h a b =
      follow-settled m k s (pass n cfg env s) (pass-Within m s d h) b
        λ t. supervisor-settled m k t d h
