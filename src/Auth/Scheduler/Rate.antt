-- ===== src/Auth/Scheduler/Rate.antt =====
-- auth/scheduler.go: how often the loop asks for new tokens.
use native.Mathlib.Nat.{add-mul, one-mul, mul-le-mul_right}
use fngo.Prelude.{
  ℕ, zero, suc, ◌+◌, ◌*◌, ◌≤◌, ◌≡◌, refl, arith, String, Bool, true, false, Option, none, some,
  Bool-cases, text_append, inl, inr, ◌⊎◌,
}
use fngo.Prelude.Int.{pos, pos_part}
use fngo.GoTime.{Time}
use fngo.Backoff.{Duration, exponential}
use fngo.Transport.Types.{Reply, value, failure}
use fngo.Events.{Kind}
use fngo.Auth.{TokenSet}
use fngo.Auth.Scheduler.{
  Refreshed, renewed, refused, Env, SchedulerConfig, Loop, Turn, again, stop, emit, at_world,
  waits_for, resume, wait_then, go_on, saved, refreshed, reloaded, reload, delay_of, loaded, turn,
  follow, run,
}

-- the world behind, with the time waited and the refreshes asked for
pub record Clocked (W : Type 0) : Type 0 where
  pub world : W
  pub waited : ℕ
  pub refreshes : ℕ

module _ {W : Type 0} where
  abbrev behind : {A : Type 0} → Clocked W → A × W → A × Clocked W
  behind t (a, w) = (a, record t { world = w })

  -- a wait that the context ends does not count
  abbrev timed : Clocked W → Duration → Bool × W → Bool × Clocked W
  timed t d (true, w) = (true, record t { world = w; waited = t.waited + pos_part d })
  timed t d (false, w) = (false, record t { world = w })

  -- the same world, counting
  abbrev pub clocked : Env W → Env (Clocked W)
  clocked env = record {
    cancelled = λ t. env.cancelled t.world;
    load = λ t. behind t (env.load t.world);
    save = λ tokens t. behind t (env.save tokens t.world);
    refresh =
        λ tokens t. behind (record t { refreshes = t.refreshes + 1 }) (env.refresh tokens t.world);
    now = λ t. env.now t.world;
    wait = λ d t. timed t d (env.wait d t.world);
  }

  -- no refresh since `t`
  abbrev Quiet : Clocked W → Turn × Loop (Clocked W) → Type 0
  Quiet t x = (x.1.world.refreshes ≡ t.refreshes) × (t.waited ≤ x.1.world.waited)

  -- at most one
  abbrev Once : Clocked W → Turn × Loop (Clocked W) → Type 0
  Once t x = (x.1.world.refreshes ≤ t.refreshes + 1) × (t.waited ≤ x.1.world.waited)

  -- at most one, and that after a wait of `m` at least
  abbrev Paced : ℕ → Clocked W → Turn × Loop (Clocked W) → Type 0
  Paced m t x =
      Quiet t x ⊎ ((x.1.world.refreshes ≤ t.refreshes + 1) × (t.waited + m ≤ x.1.world.waited))

  -- `m` for each refresh is within the time waited
  abbrev pub Spaced : ℕ → Clocked W → Turn × Loop (Clocked W) → Type 0
  Spaced m t x = x.1.world.refreshes * m + t.waited ≤ t.refreshes * m + x.1.world.waited

module _ {W : Type 0} (cfg : SchedulerConfig) (env : Env W) where
  wait-Quiet :
      (t : Clocked W) (s : Loop (Clocked W)) (d : Duration) (r : Bool × W)
      → Quiet t (resume cfg (clocked env) s (go_on cfg (clocked env)) (timed t d r))
  wait-Quiet t s d (true, w) = (refl, omega arith)
  wait-Quiet t s d (false, w) = (refl, omega arith)

  wait_then-Quiet :
      (d : Duration) (s : Loop (Clocked W))
      → Quiet s.world (wait_then cfg (clocked env) d (go_on cfg (clocked env)) s)
  wait_then-Quiet d s =
      wait-Quiet s.world s (waits_for cfg env d) (env.wait (waits_for cfg env d) s.world.world)

  -- the state with the world of a call's answer
  abbrev moved : Loop (Clocked W) → Clocked W → W → Loop (Clocked W)
  moved s t w = record s { world = record t { world = w } }

  saved-Quiet :
      (t : Clocked W) (s : Loop (Clocked W)) (tokens : TokenSet) (r : Option String × W)
      → Quiet t (saved cfg (clocked env) tokens s (behind t r))
  saved-Quiet t s tokens (none, w) = (refl, omega arith)
  saved-Quiet t s tokens (some m, w) = (refl, omega arith)

  refreshed-Quiet :
      (t : Clocked W) (s : Loop (Clocked W)) (r : Refreshed × W)
      → Quiet t (refreshed cfg (clocked env) s (behind t r))
  refreshed-Quiet t s (renewed tokens, w) =
      saved-Quiet (record t { world = w }) (moved s t w) tokens (env.save tokens w)
  refreshed-Quiet t s (refused true m, w) = (refl, omega arith)
  refreshed-Quiet t s (refused false m, w) =
      wait_then-Quiet
        (exponential (pos s.refresh_failures) cfg.refresh_retry_min_backoff
          cfg.refresh_retry_max_backoff)
        (record (emit cfg (clocked env) (Kind.auth_refresh_failed m) (moved s t w)) {
          refresh_failures = s.refresh_failures + 1;
        })

  reloaded-Once :
      (t : Clocked W) (s : Loop (Clocked W)) (r : Reply (Option TokenSet) × W)
      → Once t (reloaded cfg (clocked env) s (behind t r))
  reloaded-Once t s (failure m, w) = (omega arith, omega arith)
  reloaded-Once t s (value none, w) = (omega arith, omega arith)
  reloaded-Once t s (value (some tokens), w) =
      let (same, later) =
        refreshed-Quiet (record t { world = w; refreshes = t.refreshes + 1 })
          (at_world cfg (clocked env) s (record t { world = w })) (env.refresh tokens w) in
      (omega (arith, same), later)

  resume-Paced :
      (m : ℕ) (t : Clocked W) (s : Loop (Clocked W)) (d : Duration) (r : Bool × W)
      → m ≤ pos_part d
      → Paced m t (resume cfg (clocked env) s (reload cfg (clocked env)) (timed t d r))
  resume-Paced m t s d (false, w) h = inl (refl, omega arith)
  resume-Paced m t s d (true, w) h =
      let (once, later) =
        reloaded-Once (record t { world = w; waited = t.waited + pos_part d })
          (at_world cfg (clocked env) s (record t { world = w; waited = t.waited + pos_part d }))
          (env.load w) in
      inr (once, omega (arith, later))

  delay-long :
      (m : ℕ) (tokens : TokenSet) (now : Time)
      → cfg.min_refresh_interval ≡ pos m
      → m ≤ pos_part (waits_for cfg env (delay_of cfg env tokens now))
  unfolding delay_of
  delay-long m tokens now h = ground arith

  loaded-Paced :
      (m : ℕ) (t : Clocked W) (s : Loop (Clocked W)) (r : Reply (Option TokenSet) × W)
      → cfg.min_refresh_interval ≡ pos m
      → Paced m t (loaded cfg (clocked env) s (behind t r))
  unfolding loaded
  loaded-Paced m t s (failure x, w) h = inl (
      wait_then-Quiet cfg.min_refresh_interval (
        emit cfg (clocked env) (Kind.auth_refresh_failed (text_append "load token set: " x))
          (moved s t w)))
  loaded-Paced m t s (value none, w) h =
      inl (wait_then-Quiet cfg.min_refresh_interval (moved s t w))
  loaded-Paced m t s (value (some tokens), w) h =
      let d = waits_for cfg env (delay_of cfg env tokens (env.now w)) in
      resume-Paced m (record t { world = w }) (moved s t w) d (env.wait d w)
        (delay-long m tokens (env.now w) h)

  turn-Paced :
      (m : ℕ) (s : Loop (Clocked W))
      → cfg.min_refresh_interval ≡ pos m
      → Paced m s.world (turn cfg (clocked env) s)
  unfolding turn
  turn-Paced m s h = elim (Bool-cases (env.cancelled s.world.world)) [
    | inl b ↦ rw b (inl (refl, omega arith))
    | inr b ↦ rw b (loaded-Paced m s.world s (env.load s.world.world) h)
  ]

  Paced-Spaced : (m : ℕ) (t : Clocked W) (x : Turn × Loop (Clocked W)) → Paced m t x → Spaced m t x
  Paced-Spaced m t x (inl (same, later)) = rw same (omega (arith, later))
  Paced-Spaced m t x (inr (once, later)) =
      omega (arith, mul-le-mul_right m once, add-mul t.refreshes 1 m, one-mul m, later)

  follow-Spaced :
      (m : ℕ) (t : Clocked W) (n : ℕ) (x : Turn × Loop (Clocked W))
      → Spaced m t x
      → ((s : Loop (Clocked W)) → Spaced m s.world (run cfg (clocked env) n s))
      → Spaced m t (follow cfg (clocked env) (run cfg (clocked env) n) x)
  follow-Spaced m t n (stop, s) h k = h
  follow-Spaced m t n (again, s) h k = omega (arith, h, k s)

  -- However many passes the loop makes, whatever the store and the refresher answer, the refreshes
  -- that it asks for, times the least refresh interval, stay within the time that it has waited.
  pub run-Spaced :
      (m : ℕ) (n : ℕ) (s : Loop (Clocked W))
      → cfg.min_refresh_interval ≡ pos m
      → Spaced m s.world (run cfg (clocked env) n s)
  unfolding run
  run-Spaced m zero s h = omega arith
  run-Spaced m (suc n) s h =
      follow-Spaced m s.world n (turn cfg (clocked env) s)
        (Paced-Spaced m s.world (turn cfg (clocked env) s) (turn-Paced m s h))
        λ t. run-Spaced m n t h
