-- ===== src/Auth/Scheduler.antt =====
-- auth/scheduler.go: the loop that renews tokens before they expire. The token store and the
-- refresher are interfaces there. `Emit`'s answers are ignored, so the events are listed in order.
pub mod Rate
use fngo.Prelude.{
  ℕ, zero, suc, ◌+◌, ◌-◌, ◌^◌, String, Bool, true, false, Option, none, some, List, [], ◌∷◌, ◌++◌,
  leb, text_append, if◌then◌else◌,
}
use fngo.Prelude.Int.{ℤ, pos, negsuc, leb_ℤ, ltb_ℤ, ◌-ℤ◌}
use fngo.GoTime.{Time}
use fngo.Backoff.{Duration, exponential}
use fngo.Transport.Types.{Reply, value, failure}
use fngo.Events.{Event, Kind}
use fngo.Auth.{TokenSet}

-- a refresh that fails says whether `IsFatal` holds of its error
pub data Refreshed : Type 0 where
  renewed : TokenSet → Refreshed
  refused : Bool → String → Refreshed

pub record Env (W : Type 0) : Type 0 where
  -- ctx.Err() != nil
  pub cancelled : W → Bool
  -- TokenStore.Load, with `none` for not ok
  pub load : W → Reply (Option TokenSet) × W
  -- TokenStore.Save, with `none` for no error
  pub save : TokenSet → W → Option String × W
  pub refresh : TokenSet → W → Refreshed × W
  pub now : W → Time
  -- the `select`: false if the context is done first
  pub wait : Duration → W → Bool × W

pub record SchedulerConfig : Type 0 where
  pub refresh_skew : Duration
  pub min_refresh_interval : Duration
  pub refresh_retry_min_backoff : Duration
  pub refresh_retry_max_backoff : Duration

abbrev or_default : Duration → Duration → Duration
or_default d given = if leb_ℤ d (pos 0) then given else d

-- the defaults of NewRefreshScheduler
unfoldable pub with_defaults : SchedulerConfig → SchedulerConfig
with_defaults cfg =
    let lo = or_default cfg.refresh_retry_min_backoff (pos 250000000) in
    let hi = or_default cfg.refresh_retry_max_backoff (pos 5000000000) in
    record {
      refresh_skew = or_default cfg.refresh_skew (pos 30000000000);
      min_refresh_interval = or_default cfg.min_refresh_interval (pos 1000000000);
      refresh_retry_min_backoff = lo;
      refresh_retry_max_backoff = if ltb_ℤ hi lo then lo else hi;
    }

-- time.Sub, which stays within an int64
abbrev sub_time : Time → Time → Duration
unfolding ◌-ℤ◌
sub_time a b =
    let d = a -ℤ b in
    if leb_ℤ (pos (2 ^ 63)) d
    then pos (2 ^ 63 - 1)
    else if ltb_ℤ d (negsuc (2 ^ 63 - 1))
    then negsuc (2 ^ 63 - 1)
    else d

-- the world, the counter `refreshFailures`, and the events so far
pub record Loop (W : Type 0) : Type 0 where
  pub world : W
  pub refresh_failures : ℕ
  pub events : List Event

-- `continue`, or the end of `Run`
pub data Turn : Type 0 where
  again stop : Turn

module _ {W : Type 0} (cfg : SchedulerConfig) (env : Env W) where
  abbrev pub emit : Kind → Loop W → Loop W
  emit kind s = record s {
    events = s.events ++ (record { at = env.now s.world; kind = kind } ∷ []);
  }

  abbrev pub at_world : Loop W → W → Loop W
  at_world s w = record s { world = w }

  -- the duration that `wait` takes
  abbrev pub waits_for : Duration → Duration
  waits_for d = if leb_ℤ d (pos 0) then cfg.min_refresh_interval else d

  -- if !s.wait(ctx, d) { return }
  abbrev pub resume : Loop W → (Loop W → Turn × Loop W) → Bool × W → Turn × Loop W
  resume s next (false, w) = (stop, at_world s w)
  resume s next (true, w) = next (at_world s w)

  abbrev pub wait_then : Duration → (Loop W → Turn × Loop W) → Loop W → Turn × Loop W
  wait_then d next s = resume s next (env.wait (waits_for d) s.world)

  abbrev pub go_on : Loop W → Turn × Loop W
  go_on s = (again, s)

  abbrev pub saved : TokenSet → Loop W → Option String × W → Turn × Loop W
  saved updated s (some m, w) =
      go_on (emit (Kind.auth_refresh_failed (text_append "save token set: " m)) (at_world s w))
  saved updated s (none, w) =
      go_on (
        emit (Kind.auth_refreshed updated.expires_at)
          (record s { world = w; refresh_failures = 0 }))

  abbrev pub refreshed : Loop W → Refreshed × W → Turn × Loop W
  refreshed s (renewed updated, w) = saved updated (at_world s w) (env.save updated w)
  refreshed s (refused true m, w) = (stop, emit (Kind.auth_fatal m) (at_world s w))
  refreshed s (refused false m, w) =
      wait_then
        (exponential (pos s.refresh_failures) cfg.refresh_retry_min_backoff
          cfg.refresh_retry_max_backoff)
        go_on
        (record (emit (Kind.auth_refresh_failed m) (at_world s w)) {
          refresh_failures = s.refresh_failures + 1;
        })

  -- the second load, after the wait
  abbrev pub reloaded : Loop W → Reply (Option TokenSet) × W → Turn × Loop W
  reloaded s (failure m, w) =
      go_on (emit (Kind.auth_refresh_failed (text_append "reload token set: " m)) (at_world s w))
  reloaded s (value none, w) = go_on (at_world s w)
  reloaded s (value (some current), w) = refreshed (at_world s w) (env.refresh current w)

  abbrev pub reload : Loop W → Turn × Loop W
  reload s = reloaded s (env.load s.world)

  -- how long the tokens are good for, but not less than the least interval
  abbrev pub delay_of : TokenSet → Time → Duration
  unfolding ◌-ℤ◌
  delay_of tokens now =
      let delay = sub_time (tokens.expires_at -ℤ cfg.refresh_skew) now in
      if ltb_ℤ delay cfg.min_refresh_interval then cfg.min_refresh_interval else delay

  abbrev pub loaded : Loop W → Reply (Option TokenSet) × W → Turn × Loop W
  unfolding delay_of
  loaded s (failure m, w) =
      wait_then cfg.min_refresh_interval go_on
        (emit (Kind.auth_refresh_failed (text_append "load token set: " m)) (at_world s w))
  loaded s (value none, w) = wait_then cfg.min_refresh_interval go_on (at_world s w)
  loaded s (value (some tokens), w) = wait_then (delay_of tokens (env.now w)) reload (at_world s w)

  -- one pass of the `for`
  unfoldable pub turn : Loop W → Turn × Loop W
  unfolding loaded
  turn s = if env.cancelled s.world then (stop, s) else loaded s (env.load s.world)

  -- `n` passes, or fewer if `Run` ends; `Run` itself goes on until the context is done or an error
  -- is fatal
  abbrev pub follow : (Loop W → Turn × Loop W) → Turn × Loop W → Turn × Loop W
  follow next (stop, s) = (stop, s)
  follow next (again, s) = next s

  unfoldable pub run : ℕ → Loop W → Turn × Loop W
  unfolding turn
  run zero s = (again, s)
  run (suc n) s = follow (run n) (turn s)
