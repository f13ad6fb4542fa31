-- ===== src/Xmpp/Supervisor.antt =====
-- xmpp/client.go: one connection, from its token to its end, and the supervisor that connects again.
-- `Emit`'s answers are ignored, so the events are listed in order. A frame that `readLoop` still handles
-- after another loop has failed is left out, and so is what the two dispatchers do with a frame: that is
-- Party/Decoder and Friends/Decoder.
pub mod Failing
pub mod Budget
use fngo.Prelude.{
  ℕ, zero, suc, ◌+◌, ◌==◌, string_eq, String, Bool, true, false, ◌&&◌, ◌||◌, Option, none, some,
  List, [], ◌∷◌, ◌++◌, text_append, is_some, if◌then◌else◌,
}
use fngo.Prelude.Int.{ℤ, pos, leb_ℤ, ltb_ℤ}
use fngo.GoStrings.{trim_space}
use fngo.Backoff.{Duration, exponential}
use fngo.Events
use fngo.Events.{Event, Kind}
use fngo.Xmpp.{Stanza, StanzaKind, message, presence, iq, raw}
use fngo.Xmpp.Frames.{frame_events}
use fngo.Xmpp.Handshake.{
  Error, canceled, other, text_of, Answer, value, failure, Signal, read, wrote, ended, ticked, Env,
  Config, Result, done, waiting, fails, write_frame, perform_handshake,
}

-- the world, the supervisor's counter, and the events so far
pub record Loop (W : Type 0) : Type 0 where
  pub world : W
  pub failures : ℕ
  pub events : List Event

-- what connectAndRun returns, or nothing yet: it waits for a frame of the handshake, or its loops run
pub data Ended : Type 0 where
  returned : Option Error → Ended
  not_yet : Ended

abbrev told : Option Error → Option String
told none = none
told (some e) = some (text_of e)

-- `continue`, the end of the supervisor, or a connection that has not ended
pub data Turn : Type 0 where
  again stop held : Turn

-- MaxReconnectAttempts is set, and there are more failures
unfoldable pub is_spent : ℤ → ℕ → Bool
is_spent budget failures = ltb_ℤ (pos 0) budget && ltb_ℤ budget (pos failures)

module _ {W : Type 0} (n : ℕ) (cfg : Config) (env : Env W) where
  abbrev pub emit : Kind → Loop W → Loop W
  emit kind s = record s {
    events = s.events ++ (record { at = env.now s.world; kind = kind } ∷ []);
  }

  abbrev pub emit_kinds : List Kind → Loop W → Loop W
  emit_kinds [] s = s
  emit_kinds (k ∷ l) s = emit_kinds l (emit k s)

  abbrev pub at_world : Loop W → W → Loop W
  at_world s w = record s { world = w }

  -- the first value on `errCh`, and what readLoop emits before it
  abbrev pub run_loops : List Signal → Loop W → Option (Option Error) × Loop W
  unfolding frame_events
  run_loops [] s = (none, s)
  run_loops (read (value f) ∷ l) s = run_loops l (emit_kinds (frame_events env.xml f) s)
  run_loops (read (failure e) ∷ l) s = (some (some e), s)
  run_loops (wrote none ∷ l) s = run_loops l s
  run_loops (wrote (some e) ∷ l) s = (some (some e), s)
  run_loops (ended e ∷ l) s = (some e, s)
  run_loops (ticked room ∷ l) s =
      let rest = run_loops l s in
      if room || leb_ℤ cfg.keep_alive_interval (pos 0)
      then rest
      else (some (some (other "xmpp: keepalive queue is full")), s)

  -- the connection is closed
  abbrev pub closed : Option (Option Error) × Loop W → Ended × Loop W
  closed (none, s) = (not_yet, s)
  closed (some e, s) =
      (returned e, emit (Kind.xmpp_disconnected (told e)) (at_world s (env.close s.world)))

  abbrev pub connected : Loop W → Ended × Loop W
  unfolding run_loops
  connected s =
      let opened = emit (Kind.xmpp_connected cfg.endpoint) s in
      let (signals, w) = env.session opened.world in closed (run_loops signals (at_world opened w))

  -- the handshake's end: its error closes the connection
  abbrev pub greeted : Loop W → (Loop W → Ended × Loop W) → Result × W → Ended × Loop W
  greeted s next (done, w) = next (at_world s w)
  greeted s next (waiting, w) = (not_yet, at_world s w)
  greeted s next (fails e, w) = (returned (some e), at_world s (env.close w))

  abbrev pub send_presence : Loop W → Ended × Loop W
  unfolding connected
  send_presence s = greeted s connected (write_frame env "<presence/>" s.world)

  abbrev pub dialled : String → Loop W → Answer (Unit {0}) × W → Ended × Loop W
  unfolding send_presence perform_handshake connected
  dialled token s (failure e, w) = (returned (some e), at_world s w)
  dialled token s (value _, w) =
      if cfg.enable_handshake
      then greeted s send_presence (perform_handshake env n cfg token w)
      else connected (at_world s w)

  abbrev pub authorization : String → Option String
  authorization token = if token == "" then none else some (text_append "Bearer " token)

  abbrev pub tokened : Loop W → Answer String × W → Ended × Loop W
  unfolding dialled
  tokened s (failure e, w) = (returned (some e), at_world s w)
  tokened s (value token, w) =
      dialled token (at_world s w) (env.dial cfg.endpoint (authorization token) w)

  -- accessToken
  abbrev pub access_token : Option (W → Answer String × W) → W → Answer String × W
  access_token none w = (value "", w)
  access_token (some source) w = source w

  unfoldable pub connect_and_run : Loop W → Ended × Loop W
  unfolding tokened
  connect_and_run s = tokened s (access_token env.access_token s.world)

  abbrev pub slept : Loop W → Bool × W → Turn × Loop W
  slept s (true, w) = (again, at_world s w)
  slept s (false, w) = (stop, at_world s w)

  -- sleepContext
  abbrev pub sleep_context : Duration → W → Bool × W
  sleep_context d w = if leb_ℤ d (pos 0) then (true, w) else env.sleep d w

  abbrev budget_text : ℕ → String → String
  budget_text attempts m =
      text_append
        (text_append "xmpp: reconnect attempts exhausted: attempts=" (env.decimal attempts))
        (text_append " last_error=" m)

  -- after an error that is not the end of the context
  unfoldable pub retry : Loop W → String → Turn × Loop W
  retry s m =
      let failures = s.failures + 1 in
      let delay = exponential (pos s.failures) cfg.min_reconnect_delay cfg.max_reconnect_delay in
      let told =
        emit (Kind.xmpp_reconnecting (pos failures) delay m) (record s { failures = failures }) in
      let failed = emit (Kind.xmpp_error (some m) false) told in
      if is_spent cfg.max_reconnect_attempts failures
      then (stop, emit (Kind.xmpp_error (some (budget_text s.failures m)) true) told)
      else slept failed (sleep_context delay failed.world)

  unfoldable pub after : Ended × Loop W → Turn × Loop W
  unfolding retry
  after (not_yet, s) = (held, s)
  after (returned none, s) = (again, record s { failures = 0 })
  after (returned (some canceled), s) = (stop, s)
  after (returned (some (other m)), s) = retry s m

  -- one pass of the `for`
  unfoldable pub pass : Loop W → Turn × Loop W
  unfolding connect_and_run after
  pass s = if is_some (env.context_error s.world) then (stop, s) else after (connect_and_run s)

  abbrev pub follow : (Loop W → Turn × Loop W) → Turn × Loop W → Turn × Loop W
  follow next (again, s) = next s
  follow next (stop, s) = (stop, s)
  follow next (held, s) = (held, s)

  -- `k` passes of the supervisor, or fewer if it ends
  unfoldable pub supervisor : ℕ → Loop W → Turn × Loop W
  unfolding pass
  supervisor zero s = (again, s)
  supervisor (suc k) s = follow (supervisor k) (pass s)
