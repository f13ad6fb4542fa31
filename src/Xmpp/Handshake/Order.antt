-- ===== src/Xmpp/Handshake/Order.antt =====
-- xmpp/client.go: the frames of the handshake, in both directions and in their order.
use mathlib.Core.List.{append-nil}
use fngo.Prelude.{
  ℕ, zero, suc, ◌==◌, string_eq, refl, sym, String, Bool, true, false, Option, none, some, List, [],
  ◌∷◌, if◌then◌else◌, Bool-cases, inl, inr,
}
use fngo.Xmpp.Handshake.{
  Error, other, Answer, value, failure, Frame, Env, Config, Result, done, waiting, fails, text_or,
  username_from_jid, open_frame, bind_frame, session_frame, opens, succeeds, answers, M, continue,
  written, matched, unless_done, wait_for, exchange, perform_handshake,
}
use fngo.Xmpp.Handshake.Log.{
  sent, Entry, Logged, Step, Answered, InOrder, Said, Said-cut, Said-entered, steps_of, logged,
  behind, entered, heard, got, domain_of, auth_frame,
}

module _ {W : Type 0} (env : Env W) (fits : String → Bool) (next : M (logged env)) where
  module _ (rest : Result → List Entry → Type 0) (h : (t : Logged W) → Said rest t (next t)) where
    heard-Said :
        (n : ℕ) (t : Logged W) (r : Answer Frame × W)
        → ((t : Logged W)
            → Said
                (Answered fits rest)
                t
                (continue (logged env) (wait_for (logged env) n fits t) next))
        → Said (Answered fits rest) t (
            continue
              (logged env)
              (matched (logged env) fits (wait_for (logged env) n fits) (heard t r))
              next)
    heard-Said n t (failure e, w) k = Said-cut (Answered fits rest) t (fails e) w tt
    heard-Said n t (value frame, w) k =
        let u = entered (got frame.payload) (record t { world = w }) in
        elim (Bool-cases (fits frame.payload)) [
          | inl b ↦ rw b (
              Said-entered rest (Answered fits rest) (got frame.payload) t w (next u)
                (λ r l p. rw b p) (h u))
          | inr b ↦ rw b (
              Said-entered (Answered fits rest) (Answered fits rest) (got frame.payload) t w
                (continue (logged env) (wait_for (logged env) n fits u) next) (λ r l p. rw b p)
                (k u))
        ]

    checked-Said :
        (n : ℕ) (t : Logged W) (o : Option Error)
        → ((t : Logged W)
            → Said
                (Answered fits rest)
                t
                (continue (logged env) (wait_for (logged env) n fits t) next))
        → Said (Answered fits rest) t (
            continue
              (logged env)
              (unless_done
                (logged env)
                o
                (λ t.
                  matched
                    (logged env)
                    fits
                    (wait_for (logged env) n fits)
                    (heard t (env.read t.world)))
                t)
              next)
    checked-Said n t (some e) k = Said-cut (Answered fits rest) t (fails e) t.world tt
    checked-Said n t none k = heard-Said n t (env.read t.world) k

    wait_for-Said :
        (n : ℕ) (t : Logged W)
        → Said (Answered fits rest) t (continue (logged env) (wait_for (logged env) n fits t) next)
    unfolding wait_for
    wait_for-Said zero t = Said-cut (Answered fits rest) t waiting t.world tt
    wait_for-Said (suc n) t = checked-Said n t (env.context_error t.world) (wait_for-Said n)

  module _ (steps : List Step) (h : (t : Logged W) → Said (InOrder steps) t (next t)) where
    written-Said :
        (n : ℕ) (frame : String) (t : Logged W) (r : Option Error × W)
        → Said (InOrder ((frame, fits) ∷ steps)) t (
            continue
              (logged env)
              (continue
                (logged env)
                (written (logged env) (behind (entered (sent frame) t) r))
                (wait_for (logged env) n fits))
              next)
    written-Said n frame t (some e, w) = (sent frame ∷ [], refl, (refl, tt))
    written-Said n frame t (none, w) =
        let u = entered (sent frame) (record t { world = w }) in
        Said-entered (Answered fits (InOrder steps)) (InOrder ((frame, fits) ∷ steps)) (sent frame)
          t w (continue (logged env) (wait_for (logged env) n fits u) next) (λ r l p. (refl, p))
          (wait_for-Said (InOrder steps) h n u)

    exchange-Said :
        (n : ℕ) (frame : String) (t : Logged W)
        → Said (InOrder ((frame, fits) ∷ steps)) t (exchange (logged env) n frame fits next t)
    unfolding exchange
    exchange-Said n frame t = written-Said n frame t (env.write frame t.world)

module _ {W : Type 0} (env : Env W) where
  done-Said : (t : Logged W) → Said (InOrder []) t (done, t)
  done-Said t = ([], sym (append-nil t.log), (refl, refl))

  guarded-Said :
      (P : Result → List Entry → Type 0) (b : Bool) (e : Error) (t : Logged W)
      (x : Result × Logged W)
      → P (fails e) []
      → Said P t x
      → Said P t (if b then (fails e, t) else x)
  guarded-Said P true e t x p q = Said-cut P t (fails e) t.world p
  guarded-Said P false e t x p q = q

  -- Whatever the server and the connection do, the handshake sends its five frames in their order
  -- (open, the credentials, open, bind, session), each of them only after a frame that answers the
  -- one before it, and it succeeds only if each of them was sent and answered.
  pub perform_handshake-InOrder :
      (n : ℕ) (cfg : Config) (token : String) (t : Logged W)
      → Said
          (InOrder (steps_of env.base64 cfg token))
          t
          (perform_handshake (logged env) n cfg token t)
  unfolding perform_handshake
  perform_handshake-InOrder n cfg token t =
      let domain = domain_of cfg in
      let session =
        exchange (logged env) n (session_frame domain) (answers "sess_1") (λ w. (done, w)) in
      let bind = exchange (logged env) n (bind_frame cfg.resource) (answers "bind_1") session in
      let reopen = exchange (logged env) n (open_frame domain) opens bind in
      let auth = exchange (logged env) n (auth_frame env.base64 cfg token) succeeds reopen in
      let sessions = (session_frame domain, answers "sess_1") ∷ [] in
      let binds = (bind_frame cfg.resource, answers "bind_1") ∷ sessions in
      let reopens = (open_frame domain, opens) ∷ binds in
      let auths = (auth_frame env.base64 cfg token, succeeds) ∷ reopens in
      let order = InOrder (steps_of env.base64 cfg token) in
      guarded-Said order (text_or cfg.username (username_from_jid cfg.jid) == "")
        (other "xmpp: username is required for handshake") t _ tt
        (guarded-Said order (token == "") (other "xmpp: access token is required for handshake") t _
          tt
          (exchange-Said env opens auth auths
            (exchange-Said env succeeds reopen reopens
              (exchange-Said env opens bind binds
                (exchange-Said env (answers "bind_1") session sessions
                  (exchange-Said env (answers "sess_1") (λ w. (done, w)) [] done-Said n
                    (session_frame domain))
                  n (bind_frame cfg.resource))
                n (open_frame domain))
              n (auth_frame env.base64 cfg token))
            n (open_frame domain) t))
