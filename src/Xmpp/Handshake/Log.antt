-- ===== src/Xmpp/Handshake/Log.antt =====
-- xmpp/client.go: the frames of the handshake as a log, and what the log has to look like.
use mathlib.Core.List.{append_assoc, append-nil}
use fngo.Prelude.{
  string_eq, ◌≡◌, sym, ◌∙◌, String, Bool, Option, none, some, List, [], ◌∷◌, ◌++◌, if◌then◌else◌,
}
use fngo.Xmpp.Handshake.{
  Answer, value, failure, Frame, Env, Config, Result, done, waiting, fails, text_or,
  domain_from_jid, username_from_jid, concat, open_frame, bind_frame, session_frame, opens,
  succeeds, answers,
}

pub data Entry : Type 0 where
  sent got : String → Entry

-- the world behind, with the frames so far
pub record Logged (W : Type 0) : Type 0 where
  pub world : W
  pub log : List Entry

-- a frame that is sent, and what the frame that answers it has to satisfy
abbrev pub Step : Type 0
Step = String × (String → Bool)

abbrev pub IsCut : Result → Type 0
IsCut done = ⊥
IsCut waiting = Unit
IsCut (fails e) = Unit

abbrev pub domain_of : Config → String
domain_of cfg = text_or (text_or cfg.domain (domain_from_jid cfg.jid)) "prod.ol.epicgames.com"

abbrev pub auth_frame : (String → String) → Config → String → String
auth_frame base64 cfg token = concat (
    "<auth xmlns='urn:ietf:params:xml:ns:xmpp-sasl' mechanism='PLAIN'>"
    ∷ base64 (concat ("\0" ∷ text_or cfg.username (username_from_jid cfg.jid) ∷ "\0" ∷ token ∷ []))
    ∷ "</auth>"
    ∷ [])

-- the handshake: open, authenticate, open again, bind the resource, start the session
abbrev pub steps_of : (String → String) → Config → String → List Step
steps_of base64 cfg token =
    (open_frame (domain_of cfg), opens)
    ∷ (auth_frame base64 cfg token, succeeds)
    ∷ (open_frame (domain_of cfg), opens)
    ∷ (bind_frame cfg.resource, answers "bind_1")
    ∷ (session_frame (domain_of cfg), answers "sess_1")
    ∷ []

-- frames are skipped up to the first that fits, or the log ends before
abbrev pub Answered :
    (String → Bool) → (Result → List Entry → Type 0) → Result → List Entry → Type 0
Answered fits rest r [] = IsCut r
Answered fits rest r (sent s ∷ l) = ⊥
Answered fits rest r (got s ∷ l) = if fits s then rest r l else Answered fits rest r l

-- each frame is sent after the one before it was answered; `done` if all of them were
abbrev pub InOrder : List Step → Result → List Entry → Type 0
InOrder [] r l = (r ≡ done) × (l ≡ [])
InOrder (step ∷ steps) r [] = IsCut r
InOrder (step ∷ steps) r (got s ∷ l) = ⊥
InOrder (step ∷ steps) r (sent s ∷ l) = (s ≡ step.0) × Answered step.1 (InOrder steps) r l

module _ {W : Type 0} where
  abbrev pub behind : {A : Type 0} → Logged W → A × W → A × Logged W
  behind t (a, w) = (a, record t { world = w })

  abbrev pub entered : Entry → Logged W → Logged W
  entered e t = record t { log = t.log ++ (e ∷ []) }

  abbrev pub heard : Logged W → Answer Frame × W → Answer Frame × Logged W
  heard t (failure e, w) = (failure e, record t { world = w })
  heard t (value frame, w) = (value frame, entered (got frame.payload) (record t { world = w }))

  abbrev pub asked : Option (W → Answer String × W) → Option (Logged W → Answer String × Logged W)
  asked none = none
  asked (some source) = some λ t. behind t (source t.world)

  -- the same world, with a log of the frames
  abbrev pub logged : Env W → Env (Logged W)
  logged env = record {
    context_error = λ t. env.context_error t.world;
    access_token = asked env.access_token;
    dial = λ endpoint header t. behind t (env.dial endpoint header t.world);
    read = λ t. heard t (env.read t.world);
    write = λ frame t. behind (entered (sent frame) t) (env.write frame t.world);
    close = λ t. record t { world = env.close t.world };
    session = λ t. behind t (env.session t.world);
    sleep = λ d t. behind t (env.sleep d t.world);
    now = λ t. env.now t.world;
    xml = env.xml;
    base64 = env.base64;
    decimal = env.decimal;
  }

  -- what was logged since `t`
  abbrev pub Said : (Result → List Entry → Type 0) → Logged W → Result × Logged W → Type 0
  Said P t x = (l : List Entry) × (x.1.log ≡ t.log ++ l) × P x.0 l

  pub Said-cut :
      (P : Result → List Entry → Type 0) (t : Logged W) (r : Result) (w : W)
      → P r []
      → Said P t (r, record t { world = w })
  Said-cut P t r w p = ([], sym (append-nil t.log), p)

  pub Said-entered :
      (P Q : Result → List Entry → Type 0) (e : Entry) (t : Logged W) (w : W)
      (x : Result × Logged W)
      → ((r : Result) (l : List Entry) → P r l → Q r (e ∷ l))
      → Said P (entered e (record t { world = w })) x
      → Said Q t x
  Said-entered P Q e t w x f (l, h, p) = (e ∷ l, h ∙ append_assoc t.log (e ∷ []) l, f x.0 l p)
