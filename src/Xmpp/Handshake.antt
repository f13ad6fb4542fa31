-- ===== src/Xmpp/Handshake.antt =====
-- xmpp/client.go: the connection and its handshake.
pub mod Log
pub mod Order
use Prim.Native.Char.{Char, code}
use fngo.Prelude.{
  ℕ, zero, suc, ◌==◌, nat_eq, string_eq, String, Bool, ◌&&◌, ◌||◌, Option, none, some, List, [],
  ◌∷◌, text_append, get_or, if◌then◌else◌,
}
use fngo.Prelude.Int.{ℤ}
use fngo.GoTime.{Time}
use fngo.GoStrings.{codes, contains_codes, before, after}
use fngo.Backoff.{Duration}

-- an error that is context.Canceled, or another one
pub data Error : Type 0 where
  canceled : Error
  other : String → Error

abbrev pub text_of : Error → String
text_of canceled = "context canceled"
text_of (other m) = m

pub data Answer {ℓ} (A : Type ℓ) : Type ℓ where
  value : A → Answer A
  failure : Error → Answer A

pub record Frame : Type 0 where
  pub message_type : ℤ
  pub payload : String

-- what one of the three loops comes across: a read; the queue's next message written, or not; the end
-- of the context with its `ctx.Err()`; a tick with room in the queue, or without
pub data Signal : Type 0 where
  read : Answer Frame → Signal
  wrote ended : Option Error → Signal
  ticked : Bool → Signal

-- the first element of a frame, as encoding/xml decodes it
pub record Element : Type 0 where
  pub name : String
  pub id : String
  pub from : String
  pub to : String
  pub type : String
  pub body : String
  pub inner_xml : String

-- what lies outside: the WebSocket, the token source, the clock and the context
pub record Env (W : Type 0) : Type 0 where
  pub context_error : W → Option Error
  pub access_token : Option (W → Answer String × W)
  -- the endpoint, and the header Authorization if there is one
  pub dial : String → Option String → W → Answer (Unit {0}) × W
  pub read : W → Answer Frame × W
  pub write : String → W → Option Error × W
  pub close : W → W
  -- what the three loops of a connection come across, in the order in which they act
  pub session : W → List Signal × W
  pub sleep : Duration → W → Bool × W
  pub now : W → Time
  pub xml : String → Answer Element
  pub base64 : String → String
  pub decimal : ℕ → String

-- without the deadlines of reads and writes, the buffer, the dispatchers and the logger
pub record Config : Type 0 where
  pub endpoint : String
  pub min_reconnect_delay : Duration
  pub max_reconnect_delay : Duration
  pub max_reconnect_attempts : ℤ
  pub keep_alive_interval : Duration
  pub enable_handshake : Bool
  pub jid : String
  pub username : String
  pub domain : String
  pub resource : String

abbrev text_or : String → String → String
text_or text given = if text == "" then given else text

unfoldable pub domain_from_jid : String → String
unfolding after
domain_from_jid jid = get_or (after b'@' jid) ""

unfoldable pub username_from_jid : String → String
unfolding before
username_from_jid jid = before b'@' jid

abbrev escape_char : Char → String
escape_char c =
    if code c == b'&'
    then "&amp;"
    else if code c == b'<'
    then "&lt;"
    else if code c == b'>'
    then "&gt;"
    else if code c == 34
    then "&quot;"
    else if code c == 39
    then "&apos;"
    else String.◌∷◌ c String.[]

unfoldable pub xml_escape : String → String
xml_escape String.[] = ""
xml_escape (String.◌∷◌ c s) = text_append (escape_char c) (xml_escape s)

abbrev has_text : String → String → Bool
unfolding contains_codes
has_text frame part = contains_codes (codes frame) (codes part)

abbrev concat : List String → String
concat [] = ""
concat (s ∷ l) = text_append s (concat l)

-- the frames that a step of the handshake waits for
unfoldable pub opens : String → Bool
unfolding has_text
opens frame = has_text frame "<open" || has_text frame "<features"

unfoldable pub succeeds : String → Bool
unfolding has_text
succeeds frame = has_text frame "<success"

unfoldable pub answers : String → String → Bool
unfolding has_text
answers id frame =
    has_text frame id && has_text frame "type='result'"
    || has_text frame id && has_text frame "type=\"result\""

abbrev pub open_frame : String → String
unfolding xml_escape
open_frame domain = concat (
    "<open to='"
    ∷ xml_escape domain
    ∷ "' version='1.0' xmlns='urn:ietf:params:xml:ns:xmpp-framing'/>"
    ∷ [])

abbrev pub bind_frame : String → String
unfolding xml_escape
bind_frame resource = concat (
    "<iq type='set' id='bind_1'><bind xmlns='urn:ietf:params:xml:ns:xmpp-bind'><resource>"
    ∷ xml_escape resource
    ∷ "</resource></bind></iq>"
    ∷ [])

abbrev pub session_frame : String → String
unfolding xml_escape
session_frame domain = concat (
    "<iq to='"
    ∷ xml_escape domain
    ∷ "' type='set' id='sess_1'><session xmlns='urn:ietf:params:xml:ns:xmpp-session'/></iq>"
    ∷ [])

-- `waiting`: the handshake still waits for its frame after as many others as the fuel counts
pub data Result : Type 0 where
  done waiting : Result
  fails : Error → Result

module _ {W : Type 0} (env : Env W) where
  abbrev pub M : Type 0
  M = W → Result × W

  abbrev pub continue : Result × W → M → Result × W
  continue (done, w) next = next w
  continue (waiting, w) next = (waiting, w)
  continue (fails e, w) next = (fails e, w)

  abbrev pub written : Option Error × W → Result × W
  written (none, w) = (done, w)
  written (some e, w) = (fails e, w)

  -- writeHandshakeFrame
  abbrev pub write_frame : String → M
  write_frame frame w = written (env.write frame w)

  abbrev pub matched : (String → Bool) → M → Answer Frame × W → Result × W
  matched fits next (failure e, w) = (fails e, w)
  matched fits next (value frame, w) = if fits frame.payload then (done, w) else next w

  abbrev pub unless_done : Option Error → M → M
  unless_done none next w = next w
  unless_done (some e) next w = (fails e, w)

  -- waitForHandshakeFrame
  unfoldable pub wait_for : ℕ → (String → Bool) → M
  wait_for zero fits w = (waiting, w)
  wait_for (suc n) fits w =
      unless_done (env.context_error w) (λ w. matched fits (wait_for n fits) (env.read w)) w

  abbrev pub exchange : ℕ → String → (String → Bool) → M → M
  unfolding wait_for
  exchange n frame fits next w = continue (continue (write_frame frame w) (wait_for n fits)) next

  unfoldable pub perform_handshake : ℕ → Config → String → M
  unfolding exchange domain_from_jid username_from_jid xml_escape
  perform_handshake n cfg token w =
      let domain = text_or (text_or cfg.domain (domain_from_jid cfg.jid)) "prod.ol.epicgames.com" in
      let username = text_or cfg.username (username_from_jid cfg.jid) in
      let plain = env.base64 (concat ("\0" ∷ username ∷ "\0" ∷ token ∷ [])) in
      let auth = concat (
        "<auth xmlns='urn:ietf:params:xml:ns:xmpp-sasl' mechanism='PLAIN'>" ∷ plain ∷ "</auth>"
        ∷ []) in
      if username == ""
      then (fails (other "xmpp: username is required for handshake"), w)
      else if token == ""
      then (fails (other "xmpp: access token is required for handshake"), w)
      else exchange n (open_frame domain) opens
          (exchange n auth succeeds (
            exchange n (open_frame domain) opens (
              exchange n (bind_frame cfg.resource) (answers "bind_1")
                (exchange n (session_frame domain) (answers "sess_1") (λ w. (done, w))))))
          w
