-- ===== src/Xmpp/Frames.antt =====
-- xmpp/stanza.go, and the part of `readLoop` of xmpp/client.go that turns a frame into events.
use fngo.Prelude.{◌==◌, string_eq, String, none, some, List, [], ◌∷◌, if◌then◌else◌}
use fngo.GoStrings.{trim_space}
use fngo.Events
use fngo.Events.{Event, Kind}
use fngo.Xmpp.{Stanza, StanzaKind, message, presence, iq, raw}
use fngo.Xmpp.Handshake.{other, text_of, Answer, value, failure, Frame, Element}

abbrev kind_of : String → StanzaKind
kind_of name =
    if name == "message"
    then message
    else if name == "presence"
    then presence
    else if name == "iq"
    then iq
    else raw

abbrev stanza_of : String → Element → Stanza
stanza_of trimmed e = record {
  kind = kind_of e.name;
  name = e.name;
  id = e.id;
  from = e.from;
  to = e.to;
  type = e.type;
  body = trim_space e.body;
  inner_xml = e.inner_xml;
  raw = trimmed;
}

abbrev parsed : String → Answer Element → Answer Stanza
parsed trimmed (failure e) = failure e
parsed trimmed (value e) = value (stanza_of trimmed e)

-- ParseStanza
unfoldable parse_stanza : (String → Answer Element) → String → Answer Stanza
parse_stanza xml text =
    let trimmed = trim_space text in
    if trimmed == "" then failure (other "xmpp: invalid stanza") else parsed trimmed (xml trimmed)

abbrev event_stanza : Stanza → Events.Stanza
event_stanza s = record {
  id = s.id;
  from = s.from;
  to = s.to;
  type = s.type;
  body = s.body;
  raw = s.raw;
}

abbrev bare : Stanza → Events.BareStanza
bare s = record { id = s.id; from = s.from; to = s.to; type = s.type; raw = s.raw }

abbrev kind_event : StanzaKind → Stanza → Kind
kind_event message s = Kind.xmpp_message (event_stanza s)
kind_event presence s = Kind.xmpp_presence (bare s)
kind_event iq s = Kind.xmpp_iq (bare s)
kind_event raw s = Kind.xmpp_raw s.raw none

abbrev stanza_event : String → Answer Stanza → Kind
stanza_event payload (failure e) = Kind.xmpp_raw payload (some (text_of e))
stanza_event payload (value s) = kind_event s.kind s

-- the events of readLoop for a frame
unfoldable pub frame_events : (String → Answer Element) → Frame → List Kind
unfolding parse_stanza
frame_events xml f =
    Kind.xmpp_frame f.message_type f.payload
    ∷ stanza_event f.payload (parse_stanza xml f.payload)
    ∷ []
