-- ===== src/Party/Decoder/Dispatch.antt =====
-- party/xmpp_decoder.go: from a stanza to the handlers, and the events to the bus.
use fngo.Prelude.{
  ◌==◌, string_eq, String, Bool, false, not, Option, none, some, List, [], ◌∷◌, if◌then◌else◌,
}
use fngo.GoStrings.{trim_space, has_prefix, equal_fold, before}
use fngo.Json
use fngo.Json.{
  Json, null, bool, num, float, str, arr, obj, Items, nil, cons, Fields, end, field, Codec,
  at_or_null, struct_of,
}
use fngo.Xmpp.{Stanza, StanzaKind}
use fngo.Events.{Event, Kind}
use fngo.Events.Bus.{Bus, emit}
use fngo.Events.Bus.Channel.{Outcome, ok, ◌>>=◌}
use fngo.Party.Reducer.{State}
use fngo.Party.Decoder.{
  PresenceEnvelope, Reader, Feed, Notice, notification_prefix, as_string, as_int64, clone_any_map,
  publish,
}
use fngo.Party.Decoder.Handlers.{on_notice}

module _ (r : Reader) where
  -- the notification in a message's body, if it is one of the party service
  abbrev notice_of : Option Fields → Option Notice
  notice_of none = none
  notice_of (some fs) =
      let type = as_string r (at_or_null (Json.get fs "type")) in
      if has_prefix type notification_prefix
      then some (record {
        type = type;
        payload = fs;
        party_id = as_string r (at_or_null (Json.get fs "party_id"));
        account_id = as_string r (at_or_null (Json.get fs "account_id"));
        revision = as_int64 r (at_or_null (Json.get fs "revision"));
      })
      else none

  unfoldable pub decode_notice : String → Option Notice
  unfolding as_string as_int64 trim_space
  decode_notice body =
      if trim_space body == "" then none else notice_of (struct_of (r.codec.unmarshal body))

  -- every notification is published raw, last
  unfoldable pub handle_notice : String → Option Notice → Feed → Feed
  unfolding on_notice clone_any_map
  handle_notice raw none f = f
  handle_notice raw (some n) f =
      publish r (Kind.party_raw_notification n.type n.party_id (clone_any_map r n.payload) raw)
        (on_notice r n f)

  unfoldable pub handle_message : Stanza → Feed → Feed
  unfolding decode_notice handle_notice
  handle_message stanza f = handle_notice stanza.raw (decode_notice stanza.body) f

  unfoldable pub as_bool : Json → Bool
  unfolding trim_space equal_fold
  as_bool (bool b) = b
  as_bool (str s) = equal_fold (trim_space s) "true"
  as_bool _ = false

  -- the join info, which may be an object or the text of one
  abbrev join_info : Json → Option Fields
  join_info (obj fs) = some fs
  join_info (str s) = struct_of (r.codec.unmarshal s)
  join_info v = struct_of (r.codec.unmarshal (r.codec.marshal v))

  -- value, ok := v.(map[string]any)
  abbrev as_object : Option Json → Option Fields
  as_object (some (obj fs)) = some fs
  as_object _ = none

  -- the part of the address before `@`, unless there is none
  abbrev account_of : String → String
  account_of from = if before b'@' from == "" then from else before b'@' from

  unfoldable pub presence_event : String → String → Fields → Kind
  unfolding as_string as_bool before
  presence_event from status info =
      let private = as_bool (at_or_null (Json.get info "isPrivate")) in
      Kind.presence_updated (account_of from) (as_string r (at_or_null (Json.get info "partyId")))
        private (not private) status

  abbrev bind : {A B : Type 0} → Option A → (A → Option B) → Option B
  bind none f = none
  bind (some a) f = f a

  -- the join info of a status text
  unfoldable pub decode_status : String → Option Fields
  unfolding trim_space
  decode_status status =
      if status == ""
      then none
      else bind (struct_of (r.codec.unmarshal status)) λ payload.
        bind (as_object (Json.get payload "Properties"))
          λ props. bind (Json.get props "party.joininfodata.286331153_j") join_info

  abbrev pub emit_presence : String → String → Option Fields → Feed → Feed
  emit_presence from status none f = f
  emit_presence from status (some info) f = publish r (presence_event from status info) f

  abbrev pub handle_envelope : Option PresenceEnvelope → Feed → Feed
  handle_envelope none f = f
  handle_envelope (some e) f =
      emit_presence e.from (trim_space e.status) (decode_status (trim_space e.status)) f

  unfoldable pub handle_presence : Stanza → Feed → Feed
  unfolding decode_status presence_event trim_space
  handle_presence stanza f = handle_envelope (r.presence stanza.raw) f

  unfoldable pub handle_iq : Stanza → Feed → Feed
  handle_iq stanza f = f

  unfoldable pub handle_kind : StanzaKind → Stanza → Feed → Feed
  unfolding handle_message handle_presence handle_iq
  handle_kind StanzaKind.message stanza f = handle_message stanza f
  handle_kind StanzaKind.presence stanza f = handle_presence stanza f
  handle_kind StanzaKind.iq stanza f = handle_iq stanza f
  handle_kind StanzaKind.raw stanza f = f

-- the events on the bus, whose answers are ignored
unfoldable pub emit_all : List Event → Bus → Outcome Bus
emit_all [] b = ok b
emit_all (e ∷ l) b = do r ← emit e b; emit_all l r.0

unfoldable pub dispatch_stanza : Reader → Stanza → State → Bus → Outcome (State × Bus)
unfolding handle_kind emit_all
dispatch_stanza r stanza s b =
    let f = handle_kind r stanza.kind stanza (record { state = s; events = [] }) in
    do b' ← emit_all f.events b; ok (f.state, b')
