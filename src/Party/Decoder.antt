-- ===== src/Party/Decoder.antt =====
-- party/xmpp_decoder.go: notifications of the party service and presences, turned into changes of
-- the party state and into events. `Emit`'s answer is ignored there and the party state never
-- depends on the bus, so a handler lists its events in order, and `dispatch_stanza` emits them.
pub mod Handlers
pub mod Dispatch
pub mod Stanzas
pub mod Told
pub mod Shown
use fngo.Prelude.{
  ℕ, ◌==◌, string_eq, String, Bool, true, false, not, ◌||◌, Option, none, some, List, [], ◌∷◌, ◌++◌,
  text_append, get_or, if◌then◌else◌,
}
use fngo.Prelude.Int.{ℤ, pos}
use fngo.GoMap
use fngo.GoMap.{GoMap, text_at}
use fngo.GoTime.{Time, zero_time, is_zero}
use fngo.GoStrings.{trim_space, has_prefix, equal_fold, before, parse_int, sort}
use fngo.Json
use fngo.Json.{
  Json, null, bool, num, float, str, arr, obj, Items, nil, cons, Fields, end, field, Codec,
  at_or_null, struct_of,
}
use fngo.Xmpp.{Stanza, StanzaKind}
use fngo.Events.{Event, Kind, PartyUpdated}
use fngo.Events.Bus.{Bus, emit}
use fngo.Events.Bus.Channel.{Outcome, ok, ◌>>=◌}
use fngo.Party.Types.{
  Member, Party, EventKind, party_snapshot, member_joined, member_left, member_updated,
  member_kicked, ReducerEvent, zero_member,
}
use fngo.Party.Codec.{
  object_of, decode_json_map, normalize_meta_map, extract_ready, extract_loadout, extract_playlist,
}
use fngo.Party.Reducer.{State, snapshot, apply_event}

-- what xml.Unmarshal finds in a presence
pub record PresenceEnvelope : Type 0 where
  pub from : String
  pub status : String

-- what lies outside: the grammars, and the clocks of the decoder and of the state
pub record Reader : Type 0 where
  pub codec : Codec
  -- int64(x) of a JSON number, which is a float64
  pub int64_of : Json → ℤ
  -- time.Parse with RFC3339
  pub parse_time : String → Option Time
  pub presence : String → Option PresenceEnvelope
  pub at : Time
  pub now : Time

-- the party state, and the events so far
pub record Feed : Type 0 where
  pub state : State
  pub events : List Event

-- what the handlers read from a notification before they branch
pub record Notice : Type 0 where
  pub type : String
  pub payload : Fields
  pub party_id : String
  pub account_id : String
  pub revision : ℤ

abbrev pub notification_prefix : String
notification_prefix = "com.epicgames.social.party.notification.v0."

abbrev keys_of : GoMap String String → List String
keys_of [] = []
keys_of ((k, _) ∷ m) = k ∷ keys_of m

pub map_keys : GoMap String String → List String
unfolding sort
map_keys m = sort (keys_of m)

module _ (r : Reader) where
  unfoldable pub as_string : Json → String
  unfolding trim_space
  as_string null = ""
  as_string (str s) = s
  as_string v = trim_space (r.codec.sprint v)

  unfoldable pub as_int64 : Json → ℤ
  unfolding trim_space parse_int
  as_int64 (num n) = r.int64_of (num n)
  as_int64 (float text) = r.int64_of (float text)
  as_int64 (str s) = parse_int (trim_space s)
  as_int64 _ = pos 0

  unfoldable pub parse_time : String → Time
  parse_time raw = if raw == "" then zero_time else get_or (r.parse_time raw) zero_time

  unfoldable pub normalize_any : Json → GoMap String String
  unfolding normalize_meta_map decode_json_map object_of
  normalize_any (obj fs) = normalize_meta_map r.codec fs
  normalize_any (str s) = normalize_meta_map r.codec (decode_json_map r.codec s)
  normalize_any v =
      normalize_meta_map r.codec (object_of r.codec (r.codec.unmarshal (r.codec.marshal v)))

  texts : Items → List String
  unfolding trim_space
  texts nil = []
  texts (cons v vs) =
      let s = trim_space (r.codec.sprint v) in
      let rest = texts vs in if s == "" then rest else if s == "<nil>" then rest else s ∷ rest

  unfoldable pub to_string_slice : Json → List String
  unfolding texts
  to_string_slice (arr vs) = texts vs
  to_string_slice _ = []

  unfoldable pub clone_any_map : Fields → Fields
  unfolding object_of
  clone_any_map end = end
  clone_any_map (field k v m) =
      object_of r.codec (r.codec.unmarshal (r.codec.marshal (obj (field k v m))))

  -- payload[key]
  abbrev pub entry : Notice → String → Json
  entry n key = at_or_null (Json.get n.payload key)

  -- ApplyEvent, and Emit with the decoder's time
  abbrev pub apply : ReducerEvent → Feed → Feed
  apply e f = record f { state = (apply_event r.codec r.now e f.state).0 }

  abbrev pub publish : Kind → Feed → Feed
  publish kind f = record f { events = f.events ++ (record { at = r.at; kind = kind } ∷ []) }

  -- a reducer event of a kind about a notification, without its other fields
  abbrev pub change_of : EventKind → Notice → ReducerEvent
  change_of kind n = record {
    kind = kind;
    party_id = n.party_id;
    revision = n.revision;
    member = zero_member;
    member_id = "";
    captain_id = "";
    playlist = "";
    custom_key = "";
    party_meta_updates = [];
    party_meta_removed = [];
    member_meta_removed = [];
    at = r.at;
  }

  abbrev pub shown_party : Party → Kind
  shown_party p = Kind.party_updated (record {
    party_id = p.id;
    revision = p.revision;
    captain_id = p.captain_id;
    playlist = p.playlist;
    custom_key = p.custom_key;
  })

  abbrev pub emit_party : Option Party → Feed → Feed
  emit_party none f = f
  emit_party (some p) f = if p.id == "" then f else publish (shown_party p) f

  unfoldable pub emit_party_updated : Feed → Feed
  unfolding snapshot
  emit_party_updated f = emit_party (snapshot f.state) f
