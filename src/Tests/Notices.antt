-- ===== src/Tests/Notices.antt =====
-- party/xmpp_decoder.go and party/reducer.go on the notification that a member joined.
use fngo.Prelude.{
  ◌==◌, string_eq, ◌≡◌, refl, sym, ap, true, false, none, some, [], ◌∷◌, if◌then◌else◌,
}
use fngo.Prelude.Int.{pos, ◌≤ℤ◌}
use fngo.GoMap
use fngo.Json
use fngo.Json.{Json, num, str, obj, Fields, end, field, Codec}
use fngo.Xmpp.{Stanza, StanzaKind}
use fngo.Events.Bus.{new_bus}
use fngo.Events.Bus.Invariant.{IsValid}
use fngo.Events.Bus.Removal.{Returns}
use fngo.Events.Bus.Safety.{new_bus-IsValid}
use fngo.Party.Reducer.Captain.{captain_ok}
use fngo.Party.Reducer.Revision.{apply_events, revision_of}
use mathlib.Core.List.{reverse}
use fngo.Party.Reducer.History.{display_name, part_at, known, apply_events-refines}
use fngo.Party.Decoder.{Reader, Feed, Notice}
use fngo.Party.Decoder.Handlers.{is_type}
use fngo.Party.Decoder.Dispatch.{decode_notice, dispatch_stanza, handle_kind, handle_message}
use fngo.Party.Decoder.Stanzas.{
  IsSound, dispatch_stanza-safe, handle_kind-revision, handle_kind-captain_ok,
}
use fngo.Party.Decoder.Told.{Reports, handle_message-Reports}
use fngo.Tests.Parties.{held, departure}
use fngo.Tests.Parties.{codec as party_codec}

abbrev joined : Fields
joined = field "type" (str "com.epicgames.social.party.notification.v0.MEMBER_JOINED") (
    field "account_id" (str "c") (
      field "party_id" (str "p")
        (field "role" (str "CAPTAIN") (field "revision" (num (pos 5)) end))))

abbrev codec : Codec
codec = record {
  unmarshal = λ s. if s == "joined" then some (obj joined) else none;
  marshal = λ _. "joined";
  member = λ fs k. Json.get fs k;
  sprint = λ _. "";
}

abbrev reader : Reader
reader = record {
  codec = codec;
  int64_of = λ v. elim v [ num n ↦ n | _ ↦ pos 0 ];
  parse_time = λ _. none;
  presence = λ _. none;
  at = pos 9;
  now = pos 9;
}

abbrev arrival : Stanza
arrival = record {
  kind = StanzaKind.message;
  name = "message";
  id = "";
  from = "";
  to = "";
  type = "";
  body = "joined";
  inner_xml = "";
  raw = "<message/>";
}

abbrev quiet : Feed
quiet = record { state = none; events = [] }

nobody-IsSound : IsSound codec none
nobody-IsSound = record {
  keyed = record { own_key = λ k m h. unfold GoMap.get in cc };
  shown = record { ready_of = λ k m h. unfold GoMap.get in cc };
}

dispatch_stanza-safe_example :
    Returns
      (dispatch_stanza reader arrival none new_bus)
      (λ out. IsSound codec out.0 × IsValid out.1)
dispatch_stanza-safe_example =
    dispatch_stanza-safe reader arrival none new_bus new_bus-IsValid nobody-IsSound

no_new_captain :
    (n : Notice) → decode_notice reader "joined" ≡ some n → is_type n "MEMBER_NEW_CAPTAIN" ≡ false
unfolding decode_notice Json.get
no_new_captain n h =
    sym (ap (λ o. elim o [ none ↦ false | some m ↦ is_type m "MEMBER_NEW_CAPTAIN" ]) h)

handle_kind-revision_example :
    pos 0 ≤ℤ revision_of (handle_kind reader StanzaKind.message arrival quiet).state
handle_kind-revision_example = handle_kind-revision reader StanzaKind.message arrival quiet

handle_kind-captain_ok_example :
    captain_ok (handle_kind reader StanzaKind.message arrival quiet).state ≡ true
handle_kind-captain_ok_example =
    handle_kind-captain_ok reader StanzaKind.message arrival quiet no_new_captain refl

handle_message-Reports_example : Reports reader arrival quiet (handle_message reader arrival quiet)
handle_message-Reports_example = handle_message-Reports reader arrival quiet

apply_events-refines_example :
    part_at display_name "b"
      (apply_events party_codec (pos 9) (reverse (departure ∷ [])) (some held))
    ≡ known display_name "b" (departure ∷ []) (part_at display_name "b" (some held))
apply_events-refines_example =
    apply_events-refines display_name "b" party_codec (pos 9) (departure ∷ []) (some held)
