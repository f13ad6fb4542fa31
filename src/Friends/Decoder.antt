-- ===== src/Friends/Decoder.antt =====
-- friends/xmpp_decoder.go: friend messages, turned into events. `Emit`'s answer is ignored there.
use fngo.Prelude.{
  ◌==◌, string_eq, String, Bool, true, false, not, ◌&&◌, Option, none, some, if◌then◌else◌,
}
use fngo.GoTime.{Time}
use fngo.Json
use fngo.Json.{Json, str, obj, Fields, Codec, at_or_null, struct_of}
use fngo.Xmpp.{Stanza, StanzaKind}
use fngo.Events.{Kind}
use fngo.Events.Bus.{Bus, emit}
use fngo.Events.Bus.Channel.{Outcome, ok, ◌>>=◌}
use fngo.Friends.{trim}

-- the decoder's state, and what lies outside
pub record Decoder : Type 0 where
  pub codec : Codec
  pub self_id : String
  -- strings.ToUpper
  pub to_upper : String → String
  -- strings.EqualFold
  pub equal_fold : String → String → Bool
  pub at : Time

unfoldable pub set_identity : String → Decoder → Decoder
unfolding trim
set_identity id d = record d { self_id = trim id }

abbrev pub as_string : Json → String
as_string (str s) = s
as_string _ = ""

abbrev pub text_in : Fields → String → String
unfolding trim
text_in fs key = trim (as_string (at_or_null (Json.get fs key)))

module _ (d : Decoder) where
  -- the event of a friend object with its status, account and direction
  unfoldable pub friend_event : String → String → String → Option Kind
  friend_event status account direction =
      if account == ""
      then none
      else if status == ""
      then none
      else if status == "ACCEPTED"
      then some (Kind.friend_added account)
      else if status == "PENDING" && direction == "INBOUND"
      then some (Kind.friend_request_received account)
      else none

  abbrev friend_object : Option Json → Option Kind
  unfolding text_in friend_event
  friend_object (some (obj fs)) =
      friend_event (d.to_upper (text_in fs "status")) (text_in fs "accountId")
        (d.to_upper (text_in fs "direction"))
  friend_object _ = none

  unfoldable pub handle_friend_object : Fields → Option Kind
  unfolding friend_object
  handle_friend_object payload = friend_object (Json.get payload "payload")

  -- the other side of a friendship that ends
  unfoldable pub other_side : String → String → String
  unfolding trim
  other_side from to =
      if not (d.self_id == "") && d.equal_fold from d.self_id
      then to
      else if trim from == ""
      then to
      else from

  unfoldable pub removal_event : String → String → Option Kind
  removal_event reason other =
      if other == ""
      then none
      else if reason == ""
      then none
      else if reason == "REJECTED"
      then some (Kind.friend_request_declined other)
      else if reason == "DELETED"
      then some (Kind.friend_removed other "DELETED")
      else none

  unfoldable pub handle_friendship_remove : Fields → Option Kind
  unfolding text_in other_side removal_event
  handle_friendship_remove payload =
      removal_event (d.to_upper (text_in payload "reason"))
        (other_side (text_in payload "from") (text_in payload "to"))

  abbrev decode_payload : Option Fields → Option Kind
  unfolding text_in handle_friend_object handle_friendship_remove
  decode_payload none = none
  decode_payload (some fs) =
      if text_in fs "type" == "com.epicgames.friends.core.apiobjects.Friend"
      then handle_friend_object fs
      else if text_in fs "type" == "FRIENDSHIP_REMOVE"
      then handle_friendship_remove fs
      else none

  abbrev is_message : StanzaKind → Bool
  is_message StanzaKind.message = true
  is_message _ = false

  -- the event that a stanza stands for, if it is one
  unfoldable pub decode_stanza : Stanza → Option Kind
  unfolding decode_payload trim
  decode_stanza stanza =
      if not (is_message stanza.kind)
      then none
      else if trim stanza.body == ""
      then none
      else decode_payload (struct_of (d.codec.unmarshal stanza.body))

  abbrev pub emit_decoded : Option Kind → Bus → Outcome Bus
  emit_decoded none b = ok b
  emit_decoded (some kind) b = do r ← emit (record { at = d.at; kind = kind }) b; ok r.0

  unfoldable pub dispatch_stanza : Stanza → Bus → Outcome Bus
  unfolding decode_stanza
  dispatch_stanza stanza b = emit_decoded (decode_stanza stanza) b
