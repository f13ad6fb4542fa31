-- ===== src/Events.antt =====
-- events/types.go: the typed events and their names. A Go `error` is its text; the embedded `Base` is the
-- event's time.
pub mod Predicates
pub mod Bus
use fngo.Prelude.{String, Bool, Option, List}
use fngo.Prelude.Int.{ℤ}
use fngo.GoTime.{Time}
use fngo.Json.{Fields}

-- type Name string, with a constructor for each constant
pub data Name : Type 0 where
  client_ready client_disconnected : Name
  auth_refreshed auth_refresh_failed auth_fatal : Name
  xmpp_connected xmpp_disconnected xmpp_reconnecting xmpp_error : Name
  xmpp_frame xmpp_message xmpp_presence xmpp_iq xmpp_raw : Name
  presence_updated : Name
  party_updated party_member_joined party_member_left party_member_updated : Name
  party_member_kicked party_captain_changed party_invite_received : Name
  party_join_request_received party_raw_notification : Name
  friend_request_received friend_added friend_removed friend_request_declined : Name

pub record Stanza : Type 0 where
  pub id : String
  pub from : String
  pub to : String
  pub type : String
  pub body : String
  pub raw : String

-- a presence or an iq
pub record BareStanza : Type 0 where
  pub id : String
  pub from : String
  pub to : String
  pub type : String
  pub raw : String

pub record PartyUpdated : Type 0 where
  pub party_id : String
  pub revision : ℤ
  pub captain_id : String
  pub playlist : String
  pub custom_key : String

pub data Kind : Type 0 where
  client_ready : Kind
  client_disconnected : Option String → Kind
  auth_refreshed : Time → Kind
  auth_refresh_failed : String → Kind
  auth_fatal : String → Kind
  xmpp_connected : String → Kind
  xmpp_disconnected : Option String → Kind
  -- attempt, delay, error
  xmpp_reconnecting : ℤ → ℤ → String → Kind
  -- error, fatal
  xmpp_error : Option String → Bool → Kind
  -- message type, payload
  xmpp_frame : ℤ → String → Kind
  xmpp_message : Stanza → Kind
  xmpp_presence : BareStanza → Kind
  xmpp_iq : BareStanza → Kind
  -- raw, error
  xmpp_raw : String → Option String → Kind
  -- account, party, private, joinable, raw
  presence_updated : String → String → Bool → Bool → String → Kind
  party_updated : PartyUpdated → Kind
  -- party, member, display name, revision
  party_member_joined : String → String → String → ℤ → Kind
  -- party, member, revision, reason
  party_member_left : String → String → ℤ → String → Kind
  -- party, member, revision, updated keys
  party_member_updated : String → String → ℤ → List String → Kind
  -- party, member, actor, revision
  party_member_kicked : String → String → String → ℤ → Kind
  -- party, captain, revision
  party_captain_changed : String → String → ℤ → Kind
  -- party, sender, revision
  party_invite_received : String → String → ℤ → Kind
  -- party, requester, revision
  party_join_request_received : String → String → ℤ → Kind
  -- notification type, party, payload, raw
  party_raw_notification : String → String → Fields → String → Kind
  friend_request_received : String → Kind
  friend_added : String → Kind
  -- account, reason
  friend_removed : String → String → Kind
  friend_request_declined : String → Kind

pub record Event : Type 0 where
  pub at : Time
  pub kind : Kind

abbrev pub name_of : Kind → Name
name_of Kind.client_ready = Name.client_ready
name_of (Kind.client_disconnected _) = Name.client_disconnected
name_of (Kind.auth_refreshed _) = Name.auth_refreshed
name_of (Kind.auth_refresh_failed _) = Name.auth_refresh_failed
name_of (Kind.auth_fatal _) = Name.auth_fatal
name_of (Kind.xmpp_connected _) = Name.xmpp_connected
name_of (Kind.xmpp_disconnected _) = Name.xmpp_disconnected
name_of (Kind.xmpp_reconnecting _ _ _) = Name.xmpp_reconnecting
name_of (Kind.xmpp_error _ _) = Name.xmpp_error
name_of (Kind.xmpp_frame _ _) = Name.xmpp_frame
name_of (Kind.xmpp_message _) = Name.xmpp_message
name_of (Kind.xmpp_presence _) = Name.xmpp_presence
name_of (Kind.xmpp_iq _) = Name.xmpp_iq
name_of (Kind.xmpp_raw _ _) = Name.xmpp_raw
name_of (Kind.presence_updated _ _ _ _ _) = Name.presence_updated
name_of (Kind.party_updated _) = Name.party_updated
name_of (Kind.party_member_joined _ _ _ _) = Name.party_member_joined
name_of (Kind.party_member_left _ _ _ _) = Name.party_member_left
name_of (Kind.party_member_updated _ _ _ _) = Name.party_member_updated
name_of (Kind.party_member_kicked _ _ _ _) = Name.party_member_kicked
name_of (Kind.party_captain_changed _ _ _) = Name.party_captain_changed
name_of (Kind.party_invite_received _ _ _) = Name.party_invite_received
name_of (Kind.party_join_request_received _ _ _) = Name.party_join_request_received
name_of (Kind.party_raw_notification _ _ _ _) = Name.party_raw_notification
name_of (Kind.friend_request_received _) = Name.friend_request_received
name_of (Kind.friend_added _) = Name.friend_added
name_of (Kind.friend_removed _ _) = Name.friend_removed
name_of (Kind.friend_request_declined _) = Name.friend_request_declined
