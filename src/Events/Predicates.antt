-- ===== src/Events/Predicates.antt =====
-- events/predicates.go: the predicates on events. An event is never nil here; a nil predicate among
-- those of `Any` is `none`. `unicode_lower` is unicode.ToLower past ASCII.
pub mod Laws
use fngo.Prelude.{
  ℕ, String, Bool, true, false, ◌==◌, string_eq, nat_eq, Eq, ◌&&◌, ◌||◌, not, if◌then◌else◌, List,
  [], ◌∷◌, Option, none, some,
}
use fngo.GoStrings.{trim_space, to_lower, same_codes}
use fngo.Events.{Name, Kind, Event, PartyUpdated, name_of}
use fngo.Events.Bus.{Predicate}

-- the place of a name among the constants, to compare names by
name_index : Name → ℕ
name_index Name.client_ready = 0
name_index Name.client_disconnected = 1
name_index Name.auth_refreshed = 2
name_index Name.auth_refresh_failed = 3
name_index Name.auth_fatal = 4
name_index Name.xmpp_connected = 5
name_index Name.xmpp_disconnected = 6
name_index Name.xmpp_reconnecting = 7
name_index Name.xmpp_error = 8
name_index Name.xmpp_frame = 9
name_index Name.xmpp_message = 10
name_index Name.xmpp_presence = 11
name_index Name.xmpp_iq = 12
name_index Name.xmpp_raw = 13
name_index Name.presence_updated = 14
name_index Name.party_updated = 15
name_index Name.party_member_joined = 16
name_index Name.party_member_left = 17
name_index Name.party_member_updated = 18
name_index Name.party_member_kicked = 19
name_index Name.party_captain_changed = 20
name_index Name.party_invite_received = 21
name_index Name.party_join_request_received = 22
name_index Name.party_raw_notification = 23
name_index Name.friend_request_received = 24
name_index Name.friend_added = 25
name_index Name.friend_removed = 26
name_index Name.friend_request_declined = 27

unfoldable pub is_name : Name → Predicate
unfolding name_index
is_name name evt = name_index (name_of evt.kind) == name_index name

-- a wanted id, where the empty one stands for any
abbrev pub any_or : String → String → Bool
any_or wanted id = if wanted == "" then true else id == wanted

abbrev pub any_kind : Kind → Bool
any_kind (Kind.party_updated _) = true
any_kind _ = false

unfoldable pub party_updated_any : Predicate
party_updated_any evt = any_kind evt.kind

abbrev pub on_update : (PartyUpdated → Bool) → Kind → Bool
on_update p (Kind.party_updated u) = p u
on_update p _ = false

unfoldable pub party_updated_for_id : String → Predicate
party_updated_for_id party_id evt = on_update (λ u. u.party_id == party_id) evt.kind

unfoldable pub party_playlist_equals : (ℕ → ℕ) → String → String → Predicate
party_playlist_equals unicode_lower party_id playlist evt =
    on_update
      (λ u.
        any_or party_id u.party_id
        && same_codes (to_lower unicode_lower (trim_space u.playlist))
            (to_lower unicode_lower (trim_space playlist)))
      evt.kind

unfoldable pub party_custom_key_equals : String → String → Predicate
party_custom_key_equals party_id key evt =
    on_update (λ u. any_or party_id u.party_id && u.custom_key == key) evt.kind

abbrev member_of : Kind → Option String
member_of (Kind.party_member_updated _ member _ _) = some member
member_of _ = none

abbrev wants : String → Option String → Bool
wants wanted none = false
wants wanted (some id) = any_or wanted id

unfoldable pub party_member_updated_for : String → Predicate
party_member_updated_for member evt = wants member (member_of evt.kind)

abbrev captain_change : String → String → Kind → Bool
captain_change party_id captain_id (Kind.party_captain_changed party captain _) =
    any_or party_id party && captain == captain_id
captain_change party_id captain_id _ = false

unfoldable pub party_captain_is : String → String → Predicate
party_captain_is party_id captain_id evt = captain_change party_id captain_id evt.kind

abbrev requester_of : Kind → Option String
requester_of (Kind.friend_request_received account) = some account
requester_of _ = none

unfoldable pub friend_request_from : String → Predicate
friend_request_from account evt = wants account (requester_of evt.kind)

abbrev added_of : Kind → Option String
added_of (Kind.friend_added account) = some account
added_of _ = none

unfoldable pub friend_added_for : String → Predicate
friend_added_for account evt = wants account (added_of evt.kind)

abbrev removed_of : Kind → Option String
removed_of (Kind.friend_removed account _) = some account
removed_of _ = none

unfoldable pub friend_removed_for : String → Predicate
friend_removed_for account evt = wants account (removed_of evt.kind)

abbrev declined_of : Kind → Option String
declined_of (Kind.friend_request_declined account) = some account
declined_of _ = none

unfoldable pub friend_declined_for : String → Predicate
friend_declined_for account evt = wants account (declined_of evt.kind)

-- Any
unfoldable pub any_of : List (Option Predicate) → Predicate
any_of [] evt = false
any_of (none ∷ ps) evt = any_of ps evt
any_of (some p ∷ ps) evt = if p evt then true else any_of ps evt
