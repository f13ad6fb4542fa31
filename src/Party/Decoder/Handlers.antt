-- ===== src/Party/Decoder/Handlers.antt =====
-- party/xmpp_decoder.go: what each notification does.
use fngo.Prelude.{
  ◌==◌, string_eq, String, Bool, ◌||◌, Option, none, some, List, [], ◌∷◌, text_append, get_or,
  if◌then◌else◌,
}
use fngo.GoMap
use fngo.GoMap.{GoMap, text_at}
use fngo.GoTime.{zero_time, is_zero}
use fngo.GoStrings.{equal_fold}
use fngo.Events.{Kind}
use fngo.Party.Types.{
  Member, Party, EventKind, member_joined, member_left, member_updated, member_kicked, ReducerEvent,
  zero_member,
}
use fngo.Party.Codec.{extract_ready, extract_loadout, extract_playlist}
use fngo.Party.Reducer.{snapshot}
use fngo.Party.Decoder.{
  Reader, Feed, Notice, notification_prefix, map_keys, as_string, parse_time, normalize_any,
  to_string_slice, entry, apply, publish, change_of, emit_party_updated,
}

-- the second map where the first is empty
abbrev given_or : GoMap String String → GoMap String String → GoMap String String
given_or [] m = m
given_or (e ∷ l) m = e ∷ l

abbrev pub with_id : Option Member → Option Member
with_id none = none
with_id (some m) = if m.account_id == "" then none else some m

-- the member of the account in the party state, if it has an account id
abbrev pub existing_member : Option Party → String → Option Member
existing_member none id = none
existing_member (some p) id = with_id (GoMap.get p.members id)

abbrev pub merged_meta :
    GoMap String String → List String → GoMap String String → GoMap String String
merged_meta updates removed old = GoMap.delete_all (GoMap.insert_all old updates) removed

abbrev pub is_type : Notice → String → Bool
is_type n text = n.type == text_append notification_prefix text

module _ (r : Reader) where
  -- MEMBER_JOINED
  unfoldable pub joined_member : Notice → Member
  unfolding as_string normalize_any parse_time
  joined_member n =
      let given = normalize_any r (entry r n "meta") in
      let meta = given_or given (normalize_any r (entry r n "member_state_updated")) in
      record {
        account_id = n.account_id;
        display_name = as_string r (entry r n "account_dn");
        role = as_string r (entry r n "role");
        revision = n.revision;
        meta = meta;
        ready = extract_ready r.codec (text_at meta "Default:LobbyState_j");
        loadout =
            extract_loadout r.codec (text_at meta "Default:AthenaCosmeticLoadout_j")
              (text_at meta "Default:FrontendEmote_j");
        joined_at = parse_time r (as_string r (entry r n "joined_at"));
      }

  unfoldable pub on_joined : Notice → Feed → Feed
  unfolding joined_member emit_party_updated
  on_joined n f =
      let member = joined_member n in
      let entered =
        publish r (Kind.party_member_joined n.party_id n.account_id member.display_name n.revision)
          (apply r (record (change_of r member_joined n) { member = member }) f) in
      emit_party_updated r (
        if equal_fold member.role "CAPTAIN"
        then publish r (Kind.party_captain_changed n.party_id n.account_id n.revision) entered
        else entered)

  -- MEMBER_STATE_UPDATED: `old` stands for the member as it was
  unfoldable pub updated_member : Notice → Member → Member
  unfolding as_string normalize_any to_string_slice GoMap.insert_all GoMap.delete_all
  updated_member n old =
      let updates = normalize_any r (entry r n "member_state_updated") in
      let merged =
        merged_meta updates (to_string_slice r (entry r n "member_state_removed")) old.meta in
      let display_name = as_string r (entry r n "account_dn") in
      let role = as_string r (entry r n "role") in
      record {
        account_id = n.account_id;
        display_name = if display_name == "" then old.display_name else display_name;
        role = if role == "" then old.role else role;
        revision = if is_zero n.revision then old.revision else n.revision;
        meta = updates;
        ready = extract_ready r.codec (text_at merged "Default:LobbyState_j");
        loadout =
            extract_loadout r.codec (text_at merged "Default:AthenaCosmeticLoadout_j")
              (text_at merged "Default:FrontendEmote_j");
        joined_at = zero_time;
      }

  unfoldable pub on_state_updated : Notice → Feed → Feed
  unfolding updated_member emit_party_updated map_keys
  on_state_updated n f =
      let old = get_or (existing_member (snapshot f.state) n.account_id) zero_member in
      let event = record (change_of r member_updated n) {
        member = updated_member n old;
        member_meta_removed = to_string_slice r (entry r n "member_state_removed");
      } in
      emit_party_updated r (
        publish r
          (Kind.party_member_updated n.party_id n.account_id n.revision
            (map_keys (normalize_any r (entry r n "member_state_updated"))))
          (apply r event f))

  -- MEMBER_LEFT, MEMBER_EXPIRED and MEMBER_DISCONNECTED
  unfoldable pub on_left : Notice → Feed → Feed
  unfolding emit_party_updated
  on_left n f = emit_party_updated r (
      publish r (Kind.party_member_left n.party_id n.account_id n.revision n.type)
        (apply r (record (change_of r member_left n) { member_id = n.account_id }) f))

  unfoldable pub on_kicked : Notice → Feed → Feed
  unfolding emit_party_updated as_string
  on_kicked n f = emit_party_updated r (
      publish r
        (Kind.party_member_kicked n.party_id n.account_id (as_string r (entry r n "kicked_by"))
          n.revision)
        (apply r (record (change_of r member_kicked n) { member_id = n.account_id }) f))

  unfoldable pub on_new_captain : Notice → Feed → Feed
  unfolding emit_party_updated
  on_new_captain n f = emit_party_updated r (
      publish r (Kind.party_captain_changed n.party_id n.account_id n.revision)
        (apply r (record (change_of r EventKind.party_updated n) { captain_id = n.account_id }) f))

  abbrev playlist_of : Option String → String
  playlist_of none = ""
  playlist_of (some value) = extract_playlist r.codec value

  -- PARTY_UPDATED
  unfoldable pub party_updated_event : Notice → ReducerEvent
  unfolding normalize_any to_string_slice
  party_updated_event n =
      let updates = normalize_any r (entry r n "party_state_updated") in
      record (change_of r EventKind.party_updated n) {
        custom_key = text_at updates "Default:CustomMatchKey_s";
        playlist = playlist_of (GoMap.get updates "Default:SelectedIsland_j");
        party_meta_updates = updates;
        party_meta_removed = to_string_slice r (entry r n "party_state_removed");
      }

  unfoldable pub on_party_updated : Notice → Feed → Feed
  unfolding emit_party_updated party_updated_event
  on_party_updated n f = emit_party_updated r (apply r (party_updated_event n) f)

  -- the `switch` on the notification's type
  unfoldable pub on_notice : Notice → Feed → Feed
  unfolding on_joined on_state_updated on_left on_kicked on_new_captain on_party_updated as_string
  on_notice n f =
      if is_type n "MEMBER_JOINED"
      then on_joined n f
      else if is_type n "MEMBER_STATE_UPDATED"
      then on_state_updated n f
      else if is_type n "MEMBER_LEFT"
          || is_type n "MEMBER_EXPIRED"
          || is_type n "MEMBER_DISCONNECTED"
      then on_left n f
      else if is_type n "MEMBER_KICKED"
      then on_kicked n f
      else if is_type n "MEMBER_NEW_CAPTAIN"
      then on_new_captain n f
      else if is_type n "PARTY_UPDATED"
      then on_party_updated n f
      else if is_type n "PING"
      then publish r
          (Kind.party_invite_received n.party_id (as_string r (entry r n "pinger_id")) n.revision) f
      else if is_type n "INITIAL_INTENTION"
      then publish r
          (Kind.party_join_request_received n.party_id (as_string r (entry r n "requester_id"))
            n.revision)
          f
      else if is_type n "MEMBER_REQUIRE_CONFIRMATION"
      then publish r
          (Kind.party_join_request_received n.party_id (as_string r (entry r n "account_id"))
            n.revision)
          f
      else f
