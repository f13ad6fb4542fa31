-- ===== src/Party/Remote.antt =====
-- party/commands.go: what the party service answers, and the party that it stands for.
pub mod Mapping
use fngo.Prelude.{
  ℕ, ◌==◌, string_eq, String, Bool, true, false, ◌&&◌, Option, none, some, List, [], ◌∷◌, leb,
  get_or, if◌then◌else◌,
}
use fngo.Prelude.Int.{ℤ, pos}
use fngo.GoMap
use fngo.GoMap.{GoMap}
use fngo.GoTime.{Time, zero_time}
use fngo.Json
use fngo.Json.{
  Json, null, bool, num, float, str, arr, obj, Items, nil, cons, Fields, end, field, Codec,
  struct_of, string_field, items_field, ◌>>=◌,
}
use fngo.Transport.Types.{Response}
use fngo.Party.Types.{Member, Party}
use fngo.Party.Codec.{normalize_meta_map, extract_ready, extract_loadout, extract_playlist}

pub record RemoteMember : Type 0 where
  pub account_id : String
  pub account_dn : String
  pub role : String
  pub joined_at : String
  pub revision : ℤ
  pub meta : Fields

pub record RemoteParty : Type 0 where
  pub id : String
  pub revision : ℤ
  pub meta : Fields
  pub members : List RemoteMember

-- fields of a struct that json.Unmarshal fills, of the types int64 and map[string]any
abbrev int_field : Option Json → Option ℤ
int_field none = some (pos 0)
int_field (some null) = some (pos 0)
int_field (some (num n)) = some n
int_field (some _) = none

abbrev map_field : Option Json → Option Fields
map_field none = some end
map_field v = struct_of v

module _ (c : Codec) where
  unfoldable pub decode_member : Json → Option RemoteMember
  decode_member v = do
    fs ← struct_of (some v)
    id ← string_field (c.member fs "account_id")
    dn ← string_field (c.member fs "account_dn")
    role ← string_field (c.member fs "role")
    joined ← string_field (c.member fs "joined_at")
    revision ← int_field (c.member fs "revision")
    meta ← map_field (c.member fs "meta")
    some (record {
      account_id = id;
      account_dn = dn;
      role = role;
      joined_at = joined;
      revision = revision;
      meta = meta;
    })

  unfoldable pub decode_members : Items → Option (List RemoteMember)
  unfolding decode_member
  decode_members nil = some []
  decode_members (cons v vs) = do m ← decode_member v; ms ← decode_members vs; some (m ∷ ms)

  unfoldable pub decode_party : Json → Option RemoteParty
  unfolding decode_members
  decode_party v = do
    fs ← struct_of (some v)
    id ← string_field (c.member fs "id")
    revision ← int_field (c.member fs "revision")
    meta ← map_field (c.member fs "meta")
    items ← items_field (c.member fs "members")
    members ← decode_members items
    some (record { id = id; revision = revision; meta = meta; members = members })

  unfoldable pub decode_parties : Items → Option (List RemoteParty)
  unfolding decode_party
  decode_parties nil = some []
  decode_parties (cons v vs) = do p ← decode_party v; ps ← decode_parties vs; some (p ∷ ps)

  -- `Current []remoteParty` of an envelope
  unfoldable pub decode_current : Fields → Option (List RemoteParty)
  unfolding decode_parties
  decode_current fs = do items ← items_field (c.member fs "current"); decode_parties items

  -- `Party *remoteParty` of an envelope: nil if it is missing or null
  unfoldable pub decode_party_pointer : Option Json → Option (Option RemoteParty)
  unfolding decode_party
  decode_party_pointer none = some none
  decode_party_pointer (some null) = some none
  decode_party_pointer (some v) = do p ← decode_party v; some (some p)

  -- the member of one entry; `parse_time` is time.Parse with RFC3339
  unfoldable pub map_remote_member : (String → Option Time) → RemoteMember → Member
  map_remote_member parse_time rm =
      let meta = normalize_meta_map c rm.meta in
      let at = λ (k : String). get_or (GoMap.get meta k) "" in
      record {
        account_id = rm.account_id;
        display_name = rm.account_dn;
        role = rm.role;
        joined_at =
            if rm.joined_at == "" then zero_time else get_or (parse_time rm.joined_at) zero_time;
        revision = rm.revision;
        meta = meta;
        ready = extract_ready c (at "Default:LobbyState_j");
        loadout =
            extract_loadout c (at "Default:AthenaCosmeticLoadout_j") (at "Default:FrontendEmote_j");
      }

  -- the loop over the members: a later entry of the same account replaces an earlier one, and the
  -- last captain counts
  unfoldable pub map_members :
      (String → Option Time)
      → List RemoteMember
      → GoMap String Member × String
      → GoMap String Member × String
  unfolding map_remote_member
  map_members parse_time [] (ms, captain) = (ms, captain)
  map_members parse_time (rm ∷ rms) (ms, captain) = map_members parse_time rms (
    GoMap.insert ms rm.account_id (map_remote_member parse_time rm),
    if rm.role == "CAPTAIN" then rm.account_id else captain,
  )

  unfoldable pub map_remote_party : (String → Option Time) → Time → RemoteParty → Party
  unfolding map_members
  map_remote_party parse_time now rp =
      let meta = normalize_meta_map c rp.meta in
      let at = λ (k : String). get_or (GoMap.get meta k) "" in
      let (members, captain) = map_members parse_time rp.members ([], "") in
      record {
        id = rp.id;
        revision = rp.revision;
        captain_id = captain;
        playlist = extract_playlist c (at "Default:SelectedIsland_j");
        custom_key = at "Default:CustomMatchKey_s";
        region_id = at "Default:RegionId_s";
        members = members;
        meta = meta;
        updated_at = now;
      }

  -- the field `errorCode` of a body that decodes, else nothing
  unfoldable pub error_code_of : String → Option String
  error_code_of body = do fs ← struct_of (c.unmarshal body); string_field (c.member fs "errorCode")

  abbrev has_code : Option String → String → Bool
  has_code none text = false
  has_code (some code) text = code == text

  unfoldable pub is_stale_revision : Response → Bool
  unfolding error_code_of
  is_stale_revision resp =
      leb 400 resp.status_code
      && has_code (error_code_of resp.body) "errors.com.epicgames.social.party.stale_revision"

  unfoldable pub is_user_has_party : Response → Bool
  unfolding error_code_of
  is_user_has_party resp =
      leb 400 resp.status_code
      && has_code (error_code_of resp.body) "errors.com.epicgames.social.party.user_has_party"
