-- ===== src/Party/Reducer.antt =====
-- party/reducer.go. A state is the party that it holds, if any; `now` is the clock.
pub mod Keys
pub mod Revision
pub mod Captain
pub mod Meta
pub mod Ready
pub mod History
use fngo.Prelude.{
  ◌==◌, string_eq, String, Bool, true, false, not, ◌&&◌, Option, none, some, List, [], get_or,
  if◌then◌else◌,
}
use fngo.Prelude.Int.{ℤ, pos, ltb_ℤ}
use fngo.GoMap
use fngo.GoMap.{GoMap}
use fngo.GoTime.{Time, is_zero}
use fngo.Json.{Codec}
use fngo.Party.Codec.{extract_playlist}
use fngo.Party.Types.{
  Loadout, Member, Party, EventKind, party_snapshot, member_joined, member_left, member_updated,
  member_kicked, party_updated, other, ReducerEvent, zero_member, zero_party,
}

abbrev pub State : Type 0
State = Option Party

pub new_state : State
new_state = none

-- the copies of `Snapshot` and `Replace` share no map with the state
unfoldable pub snapshot : State → Option Party
snapshot s = s

unfoldable pub replace : Party → State → State
replace p s = some p

-- v, unless it is empty
abbrev pub non_empty_or : String → String → String
non_empty_or v old = if v == "" then old else v

ensure_party : String → State → Party
ensure_party id (some p) = if p.id == "" && not (id == "") then record p { id = id } else p
ensure_party id none = record zero_party { id = id }

bump_revision : ℤ → Party → Party
bump_revision revision p = if ltb_ℤ p.revision revision then record p { revision = revision } else p

touch : Time → Time → Party → Party
touch now at p = record p { updated_at = if is_zero at then now else at }

apply_party_meta : GoMap String String → List String → Party → Party
apply_party_meta updates removed p = record p {
  meta = GoMap.delete_all (GoMap.insert_all p.meta updates) removed;
}

is_loadout_zero : Loadout → Bool
is_loadout_zero l = l.character == "" && l.backpack == "" && l.pickaxe == "" && l.emote == ""

merge_loadout : Loadout → Loadout → Loadout
merge_loadout current updates = record {
  character = non_empty_or updates.character current.character;
  backpack = non_empty_or updates.backpack current.backpack;
  pickaxe = non_empty_or updates.pickaxe current.pickaxe;
  emote = non_empty_or updates.emote current.emote;
}

-- `syncFromMeta`
sync_from_meta : Codec → Party → Party
sync_from_meta c p = record p {
  custom_key = get_or (GoMap.get p.meta "Default:CustomMatchKey_s") p.custom_key;
  region_id = get_or (GoMap.get p.meta "Default:RegionId_s") p.region_id;
  playlist = elim (GoMap.get p.meta "Default:SelectedIsland_j") [
    | none ↦ p.playlist
    | some value ↦ non_empty_or (extract_playlist c value) p.playlist
  ];
}

-- the part that a snapshot and an update share
take_fields : Codec → ReducerEvent → Party → Party
unfolding sync_from_meta
take_fields c e p = sync_from_meta c (record p {
  captain_id = non_empty_or e.captain_id p.captain_id;
  playlist = non_empty_or e.playlist p.playlist;
  custom_key = non_empty_or e.custom_key p.custom_key;
})

join_member : Member → Party → Party
join_member m p =
    let member = record m {
      joined_at = if is_zero m.joined_at then p.updated_at else m.joined_at;
    } in
    let captain = if m.role == "CAPTAIN" then m.account_id else p.captain_id in
    record p {
      members = GoMap.insert p.members m.account_id member;
      captain_id = if captain == "" then m.account_id else captain;
    }

merge_member : Member → List String → Member → Member
unfolding is_loadout_zero merge_loadout
merge_member u removed existing = record {
  account_id = if existing.account_id == "" then u.account_id else existing.account_id;
  display_name = non_empty_or u.display_name existing.display_name;
  role = non_empty_or u.role existing.role;
  ready = non_empty_or u.ready existing.ready;
  loadout =
      if is_loadout_zero u.loadout
      then existing.loadout
      else merge_loadout existing.loadout u.loadout;
  joined_at = if is_zero u.joined_at then existing.joined_at else u.joined_at;
  revision = if ltb_ℤ existing.revision u.revision then u.revision else existing.revision;
  meta = GoMap.delete_all (GoMap.insert_all existing.meta u.meta) removed;
}

update_member : Member → List String → Party → Party
unfolding merge_member
update_member u removed p =
    let existing = get_or (GoMap.get p.members u.account_id) zero_member in
    record p {
      members = GoMap.insert p.members u.account_id (merge_member u removed existing);
      captain_id = if u.role == "CAPTAIN" then u.account_id else p.captain_id;
    }

drop_member : String → Party → Party
drop_member id p = record p {
  members = GoMap.delete p.members id;
  captain_id = if p.captain_id == id then "" else p.captain_id;
}

-- `none` for success
pub data Error : Type 0 where
  unknown_event : Error

-- the `switch`
pub apply_kind : Codec → ReducerEvent → EventKind → Party → Party × Option Error
unfolding take_fields join_member update_member drop_member
apply_kind c e party_snapshot p =
    (take_fields c e (record p { id = e.party_id; revision = e.revision }), none)
apply_kind c e member_joined p =
    (if e.member.account_id == "" then p else join_member e.member p, none)
apply_kind c e member_updated p =
    (if e.member.account_id == "" then p else update_member e.member e.member_meta_removed p, none)
apply_kind c e member_left p = (if e.member_id == "" then p else drop_member e.member_id p, none)
apply_kind c e member_kicked p = (if e.member_id == "" then p else drop_member e.member_id p, none)
apply_kind c e party_updated p = (take_fields c e p, none)
apply_kind c e (other _) p = (p, some unknown_event)

-- what `ApplyEvent` does before the `switch`
pub prepare : Time → ReducerEvent → State → Party
unfolding ensure_party bump_revision touch apply_party_meta
prepare now e s =
    apply_party_meta e.party_meta_updates e.party_meta_removed
      (touch now e.at (bump_revision e.revision (ensure_party e.party_id s)))

unfoldable pub apply_event : Codec → Time → ReducerEvent → State → State × Option Error
unfolding prepare apply_kind
apply_event c now e s = let (p, err) = apply_kind c e e.kind (prepare now e s) in (some p, err)
