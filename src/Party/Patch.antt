-- ===== src/Party/Patch.antt =====
-- party/patch_builder.go: from an intent to the metadata that a patch sends. A draft is what
-- `BuildIntents` works on: the two baselines, and the keys that the intent touches.
pub mod Shown
pub mod Kept
use fngo.Prelude.{
  ◌==◌, string_eq, String, Bool, true, false, not, ◌&&◌, Option, none, some, List, [], ◌∷◌, get_or,
  text_append, if◌then◌else◌,
}
use fngo.Prelude.Int.{ℤ, pos, negsuc}
use fngo.GoMap
use fngo.GoMap.{GoMap, contains}
use fngo.GoTime.{Time, unix}
use fngo.GoStrings.{trim_space, trim_prefix, contains_codes, codes}
use fngo.Json
use fngo.Json.{Json, null, bool, num, float, str, arr, obj, Fields, end, field, Codec, at_or_null}
use fngo.Party.Types.{Loadout, Member, Party, zero_member, ready_state_ready}
use fngo.Party.Codec.{object_of, decode_json_map, decode_meta_schema, serialize_meta_value}
use fngo.Party.Templates.{deep_merge}

-- matchmaking/types.go
pub record PlaylistRequest : Type 0 where
  pub playlist_id : String
  pub region : String
  pub team_fill : Bool

pub record PatchIntent : Type 0 where
  pub ready : Option String
  pub playlist : Option PlaylistRequest
  pub custom_key : Option String
  pub loadout : Option Loadout
  pub outfit_id : Option String
  pub emote_id : Option String
  pub clear_emote : Bool

pub record BuiltPatch : Type 0 where
  pub party_meta_updates : Fields
  pub member_meta_updates : Fields

pub record PatchBuilder : Type 0 where
  pub account_id : String
  pub party_template : Fields
  pub member_template : Fields
  -- strings.ToLower
  pub to_lower_text : String → String

pub record Draft : Type 0 where
  pub party : Fields
  pub member : Fields
  pub touched_party : List String
  pub touched_member : List String

abbrev touch_key : List String → String → List String
touch_key keys key = if contains keys key then keys else key ∷ keys

-- partyBaseline[key] = value; touchedParty[key] = struct{}{}
pub set_party : String → Json → Draft → Draft
unfolding contains
set_party key v d = record d {
  party = Json.put d.party key v;
  touched_party = touch_key d.touched_party key;
}

pub set_member : String → Json → Draft → Draft
unfolding contains
set_member key v d = record d {
  member = Json.put d.member key v;
  touched_member = touch_key d.touched_member key;
}

normalize_outfit_id : String → String
normalize_outfit_id id = trim_space (trim_prefix (trim_space id) "AthenaCharacter:")

unfoldable pub build_emote_path : String → String
build_emote_path emote =
    let id = trim_space emote in
    if id == ""
    then "None"
    else if contains_codes (codes id) (codes "/") && contains_codes (codes id) (codes ".")
    then id
    else text_append "/BRCosmetics/Athena/Items/Cosmetics/Dances/"
        (text_append id (text_append "." id))

module _ (c : Codec) where
  pub as_json_map : Json → Fields
  as_json_map (obj m) = m
  as_json_map (str s) = decode_json_map c s
  as_json_map v = object_of c (c.unmarshal (c.marshal v))

  -- asJSONMap(m[key])
  abbrev pub inner_map : Fields → String → Fields
  unfolding as_json_map
  inner_map m key = as_json_map (at_or_null (Json.get m key))

  -- m[key][root] after `edit`, with m[key] and m[key][root] read as maps
  pub edit_root : Fields → String → String → (Fields → Fields) → Json
  unfolding as_json_map
  edit_root m key root edit =
      let outer = inner_map m key in obj (Json.put outer root (obj (edit (inner_map outer root))))

  edit_custom_key : Option String → Draft → Draft
  unfolding set_party
  edit_custom_key none d = d
  edit_custom_key (some key) d = set_party "Default:CustomMatchKey_s" (str (trim_space key)) d

  edit_ready : Option String → Draft → Draft
  unfolding set_member edit_root
  edit_ready none d = d
  edit_ready (some state) d =
      set_member "Default:LobbyState_j"
        (edit_root d.member "Default:LobbyState_j" "LobbyState" λ m.
          Json.put (Json.put m "gameReadiness" (str state)) "readyInputType"
            (str (if state == ready_state_ready then "MouseAndKeyboard" else "Count")))
        d

  abbrev island : PlaylistRequest → Time → Json
  island req at = obj (
      field "island" (str (c.marshal (obj (field "LinkId" (str req.playlist_id) end))))
        (field "timestamp" (num (unix at)) end))

  abbrev link : String → Json
  link mnemonic = obj (field "mnemonic" (str mnemonic) (field "version" (num (negsuc 0)) end))

  abbrev edit_region : String → Draft → Draft
  edit_region region d = if region == "" then d else set_party "Default:RegionId_s" (str region) d

  edit_playlist : (String → String) → Time → Option PlaylistRequest → Draft → Draft
  unfolding set_party set_member edit_root unix
  edit_playlist lower at none d = d
  edit_playlist lower at (some req) d =
      let info = edit_root d.member "Default:MatchmakingInfo_j" "MatchmakingInfo" λ m.
        Json.put (Json.put m "islandSelection" (island req at)) "currentIsland" (island req at) in
      let filled =
        set_party "Default:AthenaSquadFill_b" (bool req.team_fill)
          (set_member "Default:MatchmakingInfo_j" info d) in
      let placed = edit_region req.region filled in
      set_party "Default:SelectedIsland_j"
        (edit_root placed.party "Default:SelectedIsland_j" "SelectedIsland"
          λ m. Json.put m "linkId" (link (lower req.playlist_id)))
        placed

  abbrev put_unless_empty : String → String → Fields → Fields
  put_unless_empty key text m = if text == "" then m else Json.put m key (str text)

  abbrev edit_pickable : Json → Draft → Draft
  edit_pickable = λ v d.
      set_member "Default:FrontendEmote_j"
        (edit_root d.member "Default:FrontendEmote_j" "FrontendEmote" λ m. Json.put m "pickable" v)
        d

  edit_loadout : Option Loadout → Draft → Draft
  unfolding set_member edit_root
  edit_loadout none d = d
  edit_loadout (some l) d =
      let dressed =
        set_member "Default:AthenaCosmeticLoadout_j"
          (edit_root d.member "Default:AthenaCosmeticLoadout_j" "AthenaCosmeticLoadout" λ m.
            put_unless_empty "pickaxeDef" l.pickaxe (
              put_unless_empty "backpackDef" l.backpack
                (put_unless_empty "characterPrimaryAssetId" l.character m)))
          d in
      if l.emote == "" then dressed else edit_pickable (str l.emote) dressed

  -- mp["d"], a map as text, with ac.i set
  outfit_data : String → Fields → Json
  unfolding as_json_map
  outfit_data id mp =
      let content = inner_map mp "d" in
      str (
        c.marshal
          (obj (Json.put content "ac" (obj (Json.put (inner_map content "ac") "i" (str id))))))

  abbrev wear : String → Draft → Draft
  wear id d =
      let dressed =
        set_member "Default:AthenaCosmeticLoadout_j"
          (edit_root d.member "Default:AthenaCosmeticLoadout_j" "AthenaCosmeticLoadout"
            λ m. Json.put m "characterPrimaryAssetId" (str (text_append "AthenaCharacter:" id)))
          d in
      set_member "Default:MpLoadout_j"
        (edit_root dressed.member "Default:MpLoadout_j" "MpLoadout"
          λ m. Json.put m "d" (outfit_data id m))
        dressed

  edit_outfit : Option String → Draft → Draft
  unfolding set_member edit_root outfit_data normalize_outfit_id
  edit_outfit none d = d
  edit_outfit (some outfit) d =
      let id = normalize_outfit_id outfit in if id == "" then d else wear id d

  abbrev emote_as : String → ℤ → Draft → Draft
  emote_as pickable section d =
      set_member "Default:FrontendEmote_j"
        (edit_root d.member "Default:FrontendEmote_j" "FrontendEmote"
          λ m. Json.put (Json.put m "pickable" (str pickable)) "emoteSection" (num section))
        d

  edit_clear_emote : Bool → Draft → Draft
  unfolding set_member edit_root
  edit_clear_emote true d = emote_as "None" (negsuc 0) d
  edit_clear_emote false d = d

  edit_emote : Option String → Draft → Draft
  unfolding set_member edit_root build_emote_path
  edit_emote none d = d
  edit_emote (some emote) d =
      if trim_space emote == ""
      then d
      else emote_as (build_emote_path (trim_space emote)) (negsuc 1) d

  -- the edits in the order of the code
  pub edit_all : (String → String) → Time → PatchIntent → Draft → Draft
  unfolding edit_custom_key edit_ready edit_playlist edit_loadout edit_outfit edit_clear_emote
      edit_emote
  edit_all lower at intent d = edit_emote intent.emote_id (
      edit_clear_emote intent.clear_emote (
        edit_outfit intent.outfit_id (
          edit_loadout intent.loadout (
            edit_playlist lower at intent.playlist
              (edit_ready intent.ready (edit_custom_key intent.custom_key d))))))

  -- one key of the last loops: left out if the baseline lacks it or the snapshot has its text
  abbrev pub add_update : GoMap String String → String → Option Json → Fields → Fields
  add_update meta key none updates = updates
  add_update meta key (some v) updates =
      if get_or (GoMap.get meta key) "" == serialize_meta_value c key v
      then updates
      else Json.put updates key v

  pub updates_of : GoMap String String → Fields → List String → Fields
  updates_of meta baseline [] = end
  updates_of meta baseline (key ∷ keys) =
      add_update meta key (Json.get baseline key) (updates_of meta baseline keys)

  -- copyPartyTemplate and copyMemberTemplate are copies, and here the values themselves: an empty
  -- template of NewIntentPatchBuilder is one that could not be read, and is empty again when it is
  -- read again
  pub start_draft : PatchBuilder → Party → Member → Draft
  start_draft b snapshot member = record {
    party = deep_merge b.party_template (decode_meta_schema c snapshot.meta);
    member = deep_merge b.member_template (decode_meta_schema c member.meta);
    touched_party = [];
    touched_member = [];
  }

  -- for a snapshot that is there: without one BuildIntents returns an error
  unfoldable pub build_intents : PatchBuilder → Party → PatchIntent → Time → BuiltPatch
  unfolding edit_all updates_of start_draft
  build_intents b snapshot intent at =
      let member = get_or (GoMap.get snapshot.members b.account_id) zero_member in
      let d = edit_all b.to_lower_text at intent (start_draft b snapshot member) in
      record {
        party_meta_updates = updates_of snapshot.meta d.party d.touched_party;
        member_meta_updates = updates_of member.meta d.member d.touched_member;
      }
