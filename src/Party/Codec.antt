-- ===== src/Party/Codec.antt =====
-- party/meta_codec.go, and the functions of party/commands.go that read JSON inside metadata.
use fngo.Prelude.{
  ◌==◌, string_eq, String, Bool, true, false, not, ◌&&◌, Option, none, some, [], ◌∷◌, if◌then◌else◌,
}
use fngo.GoStrings.{trim_space, has_suffix, equal_fold, atoi}
use fngo.Prelude.Int.{ℤ}
use fngo.GoMap.{GoMap}
use fngo.Json
use fngo.Json.{Json, null, bool, num, float, str, arr, obj, Fields, end, field, Codec, at_or_null}
use fngo.Party.Types.{Loadout, ready_state_ready, ready_state_not_ready}

module _ (c : Codec) where
  -- the object that a text decodes to; a text of another kind, and null, give no entries
  unfoldable pub object_of : Option Json → Fields
  object_of (some (obj fs)) = fs
  object_of _ = end

  unfoldable pub decode_json_map : String → Fields
  unfolding object_of
  decode_json_map raw = if trim_space raw == "" then end else object_of (c.unmarshal raw)

  -- the value at a key, as an object; another kind of value goes through its text
  unfoldable pub decode_json_map_value : Fields → String → Fields
  unfolding object_of
  decode_json_map_value src key = elim (Json.get src key) [
    | none ↦ end
    | some (obj fs) ↦ fs
    | some v ↦ object_of (c.unmarshal (c.marshal v))
  ]

  abbrev meta_text : Json → String
  meta_text (str s) = s
  meta_text v = c.marshal v

  unfoldable pub normalize_meta_map : Fields → GoMap String String
  normalize_meta_map end = []
  normalize_meta_map (field k v m) = (k, meta_text v) ∷ normalize_meta_map m

  unfoldable pub normalize_printable : Json → String
  normalize_printable null = ""
  normalize_printable v = let s = c.sprint v in if s == "<nil>" then "" else s

  unfoldable pub extract_ready : String → String
  extract_ready raw =
      let lobby = decode_json_map_value (decode_json_map raw) "LobbyState" in
      let ready = c.sprint (at_or_null (Json.get lobby "gameReadiness")) in
      if ready == ready_state_ready then ready_state_ready else ready_state_not_ready

  -- `normalizePrintable(root[key])`
  printable_at : Fields → String → String
  unfolding normalize_printable
  printable_at root key = normalize_printable (at_or_null (Json.get root key))

  unfoldable pub extract_loadout : String → String → Loadout
  unfolding printable_at
  extract_loadout raw emote_raw =
      let root = decode_json_map_value (decode_json_map raw) "AthenaCosmeticLoadout" in
      let emote = decode_json_map_value (decode_json_map emote_raw) "FrontendEmote" in
      record {
        character = printable_at root "characterPrimaryAssetId";
        backpack = printable_at root "backpackDef";
        pickaxe = printable_at root "pickaxeDef";
        emote = printable_at emote "pickable";
      }

  unfoldable pub extract_playlist : String → String
  unfolding printable_at
  extract_playlist raw =
      let island = decode_json_map_value (decode_json_map raw) "SelectedIsland" in
      let link = printable_at island "LinkId" in
      if not (link == "") && not (link == "{}")
      then link
      else printable_at (decode_json_map_value island "linkId") "mnemonic"

  -- fmt.Sprint of a value that is no bool under `_b`, and the text of one
  abbrev plain : Json → String
  plain (str s) = s
  plain v = c.sprint v

  abbrev flag_or_plain : Json → String
  flag_or_plain (bool true) = "true"
  flag_or_plain (bool false) = "false"
  flag_or_plain v = plain v

  unfoldable pub serialize_meta_value : String → Json → String
  serialize_meta_value key v =
      if has_suffix key "_j"
      then meta_text v
      else if has_suffix key "_b"
      then flag_or_plain v
      else plain v

  abbrev json_or_text : String → Fields → Json
  json_or_text raw (field k v m) = obj (field k v m)
  json_or_text raw end = if trim_space raw == "" then obj end else str raw

  abbrev number_or_text : String → Option ℤ → Json
  number_or_text raw none = str raw
  number_or_text raw (some n) = num n

  abbrev flag_of : String → Option Bool
  flag_of raw =
      if equal_fold (trim_space raw) "true"
      then some true
      else if equal_fold (trim_space raw) "false"
      then some false
      else none

  -- a value under a key without `_j`
  abbrev scalar : String → String → Option Bool → Json
  scalar key raw (some b) = bool b
  scalar key raw none =
      if has_suffix key "_U" then number_or_text raw (atoi (trim_space raw)) else str raw

  unfoldable pub decode_meta_value : String → String → Json
  decode_meta_value key raw =
      if has_suffix key "_j"
      then json_or_text raw (decode_json_map raw)
      else scalar key raw (if has_suffix key "_b" then flag_of raw else none)

  unfoldable pub decode_meta_schema : GoMap String String → Fields
  unfolding decode_meta_value
  decode_meta_schema [] = end
  decode_meta_schema ((k, raw) ∷ m) = field k (decode_meta_value k raw) (decode_meta_schema m)

  unfoldable pub build_meta_patch : Fields → GoMap String String
  unfolding serialize_meta_value
  build_meta_patch end = []
  build_meta_patch (field k v m) = (k, serialize_meta_value k v) ∷ build_meta_patch m
