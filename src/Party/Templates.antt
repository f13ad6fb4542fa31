-- ===== src/Party/Templates.antt =====
-- party/templates/templates.go. A Go map is a value here: `DeepMerge` and `PathSet` copy what they
-- take over, so that no two maps share a part. A nil map is the empty one.
pub mod Merging
pub mod Paths
use fngo.Prelude.{
  ◌==◌, string_eq, String, Bool, true, false, Option, none, some, List, [], ◌∷◌, if◌then◌else◌,
}
use fngo.GoStrings.{trim_space, split_on}
use fngo.Json
use fngo.Json.{Json, null, obj, Fields, end, field, Codec}

-- src is run over; dst is as it was before, since each key of src comes once
mutual
  pub merge_value : Json → Option Json → Json
  merge_value (obj src) (some (obj dst)) = obj (merge_fields src dst)
  merge_value v _ = v

  pub merge_fields : Fields → Fields → Fields
  merge_fields end dst = dst
  merge_fields (field k v src) dst =
      Json.put (merge_fields src dst) k (merge_value v (Json.get dst k))

unfoldable pub deep_merge : Fields → Fields → Fields
unfolding merge_fields
deep_merge dst src = merge_fields src dst

abbrev or_nothing : Option (List String) → String → Option (List String)
or_nothing none part = none
or_nothing (some parts) part =
    if trim_space part == "" then none else some (trim_space part ∷ parts)

-- the parts of a path, trimmed; none if one of them is empty
trimmed_parts : List String → Option (List String)
trimmed_parts [] = some []
trimmed_parts (part ∷ parts) = or_nothing (trimmed_parts parts) part

unfoldable pub split_path : String → List String
unfolding trimmed_parts
split_path path =
    if trim_space path == ""
    then []
    else elim (trimmed_parts (split_on b'.' (trim_space path))) [ none ↦ [] | some parts ↦ parts ]

-- the loop of `PathGet`
unfoldable pub get_at : List String → Fields → Option Json
get_at [] m = none
get_at (part ∷ []) m = Json.get m part
get_at (part ∷ next ∷ parts) m = elim (Json.get m part) [
  | some (obj inner) ↦ get_at (next ∷ parts) inner
  | _ ↦ none
]

unfoldable pub path_get : Fields → String → Option Json
unfolding split_path get_at
path_get root path = get_at (split_path path) root

abbrev pub in_key : Fields → String → Option Fields → Option Fields
in_key m part none = none
in_key m part (some inner) = some (Json.put m part (obj inner))

-- the loop of `PathSet`; `none` where it returns false, which it does before it changes anything
unfoldable pub set_at : List String → Json → Fields → Option Fields
set_at [] value m = none
set_at (part ∷ []) value m = some (Json.put m part value)
set_at (part ∷ next ∷ parts) value m = elim (Json.get m part) [
  | none ↦ in_key m part (set_at (next ∷ parts) value end)
  | some (obj inner) ↦ in_key m part (set_at (next ∷ parts) value inner)
  | some _ ↦ none
]

-- The root is a map that was made: for a nil one, which no caller has, PathSet returns false.
unfoldable pub path_set : Fields → String → Json → Option Fields
unfolding split_path set_at
path_set root path value = set_at (split_path path) value root

-- the embedded texts
pub record Files : Type 0 where
  pub party_raw : String
  pub member_raw : String

-- parseTemplate: null gives no entries, and another value but an object is an error
abbrev parse_template : Codec → String → Option Fields
parse_template c raw = Json.struct_of (c.unmarshal raw)

-- what ensureTemplates leaves: an error in either text is an error of both
abbrev both : Option Fields → Option Fields → Fields × Fields
both (some party) (some member) = (party, member)
both _ _ = (end, end)

templates : Codec → Files → Fields × Fields
templates c files = both (parse_template c files.party_raw) (parse_template c files.member_raw)

unfoldable pub default_party_meta : Codec → Files → Fields
unfolding templates
default_party_meta c files = (templates c files).0

unfoldable pub default_party_member_meta : Codec → Files → Fields
unfolding templates
default_party_member_meta c files = (templates c files).1
