-- ===== src/Party/Templates/Merging.antt =====
-- party/templates/templates.go: what a merge leaves at each key and along each path.
use fngo.Prelude.{
  ◌==◌, string_eq, eq_iff, String, ◌≡◌, refl, sym, ap, ◌∙◌, Option, none, some, List, [], ◌∷◌,
  if◌then◌else◌, arith,
}
use fngo.Json
use fngo.Json.{Json, null, bool, num, float, str, arr, obj, Fields, end, field}
use fngo.Party.Templates.{merge_value, merge_fields, deep_merge, get_at}

pub get-put :
    (m : Fields) (k j : String) (v : Json)
    → Json.get (Json.put m k v) j ≡ (if k == j then some v else Json.get m j)
unfolding Json.get Json.put
get-put end k j v = ground arith
get-put (field i w m) k j v = ground (arith, get-put m k j v, eq_iff i k, eq_iff i j, eq_iff k j)

-- what the merge has at a key, by what the two maps have there
abbrev pub merged : Option Json → Option Json → Option Json
merged old none = old
merged old (some v) = some (merge_value v old)

get-merge_fields :
    (src dst : Fields) (k : String)
    → Json.get (merge_fields src dst) k ≡ merged (Json.get dst k) (Json.get src k)
unfolding merge_fields Json.get
get-merge_fields end dst k = refl
get-merge_fields (field j v src) dst k = ground (
  arith,
  get-put (merge_fields src dst) j k (merge_value v (Json.get dst j)),
  eq_iff j k,
  get-merge_fields src dst k,
)

-- At each key a merge has what the source has there, merged into what was there if both are
-- objects; a key that the source lacks keeps its value.
pub get-deep_merge :
    (dst src : Fields) (k : String)
    → Json.get (deep_merge dst src) k ≡ merged (Json.get dst k) (Json.get src k)
unfolding deep_merge
get-deep_merge dst src k = get-merge_fields src dst k

-- a value that is no object
abbrev pub IsLeaf : Json → Type 0
IsLeaf (obj _) = ⊥
IsLeaf _ = Unit {0}

merge_leaf : (v : Json) (o : Option Json) → IsLeaf v → merge_value v o ≡ v
unfolding merge_value
merge_leaf null o h = refl
merge_leaf (bool _) o h = refl
merge_leaf (num _) o h = refl
merge_leaf (float _) o h = refl
merge_leaf (str _) o h = refl
merge_leaf (arr _) o h = refl
merge_leaf (obj _) o h = absurd h

-- `get_at` of a longer path, by the value at its first part
abbrev pub step_at : List String → Option Json → Option Json
step_at parts (some (obj inner)) = get_at parts inner
step_at parts _ = none

pub get_at-step :
    (part next : String) (parts : List String) (m : Fields)
    → get_at (part ∷ next ∷ parts) m ≡ step_at (next ∷ parts) (Json.get m part)
unfolding get_at
get_at-step part next parts m = ground arith

step-merged :
    (parts : List String) (v : Json) (o old : Option Json)
    → ((inner d : Fields)
        → get_at parts inner ≡ some v
        → get_at parts (merge_fields inner d) ≡ some v)
    → step_at parts o ≡ some v
    → step_at parts (merged old o) ≡ some v
unfolding merge_value
step-merged parts v none old ih h = absurd (cc)
step-merged parts v (some (obj inner)) none ih h = h
step-merged parts v (some (obj inner)) (some (obj d)) ih h = ih inner d h
step-merged parts v (some (obj inner)) (some null) ih h = h
step-merged parts v (some (obj inner)) (some (bool _)) ih h = h
step-merged parts v (some (obj inner)) (some (num _)) ih h = h
step-merged parts v (some (obj inner)) (some (float _)) ih h = h
step-merged parts v (some (obj inner)) (some (str _)) ih h = h
step-merged parts v (some (obj inner)) (some (arr _)) ih h = h
step-merged parts v (some null) old ih h = absurd (cc)
step-merged parts v (some (bool _)) old ih h = absurd (cc)
step-merged parts v (some (num _)) old ih h = absurd (cc)
step-merged parts v (some (float _)) old ih h = absurd (cc)
step-merged parts v (some (str _)) old ih h = absurd (cc)
step-merged parts v (some (arr _)) old ih h = absurd (cc)

get_at-merge :
    (parts : List String) (v : Json) (src dst : Fields)
    → IsLeaf v
    → get_at parts src ≡ some v
    → get_at parts (merge_fields src dst) ≡ some v
unfolding get_at
get_at-merge [] v src dst l h = absurd (cc)
get_at-merge (part ∷ []) v src dst l h =
    rw (get-merge_fields src dst part, h) (ap some (merge_leaf v (Json.get dst part) l))
get_at-merge (part ∷ next ∷ parts) v src dst l h =
    get_at-step part next parts (merge_fields src dst)
    ∙ rw (get-merge_fields src dst part) (
        step-merged (next ∷ parts) v (Json.get src part) (Json.get dst part)
          (λ inner d. get_at-merge (next ∷ parts) v inner d l)
          (sym (get_at-step part next parts src) ∙ h))

-- A value other than an object that the source has along a path is there after the merge, whatever
-- the destination has on the way.
pub get_at-deep_merge :
    (part : String) (parts : List String) (v : Json) (dst src : Fields)
    → IsLeaf v
    → get_at (part ∷ parts) src ≡ some v
    → get_at (part ∷ parts) (deep_merge dst src) ≡ some v
unfolding deep_merge
get_at-deep_merge part parts v dst src l h = get_at-merge (part ∷ parts) v src dst l h

-- Where the source lacks the first key of a path, all along that path is as it was.
get_at-deep_merge_rest :
    (part : String) (parts : List String) (dst src : Fields)
    → Json.get src part ≡ none
    → get_at (part ∷ parts) (deep_merge dst src) ≡ get_at (part ∷ parts) dst
unfolding deep_merge
get_at-deep_merge_rest part [] dst src h =
    unfold get_at in rw (get-merge_fields src dst part, h) refl
get_at-deep_merge_rest part (next ∷ parts) dst src h =
    rw
      (
        get_at-step part next parts (merge_fields src dst),
        get_at-step part next parts dst,
        get-merge_fields src dst part,
        h,
      )
      refl
