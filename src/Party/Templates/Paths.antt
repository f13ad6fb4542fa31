-- ===== src/Party/Templates/Paths.antt =====
-- party/templates/templates.go: reading along a path what was set along it.
use fngo.Prelude.{
  string_eq, eq_iff, String, ◌≡◌, ◌≢◌, refl, sym, ◌∙◌, Option, none, some, List, [], ◌∷◌, arith,
}
use fngo.Json
use fngo.Json.{Json, null, bool, num, float, str, arr, obj, Fields, end, field}
use fngo.Party.Templates.{in_key, get_at, set_at, path_get, path_set, split_path}
use fngo.Party.Templates.Merging.{get-put, get_at-step}

-- the map that a path enters at its first part, a new one where there is none
abbrev entered : Option Json → Option Fields
entered none = some end
entered (some (obj inner)) = some inner
entered (some _) = none

abbrev set_inside : Fields → String → List String → Json → Option Fields → Option Fields
set_inside m part parts v none = none
set_inside m part parts v (some inner) = in_key m part (set_at parts v inner)

set_at-step :
    (part next : String) (parts : List String) (v : Json) (m : Fields)
    → set_at (part ∷ next ∷ parts) v m
      ≡ set_inside m part (next ∷ parts) v (entered (Json.get m part))
unfolding set_at
set_at-step part next parts v m = ground arith

-- the map under `part`, after a path through it has been set
in_key-some :
    (m m' : Fields) (part : String) (o : Option Fields)
    → in_key m part o ≡ some m'
    → (inner : Fields) × (o ≡ some inner) × (m' ≡ Json.put m part (obj inner))
in_key-some m m' part none h = absurd (cc)
in_key-some m m' part (some inner) h = (inner, refl, cc)

set_inside-some :
    (m m' : Fields) (part : String) (parts : List String) (v : Json) (o : Option Fields)
    → set_inside m part parts v o ≡ some m'
    → (d inner : Fields) × (set_at parts v d ≡ some inner) × (m' ≡ Json.put m part (obj inner))
set_inside-some m m' part parts v none h = absurd (cc)
set_inside-some m m' part parts v (some d) h =
    let (inner, p, q) = in_key-some m m' part (set_at parts v d) h in (d, inner, p, q)

get_at-set_at :
    (parts : List String) (v : Json) (m m' : Fields)
    → set_at parts v m ≡ some m'
    → get_at parts m' ≡ some v
unfolding set_at get_at
get_at-set_at [] v m m' h = absurd (cc)
get_at-set_at (part ∷ []) v m m' h = ground (arith, get-put m part part v, eq_iff part part)
get_at-set_at (part ∷ next ∷ parts) v m m' h =
    let (d, inner, p, q) =
      set_inside-some m m' part (next ∷ parts) v (entered (Json.get m part))
        (sym (set_at-step part next parts v m) ∙ h) in
    get_at-step part next parts m'
    ∙ rw (q, get-put m part part (obj inner), (eq_iff part part).1 refl)
        (get_at-set_at (next ∷ parts) v d inner p)

get-set_at :
    (part : String) (parts : List String) (v : Json) (m m' : Fields) (k : String)
    → set_at (part ∷ parts) v m ≡ some m'
    → k ≢ part
    → Json.get m' k ≡ Json.get m k
unfolding set_at
get-set_at part [] v m m' k h n = ground (arith, get-put m part k v, eq_iff part k)
get-set_at part (next ∷ parts) v m m' k h n =
    let (d, inner, p, q) =
      set_inside-some m m' part (next ∷ parts) v (entered (Json.get m part))
        (sym (set_at-step part next parts v m) ∙ h) in
    rw q (ground (arith, get-put m part k (obj inner), eq_iff part k))

-- Where `PathSet` succeeds, `PathGet` of the same path reads the value that was set, whatever the
-- path and the value are, and a key of the root other than the first part of the path keeps its
-- value.
pub path_get-path_set :
    (root root' : Fields) (path part k : String) (parts : List String) (v : Json)
    → path_set root path v ≡ some root'
    → split_path path ≡ part ∷ parts
    → k ≢ part
    → (path_get root' path ≡ some v) × (Json.get root' k ≡ Json.get root k)
unfolding path_get path_set
path_get-path_set root root' path part k parts v h e n =
    let set : set_at (part ∷ parts) v root ≡ some root' = rw e at h in
    (
      rw e (get_at-set_at (part ∷ parts) v root root' set),
      get-set_at part parts v root root' k set n,
    )
