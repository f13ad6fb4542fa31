-- ===== src/Json.antt =====
-- JSON values, as encoding/json decodes them into `any`, and the parts of that package and of fmt
-- that stay parameters: the grammar of the text. `num` is a number that an int64 holds, `float`
-- any other one, by its text. Objects hold each key once.
use fngo.Prelude.{◌==◌, string_eq, String, Bool, Option, none, some, if◌then◌else◌}
use fngo.Prelude.Int.{ℤ}

mutual
  pub data Json : Type 0 where
    null : Json
    bool : Bool → Json
    num : ℤ → Json
    float : String → Json
    str : String → Json
    arr : Items → Json
    obj : Fields → Json

  pub data Items : Type 0 where
    nil : Items
    cons : Json → Items → Items

  pub data Fields : Type 0 where
    end : Fields
    field : String → Json → Fields → Fields

-- v, ok := m[key] on a map[string]any
unfoldable pub get : Fields → String → Option Json
get end key = none
get (field k v m) key = if k == key then some v else get m key

-- m[key] = v
unfoldable pub put : Fields → String → Json → Fields
put end key v = field key v end
put (field k w m) key v = let rest = put m key v in if k == key then field k v m else field k w rest

pub record Codec : Type 0 where
  -- json.Unmarshal into an `any`; `none` for a text that is no JSON
  pub unmarshal : String → Option Json
  -- json.Marshal, which succeeds on these values
  pub marshal : Json → String
  -- the member of an object that fits a struct's tag, by its name with case ignored
  pub member : Fields → String → Option Json
  -- fmt.Sprint
  pub sprint : Json → String

-- m[key], where a missing key is a nil `any`
abbrev pub at_or_null : Option Json → Json
at_or_null none = null
at_or_null (some v) = v

-- the members that json.Unmarshal reads into a struct: those of an object, none of a null, and an
-- error for any other value or text
abbrev pub struct_of : Option Json → Option Fields
struct_of (some (obj fs)) = some fs
struct_of (some null) = some end
struct_of _ = none

-- a string field of the struct: left empty by a missing member and by null, and an error for any
-- other value
abbrev pub string_field : Option Json → Option String
string_field none = some ""
string_field (some null) = some ""
string_field (some (str s)) = some s
string_field (some _) = none

-- a list in the struct: empty for a missing member and for null, and an error for any other value
abbrev pub items_field : Option Json → Option Items
items_field none = some nil
items_field (some null) = some nil
items_field (some (arr xs)) = some xs
items_field (some _) = none

infixl 5 ◌>>=◌
abbrev pub ◌>>=◌ {ℓ κ} : {A : Type ℓ} {B : Type κ} → Option A → (A → Option B) → Option B
none >>= f = none
some a >>= f = f a
