-- ===== src/Party/Reducer/Meta.antt =====
-- The metadata of a party, and the fields that are derived from it.
use fngo.Prelude.{
  string_eq, String, ◌≡◌, refl, ◌∙◌, Bool, true, false, Option, none, some, List, [], arith, get_or,
  if◌then◌else◌,
}
use fngo.GoMap
use fngo.GoMap.{GoMap, get-insert, get-delete}
use fngo.GoMap.{or_else, contains, get-insert_all, get-delete_all}
use fngo.GoTime.{Time}
use fngo.Json.{Codec}
use fngo.Party.Types.{Party, EventKind, party_snapshot, member_joined, party_updated, ReducerEvent}
use fngo.Party.Reducer.{non_empty_or, State, apply_kind, prepare, apply_event}

abbrev pub meta_of : State → GoMap String String
meta_of none = []
meta_of (some p) = p.meta

-- what an event makes of the value at a key
abbrev pub patched :
    GoMap String String → List String → GoMap String String → String → Option String
patched updates removed old k =
    if contains removed k then none else or_else (GoMap.get updates k) (GoMap.get old k)

meta-prepare :
    (now : Time) (e : ReducerEvent) (s : State)
    → (prepare now e s).meta
      ≡ GoMap.delete_all (GoMap.insert_all (meta_of s) e.party_meta_updates) e.party_meta_removed
unfolding prepare
meta-prepare now e none = ground arith
meta-prepare now e (some p) = ground arith

meta-apply_kind :
    (c : Codec) (e : ReducerEvent) (k : EventKind) (p : Party)
    → (apply_kind c e k p).0.meta ≡ p.meta
unfolding apply_kind
meta-apply_kind c e party_snapshot p = refl
meta-apply_kind c e _ p = ground arith

-- After any event, of any kind, the party's metadata at a key is what the event says: nothing if it
-- removes the key, else the value that it sets, else the value before.
pub apply_event-meta :
    (c : Codec) (now : Time) (e : ReducerEvent) (s : State) (k : String)
    → GoMap.get (meta_of (apply_event c now e s).0) k
      ≡ patched e.party_meta_updates e.party_meta_removed (meta_of s) k
unfolding apply_event
apply_event-meta c now e s k = rw (
  meta-apply_kind c e e.kind (prepare now e s),
  meta-prepare now e s,
  get-delete_all,
  get-insert_all,
)

-- the kinds of event that carry fields of the party
abbrev pub is_party_kind : EventKind → Bool
is_party_kind party_snapshot = true
is_party_kind party_updated = true
is_party_kind _ = false

abbrev pub custom_key_of : State → String
custom_key_of none = ""
custom_key_of (some p) = p.custom_key

abbrev pub region_of : State → String
region_of none = ""
region_of (some p) = p.region_id

custom_key-prepare :
    (now : Time) (e : ReducerEvent) (s : State)
    → ((prepare now e s).custom_key ≡ custom_key_of s) × ((prepare now e s).region_id ≡ region_of s)
unfolding prepare
custom_key-prepare now e none = ground arith
custom_key-prepare now e (some p) = ground arith

-- the fields that follow the metadata, after the `switch`
derived-apply_kind :
    (c : Codec) (e : ReducerEvent) (k : EventKind) (p : Party)
    → is_party_kind k ≡ true
    → ((apply_kind c e k p).0.custom_key
        ≡ get_or
            (GoMap.get p.meta "Default:CustomMatchKey_s")
            (non_empty_or e.custom_key p.custom_key))
      × ((apply_kind c e k p).0.region_id
          ≡ get_or (GoMap.get p.meta "Default:RegionId_s") p.region_id)
unfolding apply_kind
derived-apply_kind c e party_snapshot p h = (refl, refl)
derived-apply_kind c e party_updated p h = (refl, refl)
derived-apply_kind c e member_joined p h = cc
derived-apply_kind c e _ p h = cc

-- After a snapshot or an update of the party, the custom key is the metadata's value of
-- Default:CustomMatchKey_s as the event leaves it; where the event leaves none, it is the event's own
-- custom key, or the one before if that is empty. The region is the value of Default:RegionId_s, or
-- the one before. So the removal of a key from the metadata does not clear the field.
pub apply_event-derived :
    (c : Codec) (now : Time) (e : ReducerEvent) (s : State)
    → is_party_kind e.kind ≡ true
    → let at = patched e.party_meta_updates e.party_meta_removed (meta_of s) in
      let s' = (apply_event c now e s).0 in
      (custom_key_of s'
        ≡ get_or (at "Default:CustomMatchKey_s") (non_empty_or e.custom_key (custom_key_of s)))
      × (region_of s' ≡ get_or (at "Default:RegionId_s") (region_of s))
unfolding apply_event
apply_event-derived c now e s h =
    let (key, region) = derived-apply_kind c e e.kind (prepare now e s) h in
    let (key_before, region_before) = custom_key-prepare now e s in
    (
      key ∙ rw (meta-prepare now e s, get-delete_all, get-insert_all, key_before),
      region ∙ rw (meta-prepare now e s, get-delete_all, get-insert_all, region_before),
    )
