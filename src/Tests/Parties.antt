-- ===== src/Tests/Parties.antt =====
-- party/reducer.go and the decoding of parties, on a party of one member.
use fngo.Prelude.{
  true, none, some, [], ◌∷◌, ◌≡◌, refl, String, ◌==◌, string_eq, nat_eq, if◌then◌else◌, get_or,
}
use fngo.Prelude.Int.{pos}
use fngo.GoMap
use fngo.GoMap.{GoMap}
use fngo.Json
use fngo.Json.{Json, null, num, str, arr, obj, Items, nil, cons, Fields, end, field, Codec}
use fngo.Party.Types.{
  Member, Party, EventKind, member_left, party_updated, ReducerEvent, zero_member, zero_party,
}
use fngo.Party.Reducer.{apply_event, non_empty_or}
use fngo.Party.Reducer.Keys.{IsKeyed, insert-IsKeyed}
use fngo.Party.Reducer.Captain.{captain_ok, apply_event-captain}
use fngo.Party.Reducer.Revision.{revision_of, max_revision, apply_events, apply_events-revision}
use fngo.Party.Reducer.Meta.{
  meta_of, patched, custom_key_of, region_of, apply_event-meta, apply_event-derived,
}
use fngo.Party.Remote.{RemoteParty, map_remote_party}
use fngo.Party.Remote.Mapping.{map_remote_party-valid}

abbrev nobody : Json
nobody = obj (field "account_id" (str "b") (field "role" (str "MEMBER") end))

abbrev captain_json : Json
captain_json = obj (field "account_id" (str "a") (field "role" (str "CAPTAIN") end))

-- an answer of the service: the party "p" of "a" and "b"
abbrev pub party_json : Json
party_json = obj (
    field "id" (str "p") (
      field "revision" (num (pos 3))
        (field "members" (arr (cons captain_json (cons nobody nil))) end)))

-- texts that stand for JSON values
abbrev pub codec : Codec
codec = record {
  unmarshal = λ s.
      if s == "party"
      then some party_json
      else if s == "current"
      then some (obj (field "current" (arr (cons party_json nil)) end))
      else none;
  marshal = λ _. "json";
  member = λ fs k. Json.get fs k;
  sprint = λ _. "";
}

abbrev alice : Member
alice = record zero_member { account_id = "a"; role = "CAPTAIN" }

abbrev bob : Member
bob = record zero_member { account_id = "b" }

abbrev pub crew : GoMap String Member
crew = GoMap.insert (GoMap.insert [] "a" alice) "b" bob

pub crew-IsKeyed : IsKeyed crew
crew-IsKeyed =
    insert-IsKeyed (GoMap.insert [] "a" alice) bob "b" refl
      (insert-IsKeyed [] alice "a" refl (record { own_key = λ k m h. unfold GoMap.get in cc }))

abbrev pub held : Party
held = record zero_party { id = "p"; revision = pos 2; captain_id = "a"; members = crew }

abbrev pub event_of : EventKind → ReducerEvent
event_of k = record {
  kind = k;
  party_id = "p";
  revision = pos 4;
  member = bob;
  member_id = "a";
  captain_id = "";
  playlist = "";
  custom_key = "k";
  party_meta_updates = [];
  party_meta_removed = "Default:CustomMatchKey_s" ∷ [];
  member_meta_removed = [];
  at = pos 7;
}

abbrev pub departure : ReducerEvent
departure = event_of member_left

apply_event-captain_example : captain_ok (apply_event codec (pos 9) departure (some held)).0 ≡ true
unfolding GoMap.get GoMap.insert GoMap.delete
apply_event-captain_example = apply_event-captain codec (pos 9) departure (some held) refl refl

apply_events-revision_example :
    revision_of (apply_events codec (pos 9) (departure ∷ event_of party_updated ∷ []) (some held))
    ≡ max_revision (pos 2) (departure ∷ event_of party_updated ∷ [])
apply_events-revision_example =
    apply_events-revision codec (pos 9) (departure ∷ event_of party_updated ∷ []) (some held)
      ((λ e. cc), ((λ e. cc), tt))

apply_event-meta_example :
    GoMap.get
      (meta_of (apply_event codec (pos 9) departure (some held)).0)
      "Default:CustomMatchKey_s"
    ≡ patched [] ("Default:CustomMatchKey_s" ∷ []) [] "Default:CustomMatchKey_s"
apply_event-meta_example =
    apply_event-meta codec (pos 9) departure (some held) "Default:CustomMatchKey_s"

apply_event-derived_example :
    let s = (apply_event codec (pos 9) (event_of party_updated) (some held)).0 in
    (custom_key_of s
      ≡ get_or
          (patched [] ("Default:CustomMatchKey_s" ∷ []) [] "Default:CustomMatchKey_s")
          (non_empty_or "k" ""))
    × (region_of s
        ≡ get_or (patched [] ("Default:CustomMatchKey_s" ∷ []) [] "Default:RegionId_s") "")
apply_event-derived_example =
    apply_event-derived codec (pos 9) (event_of party_updated) (some held) refl

abbrev remote : RemoteParty
remote = record {
  id = "p";
  revision = pos 3;
  meta = end;
  members =
      record {
        account_id = "a";
        account_dn = "A";
        role = "CAPTAIN";
        joined_at = "";
        revision = pos 1;
        meta = end;
      }
      ∷ [];
}

map_remote_party-valid_example :
    IsKeyed (map_remote_party codec (λ _. none) (pos 9) remote).members
    × (captain_ok (some (map_remote_party codec (λ _. none) (pos 9) remote)) ≡ true)
map_remote_party-valid_example = map_remote_party-valid codec (λ _. none) (pos 9) remote
