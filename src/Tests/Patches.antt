-- ===== src/Tests/Patches.antt =====
-- party/patch_builder.go and party/templates/templates.go, and the patches that party/commands.go
-- sends.
use fngo.Prelude.{ℕ, ◌+◌, ◌*◌, ◌≤◌, string_eq, some, [], ◌∷◌, ◌≡◌, refl, get_or, arith, eq_iff}
use fngo.Prelude.Int.{pos}
use fngo.GoMap
use fngo.Json
use fngo.Json.{Json, num, str, obj, Fields, end, field, Codec}
use fngo.GoStrings.{split_on, trim_space, has_suffix}
use fngo.Party.Codec.{decode_meta_schema, serialize_meta_value, object_of}
use fngo.Party.Types.{zero_member}
use fngo.Party.Effect.{Sys}
use fngo.Party.Templates.{path_get, path_set, split_path, get_at, deep_merge}
use fngo.Party.Templates.Paths.{path_get-path_set}
use fngo.Party.Templates.Merging.{step_at, get_at-deep_merge}
use fngo.Party.Patch.{PatchIntent, PatchBuilder, build_intents}
use fngo.Party.Patch.Kept.{OnlyChanges, PartyKey, MemberKey, build_intents-OnlyChanges}
use fngo.Party.Patch.Shown.{build_intents-ready}
use fngo.Party.Commands.Setting.{no_intent}
use fngo.Party.Commands.Patching.{apply_intent_with_retry}
use fngo.Party.Commands.Spending.{Metered, metered, apply_intent-requests}
use fngo.Tests.Parties.{codec, held}
use fngo.Tests.Calls.{commands}

abbrev be_ready : PatchIntent
be_ready = record no_intent { ready = some "Ready"; custom_key = some "k2" }

abbrev builder : PatchBuilder
builder = record {
  account_id = "a";
  party_template = end;
  member_template = end;
  to_lower_text = λ text. text;
}

-- the lobby state of a member that is ready
abbrev ready_lobby : Json
ready_lobby = obj (
    field "LobbyState"
      (obj
        (field "gameReadiness" (str "Ready") (field "readyInputType" (str "MouseAndKeyboard") end)))
      end)

abbrev start : Sys (Metered ℕ)
start = record { state = some held; world = record { world = 0; requests = 0 } }

apply_intent-requests_example :
    (apply_intent_with_retry (metered commands) be_ready start).1.world.requests ≤ 0 + 4 * (3 + 1)
apply_intent-requests_example = apply_intent-requests commands be_ready start 3 refl

build_intents-OnlyChanges_example :
    OnlyChanges codec held.meta
      (PartyKey be_ready)
      (build_intents codec builder held be_ready (pos 0)).party_meta_updates
    × OnlyChanges codec
        (get_or (GoMap.get held.members "a") zero_member).meta
        (MemberKey be_ready)
        (build_intents codec builder held be_ready (pos 0)).member_meta_updates
build_intents-OnlyChanges_example = build_intents-OnlyChanges codec builder held be_ready (pos 0)

build_intents-ready_example :
    step_at ("LobbyState" ∷ "gameReadiness" ∷ []) (some ready_lobby) ≡ some (str "Ready")
unfolding build_intents Json.get Json.put deep_merge decode_meta_schema GoMap.get GoMap.insert
    GoMap.delete serialize_meta_value has_suffix object_of
build_intents-ready_example =
    build_intents-ready codec builder held be_ready (pos 0) "Ready" ready_lobby refl refl

abbrev old_root : Fields
old_root = field "a" (obj (field "x" (str "1") end)) (field "c" (str "2") end)

abbrev new_root : Fields
new_root =
    field "a" (obj (field "x" (str "1") (field "b" (num (pos 3)) end))) (field "c" (str "2") end)

path_get-path_set_example :
    (path_get new_root "a.b" ≡ some (num (pos 3))) × (Json.get new_root "c" ≡ Json.get old_root "c")
unfolding path_set split_path trim_space split_on Json.get Json.put
path_get-path_set_example =
    path_get-path_set old_root new_root "a.b" "a" "c" ("b" ∷ []) (num (pos 3)) refl refl
      λ e. ground (arith, eq_iff "c" "a")

get_at-deep_merge_example :
    get_at ("a" ∷ "b" ∷ []) (deep_merge (field "a" (str "0") end) new_root) ≡ some (num (pos 3))
unfolding get_at Json.get
get_at-deep_merge_example =
    get_at-deep_merge "a" ("b" ∷ []) (num (pos 3)) (field "a" (str "0") end) new_root tt refl
