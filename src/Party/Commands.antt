-- ===== src/Party/Commands.antt =====
-- party/commands.go: the calls of the party service and the methods of `Commands` on them. The
-- mutex `opMu` keeps two methods from overlapping, so each is one step. Log lines are left out.
pub mod Service
pub mod Membership
pub mod Entering
pub mod Promotion
pub mod Patching
pub mod Setting
pub mod Spending
pub mod Rules
pub mod Outcomes
pub mod Promoted
pub mod Joined
pub mod Actions
pub mod Keeping
pub mod Refreshed
pub mod Validity
use fngo.Prelude.{
  ℕ, ◌+◌, ◌==◌, nat_eq, string_eq, String, Bool, true, false, not, ◌&&◌, ◌||◌, Option, none, some,
  List, [], ◌∷◌, leb, get_or, is_some, text_append, if◌then◌else◌,
}
use fngo.Prelude.Int.{ℤ, pos, leb_ℤ}
use fngo.GoMap
use fngo.GoMap.{GoMap}
use fngo.GoTime.{Time}
use fngo.GoStrings.{trim_space, trim_right, to_lower, codes, same_codes, contains_codes}
use fngo.Json
use fngo.Json.{
  Json, null, bool, num, float, str, arr, obj, Items, nil, cons, Fields, end, field, Codec,
  struct_of, string_field,
}
use fngo.Backoff.{Duration}
use fngo.Transport.Types.{Response, Reply, value, failure}
use fngo.Party.Types.{Member, Party, zero_party}
use fngo.Party.Reducer.{State}
use fngo.Party.Templates.{Files}
use fngo.Party.Remote.{
  RemoteParty, decode_party, decode_current, decode_party_pointer, map_remote_party,
  is_stale_revision, is_user_has_party,
}
use fngo.Party.Effect.{
  ApiError, Error, not_configured, party_not_found, member_not_found, not_captain, patch_conflict,
  invite_not_found, invalid, api, http_error, decode_error, context_error, Result, ok, err, Sys, M,
  pure, raise, continue, ◌>>=◌, ◌>>◌, snapshot, replace,
}

-- what HTTPClient.Request gets; a request without a body has `none`
pub record Call : Type 0 where
  pub method : String
  pub url : String
  pub body : Option Json

-- what lies outside: the HTTP client of this library's transport, or another one
pub record Env (W : Type 0) : Type 0 where
  pub request : Call → W → Reply Response × W
  -- time.Now().UTC()
  pub now : W → Time
  -- time.Parse with RFC3339
  pub parse_time : String → Option Time
  -- unicode.ToLower past ASCII
  pub unicode_lower : ℕ → ℕ
  -- strings.ToLower
  pub to_lower_text : String → String
  -- false if the context is done first
  pub sleep : Duration → W → Bool × W
  pub context_text : W → String

pub record Config : Type 0 where
  pub base_url : String
  pub account_id : String
  pub display_name : String
  pub platform : String
  pub build_id : String
  pub connection_id : String
  pub max_patch_retries : ℤ
  pub min_patch_backoff : Duration
  pub max_patch_backoff : Duration
  pub disable_auto_create : Bool

-- `env` is `none` where `Commands` was made without an HTTP client
pub record Commands (W : Type 0) : Type 0 where
  pub env : Option (Env W)
  pub codec : Codec
  pub cfg : Config
  -- the texts embedded in party/templates
  pub files : Files

-- an object of JSON, in the order of its members
abbrev pub object : List (String × Json) → Json
object l = obj (fields l)
  where
    fields : List (String × Json) → Fields
    fields [] = end
    fields ((k, v) ∷ m) = field k v (fields m)

abbrev text_or : String → String → String
text_or text default_text = if text == "" then default_text else text

abbrev delay_or : Duration → Duration → Duration
delay_or d default_delay = if leb_ℤ d (pos 0) then default_delay else d

-- NewCommands on the defaults of DefaultConfig
pub new_commands : {W : Type 0} → Option (Env W) → Codec → Config → Files → Commands W
new_commands env codec cfg files =
    let lo = delay_or cfg.min_patch_backoff (pos 100000000) in
    let hi = delay_or cfg.max_patch_backoff (pos 500000000) in
    record {
      env = env;
      codec = codec;
      cfg = record cfg {
        base_url =
            text_or cfg.base_url
              "https://party-service-prod.ol.epicgames.com/party/api/v1/Fortnite";
        platform = text_or cfg.platform "WIN";
        build_id = text_or cfg.build_id "1:3:";
        max_patch_retries =
            if leb_ℤ cfg.max_patch_retries (pos 0) then pos 3 else cfg.max_patch_retries;
        min_patch_backoff = lo;
        max_patch_backoff = if leb_ℤ lo hi then hi else lo;
      };
      files = files;
    }
