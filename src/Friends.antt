-- ===== src/Friends.antt =====
-- friends/models.go, friends/config.go and the parts of friends/commands.go that its methods share.
pub mod Summary
pub mod Methods
pub mod Trimmed
pub mod Removal
pub mod Decoder
use fngo.Prelude.{
  ℕ, ◌==◌, nat_eq, string_eq, String, Bool, Option, none, some, List, ◌||◌, leb, get_or,
  text_append, if◌then◌else◌,
}
use fngo.GoTime.{Time}
use fngo.GoStrings.{trim_left, trim_right}
use fngo.Json
use fngo.Json.{Json, Fields, end, Codec, struct_of, string_field}
use fngo.Transport.Types.{Response, Reply, value, failure}

pub record Friend : Type 0 where
  pub account_id : String
  pub display_name : String
  pub created_at : Option Time

pub record FriendRequest : Type 0 where
  pub account_id : String
  pub display_name : String
  pub created_at : Option Time

pub record ApiError : Type 0 where
  pub status_code : ℕ
  pub code : String
  pub message : String

pub data Error : Type 0 where
  not_configured decode_error : Error
  invalid : String → Error
  api : ApiError → Error
  http_error context_error : String → Error

pub record BulkOperationError : Type 0 where
  pub account_id : String
  pub error : Error

pub record BulkRemoveResult : Type 0 where
  pub attempted : ℕ
  pub removed : ℕ
  pub failed : List BulkOperationError

pub record Config : Type 0 where
  pub base_url : String
  pub account_id : String

pub record Call : Type 0 where
  pub method : String
  pub url : String

-- what lies outside
pub record Env (W : Type 0) : Type 0 where
  pub request : Call → W → Reply Response × W
  -- ctx.Err()
  pub context_error : W → Option String
  -- time.Parse with the first of the four layouts that fits, in UTC
  pub parse_layouts : String → Option Time

-- `env` is `none` where `Commands` was made without an HTTP client
pub record Commands (W : Type 0) : Type 0 where
  pub env : Option (Env W)
  pub codec : Codec
  pub cfg : Config

pub data Result {ℓ} (A : Type ℓ) : Type ℓ where
  ok : A → Result A
  err : Error → Result A

abbrev pub M : Type 0 → Type 0 → Type 0
M W A = W → Result A × W

abbrev pub is_blank : ℕ → Bool
is_blank c = c == 32 || c == 9 || c == 10 || c == 13

-- trimSpace
unfoldable pub trim : String → String
unfolding trim_left trim_right
trim s = trim_right is_blank (trim_left is_blank s)

pub new_commands : {W : Type 0} → Option (Env W) → Codec → Config → Commands W
new_commands env codec cfg = record {
  env = env;
  codec = codec;
  cfg =
      if cfg.base_url == ""
      then record cfg { base_url = "https://friends-public-service-prod.ol.epicgames.com" }
      else cfg;
}

pub set_identity : {W : Type 0} → String → Commands W → Commands W
unfolding trim
set_identity id c =
    if trim id == "" then c else record c { cfg = record c.cfg { account_id = trim id } }

abbrev text_of : Option String → String
text_of o = get_or o ""

unfoldable pub decode_api_error : Codec → Response → Error
decode_api_error c resp =
    let fs = get_or (struct_of (c.unmarshal resp.body)) end in
    let message = text_of (string_field (c.member fs "errorMessage")) in
    api (record {
      status_code = resp.status_code;
      code = text_of (string_field (c.member fs "errorCode"));
      message = if message == "" then resp.body else message;
    })

module _ {W : Type 0} where
  abbrev pub pure : {A : Type 0} → A → M W A
  pure a w = (ok a, w)

  abbrev pub raise : {A : Type 0} → Error → M W A
  raise e w = (err e, w)

  abbrev pub continue : {A B : Type 0} → Result A × W → (A → M W B) → Result B × W
  continue (ok a, w) f = f a w
  continue (err e, w) f = (err e, w)

  infixl 5 ◌>>=◌ ◌>>◌
  abbrev pub ◌>>=◌ : {A B : Type 0} → M W A → (A → M W B) → M W B
  ◌>>=◌ m f w = continue (m w) f

  abbrev pub ◌>>◌ : {B : Type 0} → M W (Unit {0}) → M W B → M W B
  m >> k = m >>= λ _. k

  abbrev pub received : Reply Response × W → Result Response × W
  received (value resp, w) = (ok resp, w)
  received (failure m, w) = (err (http_error m), w)

  -- requestNoBody
  unfoldable pub request_no_body : Commands W → Env W → String → String → M W Response
  request_no_body c env method path w =
      let base = trim_right (λ x. x == b'/') c.cfg.base_url in
      received (env.request (record { method = method; url = text_append base path }) w)

  abbrev pub configured : Commands W → Option (Env W) → M W (Env W)
  unfolding trim
  configured c none = raise not_configured
  configured c (some env) = if trim c.cfg.account_id == "" then raise not_configured else pure env

  -- validateConfig: the client, if the commands are configured
  unfoldable pub validate_config : Commands W → M W (Env W)
  validate_config c = configured c c.env

  -- if resp.StatusCode >= 300 { return decodeAPIError(resp) }
  unfoldable pub accepted : Commands W → Response → M W Unit
  unfolding decode_api_error
  accepted c resp =
      if leb 300 resp.status_code then raise (decode_api_error c.codec resp) else pure tt
