-- ===== src/Transport/Types.antt =====
-- transport/http/client.go: requests, responses, errors, the configuration, and what lies outside.
use fngo.Prelude.{ℕ, String, ◌==◌, string_eq, nat_eq, Bool, Option, [], if◌then◌else◌}
use fngo.Prelude.Int.{ℤ, pos, negsuc, leb_ℤ}
use fngo.GoMap.{GoMap}
use fngo.Json.{Codec}
use fngo.Backoff.{Duration}

pub record Request : Type 0 where
  pub method : String
  pub url : String
  pub headers : GoMap String String
  pub body : String
  pub correlation_id : String

-- `headers` by canonical name
pub record Response : Type 0 where
  pub status_code : ℕ
  pub headers : GoMap String String
  pub body : String

abbrev pub no_response : Response
no_response = record { status_code = 0; headers = []; body = "" }

-- the request as net/http gets it
pub record Wire : Type 0 where
  pub method : String
  pub url : String
  pub headers : GoMap String String
  pub body : String

pub data Reply (A : Type 0) : Type 0 where
  value : A → Reply A
  failure : String → Reply A

pub data Error : Type 0 where
  unauthorized : Error
  refresh_failed : String → Error
  too_many_requests : Error
  upstream : ℕ → Error
  context_error : String → Error
  send_error : String → Error
  token_error : String → Error

pub record Provider (W : Type 0) : Type 0 where
  pub access_token : W → Reply String × W
  pub refresh : W → Option String × W

pub record Env (W : Type 0) : Type 0 where
  -- NewRequestWithContext, httpClient.Do and io.ReadAll
  pub send : Wire → W → Reply Response × W
  -- false if the context is done first
  pub sleep : Duration → W → Bool × W
  pub context_text : W → String
  -- http.ParseTime and time.Until
  pub until : String → W → Option Duration
  -- textproto.CanonicalMIMEHeaderKey
  pub canonical : String → String
  -- unicode.ToLower past ASCII
  pub unicode_lower : ℕ → ℕ

pub record Config (W : Type 0) : Type 0 where
  pub max_retries : ℤ
  pub min_backoff : Duration
  pub max_backoff : Duration
  pub correlation_id_header : String
  pub correlation_id : Option (W → String × W)
  pub user_agent : String

pub record Client (W : Type 0) : Type 0 where
  pub env : Env W
  pub codec : Codec
  pub provider : Option (Provider W)
  pub cfg : Config W

abbrev positive_or : Duration → Duration → Duration
positive_or d default_delay = if leb_ℤ d (pos 0) then default_delay else d

-- if cfg.MaxRetries < 0 { cfg.MaxRetries = 0 }
abbrev pub retries : ℤ → ℕ
retries (pos n) = n
retries (negsuc _) = 0

module _ {W : Type 0} where
  pub new_client : Env W → Codec → Option (Provider W) → Config W → Client W
  new_client env codec provider cfg =
      let lo = positive_or cfg.min_backoff (pos 100000000) in
      let hi = positive_or cfg.max_backoff (pos 2000000000) in
      record {
        env = env;
        codec = codec;
        provider = provider;
        cfg = record cfg {
          max_retries = pos (retries cfg.max_retries);
          min_backoff = lo;
          max_backoff = if leb_ℤ lo hi then hi else lo;
          correlation_id_header =
              if cfg.correlation_id_header == ""
              then "X-Correlation-Id"
              else cfg.correlation_id_header;
        };
      }
