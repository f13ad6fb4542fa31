-- ===== src/Auth.antt =====
-- auth/types.go, auth/store.go and client/token_provider.go: the stores in memory, and the provider
-- of tokens on a store. Each method is one critical section. `oauth` is the account service: a
-- refresh token and the world behind give new tokens or an error.
pub mod Renewal
pub mod Scheduler
use fngo.Prelude.{
  ℕ, ◌==◌, string_eq, String, Bool, true, false, not, ◌||◌, Option, none, some, List, [], ◌∷◌,
  if◌then◌else◌,
}
use fngo.GoMap
use fngo.GoMap.{GoMap}
use fngo.GoTime.{Time, zero_time}
use fngo.Transport.Types.{Reply, value, failure}

pub record DeviceAuth : Type 0 where
  pub account_id : String
  pub device_id : String
  pub secret : String

pub record TokenSet : Type 0 where
  pub access_token : String
  pub refresh_token : String
  pub token_type : String
  pub expires_at : Time
  pub refresh_expires_at : Time
  pub account_id : String
  pub client_id : String
  pub display_name : String

abbrev zero_tokens : TokenSet
zero_tokens = record {
  access_token = "";
  refresh_token = "";
  token_type = "";
  expires_at = zero_time;
  refresh_expires_at = zero_time;
  account_id = "";
  client_id = "";
  display_name = "";
}

-- MemoryTokenStore
pub record TokenStore : Type 0 where
  pub valid : Bool
  pub token : TokenSet

abbrev pub new_token_store : TokenStore
new_token_store = record { valid = false; token = zero_tokens }

unfoldable pub load : TokenStore → Option TokenSet
load s = if s.valid then some s.token else none

unfoldable pub save : TokenSet → TokenStore → TokenStore
save tokens s = record { valid = true; token = tokens }

unfoldable pub clear : TokenStore → TokenStore
clear s = record { valid = false; token = zero_tokens }

-- MemoryDeviceAuthStore
abbrev pub DeviceStore : Type 0
DeviceStore = GoMap String DeviceAuth

unfoldable pub load_device : DeviceStore → String → Option DeviceAuth
load_device s account = GoMap.get s account

unfoldable pub save_device : DeviceAuth → DeviceStore → DeviceStore
save_device creds s = GoMap.insert s creds.account_id creds

unfoldable pub clear_device : String → DeviceStore → DeviceStore
clear_device account s = GoMap.delete s account

abbrev pub no_token_text : String
no_token_text = "auth: no token in store"

-- epicTokenProvider; `none` where there is no OAuth client
abbrev pub Oauth : Type 0 → Type 0
Oauth W = Option (String → W → Reply TokenSet × W)

-- AccessToken
abbrev token_or_error : Option TokenSet → Reply String
token_or_error none = failure no_token_text
token_or_error (some t) =
    if t.access_token == "" then failure no_token_text else value t.access_token

unfoldable pub access_token : TokenStore → Reply String
unfolding load
access_token s = token_or_error (load s)

module _ {W : Type 0} where
  -- refreshUnlocked
  unfoldable pub refresh_unlocked : Oauth W → TokenSet → W → Reply TokenSet × W
  refresh_unlocked none current w = (failure no_token_text, w)
  refresh_unlocked (some by_refresh) current w = by_refresh current.refresh_token w

  -- the answer is saved; `none` for no error
  abbrev pub saved : TokenStore → Reply TokenSet × W → Option String × (TokenStore × W)
  saved s (failure m, w) = (some m, (s, w))
  saved s (value next, w) = (none, (save next s, w))

  abbrev pub refresh_current :
      Oauth W → TokenStore → Option TokenSet → W → Option String × (TokenStore × W)
  refresh_current oauth s none w = (some no_token_text, (s, w))
  refresh_current oauth s (some current) w =
      if current.refresh_token == ""
      then (some no_token_text, (s, w))
      else saved s (refresh_unlocked oauth current w)

  -- Refresh
  unfoldable pub refresh : Oauth W → TokenStore × W → Option String × (TokenStore × W)
  unfolding refresh_unlocked save load
  refresh oauth (s, w) = refresh_current oauth s (load s) w
