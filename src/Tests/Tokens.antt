-- ===== src/Tests/Tokens.antt =====
-- client/token_provider.go and auth/store.go on concrete tokens.
use fngo.Prelude.{ℕ, ◌+◌, string_eq, String, true, some}
use fngo.Prelude.Int.{pos}
use fngo.Transport.Types.{value}
use fngo.Auth.{TokenSet, TokenStore, Oauth, refresh}
use fngo.Auth.Renewal.{Outcome, refresh-Outcome}

abbrev tokens_of : String → TokenSet
tokens_of id = record {
  access_token = id;
  refresh_token = id;
  token_type = "bearer";
  expires_at = pos 10;
  refresh_expires_at = pos 20;
  account_id = "a";
  client_id = "c";
  display_name = "A";
}

abbrev stored : TokenStore
stored = record { valid = true; token = tokens_of "old" }

abbrev account_service : Oauth ℕ
account_service = some (λ t w. (value (tokens_of "new"), w + 1))

refresh-Outcome_example : Outcome account_service stored 0 (refresh account_service (stored, 0))
refresh-Outcome_example = refresh-Outcome account_service stored 0
