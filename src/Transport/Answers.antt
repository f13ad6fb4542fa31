-- ===== src/Transport/Answers.antt =====
-- transport/http/client.go: what the loop of `Request` makes of one answer.
use fngo.Prelude.{
  ℕ, ◌+◌, ◌-◌, ◌*◌, String, ◌==◌, string_eq, nat_eq, Bool, not, ◌&&◌, ◌||◌, Option, none, some, leb,
  get_or, is_some, if◌then◌else◌,
}
use fngo.Prelude.Int.{pos, negsuc, leb_ℤ, wrap64}
use fngo.GoMap
use fngo.GoMap.{GoMap}
use fngo.GoStrings.{trim_space, to_lower, codes, same_codes, contains_codes, atoi}
use fngo.Json.{Codec, struct_of, string_field}
use fngo.Backoff.{Duration, second, exponential}
use fngo.Transport.Types.{
  Response, no_response, Reply, value, failure, Error, unauthorized, too_many_requests, upstream,
  send_error, Env, Client, retries,
}

-- parseEpicErrorBody: the codes `errorCode` and `error`, if the body is such an error
unfoldable pub parse_error_body : Codec → String → Option (String × String)
parse_error_body c body = if body == "" then none else elim (struct_of (c.unmarshal body)) [
  | none ↦ none
  | some fs ↦ elim (string_field (c.member fs "errorCode")) [
    | none ↦ none
    | some error_code ↦ elim (string_field (c.member fs "error")) [
      | none ↦ none
      | some error ↦ if error_code == "" && error == "" then none else some (error_code, error)
    ]
  ]
]

-- what the body of the loop decides about an answer
pub data Verdict : Type 0 where
  stop : Response → Option Error → Verdict
  again : Duration → Verdict
  renew : Response → Verdict

module _ {W : Type 0} where
  unfoldable pub is_epic_auth_failure : Env W → String → String → Bool
  is_epic_auth_failure env error_code error =
      let code = to_lower env.unicode_lower error_code in
      same_codes (to_lower env.unicode_lower error) (codes "invalid_token")
      || same_codes code (codes "errors.com.epicgames.common.oauth.invalid_token")
      || same_codes code
          (codes "errors.com.epicgames.common.authentication.token_verification_failed")
      || contains_codes code (codes "invalid_token")

  unfoldable pub should_refresh : Client W → Response → Bool
  should_refresh c resp = elim (parse_error_body c.codec resp.body) [
    | none ↦ resp.status_code == 401
    | some (error_code, error) ↦ is_epic_auth_failure c.env error_code error
  ]

  -- retryAfterDelay
  unfoldable pub retry_after_delay : Env W → W → String → Duration → Duration
  retry_after_delay env w header fallback =
      let text = trim_space header in
      if text == "" then fallback else elim (atoi text) [
        | some (negsuc _) ↦ fallback
        | some (pos n) ↦ wrap64 (pos (n * second))
        | none ↦ elim (env.until text w) [
          | none ↦ fallback
          | some delay ↦ if leb_ℤ delay (pos 0) then fallback else delay
        ]
      ]

  backoff : Client W → ℕ → Duration
  backoff c attempt = exponential (pos (attempt - 1)) c.cfg.min_backoff c.cfg.max_backoff

  abbrev pub exhausted : Client W → ℕ → Bool
  exhausted c attempt = leb (retries c.cfg.max_retries + 1) attempt

  -- a failure that is retried while attempts are left
  abbrev retry : Client W → ℕ → Response → Error → Duration → Verdict
  retry c attempt resp e delay = if exhausted c attempt then stop resp (some e) else again delay

  unfoldable pub decide : Client W → W → ℕ → Bool → Reply Response → Verdict
  unfolding backoff
  decide c w attempt refreshed (failure m) =
      retry c attempt no_response (send_error m) (backoff c attempt)
  decide c w attempt refreshed (value resp) =
      if should_refresh c resp
      then (if refreshed || not (is_some c.provider)
          then stop resp (some unauthorized)
          else renew resp)
      else if resp.status_code == 401
      then stop resp (some unauthorized)
      else if resp.status_code == 429
      then retry c attempt resp too_many_requests (
          retry_after_delay c.env w (get_or (GoMap.get resp.headers "Retry-After") "")
            (backoff c attempt))
      else if leb 500 resp.status_code && leb resp.status_code 599
      then retry c attempt resp (upstream resp.status_code) (backoff c attempt)
      else stop resp none
