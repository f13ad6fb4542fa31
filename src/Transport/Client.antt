-- ===== src/Transport/Client.antt =====
-- transport/http/client.go: one attempt, and the loop of `Request`.
use fngo.Prelude.{
  ℕ, zero, suc, ◌+◌, String, ◌==◌, string_eq, nat_eq, Bool, true, false, Option, none, some, [],
  ◌∷◌, get_or, if◌then◌else◌, text_append,
}
use fngo.Prelude.Int.{pos, leb_ℤ}
use fngo.GoMap
use fngo.GoMap.{GoMap}
use fngo.Backoff.{Duration}
use fngo.Transport.Types.{
  Request, Response, no_response, Reply, value, failure, Error, refresh_failed, context_error,
  token_error, Env, Client, retries,
}
use fngo.Transport.Answers.{Verdict, stop, again, renew, decide}

-- the response and the error of `Request`, and the state behind
abbrev pub Answer : Type 0 → Type 0
Answer W = (Response × Option Error) × W

-- if v != "" && h.Get(k) == "" { h.Set(k, v) }, for a canonical k
abbrev set_default : String → String → GoMap String String → GoMap String String
set_default k v h =
    if v == "" then h else if get_or (GoMap.get h k) "" == "" then GoMap.insert h k v else h

abbrev bearer : String → String
bearer token = if token == "" then "" else text_append "Bearer " token

module _ {W : Type 0} where
  -- for k, v := range headers { h.Set(k, v) }
  canonical_headers : Env W → GoMap String String → GoMap String String
  canonical_headers env [] = []
  canonical_headers env ((k, v) ∷ m) = GoMap.insert (canonical_headers env m) (env.canonical k) v

  -- the headers of `doRequest`
  unfoldable pub wire_headers : Client W → Request → String → String → GoMap String String
  unfolding canonical_headers
  wire_headers c req token correlation =
      let h = set_default "Authorization" (bearer token) (canonical_headers c.env req.headers) in
      let h' = set_default "User-Agent" c.cfg.user_agent h in
      if correlation == ""
      then h'
      else GoMap.insert h' (c.env.canonical c.cfg.correlation_id_header) correlation

  -- the correlation id of one attempt
  unfoldable pub correlation : Client W → Request → W → String × W
  correlation c req w = elim c.cfg.correlation_id [
    | none ↦ (req.correlation_id, w)
    | some make ↦ if req.correlation_id == "" then make w else (req.correlation_id, w)
  ]

  unfoldable pub do_request : Client W → Request → String → W → Reply Response × W
  do_request c req token w =
      let (id, w') = correlation c req w in
      c.env.send
        (record {
          method = req.method;
          url = req.url;
          headers = wire_headers c req token id;
          body = req.body;
        })
        w'

  unfoldable pub access_token : Client W → W → Reply String × W
  access_token c w = elim c.provider [ none ↦ (value "", w) | some p ↦ p.access_token w ]

  -- sleepContext: no wait for a delay that is not positive
  unfoldable pub sleep_context : Env W → Duration → W → Bool × W
  sleep_context env d w = if leb_ℤ d (pos 0) then (true, w) else env.sleep d w

  unfoldable pub refresh : Client W → W → Option String × W
  refresh c w = elim c.provider [ none ↦ (none, w) | some p ↦ p.refresh w ]

  -- after the wait: on with the loop, or the context's error
  abbrev pub resume : Env W → (W → Option (Answer W)) → Bool × W → Option (Answer W)
  resume env next (true, w) = next w
  resume env next (false, w) = some ((no_response, some (context_error (env.context_text w))), w)

  -- after the refresh: on with the loop, or the error
  abbrev pub renewed : Response → (W → Option (Answer W)) → Option String × W → Option (Answer W)
  renewed resp next (none, w) = next w
  renewed resp next (some m, w) = some ((resp, some (refresh_failed m)), w)

  -- `next` is the rest of the loop, given whether the token has been refreshed
  unfoldable pub follow :
      Client W → Bool → (Bool → W → Option (Answer W)) → Verdict → W → Option (Answer W)
  unfolding sleep_context refresh
  follow c refreshed next (stop resp e) w = some ((resp, e), w)
  follow c refreshed next (again delay) w =
      resume c.env (next refreshed) (sleep_context c.env delay w)
  follow c refreshed next (renew resp) w = renewed resp (next true) (refresh c w)

  -- one pass, once there is a token
  unfoldable pub attempt_with :
      Client W
      → Request
      → ℕ
      → Bool
      → (Bool → W → Option (Answer W))
      → Reply String × W
      → Option (Answer W)
  attempt_with c req attempt refreshed next (failure m, w) =
      some ((no_response, some (token_error m)), w)
  attempt_with c req attempt refreshed next (value token, w) =
      let (answer, w') = do_request c req token w in
      follow c refreshed next (decide c w' attempt refreshed answer) w'

  -- the loop, with `done` attempts made; `none` if the fuel runs out
  unfoldable pub request_loop : Client W → Request → ℕ → ℕ → Bool → W → Option (Answer W)
  request_loop c req zero done refreshed w = none
  request_loop c req (suc fuel) done refreshed w =
      attempt_with c req (done + 1) refreshed (request_loop c req fuel (done + 1))
        (access_token c w)

  -- one pass for each attempt, and one for the token refresh
  unfoldable pub request : Client W → Request → W → Option (Answer W)
  request c req w = request_loop c req (retries c.cfg.max_retries + 2) 0 false w
