-- ===== src/Transport/Accepted.antt =====
-- The responses that `Request` returns without an error.
use fngo.Prelude.{
  ℕ, zero, suc, ◌+◌, ◌≡◌, ◌≢◌, refl, arith, String, string_eq, nat_eq, Bool, true, false, Option,
  none, some,
}
use fngo.Transport.Types.{Request, Response, Reply, value, failure, Client, retries}
use fngo.Transport.Answers.{Verdict, stop, again, renew, decide, should_refresh}
use fngo.Transport.Client.{
  Answer, do_request, resume, renewed, follow, attempt_with, request_loop, request,
}
use fngo.Transport.Bounds.{IsServerError, stop_clean}

abbrev pub IsAccepted : {W : Type 0} → Client W → Response → Type 0
IsAccepted c resp =
    (should_refresh c resp ≡ false)
    × (resp.status_code ≢ 401)
    × (resp.status_code ≢ 429)
    × ¬ (IsServerError resp.status_code)

-- what `m` returns without an error is accepted
abbrev Accepts : {W : Type 0} → Client W → Option (Answer W) → Type 0
Accepts {W} c m = (resp : Response) (w : W) → m ≡ some ((resp, none), w) → IsAccepted c resp

module _ {W : Type 0} (c : Client W) where
  resume-Accepts :
      (next : W → Option (Answer W)) (s : Bool × W)
      → ((w : W) → Accepts c (next w))
      → Accepts c (resume c.env next s)
  resume-Accepts next (true, w) h = h w
  resume-Accepts next (false, w) h = λ resp w' e. ground arith

  renewed-Accepts :
      (r : Response) (next : W → Option (Answer W)) (s : Option String × W)
      → ((w : W) → Accepts c (next w))
      → Accepts c (renewed r next s)
  renewed-Accepts r next (none, w) h = h w
  renewed-Accepts r next (some m, w) h = λ resp w' e. ground arith

  follow-Accepts :
      (attempt : ℕ) (refreshed : Bool) (next : Bool → W → Option (Answer W))
      (answer : Reply Response) (v : Verdict) (w : W)
      → decide c w attempt refreshed answer ≡ v
      → ((b : Bool) (w' : W) → Accepts c (next b w'))
      → Accepts c (follow c refreshed next v w)
  unfolding follow
  follow-Accepts attempt refreshed next answer (stop r (some x)) w d h = λ resp w' e. ground arith
  follow-Accepts attempt refreshed next answer (stop r none) w d h = λ resp w' e.
      let same : r ≡ resp = ground arith in
      stop_clean c w attempt refreshed answer resp (rw (← same) d)
  follow-Accepts attempt refreshed next answer (again delay) w d h =
      resume-Accepts (next refreshed) _ (h refreshed)
  follow-Accepts attempt refreshed next answer (renew r) w d h =
      renewed-Accepts r (next true) _ (h true)

  attempt-Accepts :
      (req : Request) (attempt : ℕ) (refreshed : Bool) (next : Bool → W → Option (Answer W))
      (s : Reply String × W)
      → ((b : Bool) (w : W) → Accepts c (next b w))
      → Accepts c (attempt_with c req attempt refreshed next s)
  unfolding attempt_with
  attempt-Accepts req attempt refreshed next (failure m, w) h = λ resp w' e. ground arith
  attempt-Accepts req attempt refreshed next (value token, w) h =
      let (answer, w') = do_request c req token w in
      follow-Accepts attempt refreshed next answer _ w' refl h

  loop-Accepts :
      (req : Request) (fuel done : ℕ) (refreshed : Bool) (w : W)
      → Accepts c (request_loop c req fuel done refreshed w)
  unfolding request_loop
  loop-Accepts req zero done refreshed w = λ resp w' e. cc
  loop-Accepts req (suc fuel) done refreshed w =
      attempt-Accepts req (done + 1) refreshed (request_loop c req fuel (done + 1)) _
        (λ b w'. loop-Accepts req fuel (done + 1) b w')

  -- A response that `Request` returns without an error has a status other than 401, 429 and 500 to
  -- 599, and no body that reports an invalid token.
  pub request_accepts :
      (req : Request) (w : W) (resp : Response) (w' : W)
      → request c req w ≡ some ((resp, none), w')
      → IsAccepted c resp
  unfolding request
  request_accepts req w = loop-Accepts req (retries c.cfg.max_retries + 2) 0 false w
