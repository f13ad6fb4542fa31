-- ===== src/Transport/Bounds.antt =====
-- `Request` ends: after at most MaxRetries + 2 passes, with at most one token refresh.
use fngo.Prelude.{
  ℕ, zero, suc, ◌+◌, ◌≤◌, ◌≡◌, ◌≢◌, refl, arith, String, string_eq, nat_eq, Bool, true, false,
  Option, none, some,
}
use fngo.Backoff.{Duration}
use fngo.Transport.Types.{Request, Response, Reply, value, failure, Client, retries}
use fngo.Transport.Answers.{Verdict, stop, again, renew, decide, should_refresh}
use fngo.Transport.Client.{
  Answer, do_request, resume, renewed, follow, attempt_with, request_loop, request,
}

abbrev once : Bool → ℕ
once true = 1
once false = 0

abbrev pub IsServerError : ℕ → Type 0
IsServerError n = (500 ≤ n) × (n ≤ 599)

module _ {W : Type 0} (c : Client W) (w : W) (attempt : ℕ) (refreshed : Bool) where
  -- an answer that is tried again leaves attempts over
  again_leaves :
      (answer : Reply Response) (delay : Duration)
      → decide c w attempt refreshed answer ≡ again delay
      → attempt ≤ retries c.cfg.max_retries
  unfolding decide
  again_leaves (failure m) delay h = ground arith
  again_leaves (value resp) delay h = ground arith

  pub renew_once :
      (answer : Reply Response) (resp : Response)
      → decide c w attempt refreshed answer ≡ renew resp
      → refreshed ≡ false
  unfolding decide
  renew_once (failure m) resp h = ground arith
  renew_once (value r) resp h = ground arith

  -- an answer that is accepted
  pub stop_clean :
      (answer : Reply Response) (resp : Response)
      → decide c w attempt refreshed answer ≡ stop resp none
      → (should_refresh c resp ≡ false)
        × (resp.status_code ≢ 401)
        × (resp.status_code ≢ 429)
        × ¬ (IsServerError resp.status_code)
  unfolding decide
  stop_clean (failure m) resp h = ground arith
  stop_clean (value r) resp h = (ground arith, ground arith, ground arith, λ k. ground arith)

-- the loop returns
abbrev pub Ends : {W : Type 0} → Option (Answer W) → Type 0
Ends {W} m = (r : Answer W) × (m ≡ some r)

module _ {W : Type 0} (c : Client W) where
  resume-Ends :
      (next : W → Option (Answer W)) (s : Bool × W)
      → ((w : W) → Ends (next w))
      → Ends (resume c.env next s)
  resume-Ends next (true, w) h = h w
  resume-Ends next (false, w) h = (_, refl)

  renewed-Ends :
      (resp : Response) (next : W → Option (Answer W)) (s : Option String × W)
      → ((w : W) → Ends (next w))
      → Ends (renewed resp next s)
  renewed-Ends resp next (none, w) h = h w
  renewed-Ends resp next (some m, w) h = (_, refl)

  -- the rest of the loop is asked for only where it is bound to end
  follow-Ends :
      (refreshed : Bool) (next : Bool → W → Option (Answer W)) (v : Verdict) (w : W)
      → ((delay : Duration) → v ≡ again delay → (w' : W) → Ends (next refreshed w'))
      → ((resp : Response) → v ≡ renew resp → (w' : W) → Ends (next true w'))
      → Ends (follow c refreshed next v w)
  unfolding follow
  follow-Ends refreshed next (stop resp e) w h k = (_, refl)
  follow-Ends refreshed next (again delay) w h k = resume-Ends (next refreshed) _ (h delay refl)
  follow-Ends refreshed next (renew resp) w h k = renewed-Ends resp (next true) _ (k resp refl)

  attempt-Ends :
      (req : Request) (attempt : ℕ) (refreshed : Bool) (next : Bool → W → Option (Answer W))
      (s : Reply String × W)
      → (attempt ≤ retries c.cfg.max_retries → (w : W) → Ends (next refreshed w))
      → (refreshed ≡ false → (w : W) → Ends (next true w))
      → Ends (attempt_with c req attempt refreshed next s)
  unfolding attempt_with
  attempt-Ends req attempt refreshed next (failure m, w) h k = (_, refl)
  attempt-Ends req attempt refreshed next (value token, w) h k =
      let (answer, w') = do_request c req token w in
      follow-Ends refreshed next (decide c w' attempt refreshed answer) w'
        (λ delay e. h (again_leaves c w' attempt refreshed answer delay e))
        (λ resp e. k (renew_once c w' attempt refreshed answer resp e))

  loop-Ends :
      (req : Request) (fuel done : ℕ) (refreshed : Bool) (w : W)
      → done ≤ retries c.cfg.max_retries + once refreshed
      → retries c.cfg.max_retries + 2 ≤ done + fuel
      → Ends (request_loop c req fuel done refreshed w)
  unfolding request_loop
  loop-Ends req zero done refreshed w h k = absurd (ground arith)
  loop-Ends req (suc fuel) done refreshed w h k =
      attempt-Ends req (done + 1) refreshed (request_loop c req fuel (done + 1)) _
        (λ left w'. loop-Ends req fuel (done + 1) refreshed w' (omega arith) (omega arith))
        (λ first w'. loop-Ends req fuel (done + 1) true w' (ground arith) (omega arith))

  -- `Request` returns, whatever the server, the token provider and the context do: MaxRetries + 2
  -- passes of its loop are enough.
  pub request-Ends : (req : Request) (w : W) → Ends (request c req w)
  unfolding request
  request-Ends req w =
      loop-Ends req (retries c.cfg.max_retries + 2) 0 false w (omega arith) (omega arith)
