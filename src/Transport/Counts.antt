-- ===== src/Transport/Counts.antt =====
-- How often `Request` asks the server and the token provider.
use fngo.Prelude.{
  ℕ, zero, suc, ◌+◌, ◌≤◌, ◌≡◌, refl, arith, String, string_eq, nat_eq, Bool, true, false, Option,
  none, some,
}
use fngo.Backoff.{Duration}
use fngo.Transport.Types.{Request, Response, Reply, value, failure, Provider, Env, Client, retries}
use fngo.Transport.Answers.{Verdict, stop, again, renew, decide}
use fngo.Transport.Client.{
  Answer, access_token, do_request, sleep_context, resume, renewed, follow, attempt_with, refresh,
  request_loop, request,
}
use fngo.Transport.Bounds.{request-Ends, renew_once}
use fngo.Transport.Client.{correlation}

-- the state behind, with the requests sent and the refreshes asked for
pub record Tally (W : Type 0) : Type 0 where
  pub world : W
  pub sends : ℕ
  pub refreshes : ℕ

module _ {W : Type 0} where
  abbrev at_world : {A : Type 0} → Tally W → A × W → A × Tally W
  at_world t (a, w) = (a, record t { world = w })

  abbrev counted_env : Env W → Env (Tally W)
  counted_env env = record {
    send = λ wire t. at_world (record t { sends = t.sends + 1 }) (env.send wire t.world);
    sleep = λ d t. at_world t (env.sleep d t.world);
    context_text = λ t. env.context_text t.world;
    until = λ text t. env.until text t.world;
    canonical = env.canonical;
    unicode_lower = env.unicode_lower;
  }

  abbrev counted_provider : Provider W → Provider (Tally W)
  counted_provider p = record {
    access_token = λ t. at_world t (p.access_token t.world);
    refresh = λ t. at_world (record t { refreshes = t.refreshes + 1 }) (p.refresh t.world);
  }

  abbrev counted_id : (W → String × W) → Tally W → String × Tally W
  counted_id make t = at_world t (make t.world)

  -- the same client, counting
  abbrev pub counted : Client W → Client (Tally W)
  counted c = record {
    env = counted_env c.env;
    codec = c.codec;
    provider = elim c.provider [ none ↦ none | some p ↦ some (counted_provider p) ];
    cfg = record {
      max_retries = c.cfg.max_retries;
      min_backoff = c.cfg.min_backoff;
      max_backoff = c.cfg.max_backoff;
      correlation_id_header = c.cfg.correlation_id_header;
      correlation_id = elim c.cfg.correlation_id [
        | none ↦ none
        | some make ↦ some (counted_id make)
      ];
      user_agent = c.cfg.user_agent;
    };
  }

  -- what `m` returns has counted at most so many more
  abbrev Within : Tally W → ℕ → ℕ → Option (Answer (Tally W)) → Type 0
  Within t n k m =
      (r : Answer (Tally W))
      → m ≡ some r
      → (r.1.sends ≤ t.sends + n) × (r.1.refreshes ≤ t.refreshes + k)

abbrev spare : Bool → ℕ
spare true = 0
spare false = 1

module _ {W : Type 0} (c : Client W) where
  access_token_free :
      (t : Tally W)
      → ((access_token (counted c) t).1.sends ≡ t.sends)
        × ((access_token (counted c) t).1.refreshes ≡ t.refreshes)
  unfolding access_token
  access_token_free t = ground arith

  do_request_once :
      (req : Request) (token : String) (t : Tally W)
      → ((do_request (counted c) req token t).1.sends ≡ t.sends + 1)
        × ((do_request (counted c) req token t).1.refreshes ≡ t.refreshes)
  unfolding do_request correlation
  do_request_once req token t = ground arith

  sleep_free :
      (d : Duration) (t : Tally W)
      → ((sleep_context (counted c).env d t).1.sends ≡ t.sends)
        × ((sleep_context (counted c).env d t).1.refreshes ≡ t.refreshes)
  unfolding sleep_context
  sleep_free d t = ground arith

  refresh_once :
      (t : Tally W)
      → ((refresh (counted c) t).1.sends ≡ t.sends)
        × ((refresh (counted c) t).1.refreshes ≤ t.refreshes + 1)
  unfolding refresh
  refresh_once t = ground arith

  resume_counts :
      (t : Tally W) (n k : ℕ) (next : Tally W → Option (Answer (Tally W))) (s : Bool × Tally W)
      → (s.1.sends ≡ t.sends) × (s.1.refreshes ≡ t.refreshes)
      → ((t' : Tally W) → Within t' n k (next t'))
      → Within t n k (resume (counted c).env next s)
  resume_counts t n k next (true, t') same h r eq = omega (arith, h t' r eq)
  resume_counts t n k next (false, t') same h r eq = ground arith

  renewed_counts :
      (t : Tally W) (n : ℕ) (resp : Response) (next : Tally W → Option (Answer (Tally W)))
      (s : Option String × Tally W)
      → (s.1.sends ≡ t.sends) × (s.1.refreshes ≤ t.refreshes + 1)
      → ((t' : Tally W) → Within t' n 0 (next t'))
      → Within t n 1 (renewed resp next s)
  renewed_counts t n resp next (none, t') one h r eq = omega (arith, h t' r eq)
  renewed_counts t n resp next (some m, t') one h r eq = ground arith

  follow_counts :
      (t : Tally W) (n : ℕ) (refreshed : Bool) (next : Bool → Tally W → Option (Answer (Tally W)))
      (v : Verdict)
      → ((resp : Response) → v ≡ renew resp → refreshed ≡ false)
      → ((b : Bool) (t' : Tally W) → Within t' n (spare b) (next b t'))
      → Within t n (spare refreshed) (follow (counted c) refreshed next v t)
  unfolding follow
  follow_counts t n refreshed next (stop resp e) h k = λ r eq. ground arith
  follow_counts t n refreshed next (again delay) h k =
      resume_counts t n (spare refreshed) (next refreshed) _ (sleep_free delay t) (k refreshed)
  follow_counts t n refreshed next (renew resp) h k =
      rw (h resp refl) (renewed_counts t n resp (next true) _ (refresh_once t) (k true))

  attempt_counts :
      (req : Request) (attempt : ℕ) (t : Tally W) (n : ℕ) (refreshed : Bool)
      (next : Bool → Tally W → Option (Answer (Tally W))) (s : Reply String × Tally W)
      → (s.1.sends ≡ t.sends) × (s.1.refreshes ≡ t.refreshes)
      → ((b : Bool) (t' : Tally W) → Within t' n (spare b) (next b t'))
      → Within t (n + 1) (spare refreshed) (attempt_with (counted c) req attempt refreshed next s)
  unfolding attempt_with
  attempt_counts req attempt t n refreshed next (failure m, t') same k r eq = ground arith
  attempt_counts req attempt t n refreshed next (value token, t') same k r eq =
      let answer = do_request (counted c) req token t' in
      let sent = do_request_once req token t' in
      let rest =
        follow_counts answer.1 n refreshed next
          (decide (counted c) answer.1 attempt refreshed answer.0)
          (λ resp. renew_once (counted c) answer.1 attempt refreshed answer.0 resp) k r eq in
      omega arith

  loop_counts :
      (req : Request) (fuel done : ℕ) (refreshed : Bool) (t : Tally W)
      → Within t fuel (spare refreshed) (request_loop (counted c) req fuel done refreshed t)
  unfolding request_loop
  loop_counts req zero done refreshed t r eq = cc
  loop_counts req (suc fuel) done refreshed t r eq = omega (
    arith,
    attempt_counts req (done + 1) t fuel refreshed (request_loop (counted c) req fuel (done + 1))
        (access_token (counted c) t) (access_token_free t)
        (λ b t'. loop_counts req fuel (done + 1) b t') r eq,
  )

  -- `Request` returns after at most MaxRetries + 2 requests to the server (MaxRetries is taken as 0
  -- if it is negative), and asks for at most one token refresh, whatever the server, the token
  -- provider and the context do.
  pub request_counts :
      (req : Request) (t : Tally W)
      → (r : Answer (Tally W)) × (request (counted c) req t ≡ some r)
        × (r.1.sends ≤ t.sends + (retries c.cfg.max_retries + 2))
        × (r.1.refreshes ≤ t.refreshes + 1)
  unfolding request
  request_counts req t =
      let (r, eq) = request-Ends (counted c) req t in
      let (sends, refreshes) = loop_counts req (retries c.cfg.max_retries + 2) 0 false t r eq in
      (r, eq, sends, refreshes)
