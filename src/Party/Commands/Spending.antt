-- ===== src/Party/Commands/Spending.antt =====
-- party/commands.go: how many requests the patches of an intent make of the party service.
use fngo.Prelude.{
  ℕ, zero, suc, ◌+◌, ◌*◌, ◌≤◌, ◌==◌, nat_eq, string_eq, arith, String, Bool, true, false, ◌&&◌,
  ◌||◌, Option, none, some, ◌≡◌, refl, ap, if◌then◌else◌, is_some, leb, Bool-cases, inl, inr,
}
use fngo.Prelude.Int.{pos, leb_ℤ}
use fngo.GoMap
use fngo.Json.{Json, Fields}
use fngo.Backoff.{exponential}
use fngo.Transport.Types.{Response, Reply, value, failure}
use fngo.Party.Types.{Member, Party}
use fngo.Party.Patch.{PatchIntent, BuiltPatch}
use fngo.Party.Remote.{RemoteParty, is_stale_revision}
use fngo.Party.Effect.{Error, decode_error, Result, ok, err, Sys, M, continue}
use fngo.Party.Commands.{Env, Commands}
use fngo.Party.Commands.Service.{
  ask, received, accepted, mapped, or_raise, map_first, get_current_party, get_party,
  decode_current_body, first_party, refresh_party_state, validate_config, configured,
}
use fngo.Party.Commands.Membership.{present}
use fngo.Party.Commands.Entering.{trim}
use fngo.Party.Commands.Patching.{
  hydrate_party_state, adopted, is_stale_answer, patch_at, no_fields, passes, send_party_patch,
  send_member_patch, woken, wait_backoff, retry_or_stop, finish_pass, send_patches, patch_member,
  patch_pass, patch_loop, apply_intent_with_retry,
}

-- the state behind, with the requests made
pub record Metered (W : Type 0) : Type 0 where
  pub world : W
  pub requests : ℕ

module _ {W : Type 0} where
  abbrev behind : {A : Type 0} → Metered W → A × W → A × Metered W
  behind t (a, w) = (a, record t { world = w })

  abbrev metered_env : Env W → Env (Metered W)
  metered_env env = record {
    request = λ call t. behind (record t { requests = t.requests + 1 }) (env.request call t.world);
    now = λ t. env.now t.world;
    parse_time = env.parse_time;
    unicode_lower = env.unicode_lower;
    to_lower_text = env.to_lower_text;
    sleep = λ d t. behind t (env.sleep d t.world);
    context_text = λ t. env.context_text t.world;
  }

  -- the same commands, counting
  abbrev pub metered : Commands W → Commands (Metered W)
  metered c = record {
    env = elim c.env [ none ↦ none | some env ↦ some (metered_env env) ];
    codec = c.codec;
    cfg = c.cfg;
    files = c.files;
  }

  -- at most `n` requests, wherever the computation starts
  abbrev Spends : {A : Type 0} → ℕ → M (Metered W) A → Type 0
  Spends n m = (s : Sys (Metered W)) → (m s).1.world.requests ≤ s.world.requests + n

  continue-Spends :
      {A B : Type 0} (n k : ℕ) (s : Sys (Metered W)) (r : Result A × Sys (Metered W))
      (f : A → M (Metered W) B)
      → r.1.world.requests ≤ s.world.requests + n
      → ((a : A) → Spends k (f a))
      → (continue r f).1.world.requests ≤ s.world.requests + (n + k)
  continue-Spends n k s (ok a, t) f h l = omega (arith, l a t)
  continue-Spends n k s (err e, t) f h l = omega arith

  if-Spends :
      {A : Type 0} (n : ℕ) (b : Bool) (m l : M (Metered W) A)
      → Spends n m
      → Spends n l
      → Spends n (if b then m else l)
  if-Spends n true m l h k = h
  if-Spends n false m l h k = k

  module _ (c : Commands W) (env : Env W) where
    received-Spends :
        (s : Sys (Metered W)) (r : Reply Response × W)
        → (received
            (behind (record s.world { requests = s.world.requests + 1 }) r)
            s).1.world.requests
          ≤ s.world.requests + 1
    received-Spends s (value resp, w) = omega arith
    received-Spends s (failure m, w) = omega arith

    ask-Spends :
        (method path : String) (body : Option Json)
        → Spends 1 (ask (metered c) (metered_env env) method path body)
    unfolding ask
    ask-Spends method path body s = received-Spends s (env.request _ s.world.world)

    accepted-Spends : (resp : Response) → Spends 0 (accepted (metered c) resp)
    unfolding accepted
    accepted-Spends resp =
        if-Spends 0 (leb 300 resp.status_code) _ _ (λ s. omega arith) (λ s. omega arith)

    or_raise-Spends : {A : Type 0} (e : Error) (o : Option A) → Spends 0 (or_raise e o)
    or_raise-Spends e none s = omega arith
    or_raise-Spends e (some a) s = omega arith

    mapped-Spends : (rp : RemoteParty) → Spends 0 (mapped (metered c) (metered_env env) rp)
    unfolding mapped
    mapped-Spends rp s = omega arith

    map_first-Spends :
        (o : Option RemoteParty) → Spends 0 (map_first (metered c) (metered_env env) o)
    map_first-Spends none s = omega arith
    map_first-Spends (some rp) s =
        continue-Spends 0 0 s (mapped (metered c) (metered_env env) rp s) _ (mapped-Spends rp s)
          λ a t. omega arith

    -- a call of the service whose answer is read by `f`
    asked-Spends :
        {A : Type 0} (path : String) (f : Response → M (Metered W) A)
        → ((resp : Response) → Spends 0 (f resp))
        → Spends 1 (λ s.
          continue
            (ask (metered c) (metered_env env) "GET" path none s)
            λ resp t. continue (accepted (metered c) resp t) λ _. f resp)
    asked-Spends path f h s =
        continue-Spends 1 0 s (ask (metered c) (metered_env env) "GET" path none s) _
          (ask-Spends "GET" path none s)
          λ resp t.
            continue-Spends 0 0 t (accepted (metered c) resp t) _ (accepted-Spends resp t)
              λ _. h resp

    get_current_party-Spends :
        (id : String) → Spends 1 (get_current_party (metered c) (metered_env env) id)
    unfolding get_current_party
    get_current_party-Spends id = asked-Spends _ _ λ resp s.
        let read = or_raise decode_error (decode_current_body c.codec resp.body) in
        continue-Spends 0 0 s (read s) _
          (or_raise-Spends _ (decode_current_body c.codec resp.body) s)
          λ l. map_first-Spends (first_party l)

    get_party-Spends : (id : String) → Spends 1 (get_party (metered c) (metered_env env) id)
    unfolding get_party
    get_party-Spends id = asked-Spends _ _ λ resp s.
        continue-Spends 0 0 s (or_raise _ _ s) _ (or_raise-Spends _ _ s) λ rp. mapped-Spends rp

    refresh-Spends : (id : String) → Spends 1 (refresh_party_state (metered c) (metered_env env) id)
    unfolding refresh_party_state
    refresh-Spends id s =
        continue-Spends 1 0 s (get_party (metered c) (metered_env env) id s) _
          (get_party-Spends id s) λ p t. omega arith

    adopted-Spends :
        (party : Party) (s : Sys (Metered W)) (r : Result (Option Party) × Sys (Metered W))
        → r.1.world.requests ≤ s.world.requests + 1
        → (adopted (metered c) party r).1.world.requests ≤ s.world.requests + 1
    adopted-Spends party s (err e, t) h = h
    adopted-Spends party s (ok none, t) h = h
    adopted-Spends party s (ok (some p), t) h =
        elim (Bool-cases
          (trim p.id == trim party.id && is_some (GoMap.get p.members c.cfg.account_id))) [
            | inl b ↦ rw b h
            | inr b ↦ rw b h
          ]

    hydrate-Spends :
        (party : Party) → Spends 1 (hydrate_party_state (metered c) (metered_env env) party)
    unfolding hydrate_party_state
    hydrate-Spends party s =
        elim (Bool-cases
          (trim party.id == "" || is_some (GoMap.get party.members c.cfg.account_id))) [
            | inl b ↦ rw b (omega arith)
            | inr b ↦ rw b (adopted-Spends party s _ (get_current_party-Spends c.cfg.account_id s))
          ]

    answer-Spends : (resp : Response) → Spends 0 (is_stale_answer (metered c) resp)
    unfolding is_stale_answer
    answer-Spends resp =
        if-Spends 0 (is_stale_revision c.codec resp) _ _ (λ s. omega arith)
          (if-Spends 0 (leb 300 resp.status_code) _ _ (λ s. omega arith) (λ s. omega arith))

    patch_at-Spends :
        (path : String) (payload : Json)
        → Spends 1 (patch_at (metered c) (metered_env env) path payload)
    patch_at-Spends path payload s =
        continue-Spends 1 0 s (ask (metered c) (metered_env env) "PATCH" path (some payload) s) _
          (ask-Spends "PATCH" path (some payload) s) answer-Spends

    party_patch-Spends :
        (party : Party) (updates : Fields)
        → Spends 1 (send_party_patch (metered c) (metered_env env) party updates)
    unfolding send_party_patch
    party_patch-Spends party updates =
        if-Spends 1 (no_fields updates) _ _ (λ s. omega arith) (patch_at-Spends _ _)

    member_patch-Spends :
        (party : Party) (m : Member) (stale : Bool) (updates : Fields)
        → Spends 1 (send_member_patch (metered c) (metered_env env) party m stale updates)
    unfolding send_member_patch
    member_patch-Spends party m stale updates =
        if-Spends 1 (stale || no_fields updates) _ _ (λ s. omega arith) (patch_at-Spends _ _)

    woken-Spends :
        (s : Sys (Metered W)) (r : Bool × Metered W)
        → r.1.requests ≡ s.world.requests
        → (woken (metered_env env) r s).1.world.requests ≤ s.world.requests + 0
    woken-Spends s (true, w) h = omega arith
    woken-Spends s (false, w) h = omega arith

    wait-Spends : (n : ℕ) → Spends 0 (wait_backoff (metered c) (metered_env env) n)
    unfolding wait_backoff
    wait-Spends n s =
        elim (Bool-cases
          (leb_ℤ (exponential (pos n) c.cfg.min_patch_backoff c.cfg.max_patch_backoff) (pos 0))) [
            | inl b ↦ rw b (woken-Spends s (true, s.world) refl)
            | inr b ↦ rw b (
                woken-Spends s
                  ((metered_env env).sleep
                    (exponential (pos n) c.cfg.min_patch_backoff c.cfg.max_patch_backoff) s.world)
                  refl)
          ]

    retry-Spends :
        (n k : ℕ) (is_last : Bool) (next : M (Metered W) Unit)
        → Spends k next
        → Spends k (retry_or_stop (metered c) (metered_env env) n is_last next)
    retry-Spends n k true next h s = omega arith
    retry-Spends n k false next h s = omega (
      arith,
      continue-Spends 0 k s (wait_backoff (metered c) (metered_env env) n s) (λ _. next)
          (wait-Spends n s) λ _. h,
    )

    finish-Spends :
        (n k : ℕ) (is_last : Bool) (id : String) (next : M (Metered W) Unit) (stale : Bool)
        → Spends k next
        → Spends (1 + k) (finish_pass (metered c) (metered_env env) n is_last id next stale)
    finish-Spends n k is_last id next true h s =
        continue-Spends 1 k s (refresh_party_state (metered c) (metered_env env) id s) _
          (refresh-Spends id s) λ _. retry-Spends n k is_last next h
    finish-Spends n k is_last id next false h s =
        continue-Spends 1 k s (refresh_party_state (metered c) (metered_env env) id s) _
          (refresh-Spends id s) λ _ t. omega arith

    send-Spends :
        (n k : ℕ) (is_last : Bool) (party : Party) (m : Member) (next : M (Metered W) Unit)
        (built : BuiltPatch)
        → Spends k next
        → Spends
            (1 + (1 + (1 + k)))
            (send_patches (metered c) (metered_env env) n is_last party m next built)
    unfolding send_patches
    send-Spends n k is_last party m next built h =
        if-Spends (1 + (1 + (1 + k)))
          (no_fields built.party_meta_updates && no_fields built.member_meta_updates) _ _
          (λ s. omega arith)
          λ s.
            continue-Spends 1 (1 + (1 + k)) s
              (send_party_patch (metered c) (metered_env env) party built.party_meta_updates s) _
              (party_patch-Spends party _ s)
              λ stale t.
                continue-Spends 1 (1 + k) t
                  (send_member_patch (metered c) (metered_env env) party m stale
                    built.member_meta_updates t)
                  _ (member_patch-Spends party m stale _ t)
                  λ stale. finish-Spends n k is_last party.id next stale h

    member-Spends :
        (i : PatchIntent) (n k : ℕ) (is_last : Bool) (next : M (Metered W) Unit) (party : Party)
        (o : Option Member)
        → Spends k next
        → Spends (3 + k) (patch_member (metered c) (metered_env env) i n is_last next party o)
    member-Spends i n k is_last next party none h s = omega arith
    member-Spends i n k is_last next party (some m) h s =
        omega (arith, send-Spends n k is_last party m next _ h s)

    pass-Spends :
        (i : PatchIntent) (n k : ℕ) (is_last : Bool) (next : M (Metered W) Unit) (o : Option Party)
        → Spends k next
        → Spends (1 + (3 + k)) (patch_pass (metered c) (metered_env env) i n is_last next o)
    unfolding patch_pass
    pass-Spends i n k is_last next none h s = omega arith
    pass-Spends i n k is_last next (some p) h s =
        continue-Spends 1 (3 + k) s (hydrate_party_state (metered c) (metered_env env) p s) _
          (hydrate-Spends p s) λ party. member-Spends i n k is_last next party _ h

    loop-Spends :
        (i : PatchIntent) (left n : ℕ)
        → Spends (4 * left) (patch_loop (metered c) (metered_env env) i left n)
    unfolding patch_loop
    loop-Spends i zero n s = omega arith
    loop-Spends i (suc left) n s = omega (
      arith,
      pass-Spends i n (4 * left) (left == 0)
          (patch_loop (metered c) (metered_env env) i left (n + 1)) (present s.state)
          (loop-Spends i left (n + 1)) s,
    )

  configured-Spends :
      (c : Commands W) (o : Option (Env W)) (i : PatchIntent) (s : Sys (Metered W))
      → (continue
          (configured (metered c) (elim o [ none ↦ none | some env ↦ some (metered_env env) ]) s)
          (λ env. patch_loop (metered c) env i (passes c.cfg.max_patch_retries) 0)).1.world.requests
        ≤ s.world.requests + 4 * passes c.cfg.max_patch_retries
  configured-Spends c none i s = omega arith
  configured-Spends c (some env) i s = elim (Bool-cases (c.cfg.account_id == "")) [
    | inl b ↦ rw b (omega arith)
    | inr b ↦ rw b (loop-Spends c env i (passes c.cfg.max_patch_retries) 0 s)
  ]

  -- A Set method's intent takes at most four requests of the party service for each of the
  -- MaxPatchRetries + 1 passes, whatever the service answers, and however often it calls a revision
  -- stale.
  pub apply_intent-requests :
      (c : Commands W) (i : PatchIntent) (s : Sys (Metered W)) (n : ℕ)
      → c.cfg.max_patch_retries ≡ pos n
      → (apply_intent_with_retry (metered c) i s).1.world.requests ≤ s.world.requests + 4 * (n + 1)
  unfolding apply_intent_with_retry validate_config
  apply_intent-requests c i s n h = omega (arith, ap passes h, configured-Spends c c.env i s)
