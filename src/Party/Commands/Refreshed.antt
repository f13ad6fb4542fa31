-- ===== src/Party/Commands/Refreshed.antt =====
-- party/commands.go: the party state stays well formed under the patches of an intent.
use fngo.Prelude.{
  ℕ, zero, suc, ◌+◌, ◌==◌, nat_eq, string_eq, String, Bool, true, false, ◌&&◌, ◌||◌, Option, none,
  some, refl, Bool-cases, inl, inr, leb, is_some, if◌then◌else◌,
}
use fngo.GoMap
use fngo.Json.{Json, Fields}
use fngo.Transport.Types.{Response}
use fngo.Party.Types.{Member, Party}
use fngo.Party.Patch.{PatchIntent, BuiltPatch}
use fngo.Party.Remote.{is_stale_revision}
use fngo.Party.Effect.{Result, ok, err, Sys, M}
use fngo.Party.Commands.{Env, Commands}
use fngo.Party.Commands.Service.{
  ask, get_party, get_current_party, refresh_party_state, validate_config,
}
use fngo.Party.Commands.Membership.{present}
use fngo.Party.Commands.Entering.{trim}
use fngo.Party.Commands.Patching.{
  hydrate_party_state, adopted, is_stale_answer, patch_at, no_fields, passes, send_party_patch,
  send_member_patch, woken, wait_backoff, retry_or_stop, finish_pass, send_patches, patch_member,
  patch_pass, patch_loop, apply_intent_with_retry,
}
use fngo.Party.Commands.Rules.{
  AllValid, Post, Post-continue, Post-weaken, get_current_party-Fetch, get_party-Fetch,
}
use fngo.Party.Commands.Keeping.{Keeps, Keeps-continue, ask-Keeps, validate-Keeps, valid-same}

module _ {W : Type 0} where
  refresh-Keeps :
      (c : Commands W) (env : Env W) (id : String) (s : Sys W)
      → AllValid s.state
      → Keeps (refresh_party_state c env id s)
  unfolding refresh_party_state
  refresh-Keeps c env id s v =
      Post-continue _ _ _ _ (get_party c env id s) _ (get_party-Fetch c env id s.state s refl)
        (λ p t h. h.0) λ t h. valid-same s.state t v h

  -- the party that comes from the service is stored, and none other
  adopted-Keeps :
      (c : Commands W) (party : Party) (r : Result (Option Party) × Sys W)
      → Post (λ o t. AllValid o × AllValid t) AllValid r
      → Keeps (adopted c party r)
  adopted-Keeps c party (err e, s) h = h
  adopted-Keeps c party (ok none, s) h = h.1
  adopted-Keeps c party (ok (some p), s) h =
      elim (Bool-cases
        (trim p.id == trim party.id && is_some (GoMap.get p.members c.cfg.account_id))) [
          | inl b ↦ rw b h.0
          | inr b ↦ rw b h.1
        ]

  woken-Keeps : (env : Env W) (r : Bool × W) (s : Sys W) → AllValid s.state → Keeps (woken env r s)
  woken-Keeps env (true, w) s v = v
  woken-Keeps env (false, w) s v = v

  wait-Keeps :
      (c : Commands W) (env : Env W) (n : ℕ) (s : Sys W)
      → AllValid s.state
      → Keeps (wait_backoff c env n s)
  unfolding wait_backoff
  wait-Keeps c env n s v = woken-Keeps env _ s v

  answer-Keeps :
      (c : Commands W) (resp : Response) (s : Sys W)
      → AllValid s.state
      → Keeps (is_stale_answer c resp s)
  unfolding is_stale_answer
  answer-Keeps c resp s v = elim (Bool-cases (is_stale_revision c.codec resp)) [
    | inl b ↦ rw b v
    | inr b ↦ elim (Bool-cases (leb 300 resp.status_code)) [
      | inl d ↦ rw (b, d) v
      | inr d ↦ rw (b, d) v
    ]
  ]

  patch_at-Keeps :
      (c : Commands W) (env : Env W) (path : String) (payload : Json) (s : Sys W)
      → AllValid s.state
      → Keeps (patch_at c env path payload s)
  patch_at-Keeps c env path payload s v =
      Keeps-continue (ask c env "PATCH" path (some payload) s) _
        (ask-Keeps c env "PATCH" path _ s v) λ resp t v. answer-Keeps c resp t v

  -- a computation that keeps the state well formed wherever it starts
  abbrev pub Safe : {A : Type 0} → M W A → Type 0
  Safe m = (s : Sys W) → AllValid s.state → Keeps (m s)

  if-Safe : {A : Type 0} (b : Bool) (m n : M W A) → Safe m → Safe n → Safe (if b then m else n)
  if-Safe true m n h k = h
  if-Safe false m n h k = k

  if-Keeps :
      {A : Type 0} (b : Bool) (r q : Result A × Sys W)
      → Keeps r
      → Keeps q
      → Keeps (if b then r else q)
  if-Keeps true r q h k = h
  if-Keeps false r q h k = k

  party_patch-Safe :
      (c : Commands W) (env : Env W) (party : Party) (updates : Fields)
      → Safe (send_party_patch c env party updates)
  unfolding send_party_patch
  party_patch-Safe c env party updates =
      if-Safe (no_fields updates) _ _ (λ s v. v) λ s v. patch_at-Keeps c env _ _ s v

  member_patch-Safe :
      (c : Commands W) (env : Env W) (party : Party) (m : Member) (stale : Bool) (updates : Fields)
      → Safe (send_member_patch c env party m stale updates)
  unfolding send_member_patch
  member_patch-Safe c env party m stale updates =
      if-Safe (stale || no_fields updates) _ _ (λ s v. v) λ s v. patch_at-Keeps c env _ _ s v

  retry-Safe :
      (c : Commands W) (env : Env W) (n : ℕ) (is_last : Bool) (next : M W Unit)
      → Safe next
      → Safe (retry_or_stop c env n is_last next)
  retry-Safe c env n true next h s v = v
  retry-Safe c env n false next h s v =
      Keeps-continue (wait_backoff c env n s) _ (wait-Keeps c env n s v) λ _ t v. h t v

  finish-Safe :
      (c : Commands W) (env : Env W) (n : ℕ) (is_last : Bool) (id : String) (next : M W Unit)
      (stale : Bool)
      → Safe next
      → Safe (finish_pass c env n is_last id next stale)
  finish-Safe c env n is_last id next true h s v =
      Keeps-continue (refresh_party_state c env id s) _ (refresh-Keeps c env id s v)
        λ _ t v. retry-Safe c env n is_last next h t v
  finish-Safe c env n is_last id next false h s v =
      Keeps-continue (refresh_party_state c env id s) _ (refresh-Keeps c env id s v) λ _ t v. v

  send-Safe :
      (c : Commands W) (env : Env W) (n : ℕ) (is_last : Bool) (party : Party) (m : Member)
      (next : M W Unit) (built : BuiltPatch)
      → Safe next
      → Safe (send_patches c env n is_last party m next built)
  unfolding send_patches
  send-Safe c env n is_last party m next built h =
      if-Safe (no_fields built.party_meta_updates && no_fields built.member_meta_updates) _ _
        (λ s v. v)
        λ s v.
          Keeps-continue (send_party_patch c env party built.party_meta_updates s) _
            (party_patch-Safe c env party built.party_meta_updates s v)
            λ stale t v.
              Keeps-continue (send_member_patch c env party m stale built.member_meta_updates t) _
                (member_patch-Safe c env party m stale built.member_meta_updates t v)
                λ stale t v. finish-Safe c env n is_last party.id next stale h t v

  patch_member-Safe :
      (c : Commands W) (env : Env W) (i : PatchIntent) (n : ℕ) (is_last : Bool) (next : M W Unit)
      (party : Party) (o : Option Member)
      → Safe next
      → Safe (patch_member c env i n is_last next party o)
  patch_member-Safe c env i n is_last next party none h s v = v
  patch_member-Safe c env i n is_last next party (some m) h s v =
      send-Safe c env n is_last party m next _ h s v

  hydrate-Safe :
      (c : Commands W) (env : Env W) (party : Party) → Safe (hydrate_party_state c env party)
  unfolding hydrate_party_state
  hydrate-Safe c env party s v =
      if-Keeps (trim party.id == "" || is_some (GoMap.get party.members c.cfg.account_id)) _ _ v (
        adopted-Keeps c party (get_current_party c env c.cfg.account_id s) (
          Post-weaken _ _ _ _ (get_current_party c env c.cfg.account_id s)
            (get_current_party-Fetch c env c.cfg.account_id s.state s refl)
            (λ o t h. (h.0, valid-same s.state t v h.1)) λ t h. valid-same s.state t v h))

  pass-Safe :
      (c : Commands W) (env : Env W) (i : PatchIntent) (n : ℕ) (is_last : Bool) (next : M W Unit)
      (o : Option Party)
      → Safe next
      → Safe (patch_pass c env i n is_last next o)
  unfolding patch_pass
  pass-Safe c env i n is_last next none h s v = v
  pass-Safe c env i n is_last next (some p) h s v =
      Keeps-continue (hydrate_party_state c env p s) _ (hydrate-Safe c env p s v)
        λ party t v. patch_member-Safe c env i n is_last next party _ h t v

  loop-Safe :
      (c : Commands W) (env : Env W) (i : PatchIntent) (left n : ℕ)
      → Safe (patch_loop c env i left n)
  unfolding patch_loop
  loop-Safe c env i zero n s v = v
  loop-Safe c env i (suc left) n s v =
      pass-Safe c env i n (left == 0) (patch_loop c env i left (n + 1)) (present s.state)
        (loop-Safe c env i left (n + 1)) s v

  pub apply_intent-Keeps :
      (c : Commands W) (i : PatchIntent) (s : Sys W)
      → AllValid s.state
      → Keeps (apply_intent_with_retry c i s)
  unfolding apply_intent_with_retry
  apply_intent-Keeps c i s v =
      Keeps-continue (validate_config c s) _ (validate-Keeps c s v)
        λ env t v. loop-Safe c env i (passes c.cfg.max_patch_retries) 0 t v
