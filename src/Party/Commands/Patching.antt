-- ===== src/Party/Commands/Patching.antt =====
-- party/commands.go: the Set methods. An intent becomes patches of the party and of the member, which
-- are sent again with a fresh snapshot as long as the service calls their revision stale.
use fngo.Prelude.{
  ℕ, zero, suc, ◌+◌, ◌==◌, nat_eq, string_eq, String, Bool, true, false, ◌&&◌, ◌||◌, Option, none,
  some, [], ◌∷◌, leb, is_some, if◌then◌else◌,
}
use fngo.Prelude.Int.{ℤ, pos, negsuc, leb_ℤ}
use fngo.GoMap
use fngo.GoMap.{GoMap}
use fngo.Json.{Json, bool, num, str, arr, obj, nil, Fields, end, field, Codec}
use fngo.Backoff.{exponential}
use fngo.Transport.Types.{Response}
use fngo.Party.Types.{Member, Party}
use fngo.Party.Codec.{build_meta_patch}
use fngo.Party.Templates.{default_party_meta, default_party_member_meta}
use fngo.Party.Patch.{PatchIntent, BuiltPatch, PatchBuilder, build_intents}
use fngo.Party.Remote.{is_stale_revision}
use fngo.Party.Effect.{
  party_not_found, patch_conflict, context_error, Result, ok, err, Sys, M, pure, raise, ◌>>=◌, ◌>>◌,
}
use fngo.Party.Commands.{Env, Commands, object}
use fngo.Party.Commands.Service.{
  concat, decode_api_error, ask, validate_config, get_current_party, refresh_party_state,
}
use fngo.Party.Commands.Membership.{present}
use fngo.Party.Commands.Entering.{trim}

text_fields : GoMap String String → Fields
text_fields [] = end
text_fields ((k, v) ∷ m) = field k (str v) (text_fields m)

-- the payload of sendPartyPatch, and of sendMemberPatch
unfoldable pub party_payload : Codec → ℤ → Fields → Json
unfolding text_fields build_meta_patch
party_payload c revision updates = object (
    (
      "config",
      object (
          ("join_confirmation", bool false)
          ∷ ("joinability", str "OPEN")
          ∷ ("max_size", num (pos 16))
          ∷ []),
    )
    ∷ (
      "meta",
      object
          (("delete", arr nil) ∷ ("update", obj (text_fields (build_meta_patch c updates))) ∷ []),
    )
    ∷ ("party_state_overridden", obj end)
    ∷ ("party_privacy_type", str "OPEN")
    ∷ ("party_type", str "DEFAULT")
    ∷ ("party_sub_type", str "default")
    ∷ ("max_number_of_members", num (pos 16))
    ∷ ("invite_ttl_seconds", num (pos 14400))
    ∷ ("revision", num revision)
    ∷ [])

unfoldable pub member_patch_payload : Codec → ℤ → Fields → Json
unfolding text_fields build_meta_patch
member_patch_payload c revision updates = object (
    ("delete", arr nil)
    ∷ ("revision", num revision)
    ∷ ("update", obj (text_fields (build_meta_patch c updates)))
    ∷ [])

-- len(m) == 0
abbrev pub no_fields : Fields → Bool
no_fields end = true
no_fields (field _ _ _) = false

-- the passes of the loop, attempt 0 to attempt MaxPatchRetries
abbrev pub passes : ℤ → ℕ
passes (pos n) = suc n
passes (negsuc _) = 0

module _ {W : Type 0} where
  unfoldable pub new_builder : Commands W → Env W → PatchBuilder
  unfolding default_party_meta default_party_member_meta
  new_builder c env = record {
    account_id = c.cfg.account_id;
    party_template = default_party_meta c.codec c.files;
    member_template = default_party_member_meta c.codec c.files;
    to_lower_text = env.to_lower_text;
  }

  -- the party of the account, stored if it is this party with the account among its members
  abbrev pub adopted : Commands W → Party → Result (Option Party) × Sys W → Result Party × Sys W
  adopted c party (err e, s) = (ok party, s)
  adopted c party (ok none, s) = (ok party, s)
  adopted c party (ok (some p), s) =
      if trim p.id == trim party.id && is_some (GoMap.get p.members c.cfg.account_id)
      then (ok p, record s { state = some p })
      else (ok party, s)

  -- hydratePartyStateForSelfMember
  unfoldable pub hydrate_party_state : Commands W → Env W → Party → M W Party
  unfolding GoMap.get trim
  hydrate_party_state c env party s =
      if trim party.id == "" || is_some (GoMap.get party.members c.cfg.account_id)
      then (ok party, s)
      else adopted c party (get_current_party c env c.cfg.account_id s)

  -- what an answer to a patch says: stale, an error, or done
  unfoldable pub is_stale_answer : Commands W → Response → M W Bool
  is_stale_answer c resp =
      if is_stale_revision c.codec resp
      then pure true
      else if leb 300 resp.status_code
      then raise (decode_api_error c.codec resp)
      else pure false

  abbrev pub patch_at : Commands W → Env W → String → Json → M W Bool
  patch_at c env path payload = do
    resp ← ask c env "PATCH" path (some payload)
    is_stale_answer c resp

  unfoldable pub send_party_patch : Commands W → Env W → Party → Fields → M W Bool
  unfolding is_stale_answer
  send_party_patch c env party updates =
      if no_fields updates
      then pure false
      else patch_at c env (concat ("/parties/" ∷ party.id ∷ []))
          (party_payload c.codec party.revision updates)

  unfoldable pub send_member_patch : Commands W → Env W → Party → Member → Bool → Fields → M W Bool
  unfolding is_stale_answer
  send_member_patch c env party member stale updates =
      if stale || no_fields updates
      then pure stale
      else patch_at c env
          (concat ("/parties/" ∷ party.id ∷ "/members/" ∷ c.cfg.account_id ∷ "/meta" ∷ []))
          (member_patch_payload c.codec member.revision updates)

  abbrev pub woken : Env W → Bool × W → M W Unit
  woken env (true, w) s = (ok tt, record s { world = w })
  woken env (false, w) s = (err (context_error (env.context_text w)), record s { world = w })

  unfoldable pub wait_backoff : Commands W → Env W → ℕ → M W Unit
  wait_backoff c env attempt s =
      let delay = exponential (pos attempt) c.cfg.min_patch_backoff c.cfg.max_patch_backoff in
      woken env (if leb_ℤ delay (pos 0) then (true, s.world) else env.sleep delay s.world) s

  -- after a stale revision: on with `next`, unless this was the last attempt
  abbrev pub retry_or_stop : Commands W → Env W → ℕ → Bool → M W Unit → M W Unit
  retry_or_stop c env attempt true next = raise patch_conflict
  retry_or_stop c env attempt false next = do wait_backoff c env attempt; next

  -- the end of a pass, which refreshes the state whether or not the revision was stale
  abbrev pub finish_pass : Commands W → Env W → ℕ → Bool → String → M W Unit → Bool → M W Unit
  finish_pass c env attempt is_last id next true = do
    p ← refresh_party_state c env id
    retry_or_stop c env attempt is_last next
  finish_pass c env attempt is_last id next false = do p ← refresh_party_state c env id; pure tt

  unfoldable pub send_patches :
      Commands W → Env W → ℕ → Bool → Party → Member → M W Unit → BuiltPatch → M W Unit
  unfolding send_party_patch send_member_patch wait_backoff
  send_patches c env attempt is_last party member next built =
      if no_fields built.party_meta_updates && no_fields built.member_meta_updates
      then pure tt
      else (do
        party_stale ← send_party_patch c env party built.party_meta_updates
        stale ← send_member_patch c env party member party_stale built.member_meta_updates
        finish_pass c env attempt is_last party.id next stale)

  -- the patches of one pass, for the member of the account
  abbrev pub patch_member :
      Commands W → Env W → PatchIntent → ℕ → Bool → M W Unit → Party → Option Member → M W Unit
  patch_member c env intent attempt is_last next party none s = raise party_not_found s
  patch_member c env intent attempt is_last next party (some member) s =
      send_patches c env attempt is_last party member next
        (build_intents c.codec (new_builder c env) party intent (env.now s.world)) s

  -- one pass of the loop; `next` is the rest of it
  unfoldable pub patch_pass :
      Commands W → Env W → PatchIntent → ℕ → Bool → M W Unit → Option Party → M W Unit
  unfolding hydrate_party_state send_patches new_builder
  patch_pass c env intent attempt is_last next none = raise party_not_found
  patch_pass c env intent attempt is_last next (some current) = do
    party ← hydrate_party_state c env current
    patch_member c env intent attempt is_last next party (GoMap.get party.members c.cfg.account_id)

  unfoldable pub patch_loop : Commands W → Env W → PatchIntent → ℕ → ℕ → M W Unit
  patch_loop c env intent zero attempt s = raise patch_conflict s
  patch_loop c env intent (suc left) attempt s =
      patch_pass c env intent attempt (left == 0) (patch_loop c env intent left (attempt + 1))
        (present s.state) s

  unfoldable pub apply_intent_with_retry : Commands W → PatchIntent → M W Unit
  unfolding patch_loop
  apply_intent_with_retry c intent = do
    env ← validate_config c
    patch_loop c env intent (passes c.cfg.max_patch_retries) 0
