-- ===== src/Party/Commands/Entering.antt =====
-- party/commands.go: joining a party, by its id, through a member or through an invitation.
use fngo.Prelude.{
  ℕ, ◌==◌, nat_eq, string_eq, String, Bool, true, false, ◌&&◌, ◌||◌, Option, none, some, [], ◌∷◌,
  is_some, if◌then◌else◌,
}
use fngo.GoMap
use fngo.GoMap.{GoMap}
use fngo.GoStrings.{trim_space, trim_left, trim_right, to_lower, codes, same_codes, contains_codes}
use fngo.Json.{str}
use fngo.Party.Types.{Party}
use fngo.Party.Effect.{
  ApiError, Error, party_not_found, member_not_found, not_captain, invalid, api, Result, ok, err,
  Sys, M, pure, raise, ◌>>=◌, ◌>>◌, replace,
}
use fngo.Party.Commands.{Env, Commands, object}
use fngo.Party.Commands.Service.{
  concat, ask, validate_config, accepted, get_current_party, get_party, join_payload,
}
use fngo.Party.Commands.Membership.{present, leave_party_locked}

-- the file's own `trimSpace`, which knows four characters
unfoldable pub trim : String → String
trim s =
    let blank = λ (x : ℕ). x == 32 || x == 9 || x == 10 || x == 13 in
    trim_right blank (trim_left blank s)

-- isSelfOnlyUserQueryForbidden
unfoldable pub is_self_only_forbidden : (ℕ → ℕ) → Error → Bool
unfolding trim
is_self_only_forbidden u (api e) =
    e.status_code == 403
    && contains_codes (to_lower u (trim e.code)) (codes "user_operation_forbidden")
    && contains_codes (to_lower u (trim e.message)) (codes "target accountid")
    && contains_codes (to_lower u (trim e.message)) (codes "does not match the authenticated user")
is_self_only_forbidden u _ = false

-- mapPromoteError
abbrev pub promote_error : (ℕ → ℕ) → ApiError → Error
promote_error u e =
    let code = to_lower u (trim_space e.code) in
    if same_codes code (codes "errors.com.epicgames.social.party.party_change_forbidden")
      || e.status_code == 403
    then not_captain
    else if contains_codes code (codes "member_not_found")
    then member_not_found
    else if contains_codes code (codes "party_not_found")
    then party_not_found
    else if e.status_code == 404
    then member_not_found
    else api e

unfoldable pub map_promote_error : (ℕ → ℕ) → Error → Error
map_promote_error u (api e) = promote_error u e
map_promote_error u e = e

abbrev pub is_party_not_found : Error → Bool
is_party_not_found party_not_found = true
is_party_not_found _ = false

abbrev pub same_party : String → Option Party → Bool
same_party id none = false
same_party id (some p) = p.id == id

module _ {W : Type 0} where
  -- errors of `m` that `p` accepts are passed over
  abbrev pub forgive : (Error → Bool) → Result (Unit {0}) × Sys W → Result (Unit {0}) × Sys W
  forgive p (ok a, s) = (ok a, s)
  forgive p (err e, s) = if p e then (ok tt, s) else (err e, s)

  -- the party of the account, where it is this party and has the account among its members
  abbrev pub better :
      Commands W → String → Party → Result (Option Party) × Sys W → Result Party × Sys W
  better c id party (err e, s) = (ok party, s)
  better c id party (ok none, s) = (ok party, s)
  better c id party (ok (some p), s) = (
    ok (
        if trim p.id == trim id && is_some (GoMap.get p.members c.cfg.account_id)
        then p
        else party),
    s,
  )

  -- hydrateJoinedPartySelfMember
  unfoldable pub hydrate_joined_self_member : Commands W → Env W → String → Party → M W Party
  unfolding trim GoMap.get
  hydrate_joined_self_member c env id party s =
      if is_some (GoMap.get party.members c.cfg.account_id)
      then (ok party, s)
      else better c id party (get_current_party c env c.cfg.account_id s)

  -- the party that is left first
  abbrev pub leave_first : Commands W → Option Party → M W Unit
  leave_first c none = pure tt
  leave_first c (some p) = λ s. forgive is_party_not_found (leave_party_locked c false s)

  -- the requests of joinPartyLocked, and what it stores
  unfoldable pub enter_party : Commands W → Env W → String → M W Unit
  unfolding hydrate_joined_self_member
  enter_party c env id = do
    resp ←
        ask c env "POST" (concat ("/parties/" ∷ id ∷ "/members/" ∷ c.cfg.account_id ∷ "/join" ∷ []))
          (some (join_payload c))
    accepted c resp
    fetched ← get_party c env id
    party ← hydrate_joined_self_member c env id fetched
    replace party

  -- joinPartyLocked once the id is known not to be the current one
  unfoldable pub join_other : Commands W → Env W → String → Option Party → M W Unit
  unfolding enter_party
  join_other c env id current = do leave_first c current; enter_party c env id

  unfoldable pub join_trimmed : Commands W → Env W → String → M W Unit
  unfolding join_other
  join_trimmed c env id s =
      if id == ""
      then (err (invalid "party: party id is required"), s)
      else if same_party id s.state
      then (ok tt, s)
      else join_other c env id (present s.state) s

  -- joinPartyLocked
  unfoldable pub join_party_locked : Commands W → String → M W Unit
  unfolding join_trimmed
  join_party_locked c id = do env ← validate_config c; join_trimmed c env (trim_space id)

  -- the party of the member, whose absence and whose refusal are one error
  abbrev pub found_party : (ℕ → ℕ) → Result (Option Party) × Sys W → Result Party × Sys W
  found_party u (err e, s) = (err (if is_self_only_forbidden u e then party_not_found else e), s)
  found_party u (ok none, s) = (err party_not_found, s)
  found_party u (ok (some p), s) = if p.id == "" then (err party_not_found, s) else (ok p, s)

  abbrev pub required : String → String → M W Unit
  required message text = if text == "" then raise (invalid message) else pure tt

  unfoldable pub join_party_by_member_id : Commands W → String → M W Unit
  unfolding is_self_only_forbidden trim
  join_party_by_member_id c member = do
    env ← validate_config c
    let id = trim member
    required "party: member account id is required" id
    party ← (λ s. found_party env.unicode_lower (get_current_party c env id s))
    join_party_locked c party.id

  unfoldable pub send_join_request_to_member : Commands W → String → M W Unit
  unfolding trim
  send_join_request_to_member c member = do
    env ← validate_config c
    let id = trim member
    required "party: member account id is required" id
    resp ←
        ask c env "POST" (concat ("/members/" ∷ id ∷ "/intentions/" ∷ c.cfg.account_id ∷ []))
          (some (object (("urn:epic:invite:platformdata_s", str "") ∷ [])))
    accepted c resp
