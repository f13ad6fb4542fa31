-- ===== src/Party/Commands/Membership.antt =====
-- party/commands.go: entering and leaving a party.
use fngo.Prelude.{
  ◌==◌, nat_eq, string_eq, Bool, true, false, not, Option, none, some, [], ◌∷◌, if◌then◌else◌,
}
use fngo.Party.Types.{Party, zero_party}
use fngo.Party.Effect.{party_not_found, M, pure, raise, ◌>>=◌, ◌>>◌, snapshot, replace}
use fngo.Party.Commands.{Env, Commands}
use fngo.Party.Commands.Service.{
  concat, ask, validate_config, accepted, get_current_party, create_party_locked,
}

-- the party that is there, or the empty one
abbrev pub or_zero : Option Party → Party
or_zero none = zero_party
or_zero (some p) = p

-- `snapshot != nil && snapshot.ID == id` for an id that is not empty; one that is missing has none
abbrev pub present : Option Party → Option Party
present none = none
present (some p) = if p.id == "" then none else some p

module _ {W : Type 0} where
  unfoldable pub sync_current_party : Commands W → M W Unit
  sync_current_party c = do
    env ← validate_config c
    current ← get_current_party c env c.cfg.account_id
    replace (or_zero current)

  abbrev pub keep_or_create : Commands W → Option Party → M W Party
  keep_or_create c (some p) = do replace p; pure p
  keep_or_create c none = do p ← create_party_locked c; replace p; pure p

  -- ensurePartyLocked, and ResyncAfterReconnect but for its result
  unfoldable pub ensure_party_locked : Commands W → M W Party
  ensure_party_locked c = do
    env ← validate_config c
    current ← get_current_party c env c.cfg.account_id
    keep_or_create c current

  -- the rest of leavePartyLocked, once the service has let the account go
  abbrev pub after_leave : Commands W → Bool → M W Unit
  after_leave c true = do p ← ensure_party_locked c; pure tt
  after_leave c false = pure tt

  abbrev pub leave_party : Commands W → Env W → Bool → Option Party → M W Unit
  leave_party c env create_after none = raise party_not_found
  leave_party c env create_after (some p) = do
    resp ←
        ask c env "DELETE" (concat ("/parties/" ∷ p.id ∷ "/members/" ∷ c.cfg.account_id ∷ [])) none
    accepted c resp
    replace zero_party
    after_leave c create_after

  -- leavePartyLocked; `create_after` for a new party afterwards
  unfoldable pub leave_party_locked : Commands W → Bool → M W Unit
  leave_party_locked c create_after = do
    env ← validate_config c
    current ← snapshot
    leave_party c env create_after (present current)

  -- LeaveParty
  unfoldable pub leave : Commands W → M W Unit
  leave c = leave_party_locked c (not c.cfg.disable_auto_create)
