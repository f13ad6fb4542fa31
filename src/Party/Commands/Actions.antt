-- ===== src/Party/Commands/Actions.antt =====
-- party/commands.go: exported methods of `Commands` as one type of actions, together with the events
-- that the state gets from the XMPP side. The Set methods are `set` on their intent, which they apply
-- once the id they are given is not blank.
use fngo.Prelude.{String, List, [], ◌∷◌}
use fngo.GoTime.{Time}
use fngo.Party.Types.{ReducerEvent}
use fngo.Party.Reducer.{apply_event}
use fngo.Party.Patch.{PatchIntent}
use fngo.Party.Effect.{Sys, M, ◌>>=◌, pure}
use fngo.Party.Commands.{Commands}
use fngo.Party.Commands.Service.{create_party_locked}
use fngo.Party.Commands.Membership.{sync_current_party, ensure_party_locked, leave}
use fngo.Party.Commands.Entering.{
  join_party_locked, join_party_by_member_id, send_join_request_to_member,
}
use fngo.Party.Commands.Promotion.{join_party_invite_from}
use fngo.Party.Commands.Patching.{apply_intent_with_retry}

pub data Action : Type 0 where
  sync ensure create leave_party : Action
  join join_by_member request_join accept_invite : String → Action
  set : PatchIntent → Action

-- what changes the party state: a method, or an event at a time
pub data Change : Type 0 where
  act : Action → Change
  event : Time → ReducerEvent → Change

module _ {W : Type 0} where
  -- the call without its value
  abbrev pub discard : {A : Type 0} → M W A → M W Unit
  discard m = m >>= λ _. pure tt

  unfoldable pub perform : Commands W → Action → M W Unit
  perform c sync = sync_current_party c
  perform c ensure = discard (ensure_party_locked c)
  perform c create = discard (create_party_locked c)
  perform c leave_party = leave c
  perform c (join id) = join_party_locked c id
  perform c (join_by_member member) = join_party_by_member_id c member
  perform c (request_join member) = send_join_request_to_member c member
  perform c (accept_invite pinger) = discard (join_party_invite_from c pinger)
  perform c (set i) = apply_intent_with_retry c i

  unfoldable pub change : Commands W → Change → Sys W → Sys W
  unfolding perform
  change c (act a) s = (perform c a s).1
  change c (event now e) s = record s { state = (apply_event c.codec now e s.state).0 }

  unfoldable pub changes : Commands W → List Change → Sys W → Sys W
  unfolding change
  changes c [] s = s
  changes c (a ∷ l) s = changes c l (change c a s)
