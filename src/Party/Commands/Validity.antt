-- ===== src/Party/Commands/Validity.antt =====
-- party/commands.go and party/reducer.go: the party state stays well formed under the methods and
-- the events, in any order.
use fngo.Prelude.{String, none, some, ◌≡◌, refl, Bool, true, false, string_eq, List, [], ◌∷◌, All}
use fngo.GoTime.{Time}
use fngo.GoStrings.{trim_space}
use fngo.Json.{Codec}
use fngo.Party.Types.{ReducerEvent}
use fngo.Party.Reducer.{State, apply_event}
use fngo.Party.Reducer.Keys.{apply_event-IsKeyed}
use fngo.Party.Reducer.Captain.{apply_event-captain}
use fngo.Party.Effect.{Sys}
use fngo.Party.Commands.{Commands}
use fngo.Party.Commands.Service.{
  ask, accepted, validate_config, get_current_party, create_party_locked, or_raise,
}
use fngo.Party.Commands.Membership.{
  sync_current_party, ensure_party_locked, leave, leave_party_locked,
}
use fngo.Party.Commands.Entering.{
  trim, required, found_party, join_party_locked, join_party_by_member_id,
  send_join_request_to_member,
}
use fngo.Party.Commands.Promotion.{join_party_invite_from, decode_ids, first_id}
use fngo.Party.Commands.Actions.{
  Action, sync, ensure, create, leave_party, join, join_by_member, request_join, accept_invite, set,
  perform, Change, act, event, change, changes,
}
use fngo.Party.Commands.Rules.{
  IsValid, AllValid, Post-continue, Post-weaken, get_current_party-Fetch, validate_config-Fetch,
  create_party_locked-Fetch,
}
use fngo.Party.Commands.Outcomes.{
  ensure_party-outcome, leave_party-all_or_nothing, leave_party-new_party,
}
use fngo.Party.Commands.Joined.{join_party-outcome}
use fngo.Party.Commands.Keeping.{
  zero_party-IsValid, valid-same, valid-zero, valid-held, valid-Left, valid-Entered,
  or_zero-IsValid, Keeps, Keeps-state, Fetch-Keeps, Keeps-continue, validate-Keeps, required-Keeps,
  found_party-Keeps, current-Keeps, ask-Keeps, accepted-Keeps, or_raise-Keeps,
}
use fngo.Party.Commands.Refreshed.{apply_intent-Keeps}

module _ {W : Type 0} where
  sync-Keeps : (c : Commands W) (s : Sys W) → AllValid s.state → Keeps (sync_current_party c s)
  unfolding sync_current_party
  sync-Keeps c s v =
      Post-continue _ _ _ _ (validate_config c s) _ (validate_config-Fetch c s.state s refl)
        (λ env t h.
          Post-continue _ _ _ _ (get_current_party c env c.cfg.account_id t) _
            (get_current_party-Fetch c env c.cfg.account_id s.state t h.1)
            (λ o u k. or_zero-IsValid o k.0) λ u k. valid-same s.state u v k)
        λ t h. valid-same s.state t v h

  ensure-Keeps : (c : Commands W) (s : Sys W) → AllValid s.state → Keeps (ensure_party_locked c s)
  ensure-Keeps c s v =
      Post-weaken _ _ _ _ (ensure_party_locked c s) (ensure_party-outcome c s) (λ p t h. rw h.0 h.1)
        λ t h. valid-same s.state t v h

  leave-Keeps :
      (c : Commands W) (b : Bool) (s : Sys W) → AllValid s.state → Keeps (leave_party_locked c b s)
  leave-Keeps c true s v =
      Post-weaken _ _ _ _ (leave_party_locked c true s) (leave_party-new_party c s)
        (λ _ t h. valid-held t h) λ t h. valid-Left s.state t v h
  leave-Keeps c false s v =
      Post-weaken _ _ _ _ (leave_party_locked c false s) (leave_party-all_or_nothing c s)
        (λ _ t h. valid-zero t h) λ t h. valid-same s.state t v h

  join-Keeps :
      (c : Commands W) (id : String) (s : Sys W)
      → AllValid s.state
      → Keeps (join_party_locked c id s)
  join-Keeps c id s v =
      Post-weaken _ _ _ _ (join_party_locked c id s) (join_party-outcome c id s)
        (λ _ t h. valid-Entered (trim_space id) s.state t v h) λ t h. valid-Left s.state t v h

  join_by_member-Keeps :
      (c : Commands W) (m : String) (s : Sys W)
      → AllValid s.state
      → Keeps (join_party_by_member_id c m s)
  unfolding join_party_by_member_id
  join_by_member-Keeps c m s v =
      Keeps-continue (validate_config c s) _ (validate-Keeps c s v) λ env t v.
        Keeps-continue (required _ (trim m) t) _ (required-Keeps _ (trim m) t v) λ _ t v.
          Keeps-continue (found_party env.unicode_lower (get_current_party c env (trim m) t)) _
            (found_party-Keeps env.unicode_lower (get_current_party c env (trim m) t)
              (current-Keeps c env (trim m) t v))
            λ p t v. join-Keeps c p.id t v

  request_join-Keeps :
      (c : Commands W) (m : String) (s : Sys W)
      → AllValid s.state
      → Keeps (send_join_request_to_member c m s)
  unfolding send_join_request_to_member
  request_join-Keeps c m s v =
      Keeps-continue (validate_config c s) _ (validate-Keeps c s v) λ env t v.
        Keeps-continue (required _ (trim m) t) _ (required-Keeps _ (trim m) t v) λ _ t v.
          Keeps-continue (ask c env "POST" _ _ t) _ (ask-Keeps c env "POST" _ _ t v)
            λ resp t v. accepted-Keeps c resp t v

  invite-Keeps :
      (c : Commands W) (m : String) (s : Sys W)
      → AllValid s.state
      → Keeps (join_party_invite_from c m s)
  unfolding join_party_invite_from
  invite-Keeps c m s v = Keeps-continue (validate_config c s) _ (validate-Keeps c s v) λ env t v.
      Keeps-continue (required _ (trim m) t) _ (required-Keeps _ (trim m) t v) λ _ t v.
        Keeps-continue (ask c env "GET" _ _ t) _ (ask-Keeps c env "GET" _ _ t v) λ resp t v.
          Keeps-continue (accepted c resp t) _ (accepted-Keeps c resp t v) λ _ t v.
            Keeps-continue (or_raise _ _ t) _ (or_raise-Keeps _ (decode_ids c.codec _) t v)
              λ ids t v.
                Keeps-continue (or_raise _ _ t) _ (or_raise-Keeps _ (first_id ids) t v) λ id t v.
                  Keeps-continue (join_party_locked c id t) _ (join-Keeps c id t v) λ _ t v. v

  perform-Keeps :
      (c : Commands W) (a : Action) (s : Sys W) → AllValid s.state → Keeps (perform c a s)
  unfolding perform leave
  perform-Keeps c sync s v = sync-Keeps c s v
  perform-Keeps c ensure s v =
      Keeps-continue (ensure_party_locked c s) _ (ensure-Keeps c s v) λ _ t v. v
  perform-Keeps c create s v =
      Keeps-continue (create_party_locked c s) _
        (Fetch-Keeps IsValid s.state _ v (create_party_locked-Fetch c s.state s refl)) λ _ t v. v
  perform-Keeps c leave_party s v = leave-Keeps c _ s v
  perform-Keeps c (join id) s v = join-Keeps c id s v
  perform-Keeps c (join_by_member m) s v = join_by_member-Keeps c m s v
  perform-Keeps c (request_join m) s v = request_join-Keeps c m s v
  perform-Keeps c (accept_invite m) s v =
      Keeps-continue (join_party_invite_from c m s) _ (invite-Keeps c m s v) λ _ t v. v
  perform-Keeps c (set i) s v = apply_intent-Keeps c i s v

-- an event that names no captain of its own
abbrev pub NamesNoCaptain : Change → Type 0
NamesNoCaptain (act a) = Unit {0}
NamesNoCaptain (event now e) = e.captain_id ≡ ""

event-valid :
    (c : Codec) (now : Time) (e : ReducerEvent) (st : State)
    → e.captain_id ≡ ""
    → AllValid st
    → AllValid (apply_event c now e st).0
unfolding apply_event IsValid
event-valid c now e none n v =
    (apply_event-IsKeyed c now e none zero_party-IsValid.0, apply_event-captain c now e none n refl)
event-valid c now e (some p) n v =
    (apply_event-IsKeyed c now e (some p) v.0, apply_event-captain c now e (some p) n v.1)

module _ {W : Type 0} where
  change-valid :
      (c : Commands W) (a : Change) (s : Sys W)
      → NamesNoCaptain a
      → AllValid s.state
      → AllValid (change c a s).state
  unfolding change
  change-valid c (act a) s n v = Keeps-state (perform c a s) (perform-Keeps c a s v)
  change-valid c (event now e) s n v = event-valid c.codec now e s.state n v

  -- Whatever methods of `Action` are called, whatever the service answers and whatever events that
  -- name no captain of their own come between them, a party state that starts well formed stays so:
  -- each member is stored under its own account id, and the captain, if there is one, is a member.
  pub changes-valid :
      (c : Commands W) (l : List Change) (s : Sys W)
      → All NamesNoCaptain l
      → AllValid s.state
      → AllValid (changes c l s).state
  unfolding changes
  changes-valid c [] s n v = v
  changes-valid c (a ∷ l) s (n, ns) v = changes-valid c l (change c a s) ns (change-valid c a s n v)
