-- ===== src/Party/Commands/Outcomes.antt =====
-- party/commands.go: what each method leaves in the party state, whatever the service answers.
use fngo.Prelude.{Option, none, some, ◌≡◌, refl, true, false, inl, inr, ◌⊎◌, string_eq, ◌∙◌}
use fngo.Party.Types.{Party, zero_party}
use fngo.Party.Reducer.{State}
use fngo.Party.Effect.{Sys}
use fngo.Party.Commands.{Env, Commands}
use fngo.Party.Commands.Service.{
  ask, accepted, get_current_party, validate_config, create_party_locked,
}
use fngo.Party.Commands.Membership.{
  keep_or_create, ensure_party_locked, leave_party, leave_party_locked, after_leave, present,
}
use fngo.Party.Commands.Rules.{
  IsValid, AllValid, Post, Post-continue, Post-weaken, ask-Fetch, accepted-Fetch,
  get_current_party-Fetch, validate_config-Fetch, create_party_locked-Fetch,
}

-- the state is a party that is well formed
pub record HoldsValid (t : State) : Type 0 where
  pub party : Party
  pub held : t ≡ some party
  pub valid : IsValid party

module _ {W : Type 0} where
  keep_or_create-outcome :
      (c : Commands W) (o : Option Party) (st : State) (s : Sys W)
      → AllValid o
      → s.state ≡ st
      → Post (λ p t. (t ≡ some p) × IsValid p) (λ t. t ≡ st) (keep_or_create c o s)
  keep_or_create-outcome c (some p) st s v q = (refl, v)
  keep_or_create-outcome c none st s v q =
      Post-continue _ _ _ _ (create_party_locked c s) _ (create_party_locked-Fetch c st s q)
        (λ p t h. (refl, h.0)) λ t h. h

  -- If the party is ensured, the state holds the party that is returned, each of its members under
  -- its own account id and its captain, if it has one, among them; on any error the state is as before.
  pub ensure_party-outcome :
      (c : Commands W) (s : Sys W)
      → Post (λ p t. (t ≡ some p) × IsValid p) (λ t. t ≡ s.state) (ensure_party_locked c s)
  unfolding ensure_party_locked
  ensure_party-outcome c s =
      Post-continue _ _ _ _ (validate_config c s) _ (validate_config-Fetch c s.state s refl)
        (λ env t h.
          Post-continue _ _ _ _ (get_current_party c env c.cfg.account_id t) _
            (get_current_party-Fetch c env c.cfg.account_id s.state t h.1)
            (λ o u k. keep_or_create-outcome c o s.state u k.0 k.1) λ u k. k)
        λ t h. h

  leave_party-outcome :
      (c : Commands W) (env : Env W) (o : Option Party) (st : State) (s : Sys W)
      → s.state ≡ st
      → Post (λ _ t. t ≡ some zero_party) (λ t. t ≡ st) (leave_party c env false o s)
  leave_party-outcome c env none st s q = q
  leave_party-outcome c env (some p) st s q =
      Post-continue _ _ _ _ (ask c env "DELETE" _ none s) _ (ask-Fetch c env "DELETE" _ none st s q)
        (λ resp t h.
          Post-continue _ _ _ _ (accepted c resp t) _ (accepted-Fetch c resp st t h.1)
            (λ _ u k. refl) λ u k. k)
        λ t h. h

  -- A departure that creates no new party is all or nothing: on success the state holds the empty
  -- party, on any error, be it without a party, of the transport or of the service, it is as before.
  pub leave_party-all_or_nothing :
      (c : Commands W) (s : Sys W)
      → Post (λ _ t. t ≡ some zero_party) (λ t. t ≡ s.state) (leave_party_locked c false s)
  unfolding leave_party_locked
  leave_party-all_or_nothing c s =
      Post-continue _ _ _ _ (validate_config c s) _ (validate_config-Fetch c s.state s refl)
        (λ env t h. leave_party-outcome c env (present t.state) s.state t h.1) λ t h. h

  after_leave-outcome :
      (c : Commands W) (s : Sys W)
      → s.state ≡ some zero_party
      → Post (λ _ t. HoldsValid t) (λ t. t ≡ some zero_party) (after_leave c true s)
  after_leave-outcome c s q =
      Post-continue _ _ _ _ (ensure_party_locked c s) _ (ensure_party-outcome c s)
        (λ p t h. record { party = p; held = h.0; valid = h.1 }) λ t h. h ∙ q

  leave_and_create-outcome :
      (c : Commands W) (env : Env W) (o : Option Party) (st : State) (s : Sys W)
      → s.state ≡ st
      → Post
          (λ _ t. HoldsValid t)
          (λ t. (t ≡ st) ⊎ (t ≡ some zero_party))
          (leave_party c env true o s)
  leave_and_create-outcome c env none st s q = inl q
  leave_and_create-outcome c env (some p) st s q =
      Post-continue _ _ _ _ (ask c env "DELETE" _ none s) _ (ask-Fetch c env "DELETE" _ none st s q)
        (λ resp t h.
          Post-continue _ _ _ _ (accepted c resp t) _ (accepted-Fetch c resp st t h.1)
            (λ _ u k.
              Post-weaken _ _ _ _ (after_leave c true (record u { state = some zero_party }))
                (after_leave-outcome c (record u { state = some zero_party }) refl) (λ _ t l. l)
                λ t l. inr l)
            λ u k. inl k)
        λ t h. inl h

  -- A departure that creates a new party leaves that party in the state, well formed, if it succeeds;
  -- if it fails, the state is as before (the account has not left) or holds the empty party (it has
  -- left and there is no new party).
  pub leave_party-new_party :
      (c : Commands W) (s : Sys W)
      → Post
          (λ _ t. HoldsValid t)
          (λ t. (t ≡ s.state) ⊎ (t ≡ some zero_party))
          (leave_party_locked c true s)
  unfolding leave_party_locked
  leave_party-new_party c s =
      Post-continue _ _ _ _ (validate_config c s) _ (validate_config-Fetch c s.state s refl)
        (λ env t h. leave_and_create-outcome c env (present t.state) s.state t h.1) λ t h. inl h
