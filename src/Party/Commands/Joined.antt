-- ===== src/Party/Commands/Joined.antt =====
-- party/commands.go: what joining a party leaves in the party state.
use fngo.Prelude.{
  String, Option, none, some, ◌≡◌, refl, Bool, true, false, Bool-cases, inl, inr, ◌⊎◌,
  if◌then◌else◌, ◌==◌, string_eq, ◌∙◌, is_some, eq_iff, arith,
}
use fngo.GoMap
use fngo.GoStrings.{trim_space}
use fngo.Party.Types.{Party, zero_party}
use fngo.Party.Reducer.{State}
use fngo.Party.Effect.{Error, Result, ok, err, Sys}
use fngo.Party.Commands.{Env, Commands}
use fngo.Party.Commands.Service.{ask, accepted, validate_config, get_current_party, get_party}
use fngo.Party.Commands.Membership.{present, leave_party_locked}
use fngo.Party.Commands.Entering.{
  forgive, is_party_not_found, better, hydrate_joined_self_member, leave_first, enter_party,
  join_other, join_trimmed, join_party_locked, same_party,
}
use fngo.Party.Commands.Rules.{
  IsValid, AllValid, Post, Post-continue, Post-weaken, Fetch, ask-Fetch, accepted-Fetch,
  get_current_party-Fetch, get_party-Fetch, validate_config-Fetch,
}
use fngo.Party.Commands.Outcomes.{HoldsValid, leave_party-all_or_nothing}

-- the state is what it was, or the party was left
abbrev pub Left : State → State → Type 0
Left st t = (t ≡ st) ⊎ (t ≡ some zero_party)

Left-same : (st u t : State) → Left st u → t ≡ u → Left st t
Left-same st u t (inl p) q = inl (q ∙ p)
Left-same st u t (inr p) q = inr (q ∙ p)

Left-from : (st u t : State) → u ≡ st → Left u t → Left st t
Left-from st u t p (inl q) = inl (q ∙ p)
Left-from st u t p (inr q) = inr q

choose-IsValid : (b : Bool) (p q : Party) → IsValid p → IsValid q → IsValid (if b then p else q)
choose-IsValid true p q v w = v
choose-IsValid false p q v w = w

-- the state is the party with this id
pub record IsCurrent (id : String) (st : State) : Type 0 where
  pub party : Party
  pub held : st ≡ some party
  pub named : party.id ≡ id

same_party-IsCurrent : (id : String) (st : State) → same_party id st ≡ true → IsCurrent id st
same_party-IsCurrent id none h = absurd (cc)
same_party-IsCurrent id (some p) h = record {
  party = p;
  held = refl;
  named = ground (arith, eq_iff p.id id);
}

-- what a successful call leaves: the state as it was, if that was the party, or a well-formed party
abbrev pub Entered : String → State → State → Type 0
Entered id st t = ((t ≡ st) × IsCurrent id st) ⊎ HoldsValid t

module _ {W : Type 0} where
  forgive-Post :
      (p : Error → Bool) (st : State) (r : Result (Unit {0}) × Sys W)
      → Post (λ _ t. t ≡ some zero_party) (λ t. t ≡ st) r
      → Post (λ _ t. Left st t) (λ t. t ≡ st) (forgive p r)
  forgive-Post p st (ok a, s) h = inr h
  forgive-Post p st (err e, s) h = elim (Bool-cases (p e)) [ inl b ↦ rw b (inl h) | inr b ↦ rw b h ]

  leave_first-Post :
      (c : Commands W) (o : Option Party) (s : Sys W)
      → Post (λ _ t. Left s.state t) (λ t. t ≡ s.state) (leave_first c o s)
  leave_first-Post c none s = inl refl
  leave_first-Post c (some p) s =
      forgive-Post is_party_not_found s.state (leave_party_locked c false s)
        (leave_party-all_or_nothing c s)

  better-Fetch :
      (c : Commands W) (id : String) (p : Party) (st : State) (r : Result (Option Party) × Sys W)
      → IsValid p
      → Fetch AllValid st r
      → Fetch IsValid st (better c id p r)
  better-Fetch c id p st (err e, s) v h = (v, h)
  better-Fetch c id p st (ok none, s) v h = (v, h.1)
  better-Fetch c id p st (ok (some q), s) v h = (choose-IsValid _ q p h.0 v, h.1)

  hydrate-Fetch :
      (c : Commands W) (env : Env W) (id : String) (p : Party) (st : State) (s : Sys W)
      → IsValid p
      → s.state ≡ st
      → Fetch IsValid st (hydrate_joined_self_member c env id p s)
  unfolding hydrate_joined_self_member
  hydrate-Fetch c env id p st s v q =
      elim (Bool-cases (is_some (GoMap.get p.members c.cfg.account_id))) [
        | inl b ↦ rw b (v, q)
        | inr b ↦ rw b (
            better-Fetch c id p st (get_current_party c env c.cfg.account_id s) v
              (get_current_party-Fetch c env c.cfg.account_id st s q))
      ]

  enter_party-Post :
      (c : Commands W) (env : Env W) (id : String) (s : Sys W)
      → Post (λ _ t. HoldsValid t) (λ t. t ≡ s.state) (enter_party c env id s)
  unfolding enter_party
  enter_party-Post c env id s =
      Post-continue _ _ _ _ (ask c env "POST" _ _ s) _ (ask-Fetch c env "POST" _ _ s.state s refl)
        (λ resp t h.
          Post-continue _ _ _ _ (accepted c resp t) _ (accepted-Fetch c resp s.state t h.1)
            (λ _ u k.
              Post-continue _ _ _ _ (get_party c env id u) _
                (get_party-Fetch c env id s.state u k.1)
                (λ p v l.
                  Post-continue _ _ _ _ (hydrate_joined_self_member c env id p v) _
                    (hydrate-Fetch c env id p s.state v l.0 l.1)
                    (λ q w m. record { party = q; held = refl; valid = m.0 }) λ w m. m)
                λ v l. l)
            λ u k. k)
        λ t h. h

  join_other-Post :
      (c : Commands W) (env : Env W) (id : String) (o : Option Party) (s : Sys W)
      → Post (λ _ t. HoldsValid t) (Left s.state) (join_other c env id o s)
  unfolding join_other
  join_other-Post c env id o s =
      Post-continue _ _ _ _ (leave_first c o s) _ (leave_first-Post c o s)
        (λ _ t h.
          Post-weaken _ _ _ _ (enter_party c env id t) (enter_party-Post c env id t) (λ _ u k. k)
            λ u k. Left-same s.state t.state u h k)
        λ t h. inl h

  join_trimmed-Post :
      (c : Commands W) (env : Env W) (id : String) (st : State) (s : Sys W)
      → s.state ≡ st
      → Post (λ _ t. Entered id st t) (Left st) (join_trimmed c env id s)
  unfolding join_trimmed
  join_trimmed-Post c env id st s q = elim (Bool-cases (id == "")) [
    | inl b ↦ rw b (inl q)
    | inr b ↦ rw b (elim (Bool-cases (same_party id s.state)) [
      | inl e ↦ rw e (inl (q, same_party-IsCurrent id st cc))
      | inr e ↦ rw e (
          Post-weaken _ _ _ _ (join_other c env id (present s.state) s)
            (join_other-Post c env id (present s.state) s) (λ _ t h. inr h)
            λ t h. Left-from st s.state t q h)
    ])
  ]

  -- If joining a party succeeds, either it was the current party and the state is as it was, or the
  -- state holds a well-formed party; if it fails, the state is as it was or, where another party was
  -- left first, the empty party.
  pub join_party-outcome :
      (c : Commands W) (id : String) (s : Sys W)
      → Post (λ _ t. Entered (trim_space id) s.state t) (Left s.state) (join_party_locked c id s)
  unfolding join_party_locked
  join_party-outcome c id s =
      Post-continue _ _ _ _ (validate_config c s) _ (validate_config-Fetch c s.state s refl)
        (λ env t h. join_trimmed-Post c env (trim_space id) s.state t h.1) λ t h. inl h
