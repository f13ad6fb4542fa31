-- ===== src/Party/Commands/Promoted.antt =====
-- party/commands.go: what promoting a member leaves in the party state.
use fngo.Prelude.{
  String, Option, none, some, ◌≡◌, refl, false, Bool-cases, inl, inr, leb, ◌==◌, string_eq,
}
use fngo.GoStrings.{trim_space}
use fngo.Transport.Types.{Response}
use fngo.Party.Types.{Party}
use fngo.Party.Reducer.{State}
use fngo.Party.Effect.{Sys}
use fngo.Party.Commands.{Env, Commands}
use fngo.Party.Commands.Service.{ask, validate_config, refresh_party_state, get_party}
use fngo.Party.Commands.Membership.{present}
use fngo.Party.Commands.Entering.{required}
use fngo.Party.Commands.Promotion.{accepted_promotion, assume_captain, promote_in, promote_member}
use fngo.Party.Commands.Rules.{
  Post, Post-continue, Fetch, Any, ask-Fetch, get_party-Fetch, validate_config-Fetch,
}

-- the state is a party with a captain
pub record HasCaptain (t : State) : Type 0 where
  pub party : Party
  pub held : t ≡ some party
  pub named : (party.captain_id == "") ≡ false

module _ {W : Type 0} where
  assume_captain-Post :
      (id : String) (p : Party) (st : State) (s : Sys W)
      → (id == "") ≡ false
      → s.state ≡ some p
      → Post (λ _ t. HasCaptain t) (λ t. t ≡ st) (assume_captain id p s)
  unfolding assume_captain
  assume_captain-Post id p st s n q = elim (Bool-cases (p.captain_id == "")) [
    | inl b ↦ rw b (record { party = record p { captain_id = id }; held = refl; named = n })
    | inr b ↦ rw b (record { party = p; held = q; named = b })
  ]

  pub required-Post :
      (message text : String) (st : State) (s : Sys W)
      → s.state ≡ st
      → Post (λ _ t. ((text == "") ≡ false) × (t ≡ st)) (λ t. t ≡ st) (required message text s)
  required-Post message text st s q = elim (Bool-cases (text == "")) [
    | inl b ↦ rw b q
    | inr b ↦ rw b (refl, q)
  ]

  accepted_promotion-Fetch :
      (c : Commands W) (env : Env W) (resp : Response) (st : State) (s : Sys W)
      → s.state ≡ st
      → Fetch Any st (accepted_promotion c env resp s)
  accepted_promotion-Fetch c env resp st s p = elim (Bool-cases (leb 300 resp.status_code)) [
    | inl b ↦ rw b p
    | inr b ↦ rw b (tt, p)
  ]

  refresh_party_state-Post :
      (c : Commands W) (env : Env W) (id : String) (st : State) (s : Sys W)
      → s.state ≡ st
      → Post (λ p t. t ≡ some p) (λ t. t ≡ st) (refresh_party_state c env id s)
  unfolding refresh_party_state
  refresh_party_state-Post c env id st s q =
      Post-continue _ _ _ _ (get_party c env id s) _ (get_party-Fetch c env id st s q)
        (λ p t h. refl) λ t h. h

  promote_in-outcome :
      (c : Commands W) (env : Env W) (party_id id : String) (o : Option Party) (st : State)
      (s : Sys W)
      → (id == "") ≡ false
      → s.state ≡ st
      → Post (λ _ t. HasCaptain t) (λ t. t ≡ st) (promote_in c env party_id id o s)
  unfolding promote_in
  promote_in-outcome c env party_id id none st s n q = q
  promote_in-outcome c env party_id id (some p) st s n q =
      Post-continue _ _ _ _ (ask c env "POST" _ none s) _ (ask-Fetch c env "POST" _ none st s q)
        (λ resp t h.
          Post-continue _ _ _ _ (accepted_promotion c env resp t) _
            (accepted_promotion-Fetch c env resp st t h.1)
            (λ _ u k.
              Post-continue _ _ _ _ (refresh_party_state c env _ u) _
                (refresh_party_state-Post c env _ st u k.1)
                (λ r v l. assume_captain-Post id r st v n l) λ v l. l)
            λ u k. k)
        λ t h. h

  -- A promotion that succeeds leaves a party with a captain in the state, also when the service's
  -- answer names none; one that fails, whatever the reason, leaves the state as it was.
  pub promote_member-captain :
      (c : Commands W) (party_id account_id : String) (s : Sys W)
      → Post (λ _ t. HasCaptain t) (λ t. t ≡ s.state) (promote_member c party_id account_id s)
  unfolding promote_member
  promote_member-captain c party_id account_id s =
      Post-continue _ _ _ _ (validate_config c s) _ (validate_config-Fetch c s.state s refl)
        (λ env t h.
          Post-continue _ _ _ _ (required _ (trim_space account_id) t) _
            (required-Post _ (trim_space account_id) s.state t h.1)
            (λ _ u k.
              promote_in-outcome c env (trim_space party_id) _ (present u.state) s.state u k.0 k.1)
            λ u k. k)
        λ t h. h
