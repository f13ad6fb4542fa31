-- ===== src/Party/Commands/Rules.antt =====
-- party/commands.go: rules for chains of fallible calls, and the requests, which leave the state
-- alone and whose parties are well formed.
use fngo.Prelude.{String, Option, none, some, ◌≡◌, true, Bool-cases, inl, inr, leb, ◌==◌, string_eq}
use fngo.Transport.Types.{Response, Reply, value, failure}
use fngo.Json.{Json}
use fngo.Party.Types.{Party}
use fngo.Party.Reducer.{State}
use fngo.Party.Reducer.Keys.{IsKeyed}
use fngo.Party.Reducer.Captain.{captain_ok}
use fngo.Party.Remote.{RemoteParty, is_user_has_party}
use fngo.Party.Remote.Mapping.{map_remote_party-valid}
use fngo.Party.Effect.{Error, Result, ok, err, Sys, M, continue}
use fngo.Party.Commands.{Env, Commands}
use fngo.Party.Commands.Service.{
  ask, received, accepted, mapped, or_raise, of_result, map_first, get_current_party, get_party,
  validate_config, configured, create_party_locked, created_party, recover_created, first_party,
  decode_current_body, decode_remote_party_envelope,
}

-- every member is under its own account id, and the captain, if there is one, is a member
unfoldable pub IsValid : Party → Type 0
IsValid p = IsKeyed p.members × (captain_ok (some p) ≡ true)

abbrev pub AllValid : Option Party → Type 0
AllValid none = Unit {0}
AllValid (some p) = IsValid p

abbrev pub Any : {A : Type 0} → A → Type 0
Any _ = Unit {0}

module _ {W : Type 0} where
  -- what holds of a call's result and the state it leaves: `P` of a value and the state beside it,
  -- and `R` of the state beside an error
  abbrev pub Post :
      {A : Type 0} → (A → State → Type 0) → (State → Type 0) → Result A × Sys W → Type 0
  Post P R (ok a, s) = P a s.state
  Post P R (err e, s) = R s.state

  pub Post-continue :
      {A B : Type 0} (P : A → State → Type 0) (P' : B → State → Type 0) (R R' : State → Type 0)
      (r : Result A × Sys W) (f : A → M W B)
      → Post P R r
      → ((a : A) (s : Sys W) → P a s.state → Post P' R' (f a s))
      → ((st : State) → R st → R' st)
      → Post P' R' (continue r f)
  Post-continue P P' R R' (ok a, s) f h k l = k a s h
  Post-continue P P' R R' (err e, s) f h k l = l s.state h

  pub Post-weaken :
      {A : Type 0} (P P' : A → State → Type 0) (R R' : State → Type 0) (r : Result A × Sys W)
      → Post P R r
      → ((a : A) (t : State) → P a t → P' a t)
      → ((t : State) → R t → R' t)
      → Post P' R' r
  Post-weaken P P' R R' (ok a, s) h k l = k a s.state h
  Post-weaken P P' R R' (err e, s) h k l = l s.state h

  -- a call that leaves the state `st` as it is, and whose value satisfies `G`
  abbrev pub Fetch : {A : Type 0} → (A → Type 0) → State → Result A × Sys W → Type 0
  Fetch G st r = Post (λ a t. G a × (t ≡ st)) (λ t. t ≡ st) r

  pub Fetch-continue :
      {A B : Type 0} (G : A → Type 0) (G' : B → Type 0) {st : State} (r : Result A × Sys W)
      (f : A → M W B)
      → Fetch G st r
      → ((a : A) (s : Sys W) → G a → s.state ≡ st → Fetch G' st (f a s))
      → Fetch G' st (continue r f)
  Fetch-continue G G' (ok a, s) f h k = k a s h.0 h.1
  Fetch-continue G G' (err e, s) f h k = h

  received-Fetch :
      (r : Reply Response × W) (st : State) (s : Sys W) → s.state ≡ st → Fetch Any st (received r s)
  received-Fetch (value resp, w) st s p = (tt, p)
  received-Fetch (failure m, w) st s p = p

  pub ask-Fetch :
      (c : Commands W) (env : Env W) (method path : String) (body : Option Json) (st : State)
      (s : Sys W)
      → s.state ≡ st
      → Fetch Any st (ask c env method path body s)
  unfolding ask
  ask-Fetch c env method path body st s p = received-Fetch (env.request _ s.world) st s p

  pub accepted-Fetch :
      (c : Commands W) (resp : Response) (st : State) (s : Sys W)
      → s.state ≡ st
      → Fetch Any st (accepted c resp s)
  unfolding accepted
  accepted-Fetch c resp st s p = elim (Bool-cases (leb 300 resp.status_code)) [
    | inl b ↦ rw b p
    | inr b ↦ rw b (tt, p)
  ]

  pub or_raise-Fetch :
      {A : Type 0} (e : Error) (o : Option A) (st : State) (s : Sys W)
      → s.state ≡ st
      → Fetch Any st (or_raise e o s)
  or_raise-Fetch e none st s p = p
  or_raise-Fetch e (some a) st s p = (tt, p)

  or_raise-IsValid :
      (e : Error) (o : Option Party) (st : State) (s : Sys W)
      → AllValid o
      → s.state ≡ st
      → Fetch IsValid st (or_raise e o s)
  or_raise-IsValid e none st s v p = p
  or_raise-IsValid e (some a) st s v p = (v, p)

  of_result-Fetch :
      {A : Type 0} (r : Result A) (st : State) (s : Sys W)
      → s.state ≡ st
      → Fetch Any st (of_result r s)
  of_result-Fetch (err e) st s p = p
  of_result-Fetch (ok a) st s p = (tt, p)

  mapped-Fetch :
      (c : Commands W) (env : Env W) (rp : RemoteParty) (st : State) (s : Sys W)
      → s.state ≡ st
      → Fetch IsValid st (mapped c env rp s)
  unfolding mapped IsValid
  mapped-Fetch c env rp st s p =
      (map_remote_party-valid c.codec env.parse_time (env.now s.world) rp, p)

  map_first-Fetch :
      (c : Commands W) (env : Env W) (o : Option RemoteParty) (st : State) (s : Sys W)
      → s.state ≡ st
      → Fetch AllValid st (map_first c env o s)
  map_first-Fetch c env none st s p = (tt, p)
  map_first-Fetch c env (some rp) st s p =
      Fetch-continue _ _ (mapped c env rp s) _ (mapped-Fetch c env rp st s p) λ a t v q. (v, q)

  pub get_current_party-Fetch :
      (c : Commands W) (env : Env W) (id : String) (st : State) (s : Sys W)
      → s.state ≡ st
      → Fetch AllValid st (get_current_party c env id s)
  unfolding get_current_party
  get_current_party-Fetch c env id st s p =
      Fetch-continue _ _ (ask c env "GET" _ none s) _ (ask-Fetch c env "GET" _ none st s p)
        λ resp t _ q.
          Fetch-continue _ _ (accepted c resp t) _ (accepted-Fetch c resp st t q) λ _ t _ q.
            Fetch-continue _ _ (or_raise _ _ t) _
              (or_raise-Fetch _ (decode_current_body c.codec resp.body) st t q)
              λ l t _ q. map_first-Fetch c env (first_party l) st t q

  pub get_party-Fetch :
      (c : Commands W) (env : Env W) (id : String) (st : State) (s : Sys W)
      → s.state ≡ st
      → Fetch IsValid st (get_party c env id s)
  unfolding get_party
  get_party-Fetch c env id st s p =
      Fetch-continue _ _ (ask c env "GET" _ none s) _ (ask-Fetch c env "GET" _ none st s p)
        λ resp t _ q.
          Fetch-continue _ _ (accepted c resp t) _ (accepted-Fetch c resp st t q) λ _ t _ q.
            Fetch-continue _ _ (or_raise _ _ t) _ (or_raise-Fetch _ _ st t q)
              λ rp t _ q. mapped-Fetch c env rp st t q

  configured-Fetch :
      (c : Commands W) (o : Option (Env W)) (st : State) (s : Sys W)
      → s.state ≡ st
      → Fetch Any st (configured c o s)
  configured-Fetch c none st s p = p
  configured-Fetch c (some env) st s p = elim (Bool-cases (c.cfg.account_id == "")) [
    | inl b ↦ rw b p
    | inr b ↦ rw b (tt, p)
  ]

  pub validate_config-Fetch :
      (c : Commands W) (st : State) (s : Sys W) → s.state ≡ st → Fetch Any st (validate_config c s)
  unfolding validate_config
  validate_config-Fetch c st s p = configured-Fetch c c.env st s p

  recover_created-Fetch :
      (c : Commands W) (env : Env W) (resp : Response) (st : State) (s : Sys W)
      → s.state ≡ st
      → Fetch IsValid st (recover_created c env resp s)
  unfolding recover_created
  recover_created-Fetch c env resp st s p = elim (Bool-cases (is_user_has_party c.codec resp)) [
    | inl b ↦ rw b (
        Fetch-continue _ _ (get_current_party c env c.cfg.account_id s) _
          (get_current_party-Fetch c env c.cfg.account_id st s p)
          λ o t v q. or_raise-IsValid _ o st t v q)
    | inr b ↦ rw b p
  ]

  created_party-Fetch :
      (c : Commands W) (env : Env W) (resp : Response) (st : State) (s : Sys W)
      → s.state ≡ st
      → Fetch IsValid st (created_party c env resp s)
  unfolding created_party
  created_party-Fetch c env resp st s p = elim (Bool-cases (leb 300 resp.status_code)) [
    | inl b ↦ rw b (recover_created-Fetch c env resp st s p)
    | inr b ↦ rw b (
        Fetch-continue _ _ (of_result (decode_remote_party_envelope c.codec resp.body) s) _
          (of_result-Fetch (decode_remote_party_envelope c.codec resp.body) st s p)
          λ rp t _ q. mapped-Fetch c env rp st t q)
  ]

  pub create_party_locked-Fetch :
      (c : Commands W) (st : State) (s : Sys W)
      → s.state ≡ st
      → Fetch IsValid st (create_party_locked c s)
  unfolding create_party_locked
  create_party_locked-Fetch c st s p =
      Fetch-continue _ _ (validate_config c s) _ (validate_config-Fetch c st s p) λ env t _ q.
        Fetch-continue _ _ (ask c env "POST" _ _ t) _ (ask-Fetch c env "POST" _ _ st t q)
          λ resp t _ q. created_party-Fetch c env resp st t q
