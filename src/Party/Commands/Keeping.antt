-- ===== src/Party/Commands/Keeping.antt =====
-- party/commands.go: calls after which the party state is well formed, and their rules.
use fngo.Prelude.{ℕ, String, Option, none, some, ◌≡◌, refl, Bool-cases, inl, inr, ◌==◌, string_eq}
use fngo.GoMap
use fngo.Json.{Json}
use fngo.Transport.Types.{Response}
use fngo.Party.Types.{Party, zero_party}
use fngo.Party.Reducer.{State}
use fngo.Party.Effect.{Error, Result, ok, err, Sys, M, continue}
use fngo.Party.Commands.{Env, Commands}
use fngo.Party.Commands.Service.{ask, accepted, validate_config, get_current_party, or_raise}
use fngo.Party.Commands.Membership.{or_zero}
use fngo.Party.Commands.Entering.{required, found_party}
use fngo.Party.Commands.Rules.{
  IsValid, AllValid, Post, Post-continue, Post-weaken, Fetch, Any, ask-Fetch, accepted-Fetch,
  or_raise-Fetch, get_current_party-Fetch, validate_config-Fetch,
}
use fngo.Party.Commands.Outcomes.{HoldsValid}
use fngo.Party.Commands.Promoted.{required-Post}
use fngo.Party.Commands.Joined.{Left, Entered}

pub zero_party-IsValid : IsValid zero_party
unfolding IsValid
zero_party-IsValid = (record { own_key = λ k m h. unfold GoMap.get in cc }, refl)

pub valid-same : (st t : State) → AllValid st → t ≡ st → AllValid t
valid-same st t v q = rw q v

pub valid-zero : (t : State) → t ≡ some zero_party → AllValid t
valid-zero t q = rw q zero_party-IsValid

pub valid-held : (t : State) → HoldsValid t → AllValid t
valid-held t h = rw h.held h.valid

pub valid-Left : (st t : State) → AllValid st → Left st t → AllValid t
valid-Left st t v (inl q) = valid-same st t v q
valid-Left st t v (inr q) = valid-zero t q

pub valid-Entered : (id : String) (st t : State) → AllValid st → Entered id st t → AllValid t
valid-Entered id st t v (inl q) = valid-same st t v q.0
valid-Entered id st t v (inr h) = valid-held t h

pub or_zero-IsValid : (o : Option Party) → AllValid o → IsValid (or_zero o)
or_zero-IsValid none v = zero_party-IsValid
or_zero-IsValid (some p) v = v

module _ {W : Type 0} where
  -- a call after which the state is well formed
  abbrev pub Keeps : {A : Type 0} → Result A × Sys W → Type 0
  Keeps r = Post (λ _ t. AllValid t) AllValid r

  pub Keeps-state : {A : Type 0} (r : Result A × Sys W) → Keeps r → AllValid r.1.state
  Keeps-state (ok a, s) h = h
  Keeps-state (err e, s) h = h

  pub Fetch-Keeps :
      {A : Type 0} (G : A → Type 0) (st : State) (r : Result A × Sys W)
      → AllValid st
      → Fetch G st r
      → Keeps r
  Fetch-Keeps G st r v h =
      Post-weaken _ _ _ _ r h (λ _ t k. valid-same st t v k.1) λ t k. valid-same st t v k

  pub Keeps-continue :
      {A B : Type 0} (r : Result A × Sys W) (f : A → M W B)
      → Keeps r
      → ((a : A) (s : Sys W) → AllValid s.state → Keeps (f a s))
      → Keeps (continue r f)
  Keeps-continue r f h k = Post-continue _ _ _ _ r f h k λ _ l. l

  pub validate-Keeps : (c : Commands W) (s : Sys W) → AllValid s.state → Keeps (validate_config c s)
  validate-Keeps c s v = Fetch-Keeps Any s.state _ v (validate_config-Fetch c s.state s refl)

  pub required-Keeps :
      (message text : String) (s : Sys W) → AllValid s.state → Keeps (required message text s)
  required-Keeps message text s v =
      Post-weaken _ _ _ _ (required message text s) (required-Post message text s.state s refl)
        (λ _ t k. valid-same s.state t v k.1) λ t k. valid-same s.state t v k

  pub found_party-Keeps :
      (u : ℕ → ℕ) (r : Result (Option Party) × Sys W) → Keeps r → Keeps (found_party u r)
  found_party-Keeps u (err e, s) h = h
  found_party-Keeps u (ok none, s) h = h
  found_party-Keeps u (ok (some p), s) h = elim (Bool-cases (p.id == "")) [
    | inl b ↦ rw b h
    | inr b ↦ rw b h
  ]

  pub current-Keeps :
      (c : Commands W) (env : Env W) (id : String) (s : Sys W)
      → AllValid s.state
      → Keeps (get_current_party c env id s)
  current-Keeps c env id s v =
      Fetch-Keeps AllValid s.state _ v (get_current_party-Fetch c env id s.state s refl)

  pub ask-Keeps :
      (c : Commands W) (env : Env W) (method path : String) (body : Option Json) (s : Sys W)
      → AllValid s.state
      → Keeps (ask c env method path body s)
  ask-Keeps c env method path body s v =
      Fetch-Keeps Any s.state _ v (ask-Fetch c env method path body s.state s refl)

  pub accepted-Keeps :
      (c : Commands W) (resp : Response) (s : Sys W) → AllValid s.state → Keeps (accepted c resp s)
  accepted-Keeps c resp s v = Fetch-Keeps Any s.state _ v (accepted-Fetch c resp s.state s refl)

  pub or_raise-Keeps :
      {A : Type 0} (e : Error) (o : Option A) (s : Sys W)
      → AllValid s.state
      → Keeps (or_raise e o s)
  or_raise-Keeps e o s v = Fetch-Keeps Any s.state _ v (or_raise-Fetch e o s.state s refl)
