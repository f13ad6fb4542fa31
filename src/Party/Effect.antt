-- ===== src/Party/Effect.antt =====
-- Methods of `Commands` that change the state, talk to the service and may fail. What was written
-- before an error stays written, so the system comes back beside the error too.
use fngo.Prelude.{ℕ, String, List, Option, some}
use fngo.Party.Types.{Party}
use fngo.Party.Reducer.{State}

pub record ApiError : Type 0 where
  pub status_code : ℕ
  pub code : String
  pub message : String
  pub message_vars : List String

-- the package's errors, those made on the spot by their text, and those of other packages
pub data Error : Type 0 where
  not_configured party_not_found member_not_found not_captain patch_conflict invite_not_found :
      Error
  invalid : String → Error
  api : ApiError → Error
  http_error : String → Error
  decode_error : Error
  context_error : String → Error

pub data Result {ℓ} (A : Type ℓ) : Type ℓ where
  ok : A → Result A
  err : Error → Result A

-- the party state, and the world behind the HTTP client
pub record Sys (W : Type 0) : Type 0 where
  pub state : State
  pub world : W

abbrev pub M : Type 0 → Type 0 → Type 0
M W A = Sys W → Result A × Sys W

module _ {W : Type 0} where
  abbrev pub pure : {A : Type 0} → A → M W A
  pure a s = (ok a, s)

  abbrev pub raise : {A : Type 0} → Error → M W A
  raise e s = (err e, s)

  abbrev pub continue : {A B : Type 0} → Result A × Sys W → (A → M W B) → Result B × Sys W
  continue (ok a, s) f = f a s
  continue (err e, s) f = (err e, s)

  infixl 5 ◌>>=◌ ◌>>◌
  abbrev pub ◌>>=◌ : {A B : Type 0} → M W A → (A → M W B) → M W B
  ◌>>=◌ m f s = continue (m s) f

  abbrev pub ◌>>◌ : {B : Type 0} → M W (Unit {0}) → M W B → M W B
  m >> k = m >>= λ _. k

  -- c.state.Snapshot()
  abbrev pub snapshot : M W (Option Party)
  snapshot s = (ok s.state, s)

  -- c.state.Replace(p)
  abbrev pub replace : Party → M W (Unit {0})
  replace p s = (ok tt, record s { state = some p })
