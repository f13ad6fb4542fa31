-- ===== src/Events/Bus/Invariant.antt =====
-- What holds of a bus between two critical sections, and how a write keeps it.
use fngo.Prelude.{ℕ, ◌≤◌, ◌<◌, ◌≡◌, refl, nat_eq, true, false, Option, none, List, [], ◌∷◌, arith}
use fngo.GoMap
use fngo.GoMap.{GoMap, contains}
use fngo.Events.Bus.Channel.{Chan, update}
use fngo.Events.Bus.{Predicate, Bus, keys}

abbrev pub Waiters : Type 0
Waiters = GoMap ℕ (Option Predicate)

-- ids below `n`, strictly falling, each with an open channel
abbrev pub SubsValid : (ℕ → Chan) → ℕ → List ℕ → Type 0
SubsValid cs n [] = Unit
SubsValid cs n (i ∷ l) = (i < n) × ((cs i).closed ≡ false) × SubsValid cs i l

-- ids below `n`, strictly falling, each with an open and empty channel of one place
abbrev pub WaitersValid : (ℕ → Chan) → ℕ → Waiters → Type 0
WaitersValid cs n [] = Unit
WaitersValid cs n ((i, p) ∷ l) =
    (i < n)
    × ((cs i).closed ≡ false)
    × ((cs i).buffer ≡ [])
    × ((cs i).cap ≡ 1)
    × WaitersValid cs i l

-- no id is that of a subscription and of a waiter
abbrev pub Apart : List ℕ → List ℕ → Type 0
Apart [] ws = Unit
Apart (i ∷ l) ws = (contains ws i ≡ false) × Apart l ws

pub record IsValid (b : Bus) : Type 0 where
  pub subs_valid : SubsValid b.chans b.next_id b.subs
  pub waiters_valid : WaitersValid b.chans b.next_id b.waiters
  pub apart : Apart b.subs (keys b.waiters)
  pub emptied : b.closed ≡ true → (b.subs ≡ []) × (b.waiters ≡ [])

pub SubsValid-raise :
    (cs : ℕ → Chan) (m n : ℕ) (l : List ℕ) → m ≤ n → SubsValid cs m l → SubsValid cs n l
SubsValid-raise cs m n [] h v = tt
SubsValid-raise cs m n (i ∷ l) h v = (omega arith, v.1, v.2)

pub WaitersValid-raise :
    (cs : ℕ → Chan) (m n : ℕ) (l : Waiters) → m ≤ n → WaitersValid cs m l → WaitersValid cs n l
WaitersValid-raise cs m n [] h v = tt
WaitersValid-raise cs m n ((i, p) ∷ l) h v = (omega arith, v.1, v.2, v.3, v.4)

-- a write at an id past the list
pub SubsValid-update :
    (cs : ℕ → Chan) (n j : ℕ) (c : Chan) (l : List ℕ)
    → n ≤ j
    → SubsValid cs n l
    → SubsValid (update cs j c) n l
SubsValid-update cs n j c [] h v = tt
SubsValid-update cs n j c (i ∷ l) h v =
    (v.0, ground arith, SubsValid-update cs i j c l (omega arith) v.2)

pub WaitersValid-update :
    (cs : ℕ → Chan) (n j : ℕ) (c : Chan) (l : Waiters)
    → n ≤ j
    → WaitersValid cs n l
    → WaitersValid (update cs j c) n l
WaitersValid-update cs n j c [] h v = tt
WaitersValid-update cs n j c ((i, p) ∷ l) h v = (
  v.0,
  ground arith,
  ground arith,
  ground arith,
  WaitersValid-update cs i j c l (omega arith) v.4,
)

-- a write at an id that is not in the list
pub SubsValid-skip :
    (cs : ℕ → Chan) (n j : ℕ) (c : Chan) (l : List ℕ)
    → contains l j ≡ false
    → SubsValid cs n l
    → SubsValid (update cs j c) n l
unfolding contains
SubsValid-skip cs n j c [] h v = tt
SubsValid-skip cs n j c (i ∷ l) h v =
    (v.0, ground arith, SubsValid-skip cs i j c l (ground arith) v.2)

pub WaitersValid-skip :
    (cs : ℕ → Chan) (n j : ℕ) (c : Chan) (l : Waiters)
    → contains (keys l) j ≡ false
    → WaitersValid cs n l
    → WaitersValid (update cs j c) n l
unfolding contains
WaitersValid-skip cs n j c [] h v = tt
WaitersValid-skip cs n j c ((i, p) ∷ l) h v =
    (v.0, ground arith, ground arith, ground arith, WaitersValid-skip cs i j c l (ground arith) v.4)

pub contains-past :
    (cs : ℕ → Chan) (n j : ℕ) (l : List ℕ) → SubsValid cs n l → n ≤ j → contains l j ≡ false
unfolding contains
contains-past cs n j [] v h = refl
contains-past cs n j (i ∷ l) v h = ground (arith, contains-past cs i j l v.2)

pub get-past :
    (cs : ℕ → Chan) (n j : ℕ) (l : Waiters) → WaitersValid cs n l → n ≤ j → GoMap.get l j ≡ none
unfolding GoMap.get
get-past cs n j [] v h = refl
get-past cs n j ((i, p) ∷ l) v h = ground (arith, get-past cs i j l v.4)

pub keys-past :
    (cs : ℕ → Chan) (n j : ℕ) (l : Waiters)
    → WaitersValid cs n l
    → n ≤ j
    → contains (keys l) j ≡ false
unfolding contains
keys-past cs n j [] v h = refl
keys-past cs n j ((i, p) ∷ l) v h = ground (arith, keys-past cs i j l v.4)

pub get-contains : (l : Waiters) (j : ℕ) → contains (keys l) j ≡ false → GoMap.get l j ≡ none
unfolding contains GoMap.get
get-contains [] j h = refl
get-contains ((i, p) ∷ l) j h = ground (arith, get-contains l j)

pub Apart-contains :
    (l ws : List ℕ) (j : ℕ) → Apart l ws → contains l j ≡ true → contains ws j ≡ false
unfolding contains
Apart-contains [] ws j a h = cc
Apart-contains (i ∷ l) ws j a h = ground (arith, Apart-contains l ws j a.1)
