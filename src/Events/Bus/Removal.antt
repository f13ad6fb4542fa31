-- ===== src/Events/Bus/Removal.antt =====
-- `Cancel`, the end of `WaitFor` and receives keep a bus valid, and close no channel twice.
use fngo.Prelude.{
  ℕ, ◌≡◌, refl, ◌==◌, nat_eq, true, false, Option, some, List, [], ◌∷◌, arith, inl, inr, Bool-cases,
  Option-cases, if◌then◌else◌,
}
use fngo.GoMap
use fngo.GoMap.{GoMap, contains}
use fngo.Events.Bus.Channel.{Chan, Outcome, ok, close_chan, update}
use fngo.Events.Bus.Invariant.{
  Waiters, SubsValid, WaitersValid, Apart, IsValid, SubsValid-raise, WaitersValid-raise,
  SubsValid-skip, WaitersValid-skip, Apart-contains,
}
use fngo.Events.Bus.{
  Predicate, Bus, err, remove_id, cancel, CtxErr, ctx_error, wait_cancel, keys, pop, receive_from,
}

-- `m` returns, with a value that satisfies `P`
abbrev pub Returns {ℓ κ} : {A : Type ℓ} → Outcome A → (A → Type κ) → Type (ℓ ⊔ κ)
Returns {A} m P = (a : A) × (m ≡ ok a) × P a

-- removal from the two maps
SubsValid-remove :
    (cs : ℕ → Chan) (n k : ℕ) (l : List ℕ) → SubsValid cs n l → SubsValid cs n (remove_id l k)
SubsValid-remove cs n k [] v = tt
SubsValid-remove cs n k (i ∷ l) v = elim (Bool-cases (i == k)) [
  | inl e ↦ rw e (SubsValid-raise cs i n _ (omega arith) (SubsValid-remove cs i k l v.2))
  | inr e ↦ rw e (v.0, v.1, SubsValid-remove cs i k l v.2)
]

contains-remove_id : (l : List ℕ) (k : ℕ) → contains (remove_id l k) k ≡ false
unfolding contains
contains-remove_id [] k = refl
contains-remove_id (i ∷ l) k = ground (arith, contains-remove_id l k)

Apart-remove_id : (l ws : List ℕ) (k : ℕ) → Apart l ws → Apart (remove_id l k) ws
Apart-remove_id [] ws k a = tt
Apart-remove_id (i ∷ l) ws k a = elim (Bool-cases (i == k)) [
  | inl e ↦ rw e (Apart-remove_id l ws k a.1)
  | inr e ↦ rw e (a.0, Apart-remove_id l ws k a.1)
]

WaitersValid-delete :
    (cs : ℕ → Chan) (n k : ℕ) (l : Waiters)
    → WaitersValid cs n l
    → WaitersValid cs n (GoMap.delete l k)
unfolding GoMap.delete
WaitersValid-delete cs n k [] v = tt
WaitersValid-delete cs n k ((i, p) ∷ l) v = elim (Bool-cases (i == k)) [
  | inl e ↦ rw e (WaitersValid-raise cs i n _ (omega arith) (WaitersValid-delete cs i k l v.4))
  | inr e ↦ rw e (v.0, v.1, v.2, v.3, WaitersValid-delete cs i k l v.4)
]

pub contains-delete :
    (l : Waiters) (k j : ℕ)
    → contains (keys (GoMap.delete l k)) j ≡ (if k == j then false else contains (keys l) j)
unfolding contains GoMap.delete
contains-delete [] k j = ground arith
contains-delete ((i, p) ∷ l) k j = ground (arith, contains-delete l k j)

Apart-delete :
    (l : List ℕ) (w : Waiters) (k : ℕ) → Apart l (keys w) → Apart l (keys (GoMap.delete w k))
Apart-delete [] w k a = tt
Apart-delete (i ∷ l) w k a = (ground (arith, contains-delete w k i), Apart-delete l w k a.1)

sub_open :
    (cs : ℕ → Chan) (n k : ℕ) (l : List ℕ)
    → SubsValid cs n l
    → contains l k ≡ true
    → (cs k).closed ≡ false
unfolding contains
sub_open cs n k [] v h = cc
sub_open cs n k (i ∷ l) v h = ground (arith, sub_open cs i k l v.2)

-- a registered waiter's channel is open, empty and has one place
pub waiter_fresh :
    (cs : ℕ → Chan) (n k : ℕ) (l : Waiters) (p : Option Predicate)
    → WaitersValid cs n l
    → GoMap.get l k ≡ some p
    → ((cs k).closed ≡ false) × ((cs k).buffer ≡ []) × ((cs k).cap ≡ 1)
unfolding GoMap.get
waiter_fresh cs n k [] p v h = cc
waiter_fresh cs n k ((i, q) ∷ l) p v h = ground (arith, waiter_fresh cs i k l p v.4)

pub contains-get :
    (l : Waiters) (k : ℕ) (p : Option Predicate)
    → GoMap.get l k ≡ some p
    → contains (keys l) k ≡ true
unfolding contains GoMap.get
contains-get [] k p h = cc
contains-get ((i, q) ∷ l) k p h = ground (arith, contains-get l k p)

pub Apart-keys : (l ws : List ℕ) (j : ℕ) → Apart l ws → contains ws j ≡ true → contains l j ≡ false
unfolding contains
Apart-keys [] ws j a h = refl
Apart-keys (i ∷ l) ws j a h = ground (arith, Apart-keys l ws j a.1)

close_open : (c : Chan) → c.closed ≡ false → close_chan c ≡ ok (record c { closed = true })
close_open c h = ground arith

cancelled : ℕ → Bus → Bus
cancelled id b = record b {
  subs = remove_id b.subs id;
  chans = update b.chans id (record (b.chans id) { closed = true });
}

cancelled-IsValid :
    (id : ℕ) (b : Bus) → contains b.subs id ≡ true → IsValid b → IsValid (cancelled id b)
unfolding cancelled
cancelled-IsValid id b mine v = record {
  subs_valid =
      SubsValid-skip b.chans _ id _ (remove_id b.subs id) (contains-remove_id b.subs id)
        (SubsValid-remove b.chans _ id b.subs v.subs_valid);
  waiters_valid =
      WaitersValid-skip b.chans _ id _ b.waiters
        (Apart-contains b.subs (keys b.waiters) id v.apart mine) v.waiters_valid;
  apart = Apart-remove_id b.subs (keys b.waiters) id v.apart;
  emptied = λ c. (rw (v.emptied c).0, (v.emptied c).1);
}

-- `Cancel` returns, whether the subscription is still there or not.
pub cancel-Returns : (id : ℕ) (b : Bus) → IsValid b → Returns (cancel id b) IsValid
unfolding cancel cancelled
cancel-Returns id b v = elim (Bool-cases (contains b.subs id)) [
  | inl mine ↦ (
    cancelled id b,
    rw (mine, close_open (b.chans id) (sub_open b.chans _ id b.subs v.subs_valid mine)),
    cancelled-IsValid id b mine v,
  )
  | inr gone ↦ (b, rw gone, v)
]

withdrawn : ℕ → Bus → Bus
withdrawn id b = record b {
  waiters = GoMap.delete b.waiters id;
  chans = update b.chans id (record (b.chans id) { closed = true });
}

withdrawn-IsValid :
    (id : ℕ) (b : Bus) (p : Option Predicate)
    → GoMap.get b.waiters id ≡ some p
    → IsValid b
    → IsValid (withdrawn id b)
unfolding withdrawn
withdrawn-IsValid id b p mine v = record {
  subs_valid =
      SubsValid-skip b.chans _ id _ b.subs
        (Apart-keys b.subs (keys b.waiters) id v.apart (contains-get b.waiters id p mine))
        v.subs_valid;
  waiters_valid =
      WaitersValid-skip b.chans _ id _ (GoMap.delete b.waiters id)
        (ground (arith, contains-delete b.waiters id id))
        (WaitersValid-delete b.chans _ id b.waiters v.waiters_valid);
  apart = Apart-delete b.subs b.waiters id v.apart;
  emptied = λ c. ((v.emptied c).0, unfold GoMap.delete in rw (v.emptied c).1);
}

-- A wait that ends by its context returns, whether an event came first or not.
pub wait_cancel-Returns :
    (id : ℕ) (ctx : CtxErr) (b : Bus)
    → IsValid b
    → Returns (wait_cancel id ctx b) (λ r. IsValid r.0)
unfolding wait_cancel withdrawn
wait_cancel-Returns id ctx b v = elim (Option-cases (GoMap.get b.waiters id)) [
  | inl gone ↦ ((b, err (ctx_error ctx)), rw (gone, wait_cancel), v)
  | inr (p, mine) ↦ (
    (withdrawn id b, err (ctx_error ctx)),
    rw (
      mine,
      wait_cancel,
      close_open (b.chans id) (waiter_fresh b.chans _ id b.waiters p v.waiters_valid mine).0,
    ),
    withdrawn-IsValid id b p mine v,
  )
]

SubsValid-pop :
    (cs : ℕ → Chan) (n k : ℕ) (l : List ℕ)
    → SubsValid cs n l
    → SubsValid (update cs k (pop (cs k))) n l
SubsValid-pop cs n k [] v = tt
SubsValid-pop cs n k (i ∷ l) v = (v.0, ground arith, SubsValid-pop cs i k l v.2)

WaitersValid-pop :
    (cs : ℕ → Chan) (n k : ℕ) (l : Waiters)
    → WaitersValid cs n l
    → WaitersValid (update cs k (pop (cs k))) n l
WaitersValid-pop cs n k [] v = tt
WaitersValid-pop cs n k ((i, p) ∷ l) v =
    (v.0, ground arith, ground arith, ground arith, WaitersValid-pop cs i k l v.4)

pub receive_from-IsValid : (id : ℕ) (b : Bus) → IsValid b → IsValid (receive_from id b)
unfolding receive_from
receive_from-IsValid id b v = record {
  subs_valid = SubsValid-pop b.chans _ id b.subs v.subs_valid;
  waiters_valid = WaitersValid-pop b.chans _ id b.waiters v.waiters_valid;
  apart = v.apart;
  emptied = v.emptied;
}
