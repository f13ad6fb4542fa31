-- ===== src/Events/Bus/Entry.antt =====
-- `Subscribe` and the start of `WaitFor` keep a bus valid: the id is new.
use native.Mathlib.Nat.{le_refl}
use fngo.Prelude.{
  ℕ, ◌+◌, ◌%◌, ◌^◌, ◌<◌, ◌≡◌, refl, nat_eq, Bool, true, false, Option, List, [], ◌∷◌, arith,
  if◌then◌else◌,
}
use fngo.Prelude.Int.{ℤ}
use fngo.GoMap.{contains}
use fngo.Events.Bus.Channel.{Chan, update}
use fngo.Events.Bus.Invariant.{
  Waiters, SubsValid, WaitersValid, Apart, IsValid, SubsValid-raise, WaitersValid-raise,
  SubsValid-update, WaitersValid-update, contains-past, keys-past,
}
use fngo.Events.Bus.{Predicate, Bus, enter_sub, enter_waiter, subscribe, wait_start, keys}

-- a critical section that begins with `if b.closed { return … }`
guarded :
    {A : Type 0} (c : Bool) (b b' : Bus) (r r' : A)
    → IsValid b
    → (c ≡ false → IsValid b')
    → IsValid ((if◌then◌else◌ {A = Bus × A} c (b, r) (b', r')).0)
guarded true b b' r r' v f = v
guarded false b b' r r' v f = f refl

pub open_now : (b : Bus) {A : Type 0} → b.closed ≡ false → b.closed ≡ true → A
open_now b h k = absurd (cc)

next_fresh : (n : ℕ) → n + 1 < 2 ^ 64 → (n + 1) % 2 ^ 64 ≡ n + 1
next_fresh n h = omega arith

-- a channel made at a new id
SubsValid-make :
    (cs : ℕ → Chan) (n : ℕ) (c : Chan) (l : List ℕ)
    → SubsValid cs n l
    → SubsValid (update cs n c) (n + 1) l
SubsValid-make cs n c l v =
    SubsValid-raise (update cs n c) n _ l (omega arith) (SubsValid-update cs n n c l (le_refl n) v)

WaitersValid-make :
    (cs : ℕ → Chan) (n : ℕ) (c : Chan) (l : Waiters)
    → WaitersValid cs n l
    → WaitersValid (update cs n c) (n + 1) l
WaitersValid-make cs n c l v =
    WaitersValid-raise (update cs n c) n _ l (omega arith)
      (WaitersValid-update cs n n c l (le_refl n) v)

Apart-new : (l ws : List ℕ) (j : ℕ) → contains l j ≡ false → Apart l ws → Apart l (j ∷ ws)
unfolding contains
Apart-new [] ws j h a = tt
Apart-new (i ∷ l) ws j h a = (ground arith, Apart-new l ws j (ground arith) a.1)

enter_sub-IsValid :
    (n : ℤ) (b : Bus)
    → b.next_id + 1 < 2 ^ 64
    → b.closed ≡ false
    → IsValid b
    → IsValid (enter_sub n b)
unfolding enter_sub
enter_sub-IsValid n b h o v = rw (next_fresh b.next_id h) (record {
  subs_valid =
      (omega arith, ground arith, SubsValid-update b.chans _ _ _ b.subs (le_refl _) v.subs_valid);
  waiters_valid = WaitersValid-make b.chans _ _ b.waiters v.waiters_valid;
  apart = (keys-past b.chans _ _ b.waiters v.waiters_valid (le_refl _), v.apart);
  emptied = open_now b o;
})

enter_waiter-IsValid :
    (p : Option Predicate) (b : Bus)
    → b.next_id + 1 < 2 ^ 64
    → b.closed ≡ false
    → IsValid b
    → IsValid (enter_waiter p b)
unfolding enter_waiter
enter_waiter-IsValid p b h o v = rw (next_fresh b.next_id h) (record {
  subs_valid = SubsValid-make b.chans _ _ b.subs v.subs_valid;
  waiters_valid = (
    omega arith,
    ground arith,
    ground arith,
    ground arith,
    WaitersValid-update b.chans _ _ _ b.waiters (le_refl _) v.waiters_valid,
  );
  apart =
      Apart-new b.subs (keys b.waiters) b.next_id
        (contains-past b.chans _ _ b.subs v.subs_valid (le_refl _)) v.apart;
  emptied = open_now b o;
})

pub subscribe-IsValid :
    (n : ℤ) (b : Bus) → b.next_id + 1 < 2 ^ 64 → IsValid b → IsValid (subscribe n b).0
unfolding subscribe
subscribe-IsValid n b h v =
    guarded b.closed b (enter_sub n b) _ _ v (λ o. enter_sub-IsValid n b h o v)

pub wait_start-IsValid :
    (p : Option Predicate) (b : Bus)
    → b.next_id + 1 < 2 ^ 64
    → IsValid b
    → IsValid (wait_start p b).0
unfolding wait_start
wait_start-IsValid p b h v =
    guarded b.closed b (enter_waiter p b) _ _ v (λ o. enter_waiter-IsValid p b h o v)
