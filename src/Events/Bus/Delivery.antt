-- ===== src/Events/Bus/Delivery.antt =====
-- Who gets an event: a waiter the first that it wants, a subscription as many as its channel
-- has room for. After `Close` every call and every waiter gets the error.
use native.Mathlib.Nat.{le_refl}
use fngo.Prelude.{
  ℕ, ◌≡◌, refl, nat_eq, true, false, Option, none, some, [], ◌∷◌, arith, if◌then◌else◌,
}
use fngo.Prelude.Int.{ℤ}
use fngo.GoMap
use fngo.GoMap.{GoMap, contains}
use fngo.Events.{Event}
use fngo.Events.Bus.Channel.{Chan, ok}
use fngo.Events.Bus.Invariant.{
  Waiters, WaitersValid, IsValid, get-past, get-contains, Apart-contains,
}
use fngo.Events.Bus.Removal.{waiter_fresh, Apart-keys, contains-get}
use fngo.Events.Bus.Safety.{emitted, emit-eq-emitted, closed_bus, close-eq-closed_bus}
use fngo.Events.Bus.Loops.{offer, accepts, remaining, answer}
use fngo.Events.Bus.{
  Predicate, Bus, done, err, subscribe, wants, emit, wait_start, CtxErr, wait_receive, keys, close,
  bus_closed,
}

pub get-remaining :
    (evt : Event) (l : Waiters) (cs : ℕ → Chan) (n id : ℕ)
    → WaitersValid cs n l
    → GoMap.get (remaining evt l) id
      ≡ (if accepts (GoMap.get l id) evt then none else GoMap.get l id)
unfolding GoMap.get
get-remaining evt [] cs n id v = refl
get-remaining evt ((i, p) ∷ l) cs n id v =
    ground (arith, get-remaining evt l cs i id v.4, get-past cs i i l v.4 (le_refl i))

-- `Emit` on an open bus gives the event to each waiter that wants it, alone in its closed channel,
-- and forgets that waiter; a waiter that does not want it stays registered, its channel untouched.
pub emit-waiter :
    (evt : Event) (b : Bus) (id : ℕ) (p : Option Predicate)
    → IsValid b
    → b.closed ≡ false
    → GoMap.get b.waiters id ≡ some p
    → (b' : Bus) × (emit evt b ≡ ok (b', done tt))
      × (wants p evt ≡ true → (GoMap.get b'.waiters id ≡ none) × (b'.chans id ≡ answer evt))
      × (wants p evt ≡ false → (GoMap.get b'.waiters id ≡ some p) × (b'.chans id ≡ b.chans id))
emit-waiter evt b id p v o h = (
  emitted evt b,
  emit-eq-emitted evt b v o,
  λ w. (ground (arith, gone), ground arith),
  λ w. (ground (arith, gone), ground (arith, apart)),
)
  where
    gone :
        GoMap.get (remaining evt b.waiters) id
        ≡ (if accepts (GoMap.get b.waiters id) evt then none else GoMap.get b.waiters id)
    gone = get-remaining evt b.waiters b.chans b.next_id id v.waiters_valid

    apart : contains b.subs id ≡ false
    apart = Apart-keys b.subs (keys b.waiters) id v.apart (contains-get b.waiters id p h)

-- On an open bus `Emit` adds the event to the channel of each subscription that has room for it,
-- and changes no channel of a subscription that has none.
pub emit-sub :
    (evt : Event) (b : Bus) (id : ℕ)
    → IsValid b
    → b.closed ≡ false
    → contains b.subs id ≡ true
    → (b' : Bus) × (emit evt b ≡ ok (b', done tt)) × (b'.chans id ≡ offer (b.chans id) evt)
emit-sub evt b id v o h = (
  emitted evt b,
  emit-eq-emitted evt b v o,
  ground (arith, get-contains b.waiters id (Apart-contains b.subs (keys b.waiters) id v.apart h)),
)

-- Once `Close` has run on a valid bus, each later `Subscribe`, `Emit` and `WaitFor` returns the
-- error ErrBusClosed and changes nothing, a second `Close` changes nothing, and each waiter that was
-- still registered gets the error too.
pub close-ends_all :
    (b : Bus)
    → IsValid b
    → b.closed ≡ false
    → (b' : Bus) × (close b ≡ ok b')
      × (close b' ≡ ok b')
      × ((n : ℤ) → subscribe n b' ≡ (b', err bus_closed))
      × ((evt : Event) → emit evt b' ≡ ok (b', err bus_closed))
      × ((p : Option Predicate) → wait_start p b' ≡ (b', err bus_closed))
      × ((id : ℕ) (p : Option Predicate) (ctx : Option CtxErr)
          → GoMap.get b.waiters id ≡ some p
          → (wait_receive id ctx b').1 ≡ some (err bus_closed))
close-ends_all b v o = (
  closed_bus b,
  close-eq-closed_bus b v o,
  unfold close in refl,
  λ n. unfold subscribe in refl,
  λ evt. unfold emit in refl,
  λ p. unfold wait_start in refl,
  λ id p ctx h.
      unfold wait_receive in
      ground (
        arith,
        contains-get b.waiters id p h,
        waiter_fresh b.chans b.next_id id b.waiters p v.waiters_valid h,
        Apart-keys b.subs (keys b.waiters) id v.apart (contains-get b.waiters id p h),
      ),
)
