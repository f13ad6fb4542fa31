-- ===== src/Events/Bus/FirstWanted.antt =====
-- `WaitFor` returns the first event that its predicate accepts, whatever else goes on.
use mathlib.Core.Option
use fngo.Prelude.{
  ℕ, ◌+◌, ◌^◌, ◌<◌, ◌≡◌, ◌≢◌, refl, ◌==◌, nat_eq, true, false, Option, none, some, List, [], ◌∷◌,
  arith, inl, inr, Bool-cases, length, All, if◌then◌else◌,
}
use fngo.GoMap
use fngo.GoMap.{GoMap, contains}
use fngo.Events.{Event}
use fngo.Events.Bus.Channel.{Chan, ok}
use fngo.Events.Bus.Invariant.{Waiters, WaitersValid, IsValid, get-contains}
use fngo.Events.Bus.Removal.{Returns, waiter_fresh, Apart-keys, contains-get, contains-delete}
use fngo.Events.Bus.Safety.{emit-eq-emitted, step-Returns, step-next_id, contains-remaining}
use fngo.Events.Bus.Delivery.{get-remaining}
use fngo.Events.Bus.Loops.{remaining, answer}
use fngo.Events.Bus.{
  Predicate, Bus, done, enter_sub, enter_waiter, remove_id, subscribe, cancel, wants, emit,
  wait_start, CtxErr, wait_receive, wait_cancel, keys, receive_from, Op, step, run, subscribe_op,
  cancel_op, emit_op, wait_start_op, wait_receive_op, wait_cancel_op, receive_op, close_op,
}

-- what a waiter is to see of a sequence of events
abbrev pub first_wanted : Option Predicate → List Event → Option Event
first_wanted p [] = none
first_wanted p (evt ∷ evts) =
    let rest = first_wanted p evts in if wants p evt then some evt else rest

abbrev pub events_of : List Op → List Event
events_of [] = []
events_of (emit_op evt ∷ ops) = evt ∷ events_of ops
events_of (_ ∷ ops) = events_of ops

-- no end of the wait `id` by its context or by `Close`, and no receive from its channel
abbrev pub Quiet : ℕ → Op → Type 0
Quiet id (wait_receive_op i ctx) = i ≢ id
Quiet id (wait_cancel_op i ctx) = i ≢ id
Quiet id (receive_op i) = i ≢ id
Quiet id close_op = ⊥
Quiet id _ = Unit

-- the waiter `id` has no event yet, or has one
record IsWaiting (id : ℕ) (p : Option Predicate) (b : Bus) : Type 0 where
  opened : b.closed ≡ false
  registered : GoMap.get b.waiters id ≡ some p

record IsAnswered (id : ℕ) (evt : Event) (b : Bus) : Type 0 where
  held : b.chans id ≡ answer evt
  old : id < b.next_id
  no_sub : contains b.subs id ≡ false
  no_waiter : contains (keys b.waiters) id ≡ false

waiter_old :
    (cs : ℕ → Chan) (n id : ℕ) (l : Waiters) (p : Option Predicate)
    → WaitersValid cs n l
    → GoMap.get l id ≡ some p
    → id < n
unfolding GoMap.get
waiter_old cs n id [] p v h = absurd (cc)
waiter_old cs n id ((i, q) ∷ l) p v h = elim (Bool-cases (i == id)) [
  | inl e ↦ ground arith
  | inr e ↦ omega (arith, waiter_old cs i id l p v.4 (ground arith))
]

Waiting-step :
    (o : Op) (id : ℕ) (p : Option Predicate) (b b' : Bus)
    → IsValid b
    → Quiet id o
    → IsWaiting id p b
    → step o b ≡ ok b'
    → first_wanted p (events_of (o ∷ [])) ≡ none
    → IsWaiting id p b'
unfolding step
Waiting-step (subscribe_op n) id p b b' v q w h e = unfold subscribe enter_sub in ground arith
Waiting-step (cancel_op i) id p b b' v q w h e = unfold cancel in ground arith
Waiting-step (emit_op evt) id p b b' v q w h e = ground (
  arith,
  emit-eq-emitted evt b v w.opened,
  get-remaining evt b.waiters b.chans b.next_id id v.waiters_valid,
)
Waiting-step (wait_start_op r) id p b b' v q w h e =
    let old = waiter_old b.chans b.next_id id b.waiters p v.waiters_valid w.registered in
    unfold wait_start enter_waiter GoMap.get in ground arith
Waiting-step (wait_receive_op i ctx) id p b b' v q w h e =
    unfold wait_receive receive_from in ground arith
Waiting-step (wait_cancel_op i ctx) id p b b' v q w h e =
    unfold wait_cancel in ground (arith, GoMap.get-delete b.waiters i id)
Waiting-step (receive_op i) id p b b' v q w h e = unfold receive_from in ground arith
Waiting-step close_op id p b b' v q w h e = absurd q

not_contains-get : (l : Waiters) (id : ℕ) → GoMap.get l id ≡ none → contains (keys l) id ≡ false
unfolding contains GoMap.get
not_contains-get [] id h = refl
not_contains-get ((i, p) ∷ l) id h = ground (arith, not_contains-get l id)

-- the step that answers
Answering-step :
    (evt : Event) (id : ℕ) (p : Option Predicate) (b b' : Bus)
    → IsValid b
    → IsWaiting id p b
    → step (emit_op evt) b ≡ ok b'
    → wants p evt ≡ true
    → IsAnswered id evt b'
unfolding step
Answering-step evt id p b b' v w h e =
    let gone = get-remaining evt b.waiters b.chans b.next_id id v.waiters_valid in
    let old = waiter_old b.chans b.next_id id b.waiters p v.waiters_valid w.registered in
    let apart =
      Apart-keys b.subs (keys b.waiters) id v.apart (contains-get b.waiters id p w.registered) in
    ground (arith, emit-eq-emitted evt b v w.opened, not_contains-get (remaining evt b.waiters) id)

contains-remove_other :
    (l : List ℕ) (k id : ℕ) → contains l id ≡ false → contains (remove_id l k) id ≡ false
unfolding contains
contains-remove_other [] k id h = refl
contains-remove_other (i ∷ l) k id h = ground (arith, contains-remove_other l k id)

Answered-step :
    (o : Op) (id : ℕ) (evt : Event) (b b' : Bus)
    → IsValid b
    → b.next_id + 1 < 2 ^ 64
    → Quiet id o
    → IsAnswered id evt b
    → step o b ≡ ok b'
    → IsAnswered id evt b'
unfolding step
Answered-step (subscribe_op n) id evt b b' v r q w h =
    unfold subscribe enter_sub contains in ground arith
Answered-step (cancel_op i) id evt b b' v r q w h =
    unfold cancel in ground (arith, contains-remove_other b.subs i id)
Answered-step (emit_op x) id evt b b' v r q w h = elim (Bool-cases b.closed) [
  | inl c ↦ unfold emit in ground arith
  | inr o ↦
      ground (
        arith,
        emit-eq-emitted x b v o,
        get-contains b.waiters id,
        contains-remaining x b.waiters id,
      )
]
Answered-step (wait_start_op r) id evt b b' v k q w h =
    unfold wait_start enter_waiter contains in ground arith
Answered-step (wait_receive_op i ctx) id evt b b' v r q w h =
    unfold wait_receive receive_from in ground arith
Answered-step (wait_cancel_op i ctx) id evt b b' v r q w h =
    unfold wait_cancel in ground (arith, contains-delete b.waiters i id)
Answered-step (receive_op i) id evt b b' v r q w h = unfold receive_from in ground arith
Answered-step close_op id evt b b' v r q w h = absurd q

Answered-run :
    (ops : List Op) (id : ℕ) (evt : Event) (b : Bus)
    → b.next_id + length ops < 2 ^ 64
    → IsValid b
    → All (Quiet id) ops
    → IsAnswered id evt b
    → Returns (run ops b) (IsAnswered id evt)
unfolding run
Answered-run [] id evt b h v q a = (b, refl, a)
Answered-run (o ∷ ops) id evt b h v q a =
    let (b', e, v') = step-Returns o b (omega arith) v in
    let bound = step-next_id o b b' e in
    let (b'', e', a') =
      Answered-run ops id evt b' (omega (arith, bound)) v' q.1
        (Answered-step o id evt b b' v (omega arith) q.0 a e) in
    (b'', rw e e', a')

-- what the waiter's receive yields
abbrev pub Sees : Option Event → Bus → ℕ → Option CtxErr → Type 0
Sees first b id ctx = (wait_receive id ctx b).1 ≡ Option.map done first

Answered-Sees :
    (id : ℕ) (evt : Event) (b : Bus) (ctx : Option CtxErr)
    → IsAnswered id evt b
    → Sees (some evt) b id ctx
unfolding wait_receive
Answered-Sees id evt b ctx a = ground arith

Waiting-Sees :
    (id : ℕ) (p : Option Predicate) (b : Bus) (ctx : Option CtxErr)
    → IsValid b
    → IsWaiting id p b
    → Sees none b id ctx
unfolding wait_receive
Waiting-Sees id p b ctx v w =
    ground (arith, waiter_fresh b.chans b.next_id id b.waiters p v.waiters_valid w.registered)

Waiting-run :
    (ops : List Op) (id : ℕ) (p : Option Predicate) (b : Bus) (ctx : Option CtxErr)
    → b.next_id + length ops < 2 ^ 64
    → IsValid b
    → IsWaiting id p b
    → All (Quiet id) ops
    → Returns (run ops b) (λ b'. Sees (first_wanted p (events_of ops)) b' id ctx)
unfolding run
Waiting-run [] id p b ctx h v w q = (b, refl, Waiting-Sees id p b ctx v w)
Waiting-run (emit_op evt ∷ ops) id p b ctx h v w q =
    let (b', e, v') = step-Returns (emit_op evt) b (omega arith) v in
    let bound = step-next_id (emit_op evt) b b' e in
    let room : b'.next_id + length ops < 2 ^ 64 = omega (arith, bound) in
    elim (Bool-cases (wants p evt)) [
      | inl wanted ↦
          let (b'', e', a) =
            Answered-run ops id evt b' room v' q.1 (Answering-step evt id p b b' v w e wanted) in
          (b'', rw e e', rw wanted (Answered-Sees id evt b'' ctx a))
      | inr unwanted ↦
          let (b'', e', sees) =
            Waiting-run ops id p b' ctx room v'
              (Waiting-step (emit_op evt) id p b b' v q.0 w e (rw unwanted)) q.1 in
          (b'', rw e e', rw unwanted sees)
    ]
Waiting-run (o ∷ ops) id p b ctx h v w q =
    let (b', e, v') = step-Returns o b (omega arith) v in
    let (b'', e', sees) =
      Waiting-run ops id p b' ctx (omega (arith, step-next_id o b b' e)) v'
        (Waiting-step o id p b b' v q.0 w e refl) q.1 in
    (b'', rw e e', sees)

-- A waiter registered on a valid, open bus. Fewer than 2 ^ 64 calls follow, counted with the ids
-- given out so far, in any order: none of them closes the bus, ends this wait by its context or
-- receives from its channel. They all return, and then the receive of `WaitFor` yields the first
-- event emitted among them that the predicate accepts, and waits if there is none.
pub wait-first_wanted :
    (ops : List Op) (id : ℕ) (p : Option Predicate) (b : Bus) (ctx : Option CtxErr)
    → b.next_id + length ops < 2 ^ 64
    → IsValid b
    → b.closed ≡ false
    → GoMap.get b.waiters id ≡ some p
    → All (Quiet id) ops
    → Returns (run ops b) (λ b'. Sees (first_wanted p (events_of ops)) b' id ctx)
wait-first_wanted ops id p b ctx h v o r q =
    Waiting-run ops id p b ctx h v (record { opened = o; registered = r }) q
