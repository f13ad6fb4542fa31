-- ===== src/Events/Bus/Safety.antt =====
-- Whatever its callers do and in whatever order, the bus panics nowhere and never waits for a
-- receiver while it holds its mutex.
use native.Mathlib.Nat.{le_refl}
use fngo.Prelude.{
  ℕ, ◌+◌, ◌^◌, ◌≤◌, ◌<◌, ◌≡◌, refl, ◌∙◌, nat_eq, true, false, List, [], ◌∷◌, arith, inl, inr,
  Bool-cases, length,
}
use fngo.GoMap.{contains}
use fngo.Events.{Event}
use fngo.Events.Bus.Channel.{Chan, Outcome, ok, update}
use fngo.Events.Bus.Invariant.{
  Waiters, SubsValid, WaitersValid, Apart, IsValid, WaitersValid-raise, WaitersValid-update,
  get-past, get-contains, Apart-contains,
}
use fngo.Events.Bus.Entry.{subscribe-IsValid, wait_start-IsValid}
use fngo.Events.Bus.Removal.{
  Returns, cancel-Returns, wait_cancel-Returns, receive_from-IsValid, Apart-keys,
}
use fngo.Events.Bus.Loops.{
  delivered, remaining, answer, released, released-wanted, released-unwanted, shut,
  emit_subs-eq-delivered, emit_waiters-eq-released, close_all-eq-shut,
}
use fngo.Events.Bus.{
  Bus, done, err, bus_closed, new_bus, enter_sub, enter_waiter, subscribe, cancel, wants, emit,
  wait_start, wait_receive, wait_cancel, keys, close, receive_from, Op, step, run, settle,
  subscribe_op, cancel_op, emit_op, wait_start_op, wait_receive_op, wait_cancel_op, receive_op,
  close_op,
}

-- channels that are as they were at the ids of the list
SubsValid-agree :
    (cs cs' : ℕ → Chan) (n : ℕ) (l : List ℕ)
    → ((j : ℕ) → contains l j ≡ true → (cs' j).closed ≡ (cs j).closed)
    → SubsValid cs n l
    → SubsValid cs' n l
unfolding contains
SubsValid-agree cs cs' n [] h v = tt
SubsValid-agree cs cs' n (i ∷ l) h v =
    (v.0, h i (ground arith) ∙ v.1, SubsValid-agree cs cs' i l (λ j k. h j (ground arith)) v.2)

WaitersValid-agree :
    (cs cs' : ℕ → Chan) (n : ℕ) (l : Waiters)
    → ((j : ℕ) → contains (keys l) j ≡ true → cs' j ≡ cs j)
    → WaitersValid cs n l
    → WaitersValid cs' n l
unfolding contains
WaitersValid-agree cs cs' n [] h v = tt
WaitersValid-agree cs cs' n ((i, p) ∷ l) h v =
    let same : cs' i ≡ cs i = h i (ground arith) in
    (
      v.0,
      rw same v.1,
      rw same v.2,
      rw same v.3,
      WaitersValid-agree cs cs' i l (λ j k. h j (ground arith)) v.4,
    )

WaitersValid-delivered :
    (evt : Event) (b : Bus)
    → IsValid b
    → WaitersValid (delivered b.subs evt b.chans) b.next_id b.waiters
WaitersValid-delivered evt b v =
    WaitersValid-agree b.chans _ b.next_id b.waiters
      (λ j h. ground (arith, Apart-keys b.subs (keys b.waiters) j v.apart h)) v.waiters_valid

-- those who still wait have their channels as they were
WaitersValid-remaining :
    (evt : Event) (cs : ℕ → Chan) (n : ℕ) (l : Waiters)
    → WaitersValid cs n l
    → WaitersValid (released l evt cs) n (remaining evt l)
WaitersValid-remaining evt cs n [] v = tt
WaitersValid-remaining evt cs n ((i, p) ∷ l) v = elim (Bool-cases (wants p evt)) [
  | inl wanted ↦
      rw (← released-wanted evt n cs i p l v wanted, wanted)
        (WaitersValid-raise _ i n _ (omega arith) (
          WaitersValid-remaining evt (update cs i (answer evt)) i l
            (WaitersValid-update cs i i (answer evt) l (le_refl i) v.4)))
  | inr unwanted ↦
      let same : released l evt cs i ≡ cs i = rw (get-past cs i i l v.4 (le_refl i)) in
      rw (← released-unwanted evt n cs i p l v unwanted, unwanted)
        (v.0, rw same v.1, rw same v.2, rw same v.3, WaitersValid-remaining evt cs i l v.4)
]

pub contains-remaining :
    (evt : Event) (l : Waiters) (j : ℕ)
    → contains (keys l) j ≡ false
    → contains (keys (remaining evt l)) j ≡ false
unfolding contains
contains-remaining evt [] j h = refl
contains-remaining evt ((i, p) ∷ l) j h = ground (arith, contains-remaining evt l j)

Apart-remaining :
    (evt : Event) (l : List ℕ) (w : Waiters) → Apart l (keys w) → Apart l (keys (remaining evt w))
Apart-remaining evt [] w a = tt
Apart-remaining evt (i ∷ l) w a = (contains-remaining evt w i a.0, Apart-remaining evt l w a.1)

-- the bus after `Emit`
abbrev pub emitted : Event → Bus → Bus
emitted evt b = record b {
  waiters = remaining evt b.waiters;
  chans = released b.waiters evt (delivered b.subs evt b.chans);
}

pub emit-eq-emitted :
    (evt : Event) (b : Bus)
    → IsValid b
    → b.closed ≡ false
    → emit evt b ≡ ok (emitted evt b, done tt)
unfolding emit
emit-eq-emitted evt b v o = simp (
  o,
  emit_subs-eq-delivered evt b.next_id b.chans b.subs v.subs_valid,
  emit_waiters-eq-released evt b.next_id _ b.waiters (WaitersValid-delivered evt b v),
)

emitted-IsValid : (evt : Event) (b : Bus) → IsValid b → b.closed ≡ false → IsValid (emitted evt b)
emitted-IsValid evt b v o = record {
  subs_valid =
      SubsValid-agree b.chans (emitted evt b).chans b.next_id b.subs
        (λ j h.
          ground
            (arith, get-contains b.waiters j (Apart-contains b.subs (keys b.waiters) j v.apart h)))
        v.subs_valid;
  waiters_valid = WaitersValid-remaining evt _ b.next_id b.waiters (WaitersValid-delivered evt b v);
  apart = Apart-remaining evt b.subs b.waiters v.apart;
  emptied = λ c. absurd (cc);
}

pub emit-Returns : (evt : Event) (b : Bus) → IsValid b → Returns (emit evt b) (λ r. IsValid r.0)
emit-Returns evt b v = elim (Bool-cases b.closed) [
  | inl c ↦ ((b, err bus_closed), unfold emit in simp c, v)
  | inr o ↦ ((emitted evt b, done tt), emit-eq-emitted evt b v o, emitted-IsValid evt b v o)
]

SubsValid-keys :
    (cs : ℕ → Chan) (n : ℕ) (l : Waiters) → WaitersValid cs n l → SubsValid cs n (keys l)
SubsValid-keys cs n [] v = tt
SubsValid-keys cs n ((i, p) ∷ l) v = (v.0, v.1, SubsValid-keys cs i l v.4)

-- the bus after `Close`
abbrev pub closed_bus : Bus → Bus
closed_bus b = record b {
  closed = true;
  subs = [];
  waiters = [];
  chans = shut (keys b.waiters) (shut b.subs b.chans);
}

pub close-eq-closed_bus : (b : Bus) → IsValid b → b.closed ≡ false → close b ≡ ok (closed_bus b)
unfolding close
close-eq-closed_bus b v o = simp (
  o,
  close_all-eq-shut b.next_id b.chans b.subs v.subs_valid,
  close_all-eq-shut b.next_id (shut b.subs b.chans) (keys b.waiters) (
      SubsValid-agree b.chans (shut b.subs b.chans) b.next_id (keys b.waiters)
        (λ j h. ground (arith, Apart-keys b.subs (keys b.waiters) j v.apart h))
        (SubsValid-keys b.chans b.next_id b.waiters v.waiters_valid)),
)

close-Returns : (b : Bus) → IsValid b → Returns (close b) IsValid
close-Returns b v = elim (Bool-cases b.closed) [
  | inl c ↦ (b, unfold close in simp c, v)
  | inr o ↦ (
    closed_bus b,
    close-eq-closed_bus b v o,
    record { subs_valid = tt; waiters_valid = tt; apart = tt; emptied = λ c. (refl, refl) },
  )
]

settle-Returns :
    {A : Type 0} (m : Outcome (Bus × A)) → Returns m (λ r. IsValid r.0) → Returns (settle m) IsValid
settle-Returns m ((b, a), e, v) = (b, rw e, v)

pub step-Returns :
    (o : Op) (b : Bus) → b.next_id + 1 < 2 ^ 64 → IsValid b → Returns (step o b) IsValid
unfolding step
step-Returns (subscribe_op n) b h v = ((subscribe n b).0, refl, subscribe-IsValid n b h v)
step-Returns (cancel_op id) b h v = cancel-Returns id b v
step-Returns (emit_op evt) b h v = settle-Returns (emit evt b) (emit-Returns evt b v)
step-Returns (wait_start_op p) b h v = ((wait_start p b).0, refl, wait_start-IsValid p b h v)
step-Returns (wait_receive_op id ctx) b h v =
    (receive_from id b, unfold wait_receive in refl, receive_from-IsValid id b v)
step-Returns (wait_cancel_op id ctx) b h v =
    settle-Returns (wait_cancel id ctx b) (wait_cancel-Returns id ctx b v)
step-Returns (receive_op id) b h v = (receive_from id b, refl, receive_from-IsValid id b v)
step-Returns close_op b h v = close-Returns b v

pub step-next_id : (o : Op) (b b' : Bus) → step o b ≡ ok b' → b'.next_id ≤ b.next_id + 1
unfolding step
step-next_id (subscribe_op n) b b' h = unfold subscribe enter_sub in ground arith
step-next_id (cancel_op id) b b' h = unfold cancel in ground arith
step-next_id (emit_op evt) b b' h = unfold emit in ground arith
step-next_id (wait_start_op p) b b' h = unfold wait_start enter_waiter in ground arith
step-next_id (wait_receive_op id ctx) b b' h = unfold wait_receive receive_from in ground arith
step-next_id (wait_cancel_op id ctx) b b' h = unfold wait_cancel in ground arith
step-next_id (receive_op id) b b' h = unfold receive_from in ground arith
step-next_id close_op b b' h = unfold close in ground arith

pub run-Returns :
    (ops : List Op) (b : Bus)
    → b.next_id + length ops < 2 ^ 64
    → IsValid b
    → Returns (run ops b) IsValid
unfolding run
run-Returns [] b h v = (b, refl, v)
run-Returns (o ∷ ops) b h v =
    let (b', e, v') = step-Returns o b (omega arith) v in
    let (b'', e', v'') = run-Returns ops b' (omega (arith, step-next_id o b b' e)) v' in
    (b'', rw e e', v'')

pub new_bus-IsValid : IsValid new_bus
unfolding new_bus
new_bus-IsValid = record {
  subs_valid = tt;
  waiters_valid = tt;
  apart = tt;
  emptied = λ c. (refl, refl);
}

-- From a new bus, any sequence of fewer than 2 ^ 64 calls and receives, by any callers, runs to its
-- end: no send on a closed channel, no second close, and no send that waits while the mutex is
-- held. The bus reached is valid.
pub run_safe : (ops : List Op) → length ops < 2 ^ 64 → Returns (run ops new_bus) IsValid
run_safe ops h = run-Returns ops new_bus (unfold new_bus in omega arith) new_bus-IsValid
