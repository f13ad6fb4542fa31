-- ===== src/Events/Bus.antt =====
-- events/bus.go. The bus and the channels that it made. A channel is named by the id under which
-- `Subscribe` or `WaitFor` enters it, since each makes one channel for one id. Every function is
-- one critical section of `mu`, or one receive; concurrent callers are sequences of these.
pub mod Channel
pub mod Invariant
pub mod Loops
pub mod Entry
pub mod Removal
pub mod Safety
pub mod Delivery
pub mod FirstWanted
use fngo.Prelude.{
  ℕ, zero, suc, ◌+◌, ◌%◌, ◌^◌, Bool, true, false, Option, none, some, List, [], ◌∷◌, ◌==◌, nat_eq,
  if◌then◌else◌,
}
use fngo.Prelude.Int.{ℤ, pos, negsuc}
use fngo.GoMap
use fngo.GoMap.{GoMap, contains}
use fngo.Events.{Event}
use Channel.{Chan, Outcome, ok, panic, blocked, ◌>>=◌, make, send, try_send, close_chan, update}

abbrev pub Predicate : Type 0
Predicate = Event → Bool

pub record Bus : Type 0 where
  pub closed : Bool
  pub next_id : ℕ  -- uint64
  pub subs : List ℕ  -- the keys of `subs`
  pub waiters : GoMap ℕ (Option Predicate)
  pub chans : ℕ → Chan

pub data Error : Type 0 where
  bus_closed wait_timeout wait_canceled : Error

pub data Result {ℓ} (A : Type ℓ) : Type ℓ where
  done : A → Result A
  err : Error → Result A

unfoldable pub new_bus : Bus
new_bus = record { closed = false; next_id = 0; subs = []; waiters = []; chans = λ _. make 0 }

abbrev succ_u64 : ℕ → ℕ
succ_u64 n = (n + 1) % 2 ^ 64

abbrev pub remove_id : List ℕ → ℕ → List ℕ
remove_id [] k = []
remove_id (i ∷ l) k = let rest = remove_id l k in if i == k then rest else i ∷ rest

-- if buffer <= 0 { buffer = 1 }
abbrev pub capacity : ℤ → ℕ
capacity (pos zero) = 1
capacity (pos (suc n)) = suc n
capacity (negsuc _) = 1

-- id := b.nextID; b.nextID++; b.subs[id] = make(chan Event, buffer)
unfoldable pub enter_sub : ℤ → Bus → Bus
enter_sub buffer b = record b {
  next_id = succ_u64 b.next_id;
  subs = b.next_id ∷ b.subs;
  chans = update b.chans b.next_id (make (capacity buffer));
}

unfoldable pub subscribe : ℤ → Bus → Bus × Result ℕ
subscribe buffer b = if b.closed then (b, err bus_closed) else (enter_sub buffer b, done b.next_id)

-- the closure in `Subscription.cancel`
pub cancel : ℕ → Bus → Outcome Bus
cancel id b =
    if contains b.subs id
    then (do
      c ← close_chan (b.chans id)
      ok (record b { subs = remove_id b.subs id; chans = update b.chans id c }))
    else ok b

-- the first loop of `Emit`: a send that does not wait
pub emit_subs : List ℕ → Event → (ℕ → Chan) → Outcome (ℕ → Chan)
emit_subs [] evt chans = ok chans
emit_subs (i ∷ l) evt chans = do c ← try_send (chans i) evt; emit_subs l evt (update chans i c)

-- w.pred == nil || w.pred(evt)
abbrev pub wants : Option Predicate → Event → Bool
wants none evt = true
wants (some p) evt = p evt

-- w.ch <- evt; close(w.ch)
abbrev pub hand_over : Chan → Event → Outcome Chan
hand_over c evt = do c' ← send c evt; close_chan c'

abbrev pub keep_waiter :
    ℕ × Option Predicate
    → GoMap ℕ (Option Predicate) × (ℕ → Chan)
    → Outcome (GoMap ℕ (Option Predicate) × (ℕ → Chan))
keep_waiter w (l, chans) = ok (w ∷ l, chans)

-- the second loop: a waiter that wants the event is removed, gets it, and its channel is closed
pub emit_waiters :
    GoMap ℕ (Option Predicate)
    → Event
    → (ℕ → Chan)
    → Outcome (GoMap ℕ (Option Predicate) × (ℕ → Chan))
emit_waiters [] evt chans = ok ([], chans)
emit_waiters ((i, p) ∷ l) evt chans = elim (wants p evt) [
  | true ↦ (do c ← hand_over (chans i) evt; emit_waiters l evt (update chans i c))
  | false ↦ emit_waiters l evt chans >>= keep_waiter (i, p)
]

pub emit : Event → Bus → Outcome (Bus × Result (Unit {0}))
emit evt b = if b.closed then ok (b, err bus_closed) else (do
  chans ← emit_subs b.subs evt b.chans
  r ← emit_waiters b.waiters evt chans
  ok (record b { waiters = r.0; chans = r.1 }, done tt))

unfoldable pub enter_waiter : Option Predicate → Bus → Bus
enter_waiter pred b = record b {
  next_id = succ_u64 b.next_id;
  waiters = (b.next_id, pred) ∷ b.waiters;
  chans = update b.chans b.next_id (make 1);
}

-- `WaitFor` up to its `select`: the waiter is registered
unfoldable pub wait_start : Option Predicate → Bus → Bus × Result ℕ
wait_start pred b = if b.closed then (b, err bus_closed) else (enter_waiter pred b, done b.next_id)

-- `ctx.Err()`
pub data CtxErr : Type 0 where
  deadline_exceeded canceled : CtxErr

abbrev pub ctx_error : CtxErr → Error
ctx_error deadline_exceeded = wait_timeout
ctx_error canceled = wait_canceled

-- the receive in `select`: `none` while the channel is empty and open. A closed and empty channel
-- is the end of the wait, for the reasons that follow the receive in the code.
abbrev pub closed_reason : Bool → Option CtxErr → Error
closed_reason true ctx = bus_closed
closed_reason false none = wait_canceled
closed_reason false (some e) = ctx_error e

-- what a receive leaves: the first event is gone
abbrev pub pop : Chan → Chan
pop c = elim c.buffer [ [] ↦ c | evt ∷ rest ↦ record c { buffer = rest } ]

-- `<-ch` on the channel of `id`
pub receive_from : ℕ → Bus → Bus
receive_from id b = record b { chans = update b.chans id (pop (b.chans id)) }

abbrev pub received : Chan → Bool → Option CtxErr → Option (Result Event)
received c bus_is_closed ctx = elim c.buffer [
  | [] ↦ if c.closed then some (err (closed_reason bus_is_closed ctx)) else none
  | evt ∷ rest ↦ some (done evt)
]

-- `case evt, ok := <-w.ch` of the waiter `id`
pub wait_receive : ℕ → Option CtxErr → Bus → Bus × Option (Result Event)
wait_receive id ctx b = (receive_from id b, received (b.chans id) b.closed ctx)

-- `case <-ctx.Done()` of the waiter `id`
pub wait_cancel : ℕ → CtxErr → Bus → Outcome (Bus × Result Event)
wait_cancel id ctx b = elim (GoMap.get b.waiters id) [
  | none ↦ ok (b, err (ctx_error ctx))
  | some _ ↦ do
    c ← close_chan (b.chans id)
    ok (
      record b { waiters = GoMap.delete b.waiters id; chans = update b.chans id c },
      err (ctx_error ctx),
    )
]

pub close_all : List ℕ → (ℕ → Chan) → Outcome (ℕ → Chan)
close_all [] chans = ok chans
close_all (i ∷ l) chans = do c ← close_chan (chans i); close_all l (update chans i c)

abbrev pub keys : GoMap ℕ (Option Predicate) → List ℕ
keys [] = []
keys ((i, _) ∷ l) = i ∷ keys l

pub close : Bus → Outcome Bus
close b = if b.closed then ok b else (do
  chans ← close_all b.subs b.chans
  chans' ← close_all (keys b.waiters) chans
  ok (record b { closed = true; subs = []; waiters = []; chans = chans' }))

pub is_closed : Bus → Bool
is_closed b = b.closed

-- one call or receive by some goroutine
pub data Op : Type 0 where
  subscribe_op : ℤ → Op
  cancel_op : ℕ → Op
  emit_op : Event → Op
  wait_start_op : Option Predicate → Op
  wait_receive_op : ℕ → Option CtxErr → Op
  wait_cancel_op : ℕ → CtxErr → Op
  receive_op : ℕ → Op
  close_op : Op

abbrev pub settle {ℓ} : {A : Type ℓ} → Outcome (Bus × A) → Outcome Bus
settle (ok (b, _)) = ok b
settle panic = panic
settle blocked = blocked

pub step : Op → Bus → Outcome Bus
step (subscribe_op n) b = ok (subscribe n b).0
step (cancel_op id) b = cancel id b
step (emit_op evt) b = settle (emit evt b)
step (wait_start_op p) b = ok (wait_start p b).0
step (wait_receive_op id ctx) b = ok (wait_receive id ctx b).0
step (wait_cancel_op id ctx) b = settle (wait_cancel id ctx b)
step (receive_op id) b = ok (receive_from id b)
step close_op b = close b

pub run : List Op → Bus → Outcome Bus
run [] b = ok b
run (o ∷ ops) b = step o b >>= run ops
