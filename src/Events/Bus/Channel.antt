-- ===== src/Events/Bus/Channel.antt =====
-- Go's buffered channels, as far as events/bus.go uses them: a send on a closed channel and a
-- second close panic, and a send on a full one waits.
use fngo.Prelude.{
  ℕ, ◌==◌, ◌++◌, Bool, true, false, List, [], ◌∷◌, length, ltb, nat_eq, if◌then◌else◌,
}
use fngo.Events.{Event}

pub record Chan : Type 0 where
  pub buffer : List Event
  pub cap : ℕ
  pub closed : Bool

-- `blocked`: the goroutine would wait for a receiver, with the mutex held
pub data Outcome {ℓ} (A : Type ℓ) : Type ℓ where
  ok : A → Outcome A
  panic : Outcome A
  blocked : Outcome A

infixl 5 ◌>>=◌
abbrev pub ◌>>=◌ {ℓ κ} : {A : Type ℓ} {B : Type κ} → Outcome A → (A → Outcome B) → Outcome B
ok a >>= f = f a
panic >>= f = panic
blocked >>= f = blocked

abbrev pub make : ℕ → Chan
make n = record { buffer = []; cap = n; closed = false }

abbrev pub push : Chan → Event → Chan
push c evt = record c { buffer = c.buffer ++ evt ∷ [] }

-- ch <- evt
abbrev pub send : Chan → Event → Outcome Chan
send c evt =
    if c.closed then panic else if ltb (length c.buffer) c.cap then ok (push c evt) else blocked

-- select { case ch <- evt: default: }
abbrev pub try_send : Chan → Event → Outcome Chan
try_send c evt =
    if c.closed then panic else if ltb (length c.buffer) c.cap then ok (push c evt) else ok c

-- close(ch)
abbrev pub close_chan : Chan → Outcome Chan
close_chan c = if c.closed then panic else ok (record c { closed = true })

abbrev pub update : (ℕ → Chan) → ℕ → Chan → ℕ → Chan
update f i c j = if i == j then c else f j
