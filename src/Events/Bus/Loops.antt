-- ===== src/Events/Bus/Loops.antt =====
-- What the loops of `Emit` and `Close` leave in the channels, on a valid bus.
use mathlib.Core.Path.{fun_ext}
use native.Mathlib.Nat.{le_refl}
use fngo.Prelude.{
  ℕ, ◌≡◌, refl, ap, ◌∙◌, nat_eq, Bool, true, false, Option, none, some, List, [], ◌∷◌, arith, inl,
  inr, Bool-cases, length, ltb, if◌then◌else◌,
}
use fngo.GoMap
use fngo.GoMap.{GoMap, contains}
use fngo.Events.{Event}
use fngo.Events.Bus.Channel.{Chan, ok, ◌>>=◌, push, try_send, close_chan, update}
use fngo.Events.Bus.Invariant.{
  Waiters, SubsValid, WaitersValid, SubsValid-update, WaitersValid-update, contains-past, get-past,
}
use fngo.Events.Bus.{Predicate, emit_subs, wants, hand_over, keep_waiter, emit_waiters, close_all}

-- what the channels are after the first loop of `Emit`: each subscription with room has the event
abbrev pub offer : Chan → Event → Chan
offer c evt = if ltb (length c.buffer) c.cap then push c evt else c

abbrev pub delivered : List ℕ → Event → (ℕ → Chan) → ℕ → Chan
delivered l evt cs j = if contains l j then offer (cs j) evt else cs j

-- after the second loop: who still waits, and the channels of those who do not
abbrev pub remaining : Event → Waiters → Waiters
remaining evt [] = []
remaining evt ((i, p) ∷ l) =
    let rest = remaining evt l in if wants p evt then rest else (i, p) ∷ rest

abbrev pub answer : Event → Chan
answer evt = record { buffer = evt ∷ []; cap = 1; closed = true }

abbrev pub accepts : Option (Option Predicate) → Event → Bool
accepts none evt = false
accepts (some p) evt = wants p evt

abbrev pub released : Waiters → Event → (ℕ → Chan) → ℕ → Chan
released w evt cs j = if accepts (GoMap.get w j) evt then answer evt else cs j

-- after `Close`
abbrev pub shut : List ℕ → (ℕ → Chan) → ℕ → Chan
shut l cs j = if contains l j then record (cs j) { closed = true } else cs j

pub emit_subs-eq-delivered :
    (evt : Event) (n : ℕ) (cs : ℕ → Chan) (l : List ℕ)
    → SubsValid cs n l
    → emit_subs l evt cs ≡ ok (delivered l evt cs)
unfolding emit_subs contains
emit_subs-eq-delivered evt n cs [] v = refl
emit_subs-eq-delivered evt n cs (i ∷ l) v =
    let c = offer (cs i) evt in
    let sent : try_send (cs i) evt ≡ ok c = ground arith in
    let valid = SubsValid-update cs i i c l (le_refl i) v.2 in
    rw sent (
      emit_subs-eq-delivered evt i (update cs i c) l valid
      ∙ ap ok (fun_ext λ j. ground (arith, contains-past cs i i l v.2 (le_refl i))))

pub emit_waiters-wanted :
    (evt : Event) (cs : ℕ → Chan) (i : ℕ) (p : Option Predicate) (l : Waiters)
    → wants p evt ≡ true
    → emit_waiters ((i, p) ∷ l) evt cs
      ≡ (hand_over (cs i) evt >>= λ c. emit_waiters l evt (update cs i c))
unfolding emit_waiters
emit_waiters-wanted evt cs i p l h = rw (h, emit_waiters)

pub emit_waiters-unwanted :
    (evt : Event) (cs : ℕ → Chan) (i : ℕ) (p : Option Predicate) (l : Waiters)
    → wants p evt ≡ false
    → emit_waiters ((i, p) ∷ l) evt cs ≡ (emit_waiters l evt cs >>= keep_waiter (i, p))
unfolding emit_waiters
emit_waiters-unwanted evt cs i p l h = rw (h, emit_waiters)

pub released-wanted :
    (evt : Event) (n : ℕ) (cs : ℕ → Chan) (i : ℕ) (p : Option Predicate) (l : Waiters)
    → WaitersValid cs n ((i, p) ∷ l)
    → wants p evt ≡ true
    → released l evt (update cs i (answer evt)) ≡ released ((i, p) ∷ l) evt cs
unfolding GoMap.get
released-wanted evt n cs i p l v wanted =
    fun_ext λ j. ground (arith, get-past cs i i l v.4 (le_refl i))

pub released-unwanted :
    (evt : Event) (n : ℕ) (cs : ℕ → Chan) (i : ℕ) (p : Option Predicate) (l : Waiters)
    → WaitersValid cs n ((i, p) ∷ l)
    → wants p evt ≡ false
    → released l evt cs ≡ released ((i, p) ∷ l) evt cs
unfolding GoMap.get
released-unwanted evt n cs i p l v unwanted =
    fun_ext λ j. ground (arith, get-past cs i i l v.4 (le_refl i))

pub emit_waiters-eq-released :
    (evt : Event) (n : ℕ) (cs : ℕ → Chan) (l : Waiters)
    → WaitersValid cs n l
    → emit_waiters l evt cs ≡ ok (remaining evt l, released l evt cs)
emit_waiters-eq-released evt n cs [] v = unfold emit_waiters GoMap.get in refl
emit_waiters-eq-released evt n cs ((i, p) ∷ l) v = elim (Bool-cases (wants p evt)) [
  | inl wanted ↦
      (let handed : hand_over (cs i) evt ≡ ok (answer evt) = ground arith in
        let valid = WaitersValid-update cs i i (answer evt) l (le_refl i) v.4 in
        rw (emit_waiters-wanted evt cs i p l wanted, handed, wanted)
          (emit_waiters-eq-released evt i (update cs i (answer evt)) l valid
            ∙ ap (λ f. ok (remaining evt l, f)) (released-wanted evt n cs i p l v wanted)))
  | inr unwanted ↦
      rw
        (
          emit_waiters-unwanted evt cs i p l unwanted,
          emit_waiters-eq-released evt i cs l v.4,
          unwanted,
        )
        (ap (λ f. ok ((i, p) ∷ remaining evt l, f)) (released-unwanted evt n cs i p l v unwanted))
]

pub close_all-eq-shut :
    (n : ℕ) (cs : ℕ → Chan) (l : List ℕ) → SubsValid cs n l → close_all l cs ≡ ok (shut l cs)
unfolding close_all contains
close_all-eq-shut n cs [] v = refl
close_all-eq-shut n cs (i ∷ l) v =
    let c : Chan = record (cs i) { closed = true } in
    let closes : close_chan (cs i) ≡ ok c = ground arith in
    let valid = SubsValid-update cs i i c l (le_refl i) v.2 in
    rw closes (
      close_all-eq-shut i (update cs i c) l valid
      ∙ ap ok (fun_ext λ j. ground (arith, contains-past cs i i l v.2 (le_refl i))))
