-- ===== src/Tests/BusRuns.antt =====
-- events/bus.go and events/predicates.go on concrete events.
use fngo.Prelude.{
  ℕ, true, false, Option, none, some, List, [], ◌∷◌, ◌≡◌, refl, arith, string_eq, nat_eq,
}
use fngo.Prelude.Int.{ℤ, pos}
use fngo.GoMap
use fngo.GoMap.{contains}
use fngo.Events.{Event, Kind, Name, PartyUpdated}
use fngo.Events.Bus.{
  Bus, Op, Predicate, new_bus, run, emit, close, subscribe, wait_start, wait_receive, wants, done,
  err, bus_closed, subscribe_op, emit_op, wait_start_op, receive_op, cancel_op, close_op, CtxErr,
  enter_waiter, enter_sub,
}
use fngo.Events.Bus.Channel.{ok}
use fngo.Events.Bus.Invariant.{IsValid}
use fngo.Events.Bus.Loops.{answer, offer}
use fngo.Events.Bus.Removal.{Returns}
use fngo.Events.Bus.Entry.{subscribe-IsValid, wait_start-IsValid}
use fngo.Events.Bus.Safety.{new_bus-IsValid, run_safe}
use fngo.Events.Bus.Delivery.{emit-waiter, emit-sub, close-ends_all}
use fngo.Events.Bus.FirstWanted.{Sees, first_wanted, events_of, wait-first_wanted}
use fngo.Events.Predicates.{is_name, party_updated_any, any_of}
use fngo.Events.Predicates.Laws.{Accepts, any_of_iff}

abbrev ready : Event
ready = record { at = pos 1; kind = Kind.client_ready }

abbrev update : PartyUpdated
update = record {
  party_id = "p";
  revision = pos 2;
  captain_id = "a";
  playlist = "Solo ";
  custom_key = "k";
}

abbrev updated : Event
updated = record { at = pos 2; kind = Kind.party_updated update }

abbrev is_update : Option Predicate
is_update = some party_updated_any

-- a subscriber with a buffer of one event, a waiter, two events, a receive, a cancellation, a close
abbrev calls : List Op
calls =
    subscribe_op (pos 1)
    ∷ wait_start_op is_update
    ∷ emit_op ready
    ∷ emit_op updated
    ∷ receive_op 0
    ∷ cancel_op 0
    ∷ cancel_op 0
    ∷ close_op
    ∷ close_op
    ∷ []

abbrev waiting : Bus
waiting = (wait_start is_update new_bus).0

waiting-IsValid : IsValid waiting
waiting-IsValid =
    wait_start-IsValid is_update new_bus (unfold new_bus in omega arith) new_bus-IsValid

abbrev subscribed : Bus
subscribed = (subscribe (pos 1) new_bus).0

subscribed-IsValid : IsValid subscribed
subscribed-IsValid =
    subscribe-IsValid (pos 1) new_bus (unfold new_bus in omega arith) new_bus-IsValid

run_safe_example : Returns (run calls new_bus) IsValid
run_safe_example = run_safe calls (omega arith)

wait-first_wanted_example :
    Returns (run (emit_op ready ∷ emit_op updated ∷ []) waiting) (λ b.
      Sees (first_wanted is_update (events_of (emit_op ready ∷ emit_op updated ∷ []))) b 0 none)
unfolding wait_start enter_waiter new_bus GoMap.get
wait-first_wanted_example =
    wait-first_wanted (emit_op ready ∷ emit_op updated ∷ []) 0 is_update waiting none (omega arith)
      waiting-IsValid refl refl (tt, (tt, tt))

emit-waiter_example :
    (b : Bus) × (emit updated waiting ≡ ok (b, done tt))
    × (wants is_update updated ≡ true
        → (GoMap.get b.waiters 0 ≡ none) × (b.chans 0 ≡ answer updated))
    × (wants is_update updated ≡ false
        → (GoMap.get b.waiters 0 ≡ some is_update) × (b.chans 0 ≡ waiting.chans 0))
unfolding wait_start enter_waiter new_bus GoMap.get
emit-waiter_example = emit-waiter updated waiting 0 is_update waiting-IsValid refl refl

emit-sub_example :
    (b : Bus) × (emit updated subscribed ≡ ok (b, done tt))
    × (b.chans 0 ≡ offer (subscribed.chans 0) updated)
unfolding subscribe enter_sub new_bus contains
emit-sub_example = emit-sub updated subscribed 0 subscribed-IsValid refl refl

close-ends_all_example :
    (b : Bus) × (close waiting ≡ ok b)
    × (close b ≡ ok b)
    × ((n : ℤ) → subscribe n b ≡ (b, err bus_closed))
    × ((evt : Event) → emit evt b ≡ ok (b, err bus_closed))
    × ((p : Option Predicate) → wait_start p b ≡ (b, err bus_closed))
    × ((id : ℕ) (p : Option Predicate) (ctx : Option CtxErr)
        → GoMap.get waiting.waiters id ≡ some p
        → (wait_receive id ctx b).1 ≡ some (err bus_closed))
unfolding wait_start enter_waiter new_bus
close-ends_all_example = close-ends_all waiting waiting-IsValid refl

abbrev wanted : List (Option Predicate)
wanted = none ∷ some (is_name Name.client_ready) ∷ is_update ∷ []

any_of_iff_example :
    (any_of wanted updated ≡ true → Accepts updated wanted)
    × (Accepts updated wanted → any_of wanted updated ≡ true)
any_of_iff_example = any_of_iff wanted updated
