-- ===== src/Party/Reducer/Revision.antt =====
-- The revision of a party over a sequence of events.
use fngo.Prelude.{
  string_eq, ◌≡◌, ◌≢◌, refl, ap, ◌∙◌, none, some, List, [], arith, if◌then◌else◌, All, ◌∷◌,
}
use fngo.Prelude.Int.{ℤ, pos, ltb_ℤ}
use fngo.GoTime.{Time}
use fngo.Json.{Codec}
use fngo.Party.Types.{Party, EventKind, party_snapshot, ReducerEvent}
use fngo.Party.Reducer.{State, apply_kind, prepare, apply_event}

abbrev pub revision_of : State → ℤ
revision_of none = pos 0
revision_of (some p) = p.revision

abbrev pub max_ℤ : ℤ → ℤ → ℤ
max_ℤ a b = if ltb_ℤ a b then b else a

-- one event after another; the errors are what the callers drop
unfoldable pub apply_events : Codec → Time → List ReducerEvent → State → State
apply_events c now [] s = s
apply_events c now (e ∷ es) s = apply_events c now es (apply_event c now e s).0

revision-prepare :
    (now : Time) (e : ReducerEvent) (s : State)
    → (prepare now e s).revision ≡ max_ℤ (revision_of s) e.revision
unfolding prepare
revision-prepare now e none = ground arith
revision-prepare now e (some p) = ground arith

revision-apply_kind :
    (c : Codec) (e : ReducerEvent) (k : EventKind) (p : Party)
    → k ≢ party_snapshot
    → (apply_kind c e k p).0.revision ≡ p.revision
unfolding apply_kind
revision-apply_kind c e party_snapshot p h = absurd (h refl)
revision-apply_kind c e _ p h = ground arith

pub apply_event-revision :
    (c : Codec) (now : Time) (e : ReducerEvent) (s : State)
    → e.kind ≢ party_snapshot
    → revision_of (apply_event c now e s).0 ≡ max_ℤ (revision_of s) e.revision
unfolding apply_event
apply_event-revision c now e s h =
    revision-apply_kind c e e.kind (prepare now e s) h ∙ revision-prepare now e s

-- the largest of a revision and those of the events
abbrev pub max_revision : ℤ → List ReducerEvent → ℤ
max_revision r [] = r
max_revision r (e ∷ es) = max_revision (max_ℤ r e.revision) es

abbrev pub IsIncremental : ReducerEvent → Type 0
IsIncremental e = e.kind ≢ party_snapshot

-- After any events but snapshots, unknown ones included, the revision is the largest of the one
-- before and those of the events: a late event never takes it back.
pub apply_events-revision :
    (c : Codec) (now : Time) (es : List ReducerEvent) (s : State)
    → All IsIncremental es
    → revision_of (apply_events c now es s) ≡ max_revision (revision_of s) es
unfolding apply_events
apply_events-revision c now [] s h = refl
apply_events-revision c now (e ∷ es) s h =
    apply_events-revision c now es (apply_event c now e s).0 h.1
    ∙ ap (λ r. max_revision r es) (apply_event-revision c now e s h.0)
