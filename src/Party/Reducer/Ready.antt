-- ===== src/Party/Reducer/Ready.antt =====
-- The ready state of a stored member is the one that its stored metadata shows, as long as the events
-- say so.
use fngo.Prelude.{
  ◌==◌, string_eq, String, ◌≡◌, refl, some, arith, inl, inr, false, Bool-cases, get_or, ◌∙◌, sym,
}
use fngo.GoMap
use fngo.GoMap.{GoMap, text_at, get-insert, get-delete}
use fngo.GoTime.{Time}
use fngo.Json.{Codec}
use fngo.Party.Types.{
  Member, Party, EventKind, party_snapshot, member_joined, member_left, member_updated,
  member_kicked, party_updated, other, ReducerEvent, zero_member,
}
use fngo.Party.Codec.{extract_ready}
use fngo.Party.Reducer.{State, apply_kind, prepare, apply_event, non_empty_or}
use fngo.Party.Reducer.Keys.{members_of, members-prepare}

-- what the metadata says
abbrev pub ready_in : Codec → GoMap String String → String
ready_in c meta = extract_ready c (text_at meta "Default:LobbyState_j")

-- every stored member has the ready state that its metadata shows
pub record ShowsReady (c : Codec) (ms : GoMap String Member) : Type 0 where
  pub ready_of : (k : String) (m : Member) → GoMap.get ms k ≡ some m → m.ready ≡ ready_in c m.meta

insert-ShowsReady :
    (c : Codec) (ms : GoMap String Member) (k : String) (m : Member)
    → m.ready ≡ ready_in c m.meta
    → ShowsReady c ms
    → ShowsReady c (GoMap.insert ms k m)
insert-ShowsReady c ms k m h v = record {
  ready_of = λ j x p. elim (Bool-cases (k == j)) [
    | inl b ↦ ground (arith, get-insert ms k m j)
    | inr b ↦ v.ready_of j x (sym (get-insert ms k m j ∙ rw b refl) ∙ p)
  ];
}

delete-ShowsReady :
    (c : Codec) (ms : GoMap String Member) (k : String)
    → ShowsReady c ms
    → ShowsReady c (GoMap.delete ms k)
delete-ShowsReady c ms k v = record {
  ready_of = λ j x p. v.ready_of j x (ground (arith, get-delete ms k j));
}

-- an event whose ready state fits the metadata that is stored with it
abbrev pub Fits : Codec → ReducerEvent → EventKind → GoMap String Member → Type 0
Fits c e member_joined ms = e.member.ready ≡ ready_in c e.member.meta
Fits c e member_updated ms =
    (e.member.account_id == "") ≡ false
    → non_empty_or e.member.ready (get_or (GoMap.get ms e.member.account_id) zero_member).ready
      ≡ ready_in c (
          GoMap.delete_all
            (GoMap.insert_all (get_or (GoMap.get ms e.member.account_id) zero_member).meta
              e.member.meta)
            e.member_meta_removed)
Fits c e _ ms = Unit {0}

apply_kind-ShowsReady :
    (c : Codec) (e : ReducerEvent) (k : EventKind) (p : Party)
    → Fits c e k p.members
    → ShowsReady c p.members
    → ShowsReady c (apply_kind c e k p).0.members
unfolding apply_kind
apply_kind-ShowsReady c e party_snapshot p h v = v
apply_kind-ShowsReady c e member_joined p h v = elim (Bool-cases (e.member.account_id == "")) [
  | inl b ↦ rw b v
  | inr b ↦ rw b (insert-ShowsReady c p.members e.member.account_id _ h v)
]
apply_kind-ShowsReady c e member_updated p h v = elim (Bool-cases (e.member.account_id == "")) [
  | inl b ↦ rw b v
  | inr b ↦ rw b (insert-ShowsReady c p.members e.member.account_id _ (h b) v)
]
apply_kind-ShowsReady c e member_left p h v = elim (Bool-cases (e.member_id == "")) [
  | inl b ↦ rw b v
  | inr b ↦ rw b (delete-ShowsReady c p.members e.member_id v)
]
apply_kind-ShowsReady c e member_kicked p h v = elim (Bool-cases (e.member_id == "")) [
  | inl b ↦ rw b v
  | inr b ↦ rw b (delete-ShowsReady c p.members e.member_id v)
]
apply_kind-ShowsReady c e party_updated p h v = v
apply_kind-ShowsReady c e (other _) p h v = v

pub apply_event-ShowsReady :
    (c : Codec) (now : Time) (e : ReducerEvent) (s : State)
    → Fits c e e.kind (members_of s)
    → ShowsReady c (members_of s)
    → ShowsReady c (members_of (apply_event c now e s).0)
unfolding apply_event
apply_event-ShowsReady c now e s h v =
    apply_kind-ShowsReady c e e.kind (prepare now e s) (rw (members-prepare now e s) h)
      (rw (members-prepare now e s) v)
