-- ===== src/Party/Reducer/Keys.antt =====
-- The members of a party: each is stored under its own account id, and an event touches only the
-- member that it names.
use fngo.Prelude.{
  ◌==◌, string_eq, eq_iff, String, ◌≡◌, ◌≢◌, refl, ap, ◌∙◌, none, some, [], arith, inl, inr,
  Bool-cases, Option-cases, get_or, if◌then◌else◌,
}
use fngo.GoMap
use fngo.GoMap.{GoMap, get-insert, get-delete}
use fngo.GoTime.{Time}
use fngo.Json.{Codec}
use fngo.Party.Types.{
  Member, Party, EventKind, party_snapshot, member_joined, member_left, member_updated,
  member_kicked, party_updated, other, ReducerEvent, zero_member,
}
use fngo.Party.Reducer.{State, apply_kind, prepare, apply_event}

abbrev pub members_of : State → GoMap String Member
members_of none = []
members_of (some p) = p.members

-- each member is stored under its own account id
pub record IsKeyed (ms : GoMap String Member) : Type 0 where
  pub own_key : (k : String) (m : Member) → GoMap.get ms k ≡ some m → m.account_id ≡ k

-- the account that an event is about
abbrev pub target : ReducerEvent → EventKind → String
target e member_joined = e.member.account_id
target e member_updated = e.member.account_id
target e member_left = e.member_id
target e member_kicked = e.member_id
target e _ = ""

pub members-prepare :
    (now : Time) (e : ReducerEvent) (s : State) → (prepare now e s).members ≡ members_of s
unfolding prepare
members-prepare now e none = ground arith
members-prepare now e (some p) = ground arith

pub insert-IsKeyed :
    (ms : GoMap String Member) (m : Member) (k : String)
    → m.account_id ≡ k
    → IsKeyed ms
    → IsKeyed (GoMap.insert ms k m)
insert-IsKeyed ms m k h v = record {
  own_key = λ j x p. ground (arith, get-insert ms k m j, eq_iff k j, v.own_key j x);
}

delete-IsKeyed : (ms : GoMap String Member) (k : String) → IsKeyed ms → IsKeyed (GoMap.delete ms k)
delete-IsKeyed ms k v = record {
  own_key = λ j x p. ground (arith, get-delete ms k j, v.own_key j x);
}

-- the id that an updated member is stored with
stored_id :
    (ms : GoMap String Member) (k : String)
    → IsKeyed ms
    → (if (get_or (GoMap.get ms k) zero_member).account_id == ""
        then k
        else (get_or (GoMap.get ms k) zero_member).account_id)
      ≡ k
stored_id ms k v = elim (Option-cases (GoMap.get ms k)) [
  | inl h ↦ rw h
  | inr (m, h) ↦ rw h (ground (arith, v.own_key k m h))
]

apply_kind-IsKeyed :
    (c : Codec) (e : ReducerEvent) (k : EventKind) (p : Party)
    → IsKeyed p.members
    → IsKeyed (apply_kind c e k p).0.members
unfolding apply_kind
apply_kind-IsKeyed c e party_snapshot p v = v
apply_kind-IsKeyed c e member_joined p v = elim (Bool-cases (e.member.account_id == "")) [
  | inl b ↦ rw b v
  | inr b ↦ rw b (insert-IsKeyed p.members _ e.member.account_id refl v)
]
apply_kind-IsKeyed c e member_updated p v = elim (Bool-cases (e.member.account_id == "")) [
  | inl b ↦ rw b v
  | inr b ↦
      rw b (
        insert-IsKeyed p.members _ e.member.account_id (stored_id p.members e.member.account_id v)
          v)
]
apply_kind-IsKeyed c e member_left p v = elim (Bool-cases (e.member_id == "")) [
  | inl b ↦ rw b v
  | inr b ↦ rw b (delete-IsKeyed p.members e.member_id v)
]
apply_kind-IsKeyed c e member_kicked p v = elim (Bool-cases (e.member_id == "")) [
  | inl b ↦ rw b v
  | inr b ↦ rw b (delete-IsKeyed p.members e.member_id v)
]
apply_kind-IsKeyed c e party_updated p v = v
apply_kind-IsKeyed c e (other _) p v = v

insert-get :
    (ms : GoMap String Member) (m : Member) (k j : String)
    → j ≢ k
    → GoMap.get (GoMap.insert ms k m) j ≡ GoMap.get ms j
insert-get ms m k j h = ground (arith, get-insert ms k m j, eq_iff k j)

delete-get :
    (ms : GoMap String Member) (k j : String)
    → j ≢ k
    → GoMap.get (GoMap.delete ms k) j ≡ GoMap.get ms j
delete-get ms k j h = ground (arith, get-delete ms k j, eq_iff k j)

apply_kind-get :
    (c : Codec) (e : ReducerEvent) (k : EventKind) (p : Party) (j : String)
    → j ≢ target e k
    → GoMap.get (apply_kind c e k p).0.members j ≡ GoMap.get p.members j
unfolding apply_kind
apply_kind-get c e party_snapshot p j h = refl
apply_kind-get c e member_joined p j h = elim (Bool-cases (e.member.account_id == "")) [
  | inl b ↦ rw b
  | inr b ↦ rw b (insert-get p.members _ e.member.account_id j h)
]
apply_kind-get c e member_updated p j h = elim (Bool-cases (e.member.account_id == "")) [
  | inl b ↦ rw b
  | inr b ↦ rw b (insert-get p.members _ e.member.account_id j h)
]
apply_kind-get c e member_left p j h = elim (Bool-cases (e.member_id == "")) [
  | inl b ↦ rw b
  | inr b ↦ rw b (delete-get p.members e.member_id j h)
]
apply_kind-get c e member_kicked p j h = elim (Bool-cases (e.member_id == "")) [
  | inl b ↦ rw b
  | inr b ↦ rw b (delete-get p.members e.member_id j h)
]
apply_kind-get c e party_updated p j h = refl
apply_kind-get c e (other _) p j h = refl

-- Every event, of any kind, keeps each member stored under its own account id.
pub apply_event-IsKeyed :
    (c : Codec) (now : Time) (e : ReducerEvent) (s : State)
    → IsKeyed (members_of s)
    → IsKeyed (members_of (apply_event c now e s).0)
unfolding apply_event
apply_event-IsKeyed c now e s v =
    apply_kind-IsKeyed c e e.kind (prepare now e s) (rw members-prepare v)

-- An event leaves every member other than the one that it names as it was, and one that is about
-- no member, or of an unknown kind, leaves all members with a non-empty id.
apply_event-get :
    (c : Codec) (now : Time) (e : ReducerEvent) (s : State) (j : String)
    → j ≢ target e e.kind
    → GoMap.get (members_of (apply_event c now e s).0) j ≡ GoMap.get (members_of s) j
unfolding apply_event
apply_event-get c now e s j h =
    apply_kind-get c e e.kind (prepare now e s) j h
    ∙ ap (λ ms. GoMap.get ms j) (members-prepare now e s)
