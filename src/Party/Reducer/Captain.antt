-- ===== src/Party/Reducer/Captain.antt =====
-- The captain of a party is one of its members.
use fngo.Prelude.{
  ◌==◌, string_eq, eq_iff, String, ◌≡◌, Bool, true, none, some, arith, inl, inr, Bool-cases,
  if◌then◌else◌, is_some, ◌||◌,
}
use fngo.GoMap
use fngo.GoMap.{GoMap, get-insert, get-delete}
use fngo.GoTime.{Time}
use fngo.Json.{Codec}
use fngo.Party.Types.{
  Member, Party, EventKind, party_snapshot, member_joined, member_left, member_updated,
  member_kicked, party_updated, other, ReducerEvent,
}
use fngo.Party.Reducer.{State, apply_kind, prepare, apply_event}
use fngo.Party.Reducer.Keys.{members-prepare}

abbrev pub captain_in : String → GoMap String Member → Bool
captain_in id ms = id == "" || is_some (GoMap.get ms id)

-- there is no captain, or the captain is a member
abbrev pub captain_ok : State → Bool
captain_ok none = true
captain_ok (some p) = captain_in p.captain_id p.members

abbrev pub captain_of : State → String
captain_of none = ""
captain_of (some p) = p.captain_id

pub captain-prepare :
    (now : Time) (e : ReducerEvent) (s : State) → (prepare now e s).captain_id ≡ captain_of s
unfolding prepare
captain-prepare now e none = ground arith
captain-prepare now e (some p) = ground arith

captain_ok-prepare :
    (now : Time) (e : ReducerEvent) (s : State)
    → captain_ok s ≡ true
    → captain_ok (some (prepare now e s)) ≡ true
captain_ok-prepare now e none h = rw (captain-prepare now e none)
captain_ok-prepare now e (some p) h =
    rw (captain-prepare now e (some p), members-prepare now e (some p)) h

captain_in-insert :
    (ms : GoMap String Member) (k : String) (m : Member) (id : String)
    → captain_in id ms ≡ true
    → captain_in id (GoMap.insert ms k m) ≡ true
captain_in-insert ms k m id h = ground (arith, get-insert ms k m id)

captain_in-insert_self :
    (ms : GoMap String Member) (k : String) (m : Member) → captain_in k (GoMap.insert ms k m) ≡ true
captain_in-insert_self ms k m = ground (arith, get-insert ms k m k, eq_iff k k)

captain_in-delete :
    (ms : GoMap String Member) (k id : String)
    → captain_in id ms ≡ true
    → captain_in (if id == k then "" else id) (GoMap.delete ms k) ≡ true
captain_in-delete ms k id h = elim (Bool-cases (id == k)) [
  | inl e ↦ rw e
  | inr e ↦ rw e (ground (arith, get-delete ms k id, eq_iff id k, eq_iff k id))
]

-- the captain after a member joined: that member, or the captain before
join-captain_in :
    (ms : GoMap String Member) (m : Member) (k id role : String)
    → captain_in id ms ≡ true
    → captain_in
        (let captain = if role == "CAPTAIN" then k else id in if captain == "" then k else captain)
        (GoMap.insert ms k m)
      ≡ true
join-captain_in ms m k id role h = elim (Bool-cases (role == "CAPTAIN")) [
  | inl r ↦ rw r (elim (Bool-cases (k == "")) [
    | inl e ↦ rw e (captain_in-insert_self ms k m)
    | inr e ↦ rw e (captain_in-insert_self ms k m)
  ])
  | inr r ↦ rw r (elim (Bool-cases (id == "")) [
    | inl e ↦ rw e (captain_in-insert_self ms k m)
    | inr e ↦ rw e (captain_in-insert ms k m id h)
  ])
]

pub update-captain_in :
    (ms : GoMap String Member) (m : Member) (k id role : String)
    → captain_in id ms ≡ true
    → captain_in (if role == "CAPTAIN" then k else id) (GoMap.insert ms k m) ≡ true
update-captain_in ms m k id role h = elim (Bool-cases (role == "CAPTAIN")) [
  | inl r ↦ rw r (captain_in-insert_self ms k m)
  | inr r ↦ rw r (captain_in-insert ms k m id h)
]

captain_ok-apply_kind :
    (c : Codec) (e : ReducerEvent) (k : EventKind) (p : Party)
    → e.captain_id ≡ ""
    → captain_ok (some p) ≡ true
    → captain_ok (some (apply_kind c e k p).0) ≡ true
unfolding apply_kind
captain_ok-apply_kind c e party_snapshot p n h = rw n h
captain_ok-apply_kind c e member_joined p n h = elim (Bool-cases (e.member.account_id == "")) [
  | inl b ↦ rw b h
  | inr b ↦ rw b (join-captain_in p.members _ e.member.account_id p.captain_id e.member.role h)
]
captain_ok-apply_kind c e member_updated p n h = elim (Bool-cases (e.member.account_id == "")) [
  | inl b ↦ rw b h
  | inr b ↦ rw b (update-captain_in p.members _ e.member.account_id p.captain_id e.member.role h)
]
captain_ok-apply_kind c e member_left p n h = elim (Bool-cases (e.member_id == "")) [
  | inl b ↦ rw b h
  | inr b ↦ rw b (captain_in-delete p.members e.member_id p.captain_id h)
]
captain_ok-apply_kind c e member_kicked p n h = elim (Bool-cases (e.member_id == "")) [
  | inl b ↦ rw b h
  | inr b ↦ rw b (captain_in-delete p.members e.member_id p.captain_id h)
]
captain_ok-apply_kind c e party_updated p n h = rw n h
captain_ok-apply_kind c e (other _) p n h = h

-- If there is no captain or the captain is a member, that still holds after an event of any kind
-- whose own captain field is empty: a member that leaves or is kicked takes the captaincy with it.
pub apply_event-captain :
    (c : Codec) (now : Time) (e : ReducerEvent) (s : State)
    → e.captain_id ≡ ""
    → captain_ok s ≡ true
    → captain_ok (apply_event c now e s).0 ≡ true
unfolding apply_event
apply_event-captain c now e s n h =
    captain_ok-apply_kind c e e.kind (prepare now e s) n (captain_ok-prepare now e s h)
