-- ===== src/Party/Reducer/History.antt =====
-- The reducer against a history of events, read from the latest back: what one account is, told by the
-- events alone. No map, no party and no merge of members is in it.
use mathlib.Core.List.{reverse, reverse-cons}
use fngo.Prelude.{
  ◌==◌, string_eq, String, ◌≡◌, refl, ap, ◌∙◌, Option, none, some, List, [], ◌∷◌, ◌++◌, arith, inl,
  inr, eq_iff, Bool-cases, get_or, if◌then◌else◌,
}
use fngo.GoMap
use fngo.GoMap.{GoMap, get-insert, get-delete}
use fngo.GoTime.{Time}
use fngo.Json.{Codec}
use fngo.Party.Types.{
  Member, Party, EventKind, party_snapshot, member_joined, member_left, member_updated,
  member_kicked, party_updated, other, ReducerEvent, zero_member,
}
use fngo.Party.Reducer.{
  State, non_empty_or, is_loadout_zero, merge_loadout, merge_member, apply_kind, prepare,
  apply_event,
}
use fngo.Party.Reducer.Keys.{members_of, members-prepare}
use fngo.Party.Reducer.Revision.{apply_events}

-- the texts of a member
pub data Part : Type 0 where
  display_name role ready character backpack pickaxe emote : Part

abbrev pub part_of : Part → Member → String
part_of display_name m = m.display_name
part_of role m = m.role
part_of ready m = m.ready
part_of character m = m.loadout.character
part_of backpack m = m.loadout.backpack
part_of pickaxe m = m.loadout.pickaxe
part_of emote m = m.loadout.emote

abbrev part_in : Part → Option Member → Option String
part_in part none = none
part_in part (some m) = some (part_of part m)

-- a text of an account, if it is a member
abbrev pub part_at : Part → String → State → Option String
part_at part id s = part_in part (GoMap.get (members_of s) id)

-- what an event says of it
pub data News : Type 0 where
  silent gone : News
  entered changed : String → News

-- an event about an account with an id
abbrev about : String → String → News → News
about id account news = if account == "" then silent else if account == id then news else silent

abbrev pub told : Part → String → ReducerEvent → EventKind → News
told part id e member_joined = about id e.member.account_id (entered (part_of part e.member))
told part id e member_updated = about id e.member.account_id (changed (part_of part e.member))
told part id e member_left = about id e.member_id gone
told part id e member_kicked = about id e.member_id gone
told part id e party_snapshot = silent
told part id e party_updated = silent
told part id e (other _) = silent

-- the latest news, and what was known before it
abbrev pub heard : News → Option String → Option String
heard silent before = before
heard gone before = none
heard (entered t) before = some t
heard (changed t) before = some (if t == "" then get_or before "" else t)

-- what is known of an account after events that are listed from the latest back
abbrev pub known : Part → String → List ReducerEvent → Option String → Option String
known part id [] start = start
known part id (e ∷ earlier) start = heard (told part id e e.kind) (known part id earlier start)

part_of-merge_member :
    (part : Part) (u ex : Member) (removed : List String)
    → part_of part (merge_member u removed ex) ≡ non_empty_or (part_of part u) (part_of part ex)
unfolding merge_member is_loadout_zero merge_loadout
part_of-merge_member display_name u ex removed = refl
part_of-merge_member role u ex removed = refl
part_of-merge_member ready u ex removed = refl
part_of-merge_member character u ex removed = ground arith
part_of-merge_member backpack u ex removed = ground arith
part_of-merge_member pickaxe u ex removed = ground arith
part_of-merge_member emote u ex removed = ground arith

part_of-at_time :
    (part : Part) (m : Member) (t : Time)
    → part_of part (record m { joined_at = t }) ≡ part_of part m
part_of-at_time display_name m t = refl
part_of-at_time role m t = refl
part_of-at_time ready m t = refl
part_of-at_time character m t = refl
part_of-at_time backpack m t = refl
part_of-at_time pickaxe m t = refl
part_of-at_time emote m t = refl

part_of-zero : (part : Part) → part_of part zero_member ≡ ""
part_of-zero display_name = refl
part_of-zero role = refl
part_of-zero ready = refl
part_of-zero character = refl
part_of-zero backpack = refl
part_of-zero pickaxe = refl
part_of-zero emote = refl

part_of-get_or :
    (part : Part) (o : Option Member)
    → part_of part (get_or o zero_member) ≡ get_or (part_in part o) ""
part_of-get_or part none = part_of-zero part
part_of-get_or part (some m) = refl

part_of-updated :
    (part : Part) (u : Member) (removed : List String) (o : Option Member)
    → part_in part (some (merge_member u removed (get_or o zero_member)))
      ≡ heard (changed (part_of part u)) (part_in part o)
part_of-updated part u removed o = ap some (
    part_of-merge_member part u (get_or o zero_member) removed
    ∙ ap (non_empty_or (part_of part u)) (part_of-get_or part o))

module _ (part : Part) (id : String) where
  joined-heard :
      (ms : GoMap String Member) (m : Member) (t : Time)
      → part_in part (GoMap.get (GoMap.insert ms m.account_id (record m { joined_at = t })) id)
        ≡ heard
            (if m.account_id == id then entered (part_of part m) else silent)
            (part_in part (GoMap.get ms id))
  joined-heard ms m t = elim (Bool-cases (m.account_id == id)) [
    | inl q ↦ rw (get-insert, q) (ap some (part_of-at_time part m t))
    | inr q ↦ rw (get-insert, q) refl
  ]

  updated-heard :
      (ms : GoMap String Member) (u : Member) (removed : List String)
      → part_in part (
          GoMap.get
            (GoMap.insert ms u.account_id
              (merge_member u removed (get_or (GoMap.get ms u.account_id) zero_member)))
            id)
        ≡ heard
            (if u.account_id == id then changed (part_of part u) else silent)
            (part_in part (GoMap.get ms id))
  updated-heard ms u removed = elim (Bool-cases (u.account_id == id)) [
    | inl q ↦
        rw (get-insert, q)
          (part_of-updated part u removed (GoMap.get ms u.account_id)
            ∙ ap (λ k. heard (changed (part_of part u)) (part_in part (GoMap.get ms k)))
                ((eq_iff u.account_id id).0 q))
    | inr q ↦ rw (get-insert, q) refl
  ]

  dropped-heard :
      (ms : GoMap String Member) (k : String)
      → part_in part (GoMap.get (GoMap.delete ms k) id)
        ≡ heard (if k == id then gone else silent) (part_in part (GoMap.get ms id))
  dropped-heard ms k = elim (Bool-cases (k == id)) [
    | inl q ↦ rw (get-delete, q) refl
    | inr q ↦ rw (get-delete, q) refl
  ]

  apply_kind-heard :
      (c : Codec) (e : ReducerEvent) (k : EventKind) (p : Party)
      → part_in part (GoMap.get (apply_kind c e k p).0.members id)
        ≡ heard (told part id e k) (part_in part (GoMap.get p.members id))
  unfolding apply_kind
  apply_kind-heard c e party_snapshot p = refl
  apply_kind-heard c e member_joined p = elim (Bool-cases (e.member.account_id == "")) [
    | inl b ↦ rw b refl
    | inr b ↦ rw b (joined-heard p.members e.member _)
  ]
  apply_kind-heard c e member_updated p = elim (Bool-cases (e.member.account_id == "")) [
    | inl b ↦ rw b refl
    | inr b ↦ rw b (updated-heard p.members e.member e.member_meta_removed)
  ]
  apply_kind-heard c e member_left p = elim (Bool-cases (e.member_id == "")) [
    | inl b ↦ rw b refl
    | inr b ↦ rw b (dropped-heard p.members e.member_id)
  ]
  apply_kind-heard c e member_kicked p = elim (Bool-cases (e.member_id == "")) [
    | inl b ↦ rw b refl
    | inr b ↦ rw b (dropped-heard p.members e.member_id)
  ]
  apply_kind-heard c e party_updated p = refl
  apply_kind-heard c e (other _) p = refl

  apply_event-heard :
      (c : Codec) (now : Time) (e : ReducerEvent) (s : State)
      → part_at part id (apply_event c now e s).0
        ≡ heard (told part id e e.kind) (part_at part id s)
  unfolding apply_event
  apply_event-heard c now e s =
      apply_kind-heard c e e.kind (prepare now e s)
      ∙ ap (λ ms. heard (told part id e e.kind) (part_in part (GoMap.get ms id)))
          (members-prepare now e s)

  apply_events-last :
      (c : Codec) (now : Time) (es : List ReducerEvent) (e : ReducerEvent) (s : State)
      → apply_events c now (es ++ (e ∷ [])) s ≡ (apply_event c now e (apply_events c now es s)).0
  unfolding apply_events
  apply_events-last c now [] e s = refl
  apply_events-last c now (d ∷ es) e s = apply_events-last c now es e (apply_event c now d s).0

  -- After any events the reducer's state has of any account what a history of them tells, read from the
  -- latest back: a member if the last event about it is none of its departure, with the texts (name,
  -- role, readiness, loadout) that it joined with, or the last ones that were not empty since.
  pub apply_events-refines :
      (c : Codec) (now : Time) (latest_first : List ReducerEvent) (s : State)
      → part_at part id (apply_events c now (reverse latest_first) s)
        ≡ known part id latest_first (part_at part id s)
  unfolding apply_events
  apply_events-refines c now [] s = refl
  apply_events-refines c now (e ∷ earlier) s = rw (reverse-cons e earlier) (
      ap (part_at part id) (apply_events-last c now (reverse earlier) e s)
      ∙ apply_event-heard c now e (apply_events c now (reverse earlier) s)
      ∙ ap (heard (told part id e e.kind)) (apply_events-refines c now earlier s))
