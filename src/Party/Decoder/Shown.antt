-- ===== src/Party/Decoder/Shown.antt =====
-- party/xmpp_decoder.go: each notification is at most one event of the reducer, and which one.
use fngo.Prelude.{
  ◌==◌, string_eq, String, ◌≡◌, ◌≢◌, refl, Option, none, some, Bool, inl, inr, true, false,
  Bool-cases, get_or, if◌then◌else◌, ◌∙◌, ◌||◌, ◌⊎◌,
}
use fngo.GoMap
use fngo.GoMap.{GoMap, text_at}
use fngo.GoStrings.{equal_fold}
use fngo.Json
use fngo.Json.{Codec, at_or_null}
use fngo.Party.Types.{
  Member, Party, party_snapshot, member_joined, ReducerEvent, zero_member, ready_state_ready,
}
use fngo.Party.Codec.{extract_ready, decode_json_map, decode_json_map_value}
use fngo.Party.Reducer.{State, apply_event, non_empty_or, snapshot}
use fngo.Party.Reducer.Keys.{members_of, IsKeyed}
use fngo.Party.Reducer.Ready.{Fits}
use fngo.Party.Decoder.{Reader, Feed, Notice, change_of, emit_party, emit_party_updated}
use fngo.Party.Decoder.Handlers.{
  with_id, existing_member, joined_member, updated_member, is_type, on_joined, on_state_updated,
  on_left, on_kicked, on_new_captain, on_party_updated, party_updated_event, on_notice,
}

-- what an event of a notification satisfies
pub record Serves (r : Reader) (n : Notice) (st : State) (e : ReducerEvent) : Type 0 where
  pub fits : IsKeyed (members_of st) → Fits r.codec e e.kind (members_of st)
  pub no_captain : is_type n "MEMBER_NEW_CAPTAIN" ≡ false → e.captain_id ≡ ""
  pub incremental : e.kind ≢ party_snapshot
  pub own_revision : e.revision ≡ n.revision

-- the state `t` is `st`, or `st` after one such event
abbrev pub Follows : Reader → Notice → State → State → Type 0
Follows r n st t =
    (t ≡ st) ⊎ ((e : ReducerEvent) × (t ≡ (apply_event r.codec r.now e st).0) × Serves r n st e)

extract_ready-full :
    (c : Codec) (raw old : String) → non_empty_or (extract_ready c raw) old ≡ extract_ready c raw
unfolding extract_ready
extract_ready-full c raw old =
    elim (Bool-cases (
      c.sprint (
        at_or_null
          (Json.get (decode_json_map_value c (decode_json_map c raw) "LobbyState") "gameReadiness"))
      == ready_state_ready)) [ inl b ↦ rw b refl | inr b ↦ rw b refl ]

with_id-meta :
    (o : Option Member)
    → ((m : Member) → o ≡ some m → (m.account_id == "") ≡ false)
    → (get_or (with_id o) zero_member).meta ≡ (get_or o zero_member).meta
with_id-meta none h = refl
with_id-meta (some m) h = rw (h m refl) refl

-- the member that the decoder starts from is the one that the reducer starts from
existing_member-meta :
    (st : State) (id : String)
    → IsKeyed (members_of st)
    → (id == "") ≡ false
    → (get_or (existing_member (snapshot st) id) zero_member).meta
      ≡ (get_or (GoMap.get (members_of st) id) zero_member).meta
unfolding snapshot GoMap.get
existing_member-meta none id v h = refl
existing_member-meta (some p) id v h =
    with_id-meta (GoMap.get p.members id) λ m g. rw (v.own_key id m g) h

module _ (r : Reader) where
  emit_party-state : (o : Option Party) (f : Feed) → (emit_party r o f).state ≡ f.state
  emit_party-state none f = refl
  emit_party-state (some p) f = elim (Bool-cases (p.id == "")) [
    | inl b ↦ rw b refl
    | inr b ↦ rw b refl
  ]

  emit_party_updated-state : (f : Feed) → (emit_party_updated r f).state ≡ f.state
  unfolding emit_party_updated snapshot
  emit_party_updated-state f = emit_party-state f.state f

  if-state : (b : Bool) (g f : Feed) → g.state ≡ f.state → (if b then g else f).state ≡ f.state
  if-state true g f h = h
  if-state false g f h = refl

  on_joined-Follows : (n : Notice) (f : Feed) → Follows r n f.state (on_joined r n f).state
  unfolding on_joined joined_member
  on_joined-Follows n f = inr (
    record (change_of r member_joined n) { member = joined_member r n },
    emit_party_updated-state _ ∙ if-state (equal_fold (joined_member r n).role "CAPTAIN") _ _ refl,
    record { fits = λ v. refl; no_captain = λ h. refl; incremental = λ q. cc; own_revision = refl },
  )

  on_state_updated-Follows :
      (n : Notice) (f : Feed) → Follows r n f.state (on_state_updated r n f).state
  unfolding on_state_updated updated_member
  on_state_updated-Follows n f = inr (
    _,
    emit_party_updated-state _,
    record {
      fits = λ v b.
          rw (existing_member-meta f.state n.account_id v b) (extract_ready-full r.codec _ _);
      no_captain = λ h. refl;
      incremental = λ q. cc;
      own_revision = refl;
    },
  )

  on_left-Follows : (n : Notice) (f : Feed) → Follows r n f.state (on_left r n f).state
  unfolding on_left
  on_left-Follows n f = inr (
    _,
    emit_party_updated-state _,
    record { fits = λ v. tt; no_captain = λ h. refl; incremental = λ q. cc; own_revision = refl },
  )

  on_kicked-Follows : (n : Notice) (f : Feed) → Follows r n f.state (on_kicked r n f).state
  unfolding on_kicked
  on_kicked-Follows n f = inr (
    _,
    emit_party_updated-state _,
    record { fits = λ v. tt; no_captain = λ h. refl; incremental = λ q. cc; own_revision = refl },
  )

  on_new_captain-Follows :
      (n : Notice) (f : Feed)
      → is_type n "MEMBER_NEW_CAPTAIN" ≡ true
      → Follows r n f.state (on_new_captain r n f).state
  unfolding on_new_captain
  on_new_captain-Follows n f t = inr (
    _,
    emit_party_updated-state _,
    record {
      fits = λ v. tt;
      no_captain = λ h. absurd (cc);
      incremental = λ q. cc;
      own_revision = refl;
    },
  )

  on_party_updated-Follows :
      (n : Notice) (f : Feed) → Follows r n f.state (on_party_updated r n f).state
  unfolding on_party_updated party_updated_event
  on_party_updated-Follows n f = inr (
    _,
    emit_party_updated-state _,
    record { fits = λ v. tt; no_captain = λ h. refl; incremental = λ q. cc; own_revision = refl },
  )

  if-Follows :
      (n : Notice) (st : State) (b : Bool) (g f : Feed)
      → (b ≡ true → Follows r n st g.state)
      → Follows r n st f.state
      → Follows r n st (if b then g else f).state
  if-Follows n st true g f h k = h refl
  if-Follows n st false g f h k = k

  pub on_notice-Follows : (n : Notice) (f : Feed) → Follows r n f.state (on_notice r n f).state
  unfolding on_notice
  on_notice-Follows n f =
      if-Follows n f.state (is_type n "MEMBER_JOINED") _ _ (λ b. on_joined-Follows n f)
        (if-Follows n f.state (is_type n "MEMBER_STATE_UPDATED") _ _
          (λ b. on_state_updated-Follows n f)
          (if-Follows n f.state
            (is_type n "MEMBER_LEFT"
              || is_type n "MEMBER_EXPIRED"
              || is_type n "MEMBER_DISCONNECTED")
            _ _ (λ b. on_left-Follows n f)
            (if-Follows n f.state (is_type n "MEMBER_KICKED") _ _ (λ b. on_kicked-Follows n f)
              (if-Follows n f.state (is_type n "MEMBER_NEW_CAPTAIN") _ _
                (λ b. on_new_captain-Follows n f b)
                (if-Follows n f.state (is_type n "PARTY_UPDATED") _ _
                  (λ b. on_party_updated-Follows n f)
                  (if-Follows n f.state (is_type n "PING") _ _ (λ b. inl refl)
                    (if-Follows n f.state (is_type n "INITIAL_INTENTION") _ _ (λ b. inl refl)
                      (if-Follows n f.state (is_type n "MEMBER_REQUIRE_CONFIRMATION") _ _
                        (λ b. inl refl) (inl refl)))))))))
