-- ===== src/Party/Decoder/Told.antt =====
-- party/xmpp_decoder.go: what the subscribers are told of a changed party state.
use fngo.Prelude.{
  ◌==◌, string_eq, ◌≡◌, refl, Option, none, some, [], ◌∷◌, List, Bool, inl, inr, true, false, ◌++◌,
  if◌then◌else◌, ◌∙◌, ap, sym, ◌⊎◌, ◌||◌, Bool-cases, get_or,
}
use mathlib.Core.List.{append_assoc, append-nil}
use fngo.GoStrings.{equal_fold}
use fngo.Xmpp.{Stanza}
use fngo.Events.{Event, Kind}
use fngo.Party.Types.{
  Party, EventKind, member_joined, member_updated, member_left, member_kicked, ReducerEvent,
  zero_member,
}
use fngo.Party.Reducer.{State, snapshot}
use fngo.Party.Decoder.{
  Reader, Feed, Notice, publish, shown_party, emit_party, emit_party_updated, clone_any_map, apply,
  change_of, map_keys, normalize_any, to_string_slice, entry, as_string,
}
use fngo.Party.Decoder.Handlers.{
  is_type, joined_member, updated_member, existing_member, party_updated_event, on_joined,
  on_state_updated, on_left, on_kicked, on_new_captain, on_party_updated, on_notice,
}
use fngo.Party.Decoder.Dispatch.{decode_notice, handle_notice, handle_message}

-- `l`, and then the event that shows the party of a state, if it has one with an id
abbrev pub told : Reader → State → List Event → List Event
told r none l = l
told r (some p) l =
    if p.id == "" then l else l ++ (record { at = r.at; kind = shown_party r p } ∷ [])

-- the events of `g` are those of `f`, others, and the one that shows the state of `g`
abbrev pub Tells : Reader → Feed → Feed → Type 0
Tells r f g = (l : List Event) × (g.events ≡ told r g.state (f.events ++ l))

module _ (r : Reader) where
  emit_party-told :
      (o : Option Party) (f : Feed)
      → f.state ≡ o
      → (emit_party r o f).events ≡ told r (emit_party r o f).state f.events
  emit_party-told none f h = rw h refl
  emit_party-told (some p) f h = elim (Bool-cases (p.id == "")) [
    | inl b ↦ rw (b, h) (rw b refl)
    | inr b ↦ rw (b, h) (rw b refl)
  ]

  emit-Tells :
      (f g : Feed) (l : List Event) → g.events ≡ f.events ++ l → Tells r f (emit_party_updated r g)
  unfolding emit_party_updated snapshot
  emit-Tells f g l h =
      (l, emit_party-told g.state g refl ∙ ap (told r (emit_party r g.state g).state) h)

  -- the state as it was, or told
  abbrev Answers : Feed → Feed → Type 0
  Answers f g = (g.state ≡ f.state) ⊎ Tells r f g

  -- one event about the change, and the party
  published-Tells :
      (f : Feed) (e : ReducerEvent) (kind : Kind)
      → Tells r f (emit_party_updated r (publish r kind (apply r e f)))
  published-Tells f e kind =
      emit-Tells f (publish r kind (apply r e f)) (record { at = r.at; kind = kind } ∷ []) refl

  on_joined-Tells : (n : Notice) (f : Feed) → Tells r f (on_joined r n f)
  unfolding on_joined
  on_joined-Tells n f =
      let e = record (change_of r member_joined n) { member = joined_member r n } in
      let kind =
        Kind.party_member_joined n.party_id n.account_id (joined_member r n).display_name
          n.revision in
      let captain = Kind.party_captain_changed n.party_id n.account_id n.revision in
      elim (Bool-cases (equal_fold (joined_member r n).role "CAPTAIN")) [
        | inl b ↦ rw b (
            emit-Tells f (publish r captain (publish r kind (apply r e f)))
              (record { at = r.at; kind = kind } ∷ record { at = r.at; kind = captain } ∷ [])
              (append_assoc f.events _ _))
        | inr b ↦ rw b (published-Tells f e kind)
      ]

  on_state_updated-Tells : (n : Notice) (f : Feed) → Tells r f (on_state_updated r n f)
  unfolding on_state_updated
  on_state_updated-Tells n f =
      published-Tells f
        (record (change_of r member_updated n) {
          member =
              updated_member r n
                (get_or (existing_member (snapshot f.state) n.account_id) zero_member);
          member_meta_removed = to_string_slice r (entry r n "member_state_removed");
        })
        (Kind.party_member_updated n.party_id n.account_id n.revision
          (map_keys (normalize_any r (entry r n "member_state_updated"))))

  on_left-Tells : (n : Notice) (f : Feed) → Tells r f (on_left r n f)
  unfolding on_left
  on_left-Tells n f =
      published-Tells f (record (change_of r member_left n) { member_id = n.account_id })
        (Kind.party_member_left n.party_id n.account_id n.revision n.type)

  on_kicked-Tells : (n : Notice) (f : Feed) → Tells r f (on_kicked r n f)
  unfolding on_kicked
  on_kicked-Tells n f =
      published-Tells f (record (change_of r member_kicked n) { member_id = n.account_id })
        (Kind.party_member_kicked n.party_id n.account_id (as_string r (entry r n "kicked_by"))
          n.revision)

  on_new_captain-Tells : (n : Notice) (f : Feed) → Tells r f (on_new_captain r n f)
  unfolding on_new_captain
  on_new_captain-Tells n f =
      published-Tells f
        (record (change_of r EventKind.party_updated n) { captain_id = n.account_id })
        (Kind.party_captain_changed n.party_id n.account_id n.revision)

  on_party_updated-Tells : (n : Notice) (f : Feed) → Tells r f (on_party_updated r n f)
  unfolding on_party_updated
  on_party_updated-Tells n f =
      emit-Tells f (apply r (party_updated_event r n) f) [] (sym (append-nil f.events))

  if-Answers :
      (f : Feed) (b : Bool) (g h : Feed)
      → Answers f g
      → Answers f h
      → Answers f (if b then g else h)
  if-Answers f true g h k l = k
  if-Answers f false g h k l = l

  on_notice-Answers : (n : Notice) (f : Feed) → Answers f (on_notice r n f)
  unfolding on_notice
  on_notice-Answers n f = if-Answers f (is_type n "MEMBER_JOINED") _ _ (inr (on_joined-Tells n f)) (
      if-Answers f (is_type n "MEMBER_STATE_UPDATED") _ _ (inr (on_state_updated-Tells n f)) (
        if-Answers f
          (is_type n "MEMBER_LEFT" || is_type n "MEMBER_EXPIRED" || is_type n "MEMBER_DISCONNECTED")
          _ _ (inr (on_left-Tells n f))
          (if-Answers f (is_type n "MEMBER_KICKED") _ _ (inr (on_kicked-Tells n f)) (
            if-Answers f (is_type n "MEMBER_NEW_CAPTAIN") _ _ (inr (on_new_captain-Tells n f)) (
              if-Answers f (is_type n "PARTY_UPDATED") _ _ (inr (on_party_updated-Tells n f)) (
                if-Answers f (is_type n "PING") _ _ (inl refl) (
                  if-Answers f (is_type n "INITIAL_INTENTION") _ _ (inl refl) (
                    if-Answers f (is_type n "MEMBER_REQUIRE_CONFIRMATION") _ _ (inl refl)
                      (inl refl)))))))))

  -- the raw notification
  abbrev pub raw_event : Stanza → Notice → Event
  raw_event stanza n = record {
    at = r.at;
    kind = Kind.party_raw_notification n.type n.party_id (clone_any_map r n.payload) stanza.raw;
  }

  -- the state as it was, or told and then the raw notification, and nothing after that
  abbrev pub Reports : Stanza → Feed → Feed → Type 0
  Reports stanza f g =
      (g.state ≡ f.state)
      ⊎ ((n : Notice) × (l : List Event) × (decode_notice r stanza.body ≡ some n)
          × (g.events ≡ told r g.state (f.events ++ l) ++ (raw_event stanza n ∷ [])))

  raw-Reports :
      (stanza : Stanza) (n : Notice) (f g : Feed)
      → decode_notice r stanza.body ≡ some n
      → Answers f g
      → Reports stanza f (record g { events = g.events ++ (raw_event stanza n ∷ []) })
  raw-Reports stanza n f g q (inl h) = inl h
  raw-Reports stanza n f g q (inr (l, h)) =
      inr (n, l, q, ap (λ es. es ++ (raw_event stanza n ∷ [])) h)

  notice-Reports :
      (stanza : Stanza) (o : Option Notice) (f : Feed)
      → decode_notice r stanza.body ≡ o
      → Reports stanza f (handle_notice r stanza.raw o f)
  unfolding handle_notice
  notice-Reports stanza none f q = inl refl
  notice-Reports stanza (some n) f q =
      raw-Reports stanza n f (on_notice r n f) q (on_notice-Answers n f)

  -- A message leaves the party state as it was, or the events end in the one that shows the new
  -- party, if that has an id, and the raw notification; the events from before are still first.
  pub handle_message-Reports :
      (stanza : Stanza) (f : Feed) → Reports stanza f (handle_message r stanza f)
  unfolding handle_message
  handle_message-Reports stanza f = notice-Reports stanza (decode_notice r stanza.body) f refl
