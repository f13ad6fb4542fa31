-- ===== src/Party/Decoder/Stanzas.antt =====
-- party/xmpp_decoder.go: whatever stanza comes, the party state stays sound, the bus does not block,
-- and what changed is told.
use fngo.Prelude.{
  string_eq, String, ◌≡◌, refl, Option, none, some, [], ◌∷◌, List, inl, inr, true, false, ◌⊎◌,
  arith,
}
use fngo.Prelude.Int.{ℤ, ◌≤ℤ◌}
use fngo.Json.{Codec, Fields}
use fngo.Xmpp.{Stanza, StanzaKind}
use fngo.Events.{Event}
use fngo.Events.Bus.{Bus}
use fngo.Events.Bus.Invariant.{IsValid}
use fngo.Events.Bus.Removal.{Returns}
use fngo.Events.Bus.Safety.{emit-Returns}
use fngo.Party.Reducer.{State}
use fngo.Party.Reducer.Keys.{members_of, IsKeyed, apply_event-IsKeyed}
use fngo.Party.Reducer.Captain.{captain_ok, apply_event-captain}
use fngo.Party.Reducer.Revision.{revision_of, max_ℤ, apply_event-revision}
use fngo.Party.Reducer.Ready.{ShowsReady, apply_event-ShowsReady}
use fngo.Party.Decoder.{PresenceEnvelope, Reader, Feed, Notice}
use fngo.Party.Decoder.Handlers.{is_type}
use fngo.Party.Decoder.Dispatch.{
  decode_notice, handle_notice, handle_message, emit_presence, handle_envelope, decode_status,
  handle_presence, handle_iq, handle_kind, emit_all, dispatch_stanza,
}
use fngo.Party.Decoder.Shown.{Follows, on_notice-Follows}

-- each member is under its own account id and is as ready as its metadata shows
pub record IsSound (c : Codec) (st : State) : Type 0 where
  pub keyed : IsKeyed (members_of st)
  pub shown : ShowsReady c (members_of st)

module _ (r : Reader) where
  emit_presence-state :
      (from status : String) (o : Option Fields) (f : Feed)
      → (emit_presence r from status o f).state ≡ f.state
  emit_presence-state from status none f = refl
  emit_presence-state from status (some info) f = refl

  envelope-state :
      (o : Option PresenceEnvelope) (f : Feed) → (handle_envelope r o f).state ≡ f.state
  envelope-state none f = refl
  envelope-state (some e) f = emit_presence-state e.from _ (decode_status r _) f

  -- the state after a stanza: as before, or after the event of the notification in it
  abbrev Moves : Stanza → State → State → Type 0
  Moves stanza st t =
      (t ≡ st) ⊎ ((n : Notice) × (decode_notice r stanza.body ≡ some n) × Follows r n st t)

  notice-Moves :
      (stanza : Stanza) (o : Option Notice) (f : Feed)
      → decode_notice r stanza.body ≡ o
      → Moves stanza f.state (handle_notice r stanza.raw o f).state
  unfolding handle_notice
  notice-Moves stanza none f q = inl refl
  notice-Moves stanza (some n) f q = inr (n, q, on_notice-Follows r n f)

  kind-Moves :
      (k : StanzaKind) (stanza : Stanza) (f : Feed)
      → Moves stanza f.state (handle_kind r k stanza f).state
  unfolding handle_kind handle_message handle_presence handle_iq
  kind-Moves StanzaKind.message stanza f = notice-Moves stanza (decode_notice r stanza.body) f refl
  kind-Moves StanzaKind.presence stanza f = inl (envelope-state (r.presence stanza.raw) f)
  kind-Moves StanzaKind.iq stanza f = inl refl
  kind-Moves StanzaKind.raw stanza f = inl refl

  Moves-IsSound :
      (stanza : Stanza) (st t : State) → Moves stanza st t → IsSound r.codec st → IsSound r.codec t
  Moves-IsSound stanza st t (inl q) v = rw q v
  Moves-IsSound stanza st t (inr (n, _, inl q)) v = rw q v
  Moves-IsSound stanza st t (inr (n, _, inr (e, q, h))) v = rw q (record {
    keyed = apply_event-IsKeyed r.codec r.now e st v.keyed;
    shown = apply_event-ShowsReady r.codec r.now e st (h.fits v.keyed) v.shown;
  })

  Moves-captain :
      (stanza : Stanza) (st t : State)
      → Moves stanza st t
      → ((n : Notice)
          → decode_notice r stanza.body ≡ some n
          → is_type n "MEMBER_NEW_CAPTAIN" ≡ false)
      → captain_ok st ≡ true
      → captain_ok t ≡ true
  Moves-captain stanza st t (inl q) h v = rw q v
  Moves-captain stanza st t (inr (n, d, inl q)) h v = rw q v
  Moves-captain stanza st t (inr (n, d, inr (e, q, s))) h v =
      rw q (apply_event-captain r.codec r.now e st (s.no_captain (h n d)) v)

  max_above : (a b : ℤ) → a ≤ℤ max_ℤ a b
  max_above a b = ground arith

  Moves-revision :
      (stanza : Stanza) (st t : State) → Moves stanza st t → revision_of st ≤ℤ revision_of t
  Moves-revision stanza st t (inl q) = rw q (omega arith)
  Moves-revision stanza st t (inr (n, d, inl q)) = rw q (omega arith)
  Moves-revision stanza st t (inr (n, d, inr (e, q, s))) = rw q (
      rw (apply_event-revision r.codec r.now e st s.incremental)
        (max_above (revision_of st) e.revision))

emit_all-Returns : (l : List Event) (b : Bus) → IsValid b → Returns (emit_all l b) IsValid
unfolding emit_all
emit_all-Returns [] b v = (b, refl, v)
emit_all-Returns (e ∷ l) b v =
    let ((b', a), q, w) = emit-Returns e b v in
    let (b'', p, x) = emit_all-Returns l b' w in (b'', rw q p, x)

-- Whatever stanza comes, whatever the texts in it decode to and whatever the party state is: on a
-- valid bus, open or closed, the decoder's events neither panic nor block and leave it valid, and the
-- state that is left is the one of the handler.
pub dispatch_stanza-Returns :
    (r : Reader) (stanza : Stanza) (st : State) (b : Bus)
    → IsValid b
    → Returns (dispatch_stanza r stanza st b) (λ out.
      (out.0 ≡ (handle_kind r stanza.kind stanza (record { state = st; events = [] })).state)
      × IsValid out.1)
unfolding dispatch_stanza
dispatch_stanza-Returns r stanza st b v =
    let f = handle_kind r stanza.kind stanza (record { state = st; events = [] }) in
    let (b', q, w) = emit_all-Returns f.events b v in ((f.state, b'), rw q refl, (refl, w))

-- On a valid bus, and from a party state with each member under its own account id and as ready as its
-- metadata shows, any stanza is handled without a panic and without a wait, the bus stays valid, and
-- the members are again under their own account id and as ready as their metadata shows.
pub dispatch_stanza-safe :
    (r : Reader) (stanza : Stanza) (st : State) (b : Bus)
    → IsValid b
    → IsSound r.codec st
    → Returns (dispatch_stanza r stanza st b) (λ out. IsSound r.codec out.0 × IsValid out.1)
dispatch_stanza-safe r stanza st b v s =
    let start : Feed = record { state = st; events = [] } in
    let (out, q, (e, w)) = dispatch_stanza-Returns r stanza st b v in
    (out, q, (rw e (Moves-IsSound r stanza st _ (kind-Moves r stanza.kind stanza start) s), w))

-- No stanza, of any kind, takes the party's revision back, whatever the party state is.
pub handle_kind-revision :
    (r : Reader) (k : StanzaKind) (stanza : Stanza) (f : Feed)
    → revision_of f.state ≤ℤ revision_of (handle_kind r k stanza f).state
handle_kind-revision r k stanza f = Moves-revision r stanza f.state _ (kind-Moves r k stanza f)

-- A stanza that is no MEMBER_NEW_CAPTAIN notification leaves no captain behind who is no member, if
-- there was none before.
pub handle_kind-captain_ok :
    (r : Reader) (k : StanzaKind) (stanza : Stanza) (f : Feed)
    → ((n : Notice) → decode_notice r stanza.body ≡ some n → is_type n "MEMBER_NEW_CAPTAIN" ≡ false)
    → captain_ok f.state ≡ true
    → captain_ok (handle_kind r k stanza f).state ≡ true
handle_kind-captain_ok r k stanza f h v =
    Moves-captain r stanza f.state _ (kind-Moves r k stanza f) h v
