-- ===== src/Party/Patch/Shown.antt =====
-- party/patch_builder.go: what an intent asks for stands in the patch.
use fngo.Prelude.{
  ◌==◌, string_eq, eq_iff, String, ◌≡◌, refl, ap, sym, ◌∙◌, Bool, true, false, Bool-cases, inl, inr,
  ◌⊎◌, ◌⊎◌, Option, none, some, List, [], ◌∷◌, get_or, if◌then◌else◌, arith,
}
use fngo.Prelude.Int.{negsuc}
use fngo.GoMap
use fngo.GoMap.{GoMap}
use fngo.GoTime.{Time}
use fngo.GoStrings.{trim_space}
use fngo.Json
use fngo.Json.{Json, obj, str, num, Fields, end, field, Codec}
use fngo.Party.Types.{Loadout, Party, zero_member, ready_state_ready}
use fngo.Party.Codec.{serialize_meta_value}
use fngo.Party.Templates.{get_at}
use fngo.Party.Templates.Merging.{get-put, step_at, get_at-step}
use fngo.Party.Patch.{
  PlaylistRequest, PatchIntent, PatchBuilder, Draft, set_party, set_member, edit_custom_key,
  edit_ready, edit_playlist, edit_loadout, edit_outfit, edit_clear_emote, edit_emote, edit_all,
  add_update, updates_of, start_draft, build_intents, normalize_outfit_id, edit_root, inner_map,
  build_emote_path,
}

-- the member's baseline has this at the key
record MemberHas (j : String) (o : Option Json) (d : Draft) : Type 0 where
  here : Json.get d.member j ≡ o

set_member-MemberHas :
    (k j : String) (v : Json) (o : Option Json) (d : Draft)
    → (k == j) ≡ false
    → MemberHas j o d
    → MemberHas j o (set_member k v d)
unfolding set_member
set_member-MemberHas k j v o d n h = record { here = get-put d.member k j v ∙ rw n h.here }

set_party-MemberHas :
    (k j : String) (v : Json) (o : Option Json) (d : Draft)
    → MemberHas j o d
    → MemberHas j o (set_party k v d)
unfolding set_party
set_party-MemberHas k j v o d h = record { here = h.here }

either : (P : Draft → Type 0) (b : Bool) (d e : Draft) → P d → P e → P (if b then d else e)
either P true d e p q = p
either P false d e p q = q

-- the value that a patch has at a key is the baseline's
add_update-get :
    (c : Codec) (meta : GoMap String String) (key k : String) (o : Option Json) (updates : Fields)
    (v : Json)
    → Json.get (add_update c meta key o updates) k ≡ some v
    → (Json.get updates k ≡ some v) ⊎ ((key ≡ k) × (o ≡ some v))
add_update-get c meta key k none updates v h = inl h
add_update-get c meta key k (some w) updates v h =
    elim (Bool-cases (get_or (GoMap.get meta key) "" == serialize_meta_value c key w)) [
      | inl b ↦ inl (rw b at h)
      | inr b ↦ elim (Bool-cases (key == k)) [
        | inl e ↦ inr ((eq_iff key k).0 e, ground (arith, get-put updates key k w))
        | inr e ↦ inl (ground (arith, get-put updates key k w))
      ]
    ]

updates_of-get :
    (c : Codec) (meta : GoMap String String) (baseline : Fields) (keys : List String) (k : String)
    (v : Json)
    → Json.get (updates_of c meta baseline keys) k ≡ some v
    → Json.get baseline k ≡ some v
unfolding updates_of Json.get
updates_of-get c meta baseline [] k v h = absurd (cc)
updates_of-get c meta baseline (key ∷ keys) k v h =
    elim (add_update-get c meta key k (Json.get baseline key) (updates_of c meta baseline keys) v
      h) [ inl e ↦ updates_of-get c meta baseline keys k v e | inr e ↦ rw e.0 at e.1 ]

module _ (c : Codec) where
  emote-MemberHas :
      (j : String) (v : Option Json) (o : Option String) (d : Draft)
      → ("Default:FrontendEmote_j" == j) ≡ false
      → MemberHas j v d
      → MemberHas j v (edit_emote c o d)
  unfolding edit_emote
  emote-MemberHas j v none d n h = h
  emote-MemberHas j v (some e) d n h =
      either (MemberHas j v) (trim_space e == "") _ _ h (set_member-MemberHas _ j _ v d n h)

  clear-MemberHas :
      (j : String) (v : Option Json) (o : Bool) (d : Draft)
      → ("Default:FrontendEmote_j" == j) ≡ false
      → MemberHas j v d
      → MemberHas j v (edit_clear_emote c o d)
  unfolding edit_clear_emote
  clear-MemberHas j v true d n h = set_member-MemberHas _ j _ v d n h
  clear-MemberHas j v false d n h = h

  outfit-MemberHas :
      (v : Option Json) (o : Option String) (d : Draft)
      → MemberHas "Default:LobbyState_j" v d
      → MemberHas "Default:LobbyState_j" v (edit_outfit c o d)
  unfolding edit_outfit
  outfit-MemberHas v none d h = h
  outfit-MemberHas v (some e) d h =
      either (MemberHas "Default:LobbyState_j" v) (normalize_outfit_id e == "") _ _ h
        (set_member-MemberHas _ _ _ v _ refl (set_member-MemberHas _ _ _ v d refl h))

  loadout-MemberHas :
      (v : Option Json) (o : Option Loadout) (d : Draft)
      → MemberHas "Default:LobbyState_j" v d
      → MemberHas "Default:LobbyState_j" v (edit_loadout c o d)
  unfolding edit_loadout
  loadout-MemberHas v none d h = h
  loadout-MemberHas v (some l) d h =
      let dressed = set_member-MemberHas _ _ _ v d refl h in
      either (MemberHas "Default:LobbyState_j" v) (l.emote == "") _ _ dressed
        (set_member-MemberHas _ _ _ v _ refl dressed)

  playlist-MemberHas :
      (lower : String → String) (at : Time) (v : Option Json) (o : Option PlaylistRequest)
      (d : Draft)
      → MemberHas "Default:LobbyState_j" v d
      → MemberHas "Default:LobbyState_j" v (edit_playlist c lower at o d)
  unfolding edit_playlist
  playlist-MemberHas lower at v none d h = h
  playlist-MemberHas lower at v (some req) d h =
      let filled = set_party-MemberHas _ _ _ v _ (set_member-MemberHas _ _ _ v d refl h) in
      set_party-MemberHas _ _ _ v _ (
        either (MemberHas "Default:LobbyState_j" v) (req.region == "") _ _ filled
          (set_party-MemberHas _ _ _ v _ filled))

  -- the field of an edited root, read back
  edit_root-reads :
      (m : Fields) (key root at : String) (edit : Fields → Fields) (v : Json)
      → Json.get (edit (inner_map c (inner_map c m key) root)) at ≡ some v
      → step_at (root ∷ at ∷ []) (some (edit_root c m key root edit)) ≡ some v
  unfolding edit_root get_at
  edit_root-reads m key root at edit v h =
      get_at-step root at [] _
      ∙ rw
          (
            get-put (inner_map c m key) root root
                (obj (edit (inner_map c (inner_map c m key) root))),
            (eq_iff root root).1 refl,
          )
          h

  abbrev ready_fields : String → Fields → Fields
  ready_fields state m =
      Json.put (Json.put m "gameReadiness" (str state)) "readyInputType"
        (str (if state == ready_state_ready then "MouseAndKeyboard" else "Count"))

  abbrev emote_fields : String → Fields → Fields
  emote_fields pickable m =
      Json.put (Json.put m "pickable" (str pickable)) "emoteSection" (num (negsuc 1))

  ready-reads :
      (state : String) (d : Draft)
      → step_at
          ("LobbyState" ∷ "gameReadiness" ∷ [])
          (Json.get (edit_ready c (some state) d).member "Default:LobbyState_j")
        ≡ some (str state)
  unfolding edit_ready set_member
  ready-reads state d =
      rw
        (get-put d.member "Default:LobbyState_j" "Default:LobbyState_j"
          (edit_root c d.member "Default:LobbyState_j" "LobbyState" (ready_fields state)))
        (edit_root-reads d.member "Default:LobbyState_j" "LobbyState" "gameReadiness"
          (ready_fields state) (str state) (rw (get-put, get-put) refl))

  emote-reads :
      (emote : String) (d : Draft)
      → (trim_space emote == "") ≡ false
      → step_at
          ("FrontendEmote" ∷ "pickable" ∷ [])
          (Json.get (edit_emote c (some emote) d).member "Default:FrontendEmote_j")
        ≡ some (str (build_emote_path (trim_space emote)))
  unfolding edit_emote set_member
  emote-reads emote d n =
      rw (n, get-put d.member "Default:FrontendEmote_j" "Default:FrontendEmote_j")
        (edit_root-reads d.member "Default:FrontendEmote_j" "FrontendEmote" "pickable"
          (emote_fields (build_emote_path (trim_space emote)))
          (str (build_emote_path (trim_space emote))) (rw (get-put, get-put) refl))

  lobby-edit_all :
      (lower : String → String) (at : Time) (intent : PatchIntent) (d : Draft)
      → Json.get (edit_all c lower at intent d).member "Default:LobbyState_j"
        ≡ Json.get
            (edit_ready c intent.ready (edit_custom_key c intent.custom_key d)).member
            "Default:LobbyState_j"
  unfolding edit_all
  lobby-edit_all lower at intent d =
      (emote-MemberHas "Default:LobbyState_j" _ intent.emote_id _ refl (
        clear-MemberHas "Default:LobbyState_j" _ intent.clear_emote _ refl (
          outfit-MemberHas _ intent.outfit_id _ (
            loadout-MemberHas _ intent.loadout _
              (playlist-MemberHas lower at _ intent.playlist _ (record { here = refl })))))).here

-- If the intent sets the ready state, an update of the member's lobby state, whatever else the intent
-- asks for, has that state as its readiness.
pub build_intents-ready :
    (c : Codec) (b : PatchBuilder) (snapshot : Party) (intent : PatchIntent) (at : Time)
    (state : String) (v : Json)
    → intent.ready ≡ some state
    → Json.get (build_intents c b snapshot intent at).member_meta_updates "Default:LobbyState_j"
      ≡ some v
    → step_at ("LobbyState" ∷ "gameReadiness" ∷ []) (some v) ≡ some (str state)
unfolding build_intents
build_intents-ready c b snapshot intent at state v e h =
    let start =
      start_draft c b snapshot (get_or (GoMap.get snapshot.members b.account_id) zero_member) in
    ap (step_at ("LobbyState" ∷ "gameReadiness" ∷ [])) (
      sym (updates_of-get c _ _ _ "Default:LobbyState_j" v h)
      ∙ lobby-edit_all c b.to_lower_text at intent start)
    ∙ rw e (ready-reads c state (edit_custom_key c intent.custom_key start))

-- If the intent names an emote that is not blank, an update of the member's emote, whatever else the
-- intent asks for, picks that emote's path.
pub build_intents-emote :
    (c : Codec) (b : PatchBuilder) (snapshot : Party) (intent : PatchIntent) (at : Time)
    (emote : String) (v : Json)
    → intent.emote_id ≡ some emote
    → (trim_space emote == "") ≡ false
    → Json.get (build_intents c b snapshot intent at).member_meta_updates "Default:FrontendEmote_j"
      ≡ some v
    → step_at ("FrontendEmote" ∷ "pickable" ∷ []) (some v)
      ≡ some (str (build_emote_path (trim_space emote)))
unfolding build_intents
build_intents-emote c b snapshot intent at emote v e n h =
    ap (step_at ("FrontendEmote" ∷ "pickable" ∷ []))
      (sym (updates_of-get c _ _ _ "Default:FrontendEmote_j" v h))
    ∙ unfold edit_all in rw e (emote-reads c emote _ n)
