-- ===== src/Party/Patch/Kept.antt =====
-- party/patch_builder.go: a patch changes only what the intent is about, and only what differs.
use fngo.Prelude.{
  ◌==◌, string_eq, eq_iff, String, ◌≡◌, ◌≢◌, refl, Bool, true, false, Bool-cases, inl, inr, Option,
  none, some, List, [], ◌∷◌, get_or, is_some, if◌then◌else◌, arith, All,
}
use mathlib.Core.Path.{subst}
use fngo.GoMap
use fngo.GoMap.{GoMap, contains}
use fngo.GoTime.{Time}
use fngo.GoStrings.{trim_space}
use fngo.Json
use fngo.Json.{Json, Fields, end, field, Codec}
use fngo.Party.Types.{Loadout, Party, zero_member}
use fngo.Party.Codec.{serialize_meta_value}
use fngo.Party.Templates.Merging.{get-put}
use fngo.Party.Patch.{
  PlaylistRequest, PatchIntent, PatchBuilder, Draft, touch_key, set_party, set_member,
  edit_custom_key, edit_ready, edit_playlist, edit_loadout, edit_outfit, edit_clear_emote,
  edit_emote, edit_all, add_update, updates_of, start_draft, build_intents, normalize_outfit_id,
}

-- the key of the party's metadata that a part of the intent is about
pub data PartyKey (intent : PatchIntent) : String → Type 0 where
  custom : is_some intent.custom_key ≡ true → PartyKey intent "Default:CustomMatchKey_s"
  fill : is_some intent.playlist ≡ true → PartyKey intent "Default:AthenaSquadFill_b"
  region : is_some intent.playlist ≡ true → PartyKey intent "Default:RegionId_s"
  island : is_some intent.playlist ≡ true → PartyKey intent "Default:SelectedIsland_j"

-- the same for the member's metadata
pub data MemberKey (intent : PatchIntent) : String → Type 0 where
  lobby : is_some intent.ready ≡ true → MemberKey intent "Default:LobbyState_j"
  matchmaking : is_some intent.playlist ≡ true → MemberKey intent "Default:MatchmakingInfo_j"
  dress : is_some intent.loadout ≡ true → MemberKey intent "Default:AthenaCosmeticLoadout_j"
  outfit : is_some intent.outfit_id ≡ true → MemberKey intent "Default:AthenaCosmeticLoadout_j"
  outfit_data : is_some intent.outfit_id ≡ true → MemberKey intent "Default:MpLoadout_j"
  dress_emote : is_some intent.loadout ≡ true → MemberKey intent "Default:FrontendEmote_j"
  no_emote : intent.clear_emote ≡ true → MemberKey intent "Default:FrontendEmote_j"
  emote : is_some intent.emote_id ≡ true → MemberKey intent "Default:FrontendEmote_j"

touch_key-All :
    (P : String → Type 0) (keys : List String) (key : String)
    → P key
    → All P keys
    → All P (touch_key keys key)
touch_key-All P keys key p h = elim (Bool-cases (contains keys key)) [
  | inl b ↦ rw b h
  | inr b ↦ rw b (p, h)
]

All-contains :
    (P : String → Type 0) (keys : List String) (k : String)
    → All P keys
    → contains keys k ≡ true
    → P k
unfolding contains
All-contains P [] k h c = absurd (cc)
All-contains P (key ∷ keys) k h c = elim (Bool-cases (key == k)) [
  | inl b ↦ subst P ((eq_iff key k).0 b) h.0
  | inr b ↦ All-contains P keys k h.1 (ground arith)
]

-- `P` of the keys of the party and `Q` of those of the member that a draft has touched
pub record Touches (P Q : String → Type 0) (d : Draft) : Type 0 where
  pub party : All P d.touched_party
  pub member : All Q d.touched_member

-- what a key of a patch has: a text that differs from the snapshot's, at a touched key
pub record IsChange (c : Codec) (meta : GoMap String String) (P : String → Type 0) (k : String)
    (v : Json) : Type 0 where
  pub touched : P k
  pub differs : serialize_meta_value c k v ≢ get_or (GoMap.get meta k) ""

add_update-IsChange :
    (c : Codec) (meta : GoMap String String) (P : String → Type 0) (key k : String)
    (o : Option Json) (updates : Fields) (v : Json)
    → P key
    → (Json.get updates k ≡ some v → IsChange c meta P k v)
    → Json.get (add_update c meta key o updates) k ≡ some v
    → IsChange c meta P k v
add_update-IsChange c meta P key k none updates v p ih h = ih h
add_update-IsChange c meta P key k (some w) updates v p ih h =
    elim (Bool-cases (get_or (GoMap.get meta key) "" == serialize_meta_value c key w)) [
      | inl b ↦ ih (rw b at h)
      | inr b ↦ elim (Bool-cases (key == k)) [
        | inl e ↦
            let same : key ≡ k = (eq_iff key k).0 e in
            let value : w ≡ v = ground (arith, get-put updates key k w) in
            record {
              touched = subst P same p;
              differs = λ q.
                  ground
                    (arith, eq_iff (get_or (GoMap.get meta key) "") (serialize_meta_value c key w));
            }
        | inr e ↦ ih (ground (arith, get-put updates key k w))
      ]
    ]

updates_of-IsChange :
    (c : Codec) (meta : GoMap String String) (P : String → Type 0) (baseline : Fields)
    (keys : List String) (k : String) (v : Json)
    → All P keys
    → Json.get (updates_of c meta baseline keys) k ≡ some v
    → IsChange c meta P k v
unfolding updates_of Json.get
updates_of-IsChange c meta P baseline [] k v a h = absurd (cc)
updates_of-IsChange c meta P baseline (key ∷ keys) k v a h =
    add_update-IsChange c meta P key k (Json.get baseline key) (updates_of c meta baseline keys) v
      a.0 (updates_of-IsChange c meta P baseline keys k v a.1) h

module _ (P Q : String → Type 0) where
  set_party-Touches :
      (k : String) (v : Json) (d : Draft) → P k → Touches P Q d → Touches P Q (set_party k v d)
  unfolding set_party
  set_party-Touches k v d p t = record {
    party = touch_key-All P d.touched_party k p t.party;
    member = t.member;
  }

  set_member-Touches :
      (k : String) (v : Json) (d : Draft) → Q k → Touches P Q d → Touches P Q (set_member k v d)
  unfolding set_member
  set_member-Touches k v d p t = record {
    party = t.party;
    member = touch_key-All Q d.touched_member k p t.member;
  }

  choose-Touches :
      (b : Bool) (d e : Draft) → Touches P Q d → Touches P Q e → Touches P Q (if b then d else e)
  choose-Touches true d e t u = t
  choose-Touches false d e t u = u

module _ (c : Codec) (intent : PatchIntent) where
  abbrev Fits : Draft → Type 0
  Fits d = Touches (PartyKey intent) (MemberKey intent) d

  custom_key-Fits :
      (o : Option String) (d : Draft)
      → intent.custom_key ≡ o
      → Fits d
      → Fits (edit_custom_key c o d)
  unfolding edit_custom_key
  custom_key-Fits none d e t = t
  custom_key-Fits (some key) d e t = set_party-Touches _ _ _ _ d (custom (rw e refl)) t

  ready-Fits : (o : Option String) (d : Draft) → intent.ready ≡ o → Fits d → Fits (edit_ready c o d)
  unfolding edit_ready
  ready-Fits none d e t = t
  ready-Fits (some state) d e t = set_member-Touches _ _ _ _ d (lobby (rw e refl)) t

  playlist-Fits :
      (lower : String → String) (at : Time) (o : Option PlaylistRequest) (d : Draft)
      → intent.playlist ≡ o
      → Fits d
      → Fits (edit_playlist c lower at o d)
  unfolding edit_playlist
  playlist-Fits lower at none d e t = t
  playlist-Fits lower at (some req) d e t =
      let p : is_some intent.playlist ≡ true = rw e refl in
      set_party-Touches _ _ _ _ _ (island p) (
        choose-Touches _ _ (req.region == "") _ _
          (set_party-Touches _ _ _ _ _ (fill p) (set_member-Touches _ _ _ _ d (matchmaking p) t))
          (set_party-Touches _ _ _ _ _ (region p) (
            set_party-Touches _ _ _ _ _ (fill p) (set_member-Touches _ _ _ _ d (matchmaking p) t))))

  loadout-Fits :
      (o : Option Loadout) (d : Draft) → intent.loadout ≡ o → Fits d → Fits (edit_loadout c o d)
  unfolding edit_loadout
  loadout-Fits none d e t = t
  loadout-Fits (some l) d e t =
      let p : is_some intent.loadout ≡ true = rw e refl in
      let dressed = set_member-Touches _ _ _ _ d (dress p) t in
      choose-Touches _ _ (l.emote == "") _ _ dressed
        (set_member-Touches _ _ _ _ _ (dress_emote p) dressed)

  outfit-Fits :
      (o : Option String) (d : Draft) → intent.outfit_id ≡ o → Fits d → Fits (edit_outfit c o d)
  unfolding edit_outfit
  outfit-Fits none d e t = t
  outfit-Fits (some id) d e t =
      let p : is_some intent.outfit_id ≡ true = rw e refl in
      choose-Touches _ _ (normalize_outfit_id id == "") _ _ t
        (set_member-Touches _ _ _ _ _ (outfit_data p) (set_member-Touches _ _ _ _ d (outfit p) t))

  clear-Fits :
      (b : Bool) (d : Draft) → intent.clear_emote ≡ b → Fits d → Fits (edit_clear_emote c b d)
  unfolding edit_clear_emote
  clear-Fits true d e t = set_member-Touches _ _ _ _ d (no_emote e) t
  clear-Fits false d e t = t

  emote-Fits :
      (o : Option String) (d : Draft) → intent.emote_id ≡ o → Fits d → Fits (edit_emote c o d)
  unfolding edit_emote
  emote-Fits none d e t = t
  emote-Fits (some id) d e t =
      choose-Touches _ _ (trim_space id == "") _ _ t
        (set_member-Touches _ _ _ _ d (emote (rw e refl)) t)

  edit_all-Fits :
      (lower : String → String) (at : Time) (d : Draft)
      → Fits d
      → Fits (edit_all c lower at intent d)
  unfolding edit_all
  edit_all-Fits lower at d t = emote-Fits _ _ refl (
      clear-Fits _ _ refl (
        outfit-Fits _ _ refl (
          loadout-Fits _ _ refl
            (playlist-Fits lower at _ _ refl (ready-Fits _ _ refl (custom_key-Fits _ d refl t))))))

-- every update is such a change
pub record OnlyChanges (c : Codec) (meta : GoMap String String) (P : String → Type 0)
    (updates : Fields) : Type 0 where
  pub each : (k : String) (v : Json) → Json.get updates k ≡ some v → IsChange c meta P k v

-- Whatever the snapshot and the intent are, each update of a built patch is at a key that a part of
-- the intent is about, and its text differs from the one that the snapshot has there (a missing one
-- is empty): nothing else is sent, and nothing that the service has already.
pub build_intents-OnlyChanges :
    (c : Codec) (b : PatchBuilder) (snapshot : Party) (intent : PatchIntent) (at : Time)
    → OnlyChanges c snapshot.meta
        (PartyKey intent)
        (build_intents c b snapshot intent at).party_meta_updates
      × OnlyChanges c
          (get_or (GoMap.get snapshot.members b.account_id) zero_member).meta
          (MemberKey intent)
          (build_intents c b snapshot intent at).member_meta_updates
unfolding build_intents start_draft
build_intents-OnlyChanges c b snapshot intent at =
    let member = get_or (GoMap.get snapshot.members b.account_id) zero_member in
    let t =
      edit_all-Fits c intent b.to_lower_text at (start_draft c b snapshot member)
        (record { party = tt; member = tt }) in
    (
      record {
        each = λ k v. updates_of-IsChange c snapshot.meta (PartyKey intent) _ _ k v t.party;
      },
      record {
        each = λ k v. updates_of-IsChange c member.meta (MemberKey intent) _ _ k v t.member;
      },
    )
