-- ===== src/Events/Predicates/Laws.antt =====
-- events/predicates.go: how the predicates relate.
use fngo.Prelude.{
  ℕ, String, Bool, true, ◌==◌, string_eq, nat_eq, ◌&&◌, List, [], ◌∷◌, Option, none, some, ◌≡◌,
  refl, arith, eq_iff, Bool-cases, inl, inr, ◌≢◌,
}
use fngo.Events.{Kind, Event, PartyUpdated}
use fngo.Events.Bus.{Predicate}
use fngo.Events.Predicates.{
  any_or, party_updated_for_id, party_playlist_equals, party_custom_key_equals, any_of, on_update,
}

-- some predicate that is there accepts the event
pub data Accepts (evt : Event) : List (Option Predicate) → Type 0 where
  here : (p : Predicate) (ps : List (Option Predicate)) → p evt ≡ true → Accepts evt (some p ∷ ps)
  there :
      (o : Option Predicate) (ps : List (Option Predicate)) → Accepts evt ps → Accepts evt (o ∷ ps)

any_of-Accepts :
    (ps : List (Option Predicate)) (evt : Event) → any_of ps evt ≡ true → Accepts evt ps
unfolding any_of
any_of-Accepts [] evt h = absurd (cc)
any_of-Accepts (none ∷ ps) evt h = there none ps (any_of-Accepts ps evt h)
any_of-Accepts (some p ∷ ps) evt h = elim (Bool-cases (p evt)) [
  | inl b ↦ here p ps b
  | inr b ↦ there (some p) ps (any_of-Accepts ps evt (ground arith))
]

Accepts-any_of :
    (evt : Event) (ps : List (Option Predicate)) → Accepts evt ps → any_of ps evt ≡ true
unfolding any_of
Accepts-any_of evt _ (here p ps h) = rw h refl
Accepts-any_of evt _ (there none ps a) = Accepts-any_of evt ps a
Accepts-any_of evt _ (there (some p) ps a) = elim (Bool-cases (p evt)) [
  | inl b ↦ rw b refl
  | inr b ↦ rw b (Accepts-any_of evt ps a)
]

-- `Any` accepts an event exactly if one of its predicates that is not nil does.
pub any_of_iff :
    (ps : List (Option Predicate)) (evt : Event)
    → (any_of ps evt ≡ true → Accepts evt ps) × (Accepts evt ps → any_of ps evt ≡ true)
any_of_iff ps evt = (any_of-Accepts ps evt, Accepts-any_of evt ps)

update-implies :
    (k : Kind) (p q : PartyUpdated → Bool)
    → ((u : PartyUpdated) → p u ≡ true → q u ≡ true)
    → on_update p k ≡ true
    → on_update q k ≡ true
update-implies (Kind.party_updated u) p q f h = f u h
update-implies _ p q f h = absurd (cc)

for_id :
    (party_id : String) (b : Bool) (u : PartyUpdated)
    → party_id ≢ ""
    → (any_or party_id u.party_id && b) ≡ true
    → (u.party_id == party_id) ≡ true
for_id party_id b u n h = ground (arith, eq_iff party_id "", eq_iff u.party_id party_id)

-- An event that the playlist predicate or the custom-key predicate accepts for a party whose id is
-- not empty is accepted by the predicate for that party's updates.
pub playlist_or_key-for_id :
    (unicode_lower : ℕ → ℕ) (party_id text : String) (evt : Event)
    → party_id ≢ ""
    → any_of
        (some (party_playlist_equals unicode_lower party_id text)
          ∷ some (party_custom_key_equals party_id text)
          ∷ [])
        evt
      ≡ true
    → party_updated_for_id party_id evt ≡ true
unfolding any_of party_playlist_equals party_custom_key_equals party_updated_for_id
playlist_or_key-for_id u party_id text evt n h =
    elim (Bool-cases (party_playlist_equals u party_id text evt)) [
      | inl b ↦ update-implies evt.kind _ _ (λ v. for_id party_id _ v n) b
      | inr b ↦ elim (Bool-cases (party_custom_key_equals party_id text evt)) [
        | inl c ↦ update-implies evt.kind _ _ (λ v. for_id party_id _ v n) c
        | inr c ↦ absurd (cc)
      ]
    ]
