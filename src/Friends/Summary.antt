-- ===== src/Friends/Summary.antt =====
-- friends/commands.go: the summary that the friends service answers.
use fngo.Prelude.{String, Option, some, List, [], ◌∷◌}
use fngo.Json.{Json, Items, nil, cons, Codec, struct_of, string_field, items_field, ◌>>=◌}

pub record SummaryEntry : Type 0 where
  pub account_id : String
  pub display_name : String
  pub created : String

pub record SummaryResponse : Type 0 where
  pub friends : List SummaryEntry
  pub incoming : List SummaryEntry
  pub outgoing : List SummaryEntry

module _ (c : Codec) where
  unfoldable pub decode_entry : Json → Option SummaryEntry
  decode_entry v = do
    fs ← struct_of (some v)
    id ← string_field (c.member fs "accountId")
    name ← string_field (c.member fs "displayName")
    created ← string_field (c.member fs "created")
    some (record { account_id = id; display_name = name; created = created })

  unfoldable pub decode_entries : Items → Option (List SummaryEntry)
  unfolding decode_entry
  decode_entries nil = some []
  decode_entries (cons v vs) = do e ← decode_entry v; es ← decode_entries vs; some (e ∷ es)

  unfoldable pub decode_summary : Option Json → Option SummaryResponse
  unfolding decode_entries
  decode_summary v = do
    fs ← struct_of v
    friends ← items_field (c.member fs "friends")
    friends ← decode_entries friends
    incoming ← items_field (c.member fs "incoming")
    incoming ← decode_entries incoming
    outgoing ← items_field (c.member fs "outgoing")
    outgoing ← decode_entries outgoing
    some (record { friends = friends; incoming = incoming; outgoing = outgoing })
