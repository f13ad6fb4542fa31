-- ===== src/Party/Commands/Promotion.antt =====
-- party/commands.go: promoting a member, joining by an invitation, and the identity.
use fngo.Prelude.{◌==◌, string_eq, String, Option, none, some, List, [], ◌∷◌, if◌then◌else◌, leb}
use fngo.GoStrings.{trim_space}
use fngo.Json.{Json, null, arr, Items, nil, cons, Codec, struct_of, string_field}
use fngo.Party.Types.{Party}
use fngo.Transport.Types.{Response}
use fngo.Party.Effect.{
  party_not_found, invite_not_found, decode_error, M, pure, raise, ◌>>=◌, ◌>>◌, snapshot, replace,
}
use fngo.Party.Commands.{Env, Commands}
use fngo.Party.Commands.Service.{
  concat, decode_api_error, ask, validate_config, accepted, or_raise, refresh_party_state,
}
use fngo.Party.Commands.Membership.{present}
use fngo.Party.Commands.Entering.{trim, map_promote_error, required, join_party_locked}

abbrev id_field : Codec → Json → Option String
id_field c v = elim (struct_of (some v)) [ none ↦ none | some fs ↦ string_field (c.member fs "id") ]

-- the ids of an array of objects, all of which must decode
ids_of : Codec → Items → Option (List String)
ids_of c nil = some []
ids_of c (cons v vs) =
    let rest = ids_of c vs in
    elim (id_field c v) [
      | none ↦ none
      | some id ↦ elim rest [ none ↦ none | some ids ↦ some (id ∷ ids) ]
    ]

unfoldable pub decode_ids : Codec → Option Json → Option (List String)
unfolding ids_of
decode_ids c (some (arr items)) = ids_of c items
decode_ids c (some null) = some []
decode_ids c _ = none

-- the first id of the list, if it is more than blanks
unfoldable pub first_id : List String → Option String
unfolding trim
first_id [] = none
first_id (id ∷ _) = if trim id == "" then none else some (trim id)

module _ {W : Type 0} where
  unfoldable pub join_party_invite_from : Commands W → String → M W String
  unfolding trim
  join_party_invite_from c pinger = do
    env ← validate_config c
    let from = trim pinger
    required "party: pinger account id is required" from
    resp ←
        ask c env "GET" (concat ("/user/" ∷ c.cfg.account_id ∷ "/pings/" ∷ from ∷ "/parties" ∷ []))
          none
    accepted c resp
    ids ← or_raise decode_error (decode_ids c.codec (c.codec.unmarshal resp.body))
    id ← or_raise invite_not_found (first_id ids)
    join_party_locked c id
    pure id

  abbrev pub accepted_promotion : Commands W → Env W → Response → M W Unit
  accepted_promotion c env resp =
      if leb 300 resp.status_code
      then raise (map_promote_error env.unicode_lower (decode_api_error c.codec resp))
      else pure tt

  -- a fetched party without a captain gets the promoted member
  unfoldable pub assume_captain : String → Party → M W Unit
  assume_captain account_id p =
      if p.captain_id == "" then replace (record p { captain_id = account_id }) else pure tt

  -- PromoteMember once there is a party; an empty `party_id` stands for the current one
  unfoldable pub promote_in : Commands W → Env W → String → String → Option Party → M W Unit
  unfolding assume_captain
  promote_in c env party_id account_id none = raise party_not_found
  promote_in c env party_id account_id (some current) = do
    let id = if party_id == "" then current.id else party_id
    resp ←
        ask c env "POST" (concat ("/parties/" ∷ id ∷ "/members/" ∷ account_id ∷ "/promote" ∷ []))
          none
    accepted_promotion c env resp
    p ← refresh_party_state c env id
    assume_captain account_id p

  unfoldable pub promote_member : Commands W → String → String → M W Unit
  unfolding promote_in
  promote_member c party_id account_id = do
    env ← validate_config c
    let id = trim_space account_id
    required "party: account id is required" id
    current ← snapshot
    promote_in c env (trim_space party_id) id (present current)

  unfoldable pub set_identity : Commands W → String → String → Commands W
  set_identity c account_id display_name = record c {
    cfg = record c.cfg {
      account_id = if account_id == "" then c.cfg.account_id else account_id;
      display_name = if display_name == "" then c.cfg.display_name else display_name;
    };
  }

  unfoldable pub set_connection_id : Commands W → String → Commands W
  set_connection_id c connection_id =
      let id = trim_space connection_id in
      if id == "" then c else record c { cfg = record c.cfg { connection_id = id } }
