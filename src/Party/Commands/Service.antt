-- ===== src/Party/Commands/Service.antt =====
-- party/commands.go: the requests to the party service and what their answers stand for.
use fngo.Prelude.{
  ◌==◌, nat_eq, string_eq, String, Bool, false, not, Option, none, some, List, [], ◌∷◌, leb, get_or,
  text_append, if◌then◌else◌,
}
use fngo.Prelude.Int.{pos}
use fngo.GoStrings.{trim_space, trim_right}
use fngo.Json.{
  Json, bool, num, str, arr, Items, nil, cons, Fields, end, Codec, struct_of, string_field,
}
use fngo.Transport.Types.{Response, Reply, value, failure}
use fngo.Party.Types.{Party}
use fngo.Party.Remote.{
  RemoteParty, decode_party, decode_current, decode_party_pointer, map_remote_party,
  is_user_has_party,
}
use fngo.Party.Effect.{
  Error, not_configured, invalid, api, http_error, decode_error, Result, ok, err, M, pure, raise,
  ◌>>=◌, ◌>>◌, replace,
}
use fngo.Party.Commands.{Env, Commands, object}

abbrev pub concat : List String → String
concat [] = ""
concat (s ∷ l) = text_append s (concat l)

-- the text fields of the error; one that is missing or of another type stays empty
abbrev text_of : Option String → String
text_of o = get_or o ""

texts_of : Items → List String
texts_of nil = []
texts_of (cons (str s) vs) = s ∷ texts_of vs
texts_of (cons v vs) = "" ∷ texts_of vs

vars_of : Option Json → List String
unfolding texts_of
vars_of (some (arr items)) = texts_of items
vars_of _ = []

unfoldable pub decode_api_error : Codec → Response → Error
unfolding vars_of
decode_api_error c resp =
    let fs = get_or (struct_of (c.unmarshal resp.body)) end in
    let message = text_of (string_field (c.member fs "errorMessage")) in
    api (record {
      status_code = resp.status_code;
      code = text_of (string_field (c.member fs "errorCode"));
      message = if message == "" then resp.body else message;
      message_vars = vars_of (c.member fs "messageVars");
    })

-- the first party of `current`, if there is one
abbrev pub first_party : List RemoteParty → Option RemoteParty
first_party [] = none
first_party (p ∷ _) = some p

-- `envelope.Current` of an answer; an empty body has none
unfoldable pub decode_current_body : Codec → String → Option (List RemoteParty)
decode_current_body c body =
    if body == ""
    then some []
    else elim (struct_of (c.unmarshal body)) [ none ↦ none | some fs ↦ decode_current c fs ]

-- a party that is there, and has an id
abbrev has_id : Option RemoteParty → Bool
has_id none = false
has_id (some p) = not (p.id == "")

unfoldable pub decode_direct : Codec → Option Json → Option RemoteParty
decode_direct c none = none
decode_direct c (some v) = decode_party c v

-- `decodeRemotePartyEnvelope` after its first attempt: the party, then the first of `current`
unfoldable pub decode_envelope : Codec → Fields → Result RemoteParty
decode_envelope c fs = elim (decode_current c fs) [
  | none ↦ err decode_error
  | some current ↦ elim (decode_party_pointer c (c.member fs "party")) [
    | none ↦ err decode_error
    | some party ↦ elim (if has_id party then party else first_party current) [
      | none ↦ err (invalid "party: create party response missing party payload")
      | some p ↦ ok p
    ]
  ]
]

unfoldable pub decode_remote_party_envelope : Codec → String → Result RemoteParty
unfolding decode_direct
decode_remote_party_envelope c body =
    if body == ""
    then err (invalid "party: empty create party response")
    else let direct = decode_direct c (c.unmarshal body) in
      elim (if has_id direct then direct else none) [
        | some p ↦ ok p
        | none ↦ elim (struct_of (c.unmarshal body)) [
          | none ↦ err decode_error
          | some fs ↦ decode_envelope c fs
        ]
      ]

module _ {W : Type 0} where
  abbrev pub received : Reply Response × W → M W Response
  received (value resp, w) s = (ok resp, record s { world = w })
  received (failure m, w) s = (err (http_error m), record s { world = w })

  -- requestNoBody and requestJSON
  unfoldable pub ask : Commands W → Env W → String → String → Option Json → M W Response
  ask c env method path body s =
      let base = trim_right (λ x. x == b'/') c.cfg.base_url in
      received
        (env.request (record { method = method; url = text_append base path; body = body }) s.world)
        s

  abbrev pub configured : Commands W → Option (Env W) → M W (Env W)
  configured c none = raise not_configured
  configured c (some env) = if c.cfg.account_id == "" then raise not_configured else pure env

  -- validateConfig: the client, if the commands are configured
  unfoldable pub validate_config : Commands W → M W (Env W)
  validate_config c = configured c c.env

  -- if resp.StatusCode >= 300 { return decodeAPIError(resp) }
  unfoldable pub accepted : Commands W → Response → M W Unit
  accepted c resp =
      if leb 300 resp.status_code then raise (decode_api_error c.codec resp) else pure tt

  -- mapRemoteParty, with the time of the moment
  unfoldable pub mapped : Commands W → Env W → RemoteParty → M W Party
  mapped c env rp s = (ok (map_remote_party c.codec env.parse_time (env.now s.world) rp), s)

  abbrev pub or_raise : {A : Type 0} → Error → Option A → M W A
  or_raise e none = raise e
  or_raise e (some a) = pure a

  abbrev pub of_result : {A : Type 0} → Result A → M W A
  of_result (ok a) = pure a
  of_result (err e) = raise e

  abbrev pub map_first : Commands W → Env W → Option RemoteParty → M W (Option Party)
  map_first c env none = pure none
  map_first c env (some rp) = do p ← mapped c env rp; pure (some p)

  unfoldable pub get_current_party : Commands W → Env W → String → M W (Option Party)
  get_current_party c env account_id = do
    resp ← ask c env "GET" (text_append "/user/" account_id) none
    accepted c resp
    current ← or_raise decode_error (decode_current_body c.codec resp.body)
    map_first c env (first_party current)

  unfoldable pub get_party : Commands W → Env W → String → M W Party
  unfolding decode_direct
  get_party c env id = do
    resp ← ask c env "GET" (text_append "/parties/" id) none
    accepted c resp
    rp ← or_raise decode_error (decode_direct c.codec (c.codec.unmarshal resp.body))
    mapped c env rp

  -- refreshPartyState
  unfoldable pub refresh_party_state : Commands W → Env W → String → M W Party
  refresh_party_state c env id = do party ← get_party c env id; replace party; pure party

  account_jid : Commands W → String
  account_jid c = text_append c.cfg.account_id "@prod.ol.epicgames.com"

  connection_payload : Commands W → String → Json
  connection_payload c id = object (
      ("id", str id)
      ∷ (
        "meta",
        object (
            ("urn:epic:conn:platform_s", str c.cfg.platform)
            ∷ ("urn:epic:conn:type_s", str "game")
            ∷ []),
      )
      ∷ ("yield_leadership", bool false)
      ∷ [])

  member_payload : Commands W → Json
  member_payload c = object (("urn:epic:member:dn_s", str c.cfg.display_name) ∷ [])

  unfoldable pub create_payload : Commands W → Json
  unfolding account_jid connection_payload member_payload
  create_payload c =
      let id = if c.cfg.connection_id == "" then account_jid c else c.cfg.connection_id in
      object (
        (
          "config",
          object (
              ("join_confirmation", bool false)
              ∷ ("joinability", str "OPEN")
              ∷ ("max_size", num (pos 16))
              ∷ []),
        )
        ∷ (
          "join_info",
          object (("connection", connection_payload c id) ∷ ("meta", member_payload c) ∷ []),
        )
        ∷ (
          "meta",
          object (
              ("urn:epic:cfg:party-type-id_s", str "default")
              ∷ ("urn:epic:cfg:build-id_s", str c.cfg.build_id)
              ∷ ("urn:epic:cfg:join-request-action_s", str "Manual")
              ∷ ("urn:epic:cfg:chat-enabled_b", str "true")
              ∷ ("urn:epic:cfg:can-join_b", str "true")
              ∷ []),
        )
        ∷ [])

  -- c.connectionID()
  unfoldable pub connection_id : Commands W → String
  unfolding account_jid
  connection_id c =
      if not (trim_space c.cfg.connection_id == "")
      then c.cfg.connection_id
      else if trim_space c.cfg.account_id == ""
      then ""
      else account_jid c

  unfoldable pub join_payload : Commands W → Json
  unfolding connection_payload member_payload
  join_payload c =
      object
        (("connection", connection_payload c (connection_id c)) ∷ ("meta", member_payload c) ∷ [])

  -- a refused creation: the current party if the service says that there is one
  unfoldable pub recover_created : Commands W → Env W → Response → M W Party
  recover_created c env resp =
      if is_user_has_party c.codec resp
      then (do
        current ← get_current_party c env c.cfg.account_id
        or_raise (decode_api_error c.codec resp) current)
      else raise (decode_api_error c.codec resp)

  -- what the answer to the creation stands for
  unfoldable pub created_party : Commands W → Env W → Response → M W Party
  unfolding recover_created
  created_party c env resp =
      if leb 300 resp.status_code
      then recover_created c env resp
      else (of_result (decode_remote_party_envelope c.codec resp.body) >>= mapped c env)

  unfoldable pub create_party_locked : Commands W → M W Party
  unfolding created_party create_payload
  create_party_locked c = do
    env ← validate_config c
    resp ← ask c env "POST" "/parties" (some (create_payload c))
    created_party c env resp
