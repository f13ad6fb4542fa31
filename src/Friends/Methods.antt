-- ===== src/Friends/Methods.antt =====
-- friends/commands.go: the methods of `Commands`.
use fngo.Prelude.{
  ◌+◌, ◌==◌, string_eq, String, Option, none, some, List, [], ◌∷◌, ◌++◌, text_append, if◌then◌else◌,
}
use fngo.GoTime.{Time}
use fngo.Friends.Summary.{SummaryEntry, SummaryResponse, decode_summary}
use fngo.Friends.{
  Friend, FriendRequest, Error, decode_error, invalid, context_error, BulkRemoveResult, Env,
  Commands, Result, ok, err, M, trim, pure, raise, ◌>>=◌, ◌>>◌, request_no_body, validate_config,
  accepted,
}

abbrev zero_summary : SummaryResponse
zero_summary = record { friends = []; incoming = []; outgoing = [] }

-- result, nil or result, err
abbrev pub Bulk : Type 0 → Type 0
Bulk W = (BulkRemoveResult × Option Error) × W

-- one friend more, with the answer to its removal
abbrev pub count : String → Result (Unit {0}) → BulkRemoveResult → BulkRemoveResult
count id (ok _) r = record r { attempted = r.attempted + 1; removed = r.removed + 1 }
count id (err e) r = record r {
  attempted = r.attempted + 1;
  failed = r.failed ++ (record { account_id = id; error = e } ∷ []);
}

abbrev pub zero_result : BulkRemoveResult
zero_result = record { attempted = 0; removed = 0; failed = [] }

module _ {W : Type 0} where
  abbrev required : String → M W Unit
  required id =
      if id == "" then raise (invalid "friends: target account id is required") else pure tt

  unfoldable pub add_friend : Commands W → String → M W Unit
  unfolding trim request_no_body validate_config accepted
  add_friend c target = do
    env ← validate_config c
    required (trim target)
    resp ← request_no_body c env "POST" (
        text_append "/friends/api/public/friends/"
          (text_append c.cfg.account_id (text_append "/" (trim target))))
    accepted c resp

  unfoldable pub remove_friend : Commands W → String → M W Unit
  unfolding trim request_no_body validate_config accepted
  remove_friend c target = do
    env ← validate_config c
    required (trim target)
    resp ← request_no_body c env "DELETE" (
        text_append "/friends/api/v1/"
          (text_append c.cfg.account_id (text_append "/friends/" (trim target))))
    accepted c resp

  abbrev or_decode_error : Option SummaryResponse → M W SummaryResponse
  or_decode_error none = raise decode_error
  or_decode_error (some s) = pure s

  -- the summary, and the client, which is there if there is a summary
  unfoldable pub fetch_summary : Commands W → M W (Env W × SummaryResponse)
  unfolding request_no_body validate_config accepted decode_summary
  fetch_summary c = do
    env ← validate_config c
    resp ←
        request_no_body c env "GET"
          (text_append "/friends/api/v1/" (text_append c.cfg.account_id "/summary"))
    accepted c resp
    s ←
        if resp.body == ""
        then pure zero_summary
        else or_decode_error (decode_summary c.codec (c.codec.unmarshal resp.body))
    pure (env, s)

  unfoldable pub parse_created_at : Env W → String → Option Time
  unfolding trim
  parse_created_at env raw = if trim raw == "" then none else env.parse_layouts (trim raw)

  unfoldable pub friends_of : Env W → List SummaryEntry → List Friend
  unfolding trim parse_created_at
  friends_of env [] = []
  friends_of env (e ∷ es) =
      record {
        account_id = trim e.account_id;
        display_name = trim e.display_name;
        created_at = parse_created_at env e.created;
      }
      ∷ friends_of env es

  requests_of : Env W → List SummaryEntry → List FriendRequest
  unfolding trim parse_created_at
  requests_of env [] = []
  requests_of env (e ∷ es) =
      record {
        account_id = trim e.account_id;
        display_name = trim e.display_name;
        created_at = parse_created_at env e.created;
      }
      ∷ requests_of env es

  unfoldable pub list_friends : Commands W → M W (List Friend)
  unfolding fetch_summary friends_of
  list_friends c = do r ← fetch_summary c; pure (friends_of r.0 r.1.friends)

  unfoldable pub list_incoming_friend_requests : Commands W → M W (List FriendRequest)
  unfolding fetch_summary requests_of
  list_incoming_friend_requests c = do r ← fetch_summary c; pure (requests_of r.0 r.1.incoming)

  unfoldable pub list_outgoing_friend_requests : Commands W → M W (List FriendRequest)
  unfolding fetch_summary requests_of
  list_outgoing_friend_requests c = do r ← fetch_summary c; pure (requests_of r.0 r.1.outgoing)

  cancel_outgoing_friend_request : Commands W → String → M W Unit
  unfolding remove_friend
  cancel_outgoing_friend_request c id = remove_friend c id

  decline_incoming_friend_request : Commands W → String → M W Unit
  unfolding remove_friend
  decline_incoming_friend_request c id = remove_friend c id

  -- ctx.Err() before each pass of the loop
  abbrev pub unless_done : Option String → BulkRemoveResult × W → Bulk W → Bulk W
  unless_done none r next = next
  unless_done (some m) (r, w) next = ((r, some (context_error m)), w)

  unfoldable pub remove_each :
      Commands W → (W → Option String) → List Friend → BulkRemoveResult → W → Bulk W
  unfolding remove_friend trim
  remove_each c done [] r w = ((r, none), w)
  remove_each c done (friend ∷ l) r w =
      let id = trim friend.account_id in
      let answer = remove_friend c id w in
      let skipped = remove_each c done l r w in
      let rest = remove_each c done l (count id answer.0 r) answer.1 in
      unless_done (done w) (r, w) (if id == "" then skipped else rest)

  abbrev pub context_of : Option (Env W) → W → Option String
  context_of none w = none
  context_of (some env) w = env.context_error w

  unfoldable pub remove_listed : Commands W → Result (List Friend) × W → Bulk W
  unfolding remove_each
  remove_listed c (err e, w) = ((zero_result, some e), w)
  remove_listed c (ok l, w) = remove_each c (context_of c.env) l zero_result w

  unfoldable pub remove_all_friends : Commands W → W → Bulk W
  unfolding list_friends remove_listed
  remove_all_friends c w = remove_listed c (list_friends c w)
