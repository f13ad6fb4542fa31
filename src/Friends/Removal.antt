-- ===== src/Friends/Removal.antt =====
-- friends/commands.go: which requests `RemoveAllFriends` makes, and what it reports of them.
use mathlib.Core.List.{append_assoc, append-nil}
use fngo.Prelude.{
  ℕ, ◌+◌, ◌==◌, string_eq, nat_eq, String, false, Option, none, some, List, [], ◌∷◌, ◌++◌, map, ◌≡◌,
  refl, sym, ap, ◌∙◌, arith, length, length-append, Bool-cases, inl, inr, ◌⊎◌, if◌then◌else◌,
  text_append, leb,
}
use fngo.GoStrings.{trim_right}
use fngo.Transport.Types.{Response, Reply, value, failure}
use fngo.Friends.Trimmed.{trim-filled}
use fngo.Friends.{
  Friend, context_error, BulkRemoveResult, Call, Env, Commands, Result, ok, err, trim, continue,
  received, request_no_body, configured, validate_config, accepted,
}
use fngo.Friends.Methods.{
  Bulk, count, zero_result, unless_done, remove_friend, remove_each, remove_listed, context_of,
  list_friends, remove_all_friends,
}

-- the world behind, with the requests made
pub record Asked (W : Type 0) : Type 0 where
  pub world : W
  pub calls : List Call

-- the ids of the listed friends that have one, without blanks around them
abbrev pub ids_of : List Friend → List String
ids_of [] = []
ids_of (friend ∷ l) =
    let rest = ids_of l in
    if trim friend.account_id == "" then rest else trim friend.account_id ∷ rest

-- every attempt is a removal or a failure
abbrev pub Adds : BulkRemoveResult → Type 0
Adds r = r.attempted ≡ r.removed + length r.failed

count-Adds :
    (id : String) (a : Result (Unit {0})) (r : BulkRemoveResult)
    → Adds r
    → Adds (count id a r) × ((count id a r).attempted ≡ r.attempted + 1)
count-Adds id (ok _) r h = (omega arith, refl)
count-Adds id (err e) r h =
    (omega (arith, length-append r.failed (record { account_id = id; error = e } ∷ [])), refl)

module _ {W : Type 0} where
  abbrev behind : {A : Type 0} → Asked W → A × W → A × Asked W
  behind t (a, w) = (a, record t { world = w })

  -- the same service, with a log of the requests
  abbrev pub asked : Env W → Env (Asked W)
  asked env = record {
    request =
        λ call t. behind (record t { calls = t.calls ++ (call ∷ []) }) (env.request call t.world);
    context_error = λ t. env.context_error t.world;
    parse_layouts = env.parse_layouts;
  }

  -- the request that removes one friend
  abbrev pub deletion : Commands (Asked W) → String → Call
  deletion c id = record {
    method = "DELETE";
    url = text_append (trim_right (λ x. x == b'/') c.cfg.base_url) (
        text_append "/friends/api/v1/"
          (text_append c.cfg.account_id (text_append "/friends/" (trim id))));
  }

  -- How the removal of `ids` ends that began with `t` and the count `n`: the requests made are the
  -- deletions of the ids tried, in their order, each of them counted; all were tried, or the context
  -- ended.
  pub record Ends (c : Commands (Asked W)) (ids : List String) (n : ℕ) (t : Asked W)
      (o : Bulk (Asked W)) : Type 0 where
    pub tried : List String
    pub left : List String
    pub split : ids ≡ tried ++ left
    pub requests : o.1.calls ≡ t.calls ++ map (deletion c) tried
    pub attempts : o.0.0.attempted ≡ n + length tried
    pub adds : Adds o.0.0
    pub all_or_ended :
        ((o.0.1 ≡ none) × (left ≡ [])) ⊎ ((m : String) × (o.0.1 ≡ some (context_error m)))

  -- the client is there, and the account is set
  pub record IsConfigured (c : Commands (Asked W)) (env : Env W) : Type 0 where
    pub client : c.env ≡ some (asked env)
    pub account : (trim c.cfg.account_id == "") ≡ false

  answered-calls :
      (c : Commands (Asked W)) (t : Asked W) (r : Reply Response × W)
      → (continue (received (behind t r)) (accepted c)).1.calls ≡ t.calls
  unfolding accepted
  answered-calls c t (failure m, w) = refl
  answered-calls c t (value resp, w) = elim (Bool-cases (leb 300 resp.status_code)) [
    | inl b ↦ rw b refl
    | inr b ↦ rw b refl
  ]

  validate-IsConfigured :
      (c : Commands (Asked W)) (env : Env W) (t : Asked W)
      → IsConfigured c env
      → validate_config c t ≡ (ok (asked env), t)
  unfolding validate_config configured
  validate-IsConfigured c env t h = rw h.client (rw h.account refl)

  remove_friend-calls :
      (c : Commands (Asked W)) (env : Env W) (id : String) (t : Asked W)
      → IsConfigured c env
      → (trim id == "") ≡ false
      → (remove_friend c id t).1.calls ≡ t.calls ++ (deletion c id ∷ [])
  unfolding remove_friend request_no_body
  remove_friend-calls c env id t h f = rw (validate-IsConfigured c env t h) (
      rw f (
        answered-calls c (record t { calls = t.calls ++ (deletion c id ∷ []) })
          (env.request (deletion c id) t.world)))

  cut-Ends :
      (c : Commands (Asked W)) (ids : List String) (m : String) (r : BulkRemoveResult) (t : Asked W)
      → Adds r
      → Ends c ids r.attempted t ((r, some (context_error m)), t)
  cut-Ends c ids m r t h = record {
    tried = [];
    left = ids;
    split = refl;
    requests = sym (append-nil t.calls);
    attempts = omega arith;
    adds = h;
    all_or_ended = inr (m, refl);
  }

  unless_done-Ends :
      (c : Commands (Asked W)) (ids : List String) (o : Option String) (r : BulkRemoveResult)
      (t : Asked W) (next : Bulk (Asked W))
      → Adds r
      → Ends c ids r.attempted t next
      → Ends c ids r.attempted t (unless_done o (r, t) next)
  unless_done-Ends c ids none r t next h k = k
  unless_done-Ends c ids (some m) r t next h k = cut-Ends c ids m r t h

  -- one friend more in front
  after-Ends :
      (c : Commands (Asked W)) (id : String) (ids : List String) (n k : ℕ) (t u : Asked W)
      (o : Bulk (Asked W))
      → u.calls ≡ t.calls ++ (deletion c id ∷ [])
      → k ≡ n + 1
      → Ends c ids k u o
      → Ends c (id ∷ ids) n t o
  after-Ends c id ids n k t u o h e v = record {
    tried = id ∷ v.tried;
    left = v.left;
    split = ap (λ l. id ∷ l) v.split;
    requests =
        v.requests ∙ rw h (append_assoc t.calls (deletion c id ∷ []) (map (deletion c) v.tried));
    attempts = omega (arith, v.attempts, e);
    adds = v.adds;
    all_or_ended = v.all_or_ended;
  }

  remove_each-Ends :
      (c : Commands (Asked W)) (env : Env W) (done : Asked W → Option String) (l : List Friend)
      (r : BulkRemoveResult) (t : Asked W)
      → IsConfigured c env
      → Adds r
      → Ends c (ids_of l) r.attempted t (remove_each c done l r t)
  unfolding remove_each
  remove_each-Ends c env done [] r t g h = record {
    tried = [];
    left = [];
    split = refl;
    requests = sym (append-nil t.calls);
    attempts = omega arith;
    adds = h;
    all_or_ended = inl (refl, refl);
  }
  remove_each-Ends c env done (friend ∷ l) r t g h =
      let id = trim friend.account_id in
      let answer = remove_friend c id t in
      let (kept, more) = count-Adds id answer.0 r h in
      elim (Bool-cases (id == "")) [
        | inl b ↦
            rw b (
              unless_done-Ends c (ids_of l) (done t) r t _ h
                (remove_each-Ends c env done l r t g h))
        | inr b ↦ rw b (
            unless_done-Ends c (id ∷ ids_of l) (done t) r t _ h (
              after-Ends c id (ids_of l) r.attempted (count id answer.0 r).attempted t answer.1 _
                (remove_friend-calls c env id t g (trim-filled friend.account_id b)) more
                (remove_each-Ends c env done l (count id answer.0 r) answer.1 g kept)))
      ]

  -- After a list of friends is fetched, the requests that RemoveAllFriends makes are the DELETEs of
  -- listed ids that are not blank, in the order of the list and one for each, and it reports as
  -- many attempts as it made, each of them a removal or a failure. Without an error it has tried every
  -- such id; the only error is that of the context.
  pub remove_all_friends-Ends :
      (c : Commands (Asked W)) (env : Env W) (t u : Asked W) (l : List Friend)
      → IsConfigured c env
      → list_friends c t ≡ (ok l, u)
      → Ends c (ids_of l) 0 u (remove_all_friends c t)
  unfolding remove_all_friends remove_listed
  remove_all_friends-Ends c env t u l g h =
      rw h (remove_each-Ends c env (context_of c.env) l zero_result u g (omega arith))
