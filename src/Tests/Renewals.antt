-- ===== src/Tests/Renewals.antt =====
-- friends/commands.go and auth/scheduler.go on small services.
use fngo.Prelude.{ℕ, ◌+◌, ◌==◌, string_eq, true, false, none, some, [], ◌∷◌, refl, if◌then◌else◌}
use fngo.Prelude.Int.{pos}
use fngo.Json
use fngo.Json.{Json, str, arr, obj, nil, cons, field, end, Codec}
use fngo.Transport.Types.{value}
use fngo.Friends
use fngo.Friends.{Friend, Call, ok, trim}
use fngo.Friends.Methods.{list_friends, remove_all_friends}
use fngo.Friends.Removal.{Asked, asked, ids_of, Ends, remove_all_friends-Ends}
use fngo.Auth.{TokenSet}
use fngo.Auth.Scheduler
use fngo.Auth.Scheduler.{SchedulerConfig, Loop, renewed, run}
use fngo.Auth.Scheduler.Rate.{Clocked, clocked, Spaced, run-Spaced}

abbrev summary : Json
summary =
    obj (
      field "friends" (arr (cons (obj (field "accountId" (str "b") end)) (cons (obj end) nil))) end)

abbrev codec : Codec
codec = record {
  unmarshal = λ s. if s == "summary" then some summary else none;
  marshal = λ _. "";
  member = λ fs k. Json.get fs k;
  sprint = λ _. "";
}

-- it counts the requests
abbrev service : Friends.Env ℕ
service = record {
  request = λ call w. (value (record { status_code = 200; headers = []; body = "summary" }), w + 1);
  context_error = λ _. none;
  parse_layouts = λ _. none;
}

abbrev commands : Friends.Commands (Asked ℕ)
commands = record {
  env = some (asked service);
  codec = codec;
  cfg = record { base_url = "http://friends"; account_id = "a" };
}

abbrev friend : Friend
friend = record { account_id = "b"; display_name = ""; created_at = none }

abbrev nameless : Friend
nameless = record friend { account_id = "" }

abbrev unasked : Asked ℕ
unasked = record { world = 0; calls = [] }

abbrev summed : Call
summed = record { method = "GET"; url = "http://friends/friends/api/v1/a/summary" }

remove_all_friends-Ends_example :
    Ends commands
      (ids_of (friend ∷ nameless ∷ []))
      0
      (record { world = 1; calls = summed ∷ [] })
      (remove_all_friends commands unasked)
unfolding list_friends Json.get
remove_all_friends-Ends_example =
    remove_all_friends-Ends commands service unasked (record { world = 1; calls = summed ∷ [] })
      (friend ∷ nameless ∷ []) (record { client = refl; account = refl }) refl

abbrev tokens : TokenSet
tokens = record {
  access_token = "t";
  refresh_token = "r";
  token_type = "";
  expires_at = pos 100;
  refresh_expires_at = pos 0;
  account_id = "a";
  client_id = "";
  display_name = "";
}

-- a clock, in nanoseconds
abbrev clock : Scheduler.Env ℕ
clock = record {
  cancelled = λ _. false;
  load = λ w. (value (some tokens), w);
  save = λ _ w. (none, w);
  refresh = λ _ w. (renewed tokens, w);
  now = λ w. pos w;
  wait = λ d w. (true, w + 7);
}

abbrev cfg : SchedulerConfig
cfg = record {
  refresh_skew = pos 10;
  min_refresh_interval = pos 7;
  refresh_retry_min_backoff = pos 1;
  refresh_retry_max_backoff = pos 2;
}

abbrev before_all : Loop (Clocked ℕ)
before_all = record {
  world = record { world = 0; waited = 0; refreshes = 0 };
  refresh_failures = 0;
  events = [];
}

run-Spaced_example : Spaced 7 before_all.world (run cfg (clocked clock) 3 before_all)
run-Spaced_example = run-Spaced cfg clock 7 3 before_all refl
