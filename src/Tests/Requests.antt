-- ===== src/Tests/Requests.antt =====
-- transport/http/client.go against a server that answers 401 once.
use fngo.Prelude.{
  ℕ, ◌+◌, ◌≤◌, true, none, some, [], ◌≡◌, refl, ◌==◌, nat_eq, string_eq, if◌then◌else◌,
}
use fngo.Prelude.Int.{pos}
use fngo.Transport.Types.{Request, Response, value, Provider, Env, Config, Client, retries}
use fngo.Transport.Client.{
  request, Answer, request_loop, attempt_with, follow, do_request, access_token, refresh,
  correlation,
}
use fngo.Transport.Answers.{decide, should_refresh, parse_error_body}
use fngo.Transport.Accepted.{IsAccepted, request_accepts}
use fngo.Transport.Counts.{Tally, counted, request_counts}
use fngo.Tests.Parties.{codec}

abbrev answer_of : ℕ → Response
answer_of n = record { status_code = if n == 0 then 401 else 200; headers = []; body = "" }

abbrev server : Env ℕ
server = record {
  send = λ wire w. (value (answer_of w), w + 1);
  sleep = λ d w. (true, w);
  context_text = λ w. "";
  until = λ s w. none;
  canonical = λ s. s;
  unicode_lower = λ c. c;
}

abbrev tokens : Provider ℕ
tokens = record { access_token = λ w. (value "token", w); refresh = λ w. (none, w) }

abbrev config : Config ℕ
config = record {
  max_retries = pos 2;
  min_backoff = pos 100;
  max_backoff = pos 1000;
  correlation_id_header = "X-Correlation-Id";
  correlation_id = none;
  user_agent = "";
}

abbrev client : Client ℕ
client = record { env = server; codec = codec; provider = some tokens; cfg = config }

abbrev get_party : Request
get_party = record {
  method = "GET";
  url = "http://party";
  headers = [];
  body = "";
  correlation_id = "";
}

request_counts_example :
    (r : Answer (Tally ℕ)) × (request
        (counted client)
        get_party
        (record { world = 0; sends = 0; refreshes = 0 })
      ≡ some r)
    × (r.1.sends ≤ 0 + (retries (pos 2) + 2))
    × (r.1.refreshes ≤ 0 + 1)
request_counts_example =
    request_counts client get_party (record { world = 0; sends = 0; refreshes = 0 })

request_accepts_example : IsAccepted client (answer_of 1)
unfolding request request_loop attempt_with follow do_request access_token refresh correlation
    decide should_refresh parse_error_body
request_accepts_example = request_accepts client get_party 0 (answer_of 1) 2 refl
