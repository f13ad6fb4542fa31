-- ===== src/Tests/Calls.antt =====
-- party/commands.go against a service that accepts everything, and against one that refuses.
use fngo.Prelude.{
  ℕ, ◌+◌, true, false, none, some, List, [], ◌∷◌, ◌≡◌, refl, ◌==◌, string_eq, if◌then◌else◌,
}
use fngo.Prelude.Int.{pos}
use fngo.GoMap
use fngo.GoStrings.{trim_space}
use fngo.Transport.Types.{value}
use fngo.Party.Types.{zero_party}
use fngo.Party.Effect.{Sys}
use fngo.Party.Commands.{Env, Config, Commands}
use fngo.Party.Commands.Membership.{ensure_party_locked, leave_party_locked}
use fngo.Party.Commands.Entering.{join_party_locked}
use fngo.Party.Commands.Promotion.{promote_member}
use fngo.Party.Commands.Actions.{join, leave_party, ensure, Change, act, event, changes}
use fngo.Party.Commands.Rules.{IsValid, AllValid, Post}
use fngo.Party.Commands.Outcomes.{ensure_party-outcome, leave_party-all_or_nothing}
use fngo.Party.Commands.Promoted.{HasCaptain, promote_member-captain}
use fngo.Party.Commands.Joined.{Left, Entered, join_party-outcome}
use fngo.Party.Commands.Validity.{changes-valid}
use fngo.Tests.Parties.{codec, held, crew-IsKeyed, departure}

-- it counts the requests
abbrev pub service : Env ℕ
service = record {
  request = λ call w. (
    value (record {
      status_code = 200;
      headers = [];
      body = if call.url == "http://party/user/a" then "current" else "party";
    }),
    w + 1,
  );
  now = λ w. pos w;
  parse_time = λ _. none;
  unicode_lower = λ c. c;
  to_lower_text = λ text. text;
  sleep = λ d w. (true, w);
  context_text = λ _. "";
}

abbrev pub config : Config
config = record {
  base_url = "http://party/";
  account_id = "a";
  display_name = "A";
  platform = "WIN";
  build_id = "1";
  connection_id = "";
  max_patch_retries = pos 3;
  min_patch_backoff = pos 100000000;
  max_patch_backoff = pos 500000000;
  disable_auto_create = false;
}

abbrev pub commands : Commands ℕ
commands = record {
  env = some service;
  codec = codec;
  cfg = config;
  files = record { party_raw = "{}"; member_raw = "{}" };
}

abbrev in_party : Sys ℕ
in_party = record { state = some held; world = 0 }

held-IsValid : IsValid held
unfolding IsValid GoMap.get GoMap.insert GoMap.delete
held-IsValid = (crew-IsKeyed, refl)

ensure_party-outcome_example :
    Post
      (λ p t. (t ≡ some p) × IsValid p)
      (λ t. t ≡ some held)
      (ensure_party_locked commands in_party)
ensure_party-outcome_example = ensure_party-outcome commands in_party

leave_party-all_or_nothing_example :
    Post
      (λ _ t. t ≡ some zero_party)
      (λ t. t ≡ some held)
      (leave_party_locked commands false in_party)
leave_party-all_or_nothing_example = leave_party-all_or_nothing commands in_party

join_party-outcome_example :
    Post
      (λ _ t. Entered (trim_space " q ") (some held) t)
      (Left (some held))
      (join_party_locked commands " q " in_party)
join_party-outcome_example = join_party-outcome commands " q " in_party

promote_member-captain_example :
    Post (λ _ t. HasCaptain t) (λ t. t ≡ some held) (promote_member commands "" "b" in_party)
promote_member-captain_example = promote_member-captain commands "" "b" in_party

abbrev session : List Change
session = act (join "q") ∷ event (pos 8) departure ∷ act leave_party ∷ act ensure ∷ []

changes-valid_example : AllValid (changes commands session in_party).state
changes-valid_example =
    changes-valid commands session in_party (tt, (refl, (tt, (tt, tt)))) held-IsValid
