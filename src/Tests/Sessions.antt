-- ===== src/Tests/Sessions.antt =====
-- xmpp/client.go with a server that answers the handshake and then drops the connection.
use fngo.Prelude.{ℕ, suc, ◌≡◌, refl, true, false, none, some, [], ◌∷◌, nat_eq, arith}
use fngo.Prelude.Int.{pos}
use fngo.Xmpp.Handshake
use fngo.Xmpp.Handshake.{
  Config, read, wrote, other, value, failure, done, perform_handshake, opens, succeeds, answers,
}
use fngo.GoStrings.{contains_codes}
use fngo.Xmpp.Handshake.Log.{Logged, Said, InOrder, steps_of, logged}
use fngo.Xmpp.Handshake.Order.{perform_handshake-InOrder}
use fngo.Xmpp.Supervisor.{Loop, supervisor}
use fngo.Xmpp.Supervisor.Budget.{reconnects, supervisor-settled}

abbrev cfg : Config
cfg = record {
  endpoint = "wss://example";
  min_reconnect_delay = pos 5;
  max_reconnect_delay = pos 9;
  max_reconnect_attempts = pos 2;
  keep_alive_interval = pos 0;
  enable_handshake = true;
  jid = "a@b";
  username = "";
  domain = "";
  resource = "r";
}

-- it counts the frames that are written
abbrev server : Handshake.Env ℕ
server = record {
  context_error = λ _. none;
  access_token = some λ w. (value "t", w);
  dial = λ _ _ w. (value tt, w);
  read = λ w. (
    value (record {
      message_type = pos 1;
      payload = "<open/><success/><iq id='bind_1' type='result'/><iq id='sess_1' type='result'/>";
    }),
    w,
  );
  write = λ _ w. (none, suc w);
  close = λ w. w;
  session = λ w. (
    read (value (record { message_type = pos 1; payload = " " }))
        ∷ wrote none
        ∷ read (failure (other "EOF"))
        ∷ [],
    w,
  );
  sleep = λ _ w. (true, w);
  now = λ _. pos 0;
  xml = λ _. failure (other "no element");
  base64 = λ s. s;
  decimal = λ _. "2";
}

abbrev before_all : Loop ℕ
before_all = record { world = 0; failures = 0; events = [] }

perform_handshake_five : perform_handshake server 1 cfg "t" 0 ≡ (done, 5)
unfolding perform_handshake opens succeeds answers contains_codes
perform_handshake_five = refl

supervisor-settled_example : reconnects (supervisor 1 cfg server 3 before_all).0 ≡ false
supervisor-settled_example =
    supervisor-settled 1 cfg server 1 3 before_all (λ w. (tt, (tt, (tt, tt)))) refl (omega arith)
      (omega arith)

abbrev unlogged : Logged ℕ
unlogged = record { world = 0; log = [] }

perform_handshake-InOrder_example :
    Said
      (InOrder (steps_of (λ s. s) cfg "t"))
      unlogged
      (perform_handshake (logged server) 1 cfg "t" unlogged)
perform_handshake-InOrder_example = perform_handshake-InOrder server 1 cfg "t" unlogged
