-- ===== src/Lib.antt =====
-- fngo: a Go client library for parties and friends of Epic's services, and a model of its core.
--
-- The program's parts and the files that model them (paths from the repository's root):
--   events/types.go: Events (the typed events and their names).
--   events/predicates.go: Events/Predicates (`IsName` is `is_name`, and so on, `Any` is `any_of`).
--   events/bus.go: Events/Bus. `Subscribe`, `Emit`, `Close` are `subscribe`, `emit`, `close`;
--     `WaitFor` is `wait_start`, then `wait_receive` or `wait_cancel`. Events/Bus/Channel has Go's
--     channels, where a send on a closed channel, a second close and a send that waits are outcomes
--     of their own; Invariant, Loops, Entry, Removal, Safety, Delivery and FirstWanted the proofs.
--   internal/backoff/backoff.go: Backoff, with the wrap-around of int64; Backoff/Bounds.
--   transport/http/client.go: Transport. Types has the configuration and what lies outside, Answers
--     what the loop of `Request` decides about one answer, Client the loop; Bounds, Accepted and
--     Counts the proofs.
--   auth/store.go, auth/types.go, client/token_provider.go: Auth (the stores in memory; `AccessToken`
--     and `Refresh` are `access_token` and `refresh`), with Renewal.
--   auth/scheduler.go: Auth/Scheduler (one pass of `Run` is `turn`), with Rate.
--   party/types.go, party/reducer.go: Party/Types and Party/Reducer (`State.ApplyEvent` is
--     `apply_event`), with Keys, Captain, Revision, Meta, Ready and History, which has what a
--     history of events tells of one account, read from the latest back.
--   party/meta_codec.go: Party/Codec.
--   party/templates/templates.go: Party/Templates (`DeepMerge` is `deep_merge`, and so on), with
--     Merging and Paths.
--   party/patch_builder.go, matchmaking/types.go: Party/Patch (`BuildIntents` is `build_intents`, with
--     an `edit_` function for each part of an intent), with Kept and Shown.
--   party/commands.go: Party/Remote (the service's parties, `mapRemoteParty`), Party/Effect (methods
--     that change the state, ask the service and may fail) and Party/Commands: Service (requests and
--     answers), Membership (sync, ensure, leave), Entering (join), Promotion (promote, invitations,
--     identity), Patching (`applyIntentWithRetry`), Setting (the Set methods), Actions (the methods as
--     one type); Rules, Keeping, Outcomes, Joined, Promoted, Refreshed, Spending and Validity the
--     proofs.
--   party/xmpp_decoder.go, xmpp/types.go: Party/Decoder (what a notification is read by), with
--     Handlers (one function per notification), Dispatch (from a stanza to the handlers and the bus)
--     and the proofs Shown, Stanzas and Told; Xmpp has the stanza.
--   xmpp/client.go, xmpp/stanza.go: Xmpp/Handshake (`performHandshake` is `perform_handshake`), with
--     Log and the proof Order, Xmpp/Frames (`ParseStanza`, and the events of a frame) and
--     Xmpp/Supervisor (`connectAndRun`, a pass of `supervisor`; the three loops are `run_loops`), with
--     the proofs Failing and Budget.
--   friends: Friends (types and requests), with Summary, Methods (`RemoveAllFriends` is
--     `remove_all_friends`), Decoder (friends/xmpp_decoder.go) and the proofs Trimmed and Removal.
-- The shared helpers are Prelude, GoMap (maps), GoTime, GoStrings (the strings package) and Json.
-- Tests has concrete runs.
--
-- How the parts interact: the commands ask the service through the transport's `Request` and store
-- what it answers in the party state, and build patches of it from the templates; the decoder turns
-- notifications into events of the reducer, which change the same state, and into events on the bus;
-- the transport, the patches and the refresh loop wait by the backoff.
--
-- What stands outside is a parameter: the grammar of JSON and fmt.Sprint (`Json.Codec`), net/http,
-- clocks, contexts and the token provider (`Transport.Types.Env`, `Provider`), the HTTP client and the
-- time for the commands (`Party.Commands.Env`, `Friends.Env`), the XML of a presence, the conversion
-- of a float64 and time.Parse (`Party.Decoder.Reader`), the store, refresher and clock of the refresh
-- loop (`Auth.Scheduler.Env`), the WebSocket, the XML decoder and what the three loops of a
-- connection come across, in the order in which they act (`Xmpp.Handshake.Env`), the texts embedded in
-- party/templates (`Files`), strings.ToLower and ToUpper of whole texts, and unicode.ToLower past
-- ASCII. The state of the world behind them is of any type `W` and is passed along. Log lines are left
-- out.
--
-- Choices. A nil map is the empty map: the code makes a map before it writes to one that may be nil.
-- The answers for a nil root of `PathSet` and a nil snapshot of `BuildIntents`, which no caller
-- passes, are left out. A Go map is an association list with one entry for each key that is written;
-- the loops over maps do not depend on their order. A channel of the bus is named by the id under
-- which it is registered. The numbers of the bus are uint64 with their wrap-around, so its theorems
-- bound the calls by 2 ^ 64. Delays and revisions are integers, and delays wrap around as int64; a
-- status code is a natural number and MaxRetries + 1 is taken to fit an int. Texts are lists of
-- characters, where the code has bytes. The loop of `Request` runs on fuel MaxRetries + 2: each pass
-- but one token refresh is one of at most MaxRetries + 1 attempts. The loop of
-- `applyIntentWithRetry` runs on its attempts 0 to MaxPatchRetries, all of them. `Run` of the
-- refresh loop has no end of its own: its model makes a given number of passes, and its theorem
-- holds of any number. So does the model of the supervisor, and its theorem gives a number that is
-- enough. `waitForHandshakeFrame` skips frames that it does not wait for: its fuel counts them, and
-- a handshake without fuel left is told as `waiting`.
--
-- A method of the commands is one step: no two of them overlap, by `opMu`. An event that the reducer
-- gets while a method waits for the service is taken to come before or after the method.
--
-- The decoders ignore what `Emit` returns and read nothing from the bus, so a handler of theirs gives
-- its events in order, which are then emitted one after another.
--
-- Not modelled: of xmpp/client.go, Connect, Close and the write queue (goroutines and channels
-- around the supervisor); auth/epic (the requests of the account service); the facades in client and
-- bot_client.go, which wire the parts; logging, the texts of the errors, and examples.
pub mod Prelude
pub mod GoMap
pub mod GoTime
pub mod GoStrings
pub mod Json
pub mod Backoff
pub mod Events
pub mod Xmpp
pub mod Transport
pub mod Auth
pub mod Party
pub mod Friends
pub mod Tests
