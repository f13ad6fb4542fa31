-- ===== src/Transport.antt =====
-- transport/http/client.go. What lies outside is a parameter: `Env` is net/http, the sleeping
-- timer and the context, `Provider` the TokenProvider, and `W` the state behind them.
pub mod Types
pub mod Answers
pub mod Client
pub mod Bounds
pub mod Accepted
pub mod Counts
