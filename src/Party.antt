-- ===== src/Party.antt =====
-- The party layer: party/types.go, the reducer of party/reducer.go and what is built on it.
pub mod Types
pub mod Codec
pub mod Reducer
pub mod Templates
pub mod Patch
pub mod Decoder
pub mod Remote
pub mod Effect
pub mod Commands
