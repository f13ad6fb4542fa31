-- ===== src/Party/Commands/Setting.antt =====
-- party/commands.go: the Set methods, each one intent that `apply_intent_with_retry` applies.
use fngo.Prelude.{String, true, false, none, some}
use fngo.GoStrings.{trim_space}
use fngo.Party.Types.{Loadout}
use fngo.Party.Patch.{PlaylistRequest, PatchIntent}
use fngo.Party.Effect.{M, ◌>>◌}
use fngo.Party.Commands.{Commands}
use fngo.Party.Commands.Entering.{required}
use fngo.Party.Commands.Patching.{apply_intent_with_retry}

abbrev pub no_intent : PatchIntent
no_intent = record {
  ready = none;
  playlist = none;
  custom_key = none;
  loadout = none;
  outfit_id = none;
  emote_id = none;
  clear_emote = false;
}

module _ {W : Type 0} where
  unfoldable pub set_ready : Commands W → String → M W Unit
  unfolding apply_intent_with_retry
  set_ready c ready = apply_intent_with_retry c (record no_intent { ready = some ready })

  unfoldable pub set_playlist : Commands W → PlaylistRequest → M W Unit
  unfolding apply_intent_with_retry
  set_playlist c req = apply_intent_with_retry c (record no_intent { playlist = some req })

  unfoldable pub set_custom_key : Commands W → String → M W Unit
  unfolding apply_intent_with_retry
  set_custom_key c key = apply_intent_with_retry c (record no_intent { custom_key = some key })

  unfoldable pub set_outfit : Commands W → String → M W Unit
  unfolding apply_intent_with_retry trim_space
  set_outfit c id = do
    required "party: outfit id is required" (trim_space id)
    apply_intent_with_retry c (record no_intent { outfit_id = some (trim_space id) })

  unfoldable pub set_emote : Commands W → String → M W Unit
  unfolding apply_intent_with_retry trim_space
  set_emote c id = do
    required "party: emote id is required" (trim_space id)
    apply_intent_with_retry c (record no_intent { emote_id = some (trim_space id) })

  unfoldable pub clear_emote : Commands W → M W Unit
  unfolding apply_intent_with_retry
  clear_emote c = apply_intent_with_retry c (record no_intent { clear_emote = true })

  unfoldable pub set_loadout : Commands W → Loadout → M W Unit
  unfolding apply_intent_with_retry
  set_loadout c loadout = apply_intent_with_retry c (record no_intent { loadout = some loadout })
