-- ===== src/Party/Types.antt =====
-- party/types.go: the party, its members and the events of the reducer. A ready state is its text.
use fngo.Prelude.{string_eq, String, List, []}
use fngo.Prelude.Int.{ℤ, pos}
use fngo.GoMap.{GoMap}
use fngo.GoTime.{Time, zero_time}

abbrev pub ready_state_not_ready : String
ready_state_not_ready = "NotReady"

abbrev pub ready_state_ready : String
ready_state_ready = "Ready"

pub record Loadout : Type 0 where
  pub character : String
  pub backpack : String
  pub pickaxe : String
  pub emote : String

pub record Member : Type 0 where
  pub account_id : String
  pub display_name : String
  pub role : String
  pub ready : String
  pub loadout : Loadout
  pub joined_at : Time
  pub revision : ℤ  -- int64
  pub meta : GoMap String String

pub record Party : Type 0 where
  pub id : String
  pub revision : ℤ  -- int64
  pub captain_id : String
  pub playlist : String
  pub custom_key : String
  pub region_id : String
  pub members : GoMap String Member
  pub meta : GoMap String String
  pub updated_at : Time

pub data EventKind : Type 0 where
  party_snapshot member_joined member_left member_updated member_kicked party_updated : EventKind
  -- any other text
  other : String → EventKind

pub record ReducerEvent : Type 0 where
  pub kind : EventKind
  pub party_id : String
  pub revision : ℤ
  pub member : Member
  pub member_id : String
  pub captain_id : String
  pub playlist : String
  pub custom_key : String
  pub party_meta_updates : GoMap String String
  pub party_meta_removed : List String
  pub member_meta_removed : List String
  pub at : Time

-- the zero values
abbrev pub zero_loadout : Loadout
zero_loadout = record { character = ""; backpack = ""; pickaxe = ""; emote = "" }

abbrev pub zero_member : Member
zero_member = record {
  account_id = "";
  display_name = "";
  role = "";
  ready = "";
  loadout = zero_loadout;
  joined_at = zero_time;
  revision = pos 0;
  meta = [];
}

abbrev pub zero_party : Party
zero_party = record {
  id = "";
  revision = pos 0;
  captain_id = "";
  playlist = "";
  custom_key = "";
  region_id = "";
  members = [];
  meta = [];
  updated_at = zero_time;
}
