-- ===== src/Core/Slot.antt =====
-- The home and away positions of a match:
-- contexts/fixture-core/internal/domain/fixture/match_slot.go.
use wc_fixture.Base.{ℕ, Uuid, String, Bool, true, false, ◌&&◌, Option, none, some, is_some}

pub data SlotKind : Type 0 where
  team_kind winner_of_kind loser_of_kind best_third_kind : SlotKind

pub record GroupRef : Type 0 where
  pub group_name : String
  pub position : ℕ

pub record MatchSlot : Type 0 where
  pub kind : SlotKind
  pub team_id : Option Uuid
  pub source_match_id : Option Uuid
  pub group_ref : Option GroupRef

abbrev pub is_team_kind : SlotKind → Bool
is_team_kind team_kind = true
is_team_kind _ = false

unfoldable pub is_resolved : MatchSlot → Bool
is_resolved s = is_team_kind s.kind && is_some s.team_id

unfoldable pub slot_for_team : Uuid → MatchSlot
slot_for_team id = record {
  kind = team_kind;
  team_id = some id;
  source_match_id = none;
  group_ref = none;
}

-- `Resolve` builds a new slot and reads nothing of the old one.
unfoldable pub resolve : MatchSlot → Uuid → MatchSlot
resolve s id = record {
  kind = team_kind;
  team_id = some id;
  source_match_id = none;
  group_ref = none;
}

unfoldable pub slot_winner_of : Uuid → MatchSlot
slot_winner_of id = record {
  kind = winner_of_kind;
  team_id = none;
  source_match_id = some id;
  group_ref = none;
}

unfoldable pub slot_loser_of : Uuid → MatchSlot
slot_loser_of id = record {
  kind = loser_of_kind;
  team_id = none;
  source_match_id = some id;
  group_ref = none;
}

unfoldable pub slot_best_third : String → MatchSlot
slot_best_third name = record {
  kind = best_third_kind;
  team_id = none;
  source_match_id = none;
  group_ref = some (record { group_name = name; position = 3 });
}

unfoldable pub slot_from_group : String → ℕ → MatchSlot
slot_from_group name position = record {
  kind = team_kind;
  team_id = none;
  source_match_id = none;
  group_ref = some (record { group_name = name; position = position });
}

-- The slot of a later round, before its team is known.
unfoldable pub empty_slot : MatchSlot
empty_slot = record {
  kind = winner_of_kind;
  team_id = none;
  source_match_id = none;
  group_ref = none;
}
