-- ===== src/Core/Events.antt =====
-- Domain events: the envelope of shared/pkg/events/envelope.go and the payloads of
-- contexts/fixture-core/internal/domain/fixture/events.go. JSON text is not modelled: an envelope
-- carries the payload value that `json.Marshal` is given.
use wc_fixture.Base.{
  ℕ, Uuid, nil_uuid, Time, String, Option, none, some, List, [], ◌∷◌, ◌==◌, if◌then◌else◌,
}
use wc_fixture.Core.Slot.{SlotKind, MatchSlot}
use wc_fixture.Core.Result.{MatchResult, winner}
use wc_fixture.Core.Match.{MatchPhase, Match}
use wc_fixture.Core.Standing.{GroupStanding, points, goal_difference}
use wc_fixture.Core.Group.{Group}

pub data EventType : Type 0 where
  tournament_initialized match_result_registered group_stage_completed : EventType
  knockout_bracket_generated knockout_match_advanced : EventType
  match_schedule_updated tournament_finished : EventType

unfoldable pub event_type_text : EventType → String
event_type_text tournament_initialized = "TournamentInitialized"
event_type_text match_result_registered = "MatchResultRegistered"
event_type_text group_stage_completed = "GroupStageCompleted"
event_type_text knockout_bracket_generated = "KnockoutBracketGenerated"
event_type_text knockout_match_advanced = "KnockoutMatchAdvanced"
event_type_text match_schedule_updated = "MatchScheduleUpdated"
event_type_text tournament_finished = "TournamentFinished"

pub record TournamentInitializedPayload : Type 0 where
  pub tournament_id : Uuid
  pub edition : ℕ
  pub name : String
  pub groups : List String
  pub initialized_at : Time

-- No code sets `Phase`: `none` is the empty string that it keeps.
pub record MatchResultRegisteredPayload : Type 0 where
  pub match_id : Uuid
  pub phase : Option MatchPhase
  pub group_name : String
  pub home_team_id : Uuid
  pub away_team_id : Uuid
  pub home_goals : ℕ
  pub away_goals : ℕ
  pub home_goals_et : Option ℕ
  pub away_goals_et : Option ℕ
  pub home_goals_pen : Option ℕ
  pub away_goals_pen : Option ℕ
  pub winner_team_id : Option Uuid
  pub completed_at : Time

pub record StandingSnap : Type 0 where
  pub position : ℕ
  pub team_id : Uuid
  pub points : ℕ
  pub played : ℕ
  pub won : ℕ
  pub drawn : ℕ
  pub lost : ℕ
  pub goals_for : ℕ
  pub goals_against : ℕ
  pub goal_diff : ℕ

pub record GroupStageCompletedPayload : Type 0 where
  pub group_name : String
  pub standings : List StandingSnap
  pub completed_at : Time

pub record SlotSnap : Type 0 where
  pub kind : SlotKind
  pub team_id : Option Uuid
  pub source_match_id : Option Uuid

pub record MatchSnap : Type 0 where
  pub match_id : Uuid
  pub match_number : ℕ
  pub phase : MatchPhase
  pub home_slot : SlotSnap
  pub away_slot : SlotSnap
  pub venue_id : Uuid
  pub scheduled_at : Time

pub record KnockoutBracketGeneratedPayload : Type 0 where
  pub tournament_id : Uuid
  pub best_thirds_selected : List Uuid
  pub round_of_32_matches : List MatchSnap
  pub generated_at : Time

pub record KnockoutMatchAdvancedPayload : Type 0 where
  pub completed_match_id : Uuid
  pub winner_team_id : Uuid
  pub loser_team_id : Uuid
  pub next_match_id : Option Uuid
  pub phase : MatchPhase
  pub advanced_at : Time

pub record MatchScheduleUpdatedPayload : Type 0 where
  pub match_id : Uuid
  pub old_scheduled_at : Time
  pub new_scheduled_at : Time
  pub old_venue_id : Uuid
  pub new_venue_id : Uuid
  pub updated_at : Time

-- `ThirdPlaceID` is a field that no code sets: it stays `uuid.Nil`.
pub record TournamentFinishedPayload : Type 0 where
  pub tournament_id : Uuid
  pub champion_id : Uuid
  pub runner_up_id : Uuid
  pub third_place_id : Uuid
  pub final_match_id : Uuid
  pub finished_at : Time

pub data Payload : Type 0 where
  initialized : TournamentInitializedPayload → Payload
  result_registered : MatchResultRegisteredPayload → Payload
  group_completed : GroupStageCompletedPayload → Payload
  bracket_generated : KnockoutBracketGeneratedPayload → Payload
  match_advanced : KnockoutMatchAdvancedPayload → Payload
  schedule_updated : MatchScheduleUpdatedPayload → Payload
  finished : TournamentFinishedPayload → Payload

pub record DomainEvent : Type 0 where
  pub event_id : Uuid
  pub event_type : EventType
  pub occurred_at : Time
  pub version : ℕ
  pub aggregate_id : Uuid
  pub aggregate_type : String
  pub payload : Payload

unfoldable pub new_event : Uuid → Time → EventType → Uuid → String → Payload → DomainEvent
new_event event_id now event_type aggregate_id aggregate_type payload = record {
  event_id = event_id;
  event_type = event_type;
  occurred_at = now;
  version = 1;
  aggregate_id = aggregate_id;
  aggregate_type = aggregate_type;
  payload = payload;
}

unfoldable pub to_standing_snap : GroupStanding → StandingSnap
to_standing_snap s = record {
  position = s.position;
  team_id = s.team_id;
  points = points s;
  played = s.played;
  won = s.won;
  drawn = s.drawn;
  lost = s.lost;
  goals_for = s.goals_for;
  goals_against = s.goals_against;
  goal_diff = goal_difference s;
}

unfoldable pub to_standing_snaps : List GroupStanding → List StandingSnap
to_standing_snaps [] = []
to_standing_snaps (s ∷ rest) = to_standing_snap s ∷ to_standing_snaps rest

unfoldable pub to_slot_snap : MatchSlot → SlotSnap
to_slot_snap s = record { kind = s.kind; team_id = s.team_id; source_match_id = s.source_match_id }

unfoldable pub to_match_snap : Match → MatchSnap
to_match_snap m = record {
  match_id = m.id;
  match_number = m.match_number;
  phase = m.phase;
  home_slot = to_slot_snap m.home_slot;
  away_slot = to_slot_snap m.away_slot;
  venue_id = m.venue_id;
  scheduled_at = m.scheduled_at;
}

unfoldable pub to_match_snaps : List Match → List MatchSnap
to_match_snaps [] = []
to_match_snaps (m ∷ rest) = to_match_snap m ∷ to_match_snaps rest

unfoldable pub build_result_payload : Uuid → String → MatchResult → Payload
build_result_payload match_id group_name r = result_registered (record {
  match_id = match_id;
  phase = none;
  group_name = group_name;
  home_team_id = r.home_team_id;
  away_team_id = r.away_team_id;
  home_goals = r.home_goals;
  away_goals = r.away_goals;
  home_goals_et = r.home_goals_et;
  away_goals_et = r.away_goals_et;
  home_goals_pen = r.home_goals_pen;
  away_goals_pen = r.away_goals_pen;
  winner_team_id = if winner r == nil_uuid then none else some (winner r);
  completed_at = r.completed_at;
})

unfoldable pub build_group_completed_payload : Time → Group → Payload
build_group_completed_payload now g =
    group_completed (record {
      group_name = g.name;
      standings = to_standing_snaps g.standings;
      completed_at = now;
    })
