-- ===== src/Queries/Dtos.antt =====
-- What the queries return, and how an aggregate becomes it: get_fixture.go and get_standings.go of
-- contexts/fixture-core/internal/application/queries. A typed string constant of the domain is
-- written as text by the functions `phase_text`, `status_text` and the like.
use wc_fixture.Base.{
  ℕ, Uuid, nil_uuid, Time, String, Bool, Option, none, some, List, [], ◌∷◌, map, ◌==◌,
  if◌then◌else◌,
}
use wc_fixture.Core.Slot.{MatchSlot, SlotKind}
use wc_fixture.Core.Result.{MatchResult, winner}
use wc_fixture.Core.Match.{Match, MatchPhase, MatchStatus}
use wc_fixture.Core.Standing.{GroupStanding, points, goal_difference}
use wc_fixture.Core.Group.{Group, GroupStatus, team_list}
use wc_fixture.Core.Fixture.{Fixture, Round, TournamentStatus}

unfoldable pub phase_text : MatchPhase → String
phase_text MatchPhase.group_phase = "GROUP"
phase_text MatchPhase.round_of_32 = "ROUND_OF_32"
phase_text MatchPhase.quarterfinal = "QUARTERFINAL"
phase_text MatchPhase.semifinal = "SEMIFINAL"
phase_text MatchPhase.third_place = "THIRD_PLACE"
phase_text MatchPhase.final = "FINAL"

unfoldable pub status_text : MatchStatus → String
status_text MatchStatus.scheduled = "SCHEDULED"
status_text MatchStatus.in_progress = "IN_PROGRESS"
status_text MatchStatus.completed = "COMPLETED"
status_text MatchStatus.postponed = "POSTPONED"

unfoldable pub group_status_text : GroupStatus → String
group_status_text GroupStatus.pending = "PENDING"
group_status_text GroupStatus.in_progress = "IN_PROGRESS"
group_status_text GroupStatus.completed = "COMPLETED"

unfoldable pub tournament_status_text : TournamentStatus → String
tournament_status_text TournamentStatus.draft = "DRAFT"
tournament_status_text TournamentStatus.group_stage = "GROUP_STAGE"
tournament_status_text TournamentStatus.knockout = "KNOCKOUT"
tournament_status_text TournamentStatus.finished = "FINISHED"

unfoldable pub kind_text : SlotKind → String
kind_text SlotKind.team_kind = "TEAM"
kind_text SlotKind.winner_of_kind = "WINNER_OF"
kind_text SlotKind.loser_of_kind = "LOSER_OF"
kind_text SlotKind.best_third_kind = "BEST_THIRD"

pub record SlotDto : Type 0 where
  pub kind : String
  pub team_id : Option Uuid
  pub source_match_id : Option Uuid

pub record ResultDto : Type 0 where
  pub home_goals : ℕ
  pub away_goals : ℕ
  pub home_goals_et : Option ℕ
  pub away_goals_et : Option ℕ
  pub home_goals_pen : Option ℕ
  pub away_goals_pen : Option ℕ
  pub winner_id : Option Uuid
  pub completed_at : Time

pub record MatchDto : Type 0 where
  pub id : Uuid
  pub match_number : ℕ
  pub phase : String
  pub home_slot : SlotDto
  pub away_slot : SlotDto
  pub venue_id : Uuid
  pub scheduled_at : Time
  pub status : String
  pub result : Option ResultDto

pub record StandingDto : Type 0 where
  pub position : ℕ
  pub team_id : Uuid
  pub points : ℕ
  pub played : ℕ
  pub won : ℕ
  pub drawn : ℕ
  pub lost : ℕ
  pub goals_for : ℕ
  pub goals_against : ℕ
  pub goal_diff : ℕ

pub record GroupDto : Type 0 where
  pub name : String
  pub status : String
  pub teams : List Uuid
  pub standings : List StandingDto
  pub matches : List MatchDto

pub record KnockoutDto : Type 0 where
  pub round_of_32 : List MatchDto
  pub quarterfinals : List MatchDto
  pub semifinals : List MatchDto
  pub third_place : Option MatchDto
  pub final : Option MatchDto

pub record FixtureDto : Type 0 where
  pub tournament_id : Uuid
  pub edition : ℕ
  pub name : String
  pub status : String
  pub groups : List GroupDto
  pub knockout : Option KnockoutDto

pub record BestThirdDto : Type 0 where
  pub group_name : String
  pub rank : ℕ
  pub classified : Bool
  pub standing : StandingDto

unfoldable pub to_slot_dto : MatchSlot → SlotDto
to_slot_dto s = record {
  kind = kind_text s.kind;
  team_id = s.team_id;
  source_match_id = s.source_match_id;
}

unfoldable pub to_result_dto : MatchResult → ResultDto
to_result_dto r = record {
  home_goals = r.home_goals;
  away_goals = r.away_goals;
  home_goals_et = r.home_goals_et;
  away_goals_et = r.away_goals_et;
  home_goals_pen = r.home_goals_pen;
  away_goals_pen = r.away_goals_pen;
  winner_id = if winner r == nil_uuid then none else some (winner r);
  completed_at = r.completed_at;
}

abbrev pub optional_result : Option MatchResult → Option ResultDto
optional_result none = none
optional_result (some r) = some (to_result_dto r)

unfoldable pub to_match_dto : Match → MatchDto
to_match_dto m = record {
  id = m.id;
  match_number = m.match_number;
  phase = phase_text m.phase;
  home_slot = to_slot_dto m.home_slot;
  away_slot = to_slot_dto m.away_slot;
  venue_id = m.venue_id;
  scheduled_at = m.scheduled_at;
  status = status_text m.status;
  result = optional_result m.result;
}

unfoldable pub to_standing_dto : GroupStanding → StandingDto
to_standing_dto s = record {
  position = s.position;
  team_id = s.team_id;
  points = points s;
  played = s.played;
  won = s.won;
  drawn = s.drawn;
  lost = s.lost;
  goals_for = s.goals_for;
  goals_against = s.goals_against;
  goal_diff = goal_difference s;
}

unfoldable pub to_group_dto : Group → GroupDto
to_group_dto g = record {
  name = g.name;
  status = group_status_text g.status;
  teams = team_list g.teams;
  standings = map to_standing_dto g.standings;
  matches = map to_match_dto g.matches;
}

abbrev pub empty_knockout : KnockoutDto
empty_knockout = record {
  round_of_32 = [];
  quarterfinals = [];
  semifinals = [];
  third_place = none;
  final = none;
}

-- `if len(matches) > 0 { ... = &matches[0] }`
abbrev pub first_or : Option MatchDto → List MatchDto → Option MatchDto
first_or o [] = o
first_or o (m ∷ _) = some m

-- One turn of the loop over the rounds: the `switch` on the phase.
unfoldable pub add_round : MatchPhase → List MatchDto → KnockoutDto → KnockoutDto
add_round MatchPhase.round_of_32 ms k = record k { round_of_32 = ms }
add_round MatchPhase.quarterfinal ms k = record k { quarterfinals = ms }
add_round MatchPhase.semifinal ms k = record k { semifinals = ms }
add_round MatchPhase.third_place ms k = record k { third_place = first_or k.third_place ms }
add_round MatchPhase.final ms k = record k { final = first_or k.final ms }
add_round MatchPhase.group_phase ms k = k

unfoldable pub add_rounds : List Round → KnockoutDto → KnockoutDto
add_rounds [] k = k
add_rounds (r ∷ rounds) k = add_rounds rounds (add_round r.phase (map to_match_dto r.matches) k)

unfoldable pub to_knockout_dto : List Round → KnockoutDto
to_knockout_dto rounds = add_rounds rounds empty_knockout

abbrev pub optional_knockout : List Round → Option KnockoutDto
optional_knockout [] = none
optional_knockout (r ∷ rounds) = some (to_knockout_dto (r ∷ rounds))

unfoldable pub to_fixture_dto : Fixture → FixtureDto
to_fixture_dto f = record {
  tournament_id = f.tournament_id;
  edition = f.edition;
  name = f.name;
  status = tournament_status_text f.status;
  groups = map to_group_dto f.groups;
  knockout = optional_knockout f.knockout_rounds;
}
