-- ===== src/Core/Match.antt =====
-- A match: contexts/fixture-core/internal/domain/fixture/match.go.
use wc_fixture.Base.{
  ℕ, Uuid, Time, Bool, true, false, not, ◌&&◌, ◌||◌, Option, none, some, is_some, if◌then◌else◌,
}
use wc_fixture.Base.Int.{eq, is_neg}
use wc_fixture.Core.Errors.{
  DomainError, err_match_already_completed, err_slot_not_resolved, err_invalid_result,
}
use wc_fixture.Core.Slot.{MatchSlot, is_resolved}
use wc_fixture.Core.Result.{MatchResult}

pub data MatchPhase : Type 0 where
  group_phase round_of_32 quarterfinal semifinal third_place final : MatchPhase

pub data MatchStatus : Type 0 where
  scheduled in_progress completed postponed : MatchStatus

pub record Match : Type 0 where
  pub id : Uuid
  pub phase : MatchPhase
  pub match_number : ℕ
  pub home_slot : MatchSlot
  pub away_slot : MatchSlot
  pub venue_id : Uuid
  pub scheduled_at : Time
  pub status : MatchStatus
  pub result : Option MatchResult
  pub parent_home_match_id : Option Uuid
  pub parent_away_match_id : Option Uuid

abbrev pub is_group_phase : MatchPhase → Bool
is_group_phase group_phase = true
is_group_phase _ = false

abbrev pub is_completed_status : MatchStatus → Bool
is_completed_status completed = true
is_completed_status _ = false

unfoldable pub is_knockout_phase : Match → Bool
is_knockout_phase m = not (is_group_phase m.phase)

unfoldable pub is_completed : Match → Bool
is_completed m = is_completed_status m.status && is_some m.result

unfoldable pub both_slots_resolved : Match → Bool
both_slots_resolved m = is_resolved m.home_slot && is_resolved m.away_slot

-- `none` is Go's `nil`: the result is accepted.
unfoldable pub validate_result : Match → MatchResult → Option DomainError
validate_result m r =
    if is_completed m
    then some (err_match_already_completed m.id)
    else if not (both_slots_resolved m)
    then some (err_slot_not_resolved m.id)
    else if is_neg r.home_goals || is_neg r.away_goals
    then some (err_invalid_result "los goles no pueden ser negativos")
    else if is_knockout_phase m && (eq r.home_goals r.away_goals && not (is_some r.home_goals_et))
    then some (err_invalid_result "un partido eliminatorio en empate requiere tiempo extra")
    else none

-- `match.Result = &result; match.Status = MatchStatusCompleted`
unfoldable pub complete : MatchResult → Match → Match
complete r m = record m { result = some r; status = completed }
