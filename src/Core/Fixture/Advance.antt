-- ===== src/Core/Fixture/Advance.antt =====
-- `advanceKnockoutBracket` and `assignThirdPlaceSlot` of
-- contexts/fixture-core/internal/domain/fixture/fixture.go.
use wc_fixture.Base.{
  Uuid, nil_uuid, Bool, true, false, Option, none, some, List, [], ◌∷◌, map, if◌then◌else◌,
}
use wc_fixture.Core.Slot.{resolve}
use wc_fixture.Core.Result.{MatchResult, winner, loser}
use wc_fixture.Core.Match.{MatchPhase, Match, semifinal, third_place, final}
use wc_fixture.Core.Events as Events
use wc_fixture.Core.Events.{tournament_finished, knockout_match_advanced, match_advanced}
use wc_fixture.Core.Fixture.{
  Fixture, Round, Runtime, MatchPointer, append_event, write_match, find_next_match, points_to,
  finished,
}

abbrev pub is_semifinal : MatchPhase → Bool
is_semifinal semifinal = true
is_semifinal _ = false

abbrev pub is_third_place : MatchPhase → Bool
is_third_place third_place = true
is_third_place _ = false

abbrev pub is_final : MatchPhase → Bool
is_final final = true
is_final _ = false

-- The winner takes the home slot of the next match if the completed match is its own home parent,
-- as the source tests it, and the away slot otherwise.
unfoldable pub resolve_next : Match → Uuid → Match → Match
resolve_next done winner_id next =
    if points_to done.parent_home_match_id done.id
    then record next { home_slot = resolve next.home_slot winner_id }
    else record next { away_slot = resolve next.away_slot winner_id }

unfoldable pub resolve_third : Uuid → Uuid → Match → Match
resolve_third semifinal_id loser_id m =
    if points_to m.parent_home_match_id semifinal_id
    then record m { home_slot = resolve m.home_slot loser_id }
    else if points_to m.parent_away_match_id semifinal_id
    then record m { away_slot = resolve m.away_slot loser_id }
    else m

unfoldable pub assign_third_place_slot : Uuid → Uuid → List Round → List Round
assign_third_place_slot semifinal_id loser_id [] = []
assign_third_place_slot semifinal_id loser_id (r ∷ rest) =
    (if is_third_place r.phase
      then record r { matches = map (resolve_third semifinal_id loser_id) r.matches }
      else r)
    ∷ assign_third_place_slot semifinal_id loser_id rest

abbrev pub fill_next : Option MatchPointer → Match → Uuid → List Round → List Round
fill_next none done winner_id rounds = rounds
fill_next (some p) done winner_id rounds = write_match p (resolve_next done winner_id p.match.here)

abbrev pub pointed_id : Option MatchPointer → Option Uuid
pointed_id none = none
pointed_id (some p) = some p.match.here.id

-- The rounds after the slots of the next match and of the third place match are filled.
unfoldable pub advance_rounds : Match → MatchPhase → MatchResult → List Round → List Round
advance_rounds done phase r rounds =
    let filled = fill_next (find_next_match rounds done) done (winner r) rounds in
    if is_semifinal phase then assign_third_place_slot done.id (loser r) filled else filled

unfoldable pub finish_tournament : Runtime → Match → MatchResult → Fixture → Fixture
finish_tournament env done r f =
    append_event env (record f { status = finished }) tournament_finished
      (Events.finished (record {
        tournament_id = f.tournament_id;
        champion_id = winner r;
        runner_up_id = loser r;
        third_place_id = nil_uuid;
        final_match_id = done.id;
        finished_at = env.now;
      }))

-- `done` is the completed match, `phase` the phase of its round.
unfoldable pub advance_knockout_bracket :
    Runtime → Match → MatchPhase → MatchResult → Fixture → Fixture
advance_knockout_bracket env done phase r f =
    let g = record f { knockout_rounds = advance_rounds done phase r f.knockout_rounds } in
    let h = if is_final phase then finish_tournament env done r g else g in
    append_event env h knockout_match_advanced (
      match_advanced (record {
        completed_match_id = done.id;
        winner_team_id = winner r;
        loser_team_id = loser r;
        next_match_id = pointed_id (find_next_match f.knockout_rounds done);
        phase = phase;
        advanced_at = env.now;
      }))
