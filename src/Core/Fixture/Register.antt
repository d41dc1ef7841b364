-- ===== src/Core/Fixture/Register.antt =====
-- `RegisterMatchResult` of contexts/fixture-core/internal/domain/fixture/fixture.go. A command
-- returns the aggregate after it, and the error if there is one.
use wc_fixture.Base.{Uuid, Option, none, some, if◌then◌else◌}
use wc_fixture.Base.Int.{add}
use wc_fixture.Base.Cursor.{Cursor, write}
use wc_fixture.Core.Errors.{DomainError, err_match_not_found, err_tournament_already_ended}
use wc_fixture.Core.Result.{MatchResult}
use wc_fixture.Core.Match.{validate_result, complete}
use wc_fixture.Core.Group.{Group, apply_result, is_complete}
use wc_fixture.Core.Events.{
  match_result_registered, group_stage_completed, build_result_payload,
  build_group_completed_payload,
}
use wc_fixture.Core.Fixture.{
  Fixture, Runtime, MatchPointer, append_event, all_groups_complete, find_group_by_match,
  find_knockout_match, write_match, is_finished, knockout,
}
use wc_fixture.Core.Fixture.Bracket.{generate_knockout_bracket}
use wc_fixture.Core.Fixture.Advance.{advance_knockout_bracket}

abbrev pub bump_version : Fixture → Fixture
bump_version f = record f { version = add f.version 1 }

unfoldable pub close_group : Runtime → Group → Fixture → Fixture
close_group env g f =
    if is_complete g
    then append_event env f group_stage_completed (build_group_completed_payload env.now g)
    else f

unfoldable pub close_group_stage : Runtime → Fixture → Fixture
close_group_stage env f =
    if all_groups_complete f
    then record (generate_knockout_bracket env f) { status = knockout }
    else f

-- The group branch after `applyResult` succeeded: `g` is the group as it left it.
unfoldable pub after_group_result :
    Runtime → Uuid → MatchResult → Cursor Group → Group → Fixture → Fixture
after_group_result env id r c g f =
    let f1 = record f { groups = write c g } in
    let f2 = append_event env f1 match_result_registered (build_result_payload id g.name r) in
    bump_version (close_group_stage env (close_group env g f2))

abbrev pub group_outcome :
    Runtime
    → Uuid
    → MatchResult
    → Cursor Group
    → Fixture
    → Group × Option DomainError
    → Fixture × Option DomainError
group_outcome env id r c f (g, some e) = (f, some e)
group_outcome env id r c f (g, none) = (after_group_result env id r c g f, none)

unfoldable pub register_group_result :
    Runtime → Fixture → Uuid → MatchResult → Cursor Group → Fixture × Option DomainError
register_group_result env f id r c = group_outcome env id r c f (apply_result c.here id r)

-- The knockout branch after `validateResult` accepted the result.
unfoldable pub after_knockout_result :
    Runtime → Uuid → MatchResult → MatchPointer → Fixture → Fixture
after_knockout_result env id r p f =
    let done = complete r p.match.here in
    let f1 = record f { knockout_rounds = write_match p done } in
    let f2 = append_event env f1 match_result_registered (build_result_payload id "" r) in
    bump_version (advance_knockout_bracket env done p.round.here.phase r f2)

unfoldable pub register_knockout_result :
    Runtime → Fixture → Uuid → MatchResult → MatchPointer → Fixture × Option DomainError
register_knockout_result env f id r p = elim (validate_result p.match.here r) [
  | some e ↦ (f, some e)
  | none ↦ (after_knockout_result env id r p f, none)
]

unfoldable pub register_in_knockout :
    Runtime → Fixture → Uuid → MatchResult → Fixture × Option DomainError
register_in_knockout env f id r = elim (find_knockout_match f.knockout_rounds id) [
  | none ↦ (f, some (err_match_not_found id))
  | some p ↦ register_knockout_result env f id r p
]

unfoldable pub register_match_result :
    Runtime → Fixture → Uuid → MatchResult → Fixture × Option DomainError
register_match_result env f id r =
    if is_finished f.status
    then (f, some err_tournament_already_ended)
    else elim (find_group_by_match f.groups id) [
      | some c ↦ register_group_result env f id r c
      | none ↦ register_in_knockout env f id r
    ]
