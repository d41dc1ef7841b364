-- ===== src/Examples/Domain.antt =====
-- The theorems on the domain model, applied to concrete data.
use wc_fixture.Base.{
  ℕ, ◌+◌, ◌<◌, ◌≤◌, suc, Uuid, nil_uuid, ◌≡◌, ◌≢◌, refl, Option, none, some, List, [], ◌∷◌, ◌++◌,
  arith, length, take, map, All, Bool, true, false,
}
use wc_fixture.Base.Order.{IsStableSort}
use wc_fixture.Core.Errors.{err_match_not_found, err_match_already_completed}
use wc_fixture.Core.Result.Laws as Result
use wc_fixture.Core.Result.Laws.{winner-Outcome}
use wc_fixture.Core.Match.{Match}
use wc_fixture.Core.Standing.{standing_less, insertion_sort}
use wc_fixture.Core.Standing.Sort.{insertion_sort-IsStableSort}
use wc_fixture.Core.Standing.Order.{
  standing_less-lex, standing_less-IsStrictWeakOrder, lex, ranking_keys,
}
use wc_fixture.Core.Group.{
  Group, zero_standing, apply_result, recalculate_standings, completed_match_count,
}
use wc_fixture.Core.Group.Table.{IsTable, recalculate_standings-IsTable}
use wc_fixture.Core.Group.Apply.{IsGroup, IsUpdated, apply_result-IsUpdated}
use wc_fixture.Core.Thirds.{classify, candidate_ids, candidate_less}
use wc_fixture.Core.Thirds.Laws.{classify-insertion_sort, classify-IsBestEight, IsBestEight}
use wc_fixture.Core.Fixture.{Fixture, is_finished, all_groups_complete}
use wc_fixture.Core.Fixture.{find_group_by_match}
use wc_fixture.Core.Fixture.Repeat.{register_match_result-again}
use wc_fixture.Core.Fixture.Bracket.{
  generate_knockout_bracket, build_round_of_32, resolve_group_classified,
}
use wc_fixture.Core.Fixture.Register.{register_match_result}
use wc_fixture.Core.Fixture.Schedule.{update_match_schedule}
use wc_fixture.Core.Fixture.Announced.{IsRegistered, register_match_result_success}
use wc_fixture.Core.Fixture.Outcome.{register_match_result_error_unchanged}
use wc_fixture.Core.Fixture.Invariant.{IsConsistent}
use wc_fixture.Core.Fixture.Stranded.{IsStranded, generate_knockout_bracket-IsStranded}
use wc_fixture.Core.Fixture.Reschedule.{Rescheduled, update_match_schedule-Rescheduled}
use wc_fixture.Core.Fixture.Runs.{
  Reach, Reach-IsConsistent, Reach-not_finished, next, here, register, update_schedule,
}
use wc_fixture.Core.Fixture.Qualified.{
  build_round_of_32-qualified, build_round_of_32-IsRoundOf32, occurrences, slot_teams, firsts,
  seconds, IsRoundOf32,
}
use wc_fixture.Examples.Data.{
  env, group_a, cup, result_of, twelve_groups, eight_thirds, nine_candidates,
}

group_a-IsGroup : IsGroup group_a
unfolding completed_match_count wc_fixture.Core.Group.count_completed
    wc_fixture.Core.Match.is_completed
group_a-IsGroup = record { six = refl; status_exact = refl }

cup-IsConsistent : IsConsistent cup
unfolding all_groups_complete
cup-IsConsistent = record {
  groups_ok = (group_a-IsGroup, tt);
  stage_exact = refl;
  no_rounds = λ _. refl;
  bracket = λ o. absurd (cc);
}

cup_run :
    Reach cup
      (update_match_schedule env (register_match_result env cup 11 (result_of 1 2 3 1)).0 12 60 8).0
cup_run = next (next here (register env 11 (result_of 1 2 3 1))) (update_schedule env 12 60 8)

cup_played : (register_match_result env cup 11 (result_of 1 2 3 1)).1 ≡ none
unfolding register_match_result wc_fixture.Core.Fixture.find_group_by_match
    wc_fixture.Base.Cursor.find wc_fixture.Core.Group.find_match
    wc_fixture.Core.Fixture.Register.register_group_result wc_fixture.Core.Group.apply_result
    wc_fixture.Core.Group.apply_at wc_fixture.Core.Match.validate_result
    wc_fixture.Core.Match.is_completed wc_fixture.Core.Match.both_slots_resolved
    wc_fixture.Core.Slot.is_resolved wc_fixture.Core.Slot.slot_for_team wc_fixture.Base.Int.rank
    wc_fixture.Core.Match.is_knockout_phase
cup_played = refl

cup_unknown :
    (register_match_result env cup 99 (result_of 1 2 3 1)).1 ≡ some (err_match_not_found 99)
unfolding register_match_result wc_fixture.Core.Fixture.find_group_by_match
    wc_fixture.Base.Cursor.find wc_fixture.Core.Group.find_match
    wc_fixture.Core.Fixture.Register.register_in_knockout
    wc_fixture.Core.Fixture.find_knockout_match wc_fixture.Core.Fixture.find_in_rounds
cup_unknown = refl

group_a_played : (apply_result group_a 11 (result_of 1 2 3 1)).1 ≡ none
unfolding apply_result wc_fixture.Core.Group.find_match wc_fixture.Base.Cursor.find
    wc_fixture.Core.Group.apply_at wc_fixture.Core.Match.validate_result
    wc_fixture.Core.Match.is_completed wc_fixture.Core.Match.both_slots_resolved
    wc_fixture.Core.Slot.is_resolved wc_fixture.Core.Slot.slot_for_team wc_fixture.Base.Int.rank
    wc_fixture.Core.Match.is_knockout_phase
group_a_played = refl

Reach-not_finished_example :
    is_finished
      (update_match_schedule env
        (register_match_result env cup 11 (result_of 1 2 3 1)).0
        12
        60
        8).0.status
    ≡ false
Reach-not_finished_example = Reach-not_finished refl refl cup_run

Reach-IsConsistent_example :
    IsConsistent
      (update_match_schedule env (register_match_result env cup 11 (result_of 1 2 3 1)).0 12 60 8).0
Reach-IsConsistent_example = Reach-IsConsistent cup-IsConsistent cup_run

register_match_result_success_example :
    IsRegistered env cup 11
      (result_of 1 2 3 1)
      (register_match_result env cup 11 (result_of 1 2 3 1)).0
register_match_result_success_example =
    register_match_result_success env cup 11 (result_of 1 2 3 1) cup_played

register_match_result_error_unchanged_example :
    (register_match_result env cup 99 (result_of 1 2 3 1)).0 ≡ cup
register_match_result_error_unchanged_example =
    register_match_result_error_unchanged env cup 99 (result_of 1 2 3 1) (err_match_not_found 99)
      cup_unknown

apply_result-IsUpdated_example : IsUpdated group_a (apply_result group_a 11 (result_of 1 2 3 1)).0
apply_result-IsUpdated_example =
    apply_result-IsUpdated group_a 11 (result_of 1 2 3 1) group_a-IsGroup group_a_played

recalculate_standings-IsTable_example : IsTable (recalculate_standings group_a)
recalculate_standings-IsTable_example = recalculate_standings-IsTable group_a

generate_knockout_bracket-IsStranded_example :
    IsStranded (generate_knockout_bracket env cup).knockout_rounds
generate_knockout_bracket-IsStranded_example = generate_knockout_bracket-IsStranded env cup

winner-Outcome_example : Result.Outcome (result_of 1 2 3 1)
winner-Outcome_example =
    winner-Outcome (result_of 1 2 3 1) (omega arith) (omega arith) (λ e. absurd (omega arith))
      (λ e. absurd (omega arith)) (λ e. absurd (omega arith))

standing_less-lex_example :
    standing_less (zero_standing 1) (zero_standing 2)
    ≡ lex (ranking_keys (zero_standing 1)) (ranking_keys (zero_standing 2))
standing_less-lex_example = standing_less-lex (zero_standing 1) (zero_standing 2)

insertion_sort-IsStableSort_example : IsStableSort standing_less (insertion_sort standing_less)
insertion_sort-IsStableSort_example =
    insertion_sort-IsStableSort standing_less standing_less-IsStrictWeakOrder

classify-IsBestEight_example :
    IsBestEight nine_candidates (classify (λ less. insertion_sort less) nine_candidates)
classify-IsBestEight_example =
    classify-IsBestEight (λ less. insertion_sort less) nine_candidates
      (λ less o. insertion_sort-IsStableSort less o) (omega arith)

classify-insertion_sort_example :
    classify env.slice_stable nine_candidates
    ≡ candidate_ids (take 8 (insertion_sort candidate_less nine_candidates))
classify-insertion_sort_example =
    classify-insertion_sort env.slice_stable nine_candidates env.slice_stable_lem (omega arith)

build_round_of_32-qualified_example :
    occurrences 102
      (slot_teams (build_round_of_32 env (resolve_group_classified twelve_groups) eight_thirds))
    ≡ occurrences 102 (firsts twelve_groups ++ (seconds twelve_groups ++ eight_thirds))
build_round_of_32-qualified_example =
    build_round_of_32-qualified env twelve_groups eight_thirds 102 refl refl

no_nil : occurrences nil_uuid (firsts twelve_groups ++ (seconds twelve_groups ++ eight_thirds)) ≡ 0
unfolding wc_fixture.Base.Perms.total wc_fixture.Core.Group.classified_teams zero_standing
no_nil = refl

build_round_of_32-IsRoundOf32_example :
    (length (build_round_of_32 env (resolve_group_classified twelve_groups) eight_thirds) ≡ 16)
    × IsRoundOf32 49 (build_round_of_32 env (resolve_group_classified twelve_groups) eight_thirds)
    × (occurrences nil_uuid
          (slot_teams (build_round_of_32 env (resolve_group_classified twelve_groups) eight_thirds))
        ≡ 0)
build_round_of_32-IsRoundOf32_example =
    build_round_of_32-IsRoundOf32 env twelve_groups eight_thirds refl refl no_nil

update_match_schedule-Rescheduled_example :
    Rescheduled env cup 12 60 8 (update_match_schedule env cup 12 60 8)
update_match_schedule-Rescheduled_example = update_match_schedule-Rescheduled env cup 12 60 8

cup_found :
    find_group_by_match cup.groups 11 ≡ some (record { before = []; here = group_a; after = [] })
unfolding find_group_by_match wc_fixture.Base.Cursor.find wc_fixture.Core.Group.find_match
cup_found = refl

register_match_result-again_example :
    register_match_result env
      (register_match_result env cup 11 (result_of 1 2 3 1)).0
      11
      (result_of 1 2 0 0)
    ≡ (
      (register_match_result env cup 11 (result_of 1 2 3 1)).0,
      some (err_match_already_completed 11),
    )
register_match_result-again_example =
    register_match_result-again env env cup 11 (result_of 1 2 3 1) (result_of 1 2 0 0)
      (record { before = []; here = group_a; after = [] }) cup_found cup_played
