-- ===== src/Examples/Stage.antt =====
-- The end of the group stage on concrete data: twelve groups, with one match left to play.
use wc_fixture.Base.{
  ℕ, ◌+◌, ◌*◌, ◌≤◌, Uuid, ◌≡◌, refl, none, some, List, [], ◌∷◌, arith, length, All,
}
use wc_fixture.Core.Match as Match
use wc_fixture.Core.Match.{Match}
use wc_fixture.Core.Group as Group
use wc_fixture.Core.Group.{Group, completed_match_count, matches_per_group}
use wc_fixture.Core.Group.Apply.{IsGroup}
use wc_fixture.Core.Fixture.{Fixture, knockout, all_groups_complete}
use wc_fixture.Core.Fixture.Register.{register_match_result}
use wc_fixture.Core.Fixture.Invariant.{IsConsistent}
use wc_fixture.Core.Fixture.Progress.{played, start, accept, Accepted-knockout}
use wc_fixture.Examples.Data.{env, group_a, group_match, cup, result_of}

abbrev played_match : Uuid → Uuid → Uuid → Match
played_match id home away = record (group_match id home away) {
  status = Match.completed;
  result = some (result_of home away 1 0);
}

abbrev full_group : ℕ → Group
full_group n = record group_a {
  id = n;
  status = Group.completed;
  teams = record { first = n + 1; second = n + 2; third = n + 3; fourth = n + 4 };
  matches =
      played_match (n + 11) (n + 1) (n + 2)
      ∷ played_match (n + 12) (n + 3) (n + 4)
      ∷ played_match (n + 13) (n + 1) (n + 3)
      ∷ played_match (n + 14) (n + 2) (n + 4)
      ∷ played_match (n + 15) (n + 1) (n + 4)
      ∷ played_match (n + 16) (n + 2) (n + 3)
      ∷ [];
}

abbrev last_group : Group
last_group = record group_a {
  status = Group.in_progress;
  matches =
      played_match 11 1 2
      ∷ played_match 12 3 4
      ∷ played_match 13 1 3
      ∷ played_match 14 2 4
      ∷ played_match 15 1 4
      ∷ group_match 16 2 3
      ∷ [];
}

abbrev full_groups : List ℕ → List Group
full_groups [] = []
full_groups (n ∷ rest) = full_group n ∷ full_groups rest

abbrev eleven : List ℕ
eleven = 100 ∷ 200 ∷ 300 ∷ 400 ∷ 500 ∷ 600 ∷ 700 ∷ 800 ∷ 900 ∷ 1000 ∷ 1100 ∷ []

abbrev last_cup : Fixture
last_cup = record cup { groups = last_group ∷ full_groups eleven }

full_group-IsGroup : (n : ℕ) → IsGroup (full_group n)
unfolding completed_match_count wc_fixture.Core.Group.count_completed
    wc_fixture.Core.Match.is_completed
full_group-IsGroup n = record { six = refl; status_exact = refl }

full_groups-All : (ns : List ℕ) → All IsGroup (full_groups ns)
full_groups-All [] = tt
full_groups-All (n ∷ rest) = (full_group-IsGroup n, full_groups-All rest)

last_group-IsGroup : IsGroup last_group
unfolding completed_match_count wc_fixture.Core.Group.count_completed
    wc_fixture.Core.Match.is_completed
last_group-IsGroup = record { six = refl; status_exact = refl }

last_cup-IsConsistent : IsConsistent last_cup
unfolding all_groups_complete wc_fixture.Core.Fixture.all_completed
last_cup-IsConsistent = record {
  groups_ok = (last_group-IsGroup, full_groups-All eleven);
  stage_exact = refl;
  no_rounds = λ _. refl;
  bracket = λ o. absurd (cc);
}

last_cup_one_left : 1 + played last_cup.groups ≡ 72
unfolding played completed_match_count wc_fixture.Core.Group.count_completed
    wc_fixture.Core.Match.is_completed
last_cup_one_left = refl

last_match_accepted : (register_match_result env last_cup 16 (result_of 2 3 2 0)).1 ≡ none
unfolding register_match_result wc_fixture.Core.Fixture.find_group_by_match
    wc_fixture.Base.Cursor.find wc_fixture.Core.Group.find_match
    wc_fixture.Core.Fixture.Register.register_group_result wc_fixture.Core.Group.apply_result
    wc_fixture.Core.Group.apply_at wc_fixture.Core.Match.validate_result
    wc_fixture.Core.Match.is_completed wc_fixture.Core.Match.both_slots_resolved
    wc_fixture.Core.Slot.is_resolved wc_fixture.Core.Slot.slot_for_team wc_fixture.Base.Int.rank
    wc_fixture.Core.Match.is_knockout_phase
last_match_accepted = refl

Accepted-knockout_example :
    (register_match_result env last_cup 16 (result_of 2 3 2 0)).0.status ≡ knockout
Accepted-knockout_example =
    Accepted-knockout last_cup last_cup-IsConsistent refl (omega arith)
      (omega (arith, last_cup_one_left))
      (accept env 16 (result_of 2 3 2 0) start last_match_accepted)
