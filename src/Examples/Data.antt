-- ===== src/Examples/Data.antt =====
-- A tournament with one group, whose first match is played, and a store that holds it.
use wc_fixture.Base.{ℕ, ◌+◌, Uuid, none, List, [], ◌∷◌, String, true}
use wc_fixture.Core.Slot.{slot_for_team}
use wc_fixture.Core.Match as Match
use wc_fixture.Core.Match.{Match, group_phase}
use wc_fixture.Core.Result.{MatchResult}
use wc_fixture.Core.Standing.{insertion_sort}
use wc_fixture.Core.Standing.Sort.{insertion_sort-IsStableSort}
use wc_fixture.Core.Group.{Group, pending, zero_standing, zero_standings}
use wc_fixture.Core.Fixture.{Fixture, Runtime, group_stage}
use wc_fixture.Core.Thirds.{BestThirdCandidate}

abbrev pub env : Runtime
env = record {
  now = 100;
  event_id = λ n. 1000 + n;
  match_id = λ n. 2000 + n;
  marshals = λ p. true;
  slice_stable = λ less. insertion_sort less;
  slice_stable_lem = λ less o. insertion_sort-IsStableSort less o;
}

abbrev pub group_match : Uuid → Uuid → Uuid → Match
group_match id home away = record {
  id = id;
  phase = group_phase;
  match_number = id;
  home_slot = slot_for_team home;
  away_slot = slot_for_team away;
  venue_id = 7;
  scheduled_at = 50;
  status = Match.scheduled;
  result = none;
  parent_home_match_id = none;
  parent_away_match_id = none;
}

abbrev pub group_a : Group
group_a = record {
  id = 90;
  name = "A";
  status = pending;
  teams = record { first = 1; second = 2; third = 3; fourth = 4 };
  matches =
      group_match 11 1 2
      ∷ group_match 12 3 4
      ∷ group_match 13 1 3
      ∷ group_match 14 2 4
      ∷ group_match 15 1 4
      ∷ group_match 16 2 3
      ∷ [];
  standings = zero_standings (1 ∷ 2 ∷ 3 ∷ 4 ∷ []);
}

abbrev pub cup : Fixture
cup = record {
  id = 91;
  tournament_id = 92;
  edition = 2026;
  name = "WC";
  status = group_stage;
  groups = group_a ∷ [];
  knockout_rounds = [];
  version = 0;
  pending_events = [];
}

abbrev pub result_of : Uuid → Uuid → ℕ → ℕ → MatchResult
result_of home away h a = record {
  home_team_id = home;
  away_team_id = away;
  home_goals = h;
  away_goals = a;
  home_goals_et = none;
  away_goals_et = none;
  home_goals_pen = none;
  away_goals_pen = none;
  completed_at = 99;
}

-- A group letter with its runners.
abbrev pub lettered : String → Uuid → Group
lettered name first = record {
  id = first;
  name = name;
  status = pending;
  teams = record { first = first; second = first + 1; third = first + 2; fourth = first + 3 };
  matches = [];
  standings =
      zero_standing first
      ∷ zero_standing (first + 1)
      ∷ zero_standing (first + 2)
      ∷ zero_standing (first + 3)
      ∷ [];
}

abbrev pub twelve_groups : List Group
twelve_groups =
    lettered "A" 100
    ∷ lettered "B" 110
    ∷ lettered "C" 120
    ∷ lettered "D" 130
    ∷ lettered "E" 140
    ∷ lettered "F" 150
    ∷ lettered "G" 160
    ∷ lettered "H" 170
    ∷ lettered "I" 180
    ∷ lettered "J" 190
    ∷ lettered "K" 200
    ∷ lettered "L" 210
    ∷ []

abbrev pub eight_thirds : List Uuid
eight_thirds = 102 ∷ 112 ∷ 122 ∷ 132 ∷ 142 ∷ 152 ∷ 162 ∷ 172 ∷ []

abbrev pub candidate : Uuid → ℕ → BestThirdCandidate
candidate id won =
    let s = zero_standing id in record { standing = record s { won = won }; group_name = "A" }

abbrev pub nine_candidates : List BestThirdCandidate
nine_candidates =
    candidate 1 0
    ∷ candidate 2 1
    ∷ candidate 3 1
    ∷ candidate 4 1
    ∷ candidate 5 1
    ∷ candidate 6 1
    ∷ candidate 7 1
    ∷ candidate 8 1
    ∷ candidate 9 2
    ∷ []
