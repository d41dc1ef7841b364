-- ===== src/Examples/Service.antt =====
-- The theorems on the handlers, applied to a store that keeps its aggregates in a list.
use wc_fixture.Base.{
  ℕ, zero, suc, ◌+◌, Uuid, nil_uuid, String, ◌≡◌, ◌≢◌, ◌↔◌, refl, true, false, ◌||◌, ap, subst,
  arith, Option, none, some, List, [], ◌∷◌, All, Bool-cases, ◌⊎◌, inl, inr, ◌==◌, if◌then◌else◌,
  uuid_arg,
}
use wc_fixture.Core.Result.{winner, loser}
use wc_fixture.Core.Fixture.{Fixture, Runtime, drain_events}
use wc_fixture.Core.Fixture.Invariant.{IsConsistent}
use wc_fixture.Core.Fixture.Stranded.{IsUnfinished}
use wc_fixture.Shared.AppErrors.{err_not_found}
use wc_fixture.App.Ports.{Loaded, loaded, load_failed, Ports}
use wc_fixture.App.Results.{RegisterMatchResultCmd, validate_result_cmd, to_match_result}
use wc_fixture.App.Penalties.{validate_result_cmd-winner}
use wc_fixture.App.Setup.{
  MatchConfig, GroupConfig, InitializeTournamentCmd, validate_init_cmd, build_fixture,
}
use wc_fixture.App.Setup.{validate_unique_teams}
use wc_fixture.App.Setup.Unique.{IsDistinct, all_teams, validate_unique_teams-IsDistinct}
use wc_fixture.App.Setup.Build.{build_fixture-IsConsistent}
use wc_fixture.Examples.Data.{env}

unfoldable pub lookup : List Fixture → Uuid → Loaded
lookup [] id = load_failed (err_not_found "fixture" (uuid_arg id))
lookup (f ∷ rest) id = if f.tournament_id == id then loaded f else lookup rest id

abbrev pub memory : Ports (List Fixture)
memory = record {
  get = λ s id. (s, lookup s id);
  save = λ s f. record { world = f ∷ s; fixture = (drain_events f).0; failure = none };
  publish_all = λ s es. (s, none);
}

abbrev shoot_out : RegisterMatchResultCmd
shoot_out = record {
  tournament_id = 92;
  match_id = 11;
  home_goals = 1;
  away_goals = 1;
  home_goals_et = some 0;
  away_goals_et = some 0;
  home_goals_pen = some 3;
  away_goals_pen = some 4;
  home_team_id = 1;
  away_team_id = 2;
  completed_at = 99;
  registered_by = "manual";
}

abbrev fixture_of : ℕ → Uuid → Uuid → MatchConfig
fixture_of n home away = record {
  match_number = n;
  home_team_id = home;
  away_team_id = away;
  venue_id = 7;
  scheduled_at = 50;
}

abbrev group_of : String → Uuid → GroupConfig
group_of name t = record {
  name = name;
  teams = t ∷ (t + 1) ∷ (t + 2) ∷ (t + 3) ∷ [];
  matches =
      fixture_of 1 t (t + 1)
      ∷ fixture_of 2 (t + 2) (t + 3)
      ∷ fixture_of 3 t (t + 2)
      ∷ fixture_of 4 (t + 1) (t + 3)
      ∷ fixture_of 5 t (t + 3)
      ∷ fixture_of 6 (t + 1) (t + 2)
      ∷ [];
}

abbrev draw_2026 : InitializeTournamentCmd
draw_2026 = record {
  tournament_id = 92;
  edition = 2026;
  name = "WC";
  groups =
      group_of "A" 100
      ∷ group_of "B" 110
      ∷ group_of "C" 120
      ∷ group_of "D" 130
      ∷ group_of "E" 140
      ∷ group_of "F" 150
      ∷ group_of "G" 160
      ∷ group_of "H" 170
      ∷ group_of "I" 180
      ∷ group_of "J" 190
      ∷ group_of "K" 200
      ∷ group_of "L" 210
      ∷ [];
}

shoot_out_valid : validate_result_cmd shoot_out ≡ none
unfolding validate_result_cmd wc_fixture.Base.Int.rank wc_fixture.App.Results.validate_decision
    wc_fixture.App.Results.validate_penalties
shoot_out_valid = refl

draw_2026_valid : validate_init_cmd draw_2026 ≡ none
unfolding validate_init_cmd wc_fixture.Base.Int.rank wc_fixture.App.Setup.validate_groups
draw_2026_valid = refl

validate_result_cmd-winner_example :
    (winner (to_match_result shoot_out) ≢ nil_uuid) × (loser (to_match_result shoot_out) ≢ nil_uuid)
unfolding wc_fixture.Base.Int.rank
validate_result_cmd-winner_example = validate_result_cmd-winner shoot_out shoot_out_valid refl refl

build_fixture-IsConsistent_example :
    (f : Fixture) × (build_fixture env draw_2026 ≡ some f)
    × IsConsistent f
    × IsUnfinished f
    × (f.pending_events ≡ [])
build_fixture-IsConsistent_example = build_fixture-IsConsistent env draw_2026 draw_2026_valid

-- A clock and ids, in a place where no payload can be written.
abbrev mute : Runtime
mute = record env { marshals = λ p. false }

validate_unique_teams-IsDistinct_example :
    (validate_unique_teams draw_2026.groups ≡ none) ↔ IsDistinct (all_teams draw_2026.groups)
validate_unique_teams-IsDistinct_example = validate_unique_teams-IsDistinct draw_2026.groups
