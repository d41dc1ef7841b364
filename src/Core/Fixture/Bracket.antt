-- ===== src/Core/Fixture/Bracket.antt =====
-- The knockout bracket: `generateKnockoutBracket` and what it calls, in
-- contexts/fixture-core/internal/domain/fixture/fixture.go. A Go map is the list of its writes,
-- the latest first.
use text.Mathlib.Text.{◌==◌ as str_eq}
use wc_fixture.Base.{
  ℕ, zero, suc, ◌+◌, Uuid, nil_uuid, Time, String, Option, none, some, List, [], ◌∷◌, get_elem?,
  if◌then◌else◌,
}
use wc_fixture.Core.Slot.{MatchSlot, slot_for_team, empty_slot}
use wc_fixture.Core.Match.{
  MatchPhase, Match, scheduled, round_of_32, quarterfinal, semifinal, third_place, final,
}
use wc_fixture.Core.Group.{Group, classified_teams}
use wc_fixture.Core.Group as Group
use wc_fixture.Core.Standing.{GroupStanding}
use wc_fixture.Core.Thirds.{BestThirdCandidate, classify}
use wc_fixture.Core.Events.{knockout_bracket_generated, bracket_generated, to_match_snaps}
use wc_fixture.Core.Fixture.{Fixture, Round, Runtime, append_event}

abbrev pub candidate_of :
    Option GroupStanding → String → List BestThirdCandidate → List BestThirdCandidate
candidate_of none name rest = rest
candidate_of (some s) name rest = record { standing = s; group_name = name } ∷ rest

unfoldable pub third_candidates : List Group → List BestThirdCandidate
third_candidates [] = []
third_candidates (g ∷ rest) = candidate_of (Group.third_place g) g.name (third_candidates rest)

unfoldable pub best_third_candidates : Fixture → List BestThirdCandidate
best_third_candidates f = third_candidates f.groups

-- `map[string][2]uuid.UUID`
abbrev pub Classified : Type 0
Classified = List (String × Uuid × Uuid)

unfoldable pub add_classified : Classified → List Group → Classified
add_classified acc [] = acc
add_classified acc (g ∷ rest) =
    let (first, second) = classified_teams g in add_classified ((g.name, first, second) ∷ acc) rest

unfoldable pub resolve_group_classified : List Group → Classified
resolve_group_classified groups = add_classified [] groups

-- `classified[name][0]` and `classified[name][1]`: a missing key gives `uuid.Nil`.
unfoldable pub first_of_group : Classified → String → Uuid
first_of_group [] name = nil_uuid
first_of_group ((k, first, second) ∷ rest) name =
    if str_eq k name then first else first_of_group rest name

unfoldable pub second_of_group : Classified → String → Uuid
second_of_group [] name = nil_uuid
second_of_group ((k, first, second) ∷ rest) name =
    if str_eq k name then second else second_of_group rest name

abbrev pub or_nil : Option Uuid → Uuid
or_nil none = nil_uuid
or_nil (some id) = id

unfoldable pub best_thirds_or_nil : List Uuid → ℕ → Uuid
best_thirds_or_nil best_thirds i = or_nil (get_elem? best_thirds i)

-- The teams of the sixteen matches, home and away, as `defs` pairs them.
unfoldable pub round_of_32_pairs : Classified → List Uuid → List (Uuid × Uuid)
round_of_32_pairs c best =
    (first_of_group c "A", second_of_group c "B")
    ∷ (first_of_group c "C", second_of_group c "D")
    ∷ (first_of_group c "E", second_of_group c "F")
    ∷ (first_of_group c "G", second_of_group c "H")
    ∷ (first_of_group c "I", second_of_group c "J")
    ∷ (first_of_group c "K", second_of_group c "L")
    ∷ (first_of_group c "B", second_of_group c "A")
    ∷ (first_of_group c "D", second_of_group c "C")
    ∷ (first_of_group c "F", best_thirds_or_nil best 0)
    ∷ (first_of_group c "H", best_thirds_or_nil best 1)
    ∷ (first_of_group c "J", best_thirds_or_nil best 2)
    ∷ (first_of_group c "L", best_thirds_or_nil best 3)
    ∷ (second_of_group c "E", best_thirds_or_nil best 4)
    ∷ (second_of_group c "G", best_thirds_or_nil best 5)
    ∷ (second_of_group c "I", best_thirds_or_nil best 6)
    ∷ (second_of_group c "K", best_thirds_or_nil best 7)
    ∷ []

-- A scheduled match with no result, venue or parent; the zero time is 0.
unfoldable pub new_match : Uuid → MatchPhase → ℕ → MatchSlot → MatchSlot → Time → Match
new_match id phase number home away at = record {
  id = id;
  phase = phase;
  match_number = number;
  home_slot = home;
  away_slot = away;
  venue_id = nil_uuid;
  scheduled_at = at;
  status = scheduled;
  result = none;
  parent_home_match_id = none;
  parent_away_match_id = none;
}

-- The loop over `defs`, from index `i`.
unfoldable pub matches_of_pairs : Runtime → ℕ → List (Uuid × Uuid) → List Match
matches_of_pairs env i [] = []
matches_of_pairs env i ((home, away) ∷ rest) =
    new_match (env.match_id i) round_of_32 (49 + i) (slot_for_team home) (slot_for_team away)
      env.now
    ∷ matches_of_pairs env (suc i) rest

unfoldable pub build_round_of_32 : Runtime → Classified → List Uuid → List Match
build_round_of_32 env classified best_thirds =
    matches_of_pairs env 0 (round_of_32_pairs classified best_thirds)

-- `count` more matches with open slots; `drawn` match ids have been drawn before.
unfoldable pub build_empty_round : Runtime → ℕ → MatchPhase → ℕ → ℕ → List Match
build_empty_round env drawn phase zero number = []
build_empty_round env drawn phase (suc count) number =
    new_match (env.match_id drawn) phase number empty_slot empty_slot 0
    ∷ build_empty_round env (suc drawn) phase count (suc number)

unfoldable pub later_rounds : Runtime → List Round
later_rounds env =
    record { phase = quarterfinal; matches = build_empty_round env 16 quarterfinal 8 (49 + 16) }
    ∷ record { phase = semifinal; matches = build_empty_round env 24 semifinal 4 (49 + 16 + 8) }
    ∷ record {
      phase = third_place;
      matches = build_empty_round env 28 third_place 1 (49 + 16 + 8 + 4);
    }
    ∷ record { phase = final; matches = build_empty_round env 29 final 1 (49 + 16 + 8 + 4 + 1) }
    ∷ []

unfoldable pub generate_knockout_bracket : Runtime → Fixture → Fixture
generate_knockout_bracket env f =
    let best = classify env.slice_stable (best_third_candidates f) in
    let matches = build_round_of_32 env (resolve_group_classified f.groups) best in
    let g = record f {
      knockout_rounds = record { phase = round_of_32; matches = matches } ∷ later_rounds env;
    } in
    append_event env g knockout_bracket_generated (
      bracket_generated (record {
        tournament_id = f.tournament_id;
        best_thirds_selected = best;
        round_of_32_matches = to_match_snaps matches;
        generated_at = env.now;
      }))
