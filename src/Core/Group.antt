-- ===== src/Core/Group.antt =====
-- A group of four teams: contexts/fixture-core/internal/domain/fixture/group.go.
pub mod Tally
pub mod Ranks
pub mod Table
pub mod Apply
pub mod Repeat
use wc_fixture.Base.{
  ℕ, suc, Uuid, nil_uuid, String, Bool, false, ◌||◌, Option, none, some, List, [], ◌∷◌, ◌==◌,
  if◌then◌else◌,
}
use wc_fixture.Base.Cursor.{Cursor, find, write}
use wc_fixture.Core.Errors.{DomainError, err_match_not_found}
use wc_fixture.Core.Result.{MatchResult}
use wc_fixture.Core.Match.{Match, is_completed, validate_result, complete}
use wc_fixture.Core.Standing.{GroupStanding, apply_match_to_standings}

pub data GroupStatus : Type 0 where
  pending in_progress completed : GroupStatus

-- `[4]uuid.UUID`
pub record Teams : Type 0 where
  pub first : Uuid
  pub second : Uuid
  pub third : Uuid
  pub fourth : Uuid

abbrev pub team_list : Teams → List Uuid
team_list t = t.first ∷ t.second ∷ t.third ∷ t.fourth ∷ []

pub record Group : Type 0 where
  pub id : Uuid
  pub name : String
  pub status : GroupStatus
  pub teams : Teams
  pub matches : List Match
  pub standings : List GroupStanding

abbrev pub matches_per_group : ℕ
matches_per_group = 6

unfoldable pub count_completed : List Match → ℕ
count_completed [] = 0
count_completed (m ∷ rest) = let n = count_completed rest in if is_completed m then suc n else n

unfoldable pub completed_match_count : Group → ℕ
completed_match_count g = count_completed g.matches

unfoldable pub is_complete : Group → Bool
is_complete g = completed_match_count g == matches_per_group

abbrev pub first_two : List GroupStanding → Uuid × Uuid
first_two (s ∷ t ∷ rest) = (s.team_id, t.team_id)
first_two _ = (nil_uuid, nil_uuid)

unfoldable pub classified_teams : Group → Uuid × Uuid
classified_teams g = first_two g.standings

abbrev pub third_of : List GroupStanding → Option GroupStanding
third_of (s ∷ t ∷ u ∷ rest) = some u
third_of _ = none

-- The Boolean that `ThirdPlace` returns besides is `is_some` of this.
unfoldable pub third_place : Group → Option GroupStanding
third_place g = third_of g.standings

unfoldable pub find_standing : Uuid → List GroupStanding → Option GroupStanding
find_standing id [] = none
find_standing id (s ∷ rest) = if s.team_id == id then some s else find_standing id rest

unfoldable pub standing_for : Group → Uuid → Option GroupStanding
standing_for g id = find_standing id g.standings

unfoldable pub find_match : Group → Uuid → Option (Cursor Match)
find_match g id = find (λ m. m.id == id) g.matches

-- `GroupStanding{TeamID: teamID}`: all else is 0.
unfoldable pub zero_standing : Uuid → GroupStanding
zero_standing id = record {
  team_id = id;
  position = 0;
  played = 0;
  won = 0;
  drawn = 0;
  lost = 0;
  goals_for = 0;
  goals_against = 0;
  yellow_cards = 0;
  red_cards = 0;
}

unfoldable pub zero_standings : List Uuid → List GroupStanding
zero_standings [] = []
zero_standings (t ∷ rest) = zero_standing t ∷ zero_standings rest

-- The result of a match that counts: `m.IsCompleted() && m.Result != nil`.
unfoldable pub counted_result : Match → Option MatchResult
counted_result m = if is_completed m then m.result else none

abbrev pub apply_counted : Option MatchResult → List GroupStanding → List GroupStanding
apply_counted none standings = standings
apply_counted (some r) standings = apply_match_to_standings standings r

unfoldable pub apply_matches : List GroupStanding → List Match → List GroupStanding
apply_matches standings [] = standings
apply_matches standings (m ∷ rest) = apply_matches (apply_counted (counted_result m) standings) rest

unfoldable pub recalculate_standings : Group → Group
recalculate_standings g = record g {
  standings = apply_matches (zero_standings (team_list g.teams)) g.matches;
}

abbrev pub start : GroupStatus → GroupStatus
start pending = in_progress
start s = s

-- The last two tests of `applyResult`.
unfoldable pub update_status : Group → Group
update_status g =
    let h = record g { status = start g.status } in
    if is_complete h then record h { status = completed } else h

-- The rest of `applyResult`, with the pointer that `findMatch` returned.
unfoldable pub apply_at : Group → MatchResult → Cursor Match → Group × Option DomainError
apply_at g r c = elim (validate_result c.here r) [
  | some e ↦ (g, some e)
  | none ↦ (
    update_status (recalculate_standings (record g { matches = write c (complete r c.here) })),
    none,
  )
]

unfoldable pub apply_result : Group → Uuid → MatchResult → Group × Option DomainError
apply_result g id r = elim (find_match g id) [
  | none ↦ (g, some (err_match_not_found id))
  | some c ↦ apply_at g r c
]

unfoldable pub mem_team : Uuid → List Uuid → Bool
mem_team id [] = false
mem_team id (t ∷ rest) = t == id || mem_team id rest

unfoldable pub has_team : Group → Uuid → Bool
has_team g id = mem_team id (team_list g.teams)
