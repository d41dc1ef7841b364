-- ===== src/Core/Result.antt =====
-- The result of a match: `MatchResult`, `Winner` and `Loser` of
-- contexts/fixture-core/internal/domain/fixture/match.go.
pub mod Laws
use wc_fixture.Base.{ℕ, Uuid, nil_uuid, Time, Option, none, some, ◌==◌, if◌then◌else◌}
use wc_fixture.Base.Int.{add, lt}

pub record MatchResult : Type 0 where
  pub home_team_id : Uuid
  pub away_team_id : Uuid
  pub home_goals : ℕ
  pub away_goals : ℕ
  pub home_goals_et : Option ℕ
  pub away_goals_et : Option ℕ
  pub home_goals_pen : Option ℕ
  pub away_goals_pen : Option ℕ
  pub completed_at : Time

-- `if p != nil { total += *p }`
unfoldable pub add_goals : ℕ → Option ℕ → ℕ
add_goals total none = total
add_goals total (some g) = add total g

unfoldable pub home_total : MatchResult → ℕ
unfolding add_goals
home_total r = add_goals (add_goals r.home_goals r.home_goals_et) r.home_goals_pen

unfoldable pub away_total : MatchResult → ℕ
unfolding add_goals
away_total r = add_goals (add_goals r.away_goals r.away_goals_et) r.away_goals_pen

unfoldable pub winner : MatchResult → Uuid
winner r =
    if lt (away_total r) (home_total r)
    then r.home_team_id
    else if lt (home_total r) (away_total r)
    then r.away_team_id
    else nil_uuid

unfoldable pub loser : MatchResult → Uuid
loser r =
    let w = winner r in
    if w == nil_uuid
    then nil_uuid
    else if w == r.home_team_id
    then r.away_team_id
    else r.home_team_id
