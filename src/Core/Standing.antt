-- ===== src/Core/Standing.antt =====
-- The table of a group: contexts/fixture-core/internal/domain/fixture/standing.go.
-- Every statistic is an `int`; a slice is a list, and `standings[j]` in the inner loop of the sort
-- is the element between the reversed part before it and the part after it.
pub mod Order
pub mod Sort
use wc_fixture.Base.{ℕ, ◌+◌, Uuid, Bool, not, List, [], ◌∷◌, ◌++◌, reverse, ◌==◌, if◌then◌else◌}
use wc_fixture.Base.Int.{add, sub, mul, lt, eq}
use wc_fixture.Core.Result.{MatchResult}

pub record GroupStanding : Type 0 where
  pub team_id : Uuid
  pub position : ℕ
  pub played : ℕ
  pub won : ℕ
  pub drawn : ℕ
  pub lost : ℕ
  pub goals_for : ℕ
  pub goals_against : ℕ
  pub yellow_cards : ℕ
  pub red_cards : ℕ

unfoldable pub points : GroupStanding → ℕ
points s = add (mul s.won 3) s.drawn

unfoldable pub goal_difference : GroupStanding → ℕ
goal_difference s = sub s.goals_for s.goals_against

unfoldable pub fair_play_points : GroupStanding → ℕ
fair_play_points s = add (mul s.yellow_cards 1) (mul s.red_cards 3)

unfoldable pub standing_less : GroupStanding → GroupStanding → Bool
standing_less a b =
    if not (eq (points a) (points b))
    then lt (points b) (points a)
    else if not (eq (goal_difference a) (goal_difference b))
    then lt (goal_difference b) (goal_difference a)
    else if not (eq a.goals_for b.goals_for)
    then lt b.goals_for a.goals_for
    else lt (fair_play_points a) (fair_play_points b)

module _ {ℓ} {A : Type ℓ} (less : A → A → Bool) where
  -- The inner loop: `before` is the part of the slice before `j`, reversed, `x` the element at `j`
  -- and `after` the part behind it. A swap moves `x` one place to the left.
  unfoldable pub sink : List A → A → List A → List A
  sink [] x after = x ∷ after
  sink (y ∷ before) x after =
      if less x y then sink before x (y ∷ after) else reverse (y ∷ before) ++ (x ∷ after)

  -- The outer loop: `done` is the slice before `i`.
  unfoldable pub sort_loop : List A → List A → List A
  sort_loop done [] = done
  sort_loop done (x ∷ rest) = sort_loop (sink (reverse done) x []) rest

  unfoldable pub insertion_sort : List A → List A
  insertion_sort xs = sort_loop [] xs

unfoldable pub sort_standings : List GroupStanding → List GroupStanding
sort_standings = insertion_sort standing_less

unfoldable pub apply_result_to_standing : GroupStanding → ℕ → ℕ → GroupStanding
apply_result_to_standing s goals_for goals_against =
    let t = record s {
      played = add s.played 1;
      goals_for = add s.goals_for goals_for;
      goals_against = add s.goals_against goals_against;
    } in
    if lt goals_against goals_for
    then record t { won = add s.won 1 }
    else if eq goals_for goals_against
    then record t { drawn = add s.drawn 1 }
    else record t { lost = add s.lost 1 }

-- The `switch` in the first loop: the standing of one team after the result.
unfoldable pub update_standing : MatchResult → GroupStanding → GroupStanding
update_standing r s =
    if s.team_id == r.home_team_id
    then apply_result_to_standing s r.home_goals r.away_goals
    else if s.team_id == r.away_team_id
    then apply_result_to_standing s r.away_goals r.home_goals
    else s

-- The last loop, from index `i`; indices of a slice do not wrap.
unfoldable pub number_positions : ℕ → List GroupStanding → List GroupStanding
number_positions i [] = []
number_positions i (s ∷ rest) = record s { position = i + 1 } ∷ number_positions (i + 1) rest

unfoldable pub update_standings : MatchResult → List GroupStanding → List GroupStanding
update_standings r [] = []
update_standings r (s ∷ rest) = update_standing r s ∷ update_standings r rest

unfoldable pub apply_match_to_standings : List GroupStanding → MatchResult → List GroupStanding
apply_match_to_standings standings r =
    number_positions 0 (sort_standings (update_standings r standings))
