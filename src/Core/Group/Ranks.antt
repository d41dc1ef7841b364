-- ===== src/Core/Group/Ranks.antt =====
-- The order and the positions of the standings that `recalculateStandings` computes.
use mathlib.Core.List.{Perm}
use wc_fixture.Base.{
  ℕ, ◌+◌, Uuid, ◌≡◌, refl, ◌∙◌, Option, none, some, List, [], ◌∷◌, All, arith, false, ◌⊎◌, inl, inr,
  ◌≢◌,
}
use wc_fixture.Base.Order.{IsSorted}
use wc_fixture.Core.Result.{MatchResult}
use wc_fixture.Core.Match.{Match}
use wc_fixture.Core.Standing.{
  GroupStanding, standing_less, points, goal_difference, fair_play_points, sort_standings,
  number_positions, apply_match_to_standings,
}
use wc_fixture.Core.Standing.Order.{standing_less-IsStrictWeakOrder}
use wc_fixture.Core.Standing.Sort.{insertion_sort-IsStableSort}
use wc_fixture.Core.Group.{
  zero_standing, zero_standings, counted_result, apply_counted, apply_matches,
}
use wc_fixture.Core.Group.Tally.{cons_result, counted_results}

pub sort_standings-perm : (xs : List GroupStanding) → Perm (sort_standings xs) xs
unfolding sort_standings
sort_standings-perm xs =
    (insertion_sort-IsStableSort standing_less standing_less-IsStrictWeakOrder).perm xs

sort_standings-IsSorted : (xs : List GroupStanding) → IsSorted standing_less (sort_standings xs)
unfolding sort_standings
sort_standings-IsSorted xs =
    (insertion_sort-IsStableSort standing_less standing_less-IsStrictWeakOrder).sorted xs

-- Order through one match.

abbrev at : ℕ → GroupStanding → GroupStanding
at i s = record s { position = i }

standing_less-at :
    (i j : ℕ) (a b : GroupStanding) → standing_less (at i a) (at j b) ≡ standing_less a b
unfolding standing_less points goal_difference fair_play_points
standing_less-at i j a b = refl

below-number_positions :
    (i j : ℕ) (s : GroupStanding) (xs : List GroupStanding)
    → All (λ y. standing_less y s ≡ false) xs
    → All (λ y. standing_less y (at j s) ≡ false) (number_positions i xs)
unfolding number_positions
below-number_positions i j s [] h = tt
below-number_positions i j s (x ∷ xs) h =
    (standing_less-at (i + 1) j x s ∙ h.0, below-number_positions (i + 1) j s xs h.1)

number_positions-IsSorted :
    (i : ℕ) (xs : List GroupStanding)
    → IsSorted standing_less xs
    → IsSorted standing_less (number_positions i xs)
unfolding number_positions
number_positions-IsSorted i [] h = tt
number_positions-IsSorted i (s ∷ xs) h =
    (below-number_positions (i + 1) (i + 1) s xs h.0, number_positions-IsSorted (i + 1) xs h.1)

apply_match-IsSorted :
    (xs : List GroupStanding) (r : MatchResult)
    → IsSorted standing_less (apply_match_to_standings xs r)
unfolding apply_match_to_standings
apply_match-IsSorted xs r = number_positions-IsSorted 0 _ (sort_standings-IsSorted _)

apply_counted-IsSorted :
    (o : Option MatchResult) (xs : List GroupStanding)
    → IsSorted standing_less xs
    → IsSorted standing_less (apply_counted o xs)
apply_counted-IsSorted none xs h = h
apply_counted-IsSorted (some r) xs h = apply_match-IsSorted xs r

pub apply_matches-IsSorted :
    (ms : List Match) (xs : List GroupStanding)
    → IsSorted standing_less xs
    → IsSorted standing_less (apply_matches xs ms)
unfolding apply_matches
apply_matches-IsSorted [] xs h = h
apply_matches-IsSorted (m ∷ ms) xs h =
    apply_matches-IsSorted ms _ (apply_counted-IsSorted (counted_result m) xs h)

zero_standings-below :
    (t : Uuid) (ts : List Uuid)
    → All (λ y. standing_less y (zero_standing t) ≡ false) (zero_standings ts)
unfolding zero_standings zero_standing standing_less points goal_difference fair_play_points
zero_standings-below t [] = tt
zero_standings-below t (u ∷ ts) = (ground arith, zero_standings-below t ts)

pub zero_standings-IsSorted : (ts : List Uuid) → IsSorted standing_less (zero_standings ts)
unfolding zero_standings
zero_standings-IsSorted [] = tt
zero_standings-IsSorted (t ∷ ts) = (zero_standings-below t ts, zero_standings-IsSorted ts)

-- Positions.

-- The positions run up from `i + 1`.
abbrev pub HasPositions : ℕ → List GroupStanding → Type 0
HasPositions i [] = Unit
HasPositions i (s ∷ xs) = (s.position ≡ i + 1) × HasPositions (i + 1) xs

number_positions-HasPositions :
    (i : ℕ) (xs : List GroupStanding) → HasPositions i (number_positions i xs)
unfolding number_positions
number_positions-HasPositions i [] = tt
number_positions-HasPositions i (s ∷ xs) = (refl, number_positions-HasPositions (i + 1) xs)

pub apply_matches-HasPositions :
    (ms : List Match) (xs : List GroupStanding)
    → HasPositions 0 xs ⊎ (counted_results ms ≢ [])
    → HasPositions 0 (apply_matches xs ms)
unfolding apply_matches counted_results
apply_matches-HasPositions [] xs (inl h) = h
apply_matches-HasPositions [] xs (inr h) = absurd (h refl)
apply_matches-HasPositions (m ∷ ms) xs h = apply_matches-HasPositions ms _ (go (counted_result m) h)
  where
    go :
        (o : Option MatchResult)
        → HasPositions 0 xs ⊎ (cons_result o (counted_results ms) ≢ [])
        → HasPositions 0 (apply_counted o xs) ⊎ (counted_results ms ≢ [])
    go none h = h
    go (some r) h = inl (unfold apply_match_to_standings in number_positions-HasPositions 0 _)
