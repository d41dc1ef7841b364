-- ===== src/Core/Group/Table.antt =====
-- The standings that `recalculateStandings` computes, and the tallies of the teams of the group.
use mathlib.Core.List.{Perm, perm_middle, append-nil}
use mathlib.Core.List.Perm
use wc_fixture.Base.{
  ℕ, ◌+◌, Uuid, ◌≡◌, refl, ap, subst, Option, none, some, List, [], ◌∷◌, ◌++◌, All, arith, map, inr,
  ◌≢◌,
}
use wc_fixture.Base.Order.{IsSorted}
use wc_fixture.Base.Perms.{All-perm, total}
use wc_fixture.Core.Result.{MatchResult}
use wc_fixture.Core.Match.{Match}
use wc_fixture.Core.Standing.{
  GroupStanding, standing_less, sort_standings, update_standing, update_standings, number_positions,
  apply_match_to_standings, apply_result_to_standing,
}
use wc_fixture.Core.Group.{
  Group, team_list, zero_standing, zero_standings, counted_result, apply_counted, apply_matches,
  recalculate_standings,
}
use wc_fixture.Core.Group.Tally.{
  IsTally, IsTally-perm, IsTally-prop, update_standing-IsTally, cons_result, counted_results,
}
use wc_fixture.Core.Group.Ranks.{
  sort_standings-perm, apply_matches-IsSorted, zero_standings-IsSorted, HasPositions,
  apply_matches-HasPositions,
}

abbrev pub ids : List GroupStanding → List Uuid
ids = map (λ s. s.team_id)

-- Tallies through one match.

number_positions-All-IsTally :
    (rs : List MatchResult) (i : ℕ) (xs : List GroupStanding)
    → All (IsTally rs) xs
    → All (IsTally rs) (number_positions i xs)
unfolding number_positions
number_positions-All-IsTally rs i [] h = tt
number_positions-All-IsTally rs i (s ∷ xs) h = (h.0, number_positions-All-IsTally rs (i + 1) xs h.1)

update_standings-All-IsTally :
    (rs : List MatchResult) (r : MatchResult) (xs : List GroupStanding)
    → All (IsTally rs) xs
    → All (IsTally (r ∷ rs)) (update_standings r xs)
unfolding update_standings
update_standings-All-IsTally rs r [] h = tt
update_standings-All-IsTally rs r (s ∷ xs) h =
    (update_standing-IsTally rs r s h.0, update_standings-All-IsTally rs r xs h.1)

apply_match-All-IsTally :
    (rs : List MatchResult) (r : MatchResult) (xs : List GroupStanding)
    → All (IsTally rs) xs
    → All (IsTally (r ∷ rs)) (apply_match_to_standings xs r)
unfolding apply_match_to_standings
apply_match-All-IsTally rs r xs h = number_positions-All-IsTally (r ∷ rs) 0 _ (
    All-perm (IsTally (r ∷ rs)) (IsTally-prop (r ∷ rs)) _ _
      (sort_standings-perm (update_standings r xs)) (update_standings-All-IsTally rs r xs h))

All-IsTally-perm :
    (rs rs' : List MatchResult) (xs : List GroupStanding)
    → Perm rs rs'
    → All (IsTally rs) xs
    → All (IsTally rs') xs
All-IsTally-perm rs rs' [] p h = tt
All-IsTally-perm rs rs' (s ∷ xs) p h =
    (IsTally-perm rs rs' s p h.0, All-IsTally-perm rs rs' xs p h.1)

apply_counted-All-IsTally :
    (rs : List MatchResult) (o : Option MatchResult) (xs : List GroupStanding)
    → All (IsTally rs) xs
    → All (IsTally (cons_result o rs)) (apply_counted o xs)
apply_counted-All-IsTally rs none xs h = h
apply_counted-All-IsTally rs (some r) xs h = apply_match-All-IsTally rs r xs h

cons_result-perm :
    (o : Option MatchResult) (xs ys : List MatchResult)
    → Perm (xs ++ cons_result o ys) (cons_result o xs ++ ys)
cons_result-perm none xs ys = Perm.rfl
cons_result-perm (some r) xs ys = perm_middle xs ys

apply_matches-All-IsTally :
    (rs : List MatchResult) (ms : List Match) (xs : List GroupStanding)
    → All (IsTally rs) xs
    → All (IsTally (counted_results ms ++ rs)) (apply_matches xs ms)
unfolding apply_matches counted_results
apply_matches-All-IsTally rs [] xs h = h
apply_matches-All-IsTally rs (m ∷ ms) xs h =
    let o = counted_result m in
    All-IsTally-perm _ _ _ (cons_result-perm o (counted_results ms) rs) (
      apply_matches-All-IsTally (cons_result o rs) ms (apply_counted o xs)
        (apply_counted-All-IsTally rs o xs h))

zero_standings-All-IsTally : (ts : List Uuid) → All (IsTally []) (zero_standings ts)
unfolding zero_standings zero_standing total
zero_standings-All-IsTally [] = tt
zero_standings-All-IsTally (t ∷ ts) = (omega arith, zero_standings-All-IsTally ts)

-- Teams through one match.

ids-number_positions : (i : ℕ) (xs : List GroupStanding) → ids (number_positions i xs) ≡ ids xs
unfolding number_positions
ids-number_positions i [] = refl
ids-number_positions i (s ∷ xs) = ap (◌∷◌ s.team_id) (ids-number_positions (i + 1) xs)

team_id-update_standing :
    (r : MatchResult) (s : GroupStanding) → (update_standing r s).team_id ≡ s.team_id
unfolding update_standing apply_result_to_standing
team_id-update_standing r s = ground arith

ids-update_standings :
    (r : MatchResult) (xs : List GroupStanding) → ids (update_standings r xs) ≡ ids xs
unfolding update_standings
ids-update_standings r [] = refl
ids-update_standings r (s ∷ xs) = cc (team_id-update_standing r s, ids-update_standings r xs)

ids-apply_match-perm :
    (xs : List GroupStanding) (r : MatchResult)
    → Perm (ids (apply_match_to_standings xs r)) (ids xs)
unfolding apply_match_to_standings
ids-apply_match-perm xs r =
    rw
      (ids-number_positions 0 (sort_standings (update_standings r xs)), ← ids-update_standings r xs)
      (Perm.map (λ s. s.team_id) (sort_standings-perm (update_standings r xs)))

ids-apply_counted-perm :
    (o : Option MatchResult) (xs : List GroupStanding) → Perm (ids (apply_counted o xs)) (ids xs)
ids-apply_counted-perm none xs = Perm.rfl
ids-apply_counted-perm (some r) xs = ids-apply_match-perm xs r

ids-apply_matches-perm :
    (ms : List Match) (xs : List GroupStanding) → Perm (ids (apply_matches xs ms)) (ids xs)
unfolding apply_matches
ids-apply_matches-perm [] xs = Perm.rfl
ids-apply_matches-perm (m ∷ ms) xs =
    Perm.trans (ids-apply_matches-perm ms (apply_counted (counted_result m) xs))
      (ids-apply_counted-perm (counted_result m) xs)

ids-zero_standings : (ts : List Uuid) → ids (zero_standings ts) ≡ ts
unfolding zero_standings zero_standing
ids-zero_standings [] = refl
ids-zero_standings (t ∷ ts) = ap (◌∷◌ t) (ids-zero_standings ts)

-- The table of a group: every team's tally, each team once, best first, numbered from 1 as soon as
-- one result counts.
pub record IsTable (g : Group) : Type 0 where
  pub tallies : All (IsTally (counted_results g.matches)) g.standings
  pub teams : Perm (ids g.standings) (team_list g.teams)
  pub sorted : IsSorted standing_less g.standings
  pub numbered : counted_results g.matches ≢ [] → HasPositions 0 g.standings

-- Recalculating the standings of any group gives its table.
pub recalculate_standings-IsTable : (g : Group) → IsTable (recalculate_standings g)
unfolding recalculate_standings
recalculate_standings-IsTable g =
    let ts = team_list g.teams in
    record {
      tallies =
          rw append-nil at
            (apply_matches-All-IsTally [] g.matches _ (zero_standings-All-IsTally ts));
      teams =
          subst (Perm (ids (apply_matches (zero_standings ts) g.matches))) (ids-zero_standings ts)
            (ids-apply_matches-perm g.matches (zero_standings ts));
      sorted = apply_matches-IsSorted g.matches _ (zero_standings-IsSorted ts);
      numbered = λ h. apply_matches-HasPositions g.matches _ (inr h);
    }
