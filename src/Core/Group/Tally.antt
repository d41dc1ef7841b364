-- ===== src/Core/Group/Tally.antt =====
-- The statistics of a team, read off the results that its group counts: an independent account of
-- what `recalculateStandings` accumulates through its sorted slices.
use mathlib.Core.List.{Perm}
use wc_fixture.Base.{
  ℕ, ◌%◌, Uuid, ◌≡◌, ap, ◌∙◌, Bool, true, false, not, ◌&&◌, ◌||◌, Option, none, some, List, [], ◌∷◌,
  ◌==◌, if◌then◌else◌, arith,
}
use wc_fixture.Base.Int.{int_mod, add, lt, eq}
use wc_fixture.Base.Perms.{total, total-perm}
use wc_fixture.Core.Result.{MatchResult}
use wc_fixture.Core.Match.{Match}
use wc_fixture.Core.Group.{counted_result}
use wc_fixture.Core.Standing.{GroupStanding, apply_result_to_standing, update_standing}

abbrev pub involves : Uuid → MatchResult → Bool
involves t r = t == r.home_team_id || t == r.away_team_id

abbrev pub scored : Uuid → MatchResult → ℕ
scored t r =
    if t == r.home_team_id then r.home_goals else if t == r.away_team_id then r.away_goals else 0

abbrev pub conceded : Uuid → MatchResult → ℕ
conceded t r =
    if t == r.home_team_id then r.away_goals else if t == r.away_team_id then r.home_goals else 0

abbrev pub bit : Bool → ℕ
bit true = 1
bit false = 0

abbrev pub played_in : Uuid → MatchResult → ℕ
played_in t r = bit (involves t r)

abbrev pub won_in : Uuid → MatchResult → ℕ
won_in t r = bit (involves t r && lt (conceded t r) (scored t r))

abbrev pub drawn_in : Uuid → MatchResult → ℕ
drawn_in t r =
    bit (involves t r && (not (lt (conceded t r) (scored t r)) && eq (scored t r) (conceded t r)))

abbrev pub lost_in : Uuid → MatchResult → ℕ
lost_in t r =
    bit (
      involves t r
      && (not (lt (conceded t r) (scored t r)) && not (eq (scored t r) (conceded t r))))

-- An `int` that counts up from 0 to the sum over all results.
abbrev pub summed : (MatchResult → ℕ) → List MatchResult → ℕ
summed f rs = total f rs % int_mod

-- The standing holds the statistics of its team over the results.
abbrev pub IsTally : List MatchResult → GroupStanding → Type 0
IsTally rs s =
    (s.played ≡ summed (played_in s.team_id) rs)
    × (s.won ≡ summed (won_in s.team_id) rs)
    × (s.drawn ≡ summed (drawn_in s.team_id) rs)
    × (s.lost ≡ summed (lost_in s.team_id) rs)
    × (s.goals_for ≡ summed (scored s.team_id) rs)
    × (s.goals_against ≡ summed (conceded s.team_id) rs)
    × (s.yellow_cards ≡ 0)
    × (s.red_cards ≡ 0)

abbrev pub cons_result : Option MatchResult → List MatchResult → List MatchResult
cons_result none rs = rs
cons_result (some r) rs = r ∷ rs

-- The results that a group counts, in the order of its matches.
unfoldable pub counted_results : List Match → List MatchResult
counted_results [] = []
counted_results (m ∷ rest) = cons_result (counted_result m) (counted_results rest)

-- One result updates the standing of each team to its tally.
pub update_standing-IsTally :
    (rs : List MatchResult) (r : MatchResult) (s : GroupStanding)
    → IsTally rs s
    → IsTally (r ∷ rs) (update_standing r s)
unfolding update_standing apply_result_to_standing total add
update_standing-IsTally rs r s h = ground arith

summed-perm :
    (f : MatchResult → ℕ) (rs rs' : List MatchResult) → Perm rs rs' → summed f rs ≡ summed f rs'
summed-perm f rs rs' p = ap (λ (n : ℕ). n % int_mod) (total-perm f rs rs' p)

-- The order of the results does not matter.
pub IsTally-perm :
    (rs rs' : List MatchResult) (s : GroupStanding) → Perm rs rs' → IsTally rs s → IsTally rs' s
IsTally-perm rs rs' s p h =
    let t = s.team_id in
    let e : (f : MatchResult → ℕ) → summed f rs ≡ summed f rs' = λ f. summed-perm f rs rs' p in
    (
      h.0 ∙ e (played_in t),
      h.1 ∙ e (won_in t),
      h.2 ∙ e (drawn_in t),
      h.3 ∙ e (lost_in t),
      h.4 ∙ e (scored t),
      h.5 ∙ e (conceded t),
      h.6,
      h.7,
    )

pub IsTally-prop : (rs : List MatchResult) (s : GroupStanding) → IsProp (IsTally rs s)
IsTally-prop rs s = hlevel
