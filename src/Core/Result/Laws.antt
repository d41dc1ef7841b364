-- ===== src/Core/Result/Laws.antt =====
-- What `Winner` and `Loser` answer, by the goals that were scored.
use wc_fixture.Base.{
  ℕ, ◌+◌, ◌^◌, ◌<◌, ◌≡◌, ◌≢◌, ltb, ltb→lt, Bool-cases, inl, inr, Option, none, some, nil_uuid,
  arith,
}
use wc_fixture.Base.Int.{add, lt, lt_of_small}
use wc_fixture.Core.Result.{MatchResult, add_goals, home_total, away_total, winner, loser}

-- The goals as numbers, 0 where none are given.
abbrev pub goals_of : Option ℕ → ℕ
goals_of none = 0
goals_of (some g) = g

abbrev pub home_sum : MatchResult → ℕ
home_sum r = r.home_goals + goals_of r.home_goals_et + goals_of r.home_goals_pen

abbrev pub away_sum : MatchResult → ℕ
away_sum r = r.away_goals + goals_of r.away_goals_et + goals_of r.away_goals_pen

add_goals_small : (n : ℕ) (o : Option ℕ) → n + goals_of o < 2 ^ 63 → add_goals n o ≡ n + goals_of o
unfolding add_goals add
add_goals_small n none h = omega arith
add_goals_small n (some g) h = omega arith

home_total_small : (r : MatchResult) → home_sum r < 2 ^ 63 → home_total r ≡ home_sum r
unfolding home_total
home_total_small r h =
    let e = add_goals_small r.home_goals r.home_goals_et (omega arith) in
    rw e (add_goals_small _ r.home_goals_pen h)

away_total_small : (r : MatchResult) → away_sum r < 2 ^ 63 → away_total r ≡ away_sum r
unfolding away_total
away_total_small r h =
    let e = add_goals_small r.away_goals r.away_goals_et (omega arith) in
    rw e (add_goals_small _ r.away_goals_pen h)

-- What the result of a match is, with the teams that `Winner` and `Loser` name.
pub data Outcome (r : MatchResult) : Type 0 where
  home_win :
      away_sum r < home_sum r → winner r ≡ r.home_team_id → loser r ≡ r.away_team_id → Outcome r
  away_win :
      home_sum r < away_sum r → winner r ≡ r.away_team_id → loser r ≡ r.home_team_id → Outcome r
  draw : home_sum r ≡ away_sum r → winner r ≡ nil_uuid → loser r ≡ nil_uuid → Outcome r

module _ (r : MatchResult) (hs : home_sum r < 2 ^ 63) (ha : away_sum r < 2 ^ 63) where
  lt-away_total-home_total : lt (away_total r) (home_total r) ≡ ltb (away_sum r) (home_sum r)
  lt-away_total-home_total =
      rw (home_total_small r hs, away_total_small r ha)
        (lt_of_small (away_sum r) (home_sum r) ha hs)

  lt-home_total-away_total : lt (home_total r) (away_total r) ≡ ltb (home_sum r) (away_sum r)
  lt-home_total-away_total =
      rw (home_total_small r hs, away_total_small r ha)
        (lt_of_small (home_sum r) (away_sum r) hs ha)

-- With two different teams, neither of them `uuid.Nil`, and goals whose sums fit an `int`, the team with more goals wins and the
-- other one loses; with equal sums both are `uuid.Nil`.
pub winner-Outcome :
    (r : MatchResult)
    → home_sum r < 2 ^ 63
    → away_sum r < 2 ^ 63
    → r.home_team_id ≢ nil_uuid
    → r.away_team_id ≢ nil_uuid
    → r.home_team_id ≢ r.away_team_id
    → Outcome r
unfolding winner loser
winner-Outcome r hs ha hn an ne = elim (Bool-cases (ltb (away_sum r) (home_sum r))) [
  | inl h ↦
      let e = lt-away_total-home_total r hs ha in
      home_win (ltb→lt _ _ h) (ground (arith, e)) (ground (arith, e))
  | inr h ↦ elim (Bool-cases (ltb (home_sum r) (away_sum r))) [
    | inl k ↦
        let e = lt-away_total-home_total r hs ha in
        let e' = lt-home_total-away_total r hs ha in
        away_win (ltb→lt _ _ k) (ground (arith, e, e')) (ground (arith, e, e'))
    | inr k ↦
        let e = lt-away_total-home_total r hs ha in
        let e' = lt-home_total-away_total r hs ha in
        draw (ground arith) (ground (arith, e, e')) (ground (arith, e, e'))
  ]
]
