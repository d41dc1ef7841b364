-- ===== src/App/Penalties.antt =====
-- What the validation of register_match_result.go gives to `Winner` and `Loser`.
use wc_fixture.Base.{
  ℕ, ◌≡◌, ◌≢◌, refl, nil_uuid, true, false, ◌||◌, Option, none, some, is_some, arith,
}
use wc_fixture.Base.Int.{add, eq, rank}
use wc_fixture.Core.Result.{MatchResult, winner, loser, home_total, away_total, add_goals}
use wc_fixture.App.Results.{
  RegisterMatchResultCmd, validate_result_cmd, validate_decision, validate_penalties,
  to_match_result,
}

-- One addition to each side keeps two ints equal, or apart.
eq-add : (x y h a : ℕ) → eq x y ≡ true → eq h a ≡ true → eq (add x h) (add y a) ≡ true
unfolding rank add
eq-add x y h a e k = ground arith

neq-add : (x y p q : ℕ) → eq x y ≡ true → eq p q ≡ false → eq (add x p) (add y q) ≡ false
unfolding rank add
neq-add x y p q e k = ground arith

-- Two scores that differ have a winner.
decided :
    (r : MatchResult)
    → eq (home_total r) (away_total r) ≡ false
    → r.home_team_id ≢ nil_uuid
    → r.away_team_id ≢ nil_uuid
    → winner r ≢ nil_uuid
unfolding winner
decided r d h a = ground arith

record IsShootOut (h a p q : Option ℕ) : Type 0 where
  et_home : ℕ
  et_away : ℕ
  pen_home : ℕ
  pen_away : ℕ
  et : (h ≡ some et_home) × (a ≡ some et_away)
  pen : (p ≡ some pen_home) × (q ≡ some pen_away)
  level : eq et_home et_away ≡ true
  apart : eq pen_home pen_away ≡ false

validate_penalties-IsShootOut :
    (h a p q : Option ℕ) → validate_penalties h a p q ≡ none → IsShootOut h a p q
unfolding validate_penalties
validate_penalties-IsShootOut (some h) (some a) (some p) (some q) e = record {
  et_home = h;
  et_away = a;
  pen_home = p;
  pen_away = q;
  et = (refl, refl);
  pen = (refl, refl);
  level = ground arith;
  apart = ground arith;
}
validate_penalties-IsShootOut (some h) (some a) (some p) none e = absurd (ground arith)
validate_penalties-IsShootOut (some h) (some a) none q e = absurd (ground arith)
validate_penalties-IsShootOut (some h) none p q e = absurd cc
validate_penalties-IsShootOut none a p q e = absurd cc

validate_result_cmd-decision :
    (c : RegisterMatchResultCmd)
    → validate_result_cmd c ≡ none
    → (c.home_team_id ≢ nil_uuid) × (c.away_team_id ≢ nil_uuid) × (validate_decision c ≡ none)
unfolding validate_result_cmd
validate_result_cmd-decision c e = ground arith

shoot_out :
    (c : RegisterMatchResultCmd)
    → validate_decision c ≡ none
    → (is_some c.home_goals_pen || is_some c.away_goals_pen) ≡ true
    → IsShootOut c.home_goals_et c.away_goals_et c.home_goals_pen c.away_goals_pen
unfolding validate_decision
shoot_out c e k = validate_penalties-IsShootOut _ _ _ _ (ground arith)

totals-apart :
    (r : MatchResult)
    → eq r.home_goals r.away_goals ≡ true
    → IsShootOut r.home_goals_et r.away_goals_et r.home_goals_pen r.away_goals_pen
    → eq (home_total r) (away_total r) ≡ false
unfolding home_total away_total add_goals
totals-apart r level s =
    rw (s.et.0, s.et.1, s.pen.0, s.pen.1)
      (neq-add _ _ s.pen_home s.pen_away
        (eq-add r.home_goals r.away_goals s.et_home s.et_away level s.level) s.apart)

loser_of_decided :
    (r : MatchResult)
    → winner r ≢ nil_uuid
    → r.home_team_id ≢ nil_uuid
    → r.away_team_id ≢ nil_uuid
    → loser r ≢ nil_uuid
unfolding loser
loser_of_decided r w h a = ground arith

-- A valid command with penalties whose regular time is level gives a result that has a winner and a
-- loser, whatever the ints are.
pub validate_result_cmd-winner :
    (c : RegisterMatchResultCmd)
    → validate_result_cmd c ≡ none
    → eq c.home_goals c.away_goals ≡ true
    → (is_some c.home_goals_pen || is_some c.away_goals_pen) ≡ true
    → (winner (to_match_result c) ≢ nil_uuid) × (loser (to_match_result c) ≢ nil_uuid)
unfolding to_match_result
validate_result_cmd-winner c e level pens =
    let (h, a, d) = validate_result_cmd-decision c e in
    let s = shoot_out c d pens in
    let r = to_match_result c in
    let w = decided r (totals-apart r level s) h a in (w, loser_of_decided r w h a)
