-- ===== src/App/Results.antt =====
-- The commands with a result: register_match_result.go and advance_knockout_match.go of
-- contexts/fixture-core/internal/application/commands, their data and their validation.
use wc_fixture.Base.{
  ℕ, Uuid, nil_uuid, Time, String, text, Bool, false, not, ◌&&◌, ◌||◌, Option, none, some, is_some,
  ◌==◌, if◌then◌else◌,
}
use wc_fixture.Base.Int.{eq, is_neg}
use wc_fixture.Core.Result.{MatchResult}
use wc_fixture.Shared.AppErrors.{err_validation}
use wc_fixture.App.Ports.{Failure}

-- `RegisterMatchResultCmd` and `AdvanceKnockoutMatchCmd`, which have the same fields.
pub record RegisterMatchResultCmd : Type 0 where
  pub tournament_id : Uuid
  pub match_id : Uuid
  pub home_goals : ℕ
  pub away_goals : ℕ
  pub home_goals_et : Option ℕ
  pub away_goals_et : Option ℕ
  pub home_goals_pen : Option ℕ
  pub away_goals_pen : Option ℕ
  pub home_team_id : Uuid
  pub away_team_id : Uuid
  pub completed_at : Time
  pub registered_by : String

abbrev pub invalid : String → Option Failure
invalid s = some (err_validation (text s))

-- `p != nil && *p < 0`
abbrev pub neg_goals : Option ℕ → Bool
neg_goals none = false
neg_goals (some g) = is_neg g

-- The tests on the penalties, once there are any: the four `if`s in their order.
unfoldable pub validate_penalties : Option ℕ → Option ℕ → Option ℕ → Option ℕ → Option Failure
validate_penalties (some h) (some a) (some p) (some q) =
    if not (eq h a)
    then invalid "los penales solo aplican cuando el tiempo extra termina empatado"
    else if eq p q
    then invalid "los penales no pueden terminar empatados"
    else none
validate_penalties (some h) (some a) p q =
    if not (eq h a)
    then invalid "los penales solo aplican cuando el tiempo extra termina empatado"
    else invalid "deben informarse los penales de ambos equipos"
validate_penalties h a p q = invalid "los penales requieren tiempo extra informado"

-- The end of `validate`, from the test on the penalties on.
unfoldable pub validate_decision : RegisterMatchResultCmd → Option Failure
validate_decision c =
    let at = if c.completed_at == 0 then invalid "completed_at es requerido" else none in
    if is_some c.home_goals_pen || is_some c.away_goals_pen
    then elim (validate_penalties c.home_goals_et c.away_goals_et c.home_goals_pen
        c.away_goals_pen) [ some e ↦ some e | none ↦ at ]
    else at

unfoldable pub validate_result_cmd : RegisterMatchResultCmd → Option Failure
validate_result_cmd c =
    if c.tournament_id == nil_uuid
    then invalid "tournament_id es requerido"
    else if c.match_id == nil_uuid
    then invalid "match_id es requerido"
    else if c.home_team_id == nil_uuid
    then invalid "home_team_id es requerido"
    else if c.away_team_id == nil_uuid
    then invalid "away_team_id es requerido"
    else if c.home_team_id == c.away_team_id
    then invalid "home_team_id y away_team_id no pueden ser iguales"
    else if is_neg c.home_goals || is_neg c.away_goals
    then invalid "los goles no pueden ser negativos"
    else if neg_goals c.home_goals_et
    then invalid "los goles en tiempo extra no pueden ser negativos"
    else if neg_goals c.away_goals_et
    then invalid "los goles en tiempo extra no pueden ser negativos"
    else validate_decision c

unfoldable pub to_match_result : RegisterMatchResultCmd → MatchResult
to_match_result c = record {
  home_team_id = c.home_team_id;
  away_team_id = c.away_team_id;
  home_goals = c.home_goals;
  away_goals = c.away_goals;
  home_goals_et = c.home_goals_et;
  away_goals_et = c.away_goals_et;
  home_goals_pen = c.home_goals_pen;
  away_goals_pen = c.away_goals_pen;
  completed_at = c.completed_at;
}

-- `AdvanceKnockoutMatchCmd.validate`
unfoldable pub validate_advance_cmd : RegisterMatchResultCmd → Option Failure
validate_advance_cmd c =
    if c.tournament_id == nil_uuid
    then invalid "tournament_id es requerido"
    else if c.match_id == nil_uuid
    then invalid "match_id es requerido"
    else if c.home_team_id == nil_uuid || c.away_team_id == nil_uuid
    then invalid "home_team_id y away_team_id son requeridos"
    else if c.home_team_id == c.away_team_id
    then invalid "home_team_id y away_team_id no pueden ser iguales"
    else if is_neg c.home_goals || is_neg c.away_goals
    then invalid "los goles no pueden ser negativos"
    else if eq c.home_goals c.away_goals && not (is_some c.home_goals_et)
    then invalid "empate en tiempo regular: se requiere informar el tiempo extra"
    else if c.completed_at == 0
    then invalid "completed_at es requerido"
    else none
