-- ===== src/Ingest/Result.antt =====
-- An ingested result: contexts/result-ingestion/internal/domain/result, its result.go and errors.go.
use wc_fixture.Base.{
  ℕ, ◌+◌, ◌*◌, ◌^◌, Uuid, nil_uuid, Time, String, Message, text, Bool, not, ◌&&◌, ◌||◌, Option,
  none, some, is_some, ltb, ◌==◌, if◌then◌else◌,
}
use wc_fixture.Base.Int.{add, eq, is_neg}

pub data ErrCode : Type 0 where
  invalid_goals invalid_teams invalid_match_id invalid_tournament : ErrCode
  invalid_extra_time invalid_penalties duplicate_ingestion future_completed_at : ErrCode

pub record DomainError : Type 0 where
  pub code : ErrCode
  pub message : Message

abbrev pub err : ErrCode → String → DomainError
err code s = record { code = code; message = text s }

pub record IngestedResult : Type 0 where
  pub id : Uuid
  pub tournament_id : Uuid
  pub match_id : Uuid
  pub home_team_id : Uuid
  pub away_team_id : Uuid
  pub home_goals : ℕ
  pub away_goals : ℕ
  pub home_goals_et : Option ℕ
  pub away_goals_et : Option ℕ
  pub home_goals_pen : Option ℕ
  pub away_goals_pen : Option ℕ
  pub completed_at : Time
  pub ingested_at : Time
  pub source : String

-- The tests on the extra time: both or none, and not negative.
unfoldable pub validate_extra_time : Option ℕ → Option ℕ → Option DomainError
validate_extra_time none none = none
validate_extra_time (some h) (some a) =
    if is_neg h || is_neg a
    then some (err invalid_extra_time "los goles de tiempo extra no pueden ser negativos")
    else none
validate_extra_time _ _ =
    some (err invalid_extra_time "home_goals_et y away_goals_et deben informarse juntos")

-- The tests on the penalties of both teams, once the extra time is level.
unfoldable pub validate_both_penalties : Option ℕ → Option ℕ → Option DomainError
validate_both_penalties (some p) (some q) =
    if is_neg p || is_neg q
    then some (err invalid_penalties "los goles de penales no pueden ser negativos")
    else if eq p q
    then some (err invalid_penalties "los penales no pueden terminar empatados")
    else none
validate_both_penalties _ _ =
    some (err invalid_penalties "deben informarse los penales de ambos equipos")

-- The tests on the penalties, once there are any. The extra time has passed its own tests: it is
-- there for both teams or for none.
unfoldable pub validate_penalties : Option ℕ → Option ℕ → Option ℕ → Option ℕ → Option DomainError
validate_penalties (some h) (some a) p q =
    if not (eq h a)
    then some
        (err invalid_penalties "los penales solo aplican cuando el tiempo extra termina empatado")
    else validate_both_penalties p q
validate_penalties _ _ p q =
    some (err invalid_penalties "los penales requieren tiempo extra informado")

-- `5 * time.Minute`
abbrev pub tolerance : ℕ
tolerance = 300 * 10 ^ 9

-- `validate` from the penalties on.
unfoldable pub validate_end : Time → IngestedResult → Option DomainError
validate_end now r =
    let at =
      if ltb (now + tolerance) r.completed_at
      then some (err future_completed_at "completed_at no puede ser una fecha futura")
      else none in
    if is_some r.home_goals_pen || is_some r.away_goals_pen
    then elim (validate_penalties r.home_goals_et r.away_goals_et r.home_goals_pen
        r.away_goals_pen) [ some e ↦ some e | none ↦ at ]
    else at

unfoldable pub validate : Time → IngestedResult → Option DomainError
validate now r =
    if r.tournament_id == nil_uuid
    then some (err invalid_tournament "tournament_id es requerido")
    else if r.match_id == nil_uuid
    then some (err invalid_match_id "match_id es requerido")
    else if r.home_team_id == nil_uuid || r.away_team_id == nil_uuid
    then some (err invalid_teams "home_team_id y away_team_id son requeridos")
    else if r.home_team_id == r.away_team_id
    then some (err invalid_teams "home_team_id y away_team_id no pueden ser iguales")
    else if is_neg r.home_goals || is_neg r.away_goals
    then some (err invalid_goals "los goles no pueden ser negativos")
    else elim (validate_extra_time r.home_goals_et r.away_goals_et) [
      | some e ↦ some e
      | none ↦ validate_end now r
    ]

-- The idempotency key `"%s:%d:%d"`, as the three values that it renders.
pub record Key : Type 0 where
  pub match : Uuid
  pub home : ℕ
  pub away : ℕ

abbrev pub same_key : Key → Key → Bool
same_key k l = k.match == l.match && (eq k.home l.home && eq k.away l.away)

-- Both additions of a period stand under the test of the home team's goals; a missing goal of the
-- away team is a nil pointer there, which `validate` excludes, and counts 0 here.
unfoldable pub add_period : ℕ → Option ℕ → Option ℕ → ℕ
add_period total none g = total
add_period total (some h) none = total
add_period total (some h) (some g) = add total g

unfoldable pub build_idempotency_key : IngestedResult → Key
build_idempotency_key r = record {
  match = r.match_id;
  home =
      add_period (add_period r.home_goals r.home_goals_et r.home_goals_et) r.home_goals_pen
        r.home_goals_pen;
  away =
      add_period (add_period r.away_goals r.home_goals_et r.away_goals_et) r.home_goals_pen
        r.away_goals_pen;
}
