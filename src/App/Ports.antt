-- ===== src/App/Ports.antt =====
-- What the command handlers are given: the ports of contexts/fixture-core/internal/domain/ports, as
-- functions on the state `S` of the world behind them, and the mapping of domain errors in
-- contexts/fixture-core/internal/application/commands/errors.go.
use wc_fixture.Base.{Uuid, Message, message_arg, Option, none, some, List, ◌≡◌, refl, true, ◌||◌}
use wc_fixture.Shared.AppErrors.{
  Error, err_not_found, err_conflict, err_validation, err_internal, as_domain, is_code, domain,
  not_found, conflict, validation,
}
use wc_fixture.Core.Errors as Errors
use wc_fixture.Core.Errors.{DomainError, DomainErrCode}
use wc_fixture.Core.Events.{DomainEvent}
use wc_fixture.Core.Fixture.{Fixture}

abbrev pub Failure : Type 0
Failure = Error DomainError

pub data Loaded : Type 0 where
  loaded : Fixture → Loaded
  load_failed : Failure → Loaded

-- What `Save` leaves: the world, the aggregate that its pointer points to, and the error.
pub record Saved (S : Type 0) : Type 0 where
  pub world : S
  pub fixture : Fixture
  pub failure : Option Failure

-- `GetByTournamentID`, `Save` and `PublishAll`; `none` is a `nil` error.
pub record Ports (S : Type 0) : Type 0 where
  pub get : S → Uuid → S × Loaded
  pub save : S → Fixture → Saved S
  pub publish_all : S → List DomainEvent → S × Option Failure

-- The world after a command, and the error that its handler returns.
abbrev pub Response : Type 0 → Type 0
Response S = S × Option Failure

-- The `switch` over the thirteen codes; its `default` is for codes that do not exist.
unfoldable pub map_code : DomainErrCode → Message → Failure
map_code Errors.match_not_found m = err_not_found "recurso" (message_arg m)
map_code Errors.group_not_found m = err_not_found "recurso" (message_arg m)
map_code Errors.match_already_completed m = err_conflict m
map_code Errors.duplicate_result m = err_conflict m
map_code Errors.group_already_completed m = err_conflict m
map_code Errors.tournament_already_ended m = err_conflict m
map_code Errors.invalid_result m = err_validation m
map_code Errors.invalid_phase_transition m = err_validation m
map_code Errors.invalid_team_count m = err_validation m
map_code Errors.slot_not_resolved m = err_conflict m
map_code Errors.group_stage_not_complete m = err_conflict m
map_code Errors.tournament_not_started m = err_conflict m
map_code Errors.match_not_in_progress m = err_conflict m

unfoldable pub map_domain_error : Failure → Failure
unfolding map_code
map_domain_error e = elim (as_domain e) [
  | none ↦ err_internal "error inesperado de dominio" e
  | some d ↦ map_code d.code d.message
]

map_code-client :
    (code : DomainErrCode) (m : Message)
    → (is_code (map_code code m) not_found
        || (is_code (map_code code m) conflict || is_code (map_code code m) validation))
      ≡ true
unfolding map_code is_code
map_code-client Errors.match_not_found m = refl
map_code-client _ m = refl

-- Every error of the domain becomes an application error that answers 404, 409 or 422.
pub map_domain_error-client :
    (d : DomainError)
    → (is_code (map_domain_error (domain d)) not_found
        || (is_code (map_domain_error (domain d)) conflict
            || is_code (map_domain_error (domain d)) validation))
      ≡ true
unfolding map_domain_error as_domain
map_domain_error-client d = map_code-client d.code d.message
