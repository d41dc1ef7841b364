-- ===== src/App/Handlers.antt =====
-- The handlers of contexts/fixture-core/internal/application/commands that load an aggregate. Every
-- one takes the pending events off it before `Save`, and answers `nil` when only publishing fails.
use wc_fixture.Base.{
  Uuid, nil_uuid, Time, String, text, Bool, true, false, not, ◌&&◌, Option, none, some, ltb, ◌==◌,
  if◌then◌else◌,
}
use wc_fixture.Core.Errors.{DomainError}
use wc_fixture.Core.Fixture.{
  Fixture, Runtime, TournamentStatus, knockout, finished, drain_events, all_groups_complete,
  or_panic,
}
use wc_fixture.Core.Fixture.Register.{register_match_result}
use wc_fixture.Core.Fixture.Schedule.{update_match_schedule}
use wc_fixture.Shared.AppErrors.{domain, err_internal, err_conflict}
use wc_fixture.App.Ports.{Failure, Loaded, loaded, load_failed, Ports, Response, map_domain_error}
use wc_fixture.App.Results.{
  RegisterMatchResultCmd, validate_result_cmd, validate_advance_cmd, to_match_result, invalid,
}

pub record UpdateMatchScheduleCmd : Type 0 where
  pub tournament_id : Uuid
  pub match_id : Uuid
  pub new_scheduled_at : Time
  pub new_venue_id : Uuid
  pub reason : String

pub record CloseGroupStageCmd : Type 0 where
  pub tournament_id : Uuid
  pub force : Bool

-- `validate` of update_match_schedule.go; the clock is read once for a command.
unfoldable pub validate_schedule_cmd : Runtime → UpdateMatchScheduleCmd → Option Failure
validate_schedule_cmd env c =
    if c.tournament_id == nil_uuid
    then invalid "tournament_id es requerido"
    else if c.match_id == nil_uuid
    then invalid "match_id es requerido"
    else if c.new_venue_id == nil_uuid
    then invalid "new_venue_id es requerido"
    else if c.new_scheduled_at == 0
    then invalid "new_scheduled_at es requerido"
    else if ltb c.new_scheduled_at env.now
    then invalid "new_scheduled_at debe ser una fecha futura"
    else none

-- `validate` of close_group_stage.go and of generate_knockout_bracket.go.
unfoldable pub validate_tournament_id : Uuid → Option Failure
validate_tournament_id id = if id == nil_uuid then invalid "tournament_id es requerido" else none

module _ {S : Type 0} (ports : Ports S) where
  -- The end of a handler: `PendingEvents`, `Save` and `PublishAll`, whose error is only logged.
  unfoldable pub save_and_publish : String → S → Fixture → Response S
  save_and_publish what s f =
      let d = drain_events f in
      let out = ports.save s d.0 in
      elim out.failure [
        | some e ↦ (out.world, some (err_internal what e))
        | none ↦ ((ports.publish_all out.world d.1).0, none)
      ]

  -- What the aggregate answered: its error is mapped, and nothing is saved. A panic of the aggregate
  -- is one of the handler.
  abbrev pub finish : String → S → Option (Fixture × Option DomainError) → Option (Response S)
  finish what s none = none
  finish what s (some (f, some e)) = some (s, some (map_domain_error (domain e)))
  finish what s (some (f, none)) = some (save_and_publish what s f)

  -- Loading after the validation, and the rest of the handler on what is loaded.
  abbrev pub on_loaded : (S → Fixture → Option (Response S)) → S × Loaded → Option (Response S)
  on_loaded k (s, load_failed e) = some (s, some e)
  on_loaded k (s, loaded f) = k s f

  abbrev pub guarded :
      Option Failure → S → Uuid → (S → Fixture → Option (Response S)) → Option (Response S)
  guarded (some e) s id k = some (s, some e)
  guarded none s id k = on_loaded k (ports.get s id)

  unfoldable pub handle_register : Runtime → RegisterMatchResultCmd → S → Option (Response S)
  handle_register env c s = guarded (validate_result_cmd c) s c.tournament_id (λ s1 f.
      finish "error al persistir el resultado" s1
        (or_panic env f (register_match_result env f c.match_id (to_match_result c))))

  unfoldable pub handle_advance : Runtime → RegisterMatchResultCmd → S → Option (Response S)
  handle_advance env c s = guarded (validate_advance_cmd c) s c.tournament_id (λ s1 f.
      finish "error al persistir el resultado eliminatorio" s1
        (or_panic env f (register_match_result env f c.match_id (to_match_result c))))

  unfoldable pub handle_schedule : Runtime → UpdateMatchScheduleCmd → S → Option (Response S)
  handle_schedule env c s = guarded (validate_schedule_cmd env c) s c.tournament_id (λ s1 f.
      finish "error al persistir el cambio de horario" s1
        (or_panic env f (update_match_schedule env f c.match_id c.new_scheduled_at c.new_venue_id)))

  unfoldable pub close_loaded : Bool → S → Fixture → Response S
  close_loaded force s f =
      if not (all_groups_complete f) && not force
      then (
        s,
        some (
            err_conflict (
              text
                "no todos los grupos han completado sus partidos; use force=true para forzar el cierre")),
      )
      else save_and_publish "error al persistir el cierre de fase de grupos" s f

  unfoldable pub handle_close : CloseGroupStageCmd → S → Option (Response S)
  handle_close c s =
      guarded (validate_tournament_id c.tournament_id) s c.tournament_id
        (λ s1 f. some (close_loaded c.force s1 f))

  abbrev pub is_generated : TournamentStatus → Bool
  is_generated knockout = true
  is_generated finished = true
  is_generated _ = false

  unfoldable pub generate_loaded : S → Fixture → Response S
  generate_loaded s f =
      if not (all_groups_complete f)
      then (
        s,
        some (
            err_conflict
              (text "la fase de grupos no está completa; no se puede generar el bracket")),
      )
      else if is_generated f.status
      then (s, none)
      else save_and_publish "error al persistir el bracket eliminatorio" s f

  unfoldable pub handle_generate : Uuid → S → Option (Response S)
  handle_generate id s =
      guarded (validate_tournament_id id) s id (λ s1 f. some (generate_loaded s1 f))
