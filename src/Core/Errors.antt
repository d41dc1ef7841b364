-- ===== src/Core/Errors.antt =====
-- Domain errors of the fixture: contexts/fixture-core/internal/domain/fixture/errors.go.
-- A message is the `fmt.Sprintf` call that renders it.
use wc_fixture.Base.{Uuid, String, Message, text, sprintf, sprintf₂, uuid_arg, string_arg}

pub data DomainErrCode : Type 0 where
  match_not_found match_already_completed match_not_in_progress : DomainErrCode
  group_not_found group_already_completed invalid_phase_transition : DomainErrCode
  invalid_result slot_not_resolved tournament_not_started : DomainErrCode
  tournament_already_ended group_stage_not_complete duplicate_result : DomainErrCode
  invalid_team_count : DomainErrCode

pub record DomainError : Type 0 where
  pub code : DomainErrCode
  pub message : Message

abbrev pub err_match_not_found : Uuid → DomainError
err_match_not_found id = record {
  code = match_not_found;
  message = sprintf "partido %q no encontrado en el fixture" (uuid_arg id);
}

abbrev pub err_match_already_completed : Uuid → DomainError
err_match_already_completed id = record {
  code = match_already_completed;
  message = sprintf "el partido %q ya tiene un resultado registrado" (uuid_arg id);
}

abbrev pub err_group_not_found : String → DomainError
err_group_not_found name = record {
  code = group_not_found;
  message = sprintf "grupo %q no encontrado en el fixture" (string_arg name);
}

abbrev pub err_group_already_completed : String → DomainError
err_group_already_completed name = record {
  code = group_already_completed;
  message = sprintf "el grupo %q ya está completado" (string_arg name);
}

abbrev pub err_invalid_phase_transition : String → String → DomainError
err_invalid_phase_transition from to = record {
  code = invalid_phase_transition;
  message = sprintf₂ "transición de estado inválida: %s → %s" (string_arg from) (string_arg to);
}

abbrev pub err_invalid_result : String → DomainError
err_invalid_result reason = record { code = invalid_result; message = text reason }

abbrev pub err_slot_not_resolved : Uuid → DomainError
err_slot_not_resolved id = record {
  code = slot_not_resolved;
  message = sprintf "el slot del partido %q aún no está resuelto" (uuid_arg id);
}

abbrev pub err_group_stage_not_complete : DomainError
err_group_stage_not_complete = record {
  code = group_stage_not_complete;
  message = text "no todos los grupos han completado sus partidos";
}

abbrev pub err_duplicate_result : Uuid → DomainError
err_duplicate_result id = record {
  code = duplicate_result;
  message = sprintf "ya existe un resultado para el partido %q" (uuid_arg id);
}

-- What `RegisterMatchResult` answers once the tournament is over.
abbrev pub err_tournament_already_ended : DomainError
err_tournament_already_ended = record {
  code = tournament_already_ended;
  message = text "el torneo ya finalizó";
}
