-- ===== src/App/System.antt =====
-- Commands one after the other on one store, as the handlers of
-- contexts/fixture-core/internal/application/commands serve them.
use wc_fixture.Base.{Uuid, ◌≡◌, Option, none, some, List, [], ◌∷◌, false}
use wc_fixture.Core.Events.{Payload}
use wc_fixture.Core.Fixture.{Fixture, Runtime}
use wc_fixture.App.Ports.{Ports, Response}
use wc_fixture.App.Results.{RegisterMatchResultCmd}
use wc_fixture.App.Handlers.{
  UpdateMatchScheduleCmd, CloseGroupStageCmd, handle_register, handle_advance, handle_schedule,
  handle_close, handle_generate,
}
use wc_fixture.App.Setup.{InitializeTournamentCmd, handle_initialize}

pub data Command : Type 0 where
  initialize : InitializeTournamentCmd → Command
  register : RegisterMatchResultCmd → Command
  advance : RegisterMatchResultCmd → Command
  update_schedule : UpdateMatchScheduleCmd → Command
  close_group_stage : CloseGroupStageCmd → Command
  generate_bracket : Uuid → Command

unfoldable pub dispatch : {S : Type 0} → Ports S → Runtime → Command → S → Option (Response S)
dispatch ports env (initialize c) s = handle_initialize ports env c s
dispatch ports env (register c) s = handle_register ports env c s
dispatch ports env (advance c) s = handle_advance ports env c s
dispatch ports env (update_schedule c) s = handle_schedule ports env c s
dispatch ports env (close_group_stage c) s = handle_close ports c s
dispatch ports env (generate_bracket id) s = handle_generate ports id s

-- The commands of a list in their order; `none` when one of them panics.
unfoldable pub serve : {S : Type 0} → Ports S → Runtime → List Command → S → Option S
serve ports env [] s = some s
serve ports env (c ∷ rest) s = elim (dispatch ports env c s) [
  | none ↦ none
  | some (t, e) ↦ serve ports env rest t
]

-- Some payload is one that `json.Marshal` refuses.
abbrev pub Refuses : Runtime → Type 0
Refuses env = (p : Payload) × (env.marshals p ≡ false)
