-- ===== src/Http/Handlers.antt =====
-- The handlers of contexts/fixture-core/internal/infrastructure/http/handler, the middleware of
-- contexts/fixture-core/internal/infrastructure/http/middleware/auth.go, and the routes of
-- router.go. `S` is the state of the world behind the ports.
use package.text.Mathlib.Text.{◌==◌ as str_eq}
use wc_fixture.Base.{String, text, not, ◌||◌, Option, none, some, List, if◌then◌else◌}
use wc_fixture.Core.Errors.{DomainError}
use wc_fixture.Core.Fixture.{Runtime}
use wc_fixture.Shared.AppErrors.{app, unauthorized}
use wc_fixture.Shared.Pagination.{PageParams, Parsed, parse_pagination}
use wc_fixture.Shared.Http.{
  HttpResponse, read, refused, decode_json, write_ok, write_no_content, write_error, recovered,
}
use wc_fixture.App.Ports.{Ports, Response}
use wc_fixture.App.Handlers.{handle_register, handle_schedule}
use wc_fixture.Queries.Dtos.{FixtureDto, GroupDto, StandingDto, MatchDto, KnockoutDto, BestThirdDto}
use wc_fixture.Queries.Handlers.{
  Result, ok, failed, panicked, ReadModels, ListMatchesResult, handle_get_fixture, handle_get_group,
  handle_list_groups, handle_get_standings, handle_get_best_thirds, handle_get_knockout,
  handle_get_knockout_round, handle_list_matches, handle_get_match,
}
use wc_fixture.Http.Requests.{
  In, Web, Request, parse_tournament_id, parse_match_id, parse_match_filters, parse_group_name,
  parse_knockout_phase, to_register_command, to_schedule_command,
}

pub data Payload : Type 0 where
  fixture_payload : FixtureDto → Payload
  groups_payload : List GroupDto → Payload
  group_payload : GroupDto → Payload
  standings_payload : List StandingDto → Payload
  thirds_payload : List BestThirdDto → Payload
  knockout_payload : KnockoutDto → Payload
  round_payload : List MatchDto → Payload
  match_payload : MatchDto → Payload
  matches_payload : ListMatchesResult → Payload
  health_payload : Payload

abbrev pub Answer : Type 0
Answer = HttpResponse Payload

-- An application handler's answer, written: its value, its error, or a panic that `Recover` stops.
abbrev pub write_result : {A : Type 0} → (A → Payload) → Result A → Answer
write_result p (ok a) = write_ok (p a)
write_result p (failed e) = write_error e
write_result p panicked = recovered

abbrev pub write_input : {A : Type 0} → In A → (A → Answer) → Answer
write_input (read a) k = k a
write_input (refused e) k = write_error e

abbrev pub page_of : Parsed DomainError → In PageParams
page_of (p, none) = read p
page_of (p, some e) = refused e

module _ {S : Type 0} (web : Web) (rm : ReadModels S) (s : S) (r : Request) where
  unfoldable pub get_fixture : Answer
  get_fixture =
      write_input (parse_tournament_id web r)
        (λ id. write_result fixture_payload (handle_get_fixture rm s id))

  unfoldable pub list_groups : Answer
  list_groups =
      write_input (parse_tournament_id web r)
        (λ id. write_result groups_payload (handle_list_groups rm s id))

  unfoldable pub get_group : Answer
  get_group = write_input (parse_tournament_id web r) (λ id.
      write_input (parse_group_name r)
        (λ name. write_result group_payload (handle_get_group rm s id name)))

  unfoldable pub get_standings : Answer
  get_standings = write_input (parse_tournament_id web r) (λ id.
      write_input (parse_group_name r)
        (λ name. write_result standings_payload (handle_get_standings rm s id name)))

  unfoldable pub get_best_thirds : Answer
  get_best_thirds =
      write_input (parse_tournament_id web r)
        (λ id. write_result thirds_payload (handle_get_best_thirds rm s id))

  unfoldable pub get_knockout : Answer
  get_knockout =
      write_input (parse_tournament_id web r)
        (λ id. write_result knockout_payload (handle_get_knockout rm s id))

  unfoldable pub get_knockout_round : Answer
  get_knockout_round = write_input (parse_tournament_id web r) (λ id.
      write_input (parse_knockout_phase r)
        (λ phase. write_result round_payload (handle_get_knockout_round rm s id phase)))

  unfoldable pub list_matches : Answer
  list_matches = write_input (parse_tournament_id web r) (λ id.
      write_input (page_of (parse_pagination web.atoi (r.query "page") (r.query "per_page")))
        (λ page.
          write_input (parse_match_filters web r)
            (λ filters. write_result matches_payload (handle_list_matches rm s id filters page))))

  unfoldable pub get_match : Answer
  get_match =
      write_input (parse_match_id web r)
        (λ id. write_result match_payload (handle_get_match rm s id))

-- A command's answer, written; a panic, which leaves the world `s` as the load left it, is answered
-- by `Recover`.
abbrev pub write_response : {S : Type 0} → S → Option (Response S) → S × Answer
write_response s none = (s, recovered)
write_response s (some (t, none)) = (t, write_no_content)
write_response s (some (t, some e)) = (t, write_error e)

abbrev pub run_input : {A S : Type 0} → S → In A → (A → S × Answer) → S × Answer
run_input s (read a) k = k a
run_input s (refused e) k = (s, write_error e)

module _ {S : Type 0} (web : Web) (ports : Ports S) (env : Runtime) (r : Request) (s : S) where
  unfoldable pub register_result : S × Answer
  register_result = run_input s (parse_tournament_id web r) (λ tournament.
      run_input s (parse_match_id web r) (λ match.
        run_input s (decode_json (web.decode_result r.body)) (λ body.
          run_input s (to_register_command web body tournament match)
            (λ c. write_response (ports.get s c.tournament_id).0 (handle_register ports env c s)))))

  unfoldable pub update_schedule : S × Answer
  update_schedule = run_input s (parse_tournament_id web r) (λ tournament.
      run_input s (parse_match_id web r) (λ match.
        run_input s (decode_json (web.decode_schedule r.body)) (λ body.
          run_input s (to_schedule_command web body tournament match)
            (λ c. write_response (ports.get s c.tournament_id).0 (handle_schedule ports env c s)))))

-- `InternalOnly`, the middleware around a handler.
unfoldable pub internal_only :
    {S : Type 0} → String → Request → S → (Request → S → S × Answer) → S × Answer
internal_only token r s next =
    let incoming = r.header "X-Internal-Token" in
    if str_eq incoming "" || not (str_eq incoming token)
    then (
      s,
      write_error {D = DomainError}
          (app unauthorized (text "acceso denegado: se requiere token interno")),
    )
    else next r s

-- The routes that `NewRouter` registers, by the handler that each leads to.
pub data Route : Type 0 where
  health fixture groups group standings matches match result schedule knockout knockout_round
        best_thirds :
      Route

-- What the router serves a request with; the only middleware that decides on a request is `Recover`.
unfoldable pub serve_route :
    {S : Type 0} → Web → ReadModels S → Ports S → Runtime → Route → Request → S → S × Answer
serve_route web rm ports env Route.health r s = (s, write_ok health_payload)
serve_route web rm ports env Route.fixture r s = (s, get_fixture web rm s r)
serve_route web rm ports env Route.groups r s = (s, list_groups web rm s r)
serve_route web rm ports env Route.group r s = (s, get_group web rm s r)
serve_route web rm ports env Route.standings r s = (s, get_standings web rm s r)
serve_route web rm ports env Route.matches r s = (s, list_matches web rm s r)
serve_route web rm ports env Route.match r s = (s, get_match web rm s r)
serve_route web rm ports env Route.result r s = register_result web ports env r s
serve_route web rm ports env Route.schedule r s = update_schedule web ports env r s
serve_route web rm ports env Route.knockout r s = (s, get_knockout web rm s r)
serve_route web rm ports env Route.knockout_round r s = (s, get_knockout_round web rm s r)
serve_route web rm ports env Route.best_thirds r s = (s, get_best_thirds web rm s r)
