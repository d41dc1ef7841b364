-- ===== src/Examples/Reads.antt =====
-- The theorems on the queries, the HTTP handlers and the match read model, applied to three matches.
use package.text.Mathlib.Text.{◌==◌ as str_eq}
use mathlib.Core.List as List
use wc_fixture.Base.{
  ℕ, ◌^◌, ◌<◌, Uuid, String, text, ◌≡◌, ◌⊎◌, refl, arith, none, some, List, [], ◌∷◌, ◌+◌, length,
  if◌then◌else◌, true,
}
use wc_fixture.Base.Order.{select}
use wc_fixture.Core.Errors.{DomainError}
use wc_fixture.Shared.AppErrors.{Error, is_code, validation}
use wc_fixture.Shared.Pagination.{
  Atoi, IsInt, InRange, PageParams, PageMeta, IsCeiling, parse_pagination, parse_pagination-InRange,
  new_page_meta, new_page_meta-IsCeiling,
}
use wc_fixture.Shared.Http.{read, decoded, undecoded, end_of_input, decode_json}
use wc_fixture.App.Results.{RegisterMatchResultCmd}
use wc_fixture.App.Handlers.{handle_register}
use wc_fixture.Ingest.Handler.{ResultIngestedPayload}
use wc_fixture.Ingest.Consumer.{build_register_cmd}
use wc_fixture.Queries.Handlers.{MatchFilters, ReadModels, failed, count_active_filters}
use wc_fixture.Postgres.Where.{
  Texts, MatchRow, IsNumbered, build_match_where_clause, selects, is_wanted,
  build_match_where_clause-IsWanted,
}
use wc_fixture.Postgres.Matches.{Driver, scan_matches, cause}
use wc_fixture.Postgres.Pages.{IsOrdering, read_pages, read_pages-Complete}
use wc_fixture.Http.Requests.{
  Web, Request, ResultBody, parse_tournament_id, phase_names, lookup_name,
}
use wc_fixture.Http.Handlers.{register_result}
use wc_fixture.Http.Laws.{
  register_command, body_of, accepted, Answered, register_result-Answers, register_command-Agrees,
}
use wc_fixture.Examples.Data.{env, cup}
use wc_fixture.Examples.Service.{memory}
use wc_fixture.Examples.Ingestion.{strokes, count_strokes, stroke_codec}

-- `Atoi` on the texts of two numbers.
abbrev atoi : Atoi
atoi s = if str_eq s "7" then some 7 else if str_eq s "300" then some 300 else none

atoi-IsInt : IsInt atoi
atoi-IsInt s n h = ground arith

parse_pagination-InRange_example :
    ((parse_pagination {D = DomainError} atoi "7" "300").1 ≡ none)
      × InRange (parse_pagination {D = DomainError} atoi "7" "300").0
    ⊎ ((e : Error DomainError) × ((parse_pagination {D = DomainError} atoi "7" "300").1 ≡ some e)
        × (is_code e validation ≡ true))
parse_pagination-InRange_example = parse_pagination-InRange atoi atoi-IsInt "7" "300"

abbrev twenties : PageParams
twenties = record { page = 2; per_page = 20 }

new_page_meta-IsCeiling_example :
    (meta : PageMeta) × (new_page_meta twenties 104 ≡ some meta)
    × IsCeiling meta.total_pages 104 20
    × (meta.page ≡ 2)
    × (meta.per_page ≡ 20)
    × (meta.total_items ≡ 104)
new_page_meta-IsCeiling_example =
    new_page_meta-IsCeiling twenties 104 (omega arith) (omega arith) (omega arith)

abbrev texts : Texts
texts = record { print_uuid = strokes; team_text = λ s. some s }

abbrev row : Uuid → String → MatchRow
row id phase = record {
  id = id;
  tournament_id = 92;
  group_name = some "A";
  match_number = id;
  phase = phase;
  home_slot = "x";
  away_slot = "xx";
  venue_id = 7;
  scheduled_at = 50;
  status = "SCHEDULED";
  result = none;
}

abbrev rows : List MatchRow
rows = row 11 "GROUP" ∷ row 12 "FINAL" ∷ row 13 "GROUP" ∷ []

abbrev filters : MatchFilters
filters = record {
  phase = "GROUP";
  status = "";
  group_name = "A";
  venue_id = 7;
  date_from = 10;
  date_to = 90;
  team_id = 2;
}

build_match_where_clause-IsWanted_example :
    IsNumbered (build_match_where_clause texts 92 filters)
    × (length (build_match_where_clause texts 92 filters).args ≡ 1 + count_active_filters filters)
    × (selects texts (build_match_where_clause texts 92 filters) (row 11 "GROUP")
        ≡ is_wanted texts 92 filters (row 11 "GROUP"))
build_match_where_clause-IsWanted_example =
    build_match_where_clause-IsWanted texts 92 filters (row 11 "GROUP")

abbrev driver : Driver
driver = record {
  texts = texts;
  decode_slot = λ s.
      some (record { kind = "TEAM"; team_id = some (count_strokes s); source_match_id = none });
  order_by = λ rows. rows;
  scan_result = λ at. elim at [ none ↦ some none | some t ↦ none ];
}

driver-IsOrdering : IsOrdering driver
driver-IsOrdering rows = List.Perm.refl rows

few_rows : length (select (is_wanted texts 92 filters) rows) < 2 ^ 63
unfolding select is_wanted strokes count_strokes
few_rows = omega arith

read_pages-Complete_example :
    (meta : PageMeta) × (new_page_meta twenties (length (select (is_wanted texts 92 filters) rows))
      ≡ some meta)
    × (read_pages driver rows 92 filters 20 meta.total_pages
        ≡ scan_matches driver (select (is_wanted texts 92 filters) rows))
read_pages-Complete_example =
    read_pages-Complete driver rows 92 filters twenties driver-IsOrdering (omega arith)
      (omega arith) few_rows

abbrev wire : ResultIngestedPayload
wire = record {
  tournament_id = "xxxx";
  match_id = "xxx";
  home_team_id = "x";
  away_team_id = "xx";
  home_goals = 2;
  away_goals = 1;
  home_goals_et = none;
  away_goals_et = none;
  home_goals_pen = none;
  away_goals_pen = none;
  completed_at = "x";
  registered_by = "manual";
}

abbrev web : Web
web = record {
  codec = stroke_codec;
  uuid_error = λ s. text "invalid UUID";
  time_error = λ s. text "invalid time";
  parse_date = λ s. none;
  atoi = atoi;
  decode_result = λ s. if str_eq s "" then undecoded end_of_input else decoded (body_of wire) true;
  decode_schedule = λ s. undecoded end_of_input;
}

abbrev request : Request
request = record {
  url_param = λ key.
      if str_eq key "tournamentID"
      then "xxxx"
      else if str_eq key "matchID"
      then "xxx"
      else if str_eq key "phase"
      then "third-place"
      else "";
  query = λ key. "";
  header = λ key. "";
  body = "{}";
}

register_result-Answers_example :
    (((register_result web memory env request (cup ∷ [])).0 ≡ cup ∷ [])
      × ((register_result web memory env request (cup ∷ [])).1.status ≡ 422))
    ⊎ ((c : RegisterMatchResultCmd) × (register_command web request ≡ read c)
        × Answered
            (cup ∷ [])
            (handle_register memory env c (cup ∷ []))
            (register_result web memory env request (cup ∷ [])))
register_result-Answers_example = register_result-Answers web memory env request (cup ∷ [])

decoded_wire : decode_json {D = DomainError} (web.decode_result request.body) ≡ read (body_of wire)
unfolding decode_json
decoded_wire = refl

register_command-Agrees_example :
    accepted (register_command web request) ≡ build_register_cmd stroke_codec wire
register_command-Agrees_example = register_command-Agrees web request wire refl refl decoded_wire

-- Read models that know of no tournament.
abbrev nothing : ReadModels ℕ
nothing = record {
  get_fixture = λ s id. failed cause;
  get_group = λ s id name. failed cause;
  list_groups = λ s id. failed cause;
  get_standings = λ s id name. failed cause;
  get_best_thirds = λ s id. failed cause;
  get_knockout = λ s id. failed cause;
  get_knockout_round = λ s id phase. failed cause;
  list_matches = λ s id f page. failed cause;
  get_match = λ s id. failed cause;
}

parsed_tournament : parse_tournament_id web request ≡ read 4
unfolding parse_tournament_id wc_fixture.Http.Requests.or_refuse count_strokes
parsed_tournament = refl
