-- ===== src/Http/Requests.antt =====
-- What the handlers of contexts/fixture-core/internal/infrastructure/http/handler read from a
-- request: its path, its query parameters and its body.
use package.text.Mathlib.Text.{◌==◌ as str_eq}
use wc_fixture.Base.{
  ℕ, Uuid, nil_uuid, Time, String, Message, text, sprintf, string_arg, message_arg, not, Option,
  none, some, List, [], ◌∷◌, ◌+◌, ◌-◌, ◌*◌, ◌^◌, if◌then◌else◌,
}
use wc_fixture.Core.Errors.{DomainError}
use wc_fixture.Shared.AppErrors.{err_validation}
use wc_fixture.Shared.Pagination.{Atoi}
use wc_fixture.Shared.Http.{Input, read, refused, Decoded}
use wc_fixture.App.Results.{RegisterMatchResultCmd}
use wc_fixture.App.Handlers.{UpdateMatchScheduleCmd}
use wc_fixture.Ingest.Handler.{Codec}
use wc_fixture.Queries.Handlers.{MatchFilters, valid_group_name}

abbrev pub In : Type 0 → Type 0
In B = Input DomainError B

pub record ResultBody : Type 0 where
  pub home_team_id : String
  pub away_team_id : String
  pub home_goals : ℕ
  pub away_goals : ℕ
  pub home_goals_et : Option ℕ
  pub away_goals_et : Option ℕ
  pub home_goals_pen : Option ℕ
  pub away_goals_pen : Option ℕ
  pub completed_at : String
  pub registered_by : String

pub record ScheduleBody : Type 0 where
  pub new_scheduled_at : String
  pub new_venue_id : String
  pub reason : String

-- `chi.URLParam`, `r.URL.Query().Get` (the empty text for a parameter that is not there), a header
-- and the body.
pub record Request : Type 0 where
  pub url_param : String → String
  pub query : String → String
  pub header : String → String
  pub body : String

-- The libraries that read texts: `uuid.Parse` and `time.Parse` with RFC3339 and the texts of their
-- errors, `time.Parse` with `time.DateOnly`, `strconv.Atoi` and `encoding/json`.
pub record Web : Type 0 where
  pub codec : Codec
  pub uuid_error : String → Message
  pub time_error : String → Message
  pub parse_date : String → Option Time
  pub atoi : Atoi
  pub decode_result : String → Decoded ResultBody
  pub decode_schedule : String → Decoded ScheduleBody

abbrev pub invalid_text : {B : Type 0} → String → String → In B
invalid_text s v = refused (err_validation (sprintf s (string_arg v)))

abbrev pub invalid_value : {B : Type 0} → String → Message → In B
invalid_value s e = refused (err_validation (sprintf s (message_arg e)))

-- The value, and the next step with it; or the error, which is returned.
unfoldable pub and_then : {A B : Type 0} → In A → (A → In B) → In B
and_then (read a) k = k a
and_then (refused e) k = refused e

unfoldable pub or_refuse : {A : Type 0} → Option A → In A → In A
or_refuse none e = e
or_refuse (some a) e = read a

abbrev pub start_of : Option Time → Time
start_of none = 0
start_of (some t) = t

-- `t.Add(24*time.Hour - time.Second)`
abbrev pub end_of : Option Time → Time
end_of none = 0
end_of (some t) = t + (24 * 3600 - 1) * 10 ^ 9

module _ (web : Web) (r : Request) where
  unfoldable pub parse_tournament_id : In Uuid
  parse_tournament_id =
      let raw = r.url_param "tournamentID" in
      or_refuse (web.codec.parse_uuid raw) (invalid_text "tournamentID %q no es un UUID válido" raw)

  unfoldable pub parse_match_id : In Uuid
  parse_match_id =
      let raw = r.url_param "matchID" in
      or_refuse (web.codec.parse_uuid raw) (invalid_text "matchID %q no es un UUID válido" raw)

  unfoldable pub parse_filter_id : String → String → In Uuid
  parse_filter_id key message =
      let v = r.query key in
      if str_eq v ""
      then read nil_uuid
      else or_refuse (web.codec.parse_uuid v) (invalid_text message v)

  unfoldable pub parse_filter_date : String → String → In (Option Time)
  parse_filter_date key message =
      let v = r.query key in
      if str_eq v ""
      then read none
      else elim (web.parse_date v) [ none ↦ invalid_text message v | some t ↦ read (some t) ]

  unfoldable pub parse_match_filters : In MatchFilters
  parse_match_filters =
      and_then (parse_filter_id "venue_id" "venue_id %q no es un UUID válido") (λ venue.
        and_then (parse_filter_id "team_id" "team_id %q no es un UUID válido") (λ team.
          and_then (parse_filter_date "date_from" "date_from %q inválido (use YYYY-MM-DD)") (λ from.
            and_then (parse_filter_date "date_to" "date_to %q inválido (use YYYY-MM-DD)") (λ to.
              read (record {
                phase = r.query "phase";
                status = r.query "status";
                group_name = r.query "group";
                venue_id = venue;
                date_from = start_of from;
                date_to = end_of to;
                team_id = team;
              })))))

module _ (web : Web) where
  -- `registerResultBody.toCommand`
  unfoldable pub to_register_command : ResultBody → Uuid → Uuid → In RegisterMatchResultCmd
  to_register_command b tournament_id match_id =
      and_then
        (or_refuse (web.codec.parse_uuid b.home_team_id)
          (invalid_value "home_team_id inválido: %v" (web.uuid_error b.home_team_id)))
        (λ home.
          and_then
            (or_refuse (web.codec.parse_uuid b.away_team_id)
              (invalid_value "away_team_id inválido: %v" (web.uuid_error b.away_team_id)))
            (λ away.
              and_then
                (or_refuse (web.codec.parse_time b.completed_at) (
                  invalid_value "completed_at inválido (use RFC3339): %v"
                    (web.time_error b.completed_at)))
                (λ at. read (record {
                  tournament_id = tournament_id;
                  match_id = match_id;
                  home_goals = b.home_goals;
                  away_goals = b.away_goals;
                  home_goals_et = b.home_goals_et;
                  away_goals_et = b.away_goals_et;
                  home_goals_pen = b.home_goals_pen;
                  away_goals_pen = b.away_goals_pen;
                  home_team_id = home;
                  away_team_id = away;
                  completed_at = at;
                  registered_by = b.registered_by;
                }))))

  -- `updateScheduleBody.toCommand`
  unfoldable pub to_schedule_command : ScheduleBody → Uuid → Uuid → In UpdateMatchScheduleCmd
  to_schedule_command b tournament_id match_id =
      and_then
        (or_refuse (web.codec.parse_uuid b.new_venue_id)
          (invalid_value "new_venue_id inválido: %v" (web.uuid_error b.new_venue_id)))
        (λ venue.
          and_then
            (or_refuse (web.codec.parse_time b.new_scheduled_at) (
              invalid_value "new_scheduled_at inválido (use RFC3339): %v"
                (web.time_error b.new_scheduled_at)))
            (λ at. read (record {
              tournament_id = tournament_id;
              match_id = match_id;
              new_scheduled_at = at;
              new_venue_id = venue;
              reason = b.reason;
            })))

unfoldable pub parse_group_name : Request → In String
parse_group_name r =
    let name = r.url_param "groupName" in
    if not (valid_group_name name)
    then invalid_text "groupName %q inválido: debe ser A–L" name
    else read name

-- The `mapping` of `parseKnockoutPhase`, from the names of the path to those of the domain.
abbrev pub phase_names : List (String × String)
phase_names =
    ("round-of-32", "ROUND_OF_32")
    ∷ ("quarterfinals", "QUARTERFINAL")
    ∷ ("semifinals", "SEMIFINAL")
    ∷ ("third-place", "THIRD_PLACE")
    ∷ ("final", "FINAL")
    ∷ []

unfoldable pub lookup_name : List (String × String) → String → Option String
lookup_name [] raw = none
lookup_name ((key, name) ∷ rest) raw = if str_eq key raw then some name else lookup_name rest raw

unfoldable pub parse_knockout_phase : Request → In String
parse_knockout_phase r =
    let raw = r.url_param "phase" in
    or_refuse (lookup_name phase_names raw) (
      invalid_text
        "phase %q inválida: use round-of-32, quarterfinals, semifinals, third-place o final" raw)
