-- ===== src/Team/Queries.antt =====
-- The queries of contexts/team-registry/internal/application/queries, and the HTTP handlers of
-- contexts/team-registry/internal/infrastructure/http/handler/team_handler.go above them. The
-- repository is a record of functions on the state `S` of the database.
use package.text.Mathlib.Text.{◌==◌ as str_eq}
use wc_fixture.Base.{
  ℕ, Uuid, nil_uuid, String, text, sprintf, string_arg, Bool, not, ◌&&◌, Option, none, some, List,
  [], ◌∷◌, map, ◌==◌, if◌then◌else◌,
}
use wc_fixture.Shared.AppErrors.{Error, err_validation, err_not_found}
use wc_fixture.Shared.Http.{HttpResponse, write_ok, write_error}
use wc_fixture.Team.Domain.{DomainError, Team, Confederation, is_valid, slots_in_wc2026}

abbrev pub Failure : Type 0
Failure = Error DomainError

pub data Result (A : Type 0) : Type 0 where
  ok : A → Result A
  failed : Failure → Result A

abbrev pub map_result : {A B : Type 0} → (A → B) → Result A → Result B
map_result f (ok a) = ok (f a)
map_result f (failed e) = failed e

abbrev pub and_then : {A B : Type 0} → Result A → (A → Result B) → Result B
and_then (ok a) k = k a
and_then (failed e) k = failed e

pub record TeamDto : Type 0 where
  pub id : Uuid
  pub name : String
  pub short_name : String
  pub country_code : String
  pub confederation : String
  pub fifa_ranking : ℕ
  pub flag_url : String
  pub qualified : Bool

pub record ConfederationDto : Type 0 where
  pub code : String
  pub name : String
  pub short_name : String
  pub region : String
  pub wc2026_slots : ℕ

unfoldable pub to_team_dto : Team → TeamDto
to_team_dto t = record {
  id = t.id;
  name = t.name;
  short_name = t.short_name;
  country_code = t.country_code;
  confederation = t.confederation;
  fifa_ranking = t.fifa_ranking_date;
  flag_url = t.flag_url;
  qualified = t.qualified;
}

unfoldable pub to_confederation_dto : Confederation → ConfederationDto
to_confederation_dto c = record {
  code = c.code;
  name = c.name;
  short_name = c.short_name;
  region = c.region;
  wc2026_slots = slots_in_wc2026 c.code;
}

pub record TeamFilters : Type 0 where
  pub confederation : String
  pub qualified_only : Bool

pub record TeamRepository (S : Type 0) : Type 0 where
  pub get_by_id : S → Uuid → Result Team
  pub list : S → TeamFilters → Result (List Team)
  pub list_confederations : S → Result (List Confederation)

-- `GetConfederationQuery.validate`
unfoldable pub validate_confederation : String → Option Failure
validate_confederation code =
    if str_eq code ""
    then some (err_validation (text "code es requerido"))
    else if not (is_valid code)
    then some (err_validation (sprintf "confederation %q inválida" (string_arg code)))
    else none

-- `ListTeamsQuery.validate`
unfoldable pub validate_filters : TeamFilters → Option Failure
validate_filters f =
    if not (str_eq f.confederation "") && not (is_valid f.confederation)
    then some (
        err_validation (
          sprintf "confederation %q inválida: use UEFA, CONMEBOL, CONCACAF, CAF, AFC u OFC"
            (string_arg f.confederation)))
    else none

abbrev pub checked : {A : Type 0} → Option Failure → Result A → Result A
checked (some e) r = failed e
checked none r = r

-- The loop over the confederations.
unfoldable pub find_confederation : String → List Confederation → Result ConfederationDto
find_confederation code [] = failed (err_not_found "confederación" (string_arg code))
find_confederation code (c ∷ cs) =
    if str_eq c.code code then ok (to_confederation_dto c) else find_confederation code cs

module _ {S : Type 0} (repo : TeamRepository S) (s : S) where
  unfoldable pub handle_get_team : Uuid → Result TeamDto
  handle_get_team id =
      if id == nil_uuid
      then failed (err_validation (text "team_id es requerido"))
      else map_result to_team_dto (repo.get_by_id s id)

  unfoldable pub handle_list_teams : TeamFilters → Result (List TeamDto)
  handle_list_teams f = checked (validate_filters f) (map_result (map to_team_dto) (repo.list s f))

  unfoldable pub handle_get_confederation : String → Result ConfederationDto
  handle_get_confederation code =
      checked (validate_confederation code)
        (and_then (repo.list_confederations s) (find_confederation code))

  unfoldable pub handle_list_confederations : Result (List ConfederationDto)
  handle_list_confederations = map_result (map to_confederation_dto) (repo.list_confederations s)

-- What the endpoints answer with.
pub data Payload : Type 0 where
  teams_payload : List TeamDto → Payload
  team_payload : TeamDto → Payload
  confederations_payload : List ConfederationDto → Payload
  confederation_payload : ConfederationDto → Payload

abbrev pub Answer : Type 0
Answer = HttpResponse Payload

abbrev pub write_result : {A : Type 0} → (A → Payload) → Result A → Answer
write_result p (ok a) = write_ok (p a)
write_result p (failed e) = write_error e

-- The endpoints, on the texts of the path and of the query parameters.
module _ {S : Type 0} (repo : TeamRepository S) (s : S) where
  unfoldable pub list_teams : String → String → Answer
  list_teams confederation qualified = write_result teams_payload (
      handle_list_teams repo s
        (record { confederation = confederation; qualified_only = str_eq qualified "true" }))

  unfoldable pub get_team : (String → Option Uuid) → String → Answer
  get_team parse_uuid raw = elim (parse_uuid raw) [
    | none ↦
        write_error {D = DomainError}
          (err_validation (sprintf "teamID %q no es un UUID válido" (string_arg raw)))
    | some id ↦ write_result team_payload (handle_get_team repo s id)
  ]

  unfoldable pub list_confederations : Answer
  list_confederations = write_result confederations_payload (handle_list_confederations repo s)

  unfoldable pub get_confederation : String → Answer
  get_confederation code = write_result confederation_payload (handle_get_confederation repo s code)
