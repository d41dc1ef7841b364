-- ===== src/Queries/Handlers.antt =====
-- The query handlers of contexts/fixture-core/internal/application/queries, their validation, and
-- the read models that they are given, as functions on the state `S` of the database. A handler
-- also writes to the log, which nothing reads.
use package.text.Mathlib.Text.{◌==◌ as str_eq}
use wc_fixture.Base.{
  ℕ, Uuid, nil_uuid, Time, String, text, sprintf, string_arg, Bool, true, false, not, ◌&&◌, ◌||◌,
  Option, none, some, List, [], ◌∷◌, ◌+◌, ltb, ◌==◌, if◌then◌else◌,
}
use wc_fixture.Shared.AppErrors.{err_validation}
use wc_fixture.Shared.Pagination.{PageParams, PageMeta, new_page_meta}
use wc_fixture.App.Ports.{Failure}
use wc_fixture.App.Results.{invalid}
use wc_fixture.Queries.Dtos.{FixtureDto, GroupDto, StandingDto, MatchDto, KnockoutDto, BestThirdDto}

-- A value or an error; `panicked` is a run-time panic, which no handler recovers from.
pub data Result (A : Type 0) : Type 0 where
  ok : A → Result A
  failed : Failure → Result A
  panicked : Result A

pub record MatchFilters : Type 0 where
  pub phase : String
  pub status : String
  pub group_name : String
  pub venue_id : Uuid
  pub date_from : Time
  pub date_to : Time
  pub team_id : Uuid

pub record ReadModels (S : Type 0) : Type 0 where
  pub get_fixture : S → Uuid → Result FixtureDto
  pub get_group : S → Uuid → String → Result GroupDto
  pub list_groups : S → Uuid → Result (List GroupDto)
  pub get_standings : S → Uuid → String → Result (List StandingDto)
  pub get_best_thirds : S → Uuid → Result (List BestThirdDto)
  pub get_knockout : S → Uuid → Result KnockoutDto
  pub get_knockout_round : S → Uuid → String → Result (List MatchDto)
  pub list_matches : S → Uuid → MatchFilters → PageParams → Result (List MatchDto × ℕ)
  pub get_match : S → Uuid → Result MatchDto

abbrev pub group_names : List String
group_names = "A" ∷ "B" ∷ "C" ∷ "D" ∷ "E" ∷ "F" ∷ "G" ∷ "H" ∷ "I" ∷ "J" ∷ "K" ∷ "L" ∷ []

unfoldable pub mem_name : List String → String → Bool
mem_name [] name = false
mem_name (n ∷ ns) name = str_eq n name || mem_name ns name

unfoldable pub valid_group_name : String → Bool
valid_group_name name = mem_name group_names name

abbrev pub knockout_phases : List String
knockout_phases = "ROUND_OF_32" ∷ "QUARTERFINAL" ∷ "SEMIFINAL" ∷ "THIRD_PLACE" ∷ "FINAL" ∷ []

abbrev pub check_tournament : Uuid → Option Failure
check_tournament id = if id == nil_uuid then invalid "tournament_id es requerido" else none

abbrev pub name_error : String → String → Option Failure
name_error s name = some (err_validation (sprintf s (string_arg name)))

-- `GetGroupQuery.validate`
unfoldable pub validate_group_query : Uuid → String → Option Failure
validate_group_query tournament_id name =
    if tournament_id == nil_uuid
    then invalid "tournament_id es requerido"
    else if str_eq name ""
    then invalid "group_name es requerido"
    else if not (valid_group_name name)
    then name_error "group_name %q inválido: debe ser A–L" name
    else none

-- `GetStandingsQuery.validate`
unfoldable pub validate_standings_query : Uuid → String → Option Failure
validate_standings_query tournament_id name =
    if tournament_id == nil_uuid
    then invalid "tournament_id es requerido"
    else if not (valid_group_name name)
    then name_error "group_name %q inválido: debe ser A–L" name
    else none

-- `GetKnockoutRoundQuery.validate`
unfoldable pub validate_round_query : Uuid → String → Option Failure
validate_round_query tournament_id phase =
    if tournament_id == nil_uuid
    then invalid "tournament_id es requerido"
    else if not (mem_name knockout_phases phase)
    then name_error "phase %q inválida" phase
    else none

-- `ListMatchesQuery.validate`
unfoldable pub validate_matches_query : Uuid → MatchFilters → Option Failure
validate_matches_query tournament_id f =
    if tournament_id == nil_uuid
    then invalid "tournament_id es requerido"
    else if not (str_eq f.group_name "") && not (valid_group_name f.group_name)
    then name_error "group_name %q inválido" f.group_name
    else if (not (f.date_from == 0) && not (f.date_to == 0)) && ltb f.date_to f.date_from
    then invalid "date_from no puede ser posterior a date_to"
    else none

-- A read after its validation.
abbrev pub checked : {A : Type 0} → Option Failure → Result A → Result A
checked (some e) r = failed e
checked none r = r

pub record ListMatchesResult : Type 0 where
  pub matches : List MatchDto
  pub meta : PageMeta

-- The metadata that the listing is returned with.
abbrev pub with_meta : PageParams → Result (List MatchDto × ℕ) → Result ListMatchesResult
with_meta page (ok (ms, total)) = elim (new_page_meta page total) [
  | none ↦ panicked
  | some m ↦ ok (record { matches = ms; meta = m })
]
with_meta page (failed e) = failed e
with_meta page panicked = panicked

module _ {S : Type 0} (rm : ReadModels S) (s : S) where
  unfoldable pub handle_get_fixture : Uuid → Result FixtureDto
  handle_get_fixture id = checked (check_tournament id) (rm.get_fixture s id)

  unfoldable pub handle_get_group : Uuid → String → Result GroupDto
  handle_get_group id name = checked (validate_group_query id name) (rm.get_group s id name)

  unfoldable pub handle_list_groups : Uuid → Result (List GroupDto)
  handle_list_groups id = checked (check_tournament id) (rm.list_groups s id)

  unfoldable pub handle_get_standings : Uuid → String → Result (List StandingDto)
  handle_get_standings id name =
      checked (validate_standings_query id name) (rm.get_standings s id name)

  unfoldable pub handle_get_best_thirds : Uuid → Result (List BestThirdDto)
  handle_get_best_thirds id = checked (check_tournament id) (rm.get_best_thirds s id)

  unfoldable pub handle_get_knockout : Uuid → Result KnockoutDto
  handle_get_knockout id = checked (check_tournament id) (rm.get_knockout s id)

  unfoldable pub handle_get_knockout_round : Uuid → String → Result (List MatchDto)
  handle_get_knockout_round id phase =
      checked (validate_round_query id phase) (rm.get_knockout_round s id phase)

  unfoldable pub handle_list_matches : Uuid → MatchFilters → PageParams → Result ListMatchesResult
  handle_list_matches id f page =
      checked (validate_matches_query id f) (with_meta page (rm.list_matches s id f page))

  unfoldable pub handle_get_match : Uuid → Result MatchDto
  handle_get_match id =
      if id == nil_uuid
      then failed (err_validation (text "match_id es requerido"))
      else rm.get_match s id

abbrev pub count : Bool → ℕ
count true = 1
count false = 0

unfoldable pub count_active_filters : MatchFilters → ℕ
count_active_filters f =
    count (not (str_eq f.phase ""))
    + count (not (str_eq f.status ""))
    + count (not (str_eq f.group_name ""))
    + count (not (f.venue_id == nil_uuid))
    + count (not (f.date_from == 0))
    + count (not (f.date_to == 0))
    + count (not (f.team_id == nil_uuid))
