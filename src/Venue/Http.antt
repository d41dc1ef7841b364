-- ===== src/Venue/Http.antt =====
-- The HTTP handlers of contexts/venue-geo/internal/infrastructure/http/handler/venue_handler.go, on
-- the query parameters and the path of a request. A parameter that the URL lacks is the empty text.
use package.text.Mathlib.Text.{◌==◌ as str_eq}
use wc_fixture.Base.{
  Uuid, String, sprintf, sprintf₂, string_arg, Option, none, some, List, if◌then◌else◌,
}
use wc_fixture.Shared.AppErrors.{err_validation}
use wc_fixture.Shared.Http.{HttpResponse, write_ok, write_error}
use wc_fixture.Venue.Geo.{Floats}
use wc_fixture.Venue.Distance.{DistanceMatrix}
use wc_fixture.Venue.Queries.{
  Result, ok, failed, VenueDto, DistanceDto, VenueRepository, handle_get_venue, handle_list_venues,
  handle_get_distance, handle_get_distance_matrix, handle_get_nearby,
}

-- What the endpoints answer with.
pub data Payload (F : Type 0) : Type 0 where
  venues_payload : List (VenueDto F) → Payload F
  venue_payload : VenueDto F → Payload F
  distance_payload : DistanceDto F → Payload F
  matrix_payload : List (DistanceDto F) → Payload F
  nearby_payload : List (VenueDto F × F) → Payload F

abbrev pub Answer : Type 0 → Type 0
Answer F = HttpResponse (Payload F)

-- A step of a handler that writes the error and returns, or goes on.
abbrev pub or_answer : {A F : Type 0} → Result A → (A → Answer F) → Answer F
or_answer (failed e) next = write_error e
or_answer (ok a) next = next a

abbrev pub write_result : {A F : Type 0} → (A → Payload F) → Result A → Answer F
write_result p r = or_answer r (λ a. write_ok (p a))

-- What the handlers read from a request: `Query().Get`, `chi.URLParam(r, "venueID")`, and the parsers
-- of the packages uuid and strconv.
pub record Request (F : Type 0) : Type 0 where
  pub query : String → String
  pub venue_id : String
  pub parse_uuid : String → Option Uuid
  pub parse_float64 : String → Option F

abbrev pub parsed_or : {A : Type 0} → Result A → Option A → Result A
parsed_or e none = e
parsed_or e (some a) = ok a

-- The body that `parseUUIDParam` and `parseFloat` share: `kind` is the end of the second message.
abbrev pub parse_param : {A : Type 0} → (String → Option A) → String → String → String → Result A
parse_param parse kind param raw =
    if str_eq raw ""
    then failed (err_validation (sprintf "parámetro %q es requerido" (string_arg param)))
    else parsed_or (failed (err_validation (sprintf₂ kind (string_arg param) (string_arg raw))))
        (parse raw)

module _ {F : Type 0} (r : Request F) where
  unfoldable pub parse_venue_id : Result Uuid
  parse_venue_id =
      parsed_or
        (failed
          (err_validation (sprintf "venueID %q no es un UUID válido" (string_arg r.venue_id))))
        (r.parse_uuid r.venue_id)

  unfoldable pub parse_uuid_param : String → Result Uuid
  parse_uuid_param param =
      parse_param r.parse_uuid "parámetro %q %q no es un UUID válido" param (r.query param)

  unfoldable pub parse_float : String → Result F
  parse_float param =
      parse_param r.parse_float64 "parámetro %q %q no es un número válido" param (r.query param)

module _ {S F : Type 0} (repo : VenueRepository S F) (s : S) (r : Request F) where
  unfoldable pub list_venues : Answer F
  list_venues = write_result venues_payload (handle_list_venues repo s (r.query "country"))

  unfoldable pub get_venue : Answer F
  get_venue =
      or_answer (parse_venue_id r) (λ id. write_result venue_payload (handle_get_venue repo s id))

  unfoldable pub get_distance : Answer F
  get_distance = or_answer (parse_uuid_param r "from") (λ from.
      or_answer (parse_uuid_param r "to")
        (λ to. write_result distance_payload (handle_get_distance repo s from to)))

  unfoldable pub get_distance_matrix : (DistanceMatrix F → DistanceMatrix F) → Answer F
  get_distance_matrix range = write_result matrix_payload (handle_get_distance_matrix repo s range)

  unfoldable pub get_nearby_venues : Floats F → Answer F
  get_nearby_venues fl = or_answer (parse_float r "lat") (λ lat.
      or_answer (parse_float r "lon") (λ lon. or_answer (parse_float r "radius_km") (λ radius.
        write_result nearby_payload
          (handle_get_nearby repo s fl (record { lat = lat; lon = lon }) radius))))
