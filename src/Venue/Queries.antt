-- ===== src/Venue/Queries.antt =====
-- The queries of contexts/venue-geo/internal/application/queries: get_venue.go and get_distance.go.
-- The repository is a record of functions on the state `S` of the database; `range` is the order in
-- which Go goes over a map.
use package.text.Mathlib.Text.{◌==◌ as str_eq}
use wc_fixture.Base.{
  ℕ, Uuid, nil_uuid, String, Message, text, sprintf, string_arg, message_arg, Bool, ◌||◌, Option,
  none, some, List, [], ◌∷◌, map, ◌==◌, if◌then◌else◌,
}
use wc_fixture.Shared.AppErrors.{Error, err_validation}
use wc_fixture.Venue.Geo.{
  Floats, DomainError, GeoPoint, Country, usa, canada, mexico, other_country, Venue, validate_point,
}
use wc_fixture.Venue.Distance.{Key, DistanceMatrix}

abbrev pub Failure : Type 0
Failure = Error DomainError

pub data Result (A : Type 0) : Type 0 where
  ok : A → Result A
  failed : Failure → Result A

abbrev pub invalid : {A : Type 0} → String → Result A
invalid s = failed (err_validation (text s))

pub record VenueDto (F : Type 0) : Type 0 where
  pub id : Uuid
  pub name : String
  pub city : String
  pub country : String
  pub country_code : String
  pub capacity : ℕ
  pub surface : String
  pub lat : F
  pub lon : F
  pub timezone : String
  pub altitude_m : ℕ

pub record DistanceDto (F : Type 0) : Type 0 where
  pub from_venue_id : Uuid
  pub to_venue_id : Uuid
  pub distance_km : F

unfoldable pub country_text : Country → String
country_text usa = "USA"
country_text canada = "CAN"
country_text mexico = "MEX"
country_text (other_country s) = s

-- `venue.Country(s)`
unfoldable pub to_country : String → Country
to_country s =
    if str_eq s "USA"
    then usa
    else if str_eq s "CAN"
    then canada
    else if str_eq s "MEX"
    then mexico
    else other_country s

unfoldable pub to_venue_dto : {F : Type 0} → Venue F → VenueDto F
to_venue_dto v = record {
  id = v.id;
  name = v.name;
  city = v.city;
  country = country_text v.country;
  country_code = v.country_code;
  capacity = v.capacity;
  surface = v.surface;
  lat = v.location.lat;
  lon = v.location.lon;
  timezone = v.timezone;
  altitude_m = v.altitude_m;
}

pub record VenueRepository (S : Type 0) (F : Type 0) : Type 0 where
  pub get_by_id : S → Uuid → Result (Venue F)
  pub list : S → Country → Result (List (Venue F))
  pub get_distance : S → Uuid → Uuid → Result F
  pub get_distance_matrix : S → Result (DistanceMatrix F)
  pub find_nearby : S → GeoPoint F → F → Result (List (Venue F × F))

abbrev pub map_result : {A B : Type 0} → (A → B) → Result A → Result B
map_result f (ok a) = ok (f a)
map_result f (failed e) = failed e

-- A country that the query names must be one of the three.
abbrev pub is_other : Country → Bool
is_other (other_country s) = wc_fixture.Base.true
is_other _ = wc_fixture.Base.false

module _ {S : Type 0} {F : Type 0} (repo : VenueRepository S F) (s : S) where
  unfoldable pub handle_get_venue : Uuid → Result (VenueDto F)
  handle_get_venue id =
      if id == nil_uuid
      then invalid "venue_id es requerido"
      else map_result to_venue_dto (repo.get_by_id s id)

  unfoldable pub handle_list_venues : String → Result (List (VenueDto F))
  handle_list_venues name =
      let country = to_country name in
      let venues = map_result (map to_venue_dto) (repo.list s country) in
      if str_eq name ""
      then venues
      else if is_other country
      then failed
          (err_validation (sprintf "country %q inválido: use USA, CAN o MEX" (string_arg name)))
      else venues

  unfoldable pub handle_get_distance : Uuid → Uuid → Result (DistanceDto F)
  handle_get_distance from to =
      if from == nil_uuid
      then invalid "from_venue_id es requerido"
      else if to == nil_uuid
      then invalid "to_venue_id es requerido"
      else if from == to
      then invalid "from_venue_id y to_venue_id deben ser distintos"
      else map_result (λ d. record { from_venue_id = from; to_venue_id = to; distance_km = d })
          (repo.get_distance s from to)

  unfoldable pub handle_get_distance_matrix :
      (DistanceMatrix F → DistanceMatrix F) → Result (List (DistanceDto F))
  handle_get_distance_matrix range =
      map_result
        (λ m.
          map
            (λ (e : Key × F). record {
              from_venue_id = e.0.0;
              to_venue_id = e.0.1;
              distance_km = e.1;
            })
            (range m))
        (repo.get_distance_matrix s)

  unfoldable pub handle_get_nearby : Floats F → GeoPoint F → F → Result (List (VenueDto F × F))
  handle_get_nearby fl center radius = elim (validate_point fl center) [
    | some e ↦ failed (err_validation (sprintf "coordenadas inválidas: %v" (message_arg e.message)))
    | none ↦
        if fl.less_or_equal radius (fl.literal "0") || fl.less (fl.literal "20000") radius
        then failed (
            err_validation (
              sprintf "radius_km debe estar entre 0 y 20000, se recibió %.2f"
                (message_arg (fl.print radius))))
        else map_result (map (λ (n : Venue F × F). (to_venue_dto (n.0), n.1)))
            (repo.find_nearby s center radius)
  ]
