-- ===== src/Venue/Geo.antt =====
-- Venues and coordinates: venue.go, geo_point.go and errors.go of
-- contexts/venue-geo/internal/domain/venue. `F` is `float64`, with its operations as a parameter.
use package.text.Mathlib.Text.{◌==◌ as str_eq}
use wc_fixture.Base.{
  ℕ, Uuid, nil_uuid, String, Message, text, sprintf, string_arg, Bool, not, ◌&&◌, ◌||◌, Option,
  none, some, ◌==◌, if◌then◌else◌,
}
use wc_fixture.Base.Int.{lt}

-- The constants (by their source text), the arithmetic and the comparisons of `float64`, and the
-- functions of the package math.
pub record Floats (F : Type 0) : Type 0 where
  pub literal : String → F
  pub add : F → F → F
  pub sub : F → F → F
  pub mul : F → F → F
  pub div : F → F → F
  pub less : F → F → Bool
  pub less_or_equal : F → F → Bool
  pub equal : F → F → Bool
  pub sin : F → F
  pub cos : F → F
  pub sqrt : F → F
  pub atan2 : F → F → F
  pub pi : F
  pub print : F → Message

pub data ErrCode : Type 0 where
  venue_not_found invalid_coordinates invalid_radius same_venue : ErrCode

pub record DomainError : Type 0 where
  pub code : ErrCode
  pub message : Message

abbrev pub err_venue_not_found : String → DomainError
err_venue_not_found id = record {
  code = venue_not_found;
  message = sprintf "venue %q no encontrado" (string_arg id);
}

abbrev pub err_same_venue : DomainError
err_same_venue = record {
  code = same_venue;
  message = text "los dos venues deben ser distintos para calcular distancia";
}

pub record GeoPoint (F : Type 0) : Type 0 where
  pub lat : F
  pub lon : F

-- The three countries, and any other text.
pub data Country : Type 0 where
  usa canada mexico : Country
  other_country : String → Country

pub record Venue (F : Type 0) : Type 0 where
  pub id : Uuid
  pub name : String
  pub city : String
  pub country : Country
  pub country_code : String
  pub capacity : ℕ
  pub surface : String
  pub location : GeoPoint F
  pub timezone : String
  pub altitude_m : ℕ

module _ {F : Type 0} (fl : Floats F) where
  abbrev pub err_invalid_coordinates : GeoPoint F → DomainError
  err_invalid_coordinates p = record {
    code = invalid_coordinates;
    message =
        wc_fixture.Base.sprintf₂
          "coordenadas inválidas: lat=%.6f lon=%.6f (lat debe estar en [-90,90], lon en [-180,180])"
          (wc_fixture.Base.message_arg (fl.print p.lat))
          (wc_fixture.Base.message_arg (fl.print p.lon));
  }

  unfoldable pub validate_point : GeoPoint F → Option DomainError
  validate_point p =
      if (fl.less p.lat (fl.literal "-90") || fl.less (fl.literal "90") p.lat)
        || (fl.less p.lon (fl.literal "-180") || fl.less (fl.literal "180") p.lon)
      then some (err_invalid_coordinates p)
      else none

  unfoldable pub is_zero : GeoPoint F → Bool
  is_zero p = fl.equal p.lat (fl.literal "0") && fl.equal p.lon (fl.literal "0")

  unfoldable pub degrees_to_radians : F → F
  degrees_to_radians deg = fl.div (fl.mul deg fl.pi) (fl.literal "180")

  -- The half of a difference, its sine squared.
  abbrev pub half_sine_squared : F → F
  half_sine_squared d = let s = fl.sin (fl.div d (fl.literal "2")) in fl.mul s s

  unfoldable pub point_distance_to : GeoPoint F → GeoPoint F → F
  point_distance_to p other =
      let lat1 = degrees_to_radians p.lat in
      let lat2 = degrees_to_radians other.lat in
      let d_lat = degrees_to_radians (fl.sub other.lat p.lat) in
      let d_lon = degrees_to_radians (fl.sub other.lon p.lon) in
      let s = fl.sin (fl.div d_lon (fl.literal "2")) in
      let a =
        fl.add (half_sine_squared d_lat)
          (fl.mul (fl.mul (fl.mul (fl.cos lat1) (fl.cos lat2)) s) s) in
      let c =
        fl.mul (fl.literal "2") (fl.atan2 (fl.sqrt a) (fl.sqrt (fl.sub (fl.literal "1") a))) in
      fl.mul (fl.literal "6371.0088") c

  unfoldable pub is_within_radius : GeoPoint F → GeoPoint F → F → Bool
  is_within_radius p center radius = fl.less_or_equal (point_distance_to p center) radius

  unfoldable pub distance_to : Venue F → Venue F → F
  distance_to v other = point_distance_to v.location other.location

  -- `Venue.Validate`
  unfoldable pub validate_venue : Venue F → Option DomainError
  validate_venue v =
      if v.id == nil_uuid
      then some (record { code = venue_not_found; message = text "venue sin ID" })
      else if str_eq v.name ""
      then some (record { code = venue_not_found; message = text "venue sin nombre" })
      else if not (lt 0 v.capacity)
      then some
          (record { code = invalid_coordinates; message = text "capacidad debe ser mayor a 0" })
      else validate_point v.location
