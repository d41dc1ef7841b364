-- ===== src/Team/Domain.antt =====
-- Teams and confederations: team.go, confederation.go and errors.go of
-- contexts/team-registry/internal/domain/team. A confederation code is its text.
use package.text.Mathlib.Text.{◌==◌ as str_eq}
use wc_fixture.Base.{
  ℕ, Uuid, nil_uuid, String, Message, text, sprintf, string_arg, int_arg, Bool, not, ◌||◌, Option,
  none, some, List, [], ◌∷◌, ◌==◌, ◌!=◌, if◌then◌else◌,
}
use wc_fixture.Base.Int.{lt}

pub data ErrCode : Type 0 where
  team_not_found confederation_not_found invalid_fifa_ranking duplicate_team : ErrCode

pub record DomainError : Type 0 where
  pub code : ErrCode
  pub message : Message

abbrev pub err_confederation_not_found : String → DomainError
err_confederation_not_found code = record {
  code = confederation_not_found;
  message = sprintf "confederación %q no encontrada" (string_arg code);
}

abbrev pub err_invalid_fifa_ranking : ℕ → DomainError
err_invalid_fifa_ranking rank = record {
  code = invalid_fifa_ranking;
  message = sprintf "ranking FIFA inválido: %d (debe ser > 0)" (int_arg rank);
}

abbrev pub err_team : String → DomainError
err_team s = record { code = team_not_found; message = text s }

pub record Confederation : Type 0 where
  pub code : String
  pub name : String
  pub short_name : String
  pub region : String

abbrev pub all_confederations : List Confederation
all_confederations =
    record {
      code = "UEFA";
      name = "Union of European Football Associations";
      short_name = "UEFA";
      region = "Europe";
    }
    ∷ record {
      code = "CONMEBOL";
      name = "Confederación Sudamericana de Fútbol";
      short_name = "CONMEBOL";
      region = "South America";
    }
    ∷ record {
      code = "CONCACAF";
      name = "Confederation of North, Central America and Caribbean Association Football";
      short_name = "CONCACAF";
      region = "North/Central America & Caribbean";
    }
    ∷ record {
      code = "CAF";
      name = "Confederation of African Football";
      short_name = "CAF";
      region = "Africa";
    }
    ∷ record {
      code = "AFC";
      name = "Asian Football Confederation";
      short_name = "AFC";
      region = "Asia";
    }
    ∷ record {
      code = "OFC";
      name = "Oceania Football Confederation";
      short_name = "OFC";
      region = "Oceania";
    }
    ∷ []

-- `IsValid`: the `case` with the six constants.
unfoldable pub is_valid : String → Bool
is_valid c =
    str_eq c "UEFA"
    || (str_eq c "CONMEBOL"
        || (str_eq c "CONCACAF" || (str_eq c "CAF" || (str_eq c "AFC" || str_eq c "OFC"))))

-- `SlotsInWC2026`; a key that the map lacks gives 0.
unfoldable pub slots_in_wc2026 : String → ℕ
slots_in_wc2026 c =
    if str_eq c "UEFA"
    then 16
    else if str_eq c "CAF"
    then 9
    else if str_eq c "CONMEBOL"
    then 6
    else if str_eq c "CONCACAF"
    then 6
    else if str_eq c "AFC"
    then 8
    else if str_eq c "OFC"
    then 1
    else 0

-- `short_name_bytes` is `len(t.ShortName)`.
pub record Team : Type 0 where
  pub id : Uuid
  pub name : String
  pub short_name : String
  pub short_name_bytes : ℕ
  pub country_code : String
  pub confederation : String
  pub fifa_ranking_date : ℕ
  pub flag_url : String
  pub qualified : Bool

unfoldable pub validate_team : Team → Option DomainError
validate_team t =
    if t.id == nil_uuid
    then some (err_team "equipo sin ID")
    else if str_eq t.name ""
    then some (err_team "equipo sin nombre")
    else if t.short_name_bytes != 3
    then some (err_team "short_name debe tener exactamente 3 caracteres")
    else if not (is_valid t.confederation)
    then some (err_confederation_not_found t.confederation)
    else if lt t.fifa_ranking_date 1
    then some (err_invalid_fifa_ranking t.fifa_ranking_date)
    else none

unfoldable pub is_from_confederation : Team → String → Bool
is_from_confederation t code = str_eq t.confederation code
