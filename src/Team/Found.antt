-- ===== src/Team/Found.antt =====
-- Which confederations can be read: get_confederation.go of
-- contexts/team-registry/internal/application/queries with confederation.go of its domain.
use package.text.Mathlib.Text.{◌==◌ as str_eq}
use wc_fixture.Base.{String, Bool, false, ◌||◌, List, [], ◌∷◌, ◌≡◌}
use wc_fixture.Team.Domain.{Confederation, slots_in_wc2026}
use wc_fixture.Team.Queries.{ok, ConfederationDto, find_confederation}

-- The code is that of a confederation of the list, and the search finds it.
abbrev pub IsFoundIn : String → List Confederation → Type 0
IsFoundIn code cs =
    (d : ConfederationDto) × (find_confederation code cs ≡ ok d)
    × (d.code ≡ code)
    × (d.wc2026_slots ≡ slots_in_wc2026 code)

abbrev pub has_code : String → List Confederation → Bool
has_code code [] = false
has_code code (c ∷ cs) = str_eq c.code code || has_code code cs

-- The six codes of FIFA's confederations.
abbrev pub six_codes : List String
six_codes = "UEFA" ∷ "CONMEBOL" ∷ "CONCACAF" ∷ "CAF" ∷ "AFC" ∷ "OFC" ∷ []

abbrev pub mem_code : String → List String → Bool
mem_code code [] = false
mem_code code (c ∷ cs) = str_eq code c || mem_code code cs
