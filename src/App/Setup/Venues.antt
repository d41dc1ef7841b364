-- ===== src/App/Setup/Venues.antt =====
-- `validateVenues` of contexts/fixture-core/internal/application/commands/initialize_tournament.go,
-- which no handler calls.
use wc_fixture.Base.{
  nil_uuid, String, sprintf₂, string_arg, int_arg, Option, none, some, List, [], ◌∷◌, ◌≡◌, All,
  ◌==◌, if◌then◌else◌, false, arith, Option-cases, inl, inr,
}
use wc_fixture.Shared.AppErrors.{err_validation}
use wc_fixture.App.Ports.{Failure}
use wc_fixture.App.Setup.{MatchConfig, GroupConfig}

-- The inner loop, over the matches of the group of that name.
unfoldable pub validate_plans : String → List MatchConfig → Option Failure
validate_plans name [] = none
validate_plans name (m ∷ rest) =
    let later = validate_plans name rest in
    if m.venue_id == nil_uuid
    then some (
        err_validation (
          sprintf₂ "el partido %d del grupo %q no tiene venue asignado" (int_arg m.match_number)
            (string_arg name)))
    else if m.scheduled_at == 0
    then some (
        err_validation (
          sprintf₂ "el partido %d del grupo %q no tiene horario asignado" (int_arg m.match_number)
            (string_arg name)))
    else later

unfoldable pub validate_venues : List GroupConfig → Option Failure
validate_venues [] = none
validate_venues (g ∷ rest) = elim (validate_plans g.name g.matches) [
  | some e ↦ some e
  | none ↦ validate_venues rest
]

-- A match with a venue and a time.
pub record IsPlanned (m : MatchConfig) : Type 0 where
  pub has_venue : (m.venue_id == nil_uuid) ≡ false
  pub has_time : (m.scheduled_at == 0) ≡ false

validate_plans-IsPlanned :
    (name : String) (ms : List MatchConfig) → validate_plans name ms ≡ none → All IsPlanned ms
unfolding validate_plans
validate_plans-IsPlanned name [] h = tt
validate_plans-IsPlanned name (m ∷ rest) h = (
  record { has_venue = ground arith; has_time = ground arith },
  validate_plans-IsPlanned name rest (ground arith),
)

-- Groups that pass have a venue and a time for each match.
pub validate_venues-IsPlanned :
    (groups : List GroupConfig)
    → validate_venues groups ≡ none
    → All (λ g. All IsPlanned g.matches) groups
unfolding validate_venues
validate_venues-IsPlanned [] h = tt
validate_venues-IsPlanned (g ∷ rest) h = elim (Option-cases (validate_plans g.name g.matches)) [
  | inl n ↦ (
    validate_plans-IsPlanned g.name g.matches n,
    validate_venues-IsPlanned rest (rw (n, validate_venues) at h),
  )
  | inr (e, n) ↦ absurd (cc (rw (n, validate_venues) at h))
]
