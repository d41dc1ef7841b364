-- ===== src/App/Setup.antt =====
-- The initial aggregate: contexts/fixture-core/internal/application/commands/initialize_tournament.go.
pub mod Build
pub mod Unique
pub mod Venues
use package.text.Mathlib.Text.{◌==◌ as str_eq}
use wc_fixture.Base.{
  ℕ, zero, suc, ◌+◌, Uuid, nil_uuid, Time, String, text, sprintf, sprintf₂, sprintf₃, Arg, uuid_arg,
  int_arg, string_arg, Message, Bool, true, false, not, ◌&&◌, ◌||◌, Option, none, some, List, [],
  ◌∷◌, length, ◌==◌, if◌then◌else◌,
}
use wc_fixture.Base.Int.{lt}
use wc_fixture.Core.Slot.{slot_for_team}
use wc_fixture.Core.Match as Match
use wc_fixture.Core.Match.{Match, group_phase}
use wc_fixture.Core.Standing.{GroupStanding}
use wc_fixture.Core.Group.{Group, Teams, pending, zero_standing}
use wc_fixture.Core.Fixture.{Fixture, Runtime, group_stage, drain_events}
use wc_fixture.Shared.AppErrors.{err_validation, err_internal}
use wc_fixture.App.Ports.{Failure, Saved, Ports, Response}
use wc_fixture.App.Results.{invalid}

pub record MatchConfig : Type 0 where
  pub match_number : ℕ
  pub home_team_id : Uuid
  pub away_team_id : Uuid
  pub venue_id : Uuid
  pub scheduled_at : Time

pub record GroupConfig : Type 0 where
  pub name : String
  pub teams : List Uuid
  pub matches : List MatchConfig

pub record InitializeTournamentCmd : Type 0 where
  pub tournament_id : Uuid
  pub edition : ℕ
  pub name : String
  pub groups : List GroupConfig

-- The loop over the groups in `validate`.
unfoldable pub validate_groups : List GroupConfig → Option Failure
validate_groups [] = none
validate_groups (g ∷ rest) =
    let later = validate_groups rest in
    if not (length g.teams == 4)
    then some (
        err_validation (sprintf "el grupo %q debe tener exactamente 4 equipos" (string_arg g.name)))
    else if not (length g.matches == 6)
    then some (
        err_validation
          (sprintf "el grupo %q debe tener exactamente 6 partidos" (string_arg g.name)))
    else later

unfoldable pub validate_init_cmd : InitializeTournamentCmd → Option Failure
validate_init_cmd c =
    if c.tournament_id == nil_uuid
    then invalid "tournament_id es requerido"
    else if lt c.edition 2026
    then some (err_validation (sprintf "edition inválida: %d" (int_arg c.edition)))
    else if str_eq c.name ""
    then invalid "name es requerido"
    else if not (length c.groups == 12)
    then some (
        err_validation (
          sprintf "se requieren exactamente 12 grupos, se recibieron %d"
            (int_arg (length c.groups))))
    else validate_groups c.groups

-- The loop that fills `[4]uuid.UUID`: a fifth team is out of range, and `none` is Go's panic.
unfoldable pub build_teams : List Uuid → Option Teams
build_teams [] =
    some (record { first = nil_uuid; second = nil_uuid; third = nil_uuid; fourth = nil_uuid })
build_teams (a ∷ []) =
    some (record { first = a; second = nil_uuid; third = nil_uuid; fourth = nil_uuid })
build_teams (a ∷ b ∷ []) =
    some (record { first = a; second = b; third = nil_uuid; fourth = nil_uuid })
build_teams (a ∷ b ∷ c ∷ []) = some (record { first = a; second = b; third = c; fourth = nil_uuid })
build_teams (a ∷ b ∷ c ∷ d ∷ []) = some (record { first = a; second = b; third = c; fourth = d })
build_teams _ = none

abbrev pub cons_standing : GroupStanding → Option (List GroupStanding) → Option (List GroupStanding)
cons_standing s none = none
cons_standing s (some rest) = some (s ∷ rest)

-- `make([]GroupStanding, n)` and its loop, from the place `i` on; a slot that no team takes is zero.
unfoldable pub build_standings : ℕ → ℕ → List Uuid → Option (List GroupStanding)
build_standings zero i [] = some []
build_standings zero i (t ∷ rest) = none
build_standings (suc n) i [] = cons_standing (zero_standing nil_uuid) (build_standings n (suc i) [])
build_standings (suc n) i (t ∷ rest) =
    let s = zero_standing t in
    cons_standing (record s { position = suc i }) (build_standings n (suc i) rest)

-- `uuid.New` in the order of its calls: the next id is that of `n`.
unfoldable pub build_match : Runtime → ℕ → MatchConfig → Match
build_match env n c = record {
  id = env.match_id n;
  phase = group_phase;
  match_number = c.match_number;
  home_slot = slot_for_team c.home_team_id;
  away_slot = slot_for_team c.away_team_id;
  venue_id = c.venue_id;
  scheduled_at = c.scheduled_at;
  status = Match.scheduled;
  result = none;
  parent_home_match_id = none;
  parent_away_match_id = none;
}

unfoldable pub build_matches : Runtime → ℕ → List MatchConfig → List Match
build_matches env n [] = []
build_matches env n (c ∷ rest) = build_match env n c ∷ build_matches env (suc n) rest

unfoldable pub build_group : Runtime → ℕ → GroupConfig → Option Group
build_group env n c = elim (build_teams c.teams) [
  | none ↦ none
  | some teams ↦ elim (build_standings 4 0 c.teams) [
    | none ↦ none
    | some standings ↦ some (record {
      id = env.match_id (n + length c.matches);
      name = c.name;
      status = pending;
      teams = teams;
      matches = build_matches env n c.matches;
      standings = standings;
    })
  ]
]

-- The ids that a group takes: one for each match and its own.
abbrev pub ids_of_group : GroupConfig → ℕ
ids_of_group c = suc (length c.matches)

abbrev pub cons_group : Option Group → Option (List Group) → Option (List Group)
cons_group (some g) (some rest) = some (g ∷ rest)
cons_group _ _ = none

unfoldable pub build_groups : Runtime → ℕ → List GroupConfig → Option (List Group)
build_groups env n [] = some []
build_groups env n (c ∷ rest) =
    cons_group (build_group env n c) (build_groups env (n + ids_of_group c) rest)

unfoldable pub ids_of_groups : List GroupConfig → ℕ
ids_of_groups [] = 0
ids_of_groups (c ∷ rest) = ids_of_group c + ids_of_groups rest

-- The event that `buildFixture` makes is assigned to `_`: nothing is pending.
unfoldable pub build_fixture : Runtime → InitializeTournamentCmd → Option Fixture
build_fixture env c = elim (build_groups env 0 c.groups) [
  | none ↦ none
  | some groups ↦ some (record {
    id = env.match_id (ids_of_groups c.groups);
    tournament_id = c.tournament_id;
    edition = c.edition;
    name = c.name;
    status = group_stage;
    groups = groups;
    knockout_rounds = [];
    version = 0;
    pending_events = [];
  })
]

module _ {S : Type 0} (ports : Ports S) where
  -- Here `Save` comes before `PendingEvents`.
  unfoldable pub save_initial : S → Fixture → Response S
  save_initial s f =
      let out = ports.save s f in
      elim out.failure [
        | some e ↦ (out.world, some (err_internal "error al persistir el fixture inicial" e))
        | none ↦ ((ports.publish_all out.world (drain_events out.fixture).1).0, none)
      ]

  -- `none` is a panic.
  unfoldable pub handle_initialize : Runtime → InitializeTournamentCmd → S → Option (Response S)
  handle_initialize env c s = elim (validate_init_cmd c) [
    | some e ↦ some (s, some e)
    | none ↦ elim (build_fixture env c) [ none ↦ none | some f ↦ some (save_initial s f) ]
  ]

-- The keys of a Go map with their values, the latest write first.
abbrev pub seen_in : List (Uuid × String) → Uuid → Option String
seen_in [] id = none
seen_in ((k, v) ∷ rest) id = if k == id then some v else seen_in rest id

-- The two nested loops of `validateUniqueTeams`: one group, then the rest with what was seen.
pub data Scan : Type 0 where
  repeated : Failure → Scan
  scanned : List (Uuid × String) → Scan

unfoldable pub scan_teams : String → List Uuid → List (Uuid × String) → Scan
scan_teams name [] seen = scanned seen
scan_teams name (t ∷ rest) seen = elim (seen_in seen t) [
  | some prev ↦ repeated (
      err_validation (
        sprintf₃ "el equipo %s aparece en los grupos %q y %q" (uuid_arg t) (string_arg prev)
          (string_arg name)))
  | none ↦ scan_teams name rest ((t, name) ∷ seen)
]

unfoldable pub unique_from : List GroupConfig → List (Uuid × String) → Option Failure
unique_from [] seen = none
unique_from (g ∷ rest) seen = elim (scan_teams g.name g.teams seen) [
  | repeated e ↦ some e
  | scanned seen1 ↦ unique_from rest seen1
]

unfoldable pub validate_unique_teams : List GroupConfig → Option Failure
validate_unique_teams groups = unique_from groups []
