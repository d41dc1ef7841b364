-- ===== src/Examples/Storage.antt =====
-- The theorems on `Save` and on the distance matrix, applied to the tournament and to three venues.
use wc_fixture.Base.{
  ℕ, Uuid, uuid_arg, String, text, ◌≡◌, refl, arith, Bool, true, Option, none, some, List, [], ◌∷◌,
  ◌++◌, ltb, ◌==◌, ◌+◌, ◌*◌, ◌-◌,
}
use wc_fixture.Core.Fixture.{Fixture, drain_events}
use wc_fixture.App.Ports.{Failure}
use wc_fixture.Postgres.Tables.{Database}
use wc_fixture.Postgres.Save.{
  Server, committed, save, run_transaction, end_transaction, rows_affected, update_rows,
  is_previous, execute, upsert_matches, groups_statements, rounds_statements, matches_statements,
  match_statements, upsert_standings, standing_statements, append_events,
}
use wc_fixture.Postgres.Atomic.{save-again}
use wc_fixture.Postgres.Snapshot.{
  IsSnapshot, load_tournament_snapshot, save-load_tournament_snapshot,
}
use wc_fixture.Venue.Geo.{Floats, Venue, usa, point_distance_to}
use wc_fixture.Venue.Distance.{get, build_distance_matrix}
use wc_fixture.Venue.Matrix.{IsTextOrder, build_distance_matrix-Get}
use wc_fixture.Shared.AppErrors.{err_not_found}
use wc_fixture.Team.Domain.{Confederation}
use wc_fixture.Team.Queries as Registry
use wc_fixture.Team.Queries.{TeamRepository, ok, failed}
use wc_fixture.Examples.Data.{cup}

-- A server that takes everything.
abbrev server : Server
server = record {
  timestamp = λ t. t;
  takes = λ db st. true;
  begins = λ db. true;
  updates = λ db. true;
  commits = λ db. committed;
}

-- The tournament after its first change.
abbrev second : Fixture
second = record cup { version = 1 }

abbrev tables : Database
tables = record {
  tournaments =
      record {
        id = 91;
        tournament_id = 92;
        edition = 2026;
        name = "WC";
        status = "DRAFT";
        version = 0;
      }
      ∷ [];
  matches = [];
  results = [];
  standings = [];
  events = [];
}

saved : (save server tables second).failure ≡ none
unfolding save run_transaction end_transaction drain_events rows_affected update_rows is_previous
    execute upsert_matches groups_statements rounds_statements matches_statements match_statements
    upsert_standings standing_statements append_events wc_fixture.Base.Int.sub
    wc_fixture.Base.Int.rank wc_fixture.Core.Group.zero_standings
saved = refl

save-again_example :
    (e : Failure) × ((save server (save server tables second).world second).failure ≡ some e)
    × ((save server (save server tables second).world second).world
        ≡ (save server tables second).world)
save-again_example = save-again server server tables second second saved refl refl

save-load_tournament_snapshot_example :
    IsSnapshot second (load_tournament_snapshot (λ db. true) (save server tables second).world 92)
save-load_tournament_snapshot_example =
    save-load_tournament_snapshot server (λ db. true) tables second (tt, tt) saved refl

-- Whole degrees for `float64`, which is enough to build a matrix.
abbrev degrees : Floats ℕ
degrees = record {
  literal = λ s. 2;
  add = λ a b. a + b;
  sub = λ a b. a - b;
  mul = λ a b. a * b;
  div = λ a b. a;
  less = λ a b. ltb a b;
  less_or_equal = λ a b. true;
  equal = λ a b. a == b;
  sin = λ a. a;
  cos = λ a. a;
  sqrt = λ a. a;
  atan2 = λ a b. a + b;
  pi = 3;
  print = λ a. text "";
}

abbrev stadium : Uuid → ℕ → Venue ℕ
stadium id lat = record {
  id = id;
  name = "Azteca";
  city = "";
  country = usa;
  country_code = "USA";
  capacity = 80000;
  surface = "natural_grass";
  location = record { lat = lat; lon = 1 };
  timezone = "";
  altitude_m = 0;
}

ltb-IsTextOrder : IsTextOrder ltb
ltb-IsTextOrder = record { asymm = λ a b h. ground arith; total = λ a b n h. ground arith }

build_distance_matrix-Get_example :
    (get ltb 0
        (build_distance_matrix ltb degrees (stadium 5 9 ∷ stadium 7 4 ∷ stadium 6 3 ∷ []))
        7
        6
      ≡ point_distance_to degrees (record { lat = 4; lon = 1 }) (record { lat = 3; lon = 1 }))
    × (get ltb 0
          (build_distance_matrix ltb degrees (stadium 5 9 ∷ stadium 7 4 ∷ stadium 6 3 ∷ []))
          6
          7
        ≡ point_distance_to degrees (record { lat = 4; lon = 1 }) (record { lat = 3; lon = 1 }))
build_distance_matrix-Get_example =
    build_distance_matrix-Get ltb degrees 0 (stadium 7 4) (stadium 6 3) (stadium 5 9 ∷ []) [] []
      ltb-IsTextOrder (refl, tt) tt

abbrev confederation : String → Confederation
confederation code = record { code = code; name = ""; short_name = code; region = "" }

-- A registry that lists the confederations by their codes, and no team.
abbrev by_code : List Confederation
by_code =
    confederation "AFC"
    ∷ confederation "CAF"
    ∷ confederation "CONCACAF"
    ∷ confederation "CONMEBOL"
    ∷ confederation "OFC"
    ∷ confederation "UEFA"
    ∷ []

abbrev registry : TeamRepository ℕ
registry = record {
  get_by_id = λ s id. failed (err_not_found "equipo" (uuid_arg id));
  list = λ s f. ok [];
  list_confederations = λ s. ok by_code;
}
