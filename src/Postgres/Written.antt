-- ===== src/Postgres/Written.antt =====
-- The rows that `Save` of contexts/fixture-core/internal/infrastructure/postgres/fixture_repository.go
-- writes are those of the matches of the aggregate.
use wc_fixture.Base.{Uuid, none, some, List, [], ◌∷◌, ◌++◌, map}
use wc_fixture.Core.Match.{Match}
use wc_fixture.Core.Group.{Group}
use wc_fixture.Core.Fixture.{Fixture, Round}
use wc_fixture.Postgres.Tables.{StoredMatch}
use wc_fixture.Postgres.Save.{Server, stored_match}

module _ (srv : Server) where
  -- The rows that an aggregate stands for: those of its groups, then those of its rounds.
  unfoldable pub rows_of_groups : Uuid → List Group → List StoredMatch
  rows_of_groups id [] = []
  rows_of_groups id (g ∷ gs) =
      map (stored_match srv.timestamp id (some g.id)) g.matches ++ rows_of_groups id gs

  unfoldable pub rows_of_rounds : Uuid → List Round → List StoredMatch
  rows_of_rounds id [] = []
  rows_of_rounds id (r ∷ rs) =
      map (stored_match srv.timestamp id none) r.matches ++ rows_of_rounds id rs

  abbrev pub rows_of : Fixture → List StoredMatch
  rows_of f =
      rows_of_groups f.tournament_id f.groups ++ rows_of_rounds f.tournament_id f.knockout_rounds
