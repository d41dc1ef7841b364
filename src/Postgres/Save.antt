-- ===== src/Postgres/Save.antt =====
-- `Save` of contexts/fixture-core/internal/infrastructure/postgres/fixture_repository.go with
-- `AppendEvents` of event_store.go: the statements of its transaction, their order and its end.
use wc_fixture.Base.{
  ℕ, suc, Uuid, nil_uuid, Time, String, text, Bool, true, false, not, ◌&&◌, Option, none, some,
  List, [], ◌∷◌, ◌++◌, length, ◌==◌, if◌then◌else◌,
}
use wc_fixture.Base.Int.{add, sub, eq}
use wc_fixture.Shared.AppErrors.{err_conflict, plain, wrapped}
use wc_fixture.Core.Result.{MatchResult, winner}
use wc_fixture.Core.Match.{Match}
use wc_fixture.Core.Standing.{GroupStanding}
use wc_fixture.Core.Group.{Group}
use wc_fixture.Core.Events.{DomainEvent}
use wc_fixture.Core.Fixture.{Fixture, Round, drain_events}
use wc_fixture.App.Ports.{Failure, Saved}
use wc_fixture.Queries.Dtos.{phase_text, status_text, tournament_status_text}
use wc_fixture.Postgres.Tables.{
  Database, Statement, StoredMatch, TournamentRow, apply_statement, encode_slot, insert_event,
  upsert_match, upsert_result, upsert_standing,
}

-- `updateTournamentSnapshot`: the rows that its WHERE clause takes, and what it sets on them.
unfoldable pub is_previous : Fixture → TournamentRow → Bool
is_previous f t = (t.tournament_id == f.tournament_id) && eq t.version (sub f.version 1)

unfoldable pub update_rows : Fixture → List TournamentRow → List TournamentRow
update_rows f [] = []
update_rows f (t ∷ ts) =
    (if is_previous f t
      then record t { status = tournament_status_text f.status; version = f.version }
      else t)
    ∷ update_rows f ts

unfoldable pub rows_affected : Fixture → List TournamentRow → ℕ
rows_affected f [] = 0
rows_affected f (t ∷ ts) = let n = rows_affected f ts in if is_previous f t then suc n else n

module _ (timestamp : Time → Time) where
  unfoldable pub stored_match : Uuid → Option Uuid → Match → StoredMatch
  stored_match tournament_id group_id m = record {
    id = m.id;
    tournament_id = tournament_id;
    group_id = group_id;
    phase = phase_text m.phase;
    match_number = m.match_number;
    home_slot = encode_slot m.home_slot;
    away_slot = encode_slot m.away_slot;
    venue_id = m.venue_id;
    scheduled_at = timestamp m.scheduled_at;
    status = status_text m.status;
    parent_home_id = m.parent_home_match_id;
    parent_away_id = m.parent_away_match_id;
  }

  abbrev pub upsert_match_result : Uuid → Option MatchResult → List Statement
  upsert_match_result id none = []
  upsert_match_result id (some r) =
      upsert_result (record {
        match_id = id;
        result = record r { completed_at = timestamp r.completed_at };
        winner_id = if winner r == nil_uuid then none else some (winner r);
      })
      ∷ []

  -- `upsertMatch`
  unfoldable pub match_statements : Uuid → Option Uuid → Match → List Statement
  match_statements tournament_id group_id m =
      upsert_match (stored_match tournament_id group_id m) ∷ upsert_match_result m.id m.result

  unfoldable pub matches_statements : Uuid → Option Uuid → List Match → List Statement
  matches_statements tournament_id group_id [] = []
  matches_statements tournament_id group_id (m ∷ ms) =
      match_statements tournament_id group_id m ++ matches_statements tournament_id group_id ms

  unfoldable pub groups_statements : Uuid → List Group → List Statement
  groups_statements tournament_id [] = []
  groups_statements tournament_id (g ∷ gs) =
      matches_statements tournament_id (some g.id) g.matches ++ groups_statements tournament_id gs

  unfoldable pub rounds_statements : Uuid → List Round → List Statement
  rounds_statements tournament_id [] = []
  rounds_statements tournament_id (r ∷ rs) =
      matches_statements tournament_id none r.matches ++ rounds_statements tournament_id rs

  -- `upsertMatches`
  unfoldable pub upsert_matches : Fixture → List Statement
  upsert_matches f =
      groups_statements f.tournament_id f.groups
      ++ rounds_statements f.tournament_id f.knockout_rounds

unfoldable pub standing_statements : Uuid → List GroupStanding → List Statement
standing_statements group_id [] = []
standing_statements group_id (s ∷ ss) =
    upsert_standing (record { group_id = group_id; standing = s }) ∷ standing_statements group_id ss

-- `upsertStandings`
unfoldable pub upsert_standings : List Group → List Statement
upsert_standings [] = []
upsert_standings (g ∷ gs) = standing_statements g.id g.standings ++ upsert_standings gs

-- `AppendEvents`; the version of the next event is `from_version + 1`.
unfoldable pub append_events : (Time → Time) → Uuid → List DomainEvent → ℕ → List Statement
append_events timestamp tournament_id [] from_version = []
append_events timestamp tournament_id (e ∷ es) from_version =
    insert_event (record {
      tournament_id = tournament_id;
      event_type = e.event_type;
      event_version = e.version;
      payload = e.payload;
      occurred_at = timestamp e.occurred_at;
      aggregate_version = add from_version 1;
    })
    ∷ append_events timestamp tournament_id es (add from_version 1)

-- How a commit ends: the client learns that the server committed, or that it refused, or loses the
-- answer, and then the server has committed or not.
pub data CommitAnswer : Type 0 where
  committed : CommitAnswer
  refused : CommitAnswer
  lost : Bool → CommitAnswer

-- What the database server decides: what a TIMESTAMPTZ column, which counts microseconds, keeps of a
-- time; whether the server takes a statement in the state that the transaction has reached; whether a
-- transaction begins and updates the tournament; and how its commit ends.
pub record Server : Type 0 where
  pub timestamp : Time → Time
  pub takes : Database → Statement → Bool
  pub begins : Database → Bool
  pub updates : Database → Bool
  pub commits : Database → CommitAnswer

abbrev pub server_error : String → Failure
server_error s = wrapped (text s) (plain (text "error de la base de datos"))

-- The statements one after the other; `none` when the server refuses one, which ends the transaction.
unfoldable pub execute : Server → List Statement → Database → Option Database
execute srv [] db = some db
execute srv (st ∷ sts) db =
    let rest = execute srv sts (apply_statement st db) in if srv.takes db st then rest else none

abbrev pub conflict_error : Failure
conflict_error =
    err_conflict (text "conflicto de versión en el aggregate Fixture — reintente la operación")

-- The tables after the commit of a transaction from `db` to `t`, and the error of `Save`.
unfoldable pub end_transaction : CommitAnswer → Database → Database → Database × Option Failure
end_transaction committed db t = (t, none)
end_transaction refused db t = (db, some (server_error "fixture_repo: error en commit"))
end_transaction (lost true) db t = (t, some (server_error "fixture_repo: error en commit"))
end_transaction (lost false) db t = (db, some (server_error "fixture_repo: error en commit"))

-- What `Save` leaves: the tables and its error.
unfoldable pub run_transaction :
    Server → Fixture → List DomainEvent → Database → Database × Option Failure
run_transaction srv f evts db =
    if not (srv.begins db)
    then (db, some (server_error "fixture_repo: error iniciando transacción"))
    else if not (srv.updates db)
    then (db, some (server_error "fixture_repo: error actualizando snapshot"))
    else if rows_affected f db.tournaments == 0
    then (db, some conflict_error)
    else elim (execute srv
        (upsert_matches srv.timestamp f
          ++ (upsert_standings f.groups
              ++ append_events srv.timestamp f.tournament_id evts (sub f.version (length evts))))
        (record db { tournaments = update_rows f db.tournaments })) [
          | none ↦ (db, some (server_error "fixture_repo: error en la transacción"))
          | some t ↦ end_transaction (srv.commits t) db t
        ]

unfoldable pub save : Server → Database → Fixture → Saved Database
save srv db f =
    let drained = drain_events f in
    let out = run_transaction srv (drained.0) (drained.1) db in
    record { world = out.0; fixture = drained.0; failure = out.1 }
