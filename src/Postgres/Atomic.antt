-- ===== src/Postgres/Atomic.antt =====
-- What `Save` of contexts/fixture-core/internal/infrastructure/postgres/fixture_repository.go
-- guarantees: all or nothing, and one writer for each version.
use mathlib.Core.Option.{some-injective}
use wc_fixture.Base.{
  ℕ, true, false, Option, none, some, List, [], ◌∷◌, ◌++◌, ◌≡◌, ◌≢◌, ◌⊎◌, refl, ap, sym, subst, ◌∙◌,
  inl, inr, ◌==◌, arith, length, Bool-cases, Option-cases,
}
use wc_fixture.Base.Int.{eq, sub, rank}
use wc_fixture.Core.Events.{DomainEvent}
use wc_fixture.Core.Fixture.{Fixture, drain_events}
use wc_fixture.App.Ports.{Failure}
use wc_fixture.Queries.Dtos.{tournament_status_text}
use wc_fixture.Postgres.Tables.{
  upsert_match, upsert_result, upsert_standing, insert_event, Database, TournamentRow, Statement,
  apply_statement,
}
use wc_fixture.Postgres.Save.{
  Server, CommitAnswer, committed, refused, lost, end_transaction, is_previous, update_rows,
  rows_affected, execute, run_transaction, save, upsert_matches, upsert_standings, append_events,
}

-- The statements of the transaction behind the update of the tournament.
abbrev pub save_statements : Server → Fixture → List DomainEvent → List Statement
save_statements srv f evts =
    upsert_matches srv.timestamp f
    ++ (upsert_standings f.groups
        ++ append_events srv.timestamp f.tournament_id evts (sub f.version (length evts)))

-- A transaction that commits with the tables `t`: some row of the tournament had the version before,
-- and behind its update every statement took effect.
abbrev pub Commits : Server → Fixture → List DomainEvent → Database → Database → Type 0
Commits srv f evts db t =
    (rows_affected f db.tournaments ≢ 0)
    × (execute srv (save_statements srv f evts)
          (record db { tournaments = update_rows f db.tournaments })
        ≡ some t)

-- An error, with the tables as they were; or no error, and a transaction that committed; or an error
-- after a commit whose answer was lost.
abbrev pub IsAtomic :
    Server → Fixture → List DomainEvent → Database → Database × Option Failure → Type 0
IsAtomic srv f evts db r =
    ((e : Failure) × (r.1 ≡ some e) × (r.0 ≡ db))
    ⊎ (((r.1 ≡ none) × Commits srv f evts db r.0)
        ⊎ ((e : Failure) × (r.1 ≡ some e) × Commits srv f evts db r.0))

end_transaction-IsAtomic :
    (srv : Server) (f : Fixture) (evts : List DomainEvent) (db t : Database) (a : CommitAnswer)
    → Commits srv f evts db t
    → IsAtomic srv f evts db (end_transaction a db t)
unfolding end_transaction
end_transaction-IsAtomic srv f evts db t committed c = inr (inl (refl, c))
end_transaction-IsAtomic srv f evts db t refused c = inl (_, refl, refl)
end_transaction-IsAtomic srv f evts db t (lost true) c = inr (inr (_, refl, c))
end_transaction-IsAtomic srv f evts db t (lost false) c = inl (_, refl, refl)

run_transaction-IsAtomic :
    (srv : Server) (f : Fixture) (evts : List DomainEvent) (db : Database)
    → IsAtomic srv f evts db (run_transaction srv f evts db)
unfolding run_transaction
run_transaction-IsAtomic srv f evts db = elim (Bool-cases (srv.begins db)) [
  | inr b ↦ rw b (inl (_, refl, refl))
  | inl b ↦ elim (Bool-cases (srv.updates db)) [
    | inr u ↦ rw (b, u) (inl (_, refl, refl))
    | inl u ↦ elim (Bool-cases (rows_affected f db.tournaments == 0)) [
      | inl z ↦ rw (b, u, z) (inl (_, refl, refl))
      | inr z ↦
          elim (Option-cases (
            execute srv (save_statements srv f evts)
              (record db { tournaments = update_rows f db.tournaments }))) [
                | inl x ↦ rw (b, u, z, x) (inl (_, refl, refl))
                | inr (t, x) ↦
                    let n : rows_affected f db.tournaments ≢ 0 = ground (arith, z) in
                    let e : run_transaction srv f evts db ≡ end_transaction (srv.commits t) db t =
                      rw (b, u, z, x) refl in
                    subst (IsAtomic srv f evts db) (sym e)
                      (end_transaction-IsAtomic srv f evts db t (srv.commits t) (n, x))
              ]
    ]
  ]
]

save-IsAtomic :
    (srv : Server) (db : Database) (f : Fixture)
    → IsAtomic srv
        (drain_events f).0
        (drain_events f).1
        db
        ((save srv db f).world, (save srv db f).failure)
unfolding save
save-IsAtomic srv db f = run_transaction-IsAtomic srv (drain_events f).0 (drain_events f).1 db

-- Without an error the transaction has committed.
pub save-Commits :
    (srv : Server) (db : Database) (f : Fixture)
    → (save srv db f).failure ≡ none
    → Commits srv (drain_events f).0 (drain_events f).1 db (save srv db f).world
save-Commits srv db f ok = elim (save-IsAtomic srv db f) [
  | inl r ↦ absurd (ground (arith, r.1, ok))
  | inr (inl c) ↦ c.1
  | inr (inr c) ↦ absurd (ground (arith, c.1, ok))
]

no_version_precedes_itself : (v : ℕ) → eq v (sub v 1) ≡ false
unfolding rank sub
no_version_precedes_itself v = ground arith

is_previous-same :
    (f g : Fixture) (t : TournamentRow)
    → g.tournament_id ≡ f.tournament_id
    → g.version ≡ f.version
    → is_previous g t ≡ is_previous f t
unfolding is_previous
is_previous-same f g t q v = rw (q, v) refl

is_previous-moved :
    (f g : Fixture) (t : TournamentRow)
    → g.version ≡ f.version
    → is_previous g (record t { status = tournament_status_text f.status; version = f.version })
      ≡ false
unfolding is_previous
is_previous-moved f g t v = rw (v, no_version_precedes_itself f.version) (ground arith)

-- No row of the tournament has the version before any more.
rows_affected-update_rows :
    (f g : Fixture) (ts : List TournamentRow)
    → g.tournament_id ≡ f.tournament_id
    → g.version ≡ f.version
    → rows_affected g (update_rows f ts) ≡ 0
unfolding rows_affected update_rows
rows_affected-update_rows f g [] q v = refl
rows_affected-update_rows f g (t ∷ ts) q v = elim (Bool-cases (is_previous f t)) [
  | inl p ↦ rw (p, is_previous-moved f g t v) (rows_affected-update_rows f g ts q v)
  | inr p ↦ rw (p, is_previous-same f g t q v, p) (rows_affected-update_rows f g ts q v)
]

apply_statement-tournaments :
    (st : Statement) (db : Database) → (apply_statement st db).tournaments ≡ db.tournaments
unfolding apply_statement
apply_statement-tournaments (upsert_match m) db = refl
apply_statement-tournaments (upsert_result r) db = refl
apply_statement-tournaments (upsert_standing s) db = refl
apply_statement-tournaments (insert_event e) db = refl

pub execute-tournaments :
    (srv : Server) (sts : List Statement) (db t : Database)
    → execute srv sts db ≡ some t
    → t.tournaments ≡ db.tournaments
unfolding execute
execute-tournaments srv [] db t h =
    ap (λ (d : Database). d.tournaments) (some-injective _ _ (sym h))
execute-tournaments srv (st ∷ sts) db t h = elim (Bool-cases (srv.takes db st)) [
  | inl b ↦
      execute-tournaments srv sts (apply_statement st db) t (ground arith)
      ∙ apply_statement-tournaments st db
  | inr b ↦ absurd (ground arith)
]

no_rows-refused :
    (srv : Server) (f : Fixture) (evts : List DomainEvent) (db : Database)
    → rows_affected f db.tournaments ≡ 0
    → (e : Failure) × ((run_transaction srv f evts db).1 ≡ some e)
      × ((run_transaction srv f evts db).0 ≡ db)
no_rows-refused srv f evts db z = elim (run_transaction-IsAtomic srv f evts db) [
  | inl r ↦ r
  | inr (inl c) ↦ absurd (c.1.0 z)
  | inr (inr c) ↦ absurd (c.2.0 z)
]

-- Optimistic locking: where `Save` returned no error, a second `Save` of the same tournament at the
-- same version, by whatever server, returns an error and leaves every table as it was.
pub save-again :
    (srv srv2 : Server) (db : Database) (f g : Fixture)
    → (save srv db f).failure ≡ none
    → g.tournament_id ≡ f.tournament_id
    → g.version ≡ f.version
    → (e : Failure) × ((save srv2 (save srv db f).world g).failure ≡ some e)
      × ((save srv2 (save srv db f).world g).world ≡ (save srv db f).world)
unfolding save drain_events
save-again srv srv2 db f g ok q v =
    no_rows-refused srv2 (drain_events g).0 (drain_events g).1 (save srv db f).world (
      ap (rows_affected (drain_events g).0)
        (execute-tournaments srv _ _ _ (save-Commits srv db f ok).1)
      ∙ rows_affected-update_rows (drain_events f).0 (drain_events g).0 db.tournaments q v)
