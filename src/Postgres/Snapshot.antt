-- ===== src/Postgres/Snapshot.antt =====
-- `loadTournamentSnapshot` of
-- contexts/fixture-core/internal/infrastructure/postgres/fixture_repository.go, after
-- `Save`.
use package.text.Mathlib.Text.{◌==◌ as str_eq}
use wc_fixture.Base.{
  Uuid, uuid_arg, String, text, Bool, true, false, none, List, [], ◌∷◌, ◌≡◌, ◌≢◌, refl, inl, inr,
  ◌==◌, ==_iff, if◌then◌else◌, arith, All, Bool-cases,
}
use wc_fixture.Shared.AppErrors.{err_not_found}
use wc_fixture.Core.Fixture.{Fixture, TournamentStatus, drain_events}
use wc_fixture.App.Ports.{Loaded, loaded, load_failed}
use wc_fixture.Queries.Dtos.{tournament_status_text}
use wc_fixture.Postgres.Tables.{Database, TournamentRow}
use wc_fixture.Postgres.Save.{Server, server_error, save, is_previous, update_rows, rows_affected}
use wc_fixture.Postgres.Atomic.{save-Commits, execute-tournaments}

-- `fixture.TournamentStatus(statusStr)`. The check on the column, in
-- contexts/fixture-core/migrations/000001_create_tournaments.sql, admits only the texts of the four constants; another text
-- reads as the last one.
unfoldable pub to_tournament_status : String → TournamentStatus
to_tournament_status s =
    if str_eq s "DRAFT"
    then TournamentStatus.draft
    else if str_eq s "GROUP_STAGE"
    then TournamentStatus.group_stage
    else if str_eq s "KNOCKOUT"
    then TournamentStatus.knockout
    else TournamentStatus.finished

-- The columns of a row, in an aggregate that has nothing else yet.
unfoldable pub snapshot : TournamentRow → Fixture
snapshot t = record {
  id = t.id;
  tournament_id = t.tournament_id;
  edition = t.edition;
  name = t.name;
  status = to_tournament_status t.status;
  groups = [];
  knockout_rounds = [];
  version = t.version;
  pending_events = [];
}

-- The first row of the tournament, as `QueryRow` takes it.
unfoldable pub scan_tournament : Uuid → List TournamentRow → Loaded
scan_tournament id [] = load_failed (err_not_found "torneo" (uuid_arg id))
scan_tournament id (t ∷ ts) =
    if t.tournament_id == id then loaded (snapshot t) else scan_tournament id ts

-- `reads` is whether the server answers the query.
unfoldable pub load_tournament_snapshot : (Database → Bool) → Database → Uuid → Loaded
load_tournament_snapshot reads db id =
    if reads db
    then scan_tournament id db.tournaments
    else load_failed (server_error "fixture_repo: error cargando torneo")

to_tournament_status-text :
    (s : TournamentStatus) → to_tournament_status (tournament_status_text s) ≡ s
unfolding to_tournament_status tournament_status_text
to_tournament_status-text TournamentStatus.draft = refl
to_tournament_status-text TournamentStatus.group_stage = refl
to_tournament_status-text TournamentStatus.knockout = refl
to_tournament_status-text TournamentStatus.finished = refl

-- The column `tournament_id` is unique.
abbrev pub IsUnique : List TournamentRow → Type 0
IsUnique [] = Unit
IsUnique (t ∷ ts) = All (λ u. (u.tournament_id == t.tournament_id) ≡ false) ts × IsUnique ts

no_others-rows_affected :
    (f : Fixture) (t : TournamentRow) (ts : List TournamentRow)
    → (t.tournament_id == f.tournament_id) ≡ true
    → All (λ u. (u.tournament_id == t.tournament_id) ≡ false) ts
    → rows_affected f ts ≡ 0
unfolding rows_affected is_previous
no_others-rows_affected f t [] e h = refl
no_others-rows_affected f t (u ∷ us) e h = ground (arith, no_others-rows_affected f t us e h.1, h.0)

-- An aggregate as the load reads it has the status and the version of the saved one.
pub record IsSnapshot (f : Fixture) (l : Loaded) : Type 0 where
  pub fixture : Fixture
  pub is_loaded : l ≡ loaded fixture
  pub tournament_id : fixture.tournament_id ≡ f.tournament_id
  pub status : fixture.status ≡ f.status
  pub version : fixture.version ≡ f.version

scan_tournament-update_rows :
    (f : Fixture) (ts : List TournamentRow)
    → IsUnique ts
    → rows_affected f ts ≢ 0
    → IsSnapshot f (scan_tournament f.tournament_id (update_rows f ts))
unfolding scan_tournament update_rows rows_affected snapshot
scan_tournament-update_rows f [] u n = absurd (n refl)
scan_tournament-update_rows f (t ∷ ts) u n = elim (Bool-cases (is_previous f t)) [
  | inl p ↦
      let e : (t.tournament_id == f.tournament_id) ≡ true =
        unfold is_previous in ground (arith, p) in
      rw (p, e)
        (record {
          fixture = _;
          is_loaded = refl;
          tournament_id = (==_iff t.tournament_id f.tournament_id).0 e;
          status = to_tournament_status-text f.status;
          version = refl;
        })
  | inr p ↦ elim (Bool-cases (t.tournament_id == f.tournament_id)) [
    | inl e ↦ absurd (n (rw p (no_others-rows_affected f t ts e u.0)))
    | inr e ↦ rw (p, e) (scan_tournament-update_rows f ts u.1 (rw p at n))
  ]
]

-- Where the column `tournament_id` is unique and `Save` returned no error, a load that the server
-- answers finds the tournament with the status and the version that were saved.
pub save-load_tournament_snapshot :
    (srv : Server) (reads : Database → Bool) (db : Database) (f : Fixture)
    → IsUnique db.tournaments
    → (save srv db f).failure ≡ none
    → reads (save srv db f).world ≡ true
    → IsSnapshot f (load_tournament_snapshot reads (save srv db f).world f.tournament_id)
unfolding load_tournament_snapshot drain_events
save-load_tournament_snapshot srv reads db f u ok r =
    let c = save-Commits srv db f ok in
    let k = scan_tournament-update_rows (drain_events f).0 db.tournaments u c.0 in
    let g : IsSnapshot f
        (scan_tournament f.tournament_id (update_rows (drain_events f).0 db.tournaments)) =
      record {
        fixture = k.fixture;
        is_loaded = k.is_loaded;
        tournament_id = k.tournament_id;
        status = k.status;
        version = k.version;
      } in
    rw (r, execute-tournaments srv _ _ _ c.1) g
