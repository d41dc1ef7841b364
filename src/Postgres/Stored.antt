-- ===== src/Postgres/Stored.antt =====
-- What the tables hold after `Save` of
-- contexts/fixture-core/internal/infrastructure/postgres/fixture_repository.go.
use mathlib.Core.Option.{some-injective}
use wc_fixture.Base.{
  Uuid, false, Option, none, some, List, [], ◌∷◌, ◌≡◌, refl, sym, subst, ◌∙◌, inl, inr, ◌==◌,
  ==_iff, ==_refl, if◌then◌else◌, arith, All, Bool-cases,
}
use wc_fixture.Postgres.Tables.{
  Database, Statement, StoredMatch, upsert_match, upsert_result, upsert_standing, insert_event,
  upsert, same_match, merge_match, apply_statement,
}
use wc_fixture.Postgres.Save.{Server, execute}

-- The row of a match.
unfoldable pub find_row : Uuid → List StoredMatch → Option StoredMatch
find_row id [] = none
find_row id (r ∷ rows) = if r.id == id then some r else find_row id rows

-- The row of the match has what `Save` writes in every case.
abbrev pub IsWritten : StoredMatch → StoredMatch → Type 0
IsWritten r m =
    (r.home_slot ≡ m.home_slot)
    × (r.away_slot ≡ m.away_slot)
    × (r.venue_id ≡ m.venue_id)
    × (r.scheduled_at ≡ m.scheduled_at)
    × (r.status ≡ m.status)

abbrev pub Has : Database → StoredMatch → Type 0
Has db m = (r : StoredMatch) × (find_row m.id db.matches ≡ some r) × IsWritten r m

-- The matches that a list of statements writes.
unfoldable pub writes : List Statement → List StoredMatch
writes [] = []
writes (upsert_match m ∷ sts) = m ∷ writes sts
writes (upsert_result r ∷ sts) = writes sts
writes (upsert_standing s ∷ sts) = writes sts
writes (insert_event e ∷ sts) = writes sts

-- No id occurs twice.
abbrev pub IsDistinct : List StoredMatch → Type 0
IsDistinct [] = Unit
IsDistinct (m ∷ ms) = All (λ n. (n.id == m.id) ≡ false) ms × IsDistinct ms

find_row-upsert :
    (m : StoredMatch) (rows : List StoredMatch)
    → (r : StoredMatch) × (find_row m.id (upsert same_match merge_match m rows) ≡ some r)
      × IsWritten r m
unfolding find_row upsert
find_row-upsert m [] = (m, rw (==_refl m.id) refl, (refl, refl, refl, refl, refl))
find_row-upsert m (y ∷ rows) = elim (Bool-cases (y.id == m.id)) [
  | inl e ↦ rw e (merge_match y m, rw e refl, (refl, refl, refl, refl, refl))
  | inr e ↦ let (r, q, w) = find_row-upsert m rows in (r, rw e (rw e q), w)
]

find_row-other :
    (id : Uuid) (m : StoredMatch) (rows : List StoredMatch)
    → (m.id == id) ≡ false
    → find_row id (upsert same_match merge_match m rows) ≡ find_row id rows
unfolding find_row upsert
find_row-other id m [] e = rw e refl
find_row-other id m (y ∷ rows) e = elim (Bool-cases (y.id == m.id)) [
  | inl p ↦
      let z : (y.id == id) ≡ false =
        subst (λ k. (k == id) ≡ false) (sym ((==_iff y.id m.id).0 p)) e in
      rw p (rw z refl)
  | inr p ↦ elim (Bool-cases (y.id == id)) [
    | inl z ↦ rw p (rw z refl)
    | inr z ↦ rw p (rw z (find_row-other id m rows e))
  ]
]

apply_statement-Has :
    (st : Statement) (db : Database) (m : StoredMatch)
    → All (λ n. (n.id == m.id) ≡ false) (writes (st ∷ []))
    → Has db m
    → Has (apply_statement st db) m
unfolding apply_statement writes
apply_statement-Has (upsert_match n) db m h (r, q, w) =
    (r, find_row-other m.id n db.matches h.0 ∙ q, w)
apply_statement-Has (upsert_result x) db m h g = g
apply_statement-Has (upsert_standing s) db m h g = g
apply_statement-Has (insert_event e) db m h g = g

execute_step :
    (srv : Server) (st : Statement) (sts : List Statement) (db t : Database)
    → execute srv (st ∷ sts) db ≡ some t
    → execute srv sts (apply_statement st db) ≡ some t
unfolding execute
execute_step srv st sts db t h = elim (Bool-cases (srv.takes db st)) [
  | inl b ↦ ground arith
  | inr b ↦ absurd (ground arith)
]

others_behind :
    (st : Statement) (sts : List Statement) (m : StoredMatch)
    → All (λ n. (n.id == m.id) ≡ false) (writes (st ∷ sts))
    → All (λ n. (n.id == m.id) ≡ false) (writes sts)
unfolding writes
others_behind (upsert_match n) sts m h = h.1
others_behind (upsert_result n) sts m h = h
others_behind (upsert_standing n) sts m h = h
others_behind (insert_event n) sts m h = h

others_first :
    (st : Statement) (sts : List Statement) (m : StoredMatch)
    → All (λ n. (n.id == m.id) ≡ false) (writes (st ∷ sts))
    → All (λ n. (n.id == m.id) ≡ false) (writes (st ∷ []))
unfolding writes
others_first (upsert_match n) sts m h = (h.0, tt)
others_first (upsert_result n) sts m h = tt
others_first (upsert_standing n) sts m h = tt
others_first (insert_event n) sts m h = tt

pub wrote_nothing : writes [] ≡ []
unfolding writes
wrote_nothing = refl

-- A match that the statements do not write keeps its row.
execute-Has :
    (srv : Server) (sts : List Statement) (db t : Database) (m : StoredMatch)
    → execute srv sts db ≡ some t
    → All (λ n. (n.id == m.id) ≡ false) (writes sts)
    → Has db m
    → Has t m
unfolding execute
execute-Has srv [] db t m x h g = subst (λ d. Has d m) (some-injective _ _ x) g
execute-Has srv (st ∷ sts) db t m x h g =
    execute-Has srv sts (apply_statement st db) t m (execute_step srv st sts db t x)
      (others_behind st sts m h) (apply_statement-Has st db m (others_first st sts m h) g)

-- Every match that the statements write has its row behind them.
pub execute-writes :
    (srv : Server) (sts : List Statement) (db t : Database)
    → execute srv sts db ≡ some t
    → IsDistinct (writes sts)
    → All (Has t) (writes sts)
unfolding writes apply_statement
execute-writes srv [] db t x d = tt
execute-writes srv (upsert_match m ∷ sts) db t x d =
    let y = execute_step srv (upsert_match m) sts db t x in
    (
      execute-Has srv sts (apply_statement (upsert_match m) db) t m y d.0
          (find_row-upsert m db.matches),
      execute-writes srv sts (apply_statement (upsert_match m) db) t y d.1,
    )
execute-writes srv (upsert_result r ∷ sts) db t x d =
    execute-writes srv sts (apply_statement (upsert_result r) db) t
      (execute_step srv (upsert_result r) sts db t x) d
execute-writes srv (upsert_standing r ∷ sts) db t x d =
    execute-writes srv sts (apply_statement (upsert_standing r) db) t
      (execute_step srv (upsert_standing r) sts db t x) d
execute-writes srv (insert_event r ∷ sts) db t x d =
    execute-writes srv sts (apply_statement (insert_event r) db) t
      (execute_step srv (insert_event r) sts db t x) d
