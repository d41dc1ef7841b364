-- ===== src/Postgres/Matches.antt =====
-- The match read model: `ListMatches`, `GetMatch`, `scanMatchDTO` and `unmarshalSlotDTO` of
-- contexts/fixture-core/internal/infrastructure/postgres/match_repository.go, on a list of rows.
use wc_fixture.Base.{
  ℕ, Uuid, Time, String, text, uuid_arg, Option, none, some, List, [], ◌∷◌, ◌||◌, ◌==◌,
  if◌then◌else◌, length, take, drop,
}
use wc_fixture.Base.Int.{is_neg}
use wc_fixture.Base.Order.{select}
use wc_fixture.Shared.AppErrors.{plain, wrapped, err_not_found}
use wc_fixture.Shared.Pagination.{PageParams, offset, limit}
use wc_fixture.App.Ports.{Failure}
use wc_fixture.Queries.Dtos.{MatchDto, SlotDto, ResultDto}
use wc_fixture.Queries.Handlers.{Result, ok, failed, panicked, MatchFilters}
use wc_fixture.Postgres.Where.{
  MatchRow, ResultRow, Texts, Clause, build_match_where_clause, selects,
}

-- What the read model is given: the texts of the clause, the JSON of a slot, `ORDER BY
-- match_number`, and pgx's `Scan` of the nullable column `completed_at` into the field `Result` of
-- the DTO, a pointer to a struct.
pub record Driver : Type 0 where
  pub texts : Texts
  pub decode_slot : String → Option SlotDto
  pub order_by : List MatchRow → List MatchRow
  pub scan_result : Option Time → Option (Option ResultDto)

abbrev pub failure : String → Failure → Failure
failure s e = wrapped (text s) e

abbrev pub cause : Failure
cause = plain (text "error de la base de datos")

abbrev pub completed_at_of : Option ResultRow → Option Time
completed_at_of none = none
completed_at_of (some r) = some r.completed_at

-- `if homeGoals != nil`: the result takes the place of what the scan left.
abbrev pub result_of : Option ResultRow → Option ResultDto → Option ResultDto
result_of none scanned = scanned
result_of (some r) scanned = some (record {
  home_goals = r.home_goals;
  away_goals = r.away_goals;
  home_goals_et = r.home_goals_et;
  away_goals_et = r.away_goals_et;
  home_goals_pen = r.home_goals_pen;
  away_goals_pen = r.away_goals_pen;
  winner_id = r.winner_id;
  completed_at = 0;
})

unfoldable pub match_dto : MatchRow → SlotDto → SlotDto → Option ResultDto → MatchDto
match_dto r home away scanned = record {
  id = r.id;
  match_number = r.match_number;
  phase = r.phase;
  home_slot = home;
  away_slot = away;
  venue_id = r.venue_id;
  scheduled_at = r.scheduled_at;
  status = r.status;
  result = result_of r.result scanned;
}

abbrev pub unmarshal_slot : Driver → String → Result SlotDto
unmarshal_slot d json = elim (d.decode_slot json) [
  | none ↦ failed (failure "match_read_model: slot inválido" cause)
  | some s ↦ ok s
]

abbrev pub bind : {A B : Type 0} → Result A → (A → Result B) → Result B
bind (ok a) k = k a
bind (failed e) k = failed e
bind panicked k = panicked

unfoldable pub scan_match_dto : Driver → MatchRow → Result MatchDto
scan_match_dto d r = elim (d.scan_result (completed_at_of r.result)) [
  | none ↦ failed (failure "match_read_model: error escaneando partido" cause)
  | some scanned ↦
      bind (unmarshal_slot d r.home_slot)
        (λ home. bind (unmarshal_slot d r.away_slot) (λ away. ok (match_dto r home away scanned)))
]

-- The loop over the rows, which returns at the first that it cannot scan.
unfoldable pub scan_matches : Driver → List MatchRow → Result (List MatchDto)
scan_matches d [] = ok []
scan_matches d (r ∷ rows) =
    bind (scan_match_dto d r) (λ dto. bind (scan_matches d rows) (λ dtos. ok (dto ∷ dtos)))

-- The rows that `LIMIT` and `OFFSET` leave of the ordered rows; a negative one is refused.
unfoldable pub page_rows : Driver → Clause → PageParams → List MatchRow → List MatchRow
page_rows d w p rows =
    take (limit p) (drop (offset p) (d.order_by (select (selects d.texts w) rows)))

unfoldable pub list_matches :
    Driver → List MatchRow → Uuid → MatchFilters → PageParams → Result (List MatchDto × ℕ)
list_matches d rows id f p =
    let w = build_match_where_clause d.texts id f in
    let total = length (select (selects d.texts w) rows) in
    if is_neg (limit p) || is_neg (offset p)
    then failed (failure "match_read_model: error listando partidos" cause)
    else bind (scan_matches d (page_rows d w p rows)) (λ dtos. ok (dtos, total))

abbrev pub first_row : List MatchRow → Option MatchRow
first_row [] = none
first_row (r ∷ rows) = some r

unfoldable pub get_match : Driver → List MatchRow → Uuid → Result MatchDto
get_match d rows id = elim (first_row (select (λ r. r.id == id) rows)) [
  | none ↦ failed (err_not_found "partido" (uuid_arg id))
  | some r ↦ scan_match_dto d r
]
