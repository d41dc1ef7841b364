-- ===== src/Postgres/Where.antt =====
-- The WHERE clause of the match listing: `buildMatchWhereClause` of
-- contexts/fixture-core/internal/infrastructure/postgres/match_repository.go, and what it means.
-- A condition is the column that its SQL text tests and the number of its placeholder.
use package.text.Mathlib.Text.{◌==◌ as str_eq}
use wc_fixture.Base.{
  ℕ, zero, suc, Uuid, nil_uuid, Time, String, Bool, true, false, not, ◌&&◌, ◌||◌, Option, none,
  some, List, [], ◌∷◌, ◌++◌, ◌≡◌, refl, ap, ◌∙◌, ap₂, ◌+◌, ◌-◌, ◌<◌, ◌≤◌, ltb, ◌==◌, arith, length,
  get_elem?, All, length-append,
}
use wc_fixture.Base.Order.{All-mono}
use wc_fixture.Base.Cursor.{All-append}
use wc_fixture.Queries.Handlers.{MatchFilters, count, count_active_filters}

pub record ResultRow : Type 0 where
  pub home_goals : ℕ
  pub away_goals : ℕ
  pub home_goals_et : Option ℕ
  pub away_goals_et : Option ℕ
  pub home_goals_pen : Option ℕ
  pub away_goals_pen : Option ℕ
  pub winner_id : Option Uuid
  pub completed_at : Time

-- A row of `matches m LEFT JOIN match_results mr`, with the name of its group. The slots are JSON.
pub record MatchRow : Type 0 where
  pub id : Uuid
  pub tournament_id : Uuid
  pub group_name : Option String
  pub match_number : ℕ
  pub phase : String
  pub home_slot : String
  pub away_slot : String
  pub venue_id : Uuid
  pub scheduled_at : Time
  pub status : String
  pub result : Option ResultRow

pub data Column : Type 0 where
  tournament_eq phase_eq status_eq group_eq venue_eq scheduled_ge scheduled_le team_eq : Column

pub record Condition : Type 0 where
  pub column : Column
  pub placeholder : ℕ

pub data Value : Type 0 where
  uuid_value : Uuid → Value
  text_value : String → Value
  time_value : Time → Value

-- `conditions`, `args` and `n` of `buildMatchWhereClause`.
pub record Clause : Type 0 where
  pub conditions : List Condition
  pub args : List Value
  pub n : ℕ

-- One `if` of the function: its test, the column of its SQL text and its argument.
unfoldable pub add_condition : Bool → Column → Value → Clause → Clause
add_condition false c v w = w
add_condition true c v w = record {
  conditions = w.conditions ++ (record { column = c; placeholder = w.n }) ∷ [];
  args = w.args ++ v ∷ [];
  n = w.n + 1;
}

abbrev pub tournament_clause : Uuid → Clause
tournament_clause id = record {
  conditions = record { column = tournament_eq; placeholder = 1 } ∷ [];
  args = uuid_value id ∷ [];
  n = 2;
}

-- What the clause needs of the outside: `String` of a UUID, and `->> 'team_id'` on JSON.
pub record Texts : Type 0 where
  pub print_uuid : Uuid → String
  pub team_text : String → Option String

unfoldable pub build_match_where_clause : Texts → Uuid → MatchFilters → Clause
build_match_where_clause t id f =
    add_condition (not (f.team_id == nil_uuid)) team_eq (text_value (t.print_uuid f.team_id)) (
      add_condition (not (f.date_to == 0)) scheduled_le (time_value f.date_to) (
        add_condition (not (f.date_from == 0)) scheduled_ge (time_value f.date_from) (
          add_condition (not (f.venue_id == nil_uuid)) venue_eq (uuid_value f.venue_id) (
            add_condition (not (str_eq f.group_name "")) group_eq (text_value f.group_name) (
              add_condition (not (str_eq f.status "")) status_eq (text_value f.status) (
                add_condition (not (str_eq f.phase "")) phase_eq (text_value f.phase)
                  (tournament_clause id)))))))

-- `column = text`, where a NULL column satisfies nothing.
abbrev pub is_text : Option String → String → Bool
is_text none s = false
is_text (some c) s = str_eq c s

-- What the SQL text of a condition says of a row, given the value of its placeholder.
unfoldable pub satisfies : Texts → MatchRow → Column → Value → Bool
satisfies t r tournament_eq (uuid_value v) = r.tournament_id == v
satisfies t r phase_eq (text_value v) = str_eq r.phase v
satisfies t r status_eq (text_value v) = str_eq r.status v
satisfies t r group_eq (text_value v) = is_text r.group_name v
satisfies t r venue_eq (uuid_value v) = r.venue_id == v
satisfies t r scheduled_ge (time_value v) = not (ltb r.scheduled_at v)
satisfies t r scheduled_le (time_value v) = not (ltb v r.scheduled_at)
satisfies t r team_eq (text_value v) =
    is_text (t.team_text r.home_slot) v || is_text (t.team_text r.away_slot) v
satisfies t r _ _ = false

-- `$n` is the n-th argument, from 1 on.
unfoldable pub holds : Texts → MatchRow → List Value → Condition → Bool
holds t r args c = elim (get_elem? args (c.placeholder - 1)) [
  | none ↦ false
  | some v ↦ satisfies t r c.column v
]

unfoldable pub holds_all : Texts → MatchRow → List Value → List Condition → Bool
holds_all t r args [] = true
holds_all t r args (c ∷ cs) = holds t r args c && holds_all t r args cs

unfoldable pub selects : Texts → Clause → MatchRow → Bool
selects t w r = holds_all t r w.args w.conditions

-- What a listing with these filters is for: a filter with its zero value asks for nothing.
unfoldable pub is_wanted : Texts → Uuid → MatchFilters → MatchRow → Bool
is_wanted t id f r =
    (((((((r.tournament_id == id) && (str_eq f.phase "" || str_eq r.phase f.phase))
              && (str_eq f.status "" || str_eq r.status f.status))
            && (str_eq f.group_name "" || is_text r.group_name f.group_name))
          && ((f.venue_id == nil_uuid) || (r.venue_id == f.venue_id)))
        && ((f.date_from == 0) || not (ltb r.scheduled_at f.date_from)))
      && ((f.date_to == 0) || not (ltb f.date_to r.scheduled_at)))
    && ((f.team_id == nil_uuid)
        || (is_text (t.team_text r.home_slot) (t.print_uuid f.team_id)
            || is_text (t.team_text r.away_slot) (t.print_uuid f.team_id)))

-- Every placeholder has its argument, and the next one is `n`.
pub record IsNumbered (w : Clause) : Type 0 where
  pub next : w.n ≡ length w.args + 1
  pub bound : All (λ c. (1 ≤ c.placeholder) × (c.placeholder ≤ length w.args)) w.conditions

get_elem?-append :
    (i : ℕ) (xs ys : List Value) → i < length xs → get_elem? (xs ++ ys) i ≡ get_elem? xs i
get_elem?-append i [] ys h = absurd (omega arith)
get_elem?-append zero (x ∷ xs) ys h = refl
get_elem?-append (suc i) (x ∷ xs) ys h = get_elem?-append i xs ys (omega arith)

get_elem?-last : (xs : List Value) (v : Value) → get_elem? (xs ++ v ∷ []) (length xs) ≡ some v
get_elem?-last [] v = refl
get_elem?-last (x ∷ xs) v = get_elem?-last xs v

All-weaken :
    (n m : ℕ) (cs : List Condition)
    → n ≤ m
    → All (λ c. (1 ≤ c.placeholder) × (c.placeholder ≤ n)) cs
    → All (λ c. (1 ≤ c.placeholder) × (c.placeholder ≤ m)) cs
All-weaken n m cs l h =
    All-mono (λ c. (1 ≤ c.placeholder) × (c.placeholder ≤ n))
      (λ c. (1 ≤ c.placeholder) × (c.placeholder ≤ m)) (λ c q. (q.0, omega (arith, q.1))) cs h

add_condition-IsNumbered :
    (b : Bool) (c : Column) (v : Value) (w : Clause)
    → IsNumbered w
    → IsNumbered (add_condition b c v w)
unfolding add_condition
add_condition-IsNumbered false c v w h = h
add_condition-IsNumbered true c v w h =
    let l : length (w.args ++ v ∷ []) ≡ length w.args + 1 = length-append w.args (v ∷ []) in
    record {
      next = omega (arith, l, h.next);
      bound =
          All-append _ w.conditions _ (All-weaken _ _ w.conditions (omega (arith, l)) h.bound)
            ((omega (arith, h.next), omega (arith, l, h.next)), tt);
    }

-- Each test that passes adds one argument.
add_condition-args :
    (b : Bool) (c : Column) (v : Value) (w : Clause)
    → length (add_condition b c v w).args ≡ length w.args + count b
unfolding add_condition
add_condition-args false c v w = omega arith
add_condition-args true c v w = length-append w.args (v ∷ [])

module _ (t : Texts) (r : MatchRow) where
  holds-extend :
      (args more : List Value) (c : Condition)
      → (1 ≤ c.placeholder) × (c.placeholder ≤ length args)
      → holds t r (args ++ more) c ≡ holds t r args c
  unfolding holds
  holds-extend args more c h =
      let e : get_elem? (args ++ more) (c.placeholder - 1) ≡ get_elem? args (c.placeholder - 1) =
        get_elem?-append (c.placeholder - 1) args more (omega (arith, h)) in
      rw (holds, e) refl

  holds_all-extend :
      (args more : List Value) (cs : List Condition)
      → All (λ c. (1 ≤ c.placeholder) × (c.placeholder ≤ length args)) cs
      → holds_all t r (args ++ more) cs ≡ holds_all t r args cs
  unfolding holds_all
  holds_all-extend args more [] h = refl
  holds_all-extend args more (c ∷ cs) h =
      ap₂ ◌&&◌ (holds-extend args more c h.0) (holds_all-extend args more cs h.1)

  holds_all-append :
      (args : List Value) (cs ds : List Condition)
      → holds_all t r args (cs ++ ds) ≡ (holds_all t r args cs && holds_all t r args ds)
  unfolding holds_all
  holds_all-append args [] ds = refl
  holds_all-append args (c ∷ cs) ds = ground (arith, holds_all-append args cs ds)

  -- The condition just added reads its own argument.
  holds_all-last :
      (args : List Value) (v : Value) (c : Column) (n : ℕ)
      → n ≡ length args + 1
      → holds_all t r (args ++ v ∷ []) (record { column = c; placeholder = n } ∷ [])
        ≡ satisfies t r c v
  unfolding holds_all holds
  holds_all-last args v c n h =
      let i : n - 1 ≡ length args = omega arith in
      rw (i, get_elem?-last args v, holds) (ground arith)

  -- One more condition narrows what the clause selects by what it says of its own argument.
  add_condition-selects :
      (unset : Bool) (c : Column) (v : Value) (w : Clause)
      → IsNumbered w
      → selects t (add_condition (not unset) c v w) r
        ≡ (selects t w r && (unset || satisfies t r c v))
  unfolding add_condition selects
  add_condition-selects true c v w h = ground arith
  add_condition-selects false c v w h =
      holds_all-append (w.args ++ v ∷ []) w.conditions
        (record { column = c; placeholder = w.n } ∷ [])
      ∙ ap₂ ◌&&◌ (holds_all-extend w.args (v ∷ []) w.conditions h.bound)
          (holds_all-last w.args v c w.n h.next)

  -- A numbered clause that selects the row exactly when `b` says so.
  abbrev Means : Clause → Bool → Type 0
  Means w b = IsNumbered w × (selects t w r ≡ b)

  add_condition-Means :
      (unset : Bool) (c : Column) (v : Value) (w : Clause) (b : Bool)
      → Means w b
      → Means (add_condition (not unset) c v w) (b && (unset || satisfies t r c v))
  add_condition-Means unset c v w b h = (
    add_condition-IsNumbered (not unset) c v w h.0,
    add_condition-selects unset c v w h.0 ∙ ap (λ x. x && (unset || satisfies t r c v)) h.1,
  )

  tournament_clause-Means : (id : Uuid) → Means (tournament_clause id) (r.tournament_id == id)
  unfolding selects holds_all holds satisfies
  tournament_clause-Means id =
      (record { next = refl; bound = ((omega arith, omega arith), tt) }, ground arith)

-- The clause that `buildMatchWhereClause` builds numbers its placeholders by its arguments, has one
-- argument for the tournament and one for each active filter, and selects exactly the rows that the
-- filters ask for.
pub build_match_where_clause-IsWanted :
    (t : Texts) (id : Uuid) (f : MatchFilters) (r : MatchRow)
    → IsNumbered (build_match_where_clause t id f)
      × (length (build_match_where_clause t id f).args ≡ 1 + count_active_filters f)
      × (selects t (build_match_where_clause t id f) r ≡ is_wanted t id f r)
unfolding build_match_where_clause count_active_filters is_wanted satisfies
build_match_where_clause-IsWanted t id f r =
    let m0 = tournament_clause-Means t r id in
    let m1 = add_condition-Means t r (str_eq f.phase "") phase_eq (text_value f.phase) _ _ m0 in
    let m2 = add_condition-Means t r (str_eq f.status "") status_eq (text_value f.status) _ _ m1 in
    let m3 =
      add_condition-Means t r (str_eq f.group_name "") group_eq (text_value f.group_name) _ _ m2 in
    let m4 =
      add_condition-Means t r (f.venue_id == nil_uuid) venue_eq (uuid_value f.venue_id) _ _ m3 in
    let m5 =
      add_condition-Means t r (f.date_from == 0) scheduled_ge (time_value f.date_from) _ _ m4 in
    let m6 = add_condition-Means t r (f.date_to == 0) scheduled_le (time_value f.date_to) _ _ m5 in
    let m7 =
      add_condition-Means t r (f.team_id == nil_uuid) team_eq (text_value (t.print_uuid f.team_id))
        _ _ m6 in
    (m7.0, simp add_condition-args (omega arith), m7.1)
