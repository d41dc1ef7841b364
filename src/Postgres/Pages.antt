-- ===== src/Postgres/Pages.antt =====
-- The pages of the match listing together: match_repository.go of
-- contexts/fixture-core/internal/infrastructure/postgres with pagination.go of shared/pkg/httputil.
use mathlib.Core.List.{Perm}
use native.Mathlib.Nat.{zero-mul, suc-mul, zero-add, suc-add}
use wc_fixture.Base.{
  ℕ, zero, suc, Uuid, some, List, [], ◌∷◌, ◌++◌, ◌≡◌, refl, ap, sym, ◌∙◌, ◌+◌, ◌-◌, ◌*◌, ◌^◌, ◌%◌,
  ◌<◌, ◌≤◌, false, arith, length, take, drop,
}
use mathlib.Core.Path.{fun_ext}
use wc_fixture.Base.Perms.{length-perm}
use wc_fixture.Base.Int.{is_neg, rank, mul, sub}
use wc_fixture.Base.Order.{select}
use wc_fixture.Shared.Pagination.{
  PageParams, offset, limit, PageMeta, new_page_meta, new_page_meta-IsCeiling,
}
use wc_fixture.Queries.Dtos.{MatchDto}
use wc_fixture.Queries.Handlers.{Result, ok, failed, panicked, MatchFilters}
use wc_fixture.Postgres.Where.{
  MatchRow, Clause, build_match_where_clause, selects, is_wanted, build_match_where_clause-IsWanted,
}
use wc_fixture.Postgres.Matches.{
  Driver, bind, scan_matches, scan_match_dto, page_rows, list_matches,
}

-- What a client gathers that reads the pages from 1 to `n`.
unfoldable pub read_pages :
    Driver → List MatchRow → Uuid → MatchFilters → ℕ → ℕ → Result (List MatchDto)
read_pages d rows id f per_page zero = ok []
read_pages d rows id f per_page (suc k) = bind (read_pages d rows id f per_page k) (λ dtos.
    bind (list_matches d rows id f (record { page = suc k; per_page = per_page }))
      (λ r. ok (dtos ++ r.0)))

module _ {ℓ} {A : Type ℓ} where
  take_all : (n : ℕ) (xs : List A) → length xs ≤ n → take n xs ≡ xs
  take_all zero [] h = refl
  take_all (suc n) [] h = refl
  take_all zero (x ∷ xs) h = absurd (omega arith)
  take_all (suc n) (x ∷ xs) h = ap (◌∷◌ x) (take_all n xs (omega arith))

  take_nil : (n : ℕ) → (let none_left : List A = [] in take n none_left) ≡ []
  take_nil zero = refl
  take_nil (suc n) = refl

  take-drop : (n m : ℕ) (xs : List A) → take n xs ++ take m (drop n xs) ≡ take (n + m) xs
  take-drop zero m xs = rw (zero-add m) refl
  take-drop (suc n) m [] = rw (suc-add n m) (take_nil m)
  take-drop (suc n) m (x ∷ xs) = rw (suc-add n m) (ap (◌∷◌ x) (take-drop n m xs))

bind_cons :
    (a : Result MatchDto) (b c : Result (List MatchDto))
    → bind a (λ x. bind (bind b (λ u. bind c (λ v. ok (u ++ v)))) (λ w. ok (x ∷ w)))
      ≡ bind (bind a (λ x. bind b (λ w. ok (x ∷ w)))) (λ u. bind c (λ v. ok (u ++ v)))
bind_cons (ok x) (ok u) (ok v) = refl
bind_cons (ok x) (ok u) (failed e) = refl
bind_cons (ok x) (ok u) panicked = refl
bind_cons (ok x) (failed e) c = refl
bind_cons (ok x) panicked c = refl
bind_cons (failed e) b c = refl
bind_cons panicked b c = refl

bind_total :
    (b : Result (List MatchDto)) (n : ℕ) (u : List MatchDto)
    → bind (bind b (λ v. ok (v, n))) (λ (r : List MatchDto × ℕ). ok (u ++ r.0))
      ≡ bind b (λ v. ok (u ++ v))
bind_total (ok v) n u = refl
bind_total (failed e) n u = refl
bind_total panicked n u = refl

bind_ok : (b : Result (List MatchDto)) → bind b ok ≡ b
bind_ok (ok v) = refl
bind_ok (failed e) = refl
bind_ok panicked = refl

-- Scanning two stretches of rows one after the other is scanning them together.
scan_matches-append :
    (d : Driver) (xs ys : List MatchRow)
    → scan_matches d (xs ++ ys)
      ≡ bind (scan_matches d xs) (λ a. bind (scan_matches d ys) (λ b. ok (a ++ b)))
unfolding scan_matches
scan_matches-append d [] ys = sym (bind_ok (scan_matches d ys))
scan_matches-append d (x ∷ xs) ys =
    ap (λ z. bind (scan_match_dto d x) (λ y. bind z (λ w. ok (y ∷ w))))
      (scan_matches-append d xs ys)
    ∙ bind_cons (scan_match_dto d x) (scan_matches d xs) (scan_matches d ys)

-- The offset of page k + 1.
offset_of :
    (k p : ℕ) → k * p < 2 ^ 63 → k < 2 ^ 63 → offset (record { page = suc k; per_page = p }) ≡ k * p
unfolding offset sub mul
offset_of k p h hk =
    let e : (suc k + (2 ^ 64 - 1 % 2 ^ 64)) % 2 ^ 64 ≡ k = omega arith in rw e (omega arith)

is_neg_small : (n : ℕ) → n < 2 ^ 63 → is_neg n ≡ false
unfolding rank
is_neg_small n h = ground arith

module _ (d : Driver) (rows : List MatchRow) (id : Uuid) (f : MatchFilters) (p : ℕ) where
  abbrev clause : Clause
  clause = build_match_where_clause d.texts id f

  abbrev ordered : List MatchRow
  ordered = d.order_by (select (selects d.texts clause) rows)

  list_matches_page :
      (k : ℕ)
      → k * p < 2 ^ 63
      → k < 2 ^ 63
      → p < 2 ^ 63
      → list_matches d rows id f (record { page = suc k; per_page = p })
        ≡ bind
            (scan_matches d (take p (drop (k * p) ordered)))
            (λ dtos. ok (dtos, length (select (selects d.texts clause) rows)))
  unfolding list_matches page_rows limit
  list_matches_page k h hk hp =
      rw (offset_of k p h hk, is_neg_small p hp, is_neg_small (k * p) h) refl

  read_pages-take :
      (n : ℕ)
      → n * p < 2 ^ 63 + p
      → n ≤ 2 ^ 63
      → p < 2 ^ 63
      → read_pages d rows id f p n ≡ scan_matches d (take (n * p) ordered)
  unfolding read_pages scan_matches
  read_pages-take zero h hn hp = rw (zero-mul p) refl
  read_pages-take (suc k) h hn hp =
      let e : suc k * p ≡ k * p + p = suc-mul k p in
      let small : k * p < 2 ^ 63 = omega arith in
      rw
        (
          e,
          read_pages-take k (omega arith) (omega arith) hp,
          list_matches_page k small (omega arith) hp,
        )
        (ap (bind (scan_matches d (take (k * p) ordered))) (
            fun_ext (λ u.
              bind_total (scan_matches d (take p (drop (k * p) ordered)))
                (length (select (selects d.texts clause) rows)) u))
          ∙ sym (scan_matches-append d (take (k * p) ordered) (take p (drop (k * p) ordered)))
          ∙ ap (scan_matches d) (take-drop (k * p) p ordered))

le_mul : (k p : ℕ) → 1 ≤ p → k ≤ k * p
le_mul zero p h = omega arith
le_mul (suc k) p h = omega (arith, le_mul k p h, suc-mul k p)

few_pages : (n p t : ℕ) → 1 ≤ p → n * p < t + p → n ≤ t
few_pages zero p t h q = omega arith
few_pages (suc k) p t h q = omega (arith, le_mul k p h, suc-mul k p)

-- What `ORDER BY` promises here: it loses and doubles no row.
abbrev pub IsOrdering : Driver → Type 0
IsOrdering d = (rows : List MatchRow) → Perm (d.order_by rows) rows

-- A client that reads the pages from 1 to the `total_pages` of the metadata gets what one scan of
-- all the rows that the filters ask for gives, in their order: every match once, or the error of
-- the first row that cannot be scanned. The page size is at least 1, and it and the total are below
-- 2 ^ 63.
pub read_pages-Complete :
    (d : Driver) (rows : List MatchRow) (id : Uuid) (f : MatchFilters) (first : PageParams)
    → IsOrdering d
    → 1 ≤ first.per_page
    → first.per_page < 2 ^ 63
    → length (select (is_wanted d.texts id f) rows) < 2 ^ 63
    → (meta : PageMeta) × (new_page_meta first (length (select (is_wanted d.texts id f) rows))
        ≡ some meta)
      × (read_pages d rows id f first.per_page meta.total_pages
          ≡ scan_matches d (d.order_by (select (is_wanted d.texts id f) rows)))
read_pages-Complete d rows id f first o h1 h2 ht =
    let wanted : selects d.texts (build_match_where_clause d.texts id f) ≡ is_wanted d.texts id f =
      fun_ext (λ r. (build_match_where_clause-IsWanted d.texts id f r).2) in
    let all : List MatchRow = d.order_by (select (is_wanted d.texts id f) rows) in
    let size : length all ≡ length (select (is_wanted d.texts id f) rows) =
      length-perm all (select (is_wanted d.texts id f) rows) (o _) in
    let m =
      new_page_meta-IsCeiling first (length (select (is_wanted d.texts id f) rows)) h1 h2 ht in
    let n : ℕ = m.0.total_pages in
    let few : n ≤ 2 ^ 63 = omega (arith, few_pages n first.per_page _ h1 (m.2.1), ht) in
    let whole : take (n * first.per_page) all ≡ all =
      take_all (n * first.per_page) all (omega (arith, m.2, size)) in
    (
      m.0,
      m.1,
      read_pages-take d rows id f first.per_page n (omega (arith, m.2, ht)) few h2
          ∙ ap (λ t. scan_matches d (take (n * first.per_page) (d.order_by (select t rows)))) wanted
          ∙ ap (scan_matches d) whole,
    )
