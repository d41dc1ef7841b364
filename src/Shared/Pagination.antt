-- ===== src/Shared/Pagination.antt =====
-- Pagination: shared/pkg/httputil/pagination.go. `Atoi` is `strconv.Atoi`, and a query parameter
-- that the URL lacks is the empty text.
use package.text.Mathlib.Text.{◌==◌ as str_eq}
use native.Mathlib.Nat.{add-mul, div-add-mod', mod-lt, div-le_self}
use wc_fixture.Base.{
  ℕ, String, text, sprintf, int_arg, true, false, not, Option, none, some, ◌≡◌, refl, ◌+◌, ◌*◌, ◌/◌,
  ◌%◌, ◌^◌, ◌<◌, ◌≤◌, ◌==◌, if◌then◌else◌, arith, Bool-cases, inl, inr, Option-cases, ==_iff, ◌⊎◌,
}
use wc_fixture.Base.Int.{add, sub, mul, lt, eq, is_neg, int_mod, rank, quot, rem, magnitude}
use wc_fixture.Shared.AppErrors.{Error, err_validation, is_code, validation}

abbrev pub default_page : ℕ
default_page = 1

abbrev pub default_per_page : ℕ
default_per_page = 20

abbrev pub max_per_page : ℕ
max_per_page = 100

pub record PageParams : Type 0 where
  pub page : ℕ
  pub per_page : ℕ

unfoldable pub offset : PageParams → ℕ
offset p = mul (sub p.page 1) p.per_page

unfoldable pub limit : PageParams → ℕ
limit p = p.per_page

abbrev pub Atoi : Type 0
Atoi = String → Option ℕ

-- The parameters read so far, and the error that `ParsePagination` returns with them.
abbrev pub Parsed : Type 0 → Type 0
Parsed D = PageParams × Option (Error D)

-- The number that `v` spells, where `err == nil` and it is at least 1.
unfoldable pub positive : Atoi → String → Option ℕ
positive atoi v = elim (atoi v) [ none ↦ none | some n ↦ if lt n 1 then none else some n ]

module _ {D : Type 0} where
  unfoldable pub parse_page : Atoi → String → PageParams → Parsed D
  parse_page atoi v params = if str_eq v "" then (params, none) else elim (positive atoi v) [
    | none ↦
        (params, some (err_validation (text "el parámetro 'page' debe ser un entero mayor a 0")))
    | some n ↦ (record params { page = n }, none)
  ]

  unfoldable pub parse_per_page : Atoi → String → PageParams → Parsed D
  parse_per_page atoi v params = if str_eq v "" then (params, none) else elim (positive atoi v) [
    | none ↦ (
      params,
      some (err_validation (text "el parámetro 'per_page' debe ser un entero mayor a 0")),
    )
    | some n ↦
        if lt max_per_page n
        then (
          params,
          some (
              err_validation
                (sprintf "el parámetro 'per_page' no puede superar %d" (int_arg max_per_page))),
        )
        else (record params { per_page = n }, none)
  ]

  unfoldable pub parse_pagination : Atoi → String → String → Parsed D
  parse_pagination atoi page per_page =
      let first =
        parse_page atoi page (record { page = default_page; per_page = default_per_page }) in
      elim (first.1) [ some e ↦ (first.0, some e) | none ↦ parse_per_page atoi per_page (first.0) ]

pub record PageMeta : Type 0 where
  pub page : ℕ
  pub per_page : ℕ
  pub total_items : ℕ
  pub total_pages : ℕ

-- `none` is the panic of a division by zero.
unfoldable pub new_page_meta : PageParams → ℕ → Option PageMeta
new_page_meta params total =
    if eq params.per_page 0
    then none
    else some (record {
      page = params.page;
      per_page = params.per_page;
      total_items = total;
      total_pages =
          if not (eq (rem total params.per_page) 0)
          then add (quot total params.per_page) 1
          else quot total params.per_page;
    })

-- What `strconv.Atoi` returns is an `int`.
abbrev pub IsInt : Atoi → Type 0
IsInt atoi = (s : String) (n : ℕ) → atoi s ≡ some n → n < int_mod

abbrev pub InRange : PageParams → Type 0
InRange p = (1 ≤ p.page) × (p.page < 2 ^ 63) × (1 ≤ p.per_page) × (p.per_page ≤ max_per_page)

positive-InRange :
    (atoi : Atoi)
    → IsInt atoi
    → (v : String) (n : ℕ) → positive atoi v ≡ some n
    → (1 ≤ n) × (n < 2 ^ 63)
unfolding rank positive
positive-InRange atoi ints v n h = elim (Option-cases (atoi v)) [
  | inl e ↦ ground (arith, e)
  | inr (m, e) ↦ ground (arith, e, ints v m e)
]

module _ {D : Type 0} (atoi : Atoi) (ints : IsInt atoi) where
  -- What a step of the parsing leaves: parameters in range, or a validation error.
  abbrev Ensures : Parsed D → Type 0
  Ensures r =
      ((r.1 ≡ none) × InRange (r.0))
      ⊎ ((e : Error D) × (r.1 ≡ some e) × (is_code e validation ≡ true))

  parse_page-Ensures : (v : String) (p : PageParams) → InRange p → Ensures (parse_page atoi v p)
  unfolding is_code parse_page
  parse_page-Ensures v p h = elim (Bool-cases (str_eq v "")) [
    | inl e ↦ rw e (inl (refl, h))
    | inr e ↦ rw e (elim (Option-cases (positive atoi v)) [
      | inl q ↦ rw q (inr (_, refl, refl))
      | inr (n, q) ↦
          rw q (let r = positive-InRange atoi ints v n q in inl (refl, (r.0, r.1, h.2, h.3)))
    ])
  ]

  parse_per_page-Ensures :
      (v : String) (p : PageParams) → InRange p → Ensures (parse_per_page atoi v p)
  unfolding is_code rank parse_per_page
  parse_per_page-Ensures v p h = elim (Bool-cases (str_eq v "")) [
    | inl e ↦ rw e (inl (refl, h))
    | inr e ↦ rw e (elim (Option-cases (positive atoi v)) [
      | inl q ↦ rw q (inr (_, refl, refl))
      | inr (n, q) ↦ rw q (elim (Bool-cases (lt max_per_page n)) [
        | inl t ↦ rw t (inr (_, refl, refl))
        | inr t ↦
            rw t (
              let r = positive-InRange atoi ints v n q in inl (refl, (h.0, h.1, r.0, ground arith)))
      ])
    ])
  ]

  -- Where `Atoi` returns 64-bit ints, `ParsePagination` returns a page of at least 1 and below
  -- 2 ^ 63 and between 1 and 100 entries to the page, or else a validation error.
  pub parse_pagination-InRange :
      (page per_page : String)
      → ((parse_pagination {D = D} atoi page per_page).1 ≡ none)
          × InRange ((parse_pagination {D = D} atoi page per_page).0)
        ⊎ ((e : Error D) × ((parse_pagination {D = D} atoi page per_page).1 ≡ some e)
            × (is_code e validation ≡ true))
  unfolding parse_pagination
  parse_pagination-InRange page per_page =
      let start : PageParams = record { page = default_page; per_page = default_per_page } in
      elim (parse_page-Ensures page start (omega arith, omega arith, omega arith, omega arith)) [
        | inl (q, h) ↦
            rw (q, parse_pagination)
              (parse_per_page-Ensures per_page ((parse_page {D = D} atoi page start).0) h)
        | inr (e, q, c) ↦ rw (q, parse_pagination) (inr (e, refl, c))
      ]

-- `NewPageMeta` on numbers that are not negative.
magnitude_small : (a : ℕ) → a < 2 ^ 63 → (is_neg a ≡ false) × (magnitude a ≡ a)
unfolding rank magnitude
magnitude_small a h = (ground arith, ground arith)

quotient : (t p : ℕ) → t < 2 ^ 63 → 0 < p → p < 2 ^ 63 → (quot t p ≡ t / p) × (rem t p ≡ t % p)
unfolding quot rem
quotient t p ht hp h =
    let mt = magnitude_small t ht in
    let mp = magnitude_small p h in rw (mt.0, mp.0, mt.1, mp.1) (refl, refl)

-- The least number of pages of `p` entries that hold `t` entries.
abbrev pub IsCeiling : ℕ → ℕ → ℕ → Type 0
IsCeiling n t p = (t ≤ n * p) × (n * p < t + p)

eq_zero : (p : ℕ) → 1 ≤ p → p < 2 ^ 63 → eq p 0 ≡ false
unfolding rank
eq_zero p h1 h2 = ground arith

suc_mul : (q p : ℕ) → (q + 1) * p ≡ q * p + p
suc_mul q p = omega (arith, add-mul q 1 p)

IsCeiling-of_quotient :
    (t p q r : ℕ)
    → q * p + r ≡ t
    → r < p
    → q ≤ t
    → t < 2 ^ 63
    → IsCeiling (if not (eq r 0) then add q 1 else q) t p
unfolding rank add
IsCeiling-of_quotient t p q r h hr hq ht = elim (Bool-cases (r == 0)) [
  | inl e ↦ let z : r ≡ 0 = (==_iff r 0).0 e in rw z (omega (arith, h, hr, z))
  | inr e ↦
      let n : eq r 0 ≡ false = ground (arith, e) in
      let pos : 0 < r = ground (arith, e) in
      let s : (q + 1) % 2 ^ 64 ≡ q + 1 = omega arith in
      rw (n, s) (omega (arith, suc_mul q p, pos), omega (arith, suc_mul q p, pos))
]

-- For a page size of at least 1, and both numbers below 2 ^ 63, `NewPageMeta` returns the least
-- number of pages that hold all the items, with the page, the size and the total it was given.
pub new_page_meta-IsCeiling :
    (params : PageParams) (total : ℕ)
    → 1 ≤ params.per_page
    → params.per_page < 2 ^ 63
    → total < 2 ^ 63
    → (meta : PageMeta) × (new_page_meta params total ≡ some meta)
      × IsCeiling meta.total_pages total params.per_page
      × (meta.page ≡ params.page)
      × (meta.per_page ≡ params.per_page)
      × (meta.total_items ≡ total)
unfolding new_page_meta
new_page_meta-IsCeiling params total h1 h2 ht =
    let q = quotient total params.per_page ht h1 h2 in
    let nz : eq params.per_page 0 ≡ false = eq_zero params.per_page h1 h2 in
    rw (nz, q.0, q.1)
      (
        _,
        refl,
        IsCeiling-of_quotient total params.per_page _ _ (div-add-mod' total params.per_page)
            (mod-lt total h1) (div-le_self total params.per_page) ht,
        refl,
        refl,
        refl,
      )
