-- ===== src/App/Setup/Unique.antt =====
-- `validateUniqueTeams` of initialize_tournament.go, and lists without repetition.
use wc_fixture.Base.{
  Uuid, String, ◌≡◌, ◌≢◌, ◌↔◌, refl, sym, subst, ap, none, List, [], ◌∷◌, ◌++◌, All, arith,
  Option-cases, inl, inr,
}
use wc_fixture.Base.Order.{All-mono}
use wc_fixture.App.Setup.{
  GroupConfig, Scan, repeated, scanned, seen_in, scan_teams, unique_from, validate_unique_teams,
}

abbrev pub all_teams : List GroupConfig → List Uuid
all_teams [] = []
all_teams (g ∷ rest) = g.teams ++ all_teams rest

abbrev pub IsDistinct : List Uuid → Type 0
IsDistinct [] = Unit
IsDistinct (t ∷ ts) = All (λ u. t ≢ u) ts × IsDistinct ts

-- Distinct teams of whom none was seen.
abbrev IsFresh : List (Uuid × String) → List Uuid → Type 0
IsFresh seen ts = All (λ u. seen_in seen u ≡ none) ts × IsDistinct ts

see :
    (t : Uuid) (n : String) (seen : List (Uuid × String)) (u : Uuid)
    → t ≢ u
    → seen_in seen u ≡ none
    → seen_in ((t, n) ∷ seen) u ≡ none
see t n seen u h k = ground arith

unsee :
    (t : Uuid) (n : String) (seen : List (Uuid × String)) (u : Uuid)
    → seen_in ((t, n) ∷ seen) u ≡ none
    → (t ≢ u) × (seen_in seen u ≡ none)
unsee t n seen u h = ground arith

IsFresh-cons :
    (t : Uuid) (n : String) (seen : List (Uuid × String)) (us : List Uuid)
    → seen_in seen t ≡ none
    → IsFresh ((t, n) ∷ seen) us
    → IsFresh seen (t ∷ us)
IsFresh-cons t n seen us h k = (
  (h, All-mono _ _ (λ u e. (unsee t n seen u e).1) us k.0),
  (All-mono _ _ (λ u e. (unsee t n seen u e).0) us k.0, k.1),
)

All-both :
    (t : Uuid) (n : String) (seen : List (Uuid × String)) (us : List Uuid)
    → All (λ u. t ≢ u) us
    → All (λ u. seen_in seen u ≡ none) us
    → All (λ u. seen_in ((t, n) ∷ seen) u ≡ none) us
All-both t n seen [] h k = tt
All-both t n seen (u ∷ us) h k = (see t n seen u h.0 k.0, All-both t n seen us h.1 k.1)

IsFresh-see :
    (t : Uuid) (n : String) (seen : List (Uuid × String)) (us : List Uuid)
    → IsFresh seen (t ∷ us)
    → IsFresh ((t, n) ∷ seen) us
IsFresh-see t n seen us h = (All-both t n seen us h.1.0 h.0.1, h.1.1)

scanned_inj : {s t : List (Uuid × String)} → scanned s ≡ scanned t → s ≡ t
scanned_inj {s} q = ap (λ x. elim x [ scanned u ↦ u | repeated _ ↦ s ]) q

scan_teams-IsFresh :
    (n : String) (ts more : List Uuid) (seen seen1 : List (Uuid × String))
    → scan_teams n ts seen ≡ scanned seen1
    → IsFresh seen1 more
    → IsFresh seen (ts ++ more)
unfolding scan_teams
scan_teams-IsFresh n [] more seen seen1 e h = subst (λ s. IsFresh s more) (sym (scanned_inj e)) h
scan_teams-IsFresh n (t ∷ ts) more seen seen1 e h = elim (Option-cases (seen_in seen t)) [
  | inl q ↦
      IsFresh-cons t n seen (ts ++ more) q
        (scan_teams-IsFresh n ts more ((t, n) ∷ seen) seen1 (ground arith) h)
  | inr (p, q) ↦ absurd (ground arith)
]

IsFresh-scan_teams :
    (n : String) (ts more : List Uuid) (seen : List (Uuid × String))
    → IsFresh seen (ts ++ more)
    → (seen1 : List (Uuid × String)) × (scan_teams n ts seen ≡ scanned seen1) × IsFresh seen1 more
unfolding scan_teams
IsFresh-scan_teams n [] more seen h = (seen, refl, h)
IsFresh-scan_teams n (t ∷ ts) more seen h =
    let (seen1, q, k) =
      IsFresh-scan_teams n ts more ((t, n) ∷ seen) (IsFresh-see t n seen (ts ++ more) h) in
    (seen1, rw (h.0.0, scan_teams) q, k)

unique_from-IsFresh :
    (gs : List GroupConfig) (seen : List (Uuid × String))
    → unique_from gs seen ≡ none
    → IsFresh seen (all_teams gs)
unfolding unique_from
unique_from-IsFresh [] seen e = (tt, tt)
unique_from-IsFresh (g ∷ gs) seen e =
    go (scan_teams g.name g.teams seen) refl (λ s. unique_from-IsFresh gs s)
  where
    go :
        (s : Scan)
        → scan_teams g.name g.teams seen ≡ s
        → ((s : List (Uuid × String)) → unique_from gs s ≡ none → IsFresh s (all_teams gs))
        → IsFresh seen (g.teams ++ all_teams gs)
    go (scanned s) q rest =
        scan_teams-IsFresh g.name g.teams (all_teams gs) seen s q
          (rest s (rw (q, unique_from) at e))
    go (repeated x) q rest = absurd (cc (rw (q, unique_from) at e))

IsFresh-unique_from :
    (gs : List GroupConfig) (seen : List (Uuid × String))
    → IsFresh seen (all_teams gs)
    → unique_from gs seen ≡ none
unfolding unique_from
IsFresh-unique_from [] seen h = refl
IsFresh-unique_from (g ∷ gs) seen h =
    let (s, q, k) = IsFresh-scan_teams g.name g.teams (all_teams gs) seen h in
    rw (q, unique_from) (IsFresh-unique_from gs s k)

All-unseen : (ts : List Uuid) → All (λ u. seen_in [] u ≡ none) ts
All-unseen [] = tt
All-unseen (t ∷ ts) = (refl, All-unseen ts)

-- `validateUniqueTeams` returns no error exactly when no team occurs twice in all groups together.
pub validate_unique_teams-IsDistinct :
    (gs : List GroupConfig) → (validate_unique_teams gs ≡ none) ↔ IsDistinct (all_teams gs)
unfolding validate_unique_teams
validate_unique_teams-IsDistinct gs = (
  λ e. (unique_from-IsFresh gs [] e).1,
  λ h. IsFresh-unique_from gs [] (All-unseen (all_teams gs), h),
)
