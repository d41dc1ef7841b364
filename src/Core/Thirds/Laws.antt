-- ===== src/Core/Thirds/Laws.antt =====
-- What `Classify` selects, by what `sort.SliceStable` promises and nothing else of it.
use mathlib.Core.List.{Perm}
use wc_fixture.Base.{
  ℕ, ◌≤◌, ◌≡◌, refl, sym, ap, subst, List, [], ◌∷◌, ◌++◌, All, arith, length, take, drop, Bool,
  false, take-append-drop, Uuid, zero, suc,
}
use wc_fixture.Base.Cursor.{All-append_left, All-append_right}
use wc_fixture.Base.Perms.{length-perm}
use wc_fixture.Base.Order.{IsStrictWeakOrder, IsStableSort, IsSorted}
use wc_fixture.Core.Standing.{insertion_sort}
use wc_fixture.Core.Standing.Order.{standing_less-IsStrictWeakOrder}
use wc_fixture.Core.Standing.Sort.{IsStableSort-unique}
use wc_fixture.Core.Thirds.{
  BestThirdCandidate, SliceStable, candidate_less, candidate_ids, classify,
}

-- The documented behaviour of `sort.SliceStable`.
abbrev pub IsSliceStable : SliceStable → Type 0
IsSliceStable s =
    (less : BestThirdCandidate → BestThirdCandidate → Bool)
    → IsStrictWeakOrder less
    → IsStableSort less (s less)

pub candidate_less-IsStrictWeakOrder : IsStrictWeakOrder candidate_less
unfolding candidate_less
candidate_less-IsStrictWeakOrder =
    let o = standing_less-IsStrictWeakOrder in
    record {
      irrefl = λ x. o.irrefl x.standing;
      asymm = λ x y. o.asymm x.standing y.standing;
      trans = λ x y z. o.trans x.standing y.standing z.standing;
      neg_trans = λ x y z. o.neg_trans x.standing y.standing z.standing;
    }

-- From eight candidates on, `Classify` with any stable sort selects the first eight of the candidates
-- as the hand-written sort of the standings orders them, in that order.
pub classify-insertion_sort :
    (s : SliceStable) (thirds : List BestThirdCandidate)
    → IsSliceStable s
    → 8 ≤ length thirds
    → classify s thirds ≡ candidate_ids (take 8 (insertion_sort candidate_less thirds))
unfolding classify
classify-insertion_sort s thirds h le =
    rw
      (IsStableSort-unique candidate_less candidate_less-IsStrictWeakOrder (s candidate_less)
        (h candidate_less candidate_less-IsStrictWeakOrder) thirds)
      (ground arith)

module _ {ℓ} {A : Type ℓ} (less : A → A → Bool) where
  IsSorted-append :
      (xs ys : List A)
      → IsSorted less (xs ++ ys)
      → IsSorted less xs × All (λ x. All (λ y. less y x ≡ false) ys) xs
  IsSorted-append [] ys h = (tt, tt)
  IsSorted-append (x ∷ xs) ys h =
      let (sorted, cross) = IsSorted-append xs ys h.1 in
      ((All-append_left _ xs ys h.0, sorted), (All-append_right _ xs ys h.0, cross))

length-take_le {ℓ} : {A : Type ℓ} (n : ℕ) (xs : List A) → n ≤ length xs → length (take n xs) ≡ n
length-take_le zero xs h = refl
length-take_le (suc n) [] h = absurd (omega arith)
length-take_le (suc n) (x ∷ xs) h = ap suc (length-take_le n xs (omega arith))

-- The selection of eight: the ids of eight candidates, best first, none of whom any of the others
-- goes before.
pub record IsBestEight (thirds : List BestThirdCandidate) (ids : List Uuid) : Type 0 where
  pub chosen : List BestThirdCandidate
  pub others : List BestThirdCandidate
  pub ids_of : ids ≡ candidate_ids chosen
  pub eight : length chosen ≡ 8
  pub split : Perm (chosen ++ others) thirds
  pub ranked : IsSorted candidate_less chosen
  pub best : All (λ c. All (λ d. candidate_less d c ≡ false) others) chosen

-- From eight candidates on, `Classify` selects the best eight.
pub classify-IsBestEight :
    (s : SliceStable) (thirds : List BestThirdCandidate)
    → IsSliceStable s
    → 8 ≤ length thirds
    → IsBestEight thirds (classify s thirds)
unfolding classify
classify-IsBestEight s thirds h le =
    let k = h candidate_less candidate_less-IsStrictWeakOrder in
    let sorted = s candidate_less thirds in
    let whole = take-append-drop 8 sorted in
    let parts =
      IsSorted-append candidate_less (take 8 sorted) (drop 8 sorted)
        (subst (IsSorted candidate_less) (sym whole) (k.sorted thirds)) in
    record {
      chosen = take 8 sorted;
      others = drop 8 sorted;
      ids_of = ground arith;
      eight = length-take_le 8 sorted (omega (arith, length-perm _ _ (k.perm thirds)));
      split = subst (λ l. Perm l thirds) (sym whole) (k.perm thirds);
      ranked = parts.0;
      best = parts.1;
    }
