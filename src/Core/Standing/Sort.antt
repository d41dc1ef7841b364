-- ===== src/Core/Standing/Sort.antt =====
-- The insertion sort of `SortStandings`, against the contract of a stable sort.
use mathlib.Core.List.{Perm, append_assoc, append-nil, reverse-cons, reverse-reverse}
use mathlib.Core.List.Perm
use wc_fixture.Base.{
  ◌≡◌, refl, sym, ap, ◌∙◌, subst, Bool, true, false, List, [], ◌∷◌, ◌++◌, reverse, inl, inr, arith,
  All, Bool-cases,
}
use wc_fixture.Base.Order.{
  IsStrictWeakOrder, IsStableSort, IsSorted, IsSorted-unique, select, select-append, tied,
}
use wc_fixture.Core.Standing.{sink, sort_loop, insertion_sort}

-- `reverse before ++ after`, one element at a time.
rev_onto {ℓ} : {A : Type ℓ} → List A → List A → List A
rev_onto [] after = after
rev_onto (y ∷ before) after = rev_onto before (y ∷ after)

reverse-append-rev_onto {ℓ} :
    {A : Type ℓ} (before after : List A) → reverse before ++ after ≡ rev_onto before after
unfolding rev_onto
reverse-append-rev_onto [] after = refl
reverse-append-rev_onto (y ∷ before) after =
    rw (reverse-cons y before, append_assoc (reverse before) (y ∷ []) after)
      (reverse-append-rev_onto before (y ∷ after))

module _ {ℓ} {A : Type ℓ} (less : A → A → Bool) where
  -- A reversed sorted list.
  abbrev IsSortedRev : List A → Type 0
  IsSortedRev [] = Unit
  IsSortedRev (y ∷ before) = All (λ u. less y u ≡ false) before × IsSortedRev before

  -- Nothing in the second list goes before anything in the first.
  abbrev IsBefore : List A → List A → Type 0
  IsBefore before after = All (λ u. All (λ v. less v u ≡ false) after) before

module _ {ℓ} {A : Type ℓ} (less : A → A → Bool) (o : IsStrictWeakOrder less) where
  IsBefore-cons :
      (b a : List A) (y : A)
      → All (λ u. less y u ≡ false) b
      → IsBefore less b a
      → IsBefore less b (y ∷ a)
  IsBefore-cons [] a y h k = tt
  IsBefore-cons (x ∷ b) a y h k = ((h.0, k.0), IsBefore-cons b a y h.1 k.1)

  rev_onto-join :
      (b a : List A)
      → IsSortedRev less b
      → IsSorted less a
      → IsBefore less b a
      → IsSorted less (rev_onto b a)
  unfolding rev_onto
  rev_onto-join [] a hb ha hc = ha
  rev_onto-join (y ∷ b) a hb ha hc =
      rev_onto-join b (y ∷ a) hb.1 (hc.0, ha) (IsBefore-cons b a y hb.0 hc.1)

  IsBefore-head : (b a : List A) (y : A) → IsBefore less b (y ∷ a) → All (λ u. less y u ≡ false) b
  IsBefore-head [] a y h = tt
  IsBefore-head (x ∷ b) a y h = (h.0.0, IsBefore-head b a y h.1)

  IsBefore-tail : (b a : List A) (y : A) → IsBefore less b (y ∷ a) → IsBefore less b a
  IsBefore-tail [] a y h = tt
  IsBefore-tail (x ∷ b) a y h = (h.0.1, IsBefore-tail b a y h.1)

  rev_onto-split :
      (b a : List A)
      → IsSorted less (rev_onto b a)
      → IsSortedRev less b × IsSorted less a × IsBefore less b a
  unfolding rev_onto
  rev_onto-split [] a h = (tt, h, tt)
  rev_onto-split (y ∷ b) a h =
      let (hb, ha, hc) = rev_onto-split b (y ∷ a) h in
      ((IsBefore-head b a y hc, hb), ha.1, (ha.0, IsBefore-tail b a y hc))

  below-All :
      (b : List A) (x y : A)
      → less x y ≡ false
      → All (λ u. less y u ≡ false) b
      → All (λ u. less x u ≡ false) b
  below-All [] x y h k = tt
  below-All (u ∷ b) x y h k = (o.neg_trans x y u h k.0, below-All b x y h k.1)

  sink-IsSorted :
      (b : List A) (x : A) (a : List A)
      → IsSortedRev less b
      → IsSorted less a
      → IsBefore less b a
      → All (λ v. less v x ≡ false) a
      → IsSorted less (sink less b x a)
  unfolding sink
  sink-IsSorted [] x a hb ha hc hx = (hx, ha)
  sink-IsSorted (y ∷ b) x a hb ha hc hx = elim (Bool-cases (less x y)) [
    | inl h ↦ rw h (
        sink-IsSorted b x (y ∷ a) hb.1 (hc.0, ha) (IsBefore-cons b a y hb.0 hc.1)
          (o.asymm x y h, hx))
    | inr h ↦
        rw (h, reverse-append-rev_onto (y ∷ b) (x ∷ a))
          (rev_onto-join (y ∷ b) (x ∷ a) hb (hx, ha)
            (IsBefore-cons (y ∷ b) a x (h, below-All b x y h hb.0) hc))
  ]

  sink-perm : (b : List A) (x : A) (a : List A) → Perm (sink less b x a) (reverse b ++ (x ∷ a))
  unfolding sink
  sink-perm [] x a = Perm.rfl
  sink-perm (y ∷ b) x a = elim (Bool-cases (less x y)) [
    | inl h ↦
        rw (h, reverse-cons y b, append_assoc (reverse b) (y ∷ []) (x ∷ a))
          (Perm.trans (sink-perm b x (y ∷ a)) (Perm.append_left (reverse b) (Perm.swap y x a)))
    | inr h ↦ rw h Perm.rfl
  ]

  -- Elements that swap are not tied with one element.
  select_swap :
      (e x y : A) (a : List A)
      → less x y ≡ true
      → select (tied less e) (x ∷ y ∷ a) ≡ select (tied less e) (y ∷ x ∷ a)
  unfolding select
  select_swap e x y a h = ground (arith, o.neg_trans x e y)

  sink-select :
      (e : A) (b : List A) (x : A) (a : List A)
      → select (tied less e) (sink less b x a) ≡ select (tied less e) (reverse b ++ (x ∷ a))
  unfolding sink
  sink-select e [] x a = refl
  sink-select e (y ∷ b) x a = elim (Bool-cases (less x y)) [
    | inl h ↦
        rw (h, reverse-cons y b, append_assoc (reverse b) (y ∷ []) (x ∷ a))
          (sink-select e b x (y ∷ a)
            ∙ select-append (tied less e) (reverse b) (x ∷ y ∷ a)
            ∙ ap (◌++◌ (select (tied less e) (reverse b))) (select_swap e x y a h)
            ∙ sym (select-append (tied less e) (reverse b) (y ∷ x ∷ a)))
    | inr h ↦ rw h
  ]

  sink_done-IsSorted :
      (done : List A) (x : A) → IsSorted less done → IsSorted less (sink less (reverse done) x [])
  sink_done-IsSorted done x h =
      let back : rev_onto (reverse done) [] ≡ done =
        sym (reverse-append-rev_onto (reverse done) []) ∙ append-nil _ ∙ reverse-reverse done in
      let (hb, ha, hc) = rev_onto-split (reverse done) [] (subst (IsSorted less) (sym back) h) in
      sink-IsSorted (reverse done) x [] hb tt hc tt

  sort_loop-IsSorted :
      (done xs : List A) → IsSorted less done → IsSorted less (sort_loop less done xs)
  unfolding sort_loop
  sort_loop-IsSorted done [] h = h
  sort_loop-IsSorted done (x ∷ xs) h =
      sort_loop-IsSorted (sink less (reverse done) x []) xs (sink_done-IsSorted done x h)

  sort_loop-perm : (done xs : List A) → Perm (sort_loop less done xs) (done ++ xs)
  unfolding sort_loop
  sort_loop-perm done [] = rw append-nil Perm.rfl
  sort_loop-perm done (x ∷ xs) = Perm.trans (sort_loop-perm (sink less (reverse done) x []) xs) (
      rw (← append_assoc done (x ∷ []) xs) (
        Perm.append_right xs (
          subst (λ l. Perm (sink less (reverse done) x []) (l ++ x ∷ [])) (reverse-reverse done)
            (sink-perm (reverse done) x []))))

  sort_loop-select :
      (e : A) (done xs : List A)
      → select (tied less e) (sort_loop less done xs) ≡ select (tied less e) (done ++ xs)
  unfolding sort_loop
  sort_loop-select e done [] = rw append-nil
  sort_loop-select e done (x ∷ xs) =
      let step : select (tied less e) (sink less (reverse done) x [])
          ≡ select (tied less e) (done ++ x ∷ []) =
        subst
          (λ l.
            select (tied less e) (sink less (reverse done) x [])
            ≡ select (tied less e) (l ++ x ∷ []))
          (reverse-reverse done) (sink-select e (reverse done) x []) in
      sort_loop-select e (sink less (reverse done) x []) xs
      ∙ select-append (tied less e) (sink less (reverse done) x []) xs
      ∙ ap (λ l. l ++ select (tied less e) xs) step
      ∙ sym (select-append (tied less e) (done ++ x ∷ []) xs)
      ∙ ap (select (tied less e)) (append_assoc done (x ∷ []) xs)

  -- By every strict weak order the insertion sort meets the contract of a stable sort.
  pub insertion_sort-IsStableSort : IsStableSort less (insertion_sort less)
  unfolding insertion_sort
  insertion_sort-IsStableSort = record {
    sorted = λ xs. sort_loop-IsSorted [] xs tt;
    perm = λ xs. sort_loop-perm [] xs;
    stable = λ e xs. sort_loop-select e [] xs;
  }

  -- Every stable sort by this order computes what the insertion sort computes.
  pub IsStableSort-unique :
      (sort : List A → List A)
      → IsStableSort less sort
      → (xs : List A) → sort xs ≡ insertion_sort less xs
  IsStableSort-unique sort s xs =
      let t = insertion_sort-IsStableSort in
      IsSorted-unique less o (sort xs) (insertion_sort less xs) (s.sorted xs) (t.sorted xs)
        λ e. s.stable e xs ∙ sym (t.stable e xs)
