-- ===== src/Base/Cursor.antt =====
-- A pointer `&s[i]` into a slice, as the elements before it, the element, and those after it.
use mathlib.Core.Path.{◌≡◌, refl, sym, ap, subst}
use mathlib.Core.Bool.{Bool, true, false}
use mathlib.Core.Option.{Option, none, some}
use mathlib.Core.List.{List, [], ◌∷◌, ◌++◌}
use mathlib.Core.Logic.{inl, inr}
use native.Mathlib.Omega.{arith}
use wc_fixture.Base.Tests.{if◌then◌else◌, Bool-cases}
use wc_fixture.Base.Lists.{All}

pub record Cursor {ℓ} (A : Type ℓ) : Type ℓ where
  pub before : List A
  pub here : A
  pub after : List A

module _ {ℓ} {A : Type ℓ} where
  -- The slice after a write through the pointer.
  abbrev pub write : Cursor A → A → List A
  write c x = c.before ++ (x ∷ c.after)

  -- The pointer seen in the slice with one more element in front.
  abbrev pub step_over : A → Option (Cursor A) → Option (Cursor A)
  step_over x none = none
  step_over x (some c) = some (record c { before = x ∷ c.before })

  -- `for i := range s { if test(s[i]) { return &s[i] } }; return nil`
  unfoldable pub find : (A → Bool) → List A → Option (Cursor A)
  find test [] = none
  find test (x ∷ xs) =
      if test x
      then some (record { before = []; here = x; after = xs })
      else step_over x (find test xs)

  some_inj : {x y : Cursor A} → some x ≡ some y → x ≡ y
  some_inj h = cc

  step_over-eq_some :
      (x : A) (o : Option (Cursor A)) (c : Cursor A)
      → step_over x o ≡ some c
      → (d : Cursor A) × (o ≡ some d) × (c ≡ record d { before = x ∷ d.before })
  step_over-eq_some x none c h = cc
  step_over-eq_some x (some d) c h = (d, refl, ground arith)

  -- What a pointer that `find` returns is: the first element that passes the test, in its place.
  pub record IsFirst (test : A → Bool) (xs : List A) (c : Cursor A) : Type ℓ where
    pub place : xs ≡ c.before ++ (c.here ∷ c.after)
    pub passes : test c.here ≡ true
    pub earlier_fail : All (λ x. test x ≡ false) c.before

  IsFirst-here :
      (test : A → Bool) (x : A) (xs : List A)
      → test x ≡ true
      → IsFirst test (x ∷ xs) (record { before = []; here = x; after = xs })
  IsFirst-here test x xs e = record { place = refl; passes = e; earlier_fail = tt }

  IsFirst-later :
      (test : A → Bool) (x : A) (xs : List A) (c : Cursor A)
      → test x ≡ false
      → IsFirst test xs c
      → IsFirst test (x ∷ xs) (record c { before = x ∷ c.before })
  IsFirst-later test x xs c e f = record {
    place = ap (◌∷◌ x) f.place;
    passes = f.passes;
    earlier_fail = (e, f.earlier_fail);
  }

  -- What `find` returns is the first element that passes, in its place.
  pub find-IsFirst :
      (test : A → Bool) (xs : List A) (c : Cursor A) → find test xs ≡ some c → IsFirst test xs c
  unfolding find
  find-IsFirst test [] c h = cc
  find-IsFirst test (x ∷ xs) c h = elim (Bool-cases (test x)) [
    | inl e ↦ subst (IsFirst test (x ∷ xs)) (some_inj (rw e at h)) (IsFirst-here test x xs e)
    | inr e ↦
        let (d, found, same) = step_over-eq_some x (find test xs) c (rw e at h) in
        subst (IsFirst test (x ∷ xs)) (sym same)
          (IsFirst-later test x xs d e (find-IsFirst test xs d found))
  ]

  step_over-eq_none : (x : A) (o : Option (Cursor A)) → step_over x o ≡ none → o ≡ none
  step_over-eq_none x none h = refl
  step_over-eq_none x (some d) h = cc

  -- It returns no pointer only where no element passes.
  pub find-eq_none :
      (test : A → Bool) (xs : List A) → find test xs ≡ none → All (λ x. test x ≡ false) xs
  unfolding find
  find-eq_none test [] h = tt
  find-eq_none test (x ∷ xs) h = elim (Bool-cases (test x)) [
    | inl e ↦ absurd (cc (rw e at h))
    | inr e ↦ (e, find-eq_none test xs (step_over-eq_none x _ (rw e at h)))
  ]

  pub find_of_none :
      (test : A → Bool) (xs : List A) → All (λ x. test x ≡ false) xs → find test xs ≡ none
  unfolding find
  find_of_none test [] h = refl
  find_of_none test (x ∷ xs) h = rw (h.0, find_of_none test xs h.1)

  pub find_first :
      (test : A → Bool) (before after : List A) (x : A)
      → All (λ y. test y ≡ false) before
      → test x ≡ true
      → find test (before ++ (x ∷ after))
        ≡ some (record { before = before; here = x; after = after })
  unfolding find
  find_first test [] after x h e = rw e refl
  find_first test (y ∷ before) after x h e = rw (h.0, find_first test before after x h.1 e) refl

  -- After a write of an element that passes too, the search finds it in the same place.
  pub find-write :
      (test : A → Bool) (xs : List A) (c : Cursor A) (x : A)
      → find test xs ≡ some c
      → test x ≡ true
      → find test (write c x) ≡ some (record c { here = x })
  find-write test xs c x q e =
      find_first test c.before c.after x (find-IsFirst test xs c q).earlier_fail e

module _ {ℓ κ} {A : Type ℓ} where
  pub All-append : (P : A → Type κ) (xs ys : List A) → All P xs → All P ys → All P (xs ++ ys)
  All-append P [] ys h k = k
  All-append P (x ∷ xs) ys h k = (h.0, All-append P xs ys h.1 k)

  pub All-append_left : (P : A → Type κ) (xs ys : List A) → All P (xs ++ ys) → All P xs
  All-append_left P [] ys h = tt
  All-append_left P (x ∷ xs) ys h = (h.0, All-append_left P xs ys h.1)

  pub All-append_right : (P : A → Type κ) (xs ys : List A) → All P (xs ++ ys) → All P ys
  All-append_right P [] ys h = h
  All-append_right P (x ∷ xs) ys h = All-append_right P xs ys h.1

  -- A predicate on every element survives a write of an element that has it.
  pub All-write :
      (P : A → Type κ) (xs : List A) (c : Cursor A) (x : A)
      → xs ≡ c.before ++ (c.here ∷ c.after)
      → All P xs
      → P x
      → All P (write c x)
  All-write P xs c x e h p =
      let all = subst (All P) e h in
      All-append P c.before (x ∷ c.after) (All-append_left P c.before _ all)
        (p, (All-append_right P c.before _ all).1)

  pub All-here :
      (P : A → Type κ) (xs : List A) (c : Cursor A)
      → xs ≡ c.before ++ (c.here ∷ c.after)
      → All P xs
      → P c.here
  All-here P xs c e h = (All-append_right P c.before _ (subst (All P) e h)).0
