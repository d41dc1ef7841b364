-- ===== src/Base/Order.antt =====
-- Strict weak orders given by a Boolean test, sorted lists, and the contract of a stable sort.

use mathlib.Core.Path.{◌≡◌, refl, sym, ◌∙◌, ap₂, subst}
use mathlib.Core.Bool.{Bool, true, false, not, ◌&&◌}
use mathlib.Core.List.{List, [], ◌∷◌, ◌++◌, Perm}
use mathlib.Core.Logic.{inl, inr}
use native.Mathlib.Omega.{arith}
use wc_fixture.Base.Tests.{if◌then◌else◌, Bool-cases}
use wc_fixture.Base.Lists.{All}

-- The elements that pass a test, in order.
unfoldable pub select {ℓ} : {A : Type ℓ} → (A → Bool) → List A → List A
select p [] = []
select p (x ∷ xs) = if p x then x ∷ select p xs else select p xs

pub select-append {ℓ} :
    {A : Type ℓ} (p : A → Bool) (xs ys : List A) → select p (xs ++ ys) ≡ select p xs ++ select p ys
unfolding select
select-append p [] ys = refl
select-append p (x ∷ xs) ys = ground (arith, select-append p xs ys)

pub All-mono {ℓ κ} :
    {A : Type ℓ} (P Q : A → Type κ) → ((x : A) → P x → Q x) → (xs : List A) → All P xs → All Q xs
All-mono P Q f [] h = tt
All-mono P Q f (x ∷ xs) h = (f x h.0, All-mono P Q f xs h.1)

-- Two tests select alike where they agree.
pub All-select {ℓ κ} :
    {A : Type ℓ} (P : A → Type κ) (p : A → Bool) (xs : List A) → All P xs → All P (select p xs)
unfolding select
All-select P p [] h = tt
All-select P p (x ∷ xs) h = elim (Bool-cases (p x)) [
  | inl e ↦ rw e (h.0, All-select P p xs h.1)
  | inr e ↦ rw e (All-select P p xs h.1)
]

pub record IsStrictWeakOrder {ℓ} {A : Type ℓ} (less : A → A → Bool) : Type ℓ where
  pub irrefl : (x : A) → less x x ≡ false
  pub asymm : (x y : A) → less x y ≡ true → less y x ≡ false
  pub trans : (x y z : A) → less x y ≡ true → less y z ≡ true → less x z ≡ true
  pub neg_trans : (x y z : A) → less x y ≡ false → less y z ≡ false → less x z ≡ false

module _ {ℓ} {A : Type ℓ} (less : A → A → Bool) where
  -- Neither of the two goes before the other.
  abbrev pub tied : A → A → Bool
  tied x y = not (less x y) && not (less y x)

  -- No later element goes before an earlier one.
  abbrev pub IsSorted : List A → Type 0
  IsSorted [] = Unit
  IsSorted (x ∷ xs) = All (λ y. less y x ≡ false) xs × IsSorted xs

  -- What a stable sort promises: a sorted permutation, in which the elements tied with any given
  -- one keep their order.
  pub record IsStableSort (sort : List A → List A) : Type ℓ where
    pub sorted : (xs : List A) → IsSorted (sort xs)
    pub perm : (xs : List A) → Perm (sort xs) xs
    pub stable : (e : A) (xs : List A) → select (tied e) (sort xs) ≡ select (tied e) xs

module _ {ℓ} {A : Type ℓ} (less : A → A → Bool) (o : IsStrictWeakOrder less) where
  tied_refl : (x : A) → tied less x x ≡ true
  tied_refl x = ground (arith, o.irrefl x)

  -- What a class of ties takes from the tail of a sorted list does not go before its head.
  select_tail :
      (e y x : A) (ys rest : List A)
      → All (λ v. less v y ≡ false) ys
      → select (tied less e) ys ≡ x ∷ rest
      → less x y ≡ false
  unfolding select
  select_tail e y x [] rest h q = cc
  select_tail e y x (z ∷ ys) rest h q = ground (arith, h.0, select_tail e y x ys rest h.1)

  select_head :
      (y x : A) (xs rest : List A)
      → All (λ v. less v x ≡ false) xs
      → select (tied less y) (x ∷ xs) ≡ y ∷ rest
      → less y x ≡ false
  unfolding select
  select_head y x xs rest h q = ground (arith, select_tail y x y xs rest h)

  select_self : (x : A) (xs : List A) → select (tied less x) (x ∷ xs) ≡ x ∷ select (tied less x) xs
  unfolding select
  select_self x xs = rw (tied_refl x)

  select_tails :
      (e x : A) (xs ys : List A)
      → select (tied less e) (x ∷ xs) ≡ select (tied less e) (x ∷ ys)
      → select (tied less e) xs ≡ select (tied less e) ys
  unfolding select
  select_tails e x xs ys h = ground arith

  select_first :
      (x y : A) (xs rest : List A)
      → less x y ≡ false
      → less y x ≡ false
      → x ∷ rest ≡ select (tied less x) (y ∷ xs)
      → x ≡ y
  unfolding select
  select_first x y xs rest h k q = ground arith

  heads_eq :
      (x y : A) (xs ys : List A)
      → IsSorted less (x ∷ xs)
      → IsSorted less (y ∷ ys)
      → ((e : A) → select (tied less e) (x ∷ xs) ≡ select (tied less e) (y ∷ ys))
      → x ≡ y
  heads_eq x y xs ys sx sy h =
      select_first x y ys _ (select_head x y ys _ sy.0 (sym (h x) ∙ select_self x xs))
        (select_head y x xs _ sx.0 (h y ∙ select_self y ys)) (sym (select_self x xs) ∙ h x)

  -- Two sorted lists that agree on every class of ties are one list.
  pub IsSorted-unique :
      (xs ys : List A)
      → IsSorted less xs
      → IsSorted less ys
      → ((e : A) → select (tied less e) xs ≡ select (tied less e) ys)
      → xs ≡ ys
  unfolding select
  IsSorted-unique [] [] sx sy h = refl
  IsSorted-unique [] (y ∷ ys) sx sy h = ground (arith, h y, tied_refl y)
  IsSorted-unique (x ∷ xs) [] sx sy h = ground (arith, h x, tied_refl x)
  IsSorted-unique (x ∷ xs) (y ∷ ys) sx sy h =
      let e : x ≡ y = heads_eq x y xs ys sx sy h in
      let same : (c : A) → select (tied less c) xs ≡ select (tied less c) ys = λ c.
        select_tails c x xs ys (
          subst (λ v. select (tied less c) (x ∷ xs) ≡ select (tied less c) (v ∷ ys)) (sym e)
            (h c)) in
      ap₂ ◌∷◌ e (IsSorted-unique xs ys sx.1 sy.1 same)
