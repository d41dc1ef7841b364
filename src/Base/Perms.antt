-- ===== src/Base/Perms.antt =====
-- Rearrangements: predicates on every element and sums carry over.
use Prim.Native.Nat.{ℕ, ◌+◌}
use mathlib.Core.Path.{◌≡◌, refl, sym, ap, subst, ◌∙◌}
use mathlib.Core.Logic.{∥∥₁_elim}
use mathlib.Core.HLevel.{×_prop}
use mathlib.Core.List.{List, [], ◌∷◌, Perm, Permᴰ}
use native.Mathlib.Nat.{ℕ_set}
use native.Mathlib.Omega.{arith}
use wc_fixture.Base.Lists.{All, length}

module _ {ℓ κ} {A : Type ℓ} where
  All-prop : (P : A → Type κ) → ((x : A) → IsProp (P x)) → (xs : List A) → IsProp (All P xs)
  All-prop P h [] = hlevel
  All-prop P h (x ∷ xs) = ×_prop (h x) (All-prop P h xs)

  All-permᴰ : (P : A → Type κ) (xs ys : List A) → Permᴰ xs ys → All P ys → All P xs
  All-permᴰ P _ _ Permᴰ.nil h = h
  All-permᴰ P (x ∷ xs) (y ∷ ys) (Permᴰ.cons e p) h = (subst P (sym e) h.0, All-permᴰ P xs ys p h.1)
  All-permᴰ P _ _ (Permᴰ.swap e f) h = (subst P (sym e) h.1.0, (subst P (sym f) h.0, h.1.1))
  All-permᴰ P xs zs (Permᴰ.trans {l₂ = ys} p q) h = All-permᴰ P xs ys p (All-permᴰ P ys zs q h)

  pub All-perm :
      (P : A → Type κ)
      → ((x : A) → IsProp (P x))
      → (xs ys : List A) → Perm xs ys
      → All P ys
      → All P xs
  All-perm P h xs ys p k = ∥∥₁_elim p (All-prop P h xs) (λ q. All-permᴰ P xs ys q k)

module _ {ℓ} {A : Type ℓ} where
  -- The sum of a number over a list.
  unfoldable pub total : (A → ℕ) → List A → ℕ
  total f [] = 0
  total f (x ∷ xs) = f x + total f xs

  total-permᴰ : (f : A → ℕ) (xs ys : List A) → Permᴰ xs ys → total f xs ≡ total f ys
  unfolding total
  total-permᴰ f _ _ Permᴰ.nil = refl
  total-permᴰ f (x ∷ xs) (y ∷ ys) (Permᴰ.cons e p) = omega (arith, ap f e, total-permᴰ f xs ys p)
  total-permᴰ f _ _ (Permᴰ.swap e e') = omega (arith, ap f e, ap f e')
  total-permᴰ f xs zs (Permᴰ.trans {l₂ = ys} p q) = total-permᴰ f xs ys p ∙ total-permᴰ f ys zs q

  pub total-perm : (f : A → ℕ) (xs ys : List A) → Perm xs ys → total f xs ≡ total f ys
  total-perm f xs ys p = ∥∥₁_elim p (ℕ_set _ _) (λ q. total-permᴰ f xs ys q)

  length-total : (xs : List A) → length xs ≡ total (λ _. 1) xs
  unfolding total
  length-total [] = refl
  length-total (x ∷ xs) = omega (arith, length-total xs)

  pub length-perm : (xs ys : List A) → Perm xs ys → length xs ≡ length ys
  length-perm xs ys p = length-total xs ∙ total-perm _ xs ys p ∙ sym (length-total ys)
