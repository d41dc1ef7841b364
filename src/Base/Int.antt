-- ===== src/Base/Int.antt =====
-- Go's 64-bit `int`: a number read modulo 2 ^ 64, in two's complement.
use Prim.Native.Nat.{ℕ, ◌+◌, ◌-◌, ◌*◌, ◌/◌, ◌%◌, ◌^◌, ◌<◌}
use mathlib.Core.Path.{◌≡◌}
use mathlib.Core.Logic.{◌↔◌}
use mathlib.Core.Bool.{Bool, true}
use native.Mathlib.Omega.{arith}
use wc_fixture.Base.Tests.{ltb, ◌==◌, if◌then◌else◌}

abbrev pub int_mod : ℕ
int_mod = 2 ^ 64

unfoldable pub add : ℕ → ℕ → ℕ
add a b = (a + b) % int_mod

unfoldable pub sub : ℕ → ℕ → ℕ
sub a b = (a + (int_mod - b % int_mod)) % int_mod

unfoldable pub mul : ℕ → ℕ → ℕ
mul a b = (a * b) % int_mod

-- The position of an `int` in the order of the integers: the least one has rank 0.
unfoldable pub rank : ℕ → ℕ
rank a = (a + 2 ^ 63) % int_mod

-- `a < b`, `a == b` and `a < 0`.
abbrev pub lt : ℕ → ℕ → Bool
lt a b = ltb (rank a) (rank b)

abbrev pub eq : ℕ → ℕ → Bool
eq a b = rank a == rank b

abbrev pub is_neg : ℕ → Bool
is_neg a = lt a 0

pub rank-lt : (a : ℕ) → rank a < int_mod
unfolding rank
rank-lt a = omega arith

-- Two numbers are one `int` exactly when they agree modulo 2 ^ 64.
pub eq_iff_mod : (a b : ℕ) → (eq a b ≡ true) ↔ (a % int_mod ≡ b % int_mod)
unfolding rank
eq_iff_mod a b = ground arith

-- On the non-negative ints the order is that of the numbers.
pub lt_of_small : (a b : ℕ) → a < 2 ^ 63 → b < 2 ^ 63 → lt a b ≡ ltb a b
unfolding rank
lt_of_small a b ha hb = ground arith

-- The distance of an `int` from 0, and the `int` that lies as far below 0.
unfoldable pub magnitude : ℕ → ℕ
magnitude a = if is_neg a then int_mod - a % int_mod else a % int_mod

abbrev pub neg : ℕ → ℕ
neg a = sub 0 a

-- `a / b` and `a % b`, which round towards 0; `b` is not 0.
unfoldable pub quot : ℕ → ℕ → ℕ
quot a b =
    let q = magnitude a / magnitude b in
    if is_neg a then (if is_neg b then q else neg q) else (if is_neg b then neg q else q)

unfoldable pub rem : ℕ → ℕ → ℕ
rem a b = let r = magnitude a % magnitude b in if is_neg a then neg r else r
