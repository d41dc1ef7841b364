-- ===== src/Core/Standing/Order.antt =====
-- `StandingLess` and the lexicographic comparison of four keys.
use wc_fixture.Base.{
  ℕ, ◌-◌, length, ◌≡◌, refl, Bool, true, false, List, [], ◌∷◌, arith, ltb, if◌then◌else◌,
}
use wc_fixture.Base.Int.{rank, rank-lt, int_mod}
use wc_fixture.Base.Order.{IsStrictWeakOrder}
use wc_fixture.Core.Standing.{
  GroupStanding, points, goal_difference, fair_play_points, standing_less,
}

-- Lexicographic order on lists of keys, the smaller key first.
unfoldable pub lex : List ℕ → List ℕ → Bool
lex (x ∷ xs) (y ∷ ys) =
    let rest = lex xs ys in if ltb x y then true else if ltb y x then false else rest
lex _ _ = false

-- A key that is smaller where the statistic is greater.
unfoldable pub descending : ℕ → ℕ
descending a = int_mod - 1 - rank a

-- The keys of the table, the first one most significant.
unfoldable pub ranking_keys : GroupStanding → List ℕ
ranking_keys s =
    descending (points s)
    ∷ descending (goal_difference s)
    ∷ descending s.goals_for
    ∷ rank (fair_play_points s)
    ∷ []

pub lex_irrefl : (xs : List ℕ) → lex xs xs ≡ false
unfolding lex
lex_irrefl [] = refl
lex_irrefl (x ∷ xs) = ground (arith, lex_irrefl xs)

pub lex-asymm : (xs ys : List ℕ) → lex xs ys ≡ true → lex ys xs ≡ false
unfolding lex
lex-asymm [] [] h = refl
lex-asymm [] (y ∷ ys) h = refl
lex-asymm (x ∷ xs) [] h = refl
lex-asymm (x ∷ xs) (y ∷ ys) h = ground (arith, lex-asymm xs ys)

pub lex_trans : (xs ys zs : List ℕ) → lex xs ys ≡ true → lex ys zs ≡ true → lex xs zs ≡ true
unfolding lex
lex_trans [] ys zs h k = ground arith
lex_trans (x ∷ xs) [] zs h k = ground arith
lex_trans (x ∷ xs) (y ∷ ys) [] h k = ground arith
lex_trans (x ∷ xs) (y ∷ ys) (z ∷ zs) h k = ground (arith, lex_trans xs ys zs)

-- `StandingLess` of any two standings is the lexicographic comparison of their points, goal difference,
-- goals for and fair play points, the first three with the larger one before.
pub standing_less-lex :
    (a b : GroupStanding) → standing_less a b ≡ lex (ranking_keys a) (ranking_keys b)
unfolding standing_less lex ranking_keys descending
standing_less-lex a b = ground (
  arith,
  rank-lt (points a),
  rank-lt (points b),
  rank-lt (goal_difference a),
  rank-lt (goal_difference b),
  rank-lt a.goals_for,
  rank-lt b.goals_for,
)

-- Two keys lists of one length: what is not before, and not before in turn, is not before.
pub lex-neg_trans :
    (xs ys zs : List ℕ)
    → length xs ≡ length ys
    → length ys ≡ length zs
    → lex xs ys ≡ false
    → lex ys zs ≡ false
    → lex xs zs ≡ false
unfolding lex
lex-neg_trans [] ys zs p q h k = refl
lex-neg_trans (x ∷ xs) [] zs p q h k = absurd (omega arith)
lex-neg_trans (x ∷ xs) (y ∷ ys) [] p q h k = refl
lex-neg_trans (x ∷ xs) (y ∷ ys) (z ∷ zs) p q h k =
    ground (arith, lex-neg_trans xs ys zs (omega arith) (omega arith))

length-ranking_keys : (a b : GroupStanding) → length (ranking_keys a) ≡ length (ranking_keys b)
unfolding ranking_keys
length-ranking_keys a b = refl

pub standing_less-IsStrictWeakOrder : IsStrictWeakOrder standing_less
standing_less-IsStrictWeakOrder = record {
  irrefl = λ x. simp standing_less-lex (lex_irrefl (ranking_keys x));
  asymm = λ x y h. rw standing_less-lex (lex-asymm _ _ (rw standing_less-lex at h));
  trans = λ x y z h k.
      rw standing_less-lex
        (lex_trans _ (ranking_keys y) _ (rw standing_less-lex at h) (rw standing_less-lex at k));
  neg_trans = λ x y z h k. rw standing_less-lex (
      lex-neg_trans _ (ranking_keys y) _ (length-ranking_keys x y) (length-ranking_keys y z)
        (rw standing_less-lex at h) (rw standing_less-lex at k));
}
