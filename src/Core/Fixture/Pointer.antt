-- ===== src/Core/Fixture/Pointer.antt =====
-- Where the pointer to a knockout match points, and what survives a write through it.
use wc_fixture.Base.{
  ◌≡◌, refl, sym, ap, subst, Option, none, some, List, [], ◌∷◌, ◌++◌, Bool, true, false, All, inl,
  inr, Option-cases,
}
use wc_fixture.Base.Cursor.{find, find-IsFirst, find_of_none, All-write, All-here}
use wc_fixture.Core.Match.{MatchPhase, Match}
use wc_fixture.Core.Fixture.{
  Round, MatchPointer, find_in_rounds, in_first_round, in_later_round, write_match,
}

-- The pointer names a match of a round of the bracket, and that match passes the test.
pub record IsPlaced (test : Match → Bool) (rounds : List Round) (p : MatchPointer) : Type 0 where
  pub round_place : rounds ≡ p.round.before ++ (p.round.here ∷ p.round.after)
  pub match_place : p.round.here.matches ≡ p.match.before ++ (p.match.here ∷ p.match.after)
  pub passes : test p.match.here ≡ true

in_later_round-eq_some :
    (r : Round) (o : Option MatchPointer) (p : MatchPointer)
    → in_later_round r o ≡ some p
    → (q : MatchPointer) × (o ≡ some q)
      × (p ≡ (let c = q.round in record q { round = record c { before = r ∷ c.before } }))
in_later_round-eq_some r none p h = cc
in_later_round-eq_some r (some q) p h = (q, refl, cc)

some_inj : {p q : MatchPointer} → some p ≡ some q → p ≡ q
some_inj h = cc

pub find_in_rounds-IsPlaced :
    (test : Match → Bool) (rounds : List Round) (p : MatchPointer)
    → find_in_rounds test rounds ≡ some p
    → IsPlaced test rounds p
unfolding find_in_rounds
find_in_rounds-IsPlaced test [] p h = cc
find_in_rounds-IsPlaced test (r ∷ rest) p h = elim (Option-cases (find test r.matches)) [
  | inr (c, s) ↦
      let e : some (in_first_round rest r c) ≡ some p = rw (s, find_in_rounds) at h in
      let f = find-IsFirst test r.matches c s in
      subst (IsPlaced test (r ∷ rest)) (some_inj e)
        (record { round_place = refl; match_place = f.place; passes = f.passes })
  | inl n ↦
      let (q, found, same) =
        in_later_round-eq_some r (find_in_rounds test rest) p (rw (n, find_in_rounds) at h) in
      let k = find_in_rounds-IsPlaced test rest q found in
      subst (IsPlaced test (r ∷ rest)) (sym same) (record {
        round_place = ap (◌∷◌ r) k.round_place;
        match_place = k.match_place;
        passes = k.passes;
      })
]

-- A predicate on the matches of the bracket, which may speak of the phase of the round.
abbrev pub AllMatches : (MatchPhase → Match → Type 0) → List Round → Type 0
AllMatches P rounds = All (λ r. All (P r.phase) r.matches) rounds

module _ (P : MatchPhase → Match → Type 0) (test : Match → Bool) (rounds : List Round)
    (p : MatchPointer) (k : IsPlaced test rounds p) (h : AllMatches P rounds) where
  AllMatches-round : All (P p.round.here.phase) p.round.here.matches
  AllMatches-round = All-here (λ r. All (P r.phase) r.matches) rounds p.round k.round_place h

  pub AllMatches-here : P p.round.here.phase p.match.here
  AllMatches-here =
      All-here (P p.round.here.phase) p.round.here.matches p.match k.match_place AllMatches-round

  pub AllMatches-write : (m : Match) → P p.round.here.phase m → AllMatches P (write_match p m)
  unfolding write_match
  AllMatches-write m pm =
      All-write (λ r. All (P r.phase) r.matches) rounds p.round _ k.round_place h
        (All-write (P p.round.here.phase) p.round.here.matches p.match m k.match_place
          AllMatches-round pm)

-- A test that no match of the bracket passes finds nothing.
pub find_in_rounds-eq_none :
    (test : Match → Bool) (rounds : List Round)
    → AllMatches (λ phase m. test m ≡ false) rounds
    → find_in_rounds test rounds ≡ none
unfolding find_in_rounds
find_in_rounds-eq_none test [] h = refl
find_in_rounds-eq_none test (r ∷ rest) h =
    rw (find_of_none test r.matches h.0, find_in_rounds) (rw (find_in_rounds-eq_none test rest h.1))
