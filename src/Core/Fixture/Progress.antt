-- ===== src/Core/Fixture/Progress.antt =====
-- How the group stage ends: `RegisterMatchResult` of
-- contexts/fixture-core/internal/domain/fixture/fixture.go, for as many results as it takes.
use wc_fixture.Base.{
  ℕ, suc, ◌+◌, ◌*◌, ◌≤◌, Uuid, ◌≡◌, refl, ap, ◌∙◌, none, some, List, [], ◌∷◌, ◌++◌, arith, true,
  false, inl, inr, All, Bool-cases, length, length-append,
}
use wc_fixture.Base.Cursor.{Cursor, write}
use wc_fixture.Core.Result.{MatchResult}
use wc_fixture.Core.Match.{Match}
use wc_fixture.Core.Group.{Group, completed_match_count, matches_per_group}
use wc_fixture.Core.Group.Apply.{
  IsGroup, Accepts, accepted, accepted-count, count_completed-le-length,
}
use wc_fixture.Core.Fixture.{
  Fixture, Runtime, knockout, TournamentStatus, all_groups_complete, all_completed,
  is_completed_group, find_group_by_match, is_finished, append_event, total_groups, MatchPointer,
}
use wc_fixture.Core.Fixture.Advance.{advance_knockout_bracket, finish_tournament}
use wc_fixture.Core.Fixture.Register.{
  after_group_result, after_knockout_result, register_match_result,
}
use wc_fixture.Core.Fixture.Outcome.{
  Outcome, refused, in_group, in_knockout, register_match_result-Outcome,
}
use wc_fixture.Core.Fixture.Invariant.{
  IsConsistent, is_open, open_no_match, accepts_open, group_place,
  register_match_result-IsConsistent,
}
use wc_fixture.Core.Fixture.Repeat.{groups-after_group_result}
use wc_fixture.Core.Fixture.Runs.{Reach, here, next, register, Reach-not_finished}

-- The completed matches of all groups.
unfoldable pub played : List Group → ℕ
played [] = 0
played (g ∷ rest) = completed_match_count g + played rest

-- A run of results that were all accepted, with their number.
pub data Accepted (f : Fixture) : ℕ → Fixture → Type 0 where
  start : Accepted f 0 f
  accept :
      {n : ℕ} {g : Fixture} (env : Runtime) (id : Uuid) (r : MatchResult)
      → Accepted f n g
      → (register_match_result env g id r).1 ≡ none
      → Accepted f (suc n) (register_match_result env g id r).0

played-append : (xs ys : List Group) → played (xs ++ ys) ≡ played xs + played ys
unfolding played
played-append [] ys = omega arith
played-append (g ∷ xs) ys = omega (arith, played-append xs ys)

length-write_group :
    (groups : List Group) (c : Cursor Group) (g : Group)
    → groups ≡ c.before ++ (c.here ∷ c.after)
    → length (write c g) ≡ length groups
length-write_group groups c g e = omega (
  arith,
  length-append c.before (g ∷ c.after),
  length-append c.before (c.here ∷ c.after),
  ap length e,
)

played-write :
    (groups : List Group) (c : Cursor Group) (g : Group)
    → groups ≡ c.before ++ (c.here ∷ c.after)
    → completed_match_count g ≡ suc (completed_match_count c.here)
    → played (write c g) ≡ suc (played groups)
played-write groups c g e n =
    unfold played in
    omega (
      arith,
      played-append c.before (g ∷ c.after),
      played-append c.before (c.here ∷ c.after),
      ap played e,
      n,
    )

-- A group of which six matches are completed has the status for it.
IsGroup-full :
    (g : Group)
    → IsGroup g
    → matches_per_group ≤ completed_match_count g
    → is_completed_group g.status ≡ true
unfolding completed_match_count
IsGroup-full g h le = ground (arith, h.status_exact, h.six, count_completed-le-length g.matches)

IsGroup-le : (g : Group) → IsGroup g → completed_match_count g ≤ 6
unfolding completed_match_count
IsGroup-le g h = omega (arith, h.six, count_completed-le-length g.matches)

played_le : (groups : List Group) → All IsGroup groups → played groups ≤ 6 * length groups
unfolding played
played_le [] h = omega arith
played_le (g ∷ rest) h = omega (arith, played_le rest h.1, IsGroup-le g h.0)

-- When every match of the groups is played, every group is complete.
played-all_completed :
    (groups : List Group)
    → All IsGroup groups
    → 6 * length groups ≤ played groups
    → all_completed groups ≡ true
unfolding played all_completed
played-all_completed [] h le = refl
played-all_completed (g ∷ rest) h le =
    rw
      (
        IsGroup-full g h.0 (omega (arith, le, played_le rest h.1)),
        played-all_completed rest h.1 (omega (arith, le, IsGroup-le g h.0)),
      )
      refl

-- What is known after `n` accepted results.
record IsPlayed (f : Fixture) (n : ℕ) (g : Fixture) : Type 0 where
  consistent : IsConsistent g
  length_same : length g.groups ≡ length f.groups
  counted : is_open g.status ≡ true → played g.groups ≡ n + played f.groups

module _ (env : Runtime) (id : Uuid) (r : MatchResult) where
  after_group_result-IsPlayed :
      (f : Fixture) (n : ℕ) (g : Fixture) (c : Cursor Group) (m : Cursor Match)
      → IsPlayed f n g
      → find_group_by_match g.groups id ≡ some c
      → Accepts c.here id r m
      → IsConsistent (after_group_result env id r c (accepted c.here r m) g)
      → IsPlayed f (suc n) (after_group_result env id r c (accepted c.here r m) g)
  after_group_result-IsPlayed f n g c m h found a k =
      let e = groups-after_group_result env id r c (accepted c.here r m) g in
      let place = group_place env id r g c m h.consistent found a in
      let one = played-write g.groups c _ place (accepted-count c.here id r m a) in
      let before = h.counted (accepts_open env id r g c m h.consistent found a) in
      record {
        consistent = k;
        length_same = ap length e ∙ length-write_group g.groups c _ place ∙ h.length_same;
        counted = λ _. omega (arith, ap played e, one, before);
      }

  after_knockout_result-IsPlayed :
      (f : Fixture) (n : ℕ) (g : Fixture) (p : MatchPointer)
      → IsPlayed f n g
      → is_open g.status ≡ false
      → IsConsistent (after_knockout_result env id r p g)
      → IsPlayed f (suc n) (after_knockout_result env id r p g)
  unfolding after_knockout_result advance_knockout_bracket finish_tournament append_event
  after_knockout_result-IsPlayed f n g p h o k =
      let same : (after_knockout_result env id r p g).groups ≡ g.groups = ground arith in
      let closed : is_open (after_knockout_result env id r p g).status ≡ false = ground arith in
      record {
        consistent = k;
        length_same = ap length same ∙ h.length_same;
        counted = λ q. absurd (cc);
      }

  register_match_result-IsPlayed :
      (f : Fixture) (n : ℕ) (g : Fixture)
      → IsPlayed f n g
      → (register_match_result env g id r).1 ≡ none
      → Outcome env g id r (register_match_result env g id r)
      → IsPlayed f (suc n) (register_match_result env g id r).0
  register_match_result-IsPlayed f n g h k (refused e q) = absurd (cc)
  register_match_result-IsPlayed f n g h k (in_group c m s found a q) = rw q (
      after_group_result-IsPlayed f n g c m h found a
        (rw q at (register_match_result-IsConsistent env g id r h.consistent)))
  register_match_result-IsPlayed f n g h k (in_knockout p s e found v q) = rw q (
      after_knockout_result-IsPlayed f n g p h (open_no_match id g p h.consistent found)
        (rw q at (register_match_result-IsConsistent env g id r h.consistent)))

Accepted-IsPlayed :
    {f : Fixture} {n : ℕ} {g : Fixture} → IsConsistent f → Accepted f n g → IsPlayed f n g
Accepted-IsPlayed h start = record {
  consistent = h;
  length_same = refl;
  counted = λ _. omega arith;
}
Accepted-IsPlayed {f} h (accept {n} {g} env id r a k) =
    register_match_result-IsPlayed env id r f n g (Accepted-IsPlayed h a) k
      (register_match_result-Outcome env g id r)

Accepted-Reach : {f : Fixture} {n : ℕ} {g : Fixture} → Accepted f n g → Reach f g
Accepted-Reach start = here
Accepted-Reach (accept env id r a k) = next (Accepted-Reach a) (register env id r)

not_open_knockout :
    (s : TournamentStatus) → is_open s ≡ false → is_finished s ≡ false → s ≡ knockout
not_open_knockout s o f = ground arith

-- In a consistent aggregate of at least twelve groups whose group stage is open, once as many results
-- are accepted as group matches were not completed, whatever their order, the tournament is in the
-- knockout stage.
pub Accepted-knockout :
    {n : ℕ} {g : Fixture} (f : Fixture)
    → IsConsistent f
    → is_open f.status ≡ true
    → total_groups ≤ length f.groups
    → 6 * length f.groups ≤ n + played f.groups
    → Accepted f n g
    → g.status ≡ knockout
unfolding all_groups_complete
Accepted-knockout {n} {g} f h o twelve enough a =
    let k = Accepted-IsPlayed h a in
    let running = Reach-not_finished (h.no_rounds o) (ground arith) (Accepted-Reach a) in
    elim (Bool-cases (is_open g.status)) [
      | inr c ↦ not_open_knockout g.status c running
      | inl c ↦
          let full =
            played-all_completed g.groups k.consistent.groups_ok
              (omega (arith, k.counted c, k.length_same, enough)) in
          ground (arith, full, k.consistent.stage_exact, k.length_same, twelve, c)
    ]
