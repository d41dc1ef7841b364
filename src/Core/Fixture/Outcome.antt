-- ===== src/Core/Fixture/Outcome.antt =====
-- What `RegisterMatchResult` does on each of its paths: it refuses and changes nothing, or accepts a
-- result in a group or in a knockout round, with the events of that path.
use wc_fixture.Base.{
  Uuid, ◌≡◌, Option, none, some, arith, false, inl, inr, Option-cases, Bool-cases,
}
use wc_fixture.Base.Int.{add}
use wc_fixture.Base.Cursor.{Cursor}
use wc_fixture.Core.Errors.{DomainError, err_match_not_found, err_tournament_already_ended}
use wc_fixture.Core.Result.{MatchResult}
use wc_fixture.Core.Match.{Match, validate_result}
use wc_fixture.Core.Group.{Group}
use wc_fixture.Core.Group.Apply.{Accepts, accepted, apply_result-cases}
use wc_fixture.Core.Fixture.{
  Fixture, Runtime, MatchPointer, append_event, all_groups_complete, find_group_by_match,
  find_knockout_match, is_finished,
}
use wc_fixture.Core.Fixture.Bracket.{generate_knockout_bracket}
use wc_fixture.Core.Fixture.Advance.{advance_knockout_bracket, finish_tournament}
use wc_fixture.Core.Fixture.Register.{
  close_group, close_group_stage, after_group_result, after_knockout_result, register_group_result,
  register_knockout_result, register_in_knockout, register_match_result,
}

-- The paths of `RegisterMatchResult`, by what it returns.
pub data Outcome (env : Runtime) (f : Fixture) (id : Uuid) (r : MatchResult)
    (out : Fixture × Option DomainError) : Type 0 where
  refused : (e : DomainError) → out ≡ (f, some e) → Outcome env f id r out
  in_group :
      (c : Cursor Group) (m : Cursor Match)
      → is_finished f.status ≡ false
      → find_group_by_match f.groups id ≡ some c
      → Accepts c.here id r m
      → out ≡ (after_group_result env id r c (accepted c.here r m) f, none)
      → Outcome env f id r out
  in_knockout :
      (p : MatchPointer)
      → is_finished f.status ≡ false
      → find_group_by_match f.groups id ≡ none
      → find_knockout_match f.knockout_rounds id ≡ some p
      → validate_result p.match.here r ≡ none
      → out ≡ (after_knockout_result env id r p f, none)
      → Outcome env f id r out

module _ (env : Runtime) (f : Fixture) (id : Uuid) (r : MatchResult) where
  group_result-Outcome :
      (c : Cursor Group)
      → is_finished f.status ≡ false
      → find_group_by_match f.groups id ≡ some c
      → Outcome env f id r (register_group_result env f id r c)
  unfolding register_group_result
  group_result-Outcome c s found = elim (apply_result-cases c.here id r) [
    | inl (e, h) ↦ refused e (rw h)
    | inr (m, a, h) ↦ in_group c m s found a (rw h)
  ]

  knockout_result-Outcome :
      is_finished f.status ≡ false
      → find_group_by_match f.groups id ≡ none
      → Outcome env f id r (register_in_knockout env f id r)
  unfolding register_in_knockout register_knockout_result
  knockout_result-Outcome s h = elim (Option-cases (find_knockout_match f.knockout_rounds id)) [
    | inl n ↦ refused (err_match_not_found id) (rw (n, register_in_knockout))
    | inr (p, q) ↦ elim (Option-cases (validate_result p.match.here r)) [
      | inl v ↦
          in_knockout p s h q v (rw (q, register_in_knockout) (rw (v, register_knockout_result)))
      | inr (e, v) ↦ refused e (rw (q, register_in_knockout) (rw (v, register_knockout_result)))
    ]
  ]

  -- Every call takes one of the paths.
  pub register_match_result-Outcome : Outcome env f id r (register_match_result env f id r)
  unfolding register_match_result
  register_match_result-Outcome = elim (Bool-cases (is_finished f.status)) [
    | inl s ↦ refused err_tournament_already_ended (rw s)
    | inr s ↦ elim (Option-cases (find_group_by_match f.groups id)) [
      | inl n ↦ rw s (rw (n, register_match_result) (knockout_result-Outcome s n))
      | inr (c, q) ↦ rw s (rw (q, register_match_result) (group_result-Outcome c s q))
    ]
  ]

-- A call that returns an error leaves the aggregate as it was.
pub register_match_result_error_unchanged :
    (env : Runtime) (f : Fixture) (id : Uuid) (r : MatchResult) (e : DomainError)
    → (register_match_result env f id r).1 ≡ some e
    → (register_match_result env f id r).0 ≡ f
register_match_result_error_unchanged env f id r e h = go (register_match_result-Outcome env f id r)
  where
    go :
        Outcome env f id r (register_match_result env f id r)
        → (register_match_result env f id r).0 ≡ f
    go (refused e' q) = cc
    go (in_group c m s found a q) = cc
    go (in_knockout p s n q v q') = cc

-- Completeness is read off the groups.
pub all_groups_complete-groups :
    (f g : Fixture) → f.groups ≡ g.groups → all_groups_complete f ≡ all_groups_complete g
unfolding all_groups_complete
all_groups_complete-groups f g e = rw e

-- What every accepted result leaves alone, and the version that it counts up.
pub record IsSuccessor (f g : Fixture) : Type 0 where
  pub id : g.id ≡ f.id
  pub tournament_id : g.tournament_id ≡ f.tournament_id
  pub edition : g.edition ≡ f.edition
  pub name : g.name ≡ f.name
  pub version : g.version ≡ add f.version 1

module _ (env : Runtime) (id : Uuid) (r : MatchResult) where
  pub after_group_result-IsSuccessor :
      (c : Cursor Group) (g : Group) (f : Fixture)
      → IsSuccessor f (after_group_result env id r c g f)
  unfolding after_group_result close_group close_group_stage append_event generate_knockout_bracket
  after_group_result-IsSuccessor c g f = ground arith

  pub after_knockout_result-IsSuccessor :
      (p : MatchPointer) (f : Fixture) → IsSuccessor f (after_knockout_result env id r p f)
  unfolding after_knockout_result advance_knockout_bracket finish_tournament append_event
  after_knockout_result-IsSuccessor p f = ground arith

  pub groups-close_group : (g : Group) (f : Fixture) → (close_group env g f).groups ≡ f.groups
  unfolding close_group append_event
  groups-close_group g f = ground arith
