-- ===== src/Core/Fixture/Repeat.antt =====
-- A second result for a group match, as an at-least-once delivery brings it.
use wc_fixture.Base.{Uuid, ◌≡◌, refl, false, none, some, is_some, arith}
use wc_fixture.Base.Cursor.{Cursor, write, find-write}
use wc_fixture.Core.Errors.{err_match_already_completed}
use wc_fixture.Core.Result.{MatchResult}
use wc_fixture.Core.Match.{Match}
use wc_fixture.Core.Group.{Group, find_match}
use wc_fixture.Core.Group.Apply.{Accepts, accepted}
use wc_fixture.Core.Group.Repeat.{accepted-find_match, accepted-refuses}
use wc_fixture.Core.Fixture.{Fixture, Runtime, append_event, find_group_by_match, is_finished}
use wc_fixture.Core.Fixture.Bracket.{generate_knockout_bracket}
use wc_fixture.Core.Fixture.Register.{
  close_group, close_group_stage, after_group_result, register_group_result, register_match_result,
}
use wc_fixture.Core.Fixture.Outcome.{
  Outcome, refused, in_group, in_knockout, register_match_result-Outcome,
}

module _ (env : Runtime) (id : Uuid) (r : MatchResult) (c : Cursor Group) (g : Group)
    (f : Fixture) where
  pub groups-after_group_result : (after_group_result env id r c g f).groups ≡ write c g
  unfolding after_group_result close_group_stage close_group append_event generate_knockout_bracket
  groups-after_group_result = ground arith

  after_group_result-not_finished :
      is_finished f.status ≡ false → is_finished (after_group_result env id r c g f).status ≡ false
  unfolding after_group_result close_group_stage close_group append_event generate_knockout_bracket
  after_group_result-not_finished h = ground arith

module _ (env env' : Runtime) (f : Fixture) (id : Uuid) (r r' : MatchResult) (c : Cursor Group)
    (m : Cursor Match) (running : is_finished f.status ≡ false)
    (found : find_group_by_match f.groups id ≡ some c) (a : Accepts c.here id r m) where
  abbrev after : Fixture
  after = after_group_result env id r c (accepted c.here r m) f

  after-find_group_by_match :
      find_group_by_match after.groups id ≡ some (record c { here = accepted c.here r m })
  unfolding find_group_by_match
  after-find_group_by_match = rw (groups-after_group_result env id r c (accepted c.here r m) f) (
      find-write (λ (g : Group). is_some (find_match g id)) f.groups c (accepted c.here r m) found
        (rw (accepted-find_match c.here id r m a) refl))

  after-refuses :
      register_match_result env' after id r' ≡ (after, some (err_match_already_completed id))
  unfolding register_match_result register_group_result
  after-refuses = rw (after_group_result-not_finished env id r c (accepted c.here r m) f running) (
      rw (after-find_group_by_match, register_match_result)
        (rw (accepted-refuses c.here id r m a r', register_group_result) refl))

-- After a result was accepted for a match of a group, every further result for that match is refused
-- as one for a completed match, and the aggregate stays as it is.
pub register_match_result-again :
    (env env' : Runtime) (f : Fixture) (id : Uuid) (r r' : MatchResult) (c : Cursor Group)
    → find_group_by_match f.groups id ≡ some c
    → (register_match_result env f id r).1 ≡ none
    → register_match_result env' (register_match_result env f id r).0 id r'
      ≡ ((register_match_result env f id r).0, some (err_match_already_completed id))
register_match_result-again env env' f id r r' c q h = go (register_match_result-Outcome env f id r)
  where
    go :
        Outcome env f id r (register_match_result env f id r)
        → register_match_result env' (register_match_result env f id r).0 id r'
          ≡ ((register_match_result env f id r).0, some (err_match_already_completed id))
    go (refused e k) = absurd (cc)
    go (in_group c' m s found a k) = rw k (after-refuses env env' f id r r' c' m s found a)
    go (in_knockout p s n found v k) = absurd (cc)
