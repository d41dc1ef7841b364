-- ===== src/Core/Group/Repeat.antt =====
-- A result for a match of a group that has one already.
use wc_fixture.Base.{Uuid, ◌≡◌, refl, ap, some, ◌==◌, ==_iff}
use wc_fixture.Base.Cursor.{Cursor, find-IsFirst, find-write}
use wc_fixture.Core.Errors.{err_match_already_completed}
use wc_fixture.Core.Result.{MatchResult}
use wc_fixture.Core.Match.{Match, validate_result, complete}
use wc_fixture.Core.Group.{Group, find_match, apply_at, apply_result}
use wc_fixture.Core.Group.Apply.{Accepts, accepted, accepted_matches, complete-is_completed}

complete-refuses :
    (m : Match) (r r' : MatchResult)
    → validate_result (complete r m) r' ≡ some (err_match_already_completed m.id)
unfolding validate_result
complete-refuses m r r' = rw (complete-is_completed r m) (unfold complete in refl)

module _ (g : Group) (id : Uuid) (r : MatchResult) (c : Cursor Match) (a : Accepts g id r c) where
  id_of : c.here.id ≡ id
  unfolding find_match
  id_of = (==_iff _ _).0 (find-IsFirst (λ m. m.id == id) g.matches c a.found).passes

  -- The match that accepted a result is found again.
  pub accepted-find_match :
      find_match (accepted g r c) id ≡ some (record c { here = complete r c.here })
  unfolding find_match complete
  accepted-find_match = rw (accepted_matches g id r c a) (
      find-write (λ (m : Match). m.id == id) g.matches c (complete r c.here) a.found
        (find-IsFirst (λ m. m.id == id) g.matches c a.found).passes)

  pub accepted-refuses :
      (r' : MatchResult)
      → apply_result (accepted g r c) id r'
        ≡ (accepted g r c, some (err_match_already_completed id))
  unfolding apply_result apply_at
  accepted-refuses r' =
      rw (accepted-find_match, apply_result)
        (rw (complete-refuses c.here r r', apply_at)
          (ap (λ i. (accepted g r c, some (err_match_already_completed i))) id_of))
