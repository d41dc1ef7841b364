-- ===== src/Core/Thirds.antt =====
-- The eight best third-placed teams: contexts/fixture-core/internal/domain/fixture/best_thirds.go.
-- `sort.SliceStable` is not this repository's code: it is a parameter.
pub mod Laws
use wc_fixture.Base.{Uuid, String, Bool, List, [], ◌∷◌, length, take, ltb, if◌then◌else◌}
use wc_fixture.Core.Standing.{GroupStanding, standing_less}

pub record BestThirdCandidate : Type 0 where
  pub standing : GroupStanding
  pub group_name : String

-- The comparison that is handed to `sort.SliceStable`.
unfoldable pub candidate_less : BestThirdCandidate → BestThirdCandidate → Bool
candidate_less a b = standing_less a.standing b.standing

unfoldable pub candidate_ids : List BestThirdCandidate → List Uuid
candidate_ids [] = []
candidate_ids (c ∷ rest) = c.standing.team_id ∷ candidate_ids rest

-- The type of `sort.SliceStable`, at the slices that the program sorts.
abbrev pub SliceStable : Type 0
SliceStable =
    (BestThirdCandidate → BestThirdCandidate → Bool)
    → List BestThirdCandidate
    → List BestThirdCandidate

unfoldable pub classify : SliceStable → List BestThirdCandidate → List Uuid
classify slice_stable thirds =
    if ltb (length thirds) 8
    then candidate_ids thirds
    else candidate_ids (take 8 (slice_stable candidate_less thirds))
