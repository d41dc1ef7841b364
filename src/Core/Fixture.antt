-- ===== src/Core/Fixture.antt =====
-- The aggregate root: contexts/fixture-core/internal/domain/fixture/fixture.go, its state and the
-- searches in it. The commands are in the children `Bracket`, `Advance`, `Register`, `Schedule`.
-- A pointer to a match is the cursor of its round and that of the match in it.
pub mod Bracket
pub mod Advance
pub mod Register
pub mod Schedule
pub mod Outcome
pub mod Contents
pub mod Announced
pub mod Pointer
pub mod Shape
pub mod Invariant
pub mod Stranded
pub mod Reschedule
pub mod Kept
pub mod Runs
pub mod Repeat
pub mod Progress
pub mod Qualified
use package.text.Mathlib.Text.{◌==◌ as str_eq}
use wc_fixture.Base.{
  ℕ, Uuid, Time, String, Bool, true, false, ◌&&◌, ◌||◌, not, Option, none, some, is_some, List, [],
  ◌∷◌, ◌++◌, length, drop, ltb, ◌==◌, if◌then◌else◌,
}
use wc_fixture.Base.Cursor.{Cursor, find, write}
use wc_fixture.Base.Order.{IsStrictWeakOrder, IsStableSort}
use wc_fixture.Core.Match.{MatchPhase, Match}
use wc_fixture.Core.Group as Group
use wc_fixture.Core.Group.{Group, GroupStatus, find_match}
use wc_fixture.Core.Thirds.{BestThirdCandidate, SliceStable}
use wc_fixture.Core.Events.{DomainEvent, EventType, Payload, new_event}

pub data TournamentStatus : Type 0 where
  draft group_stage knockout finished : TournamentStatus

pub record Round : Type 0 where
  pub phase : MatchPhase
  pub matches : List Match

pub record Fixture : Type 0 where
  pub id : Uuid
  pub tournament_id : Uuid
  pub edition : ℕ
  pub name : String
  pub status : TournamentStatus
  pub groups : List Group
  pub knockout_rounds : List Round
  pub version : ℕ
  pub pending_events : List DomainEvent

abbrev pub total_groups : ℕ
total_groups = 12

-- What a command takes from outside the repository: one reading of the clock, the ids that
-- `uuid.New` returns for its events (by their place among the pending ones) and for the matches
-- that it creates, whether `json.Marshal` writes a payload (it refuses a time whose offset is 24 hours
-- or whose year is beyond 9999), and `sort.SliceStable` with what its documentation promises.
pub record Runtime : Type 0 where
  pub now : Time
  pub event_id : ℕ → Uuid
  pub match_id : ℕ → Uuid
  pub marshals : Payload → Bool
  pub slice_stable : SliceStable
  pub slice_stable_lem :
      (less : BestThirdCandidate → BestThirdCandidate → Bool)
      → IsStrictWeakOrder less
      → IsStableSort less (slice_stable less)

abbrev pub is_finished : TournamentStatus → Bool
is_finished finished = true
is_finished _ = false

-- The append of `appendEvent`. Its panic, where `json.Marshal` refuses the payload, is that of
-- `or_panic`, which every call of a command goes through.
unfoldable pub append_event : Runtime → Fixture → EventType → Payload → Fixture
append_event env f event_type payload =
    let id = env.event_id (length f.pending_events) in
    record f {
      pending_events =
          f.pending_events
          ++ (new_event id env.now event_type f.tournament_id "Fixture" payload ∷ []);
    }

unfoldable pub all_marshal : Runtime → List DomainEvent → Bool
all_marshal env [] = true
all_marshal env (e ∷ rest) = env.marshals e.payload && all_marshal env rest

-- The panic of `appendEvent`, for the whole call of a command: `f` is the aggregate before it, `out`
-- what it returns. The command panics, which is `none`, exactly when one of the events that it appends
-- has a payload that `json.Marshal` refuses; nobody reads the aggregate that such a call leaves.
unfoldable pub or_panic : {A : Type 0} → Runtime → Fixture → Fixture × A → Option (Fixture × A)
or_panic env f out =
    if all_marshal env (drop (length f.pending_events) (out.0).pending_events)
    then some out
    else none

-- `PendingEvents` returns the events and clears them.
unfoldable pub drain_events : Fixture → Fixture × List DomainEvent
drain_events f = (record f { pending_events = [] }, f.pending_events)

abbrev pub is_completed_group : GroupStatus → Bool
is_completed_group Group.completed = true
is_completed_group _ = false

unfoldable pub all_completed : List Group → Bool
all_completed [] = true
all_completed (g ∷ rest) = is_completed_group g.status && all_completed rest

unfoldable pub all_groups_complete : Fixture → Bool
all_groups_complete f = not (ltb (length f.groups) total_groups) && all_completed f.groups

unfoldable pub find_group_by_match : List Group → Uuid → Option (Cursor Group)
find_group_by_match groups id = find (λ g. is_some (find_match g id)) groups

-- `GroupByName`; the Boolean that it returns besides is `is_some` of this.
unfoldable pub group_by_name : Fixture → String → Option (Cursor Group)
group_by_name f name = find (λ g. str_eq g.name name) f.groups

-- `AllGroupsCompleted`
abbrev pub all_groups_completed : Fixture → Bool
all_groups_completed f = all_groups_complete f

-- A pointer to a match of a round, and the round that holds it.
pub record MatchPointer : Type 0 where
  pub round : Cursor Round
  pub match : Cursor Match

abbrev pub in_first_round : List Round → Round → Cursor Match → MatchPointer
in_first_round rest r c = record {
  round = record { before = []; here = r; after = rest };
  match = c;
}

abbrev pub in_later_round : Round → Option MatchPointer → Option MatchPointer
in_later_round r none = none
in_later_round r (some p) =
    let c = p.round in some (record p { round = record c { before = r ∷ c.before } })

-- The two nested loops of `findKnockoutMatch` and `findNextMatch`.
unfoldable pub find_in_rounds : (Match → Bool) → List Round → Option MatchPointer
find_in_rounds test [] = none
find_in_rounds test (r ∷ rest) = elim (find test r.matches) [
  | some c ↦ some (in_first_round rest r c)
  | none ↦ in_later_round r (find_in_rounds test rest)
]

-- The rounds after a write through a pointer to a match.
unfoldable pub write_match : MatchPointer → Match → List Round
write_match p m = let r = p.round.here in write p.round (record r { matches = write p.match m })

unfoldable pub find_knockout_match : List Round → Uuid → Option MatchPointer
find_knockout_match rounds id = find_in_rounds (λ m. m.id == id) rounds

abbrev pub points_to : Option Uuid → Uuid → Bool
points_to none id = false
points_to (some parent) id = parent == id

unfoldable pub find_next_match : List Round → Match → Option MatchPointer
find_next_match rounds done =
    find_in_rounds
      (λ m. points_to m.parent_home_match_id done.id || points_to m.parent_away_match_id done.id)
      rounds
