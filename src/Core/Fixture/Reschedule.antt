-- ===== src/Core/Fixture/Reschedule.antt =====
-- What `UpdateMatchSchedule` of contexts/fixture-core/internal/domain/fixture/fixture.go does.
use wc_fixture.Base.{
  Uuid, Time, ◌≡◌, refl, Option, none, some, [], ◌∷◌, arith, false, inl, inr, Bool-cases,
  Option-cases,
}
use wc_fixture.Base.Cursor.{Cursor, write}
use wc_fixture.Core.Errors.{DomainError, err_match_not_found, err_match_already_completed}
use wc_fixture.Core.Match.{Match, is_completed}
use wc_fixture.Core.Group.{Group, find_match}
use wc_fixture.Core.Events.{match_schedule_updated, schedule_updated}
use wc_fixture.Core.Fixture.{
  Fixture, Runtime, MatchPointer, append_event, find_group_by_match, find_knockout_match,
  write_match,
}
use wc_fixture.Core.Fixture.Schedule.{
  in_group, in_round, find_any_match, reschedule, after_reschedule, write_in_group,
  reschedule_found, update_match_schedule,
}
use wc_fixture.Core.Fixture.Outcome.{IsSuccessor}
use wc_fixture.Core.Fixture.Contents.{Appends, append_event-Appends}

-- The aggregate with the match under the pointers rescheduled.
abbrev pub rescheduled_in_group :
    Runtime → Uuid → Time → Uuid → Cursor Group → Cursor Match → Fixture → Fixture
rescheduled_in_group env id at venue g c f =
    after_reschedule env id at venue c.here (write_in_group g c (reschedule at venue c.here) f)

abbrev pub rescheduled_in_round : Runtime → Uuid → Time → Uuid → MatchPointer → Fixture → Fixture
rescheduled_in_round env id at venue p f =
    after_reschedule env id at venue p.match.here
      (record f { knockout_rounds = write_match p (reschedule at venue p.match.here) })

-- The paths of `UpdateMatchSchedule`, by what it returns.
pub data Taken (env : Runtime) (f : Fixture) (id : Uuid) (at : Time) (venue : Uuid)
    (out : Fixture × Option DomainError) : Type 0 where
  refused : (e : DomainError) → out ≡ (f, some e) → Taken env f id at venue out
  moved_in_group :
      (g : Cursor Group) (c : Cursor Match)
      → find_group_by_match f.groups id ≡ some g
      → find_match g.here id ≡ some c
      → is_completed c.here ≡ false
      → out ≡ (rescheduled_in_group env id at venue g c f, none)
      → Taken env f id at venue out
  moved_in_round :
      (p : MatchPointer)
      → find_knockout_match f.knockout_rounds id ≡ some p
      → is_completed p.match.here ≡ false
      → out ≡ (rescheduled_in_round env id at venue p f, none)
      → Taken env f id at venue out

module _ (env : Runtime) (f : Fixture) (id : Uuid) (at : Time) (venue : Uuid) where
  found_in_group :
      (g : Cursor Group) (c : Cursor Match)
      → find_group_by_match f.groups id ≡ some g
      → find_match g.here id ≡ some c
      → Taken env f id at venue (reschedule_found env f id at venue (in_group g c))
  unfolding reschedule_found
  found_in_group g c h k = elim (Bool-cases (is_completed c.here)) [
    | inl d ↦ refused (err_match_already_completed id) (rw d)
    | inr d ↦ moved_in_group g c h k d (rw d)
  ]

  found_in_round :
      (p : MatchPointer)
      → find_knockout_match f.knockout_rounds id ≡ some p
      → Taken env f id at venue (reschedule_found env f id at venue (in_round p))
  unfolding reschedule_found
  found_in_round p h = elim (Bool-cases (is_completed p.match.here)) [
    | inl d ↦ refused (err_match_already_completed id) (rw d)
    | inr d ↦ moved_in_round p h d (rw d)
  ]

  pub update_match_schedule-Taken :
      Taken env f id at venue (update_match_schedule env f id at venue)
  unfolding update_match_schedule find_any_match
  update_match_schedule-Taken = elim (Option-cases (find_group_by_match f.groups id)) [
    | inr (g, h) ↦
        rw (h, find_any_match)
          (elim (Option-cases (find_match g.here id)) [
            | inl n ↦ rw n (refused (err_match_not_found id) (unfold reschedule_found in refl))
            | inr (c, k) ↦ rw k (found_in_group g c h k)
          ])
    | inl h ↦
        rw (h, find_any_match)
          (elim (Option-cases (find_knockout_match f.knockout_rounds id)) [
            | inl n ↦ rw n (refused (err_match_not_found id) (unfold reschedule_found in refl))
            | inr (p, k) ↦ rw k (found_in_round p k)
          ])
  ]

-- What rescheduling does to the aggregate: one event, one version, nothing else but the match.
pub after_reschedule-IsSuccessor :
    (env : Runtime) (id : Uuid) (at : Time) (venue : Uuid) (m : Match) (f : Fixture)
    → IsSuccessor f (after_reschedule env id at venue m f)
unfolding after_reschedule append_event
after_reschedule-IsSuccessor env id at venue m f = ground arith

-- The match of the pointer, with the new time and venue and all else as it was.
abbrev pub moved : Time → Uuid → Match → Match
moved at venue m = record m { scheduled_at = at; venue_id = venue }

-- One version more, one event with the old and the new time and venue, and the same stage.
pub record IsReported (env : Runtime) (id : Uuid) (at : Time) (venue : Uuid) (m : Match)
    (f g : Fixture) : Type 0 where
  pub successor : IsSuccessor f g
  pub status : g.status ≡ f.status
  pub event : Appends f.pending_events g.pending_events (
      (
        match_schedule_updated,
        schedule_updated (record {
          match_id = id;
          old_scheduled_at = m.scheduled_at;
          new_scheduled_at = at;
          old_venue_id = m.venue_id;
          new_venue_id = venue;
          updated_at = env.now;
        }),
      )
      ∷ [])

-- What a call leaves: an error and the aggregate as it was; or no error, and the match of that id
-- moved, in a group and nothing else, or in a knockout round and nothing else.
pub data Rescheduled (env : Runtime) (f : Fixture) (id : Uuid) (at : Time) (venue : Uuid)
    (out : Fixture × Option DomainError) : Type 0 where
  kept : (e : DomainError) → out ≡ (f, some e) → Rescheduled env f id at venue out
  in_its_group :
      (g : Cursor Group) (c : Cursor Match)
      → find_group_by_match f.groups id ≡ some g
      → find_match g.here id ≡ some c
      → is_completed c.here ≡ false
      → out.1 ≡ none
      → IsReported env id at venue c.here f out.0
      → (out.0).groups
        ≡ write g (let h = g.here in record h { matches = write c (moved at venue c.here) })
      → (out.0).knockout_rounds ≡ f.knockout_rounds
      → Rescheduled env f id at venue out
  in_its_round :
      (p : MatchPointer)
      → find_knockout_match f.knockout_rounds id ≡ some p
      → is_completed p.match.here ≡ false
      → out.1 ≡ none
      → IsReported env id at venue p.match.here f out.0
      → (out.0).groups ≡ f.groups
      → (out.0).knockout_rounds ≡ write_match p (moved at venue p.match.here)
      → Rescheduled env f id at venue out

module _ (env : Runtime) (f : Fixture) (id : Uuid) (at : Time) (venue : Uuid) where
  in_group-IsReported :
      (g : Cursor Group) (c : Cursor Match)
      → IsReported env id at venue c.here f (rescheduled_in_group env id at venue g c f)
  unfolding after_reschedule write_in_group
  in_group-IsReported g c = record {
    successor = unfold append_event in ground arith;
    status = unfold append_event in refl;
    event = append_event-Appends env (write_in_group g c (reschedule at venue c.here) f) _ _;
  }

  in_round-IsReported :
      (p : MatchPointer)
      → IsReported env id at venue p.match.here f (rescheduled_in_round env id at venue p f)
  unfolding after_reschedule
  in_round-IsReported p = record {
    successor = unfold append_event in ground arith;
    status = unfold append_event in refl;
    event =
        append_event-Appends env
          (record f { knockout_rounds = write_match p (reschedule at venue p.match.here) }) _ _;
  }

  -- Every call either returns an error and leaves the aggregate as it was, or returns none and moves
  -- the match of that id, which is not completed, to the new time and venue, in its group or in its
  -- knockout round, and nothing else; it counts the version up by one and appends one event, with the
  -- old and the new time and venue.
  pub update_match_schedule-Rescheduled :
      Rescheduled env f id at venue (update_match_schedule env f id at venue)
  unfolding reschedule after_reschedule write_in_group append_event
  update_match_schedule-Rescheduled = go (update_match_schedule-Taken env f id at venue)
    where
      go :
          Taken env f id at venue (update_match_schedule env f id at venue)
          → Rescheduled env f id at venue (update_match_schedule env f id at venue)
      go (refused e q) = kept e q
      go (moved_in_group g c h k d q) =
          rw q (in_its_group g c h k d refl (in_group-IsReported g c) refl refl)
      go (moved_in_round p h d q) = rw q (in_its_round p h d refl (in_round-IsReported p) refl refl)
