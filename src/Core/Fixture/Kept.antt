-- ===== src/Core/Fixture/Kept.antt =====
-- What `UpdateMatchSchedule` of contexts/fixture-core/internal/domain/fixture/fixture.go keeps.
use wc_fixture.Base.{Uuid, Time, ◌≡◌, refl, sym, ap, ◌∙◌, some, is_some}
use wc_fixture.Base.Cursor.{Cursor, write, find-IsFirst, All-write, All-here}
use wc_fixture.Core.Match.{Match, is_completed, both_slots_resolved}
use wc_fixture.Core.Group.{Group, find_match, completed_match_count}
use wc_fixture.Core.Group.Apply.{IsGroup, status_after, count_completed-write_same, length-write}
use wc_fixture.Core.Fixture.{
  Fixture, Runtime, MatchPointer, append_event, find_group_by_match, find_knockout_match,
}
use wc_fixture.Core.Fixture.Schedule.{
  reschedule, after_reschedule, write_in_group, update_match_schedule,
}
use wc_fixture.Core.Fixture.Outcome.{all_groups_complete-groups}
use wc_fixture.Core.Fixture.Pointer.{AllMatches-here, AllMatches-write, find_in_rounds-IsPlaced}
use wc_fixture.Core.Fixture.Invariant.{IsConsistent, open_no_match, all_groups_complete-write}
use wc_fixture.Core.Fixture.Shape.{write_match-round_sizes}
use wc_fixture.Core.Fixture.Stranded.{IsUnfinished, IsStrandedMatch}
use wc_fixture.Core.Fixture.Reschedule.{
  Taken, refused, moved_in_group, moved_in_round, rescheduled_in_group, rescheduled_in_round,
  update_match_schedule-Taken,
}

module _ (env : Runtime) (f : Fixture) (id : Uuid) (at : Time) (venue : Uuid) where
  reschedule-IsGroup :
      (g : Group) (c : Cursor Match)
      → find_match g id ≡ some c
      → IsGroup g
      → IsGroup (record g { matches = write c (reschedule at venue c.here) })
  unfolding find_match completed_match_count
  reschedule-IsGroup g c k h =
      let place = (find-IsFirst _ g.matches c k).place in
      let m = reschedule at venue c.here in
      let same : is_completed m ≡ is_completed c.here = unfold reschedule is_completed in refl in
      record {
        six = length-write g.matches c m place ∙ h.six;
        status_exact =
            h.status_exact
            ∙ ap status_after (sym (count_completed-write_same g.matches c m place same));
      }

  rescheduled_in_group-IsConsistent :
      (g : Cursor Group) (c : Cursor Match)
      → find_group_by_match f.groups id ≡ some g
      → find_match g.here id ≡ some c
      → IsConsistent f
      → IsConsistent (rescheduled_in_group env id at venue g c f)
  unfolding find_group_by_match after_reschedule write_in_group append_event
  rescheduled_in_group-IsConsistent g c h k i =
      let place = (find-IsFirst (λ x. is_some (find_match x id)) f.groups g h).place in
      let old = g.here in
      let new = record old { matches = write c (reschedule at venue c.here) } in
      record {
        groups_ok =
            All-write IsGroup f.groups g new place i.groups_ok
              (reschedule-IsGroup old c k (All-here IsGroup f.groups g place i.groups_ok));
        stage_exact = all_groups_complete-write f _ g new place refl refl ∙ i.stage_exact;
        no_rounds = i.no_rounds;
        bracket = i.bracket;
      }

  rescheduled_in_group-IsUnfinished :
      (g : Cursor Group) (c : Cursor Match)
      → IsUnfinished f
      → IsUnfinished (rescheduled_in_group env id at venue g c f)
  unfolding after_reschedule write_in_group append_event
  rescheduled_in_group-IsUnfinished g c i = record { running = i.running; stranded = i.stranded }

  rescheduled_in_round-IsConsistent :
      (p : MatchPointer)
      → find_knockout_match f.knockout_rounds id ≡ some p
      → IsConsistent f
      → IsConsistent (rescheduled_in_round env id at venue p f)
  unfolding after_reschedule append_event find_knockout_match
  rescheduled_in_round-IsConsistent p h i = record {
    groups_ok = i.groups_ok;
    stage_exact = all_groups_complete-groups _ f refl ∙ i.stage_exact;
    no_rounds = λ o. absurd (cc (open_no_match id f p i h));
    bracket = λ o.
        write_match-round_sizes _ f.knockout_rounds p _
          (find_in_rounds-IsPlaced _ f.knockout_rounds p h)
        ∙ i.bracket o;
  }

  rescheduled_in_round-IsUnfinished :
      (p : MatchPointer)
      → find_knockout_match f.knockout_rounds id ≡ some p
      → IsUnfinished f
      → IsUnfinished (rescheduled_in_round env id at venue p f)
  unfolding after_reschedule append_event find_knockout_match reschedule both_slots_resolved
  rescheduled_in_round-IsUnfinished p h i =
      let k = find_in_rounds-IsPlaced _ f.knockout_rounds p h in
      record {
        running = i.running;
        stranded =
            AllMatches-write IsStrandedMatch _ f.knockout_rounds p k i.stranded _
              (AllMatches-here IsStrandedMatch _ f.knockout_rounds p k i.stranded);
      }

  pub update_match_schedule-IsConsistent :
      IsConsistent f → IsConsistent (update_match_schedule env f id at venue).0
  update_match_schedule-IsConsistent i = go (update_match_schedule-Taken env f id at venue)
    where
      go :
          Taken env f id at venue (update_match_schedule env f id at venue)
          → IsConsistent (update_match_schedule env f id at venue).0
      go (refused e q) = rw q i
      go (moved_in_group g c h k d q) = rw q (rescheduled_in_group-IsConsistent g c h k i)
      go (moved_in_round p h d q) = rw q (rescheduled_in_round-IsConsistent p h i)

  pub update_match_schedule-IsUnfinished :
      IsUnfinished f → IsUnfinished (update_match_schedule env f id at venue).0
  update_match_schedule-IsUnfinished i = go (update_match_schedule-Taken env f id at venue)
    where
      go :
          Taken env f id at venue (update_match_schedule env f id at venue)
          → IsUnfinished (update_match_schedule env f id at venue).0
      go (refused e q) = rw q i
      go (moved_in_group g c h k d q) = rw q (rescheduled_in_group-IsUnfinished g c i)
      go (moved_in_round p h d q) = rw q (rescheduled_in_round-IsUnfinished p h i)
