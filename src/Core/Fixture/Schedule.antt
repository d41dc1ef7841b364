-- ===== src/Core/Fixture/Schedule.antt =====
-- `UpdateMatchSchedule` of contexts/fixture-core/internal/domain/fixture/fixture.go.
use wc_fixture.Base.{Uuid, Time, Option, none, some, if◌then◌else◌}
use wc_fixture.Base.Cursor.{Cursor, write}
use wc_fixture.Core.Errors.{DomainError, err_match_not_found, err_match_already_completed}
use wc_fixture.Core.Match.{Match, is_completed}
use wc_fixture.Core.Group.{Group, find_match}
use wc_fixture.Core.Events.{match_schedule_updated, schedule_updated}
use wc_fixture.Core.Fixture.{
  Fixture, Runtime, MatchPointer, append_event, find_group_by_match, find_knockout_match,
  write_match,
}
use wc_fixture.Core.Fixture.Register.{bump_version}

-- What `findAnyMatch` points to: a match of a group, or one of a knockout round.
pub data AnyMatch : Type 0 where
  nowhere : AnyMatch
  in_group : Cursor Group → Cursor Match → AnyMatch
  in_round : MatchPointer → AnyMatch

abbrev pub any_in_group : Cursor Group → Option (Cursor Match) → AnyMatch
any_in_group g none = nowhere
any_in_group g (some c) = in_group g c

abbrev pub any_in_round : Option MatchPointer → AnyMatch
any_in_round none = nowhere
any_in_round (some p) = in_round p

unfoldable pub find_any_match : Fixture → Uuid → AnyMatch
find_any_match f id = elim (find_group_by_match f.groups id) [
  | some g ↦ any_in_group g (find_match g.here id)
  | none ↦ any_in_round (find_knockout_match f.knockout_rounds id)
]

unfoldable pub reschedule : Time → Uuid → Match → Match
reschedule at venue m = record m { scheduled_at = at; venue_id = venue }

-- The event and the version, once the match `m` has been changed.
unfoldable pub after_reschedule : Runtime → Uuid → Time → Uuid → Match → Fixture → Fixture
after_reschedule env id at venue m f = bump_version (
    append_event env f match_schedule_updated (
      schedule_updated (record {
        match_id = id;
        old_scheduled_at = m.scheduled_at;
        new_scheduled_at = at;
        old_venue_id = m.venue_id;
        new_venue_id = venue;
        updated_at = env.now;
      })))

unfoldable pub write_in_group : Cursor Group → Cursor Match → Match → Fixture → Fixture
write_in_group g c m f =
    let h = g.here in record f { groups = write g (record h { matches = write c m }) }

unfoldable pub reschedule_found :
    Runtime → Fixture → Uuid → Time → Uuid → AnyMatch → Fixture × Option DomainError
reschedule_found env f id at venue nowhere = (f, some (err_match_not_found id))
reschedule_found env f id at venue (in_group g c) =
    if is_completed c.here then (f, some (err_match_already_completed id)) else (
      after_reschedule env id at venue c.here (write_in_group g c (reschedule at venue c.here) f),
      none,
    )
reschedule_found env f id at venue (in_round p) =
    if is_completed p.match.here then (f, some (err_match_already_completed id)) else (
      after_reschedule env id at venue p.match.here
          (record f { knockout_rounds = write_match p (reschedule at venue p.match.here) }),
      none,
    )

unfoldable pub update_match_schedule :
    Runtime → Fixture → Uuid → Time → Uuid → Fixture × Option DomainError
update_match_schedule env f id at venue = reschedule_found env f id at venue (find_any_match f id)
