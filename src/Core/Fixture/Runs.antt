-- ===== src/Core/Fixture/Runs.antt =====
-- Runs of the aggregate: any number of commands, in any order, with any arguments and answers of
-- the environment.
use wc_fixture.Base.{Uuid, Time, ◌≡◌, [], false}
use wc_fixture.Core.Result.{MatchResult}
use wc_fixture.Core.Fixture.{Fixture, Runtime, is_finished, drain_events}
use wc_fixture.Core.Fixture.Register.{register_match_result}
use wc_fixture.Core.Fixture.Schedule.{update_match_schedule}
use wc_fixture.Core.Fixture.Invariant.{
  IsConsistent, drain-IsConsistent, register_match_result-IsConsistent,
}
use wc_fixture.Core.Fixture.Stranded.{IsUnfinished, register_match_result-IsUnfinished}
use wc_fixture.Core.Fixture.Kept.{
  update_match_schedule-IsConsistent, update_match_schedule-IsUnfinished,
}

-- One command; `PendingEvents` is one as well, since it clears the events.
pub data Step (f : Fixture) : Fixture → Type 0 where
  register :
      (env : Runtime) (id : Uuid) (r : MatchResult) → Step f (register_match_result env f id r).0
  update_schedule :
      (env : Runtime) (id : Uuid) (at : Time) (venue : Uuid)
      → Step f (update_match_schedule env f id at venue).0
  drain : Step f (drain_events f).0

pub data Reach (f : Fixture) : Fixture → Type 0 where
  here : Reach f f
  next : {g h : Fixture} → Reach f g → Step g h → Reach f h

Step-IsConsistent : {f g : Fixture} → Step f g → IsConsistent f → IsConsistent g
unfolding drain_events
Step-IsConsistent {f} (register env id r) h = register_match_result-IsConsistent env f id r h
Step-IsConsistent {f} (update_schedule env id at venue) h =
    update_match_schedule-IsConsistent env f id at venue h
Step-IsConsistent {f} drain h = drain-IsConsistent f h

Step-IsUnfinished : {f g : Fixture} → Step f g → IsUnfinished f → IsUnfinished g
unfolding drain_events
Step-IsUnfinished {f} (register env id r) h = register_match_result-IsUnfinished env f id r h
Step-IsUnfinished {f} (update_schedule env id at venue) h =
    update_match_schedule-IsUnfinished env f id at venue h
Step-IsUnfinished {f} drain h = record { running = h.running; stranded = h.stranded }

-- Every run from a consistent aggregate ends in one: its groups have six matches and the status of
-- their completed matches, there is no knockout round while some group is open, and from then on
-- there are the five rounds with sixteen, eight, four, one and one matches.
pub Reach-IsConsistent : {f g : Fixture} → IsConsistent f → Reach f g → IsConsistent g
Reach-IsConsistent h here = h
Reach-IsConsistent h (next r s) = Step-IsConsistent s (Reach-IsConsistent h r)

Reach-IsUnfinished : {f g : Fixture} → IsUnfinished f → Reach f g → IsUnfinished g
Reach-IsUnfinished h here = h
Reach-IsUnfinished h (next r s) = Step-IsUnfinished s (Reach-IsUnfinished h r)

-- From an aggregate without a bracket that is not finished, no run finishes the tournament.
pub Reach-not_finished :
    {f g : Fixture}
    → f.knockout_rounds ≡ []
    → is_finished f.status ≡ false
    → Reach f g
    → is_finished g.status ≡ false
Reach-not_finished e n r =
    (Reach-IsUnfinished (record { running = n; stranded = rw e tt }) r).running
