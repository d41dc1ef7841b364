-- ===== src/Ingest/Pipeline.antt =====
-- From result-ingestion to fixture-core: what becomes of an accepted result.
use wc_fixture.Base.{
  ℕ, ◌-◌, ◌%◌, ◌^◌, ◌≤◌, Uuid, Time, ◌≡◌, refl, arith, false, Option, none, some, ◌==◌,
}
use wc_fixture.App.Results.{
  RegisterMatchResultCmd, validate_result_cmd, validate_decision, neg_goals,
}
use wc_fixture.App.Results as Results
use wc_fixture.Ingest.Result as Result
use wc_fixture.Ingest.Result.{
  IngestedResult, validate, validate_end, validate_extra_time, validate_both_penalties,
}
use wc_fixture.Ingest.Handler.{Codec, Clock, build_event}
use wc_fixture.Ingest.Consumer.{build_register_cmd}

abbrev pub to_seconds : Time → Time
to_seconds t = t - t % 10 ^ 9

-- What the documentation of `uuid` and `time` promises: a printed id is parsed again, and a time
-- printed with RFC3339 without what it has below a second.
pub record IsCodec (codec : Codec) : Type 0 where
  pub uuid_printed : (u : Uuid) → codec.parse_uuid (codec.print_uuid u) ≡ some u
  pub time_printed : (t : Time) → codec.parse_time (codec.print_time t) ≡ some (to_seconds t)

-- The command that fixture-core makes of a result.
abbrev pub command_of : IngestedResult → RegisterMatchResultCmd
command_of r = record {
  tournament_id = r.tournament_id;
  match_id = r.match_id;
  home_goals = r.home_goals;
  away_goals = r.away_goals;
  home_goals_et = r.home_goals_et;
  away_goals_et = r.away_goals_et;
  home_goals_pen = r.home_goals_pen;
  away_goals_pen = r.away_goals_pen;
  home_team_id = r.home_team_id;
  away_team_id = r.away_team_id;
  completed_at = to_seconds r.completed_at;
  registered_by = r.source;
}

build_register_cmd-build_event :
    (codec : Codec) (clock : Clock) (r : IngestedResult)
    → IsCodec codec
    → build_register_cmd codec (build_event codec clock r).payload ≡ some (command_of r)
unfolding build_register_cmd build_event
build_register_cmd-build_event codec clock r l =
    rw (l.uuid_printed r.tournament_id, build_register_cmd)
      (rw (l.uuid_printed r.match_id) (
        rw (l.uuid_printed r.home_team_id)
          (rw (l.uuid_printed r.away_team_id) (rw (l.time_printed r.completed_at) refl))))

extra_time-neg_goals :
    (h a : Option ℕ)
    → validate_extra_time h a ≡ none
    → (neg_goals h ≡ false) × (neg_goals a ≡ false)
unfolding validate_extra_time
extra_time-neg_goals h a e = ground arith

penalties-penalties :
    (h a p q : Option ℕ)
    → Result.validate_penalties h a p q ≡ none
    → Results.validate_penalties h a p q ≡ none
unfolding Result.validate_penalties Results.validate_penalties validate_both_penalties
penalties-penalties h a p q e = ground arith

validate_end-validate_decision :
    (now : Time) (r : IngestedResult)
    → validate_end now r ≡ none
    → (to_seconds r.completed_at == 0) ≡ false
    → validate_decision (command_of r) ≡ none
unfolding validate_end validate_decision
validate_end-validate_decision now r e t =
    let p = penalties-penalties r.home_goals_et r.away_goals_et r.home_goals_pen r.away_goals_pen in
    ground (arith, p)

validate-parts :
    (now : Time) (r : IngestedResult)
    → validate now r ≡ none
    → (validate_extra_time r.home_goals_et r.away_goals_et ≡ none) × (validate_end now r ≡ none)
unfolding validate
validate-parts now r e = ground arith

validate-validate_result_cmd :
    (now : Time) (r : IngestedResult)
    → validate now r ≡ none
    → (to_seconds r.completed_at == 0) ≡ false
    → validate_result_cmd (command_of r) ≡ none
unfolding validate validate_result_cmd
validate-validate_result_cmd now r e t =
    let (x, y) = validate-parts now r e in
    let (h, a) = extra_time-neg_goals r.home_goals_et r.away_goals_et x in
    let d = validate_end-validate_decision now r y t in ground (arith, h, a, d)

-- A result that result-ingestion accepts, completed a second or more after the zero time, becomes an
-- event from whose payload the consumer in fixture-core builds a command with the same teams and
-- goals, which the validation of that command accepts.
pub validate-accepted_downstream :
    (codec : Codec) (clock : Clock) (r : IngestedResult)
    → IsCodec codec
    → validate clock.now r ≡ none
    → 10 ^ 9 ≤ r.completed_at
    → (build_register_cmd codec (build_event codec clock r).payload ≡ some (command_of r))
      × (validate_result_cmd (command_of r) ≡ none)
validate-accepted_downstream codec clock r l e late = (
  build_register_cmd-build_event codec clock r l,
  validate-validate_result_cmd clock.now r e (ground arith),
)
