-- ===== src/Examples/Ingestion.antt =====
-- The theorems on result-ingestion, applied to a codec that writes a number in strokes and to the
-- store in memory.
use Prim.Native.Char.{nul}
use Prim.Native.String as Str
use wc_fixture.Base.{
  ℕ, zero, suc, ◌+◌, ◌*◌, ◌^◌, String, text, ◌≡◌, refl, ap, arith, Option, none, some, List, [],
  ◌∷◌,
}
use wc_fixture.Shared.AppErrors.{err_unavailable}
use wc_fixture.App.Results.{validate_result_cmd}
use wc_fixture.Ingest.Result.{IngestedResult, Key, validate}
use wc_fixture.Ingest.Handler.{
  Failure, Codec, Clock, IngestResultCmd, IngestedEvent, accepted, parse_result, handle_ingest,
  build_event,
}
use wc_fixture.Ingest.Consumer.{build_register_cmd}
use wc_fixture.Ingest.Idempotence.{memory_ports, handle_ingest-again}
use wc_fixture.Ingest.Pipeline.{IsCodec, to_seconds, command_of, validate-accepted_downstream}

unfoldable pub strokes : ℕ → String
strokes zero = Str.[]
strokes (suc n) = Str.◌∷◌ nul (strokes n)

unfoldable pub count_strokes : String → ℕ
count_strokes Str.[] = 0
count_strokes (Str.◌∷◌ c s) = suc (count_strokes s)

count_strokes-strokes : (n : ℕ) → count_strokes (strokes n) ≡ n
unfolding strokes count_strokes
count_strokes-strokes zero = refl
count_strokes-strokes (suc n) = ap suc (count_strokes-strokes n)

abbrev pub stroke_codec : Codec
stroke_codec = record {
  parse_uuid = λ s. some (count_strokes s);
  print_uuid = strokes;
  parse_time = λ s. some (count_strokes s);
  print_time = λ t. strokes (to_seconds t);
}

stroke_codec-IsCodec : IsCodec stroke_codec
stroke_codec-IsCodec = record {
  uuid_printed = λ u. ap some (count_strokes-strokes u);
  time_printed = λ t. ap some (count_strokes-strokes (to_seconds t));
}

abbrev noon : Clock
noon = record { now = 9 * 10 ^ 9; result_id = 500; event_id = 501 }

abbrev evening : Clock
evening = record { now = 10 * 10 ^ 9; result_id = 502; event_id = 503 }

abbrev played : IngestedResult
played = record {
  id = 500;
  tournament_id = 92;
  match_id = 11;
  home_team_id = 1;
  away_team_id = 2;
  home_goals = 1;
  away_goals = 1;
  home_goals_et = some 0;
  away_goals_et = some 0;
  home_goals_pen = some 3;
  away_goals_pen = some 4;
  completed_at = 8 * 10 ^ 9;
  ingested_at = 9 * 10 ^ 9;
  source = "manual";
}

played_valid : validate noon.now played ≡ none
unfolding validate wc_fixture.Base.Int.rank wc_fixture.Ingest.Result.validate_extra_time
    wc_fixture.Ingest.Result.validate_end wc_fixture.Ingest.Result.validate_penalties
    wc_fixture.Ingest.Result.validate_both_penalties
played_valid = refl

validate-accepted_downstream_example :
    (build_register_cmd stroke_codec (build_event stroke_codec noon played).payload
      ≡ some (command_of played))
    × (validate_result_cmd (command_of played) ≡ none)
validate-accepted_downstream_example =
    validate-accepted_downstream stroke_codec noon played stroke_codec-IsCodec played_valid
      (omega arith)

abbrev pub scored : IngestResultCmd
scored = record {
  tournament_id = "xxxx";
  match_id = "xxx";
  home_team_id = "x";
  away_team_id = "xx";
  home_goals = 2;
  away_goals = 1;
  home_goals_et = none;
  away_goals_et = none;
  home_goals_pen = none;
  away_goals_pen = none;
  completed_at = "x";
  source = "";
}

abbrev scored_result : IngestedResult
scored_result = record {
  id = 500;
  tournament_id = 4;
  match_id = 3;
  home_team_id = 1;
  away_team_id = 2;
  home_goals = 2;
  away_goals = 1;
  home_goals_et = none;
  away_goals_et = none;
  home_goals_pen = none;
  away_goals_pen = none;
  completed_at = 1;
  ingested_at = 9 * 10 ^ 9;
  source = "manual";
}

scored_parsed : parse_result stroke_codec noon scored ≡ accepted scored_result
unfolding parse_result validate count_strokes wc_fixture.Base.Int.rank
    wc_fixture.Ingest.Result.validate_extra_time wc_fixture.Ingest.Result.validate_end
scored_parsed = refl

-- A broker that is down.
abbrev down : List IngestedEvent → IngestedEvent → List IngestedEvent × Option Failure
down s e = (s, some (err_unavailable (text "down")))

handle_ingest-again_example :
    handle_ingest stroke_codec
      (memory_ports down)
      evening
      scored
      (handle_ingest stroke_codec (memory_ports down) noon scored ([], [])).0
    ≡ ((handle_ingest stroke_codec (memory_ports down) noon scored ([], [])).0, none)
handle_ingest-again_example =
    handle_ingest-again stroke_codec down noon evening scored scored_result ([], []) (omega arith)
      scored_parsed
