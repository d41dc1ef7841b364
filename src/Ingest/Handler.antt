-- ===== src/Ingest/Handler.antt =====
-- `IngestResultHandler` of contexts/result-ingestion/internal/application/commands/ingest_result.go
-- with the validator of contexts/result-ingestion/internal/domain/result/validator.go, and the
-- `MemoryStore` of contexts/result-ingestion/internal/infrastructure/idempotency/postgres_store.go.
use package.text.Mathlib.Text.{◌==◌ as str_eq}
use wc_fixture.Base.{
  ℕ, Uuid, Time, String, text, sprintf, sprintf₃, uuid_arg, int_arg, message_arg, Bool, true, false,
  Option, none, some, List, [], ◌∷◌, ◌||◌, if◌then◌else◌,
}
use wc_fixture.Shared.AppErrors.{
  Error, domain, as_domain, err_validation, err_conflict, err_unavailable,
}
use wc_fixture.Ingest.Result.{
  DomainError, ErrCode, IngestedResult, Key, same_key, validate, build_idempotency_key, err,
  invalid_tournament, invalid_match_id, invalid_teams, future_completed_at, duplicate_ingestion,
}

abbrev pub Failure : Type 0
Failure = Error DomainError

-- `uuid.Parse` and `String`, and `time.Parse` and `Format` with the layout RFC3339.
pub record Codec : Type 0 where
  pub parse_uuid : String → Option Uuid
  pub print_uuid : Uuid → String
  pub parse_time : String → Option Time
  pub print_time : Time → String

-- One reading of the clock, and the ids that `uuid.New` returns for the result and its event.
pub record Clock : Type 0 where
  pub now : Time
  pub result_id : Uuid
  pub event_id : Uuid

pub record IngestResultCmd : Type 0 where
  pub tournament_id : String
  pub match_id : String
  pub home_team_id : String
  pub away_team_id : String
  pub home_goals : ℕ
  pub away_goals : ℕ
  pub home_goals_et : Option ℕ
  pub away_goals_et : Option ℕ
  pub home_goals_pen : Option ℕ
  pub away_goals_pen : Option ℕ
  pub completed_at : String
  pub source : String

-- The payload of the event `ResultIngested`, which both contexts declare.
pub record ResultIngestedPayload : Type 0 where
  pub tournament_id : String
  pub match_id : String
  pub home_team_id : String
  pub away_team_id : String
  pub home_goals : ℕ
  pub away_goals : ℕ
  pub home_goals_et : Option ℕ
  pub away_goals_et : Option ℕ
  pub home_goals_pen : Option ℕ
  pub away_goals_pen : Option ℕ
  pub completed_at : String
  pub registered_by : String

pub record IngestedEvent : Type 0 where
  pub event_id : Uuid
  pub event_type : String
  pub occurred_at : Time
  pub aggregate_id : Uuid
  pub aggregate_type : String
  pub payload : ResultIngestedPayload

-- `Exists` and `Register` of the store, and `Publish`; an error of `Exists` comes with `false`.
pub record IngestPorts (S : Type 0) : Type 0 where
  pub exists : S → Key → S × Bool
  pub register : S → Key → S × Option Failure
  pub publish : S → IngestedEvent → S × Option Failure

pub data New : Type 0 where
  refused : DomainError → New
  accepted : IngestedResult → New

-- The result that `ValidateIDs`, `ValidateCompletedAt` and the start of `result.New` build.
abbrev pub result_of : Clock → IngestResultCmd → Uuid → Uuid → Uuid → Uuid → Time → IngestedResult
result_of clock c t m h a at = record {
  id = clock.result_id;
  tournament_id = t;
  match_id = m;
  home_team_id = h;
  away_team_id = a;
  home_goals = c.home_goals;
  away_goals = c.away_goals;
  home_goals_et = c.home_goals_et;
  away_goals_et = c.away_goals_et;
  home_goals_pen = c.home_goals_pen;
  away_goals_pen = c.away_goals_pen;
  completed_at = at;
  ingested_at = clock.now;
  source = if str_eq c.source "" then "manual" else c.source;
}

abbrev pub or_refused : Option DomainError → IngestedResult → New
or_refused (some e) r = refused e
or_refused none r = accepted r

-- The first five steps of `Handle`: four ids, the date, and the rules of the domain.
unfoldable pub parse_result : Codec → Clock → IngestResultCmd → New
parse_result codec clock c = elim (codec.parse_uuid c.tournament_id) [
  | none ↦ refused (err invalid_tournament "tournament_id no es un UUID válido")
  | some t ↦ elim (codec.parse_uuid c.match_id) [
    | none ↦ refused (err invalid_match_id "match_id no es un UUID válido")
    | some m ↦ elim (codec.parse_uuid c.home_team_id) [
      | none ↦ refused (err invalid_teams "home_team_id no es un UUID válido")
      | some h ↦ elim (codec.parse_uuid c.away_team_id) [
        | none ↦ refused (err invalid_teams "away_team_id no es un UUID válido")
        | some a ↦ elim (codec.parse_time c.completed_at) [
          | none ↦ refused (
              err future_completed_at
                "completed_at inválido: use formato RFC3339 (ej: 2026-06-15T20:30:00Z)")
          | some at ↦ let r = result_of clock c t m h a at in or_refused (validate clock.now r) r
        ]
      ]
    ]
  ]
]

unfoldable pub build_event : Codec → Clock → IngestedResult → IngestedEvent
build_event codec clock r = record {
  event_id = clock.event_id;
  event_type = "ResultIngested";
  occurred_at = clock.now;
  aggregate_id = r.tournament_id;
  aggregate_type = "IngestedResult";
  payload = record {
    tournament_id = codec.print_uuid r.tournament_id;
    match_id = codec.print_uuid r.match_id;
    home_team_id = codec.print_uuid r.home_team_id;
    away_team_id = codec.print_uuid r.away_team_id;
    home_goals = r.home_goals;
    away_goals = r.away_goals;
    home_goals_et = r.home_goals_et;
    away_goals_et = r.away_goals_et;
    home_goals_pen = r.home_goals_pen;
    away_goals_pen = r.away_goals_pen;
    completed_at = codec.print_time r.completed_at;
    registered_by = r.source;
  };
}

unfoldable pub map_ingest_error : DomainError → Failure
map_ingest_error e = elim e.code [
  | duplicate_ingestion ↦ err_conflict e.message
  | _ ↦ err_validation e.message
]

abbrev pub is_duplicate_code : ErrCode → Bool
is_duplicate_code duplicate_ingestion = true
is_duplicate_code _ = false

-- `errors.As(err, &de) && de.Code == ErrCodeDuplicateIngestion`
unfoldable pub is_duplicate : Failure → Bool
is_duplicate e = elim (as_domain e) [ none ↦ false | some d ↦ is_duplicate_code d.code ]

module _ {S : Type 0} (codec : Codec) (ports : IngestPorts S) where
  -- Step 5 of `Handle`.
  unfoldable pub publish_result : Clock → IngestedResult → S → S × Option Failure
  publish_result clock r s =
      let (t, e) = ports.publish s (build_event codec clock r) in
      elim e [
        | none ↦ (t, none)
        | some _ ↦ (
          t,
          some (
              err_unavailable (
                sprintf "error publicando resultado del partido %s en NATS" (uuid_arg r.match_id))),
        )
      ]

  -- Step 4: only a duplicate stops the handler, any other error is logged.
  unfoldable pub register_and_publish : Clock → IngestedResult → S → S × Option Failure
  register_and_publish clock r s =
      let (t, e) = ports.register s (build_idempotency_key r) in
      elim e [
        | none ↦ publish_result clock r t
        | some e ↦ if is_duplicate e then (t, none) else publish_result clock r t
      ]

  -- Steps 3 to 5.
  unfoldable pub ingest : Clock → IngestedResult → S → S × Option Failure
  ingest clock r s =
      let (t, known) = ports.exists s (build_idempotency_key r) in
      if known then (t, none) else register_and_publish clock r t

  unfoldable pub handle_ingest : Clock → IngestResultCmd → S → S × Option Failure
  handle_ingest clock c s = elim (parse_result codec clock c) [
    | refused e ↦ (s, some (map_ingest_error e))
    | accepted r ↦ ingest clock r s
  ]

-- `MemoryStore`: the keys that are registered, the latest first.
unfoldable pub memory_exists : List Key → Key → Bool
memory_exists [] k = false
memory_exists (l ∷ rest) k = same_key l k || memory_exists rest k

unfoldable pub memory_register : List Key → Key → List Key × Option Failure
memory_register keys k =
    if memory_exists keys k
    then (
      keys,
      some (
          domain (record {
            code = duplicate_ingestion;
            message = sprintf "ya existe una ingesta para el partido %q — ignorando duplicado" (
                message_arg
                  (sprintf₃ "%s:%d:%d" (uuid_arg k.match) (int_arg k.home) (int_arg k.away)));
          })),
    )
    else (k ∷ keys, none)
