-- ===== src/Ingest/Consumer.antt =====
-- `ResultConsumer` of contexts/fixture-core/internal/infrastructure/nats/result_consumer.go: one
-- message, from its data to its acknowledgement.
use wc_fixture.Base.{ℕ, ◌*◌, ◌^◌, Option, none, some, List, [], ◌∷◌, get_elem?}
use wc_fixture.Core.Fixture.{Runtime}
use wc_fixture.App.Ports.{Ports, Response}
use wc_fixture.App.Results.{RegisterMatchResultCmd}
use wc_fixture.App.Handlers.{handle_register}
use wc_fixture.Ingest.Handler.{Codec, ResultIngestedPayload}

-- `none` is an error: the payload names no ids or no time.
unfoldable pub build_register_cmd : Codec → ResultIngestedPayload → Option RegisterMatchResultCmd
build_register_cmd codec p = elim (codec.parse_uuid p.tournament_id) [
  | none ↦ none
  | some t ↦ elim (codec.parse_uuid p.match_id) [
    | none ↦ none
    | some m ↦ elim (codec.parse_uuid p.home_team_id) [
      | none ↦ none
      | some h ↦ elim (codec.parse_uuid p.away_team_id) [
        | none ↦ none
        | some a ↦ elim (codec.parse_time p.completed_at) [
          | none ↦ none
          | some at ↦ some (record {
            tournament_id = t;
            match_id = m;
            home_goals = p.home_goals;
            away_goals = p.away_goals;
            home_goals_et = p.home_goals_et;
            away_goals_et = p.away_goals_et;
            home_goals_pen = p.home_goals_pen;
            away_goals_pen = p.away_goals_pen;
            home_team_id = h;
            away_team_id = a;
            completed_at = at;
            registered_by = p.registered_by;
          })
        ]
      ]
    ]
  ]
]

-- What `encoding/json` makes of the data of a message: no envelope, an envelope without such a
-- payload, or the payload.
pub data MessageData : Type 0 where
  malformed : MessageData
  no_payload : MessageData
  payload : ResultIngestedPayload → MessageData

-- The calls on a message, in their order.
pub data Signal : Type 0 where
  ack nak : Signal

-- `processMessage`, then the `NakWithDelay` of the loop in `Start` when it returned an error.
-- A panic in the handler ends the process, with the world `s` as the load left it.
abbrev pub after_handler : {S : Type 0} → S → Option (Response S) → S × List Signal
after_handler s none = (s, [])
after_handler s (some (t, none)) = (t, ack ∷ [])
after_handler s (some (t, some e)) = (t, nak ∷ [])

unfoldable pub consume :
    {S : Type 0} → Ports S → Codec → Runtime → MessageData → S → S × List Signal
consume ports codec env malformed s = (s, ack ∷ nak ∷ [])
consume ports codec env no_payload s = (s, ack ∷ [])
consume ports codec env (payload p) s = elim (build_register_cmd codec p) [
  | none ↦ (s, ack ∷ [])
  | some c ↦ after_handler (ports.get s c.tournament_id).0 (handle_register ports env c s)
]

abbrev pub or_last : Option ℕ → ℕ
or_last none = 60
or_last (some n) = n

-- `backoffDelay`, in nanoseconds; `none` is an error of `Metadata`.
unfoldable pub backoff_delay : Option ℕ → ℕ
backoff_delay none = 60 * 10 ^ 9
backoff_delay (some delivered) = or_last (get_elem? (1 ∷ 5 ∷ 15 ∷ 30 ∷ 60 ∷ []) delivered) * 10 ^ 9
