-- ===== src/Publish.antt =====
-- The events on the way out: contexts/fixture-core/internal/infrastructure/nats/event_publisher.go
-- and subjects.go of shared/pkg/events. `W` is the world of the broker.
use wc_fixture.Base.{
  ℕ, String, Message, sprintf, sprintf₂, sprintf₃, string_arg, int_arg, message_arg, length, Option,
  none, some, List, [], ◌∷◌, ◌++◌, ◌≡◌, ◌⊎◌, inl, inr, refl, ap, Option-cases,
}
use wc_fixture.Shared.AppErrors.{plain, wrapped, err_unavailable}
use wc_fixture.Core.Events.{DomainEvent, EventType, event_type_text}
use wc_fixture.App.Ports.{Failure}

pub data Subject : Type 0 where
  match_result_registered group_stage_completed knockout_bracket_generated knockout_match_advanced
        match_schedule_updated tournament_finished result_ingested :
      Subject

unfoldable pub subject_text : Subject → String
subject_text match_result_registered = "fixture.match.result_registered"
subject_text group_stage_completed = "fixture.group.stage_completed"
subject_text knockout_bracket_generated = "fixture.knockout.bracket_generated"
subject_text knockout_match_advanced = "fixture.knockout.match_advanced"
subject_text match_schedule_updated = "fixture.match.schedule_updated"
subject_text tournament_finished = "fixture.tournament.finished"
subject_text result_ingested = "fixture.result.ingested"

-- `subjectForEventType`; the event types that the domain declares all have a subject.
unfoldable pub subject_for_event_type : EventType → Subject
subject_for_event_type EventType.tournament_initialized = match_result_registered
subject_for_event_type EventType.match_result_registered = match_result_registered
subject_for_event_type EventType.group_stage_completed = group_stage_completed
subject_for_event_type EventType.knockout_bracket_generated = knockout_bracket_generated
subject_for_event_type EventType.knockout_match_advanced = knockout_match_advanced
subject_for_event_type EventType.match_schedule_updated = match_schedule_updated
subject_for_event_type EventType.tournament_finished = tournament_finished

pub data Marshalled : Type 0 where
  bytes : String → Marshalled
  not_marshalled : Message → Marshalled

-- What the publisher is given: `json.Marshal`, which answers with the text or with its error, and
-- `Publish` of JetStream, which answers with its error or acknowledges.
pub record Broker (W : Type 0) : Type 0 where
  pub marshal : DomainEvent → Marshalled
  pub publish : W → Subject → String → W × Option Message

-- The error of `PublishAll`: the place that it names is 1 for every event.
unfoldable pub publish_failure : ℕ → DomainEvent → Failure → Failure
publish_failure total e x =
    wrapped
      (sprintf₃ "nats_publisher: fallo al publicar evento %d/%d (%s)" (int_arg 1) (int_arg total)
        (string_arg (event_type_text e.event_type)))
      x

module _ {W : Type 0} (broker : Broker W) where
  abbrev pub acknowledged : EventType → W × Option Message → W × Option Failure
  acknowledged t (w, none) = (w, none)
  acknowledged t (w, some m) = (
    w,
    some (
        err_unavailable (
          sprintf₂ "nats_publisher: error publicando %q: %v" (string_arg (event_type_text t))
            (message_arg m))),
  )

  unfoldable pub publish : W → DomainEvent → W × Option Failure
  publish w e = elim (broker.marshal e) [
    | not_marshalled m ↦ (
      w,
      some (
          wrapped
            (sprintf "nats_publisher: error serializando evento %q"
              (string_arg (event_type_text e.event_type)))
            (plain m)),
    )
    | bytes b ↦ acknowledged e.event_type (broker.publish w (subject_for_event_type e.event_type) b)
  ]

  -- The loop of `PublishAll`; `total` is `len(evts)`.
  unfoldable pub publish_each : ℕ → W → List DomainEvent → W × Option Failure
  publish_each total w [] = (w, none)
  publish_each total w (e ∷ es) =
      let out = publish w e in
      let rest = publish_each total (out.0) es in
      elim (out.1) [ none ↦ rest | some x ↦ (out.0, some (publish_failure total e x)) ]

  unfoldable pub publish_all : W → List DomainEvent → W × Option Failure
  publish_all w es = publish_each (length es) w es

  -- The worlds that publishing these events leaves, each of them acknowledged.
  pub data Published : W → List DomainEvent → W → Type 0 where
    published_nil : {w : W} → Published w [] w
    published_cons :
        {w v : W} {e : DomainEvent} {es : List DomainEvent}
        → (publish w e).1 ≡ none
        → Published (publish w e).0 es v
        → Published w (e ∷ es) v

  publish_each-Published :
      (total : ℕ) (w : W) (es : List DomainEvent)
      → ((v : W) × Published w es v × (publish_each total w es ≡ (v, none)))
        ⊎ ((done : List DomainEvent) × (e : DomainEvent) × (rest : List DomainEvent) × (v : W)
            × (x : Failure) × (es ≡ done ++ e ∷ rest)
            × Published w done v
            × ((publish v e).1 ≡ some x)
            × (publish_each total w es ≡ ((publish v e).0, some (publish_failure total e x))))
  unfolding publish_each
  publish_each-Published total w [] = inl (w, published_nil, refl)
  publish_each-Published total w (e ∷ es) = elim (Option-cases (publish w e).1) [
    | inr (x, q) ↦ inr ([], e, es, w, x, refl, published_nil, q, rw (q, publish_each) refl)
    | inl q ↦ elim (publish_each-Published total (publish w e).0 es) [
      | inl (v, p, r) ↦ inl (v, published_cons q p, rw (q, r, publish_each) refl)
      | inr (done, f, rest, v, x, l, p, y, r) ↦ inr (
        e ∷ done,
        f,
        rest,
        v,
        x,
        ap (◌∷◌ e) l,
        published_cons q p,
        y,
        rw (q, r, publish_each) refl,
      )
    ]
  ]

  -- `PublishAll` either publishes all the events in their order, each acknowledged, and returns no
  -- error; or it publishes those before some event so, tries that one, and returns its error
  -- without trying any behind it.
  pub publish_all-Published :
      (w : W) (es : List DomainEvent)
      → ((v : W) × Published w es v × (publish_all w es ≡ (v, none)))
        ⊎ ((done : List DomainEvent) × (e : DomainEvent) × (rest : List DomainEvent) × (v : W)
            × (x : Failure) × (es ≡ done ++ e ∷ rest)
            × Published w done v
            × ((publish v e).1 ≡ some x)
            × (publish_all w es ≡ ((publish v e).0, some (publish_failure (length es) e x))))
  unfolding publish_all
  publish_all-Published w es = publish_each-Published (length es) w es
