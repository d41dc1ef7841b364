-- ===== src/Notify/Dispatcher.antt =====
-- The webhook dispatcher of contexts/notification/internal/infrastructure/webhook/dispatcher.go, the
-- event handlers of contexts/notification/internal/application/handlers, and the consumer of
-- contexts/notification/internal/infrastructure/nats/consumer.go. `W` is the world that the HTTP
-- client acts on.
use package.text.Mathlib.Text.{◌==◌ as str_eq}
use wc_fixture.Base.{
  ℕ, Uuid, Time, String, Message, text, sprintf, string_arg, not, ◌||◌, Option, none, some, List,
  [], ◌∷◌, ◌+◌, ltb, leb, ◌==◌, if◌then◌else◌,
}
use wc_fixture.Shared.AppErrors.{Error, domain, wrapped, plain}
use wc_fixture.Ingest.Consumer.{Signal, ack, nak}
use wc_fixture.Notify.Domain.{
  NotificationKind, match_result, bracket_generated, tournament_finished, DomainError,
  err_webhook_delivery_failed, Notification, new_notification, WebhookSubscriber, is_subscribed_to,
}

abbrev pub Failure : Type 0
Failure = Error DomainError

-- The request that `deliver` sends: its URL, its body, the id of the notification in
-- `X-WC-Delivery`, and the signature in `X-WC-Signature-256`, if there is one.
pub record Delivery : Type 0 where
  pub url : String
  pub body : String
  pub delivery_id : Uuid
  pub signature : Option String

-- What the HTTP client makes of a request: no request at all, no answer, or a status.
pub data Reply : Type 0 where
  no_request : Reply
  no_reply : Message → Reply
  status : ℕ → Reply

-- What the dispatcher is given: `http.Client.Do` (with `http.NewRequestWithContext`),
-- `FindByTournament` and the hexadecimal HMAC-SHA256 of a text under a secret.
pub record Services (W : Type 0) : Type 0 where
  pub post : W → Delivery → W × Reply
  pub find_by_tournament : W → Uuid → List WebhookSubscriber
  pub hmac : String → String → String

-- The error of a reply, for the subscriber of that URL.
unfoldable pub reply_error : String → Reply → Option Failure
reply_error url no_request = some (wrapped (text "error construyendo request") (plain (text "")))
reply_error url (no_reply m) =
    some (wrapped (sprintf "error en HTTP POST a %s" (string_arg url)) (plain m))
reply_error url (status code) =
    if ltb code 200 || leb 300 code
    then some (domain (err_webhook_delivery_failed url code))
    else none

-- `delivered` and `lastErr` of `Notify`.
pub record Tally : Type 0 where
  pub delivered : ℕ
  pub last_err : Option Failure

-- What the loop counts of one delivery.
abbrev pub add_outcome : Tally → Option Failure → Tally
add_outcome t (some e) = record t { last_err = some e }
add_outcome t none = record t { delivered = t.delivered + 1 }

-- The last error, only if no delivery succeeded.
unfoldable pub tally_error : Tally → Option Failure
tally_error t = if t.delivered == 0 then t.last_err else none

-- A domain event as the stream brings it; `json` is what `json.Marshal` makes of it.
pub record Envelope : Type 0 where
  pub event_type : String
  pub aggregate_id : Uuid
  pub json : Option String

-- The handlers that `NewEventDispatcher` registers, by the kind that each notifies of.
unfoldable pub kind_of : String → Option NotificationKind
kind_of event_type =
    if str_eq event_type "MatchResultRegistered"
    then some match_result
    else if str_eq event_type "GroupStageCompleted"
    then some match_result
    else if str_eq event_type "KnockoutBracketGenerated"
    then some bracket_generated
    else if str_eq event_type "KnockoutMatchAdvanced"
    then some match_result
    else if str_eq event_type "MatchScheduleUpdated"
    then some match_result
    else if str_eq event_type "TournamentFinished"
    then some tournament_finished
    else none

-- The id that `uuid.New` returns for a notification, and one reading of the clock.
pub record Stamp : Type 0 where
  pub id : Uuid
  pub now : Time

-- The signal that a dispatched message gets.
abbrev pub acknowledge : {W : Type 0} → W × Option Failure → W × List Signal
acknowledge (w, none) = (w, ack ∷ [])
acknowledge (w, some e) = (w, nak ∷ [])

module _ {W : Type 0} (svc : Services W) where
  unfoldable pub build_request : Notification → WebhookSubscriber → Delivery
  build_request n sub = record {
    url = sub.url;
    body = n.payload;
    delivery_id = n.id;
    signature = if str_eq sub.secret "" then none else some (svc.hmac n.payload sub.secret);
  }

  unfoldable pub deliver : W → Notification → WebhookSubscriber → W × Option Failure
  deliver w n sub =
      let out = svc.post w (build_request n sub) in (out.0, reply_error sub.url (out.1))

  -- The loop over the subscribers.
  unfoldable pub deliver_all : W → Notification → List WebhookSubscriber → Tally → W × Tally
  deliver_all w n [] t = (w, t)
  deliver_all w n (sub ∷ subs) t =
      let out = deliver w n sub in
      let sent = deliver_all (out.0) n subs (add_outcome t (out.1)) in
      let skipped = deliver_all w n subs t in
      if not (is_subscribed_to sub n.kind) then skipped else sent

  -- `Notify` from the test on the number of subscribers on.
  unfoldable pub notify_all : W → Notification → List WebhookSubscriber → W × Option Failure
  notify_all w n [] = (w, none)
  notify_all w n (sub ∷ subs) =
      let out = deliver_all w n (sub ∷ subs) (record { delivered = 0; last_err = none }) in
      (out.0, tally_error (out.1))

  unfoldable pub notify : W → Notification → W × Option Failure
  notify w n = notify_all w n (svc.find_by_tournament w n.tournament_id)

  -- `Handle` of the three handlers, which differ in the kind.
  unfoldable pub handle_event : Stamp → NotificationKind → Envelope → W → W × Option Failure
  handle_event st kind e w = elim (e.json) [
    | none ↦ (w, some (plain (text "json: unsupported value")))
    | some bytes ↦ notify w (new_notification st.id st.now kind e.aggregate_id bytes)
  ]

  unfoldable pub dispatch : Stamp → Envelope → W → W × Option Failure
  dispatch st e w = elim (kind_of e.event_type) [
    | none ↦ (w, none)
    | some kind ↦ handle_event st kind e w
  ]

  -- `processMessage` and the `NakWithDelay` of `Start`; `none` is a malformed message.
  unfoldable pub process_message : Stamp → Option Envelope → W → W × List Signal
  process_message st none w = (w, ack ∷ [])
  process_message st (some e) w = acknowledge (dispatch st e w)
