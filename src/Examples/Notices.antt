-- ===== src/Examples/Notices.antt =====
-- The theorems on notifications and on publishing, applied to three subscribers.
use wc_fixture.Base.{
  ℕ, Uuid, String, text, ◌≡◌, ◌≢◌, ◌⊎◌, ◌++◌, refl, true, none, some, List, [], ◌∷◌, All, ◌==◌,
  if◌then◌else◌,
}
use wc_fixture.Core.Events.{
  DomainEvent, EventType, Payload, finished, new_event, knockout_match_advanced,
  tournament_finished,
}
use wc_fixture.App.Ports as Ports
use wc_fixture.Publish.{
  Broker, bytes, Published, publish, publish_all, publish_failure, publish_all-Published,
}
use wc_fixture.Ingest.Consumer.{ack}
use wc_fixture.Notify.Domain.{
  match_result, group_completed, knockout_advanced, NotificationKind, WebhookSubscriber,
  Notification, new_notification,
}
use wc_fixture.Notify.Dispatcher.{Services, status, Envelope, notify, process_message}
use wc_fixture.Notify.Deliveries.{send_each, subscribed, verdict, notify-send_each}
use wc_fixture.Notify.Silence.{is_unused, AsksForUnused, process_message-Silent}
use wc_fixture.Notify.Store.{
  Subscribers, lookup, find_by_tournament, save_op, deactivate_op, Operation, run, run_view,
  visible, IsIteration, find_by_tournament-View,
}

abbrev listener : Uuid → List NotificationKind → WebhookSubscriber
listener id kinds = record {
  id = id;
  tournament_id = 92;
  url = if id == 1 then "http://a" else "http://b";
  secret = if id == 1 then "s" else "";
  event_types = kinds;
  active = true;
  created_at = 10;
}

-- A world that records the URLs asked; only the first subscriber answers.
abbrev services : List WebhookSubscriber → Services (List String)
services subs = record {
  post = λ w d. (d.url ∷ w, elim (d.signature) [ none ↦ status 503 | some s ↦ status 200 ]);
  find_by_tournament = λ w id. subs;
  hmac = λ p k. k;
}

abbrev audience : List WebhookSubscriber
audience = listener 1 [] ∷ listener 2 (match_result ∷ []) ∷ listener 3 (group_completed ∷ []) ∷ []

abbrev notice : Notification
notice = new_notification 600 20 match_result 92 "{}"

notify-send_each_example : notify (services audience) [] notice ≡ (
  (send_each (services audience) [] notice (subscribed (services audience) [] notice)).0,
  verdict (send_each (services audience) [] notice (subscribed (services audience) [] notice)).1,
)
notify-send_each_example = notify-send_each (services audience) [] notice

abbrev group_listeners : List WebhookSubscriber
group_listeners = listener 3 (group_completed ∷ []) ∷ listener 4 (knockout_advanced ∷ []) ∷ []

kinds_differ : (k : NotificationKind) → k ∷ [] ≢ []
kinds_differ k h = cc

group_listeners-AsksForUnused : All AsksForUnused group_listeners
unfolding is_unused
group_listeners-AsksForUnused =
    ((kinds_differ group_completed, (refl, tt)), ((kinds_differ knockout_advanced, (refl, tt)), tt))

abbrev group_done : Envelope
group_done = record { event_type = "GroupStageCompleted"; aggregate_id = 92; json = some "{}" }

process_message-Silent_example :
    process_message (services group_listeners) (record { id = 600; now = 20 }) (some group_done) []
    ≡ ([], ack ∷ [])
process_message-Silent_example =
    process_message-Silent (services group_listeners) (record { id = 600; now = 20 }) group_done
      "{}" [] refl group_listeners-AsksForUnused

abbrev in_order : Subscribers → Subscribers
in_order subs = subs

in_order-IsIteration : IsIteration in_order
in_order-IsIteration subs h = (h, λ id. refl)

abbrev history : List Operation
history = save_op (listener 1 []) ∷ save_op (listener 2 []) ∷ deactivate_op 1 ∷ []

find_by_tournament-View_example :
    lookup 2 (find_by_tournament in_order 92 (run history []))
    ≡ visible 92 (run_view history (λ _. none) 2)
find_by_tournament-View_example = find_by_tournament-View in_order history 92 2 in_order-IsIteration

abbrev champion : Payload
champion = finished (record {
  tournament_id = 92;
  champion_id = 1;
  runner_up_id = 2;
  third_place_id = 0;
  final_match_id = 11;
  finished_at = 20;
})

abbrev last_event : EventType → DomainEvent
last_event type = new_event 1 20 type 92 "Fixture" champion

abbrev last_events : List DomainEvent
last_events = last_event knockout_match_advanced ∷ last_event tournament_finished ∷ []

-- A broker that counts what it is sent and takes one message only.
abbrev broker : Broker ℕ
broker = record {
  marshal = λ e. bytes "{}";
  publish = λ w s b. if w == 0 then (1, none) else (w, some (text "no response"));
}

publish_all-Published_example :
    ((v : ℕ) × Published broker 0 last_events v × (publish_all broker 0 last_events ≡ (v, none)))
    ⊎ ((done : List DomainEvent) × (e : DomainEvent) × (rest : List DomainEvent) × (v : ℕ)
        × (x : Ports.Failure) × (last_events ≡ done ++ e ∷ rest)
        × Published broker 0 done v
        × ((publish broker v e).1 ≡ some x)
        × (publish_all broker 0 last_events
            ≡ ((publish broker v e).0, some (publish_failure 2 e x))))
publish_all-Published_example = publish_all-Published broker 0 last_events
