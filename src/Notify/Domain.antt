-- ===== src/Notify/Domain.antt =====
-- Notifications and webhook subscribers: notification.go and errors.go of
-- contexts/notification/internal/domain/notification.
use wc_fixture.Base.{
  ℕ, Uuid, Time, String, Message, sprintf, sprintf₂, string_arg, int_arg, Bool, true, false, ◌||◌,
  Option, none, some, List, [], ◌∷◌, ◌+◌, if◌then◌else◌,
}

pub data NotificationKind : Type 0 where
  match_result group_completed bracket_generated knockout_advanced schedule_updated
        tournament_finished :
      NotificationKind

pub data DeliveryStatus : Type 0 where
  pending delivered failed skipped : DeliveryStatus

pub data ErrCode : Type 0 where
  invalid_webhook_url invalid_event_type webhook_delivery_failed subscriber_not_found : ErrCode

pub record DomainError : Type 0 where
  pub code : ErrCode
  pub message : Message

abbrev pub err_invalid_webhook_url : String → DomainError
err_invalid_webhook_url url = record {
  code = invalid_webhook_url;
  message = sprintf "URL de webhook inválida: %q" (string_arg url);
}

abbrev pub err_webhook_delivery_failed : String → ℕ → DomainError
err_webhook_delivery_failed url status = record {
  code = webhook_delivery_failed;
  message = sprintf₂ "entrega fallida a %q: status %d" (string_arg url) (int_arg status);
}

pub record Notification : Type 0 where
  pub id : Uuid
  pub kind : NotificationKind
  pub tournament_id : Uuid
  pub payload : String
  pub created_at : Time
  pub status : DeliveryStatus
  pub delivered_at : Option Time
  pub attempts : ℕ

-- `New`, with the id of `uuid.New` and one reading of the clock.
unfoldable pub new_notification : Uuid → Time → NotificationKind → Uuid → String → Notification
new_notification id now kind tournament_id payload = record {
  id = id;
  kind = kind;
  tournament_id = tournament_id;
  payload = payload;
  created_at = now;
  status = pending;
  delivered_at = none;
  attempts = 0;
}

unfoldable pub mark_delivered : Time → Notification → Notification
mark_delivered now n = record n { status = delivered; delivered_at = some now }

unfoldable pub mark_failed : Notification → Notification
mark_failed n = record n { attempts = n.attempts + 1; status = failed }

pub record WebhookSubscriber : Type 0 where
  pub id : Uuid
  pub tournament_id : Uuid
  pub url : String
  pub secret : String
  pub event_types : List NotificationKind
  pub active : Bool
  pub created_at : Time

pub data NewSubscriber : Type 0 where
  subscriber : WebhookSubscriber → NewSubscriber
  invalid : DomainError → NewSubscriber

-- `NewWebhookSubscriber`; `is_uri` is whether `url.ParseRequestURI` takes the address.
unfoldable pub new_webhook_subscriber :
    (String → Bool) → Uuid → Time → Uuid → String → String → List NotificationKind → NewSubscriber
new_webhook_subscriber is_uri id now tournament_id url secret kinds =
    if is_uri url
    then subscriber (record {
      id = id;
      tournament_id = tournament_id;
      url = url;
      secret = secret;
      event_types = kinds;
      active = true;
      created_at = now;
    })
    else invalid (err_invalid_webhook_url url)

unfoldable pub same_kind : NotificationKind → NotificationKind → Bool
same_kind match_result match_result = true
same_kind group_completed group_completed = true
same_kind bracket_generated bracket_generated = true
same_kind knockout_advanced knockout_advanced = true
same_kind schedule_updated schedule_updated = true
same_kind tournament_finished tournament_finished = true
same_kind _ _ = false

unfoldable pub mem_kind : List NotificationKind → NotificationKind → Bool
mem_kind [] kind = false
mem_kind (k ∷ ks) kind = same_kind k kind || mem_kind ks kind

unfoldable pub is_subscribed_to : WebhookSubscriber → NotificationKind → Bool
is_subscribed_to w kind = elim (w.event_types) [ [] ↦ true | k ∷ ks ↦ mem_kind (k ∷ ks) kind ]
