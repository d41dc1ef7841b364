-- ===== src/Notify/Silence.antt =====
-- Which kinds reach a subscriber: the handlers of contexts/notification/internal/application/handlers
-- with notification.go of contexts/notification/internal/domain/notification.
use wc_fixture.Base.{
  String, Bool, true, false, none, some, List, [], ◌∷◌, ◌≡◌, ◌≢◌, inl, inr, refl, ap, ◌∙◌, All,
  arith, Option-cases,
}
use wc_fixture.Base.Order.{select}
use wc_fixture.Ingest.Consumer.{ack}
use wc_fixture.Notify.Domain.{
  NotificationKind, group_completed, knockout_advanced, schedule_updated, WebhookSubscriber,
  is_subscribed_to, same_kind, mem_kind, Notification, new_notification,
}
use wc_fixture.Notify.Dispatcher.{
  Services, Stamp, Envelope, kind_of, handle_event, dispatch, notify, acknowledge, process_message,
}
use wc_fixture.Notify.Deliveries.{send_each, verdict, notify-send_each}

-- The kinds of a completed group, an advanced knockout match and an updated schedule.
unfoldable pub is_unused : NotificationKind → Bool
is_unused group_completed = true
is_unused knockout_advanced = true
is_unused schedule_updated = true
is_unused _ = false

-- A subscriber that asks for those kinds only.
abbrev pub AsksForUnused : WebhookSubscriber → Type 0
AsksForUnused s = (s.event_types ≢ []) × All (λ k. is_unused k ≡ true) s.event_types

kind_of-used : (e : String) (k : NotificationKind) → kind_of e ≡ some k → is_unused k ≡ false
unfolding kind_of is_unused
kind_of-used e k h = ground arith

same_kind-unused :
    (j k : NotificationKind) → is_unused j ≡ true → is_unused k ≡ false → same_kind j k ≡ false
unfolding same_kind is_unused
same_kind-unused j k hj hk = ground arith

mem_kind-unused :
    (ks : List NotificationKind) (k : NotificationKind)
    → All (λ j. is_unused j ≡ true) ks
    → is_unused k ≡ false
    → mem_kind ks k ≡ false
unfolding mem_kind
mem_kind-unused [] k h s = refl
mem_kind-unused (j ∷ ks) k h s = rw (same_kind-unused j k h.0 s) (mem_kind-unused ks k h.1 s)

is_subscribed_to-unused :
    (s : WebhookSubscriber) (k : NotificationKind)
    → AsksForUnused s
    → is_unused k ≡ false
    → is_subscribed_to s k ≡ false
unfolding is_subscribed_to
is_subscribed_to-unused s k h u = ground (arith, mem_kind-unused s.event_types k h.1 u, h.0)

select-nobody :
    (subs : List WebhookSubscriber) (k : NotificationKind)
    → All AsksForUnused subs
    → is_unused k ≡ false
    → select (λ s. is_subscribed_to s k) subs ≡ []
unfolding select
select-nobody [] k h u = refl
select-nobody (s ∷ subs) k h u = rw (is_subscribed_to-unused s k h.0 u) (select-nobody subs k h.1 u)

module _ {W : Type 0} (svc : Services W) where
  notify-nobody :
      (w : W) (n : Notification)
      → All AsksForUnused (svc.find_by_tournament w n.tournament_id)
      → is_unused n.kind ≡ false
      → notify svc w n ≡ (w, none)
  unfolding send_each verdict select wc_fixture.Notify.Deliveries.last_failure
  notify-nobody w n h u =
      notify-send_each svc w n
      ∙ ap (λ subs. ((send_each svc w n subs).0, verdict (send_each svc w n subs).1))
          (select-nobody (svc.find_by_tournament w n.tournament_id) n.kind h u)

  dispatch-Silent :
      (st : Stamp) (e : Envelope) (bytes : String) (w : W)
      → e.json ≡ some bytes
      → All AsksForUnused (svc.find_by_tournament w e.aggregate_id)
      → dispatch svc st e w ≡ (w, none)
  unfolding dispatch handle_event new_notification
  dispatch-Silent st e bytes w q h = elim (Option-cases (kind_of e.event_type)) [
    | inl k ↦ rw (k, dispatch) refl
    | inr (kind, k) ↦
        let n = new_notification st.id st.now kind e.aggregate_id bytes in
        rw (k, q, dispatch) (notify-nobody w n h (kind_of-used e.event_type kind k))
  ]

  -- Where every subscriber of the tournament asks only for completed groups, advanced knockout matches
  -- and updated schedules, no message of that tournament whose event can be marshalled sends
  -- any request: the message is acknowledged and the world stays as it was.
  pub process_message-Silent :
      (st : Stamp) (e : Envelope) (bytes : String) (w : W)
      → e.json ≡ some bytes
      → All AsksForUnused (svc.find_by_tournament w e.aggregate_id)
      → process_message svc st (some e) w ≡ (w, ack ∷ [])
  unfolding process_message
  process_message-Silent st e bytes w q h = ap acknowledge (dispatch-Silent st e bytes w q h)
