-- ===== src/Notify/Deliveries.antt =====
-- What `Notify` of contexts/notification/internal/infrastructure/webhook/dispatcher.go sends, and
-- what it returns.
use wc_fixture.Base.{
  ℕ, Bool, true, false, not, Option, none, some, is_some, List, [], ◌∷◌, ◌≡◌, refl, ap, ◌∙◌, length,
  ◌+◌, ◌==◌, if◌then◌else◌, Bool-cases, inl, inr, arith,
}
use wc_fixture.Base.Order.{select}
use wc_fixture.Notify.Domain.{Notification, WebhookSubscriber, is_subscribed_to}
use wc_fixture.Notify.Dispatcher.{
  Failure, Services, Tally, add_outcome, tally_error, deliver, deliver_all, notify_all, notify,
}

module _ {W : Type 0} (svc : Services W) where
  -- Sending a request to each of these subscribers in turn, and what became of each.
  unfoldable pub send_each : W → Notification → List WebhookSubscriber → W × List (Option Failure)
  send_each w n [] = (w, [])
  send_each w n (sub ∷ subs) =
      let out = deliver svc w n sub in
      let rest = send_each (out.0) n subs in (rest.0, out.1 ∷ rest.1)

abbrev pub is_empty : List (Option Failure) → Bool
is_empty [] = true
is_empty (o ∷ os) = false

abbrev pub or_earlier : Option Failure → Option Failure → Option Failure
or_earlier none o = o
or_earlier (some e) o = some e

-- The last error of the list.
unfoldable pub last_failure : List (Option Failure) → Option Failure
last_failure [] = none
last_failure (o ∷ os) = or_earlier (last_failure os) o

-- What became of all of them: nothing is wrong if one succeeded; else the last failure is.
unfoldable pub verdict : List (Option Failure) → Option Failure
verdict outcomes =
    if is_empty (select (λ o. not (is_some o)) outcomes) then last_failure outcomes else none

abbrev add_outcomes : Tally → List (Option Failure) → Tally
add_outcomes t [] = t
add_outcomes t (o ∷ os) = add_outcomes (add_outcome t o) os

module _ {W : Type 0} (svc : Services W) where
  -- The loop sends to the subscribers of the kind only, and counts what becomes of each.
  deliver_all-send_each :
      (w : W) (n : Notification) (subs : List WebhookSubscriber) (t : Tally)
      → deliver_all svc w n subs t ≡ (
        (send_each svc w n (select (λ s. is_subscribed_to s n.kind) subs)).0,
        add_outcomes t (send_each svc w n (select (λ s. is_subscribed_to s n.kind) subs)).1,
      )
  unfolding deliver_all send_each select
  deliver_all-send_each w n [] t = refl
  deliver_all-send_each w n (sub ∷ subs) t = elim (Bool-cases (is_subscribed_to sub n.kind)) [
    | inl e ↦ rw e (
        deliver_all-send_each (deliver svc w n sub).0 n subs
          (add_outcome t (deliver svc w n sub).1))
    | inr e ↦ rw e (deliver_all-send_each w n subs t)
  ]

abbrev succeeded : List (Option Failure) → List (Option Failure)
succeeded outcomes = select (λ o. not (is_some o)) outcomes

add_outcomes-delivered :
    (t : Tally) (os : List (Option Failure))
    → (add_outcomes t os).delivered ≡ t.delivered + length (succeeded os)
unfolding select
add_outcomes-delivered t [] = omega arith
add_outcomes-delivered t (some e ∷ os) = add_outcomes-delivered (add_outcome t (some e)) os
add_outcomes-delivered t (none ∷ os) = omega (arith, add_outcomes-delivered (add_outcome t none) os)

or_earlier_assoc :
    (a b c : Option Failure) → or_earlier a (or_earlier b c) ≡ or_earlier (or_earlier a b) c
or_earlier_assoc none b c = refl
or_earlier_assoc (some e) b c = refl

add_outcomes-last_err :
    (t : Tally) (os : List (Option Failure))
    → (add_outcomes t os).last_err ≡ or_earlier (last_failure os) t.last_err
unfolding last_failure
add_outcomes-last_err t [] = refl
add_outcomes-last_err t (some e ∷ os) =
    add_outcomes-last_err (add_outcome t (some e)) os
    ∙ or_earlier_assoc (last_failure os) (some e) t.last_err
add_outcomes-last_err t (none ∷ os) =
    add_outcomes-last_err (add_outcome t none) os
    ∙ or_earlier_assoc (last_failure os) none t.last_err

or_earlier-none : (o : Option Failure) → or_earlier o none ≡ o
or_earlier-none none = refl
or_earlier-none (some e) = refl

abbrev no_tally : Tally
no_tally = record { delivered = 0; last_err = none }

choose :
    (n : ℕ) (l : List (Option Failure)) (e : Option Failure)
    → n ≡ length l
    → (if n == 0 then e else none) ≡ (if is_empty l then e else none)
choose n [] e h = ground arith
choose n (o ∷ os) e h = ground arith

add_outcomes-verdict :
    (os : List (Option Failure)) → tally_error (add_outcomes no_tally os) ≡ verdict os
unfolding tally_error verdict
add_outcomes-verdict os =
    rw (add_outcomes-last_err no_tally os, or_earlier-none (last_failure os))
      (choose _ (succeeded os) (last_failure os)
        (omega (arith, add_outcomes-delivered no_tally os)))

module _ {W : Type 0} (svc : Services W) where
  abbrev pub subscribed : W → Notification → List WebhookSubscriber
  subscribed w n =
      select (λ s. is_subscribed_to s n.kind) (svc.find_by_tournament w n.tournament_id)

  notify_all-send_each :
      (w : W) (n : Notification) (subs : List WebhookSubscriber)
      → notify_all svc w n subs ≡ (
        (send_each svc w n (select (λ s. is_subscribed_to s n.kind) subs)).0,
        verdict (send_each svc w n (select (λ s. is_subscribed_to s n.kind) subs)).1,
      )
  unfolding notify_all select send_each verdict last_failure
  notify_all-send_each w n [] = refl
  notify_all-send_each w n (sub ∷ subs) =
      let chosen = select (λ s. is_subscribed_to s n.kind) (sub ∷ subs) in
      ap (λ (o : W × Tally). (o.0, tally_error o.1))
        (deliver_all-send_each svc w n (sub ∷ subs) no_tally)
      ∙ ap (λ v. ((send_each svc w n chosen).0, v))
          (add_outcomes-verdict (send_each svc w n chosen).1)

  -- `Notify` sends one request to each subscriber of the tournament that is subscribed to the kind, in
  -- their order, and to no other. It returns no error if one of them answered with success or none
  -- was subscribed, and else the last error.
  pub notify-send_each :
      (w : W) (n : Notification)
      → notify svc w n
        ≡ ((send_each svc w n (subscribed w n)).0, verdict (send_each svc w n (subscribed w n)).1)
  unfolding notify
  notify-send_each w n = notify_all-send_each w n (svc.find_by_tournament w n.tournament_id)
