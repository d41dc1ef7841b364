-- ===== src/Notify/Store.antt =====
-- The webhook subscribers in memory: contexts/notification/cmd/server/inmemory_webhook_repo.go. The
-- map from ids is a list with one subscriber for an id; `range` over it goes in an order of its own.
use mathlib.Core.Path.{fun_ext}
use wc_fixture.Base.{
  Uuid, uuid_arg, Bool, true, false, ◌&&◌, Option, none, some, List, [], ◌∷◌, ◌≡◌, refl, ap, subst,
  sym, ◌∙◌, All, ◌==◌, if◌then◌else◌, Bool-cases, Option-cases, inl, inr, arith, ==_iff,
}
use wc_fixture.Base.Order.{select, All-select}
use wc_fixture.Shared.AppErrors.{err_not_found}
use wc_fixture.Notify.Domain.{WebhookSubscriber}
use wc_fixture.Notify.Dispatcher.{Failure}

abbrev pub Subscribers : Type 0
Subscribers = List WebhookSubscriber

-- `r.subscribers[id]`
unfoldable pub lookup : Uuid → Subscribers → Option WebhookSubscriber
lookup id [] = none
lookup id (s ∷ subs) = if s.id == id then some s else lookup id subs

-- `r.subscribers[s.ID] = s`, which is `Save`.
unfoldable pub save : WebhookSubscriber → Subscribers → Subscribers
save s [] = s ∷ []
save s (x ∷ subs) = let rest = save s subs in if x.id == s.id then s ∷ subs else x ∷ rest

unfoldable pub is_found : Uuid → WebhookSubscriber → Bool
is_found tournament_id s = s.active && (s.tournament_id == tournament_id)

-- `FindByTournament`; `range` is the order of the iteration.
unfoldable pub find_by_tournament : (Subscribers → Subscribers) → Uuid → Subscribers → Subscribers
find_by_tournament range tournament_id subs = select (is_found tournament_id) (range subs)

unfoldable pub deactivate : Uuid → Subscribers → Subscribers × Option Failure
deactivate id subs = elim (lookup id subs) [
  | none ↦ (subs, some (err_not_found "webhook subscriber" (uuid_arg id)))
  | some s ↦ (save (record s { active = false }) subs, none)
]

-- A call that changes the repository, and what a list of them leaves; an error stops nothing.
pub data Operation : Type 0 where
  save_op : WebhookSubscriber → Operation
  deactivate_op : Uuid → Operation

unfoldable pub apply : Operation → Subscribers → Subscribers
apply (save_op s) subs = save s subs
apply (deactivate_op id) subs = (deactivate id subs).0

unfoldable pub run : List Operation → Subscribers → Subscribers
run [] subs = subs
run (o ∷ ops) subs = run ops (apply o subs)

-- The abstract repository: a function from ids, and what the operations do to it.
abbrev pub View : Type 0
View = Uuid → Option WebhookSubscriber

abbrev pub deactivated : Option WebhookSubscriber → Option WebhookSubscriber
deactivated none = none
deactivated (some s) = some (record s { active = false })

unfoldable pub apply_view : Operation → View → View
apply_view (save_op s) v j = if s.id == j then some s else v j
apply_view (deactivate_op id) v j = if id == j then deactivated (v j) else v j

unfoldable pub run_view : List Operation → View → View
run_view [] v = v
run_view (o ∷ ops) v = run_view ops (apply_view o v)

-- What a search for the active subscribers of a tournament finds under an id.
abbrev pub visible : Uuid → Option WebhookSubscriber → Option WebhookSubscriber
visible tournament_id none = none
visible tournament_id (some s) = if is_found tournament_id s then some s else none

lookup-save :
    (s : WebhookSubscriber) (subs : Subscribers) (j : Uuid)
    → lookup j (save s subs) ≡ (if s.id == j then some s else lookup j subs)
unfolding lookup save
lookup-save s [] j = refl
lookup-save s (x ∷ subs) j = ground (arith, lookup-save s subs j)

lookup-id :
    (id : Uuid) (subs : Subscribers) (s : WebhookSubscriber) → lookup id subs ≡ some s → s.id ≡ id
unfolding lookup
lookup-id id [] s h = cc
lookup-id id (x ∷ subs) s h = ground (arith, lookup-id id subs s)

-- No two subscribers have one id.
abbrev pub IsKeyed : Subscribers → Type 0
IsKeyed [] = Unit
IsKeyed (s ∷ subs) = All (λ x. (x.id == s.id) ≡ false) subs × IsKeyed subs

save-others :
    (k : Uuid) (s : WebhookSubscriber) (subs : Subscribers)
    → (s.id == k) ≡ false
    → All (λ x. (x.id == k) ≡ false) subs
    → All (λ x. (x.id == k) ≡ false) (save s subs)
unfolding save
save-others k s [] e h = (e, tt)
save-others k s (x ∷ subs) e h = elim (Bool-cases (x.id == s.id)) [
  | inl q ↦ rw q (e, h.1)
  | inr q ↦ rw q (h.0, save-others k s subs e h.1)
]

same_key :
    (k l : Uuid) (subs : Subscribers)
    → k ≡ l
    → All (λ x. (x.id == k) ≡ false) subs
    → All (λ x. (x.id == l) ≡ false) subs
same_key k l subs e h = subst (λ i. All (λ x. (x.id == i) ≡ false) subs) e h

save-IsKeyed : (s : WebhookSubscriber) (subs : Subscribers) → IsKeyed subs → IsKeyed (save s subs)
unfolding save
save-IsKeyed s [] h = (tt, tt)
save-IsKeyed s (x ∷ subs) h = elim (Bool-cases (x.id == s.id)) [
  | inl q ↦ rw q (same_key x.id s.id subs ((==_iff x.id s.id).0 q) h.0, h.1)
  | inr q ↦ rw q (save-others x.id s subs (ground (arith, q)) h.0, save-IsKeyed s subs h.1)
]

deactivate-missing :
    (id : Uuid) (subs : Subscribers) → lookup id subs ≡ none → (deactivate id subs).0 ≡ subs
unfolding deactivate
deactivate-missing id subs e = rw (e, deactivate) refl

deactivate-present :
    (id : Uuid) (subs : Subscribers) (s : WebhookSubscriber)
    → lookup id subs ≡ some s
    → (deactivate id subs).0 ≡ save (record s { active = false }) subs
unfolding deactivate
deactivate-present id subs s e = rw (e, deactivate) refl

apply-IsKeyed : (o : Operation) (subs : Subscribers) → IsKeyed subs → IsKeyed (apply o subs)
unfolding apply
apply-IsKeyed (save_op s) subs h = save-IsKeyed s subs h
apply-IsKeyed (deactivate_op id) subs h = elim (Option-cases (lookup id subs)) [
  | inl e ↦ subst IsKeyed (sym (deactivate-missing id subs e)) h
  | inr (s, e) ↦ subst IsKeyed (sym (deactivate-present id subs s e)) (save-IsKeyed _ subs h)
]

lookup_at :
    (id j : Uuid) (subs : Subscribers) (o : Option WebhookSubscriber)
    → lookup id subs ≡ o
    → (id == j) ≡ true
    → lookup j subs ≡ o
lookup_at id j subs o e q = subst (λ k. lookup k subs ≡ o) ((==_iff id j).0 q) e

lookup-deactivate :
    (id : Uuid) (subs : Subscribers) (j : Uuid)
    → lookup j (deactivate id subs).0
      ≡ (if id == j then deactivated (lookup j subs) else lookup j subs)
lookup-deactivate id subs j = elim (Option-cases (lookup id subs)) [
  | inl e ↦ elim (Bool-cases (id == j)) [
    | inl q ↦ rw (deactivate-missing id subs e, q, lookup_at id j subs none e q) refl
    | inr q ↦ rw (deactivate-missing id subs e, q) refl
  ]
  | inr (s, e) ↦
      let same : s.id ≡ id = lookup-id id subs s e in
      let l = lookup-save (record s { active = false }) subs j in
      elim (Bool-cases (id == j)) [
        | inl q ↦
            let there : (s.id == j) ≡ true = rw same q in
            rw (deactivate-present id subs s e, l, there, q, lookup_at id j subs (some s) e q) refl
        | inr q ↦
            let elsewhere : (s.id == j) ≡ false = rw same q in
            rw (deactivate-present id subs s e, l, elsewhere, q) refl
      ]
]

-- One operation on the list is that operation on the function.
lookup-apply :
    (o : Operation) (subs : Subscribers) (j : Uuid)
    → lookup j (apply o subs) ≡ apply_view o (λ i. lookup i subs) j
unfolding apply apply_view
lookup-apply (save_op s) subs j = lookup-save s subs j
lookup-apply (deactivate_op id) subs j = lookup-deactivate id subs j

lookup-absent :
    (k : Uuid) (subs : Subscribers) → All (λ x. (x.id == k) ≡ false) subs → lookup k subs ≡ none
unfolding lookup
lookup-absent k [] h = refl
lookup-absent k (x ∷ subs) h = rw h.0 (lookup-absent k subs h.1)

lookup-select :
    (t id : Uuid) (subs : Subscribers)
    → IsKeyed subs
    → lookup id (select (is_found t) subs) ≡ visible t (lookup id subs)
unfolding lookup select
lookup-select t id [] h = refl
lookup-select t id (x ∷ subs) h = elim (Bool-cases (x.id == id)) [
  | inl q ↦ elim (Bool-cases (is_found t x)) [
    | inl p ↦ rw (q, p) (rw q refl)
    | inr p ↦
        rw (q, p)
          (lookup-absent id (select (is_found t) subs)
            (All-select _ (is_found t) subs (same_key x.id id subs ((==_iff x.id id).0 q) h.0)))
  ]
  | inr q ↦ elim (Bool-cases (is_found t x)) [
    | inl p ↦ rw (q, p) (rw q (lookup-select t id subs h.1))
    | inr p ↦ rw (q, p) (lookup-select t id subs h.1)
  ]
]

-- What iterating over a map promises, in whatever order: every entry once.
abbrev pub IsIteration : (Subscribers → Subscribers) → Type 0
IsIteration range =
    (subs : Subscribers)
    → IsKeyed subs
    → IsKeyed (range subs) × ((id : Uuid) → lookup id (range subs) ≡ lookup id subs)

run-View :
    (ops : List Operation) (subs : Subscribers)
    → IsKeyed subs
    → IsKeyed (run ops subs)
      × ((id : Uuid) → lookup id (run ops subs) ≡ run_view ops (λ i. lookup i subs) id)
unfolding run run_view
run-View [] subs h = (h, λ id. refl)
run-View (o ∷ ops) subs h =
    let r = run-View ops (apply o subs) (apply-IsKeyed o subs h) in
    let v : (λ i. lookup i (apply o subs)) ≡ apply_view o (λ i. lookup i subs) =
      fun_ext (lookup-apply o subs) in
    (r.0, λ id. r.1 id ∙ ap (λ (w : View). run_view ops w id) v)

-- After any calls of `Save` and `Deactivate` on the empty repository, `FindByTournament` finds under
-- an id exactly the subscriber that the calls leave there, as a function from ids would, if it is
-- active and of the tournament; in particular none that was deactivated and not saved again.
pub find_by_tournament-View :
    (range : Subscribers → Subscribers) (ops : List Operation) (t id : Uuid)
    → IsIteration range
    → lookup id (find_by_tournament range t (run ops [])) ≡ visible t (run_view ops (λ _. none) id)
unfolding find_by_tournament lookup
find_by_tournament-View range ops t id h =
    let r = run-View ops [] tt in
    let i = h (run ops []) r.0 in
    lookup-select t id (range (run ops [])) i.0 ∙ ap (visible t) (i.1 id ∙ r.1 id)
