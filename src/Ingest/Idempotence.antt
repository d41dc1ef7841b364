-- ===== src/Ingest/Idempotence.antt =====
-- Ingesting one result twice, with the store of postgres_store.go.
use wc_fixture.Base.{
  ◌≤◌, Uuid, Time, ◌≡◌, refl, sym, ap, arith, true, false, Option, none, some, List, ◌∷◌,
  Bool-cases, Option-cases, inl, inr,
}
use wc_fixture.Ingest.Result.{
  DomainError, IngestedResult, Key, same_key, validate, validate_end, build_idempotency_key,
}
use wc_fixture.Ingest.Handler.{
  Failure, Codec, Clock, IngestResultCmd, IngestedEvent, IngestPorts, refused, accepted, result_of,
  or_refused, parse_result, ingest, handle_ingest, register_and_publish, publish_result,
  memory_exists, memory_register,
}

-- The store beside any publisher, whose world is of type `P`.
abbrev pub memory_ports :
    {P : Type 0} → (P → IngestedEvent → P × Option Failure) → IngestPorts (List Key × P)
memory_ports publish = record {
  exists = λ s k. (s, memory_exists s.0 k);
  register = λ s k. ((((memory_register s.0 k).0, s.1)), (memory_register s.0 k).1);
  publish = λ s e. ((s.0, (publish s.1 e).0), (publish s.1 e).1);
}

same_key_refl : (k : Key) → same_key k k ≡ true
same_key_refl k = ground arith

-- A later clock accepts what an earlier one accepted.
validate_end-later :
    (now later : Time) (r q : IngestedResult)
    → now ≤ later
    → q.home_goals_et ≡ r.home_goals_et
    → q.away_goals_et ≡ r.away_goals_et
    → q.home_goals_pen ≡ r.home_goals_pen
    → q.away_goals_pen ≡ r.away_goals_pen
    → q.completed_at ≡ r.completed_at
    → validate_end now r ≡ none
    → validate_end later q ≡ none
unfolding validate_end
validate_end-later now later r q le e1 e2 e3 e4 e5 v = rw (e1, e2, e3, e4, e5) (ground arith)

validate-later :
    (clock clock' : Clock) (c : IngestResultCmd) (t m h a : Uuid) (at : Time)
    → clock.now ≤ clock'.now
    → validate clock.now (result_of clock c t m h a at) ≡ none
    → validate clock'.now (result_of clock' c t m h a at) ≡ none
unfolding validate
validate-later clock clock' c t m h a at le v =
    let r = result_of clock c t m h a at in
    let q = result_of clock' c t m h a at in
    let end = validate_end-later clock.now clock'.now r q le refl refl refl refl refl in
    ground (arith, end)

-- What an accepted command is.
record IsParsed (codec : Codec) (clock : Clock) (c : IngestResultCmd) (r : IngestedResult)
    : Type 0 where
  t : Uuid
  m : Uuid
  h : Uuid
  a : Uuid
  at : Time
  same : r ≡ result_of clock c t m h a at
  valid : validate clock.now (result_of clock c t m h a at) ≡ none
  parse_t : codec.parse_uuid c.tournament_id ≡ some t
  parse_m : codec.parse_uuid c.match_id ≡ some m
  parse_h : codec.parse_uuid c.home_team_id ≡ some h
  parse_a : codec.parse_uuid c.away_team_id ≡ some a
  parse_at : codec.parse_time c.completed_at ≡ some at

or_refused-accepted :
    (v : Option DomainError) (r q : IngestedResult)
    → or_refused v q ≡ accepted r
    → (v ≡ none) × (r ≡ q)
or_refused-accepted none r q e = (refl, sym (ap (λ n. elim n [ accepted x ↦ x | refused _ ↦ q ]) e))
or_refused-accepted (some d) r q e = absurd (cc)

parse_result-IsParsed :
    (codec : Codec) (clock : Clock) (c : IngestResultCmd) (r : IngestedResult)
    → parse_result codec clock c ≡ accepted r
    → IsParsed codec clock c r
unfolding parse_result
parse_result-IsParsed codec clock c r e = elim (Option-cases (codec.parse_uuid c.tournament_id)) [
  | inl n ↦ absurd (ground arith)
  | inr (t, qt) ↦ elim (Option-cases (codec.parse_uuid c.match_id)) [
    | inl n ↦ absurd (ground arith)
    | inr (m, qm) ↦ elim (Option-cases (codec.parse_uuid c.home_team_id)) [
      | inl n ↦ absurd (ground arith)
      | inr (h, qh) ↦ elim (Option-cases (codec.parse_uuid c.away_team_id)) [
        | inl n ↦ absurd (ground arith)
        | inr (a, qa) ↦ elim (Option-cases (codec.parse_time c.completed_at)) [
          | inl n ↦ absurd (ground arith)
          | inr (at, qat) ↦
              let q = result_of clock c t m h a at in
              let k = or_refused-accepted (validate clock.now q) r q (ground arith) in
              record {
                t = t;
                m = m;
                h = h;
                a = a;
                at = at;
                same = k.1;
                valid = k.0;
                parse_t = qt;
                parse_m = qm;
                parse_h = qh;
                parse_a = qa;
                parse_at = qat;
              }
        ]
      ]
    ]
  ]
]

parse_result-later :
    (codec : Codec) (clock clock' : Clock) (c : IngestResultCmd) (r : IngestedResult)
    → clock.now ≤ clock'.now
    → parse_result codec clock c ≡ accepted r
    → (q : IngestedResult) × (parse_result codec clock' c ≡ accepted q)
      × (build_idempotency_key q ≡ build_idempotency_key r)
unfolding parse_result build_idempotency_key
parse_result-later codec clock clock' c r le e =
    let p = parse_result-IsParsed codec clock c r e in
    let q = result_of clock' c p.t p.m p.h p.a p.at in
    let v = validate-later clock clock' c p.t p.m p.h p.a p.at le p.valid in
    (
      q,
      rw (p.parse_t, parse_result)
          (rw p.parse_m (rw p.parse_h (rw p.parse_a (rw p.parse_at (rw v refl))))),
      ap build_idempotency_key (sym p.same),
    )

memory_register-fresh :
    (keys : List Key) (k : Key)
    → memory_exists keys k ≡ false
    → memory_register keys k ≡ (k ∷ keys, none)
unfolding memory_register
memory_register-fresh keys k e = rw e refl

module _ {P : Type 0} (codec : Codec) (publish : P → IngestedEvent → P × Option Failure) where
  abbrev ports : IngestPorts (List Key × P)
  ports = memory_ports publish

  publish_result-keys :
      (clock : Clock) (r : IngestedResult) (s : List Key × P)
      → (publish_result codec ports clock r s).0.0 ≡ s.0
  unfolding publish_result
  publish_result-keys clock r s = ground arith

  register_fresh :
      (clock : Clock) (r : IngestedResult) (s : List Key × P)
      → memory_exists s.0 (build_idempotency_key r) ≡ false
      → register_and_publish codec ports clock r s
        ≡ publish_result codec ports clock r (build_idempotency_key r ∷ s.0, s.1)
  unfolding register_and_publish
  register_fresh clock r s e =
      let q = memory_register-fresh s.0 (build_idempotency_key r) e in
      rw (q, register_and_publish)
        (ap (λ (o : List Key × Option Failure). publish_result codec ports clock r (o.0, s.1)) q)

  -- After a result went through the handler its key is in the store.
  ingest-registers :
      (clock : Clock) (r : IngestedResult) (s : List Key × P)
      → memory_exists (ingest codec ports clock r s).0.0 (build_idempotency_key r) ≡ true
  unfolding ingest
  ingest-registers clock r s = elim (Bool-cases (memory_exists s.0 (build_idempotency_key r))) [
    | inl e ↦ rw (e, ingest) e
    | inr e ↦
        rw (e, ingest)
          (rw (register_fresh clock r s e, publish_result-keys clock r _)
            (unfold memory_exists in rw (same_key_refl (build_idempotency_key r)) refl))
  ]

  known_again :
      (clock : Clock) (r : IngestedResult) (s : List Key × P)
      → memory_exists s.0 (build_idempotency_key r) ≡ true
      → ingest codec ports clock r s ≡ (s, none)
  unfolding ingest
  known_again clock r s e = rw e refl

  handle_ingest-accepted :
      (clock : Clock) (c : IngestResultCmd) (r : IngestedResult) (s : List Key × P)
      → parse_result codec clock c ≡ accepted r
      → handle_ingest codec ports clock c s ≡ ingest codec ports clock r s
  unfolding handle_ingest
  handle_ingest-accepted clock c r s e = rw (e, handle_ingest) refl

  -- With the store in memory and any publisher, a command that is accepted and handled again, at the
  -- same time or later, changes nothing and returns no error: nothing more is published, not even when
  -- publishing failed the first time.
  pub handle_ingest-again :
      (clock clock' : Clock) (c : IngestResultCmd) (r : IngestedResult) (s : List Key × P)
      → clock.now ≤ clock'.now
      → parse_result codec clock c ≡ accepted r
      → handle_ingest codec ports clock' c (handle_ingest codec ports clock c s).0
        ≡ ((handle_ingest codec ports clock c s).0, none)
  handle_ingest-again clock clock' c r s le e =
      let (q, accepted_q, key) = parse_result-later codec clock clock' c r le e in
      let known = ingest-registers clock r s in
      rw (handle_ingest-accepted clock c r s e, handle_ingest-accepted clock' c q _ accepted_q)
        (known_again clock' q (ingest codec ports clock r s).0 (rw key known))
