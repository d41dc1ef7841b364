-- ===== src/Http/Laws.antt =====
-- What the handlers of contexts/fixture-core/internal/infrastructure/http/handler answer, and how
-- what they read fits the queries and the consumer behind them.
use package.text.Mathlib.TextEquality.{eq_iff}
use mathlib.Core.Path.{fun_ext}
use wc_fixture.Base.{
  Uuid, Time, Message, nil_uuid, String, true, false, Option, none, some, List, ◌≡◌, ◌≢◌, ◌⊎◌, inl,
  inr, text, Option-cases, refl, [], ◌∷◌, map, sym, ap, ◌∙◌, ◌==◌, arith,
}
use wc_fixture.Core.Errors.{DomainError}
use wc_fixture.Core.Fixture.{Runtime}
use wc_fixture.Shared.AppErrors.{Error, ErrCode, err_validation, http_status}
use wc_fixture.Shared.Http.{
  read, refused, Decoded, undecoded, decoded, decode_json, map_decode_error, write_error, as_app,
  error_body, plain_body, no_body, JsonError, syntax_error, end_of_input, unexpected_end,
  type_error, other_error,
}
use wc_fixture.App.Ports.{Ports, Response, Failure}
use wc_fixture.App.Results.{RegisterMatchResultCmd}
use wc_fixture.App.Handlers.{handle_register}
use wc_fixture.Ingest.Handler.{ResultIngestedPayload}
use wc_fixture.Ingest.Consumer.{build_register_cmd}
use wc_fixture.Queries.Handlers.{
  ReadModels, mem_name, knockout_phases, validate_round_query, handle_get_knockout_round,
}
use wc_fixture.Http.Requests.{
  In, Web, Request, ResultBody, and_then, or_refuse, parse_tournament_id, parse_match_id,
  phase_names, lookup_name, parse_knockout_phase, to_register_command,
}
use wc_fixture.Http.Handlers.{
  Payload, Answer, write_result, round_payload, get_knockout_round, register_result, write_response,
  run_input,
}

-- The command that a request to register a result spells.
abbrev pub register_command : Web → Request → In RegisterMatchResultCmd
register_command web r = and_then (parse_tournament_id web r) (λ tournament.
    and_then (parse_match_id web r) (λ match.
      and_then (decode_json (web.decode_result r.body))
        (λ body. to_register_command web body tournament match)))

-- An error that is answered with the status 422.
unfoldable pub IsRefused : {B : Type 0} → In B → Type 0
IsRefused (read b) = Unit
IsRefused (refused e) = (write_error {P = Payload} e).status ≡ 422

validation-IsRefused : (B : Type 0) (m : Message) → IsRefused {B = B} (refused (err_validation m))
unfolding IsRefused write_error as_app wc_fixture.Shared.AppErrors.http_status
validation-IsRefused B m = refl

read-IsRefused : {B : Type 0} (b : B) → IsRefused (read b)
unfolding IsRefused
read-IsRefused b = tt

or_refuse-IsRefused :
    {A : Type 0} (o : Option A) (i : In A) → IsRefused i → IsRefused (or_refuse o i)
unfolding or_refuse
or_refuse-IsRefused none i h = h
or_refuse-IsRefused (some a) i h = read-IsRefused a

and_then-IsRefused :
    {A B : Type 0} (i : In A) (k : A → In B)
    → IsRefused i
    → ((a : A) → IsRefused (k a))
    → IsRefused (and_then i k)
unfolding and_then IsRefused
and_then-IsRefused (read a) k h g = g a
and_then-IsRefused (refused e) k h g = h

map_decode_error-IsRefused :
    (B : Type 0) (e : JsonError) → IsRefused {B = B} (refused (map_decode_error e))
unfolding map_decode_error
map_decode_error-IsRefused B (syntax_error n) = validation-IsRefused B _
map_decode_error-IsRefused B end_of_input = validation-IsRefused B _
map_decode_error-IsRefused B unexpected_end = validation-IsRefused B _
map_decode_error-IsRefused B (type_error f t) = validation-IsRefused B _
map_decode_error-IsRefused B (other_error m n t) = validation-IsRefused B _

decode_json-IsRefused : {B : Type 0} (d : Decoded B) → IsRefused (decode_json {D = DomainError} d)
unfolding decode_json IsRefused
decode_json-IsRefused {B} (undecoded e) = map_decode_error-IsRefused B e
decode_json-IsRefused (decoded b true) = tt
decode_json-IsRefused {B} (decoded b false) = validation-IsRefused B _

to_register_command-IsRefused :
    (web : Web) (b : ResultBody) (t m : Uuid) → IsRefused (to_register_command web b t m)
unfolding to_register_command
to_register_command-IsRefused web b t m =
    and_then-IsRefused _ _ (or_refuse-IsRefused _ _ (validation-IsRefused Uuid _)) (λ home.
      and_then-IsRefused _ _ (or_refuse-IsRefused _ _ (validation-IsRefused Uuid _)) (λ away.
        and_then-IsRefused _ _ (or_refuse-IsRefused _ _ (validation-IsRefused Time _))
          (λ at. read-IsRefused _)))

register_command-IsRefused : (web : Web) (r : Request) → IsRefused (register_command web r)
unfolding parse_tournament_id parse_match_id
register_command-IsRefused web r =
    and_then-IsRefused _ _ (or_refuse-IsRefused _ _ (validation-IsRefused Uuid _)) (λ t.
      and_then-IsRefused _ _ (or_refuse-IsRefused _ _ (validation-IsRefused Uuid _)) (λ m.
        and_then-IsRefused _ _ (decode_json-IsRefused _)
          (λ b. to_register_command-IsRefused web b t m)))

-- Running one step after another is running them together.
run_input-and_then :
    {A B S : Type 0} (s : S) (i : In A) (k : A → In B) (f : B → S × Answer)
    → run_input s (and_then i k) f ≡ run_input s i (λ a. run_input s (k a) f)
unfolding and_then
run_input-and_then s (read a) k f = refl
run_input-and_then s (refused e) k f = refl

register_result-run :
    {S : Type 0} (web : Web) (ports : Ports S) (env : Runtime) (r : Request) (s : S)
    → register_result web ports env r s
      ≡ run_input s
          (register_command web r)
          (λ c. write_response (ports.get s c.tournament_id).0 (handle_register ports env c s))
unfolding register_result
register_result-run {S} web ports env r s =
    let f : RegisterMatchResultCmd → S × Answer =
      λ c. write_response (ports.get s c.tournament_id).0 (handle_register ports env c s) in
    sym (
      run_input-and_then s (parse_tournament_id web r) _ f
      ∙ ap (run_input s (parse_tournament_id web r)) (
          fun_ext (λ t.
            run_input-and_then s (parse_match_id web r) _ f
            ∙ ap (run_input s (parse_match_id web r)) (
                fun_ext (λ m. run_input-and_then s (decode_json (web.decode_result r.body)) _ f)))))

run_input-cases :
    {A S : Type 0} (s : S) (i : In A) (f : A → S × Answer)
    → IsRefused i
    → (((run_input s i f).0 ≡ s) × ((run_input s i f).1.status ≡ 422))
      ⊎ ((a : A) × (i ≡ read a) × (run_input s i f ≡ f a))
unfolding IsRefused
run_input-cases s (read a) f h = inr (a, refl, refl)
run_input-cases s (refused e) f h = inl (refl, h)

-- The answer to a command whose handler gives `out`, with the world `s` after the load: 204 and no
-- body, the code and message of the first application error or else 500, or 500 after a panic.
pub data Answered {S : Type 0} (s : S) : Option (Response S) → S × Answer → Type 0 where
  done : (t : S) → Answered s (some (t, none)) (t, record { status = 204; body = no_body })
  not_done :
      (t : S) (e : Failure) (c : ErrCode) (m : Message)
      → as_app e ≡ some (c, m)
      → Answered s (some (t, some e)) (t, record { status = http_status c; body = error_body c m })
  failed_inside :
      (t : S) (e : Failure)
      → as_app e ≡ none
      → Answered s (some (t, some e)) (
        t,
        record {
          status = 500;
          body = error_body ErrCode.internal (text "error interno del servidor");
        },
      )
  crashed :
      Answered s none (s, record { status = 500; body = plain_body "error interno del servidor" })

write_response-Answered :
    {S : Type 0} (s : S) (out : Option (Response S)) → Answered s out (write_response s out)
unfolding write_error
write_response-Answered s none = crashed
write_response-Answered s (some (t, none)) = done t
write_response-Answered s (some (t, some e)) = elim (Option-cases (as_app e)) [
  | inl n ↦ rw (n, write_error) (failed_inside t e n)
  | inr ((c, m), n) ↦ rw (n, write_error) (not_done t e c m n)
]

-- A request to register a result is either refused, with the status 422 and the world as it was, or
-- it spells a command, which leaves the world as its handler leaves it. It is answered with 204 and no
-- body where the handler returns no error, with the status and the message of its application error,
-- with 500 for another error, and with 500 where the handler panics.
pub register_result-Answers :
    {S : Type 0} (web : Web) (ports : Ports S) (env : Runtime) (r : Request) (s : S)
    → (((register_result web ports env r s).0 ≡ s)
        × ((register_result web ports env r s).1.status ≡ 422))
      ⊎ ((c : RegisterMatchResultCmd) × (register_command web r ≡ read c)
          × Answered
              (ports.get s c.tournament_id).0
              (handle_register ports env c s)
              (register_result web ports env r s))
register_result-Answers web ports env r s =
    rw (register_result-run web ports env r s)
      (elim (run_input-cases s (register_command web r)
        (λ c. write_response (ports.get s c.tournament_id).0 (handle_register ports env c s))
        (register_command-IsRefused web r)) [
          | inl h ↦ inl h
          | inr (c, q, e) ↦ inr (c, q, rw e (write_response-Answered _ _))
        ])

-- The fields that a request and a message both have.
abbrev pub body_of : ResultIngestedPayload → ResultBody
body_of p = record {
  home_team_id = p.home_team_id;
  away_team_id = p.away_team_id;
  home_goals = p.home_goals;
  away_goals = p.away_goals;
  home_goals_et = p.home_goals_et;
  away_goals_et = p.away_goals_et;
  home_goals_pen = p.home_goals_pen;
  away_goals_pen = p.away_goals_pen;
  completed_at = p.completed_at;
  registered_by = p.registered_by;
}

-- The value that was read, if it was.
abbrev pub accepted : {B : Type 0} → In B → Option B
accepted (read b) = some b
accepted (refused e) = none

-- A request and a message that carry the same texts and numbers spell the same command, or neither
-- spells one: `toCommand` with the two ids of the path agrees with `buildRegisterCmd` of the
-- consumer.
pub register_command-Agrees :
    (web : Web) (r : Request) (p : ResultIngestedPayload)
    → r.url_param "tournamentID" ≡ p.tournament_id
    → r.url_param "matchID" ≡ p.match_id
    → decode_json {D = DomainError} (web.decode_result r.body) ≡ read (body_of p)
    → accepted (register_command web r) ≡ build_register_cmd web.codec p
unfolding build_register_cmd parse_tournament_id parse_match_id to_register_command and_then
    or_refuse
register_command-Agrees web r p ht hm hb = ground (arith, ht, hm, hb)

-- What a table leads to is one of its names.
lookup_name-mem :
    (table : List (String × String)) (raw name : String)
    → lookup_name table raw ≡ some name
    → mem_name (map (λ e. e.1) table) name ≡ true
unfolding lookup_name mem_name
lookup_name-mem [] raw name h = cc
lookup_name-mem ((key, n) ∷ rest) raw name h =
    ground (arith, lookup_name-mem rest raw name, eq_iff n name)

validate_round_query-known :
    (id : Uuid) (phase : String)
    → id ≢ nil_uuid
    → mem_name knockout_phases phase ≡ true
    → validate_round_query id phase ≡ none
unfolding validate_round_query
validate_round_query-known id phase n h =
    let z : (id == nil_uuid) ≡ false = ground arith in rw (z, h) refl

-- Each phase that `parseKnockoutPhase` returns is one that the query accepts: with a tournament id
-- that is not nil, the round of that phase is read and written.
pub get_knockout_round-Reads :
    {S : Type 0} (web : Web) (rm : ReadModels S) (s : S) (r : Request) (id : Uuid) (phase : String)
    → parse_tournament_id web r ≡ read id
    → id ≢ nil_uuid
    → lookup_name phase_names (r.url_param "phase") ≡ some phase
    → get_knockout_round web rm s r ≡ write_result round_payload (rm.get_knockout_round s id phase)
unfolding get_knockout_round parse_knockout_phase handle_get_knockout_round validate_round_query
    or_refuse
get_knockout_round-Reads web rm s r id phase q n h =
    let valid : validate_round_query id phase ≡ none =
      validate_round_query-known id phase n (lookup_name-mem phase_names _ phase h) in
    rw (q, h, valid) refl
