-- ===== src/Core/Fixture/Contents.antt =====
-- The types and payloads of the events that `RegisterMatchResult` of
-- contexts/fixture-core/internal/domain/fixture/fixture.go appends, written out.
use mathlib.Core.List.{append-nil, append_assoc, map-append}
use wc_fixture.Base.{
  Uuid, nil_uuid, String, ◌≡◌, refl, sym, ap, ap₂, ◌∙◌, none, some, List, [], ◌∷◌, ◌++◌, Bool, true,
  false, if◌then◌else◌, map, ◌==◌,
}
use wc_fixture.Core.Result.{MatchResult, winner, loser}
use wc_fixture.Core.Match.{complete}
use wc_fixture.Core.Group.{Group, is_complete}
use wc_fixture.Core.Thirds.{classify}
use wc_fixture.Core.Events as Events
use wc_fixture.Core.Events.{
  DomainEvent, EventType, Payload, match_result_registered, group_stage_completed,
  knockout_bracket_generated, tournament_finished, knockout_match_advanced, result_registered,
  group_completed, bracket_generated, match_advanced, new_event, build_result_payload,
  build_group_completed_payload, to_standing_snaps, to_match_snaps,
}
use wc_fixture.Core.Fixture.{
  Fixture, Runtime, MatchPointer, append_event, find_next_match, write_match,
}
use wc_fixture.Core.Fixture.Bracket.{third_candidates, build_round_of_32, resolve_group_classified}
use wc_fixture.Core.Fixture.Advance.{is_final, pointed_id}

abbrev pub Content : Type 0
Content = EventType × Payload

abbrev pub content : DomainEvent → Content
content e = (e.event_type, e.payload)

-- The events are the old ones as they were, and behind them new ones of these types and payloads.
pub record Appends (old events : List DomainEvent) (cs : List Content) : Type 0 where
  pub new : List DomainEvent
  pub appended : events ≡ old ++ new
  pub contents : map content new ≡ cs

pub Appends-nothing : (es : List DomainEvent) → Appends es es []
Appends-nothing es = record { new = []; appended = sym (append-nil es); contents = refl }

pub Appends-then :
    {es fs gs : List DomainEvent} {xs ys : List Content}
    → Appends es fs xs
    → Appends fs gs ys
    → Appends es gs (xs ++ ys)
Appends-then {es} {fs} {gs} {xs} {ys} a b = record {
  new = a.new ++ b.new;
  appended = b.appended ∙ ap (λ l. l ++ b.new) a.appended ∙ simp append_assoc;
  contents = map-append content a.new b.new ∙ ap₂ ◌++◌ a.contents b.contents;
}

pub append_event-Appends :
    (env : Runtime) (f : Fixture) (t : EventType) (p : Payload)
    → Appends f.pending_events (append_event env f t p).pending_events ((t, p) ∷ [])
unfolding append_event new_event
append_event-Appends env f t p = record { new = _; appended = refl; contents = refl }

abbrev pub only_if : Bool → Content → List Content
only_if true c = c ∷ []
only_if false c = []

-- The event of the result itself.
abbrev pub result_content : Uuid → String → MatchResult → Content
result_content id group_name r = (
  match_result_registered,
  result_registered (record {
    match_id = id;
    phase = none;
    group_name = group_name;
    home_team_id = r.home_team_id;
    away_team_id = r.away_team_id;
    home_goals = r.home_goals;
    away_goals = r.away_goals;
    home_goals_et = r.home_goals_et;
    away_goals_et = r.away_goals_et;
    home_goals_pen = r.home_goals_pen;
    away_goals_pen = r.away_goals_pen;
    winner_team_id = if winner r == nil_uuid then none else some (winner r);
    completed_at = r.completed_at;
  }),
)

-- The event of the bracket, from the groups as they are then.
abbrev pub bracket_content : Runtime → Uuid → List Group → Content
bracket_content env tournament_id groups =
    let best = classify env.slice_stable (third_candidates groups) in
    (
      knockout_bracket_generated,
      bracket_generated (record {
        tournament_id = tournament_id;
        best_thirds_selected = best;
        round_of_32_matches =
            to_match_snaps (build_round_of_32 env (resolve_group_classified groups) best);
        generated_at = env.now;
      }),
    )

-- The events of a result in a group: `g` is the group after it, `groups` are all groups after it.
abbrev pub group_contents :
    Runtime → Uuid → Uuid → MatchResult → Group → List Group → Bool → List Content
group_contents env tournament_id id r g groups all =
    result_content id g.name r
    ∷ (only_if (is_complete g) (
      group_stage_completed,
      group_completed (record {
        group_name = g.name;
        standings = to_standing_snaps g.standings;
        completed_at = env.now;
      }),
    )
        ++ only_if all (bracket_content env tournament_id groups))

-- The events of a result in a knockout match.
abbrev pub knockout_contents : Runtime → Uuid → Uuid → MatchResult → MatchPointer → List Content
knockout_contents env tournament_id id r p =
    let done = complete r p.match.here in
    result_content id "" r
    ∷ (only_if (is_final p.round.here.phase) (
      tournament_finished,
      Events.finished (record {
        tournament_id = tournament_id;
        champion_id = winner r;
        runner_up_id = loser r;
        third_place_id = nil_uuid;
        final_match_id = p.match.here.id;
        finished_at = env.now;
      }),
    )
        ++ ((
          knockout_match_advanced,
          match_advanced (record {
            completed_match_id = p.match.here.id;
            winner_team_id = winner r;
            loser_team_id = loser r;
            next_match_id = pointed_id (find_next_match (write_match p done) done);
            phase = p.round.here.phase;
            advanced_at = env.now;
          }),
        )
            ∷ []))
