-- ===== src/Core/Fixture/Announced.antt =====
-- The events that `RegisterMatchResult` of contexts/fixture-core/internal/domain/fixture/fixture.go
-- appends, with their payloads.
use wc_fixture.Base.{
  Uuid, nil_uuid, ◌≡◌, refl, ap₂, ◌∙◌, none, some, ◌⊎◌, inl, inr, Bool-cases, if◌then◌else◌, subst,
  arith,
}
use wc_fixture.Base.Cursor.{Cursor, write}
use wc_fixture.Core.Result.{MatchResult, winner, loser}
use wc_fixture.Core.Match.{complete}
use wc_fixture.Core.Group.{Group, apply_result, is_complete}
use wc_fixture.Core.Group.Apply.{accepted, Accepts-apply_result}
use wc_fixture.Core.Events as Events
use wc_fixture.Core.Events.{
  DomainEvent, EventType, Payload, match_result_registered, group_stage_completed,
  knockout_bracket_generated, tournament_finished, knockout_match_advanced, result_registered,
  group_completed, bracket_generated, match_advanced, new_event, build_result_payload,
  build_group_completed_payload, to_standing_snaps, to_match_snaps,
}
use wc_fixture.Core.Fixture.{
  Fixture, Runtime, MatchPointer, append_event, all_groups_complete, find_group_by_match,
  find_knockout_match, write_match,
}
use wc_fixture.Core.Fixture.Bracket.{generate_knockout_bracket, best_third_candidates}
use wc_fixture.Core.Fixture.Advance.{
  advance_knockout_bracket, advance_rounds, finish_tournament, is_final,
}
use wc_fixture.Core.Fixture.Register.{
  close_group, close_group_stage, after_group_result, after_knockout_result, register_match_result,
}
use wc_fixture.Core.Fixture.Outcome.{
  Outcome, refused, in_group, in_knockout, register_match_result-Outcome, IsSuccessor,
  after_group_result-IsSuccessor, after_knockout_result-IsSuccessor, all_groups_complete-groups,
  groups-close_group,
}
use wc_fixture.Core.Fixture.Contents.{
  Appends, Appends-nothing, Appends-then, append_event-Appends, only_if, bracket_content,
  group_contents, knockout_contents,
}

module _ (env : Runtime) (id : Uuid) (r : MatchResult) where
  close_group-Appends :
      (g : Group) (f : Fixture)
      → Appends f.pending_events
          (close_group env g f).pending_events
          (only_if (is_complete g) (group_stage_completed, build_group_completed_payload env.now g))
  unfolding close_group
  close_group-Appends g f = elim (Bool-cases (is_complete g)) [
    | inl h ↦ rw h (append_event-Appends env f group_stage_completed _)
    | inr h ↦ rw h (Appends-nothing _)
  ]

  close_group_stage-Appends :
      (f : Fixture)
      → Appends f.pending_events
          (close_group_stage env f).pending_events
          (only_if (all_groups_complete f) (bracket_content env f.tournament_id f.groups))
  unfolding close_group_stage generate_knockout_bracket best_third_candidates
  close_group_stage-Appends f = elim (Bool-cases (all_groups_complete f)) [
    | inl h ↦ rw h (append_event-Appends env _ knockout_bracket_generated _)
    | inr h ↦ rw h (Appends-nothing _)
  ]

  tournament_id-close_group :
      (g : Group) (f : Fixture) → (close_group env g f).tournament_id ≡ f.tournament_id
  unfolding close_group append_event
  tournament_id-close_group g f = ground arith

  after_group_result-Appends :
      (c : Cursor Group) (g : Group) (f : Fixture)
      → Appends f.pending_events (after_group_result env id r c g f).pending_events (
          group_contents env f.tournament_id id r g
            (write c g)
            (all_groups_complete (record f { groups = write c g })))
  unfolding after_group_result build_result_payload build_group_completed_payload
  after_group_result-Appends c g f =
      let f1 = record f { groups = write c g } in
      let f2 = append_event env f1 match_result_registered (build_result_payload id g.name r) in
      let f3 = close_group env g f2 in
      let same : f3.groups ≡ write c g =
        groups-close_group env id r g f2 ∙ (unfold append_event in refl) in
      let all = all_groups_complete-groups f3 f1 same in
      let tid : f3.tournament_id ≡ f.tournament_id =
        tournament_id-close_group g f2 ∙ (unfold append_event in refl) in
      Appends-then (append_event-Appends env f1 match_result_registered _) (
        Appends-then (close_group-Appends g f2) (
          subst (Appends f3.pending_events (close_group_stage env f3).pending_events)
            (ap₂ only_if all (ap₂ (bracket_content env) tid same)) (close_group_stage-Appends f3)))

  finish-Appends :
      (p : MatchPointer) (f : Fixture)
      → Appends f.pending_events
          (if is_final p.round.here.phase
            then finish_tournament env (complete r p.match.here) r f
            else f).pending_events
          (only_if (is_final p.round.here.phase) (
            tournament_finished,
            Events.finished (record {
              tournament_id = f.tournament_id;
              champion_id = winner r;
              runner_up_id = loser r;
              third_place_id = nil_uuid;
              final_match_id = p.match.here.id;
              finished_at = env.now;
            }),
          ))
  unfolding finish_tournament complete
  finish-Appends p f = elim (Bool-cases (is_final p.round.here.phase)) [
    | inl h ↦ rw h (append_event-Appends env _ tournament_finished _)
    | inr h ↦ rw h (Appends-nothing _)
  ]

  after_knockout_result-Appends :
      (p : MatchPointer) (f : Fixture)
      → Appends f.pending_events
          (after_knockout_result env id r p f).pending_events
          (knockout_contents env f.tournament_id id r p)
  unfolding after_knockout_result advance_knockout_bracket build_result_payload append_event
      complete
  after_knockout_result-Appends p f =
      let done = complete r p.match.here in
      let f1 = record f { knockout_rounds = write_match p done } in
      let f2 = append_event env f1 match_result_registered (build_result_payload id "" r) in
      let rounds = advance_rounds done p.round.here.phase r f2.knockout_rounds in
      let f3 = record f2 { knockout_rounds = rounds } in
      let f4 = if is_final p.round.here.phase then finish_tournament env done r f3 else f3 in
      Appends-then (append_event-Appends env f1 match_result_registered _)
        (Appends-then (finish-Appends p f3) (append_event-Appends env f4 knockout_match_advanced _))

-- What a call that returns no error has done, on either path.
pub record IsRegistered (env : Runtime) (f : Fixture) (id : Uuid) (r : MatchResult) (g : Fixture)
    : Type 0 where
  pub successor : IsSuccessor f g
  pub events :
      ((c : Cursor Group) × (h : Group) × (find_group_by_match f.groups id ≡ some c)
        × (apply_result c.here id r ≡ (h, none))
        × Appends f.pending_events g.pending_events (
            group_contents env f.tournament_id id r h
              (write c h)
              (all_groups_complete (record f { groups = write c h }))))
      ⊎ ((p : MatchPointer) × (find_knockout_match f.knockout_rounds id ≡ some p)
          × Appends f.pending_events g.pending_events
              (knockout_contents env f.tournament_id id r p))

-- A call that returns no error counts the version up by one, keeps the tournament's identity, and
-- appends to the pending events, which stay as they are, the events of its path with their payloads.
pub register_match_result_success :
    (env : Runtime) (f : Fixture) (id : Uuid) (r : MatchResult)
    → (register_match_result env f id r).1 ≡ none
    → IsRegistered env f id r (register_match_result env f id r).0
register_match_result_success env f id r h = go (register_match_result-Outcome env f id r)
  where
    go :
        Outcome env f id r (register_match_result env f id r)
        → IsRegistered env f id r (register_match_result env f id r).0
    go (refused e q) = absurd (cc)
    go (in_group c m s found a q) = rw q (record {
      successor = after_group_result-IsSuccessor env id r c (accepted c.here r m) f;
      events = inl (
        c,
        accepted c.here r m,
        found,
        Accepts-apply_result c.here id r m a,
        after_group_result-Appends env id r c (accepted c.here r m) f,
      );
    })
    go (in_knockout p s n found v q) = rw q (record {
      successor = after_knockout_result-IsSuccessor env id r p f;
      events = inr (p, found, after_knockout_result-Appends env id r p f);
    })
