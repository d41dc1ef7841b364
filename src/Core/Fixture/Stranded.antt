-- ===== src/Core/Fixture/Stranded.antt =====
-- Brackets that name no parent matches, and whose later rounds wait for their teams.
use wc_fixture.Base.{
  ℕ, zero, suc, Uuid, ◌≡◌, ◌≢◌, refl, sym, ap, subst, ◌∙◌, none, some, List, [], ◌∷◌, arith, Bool,
  true, false, inl, inr, All, Bool-cases, map,
}
use wc_fixture.Base.Cursor.{Cursor, write}
use wc_fixture.Base.Order.{All-mono}
use wc_fixture.Core.Result.{MatchResult, loser}
use wc_fixture.Core.Slot.{is_resolved, empty_slot}
use wc_fixture.Core.Match.{
  MatchPhase, Match, round_of_32, quarterfinal, semifinal, third_place, final, both_slots_resolved,
  validate_result, complete,
}
use wc_fixture.Core.Group.{Group}
use wc_fixture.Core.Group.Apply.{accepted}
use wc_fixture.Core.Events.{match_result_registered, build_result_payload}
use wc_fixture.Core.Fixture.{
  Fixture, Runtime, Round, MatchPointer, append_event, find_knockout_match, find_next_match,
  write_match, is_finished, all_groups_complete,
}
use wc_fixture.Core.Fixture.Bracket.{
  generate_knockout_bracket, build_round_of_32, matches_of_pairs, build_empty_round, later_rounds,
  new_match,
}
use wc_fixture.Core.Fixture.Advance.{
  advance_knockout_bracket, advance_rounds, is_final, resolve_third, assign_third_place_slot,
}
use wc_fixture.Core.Fixture.Register.{
  close_group, close_group_stage, after_group_result, after_knockout_result, register_match_result,
}
use wc_fixture.Core.Fixture.Outcome.{
  Outcome, refused, in_group, in_knockout, register_match_result-Outcome,
}
use wc_fixture.Core.Fixture.Pointer.{
  AllMatches, AllMatches-here, AllMatches-write, find_in_rounds-IsPlaced, find_in_rounds-eq_none,
}

abbrev pub is_round_of_32 : MatchPhase → Bool
is_round_of_32 round_of_32 = true
is_round_of_32 _ = false

-- A match without parents, which waits for its teams if it stands in a later round.
abbrev pub IsStrandedMatch : MatchPhase → Match → Type 0
IsStrandedMatch phase m =
    (m.parent_home_match_id ≡ none)
    × (m.parent_away_match_id ≡ none)
    × (is_round_of_32 phase ≡ false → both_slots_resolved m ≡ false)

abbrev pub IsStranded : List Round → Type 0
IsStranded = AllMatches IsStrandedMatch

-- The bracket as it is generated.

matches_of_pairs-All :
    (env : Runtime) (i : ℕ) (pairs : List (Uuid × Uuid))
    → All (IsStrandedMatch round_of_32) (matches_of_pairs env i pairs)
unfolding matches_of_pairs new_match
matches_of_pairs-All env i [] = tt
matches_of_pairs-All env i ((home, away) ∷ pairs) =
    ((refl, refl, λ h. cc), matches_of_pairs-All env (suc i) pairs)

build_empty_round-All :
    (env : Runtime) (drawn : ℕ) (phase phase' : MatchPhase) (count number : ℕ)
    → All (IsStrandedMatch phase') (build_empty_round env drawn phase count number)
unfolding build_empty_round new_match both_slots_resolved is_resolved empty_slot
build_empty_round-All env drawn phase phase' zero number = tt
build_empty_round-All env drawn phase phase' (suc count) number =
    ((refl, refl, λ h. refl), build_empty_round-All env (suc drawn) phase phase' count (suc number))

-- No match of a generated bracket names a parent match, and no match of its rounds after the first has
-- both its teams.
pub generate_knockout_bracket-IsStranded :
    (env : Runtime) (f : Fixture) → IsStranded (generate_knockout_bracket env f).knockout_rounds
unfolding generate_knockout_bracket append_event later_rounds build_round_of_32
generate_knockout_bracket-IsStranded env f =
    let quarter = build_empty_round-All env 16 quarterfinal quarterfinal 8 _ in
    let semi = build_empty_round-All env 24 semifinal semifinal 4 _ in
    let third = build_empty_round-All env 28 third_place third_place 1 _ in
    let last = build_empty_round-All env 29 final final 1 _ in
    (matches_of_pairs-All env 0 _, (quarter, (semi, (third, (last, tt)))))

-- Advancing in such a bracket.

AllMatches-mono :
    (P Q : MatchPhase → Match → Type 0)
    → ((phase : MatchPhase) (m : Match) → P phase m → Q phase m)
    → (rounds : List Round) → AllMatches P rounds
    → AllMatches Q rounds
AllMatches-mono P Q f rounds = All-mono _ _ (λ r. All-mono _ _ (f r.phase) r.matches) rounds

find_next_match-eq_none :
    (rounds : List Round) (done : Match) → IsStranded rounds → find_next_match rounds done ≡ none
unfolding find_next_match
find_next_match-eq_none rounds done h =
    find_in_rounds-eq_none _ rounds
      (AllMatches-mono IsStrandedMatch _ (λ phase m k. ground arith) rounds h)

map-resolve_third :
    (phase : MatchPhase) (id team : Uuid) (ms : List Match)
    → All (IsStrandedMatch phase) ms
    → map (resolve_third id team) ms ≡ ms
unfolding resolve_third
map-resolve_third phase id team [] h = refl
map-resolve_third phase id team (m ∷ ms) h =
    let (home, away, waits) = h.0 in rw (home, away, map-resolve_third phase id team ms h.1)

assign_third_place_slot_same :
    (id team : Uuid) (rounds : List Round)
    → IsStranded rounds
    → assign_third_place_slot id team rounds ≡ rounds
unfolding assign_third_place_slot
assign_third_place_slot_same id team [] h = refl
assign_third_place_slot_same id team (r ∷ rest) h = ground (
  arith,
  map-resolve_third r.phase id team r.matches h.0,
  assign_third_place_slot_same id team rest h.1,
)

pub advance_rounds_same :
    (done : Match) (phase : MatchPhase) (r : MatchResult) (rounds : List Round)
    → IsStranded rounds
    → advance_rounds done phase r rounds ≡ rounds
unfolding advance_rounds
advance_rounds_same done phase r rounds h =
    rw (find_next_match-eq_none rounds done h)
      (ground (arith, assign_third_place_slot_same done.id (loser r) rounds h))

-- An unfinished aggregate whose bracket, if there is one, is stranded.
pub record IsUnfinished (f : Fixture) : Type 0 where
  pub running : is_finished f.status ≡ false
  pub stranded : IsStranded f.knockout_rounds

-- A match of a later round of such a bracket refuses every result.
pub later_round_refuses :
    (phase : MatchPhase) (m : Match) (r : MatchResult)
    → IsStrandedMatch phase m
    → is_round_of_32 phase ≡ false
    → validate_result m r ≢ none
unfolding validate_result
later_round_refuses phase m r h k = ground (arith, h.2 k)

valid_in_round_of_32 :
    (phase : MatchPhase) (m : Match) (r : MatchResult)
    → IsStrandedMatch phase m
    → validate_result m r ≡ none
    → is_final phase ≡ false
valid_in_round_of_32 round_of_32 m r h v = refl
valid_in_round_of_32 final m r h v = absurd (later_round_refuses final m r h refl v)
valid_in_round_of_32 _ m r h v = refl

module _ (env : Runtime) (id : Uuid) (r : MatchResult) where
  close_group_stage-IsUnfinished :
      (f : Fixture) → IsUnfinished f → IsUnfinished (close_group_stage env f)
  unfolding close_group_stage
  close_group_stage-IsUnfinished f h = elim (Bool-cases (all_groups_complete f)) [
    | inl e ↦
        rw e (record { running = refl; stranded = generate_knockout_bracket-IsStranded env f })
    | inr e ↦ rw e h
  ]

  after_group_result-IsUnfinished :
      (c : Cursor Group) (g : Group) (f : Fixture)
      → IsUnfinished f
      → IsUnfinished (after_group_result env id r c g f)
  unfolding after_group_result
  after_group_result-IsUnfinished c g f h =
      let f1 = record f { groups = write c g } in
      let f2 = append_event env f1 match_result_registered (build_result_payload id g.name r) in
      let f3 = close_group env g f2 in
      let rounds : f3.knockout_rounds ≡ f.knockout_rounds =
        unfold close_group append_event in ground arith in
      let status : f3.status ≡ f.status = unfold close_group append_event in ground arith in
      let k = close_group_stage-IsUnfinished f3 (record {
        running = ap is_finished status ∙ h.running;
        stranded = subst IsStranded (sym rounds) h.stranded;
      }) in
      record { running = k.running; stranded = k.stranded }

  write-IsStranded :
      (f : Fixture) (p : MatchPointer)
      → IsStranded f.knockout_rounds
      → find_knockout_match f.knockout_rounds id ≡ some p
      → IsStranded (write_match p (complete r p.match.here))
  unfolding find_knockout_match complete both_slots_resolved
  write-IsStranded f p h found =
      let k = find_in_rounds-IsPlaced _ f.knockout_rounds p found in
      AllMatches-write IsStrandedMatch _ f.knockout_rounds p k h _
        (AllMatches-here IsStrandedMatch _ f.knockout_rounds p k h)

  after_knockout_result-IsUnfinished :
      (p : MatchPointer) (f : Fixture)
      → IsUnfinished f
      → find_knockout_match f.knockout_rounds id ≡ some p
      → validate_result p.match.here r ≡ none
      → IsUnfinished (after_knockout_result env id r p f)
  unfolding after_knockout_result advance_knockout_bracket append_event find_knockout_match
  after_knockout_result-IsUnfinished p f h found v =
      let k = find_in_rounds-IsPlaced _ f.knockout_rounds p found in
      let here = AllMatches-here IsStrandedMatch _ f.knockout_rounds p k h.stranded in
      let w = write-IsStranded f p h.stranded found in
      let no_final = valid_in_round_of_32 p.round.here.phase p.match.here r here v in
      rw no_final (record {
        running = h.running;
        stranded =
            subst IsStranded
              (sym (advance_rounds_same (complete r p.match.here) p.round.here.phase r _ w)) w;
      })

pub register_match_result-IsUnfinished :
    (env : Runtime) (f : Fixture) (id : Uuid) (r : MatchResult)
    → IsUnfinished f
    → IsUnfinished (register_match_result env f id r).0
register_match_result-IsUnfinished env f id r h = go (register_match_result-Outcome env f id r)
  where
    go :
        Outcome env f id r (register_match_result env f id r)
        → IsUnfinished (register_match_result env f id r).0
    go (refused e q) = rw q h
    go (in_group c m s found a q) =
        rw q (after_group_result-IsUnfinished env id r c (accepted c.here r m) f h)
    go (in_knockout p s n found v q) =
        rw q (after_knockout_result-IsUnfinished env id r p f h found v)
