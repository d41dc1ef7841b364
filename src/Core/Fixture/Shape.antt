-- ===== src/Core/Fixture/Shape.antt =====
-- The shape of the bracket: its rounds, and how many matches each has.
use mathlib.Core.List.{map-append}
use wc_fixture.Base.{
  ℕ, Uuid, Bool, ◌≡◌, refl, sym, ap, ◌∙◌, List, [], ◌∷◌, ◌++◌, inl, inr, map, length, length-map,
  length-append, arith, Bool-cases, Option-cases,
}
use wc_fixture.Base.Cursor.{Cursor, write}
use wc_fixture.Core.Result.{MatchResult, winner, loser}
use wc_fixture.Core.Match.{
  MatchPhase, Match, round_of_32, quarterfinal, semifinal, third_place, final,
}
use wc_fixture.Core.Fixture.{
  Fixture, Round, Runtime, MatchPointer, append_event, write_match, find_next_match,
}
use wc_fixture.Core.Fixture.Bracket.{
  round_of_32_pairs, matches_of_pairs, build_round_of_32, build_empty_round, later_rounds,
  generate_knockout_bracket,
}
use wc_fixture.Core.Fixture.Advance.{
  is_semifinal, is_third_place, resolve_third, assign_third_place_slot, fill_next, advance_rounds,
}
use wc_fixture.Core.Fixture.Pointer.{IsPlaced, find_in_rounds-IsPlaced}

abbrev pub round_size : Round → MatchPhase × ℕ
round_size r = (r.phase, length r.matches)

abbrev pub round_sizes : List Round → List (MatchPhase × ℕ)
round_sizes rounds = map round_size rounds

-- Sixteen matches, eight, four, the match for the third place and the final.
abbrev pub full_bracket : List (MatchPhase × ℕ)
full_bracket =
    (round_of_32, 16) ∷ (quarterfinal, 8) ∷ (semifinal, 4) ∷ (third_place, 1) ∷ (final, 1) ∷ []

pub generate_knockout_bracket-round_sizes :
    (env : Runtime) (f : Fixture)
    → round_sizes (generate_knockout_bracket env f).knockout_rounds ≡ full_bracket
unfolding generate_knockout_bracket append_event later_rounds build_round_of_32 build_empty_round
    round_of_32_pairs matches_of_pairs
generate_knockout_bracket-round_sizes env f = refl

length-put :
    (c : Cursor Match) (m : Match) → length (write c m) ≡ length (c.before ++ (c.here ∷ c.after))
length-put c m =
    omega (arith, length-append c.before (m ∷ c.after), length-append c.before (c.here ∷ c.after))

-- A write through a pointer into the bracket keeps its shape.
pub write_match-round_sizes :
    (test : Match → Bool) (rounds : List Round) (p : MatchPointer) (m : Match)
    → IsPlaced test rounds p
    → round_sizes (write_match p m) ≡ round_sizes rounds
unfolding write_match
write_match-round_sizes test rounds p m k =
    let r = p.round.here in
    let same : round_size (record r { matches = write p.match m }) ≡ round_size r =
      ap (λ n. (r.phase, n)) (length-put p.match m ∙ ap length (sym k.match_place)) in
    map-append round_size p.round.before _
    ∙ ap (λ x. round_sizes p.round.before ++ (x ∷ round_sizes p.round.after)) same
    ∙ sym (map-append round_size p.round.before (r ∷ p.round.after))
    ∙ ap round_sizes (sym k.round_place)

fill_next-round_sizes :
    (done : Match) (winner_id : Uuid) (rounds : List Round)
    → round_sizes (fill_next (find_next_match rounds done) done winner_id rounds)
      ≡ round_sizes rounds
unfolding find_next_match
fill_next-round_sizes done winner_id rounds = elim (Option-cases (find_next_match rounds done)) [
  | inl n ↦ rw n refl
  | inr (p, q) ↦ rw q (write_match-round_sizes _ rounds p _ (find_in_rounds-IsPlaced _ rounds p q))
]

assign_third_place_slot-round_sizes :
    (id team : Uuid) (rounds : List Round)
    → round_sizes (assign_third_place_slot id team rounds) ≡ round_sizes rounds
unfolding assign_third_place_slot
assign_third_place_slot-round_sizes id team [] = refl
assign_third_place_slot-round_sizes id team (r ∷ rest) =
    elim (Bool-cases (is_third_place r.phase)) [
      | inl h ↦
          rw
            (
              h,
              assign_third_place_slot-round_sizes id team rest,
              length-map (resolve_third id team) r.matches,
            )
            refl
      | inr h ↦ rw (h, assign_third_place_slot-round_sizes id team rest) refl
    ]

-- Advancing the winners keeps the shape.
pub advance_rounds-round_sizes :
    (done : Match) (phase : MatchPhase) (r : MatchResult) (rounds : List Round)
    → round_sizes (advance_rounds done phase r rounds) ≡ round_sizes rounds
unfolding advance_rounds
advance_rounds-round_sizes done phase r rounds = elim (Bool-cases (is_semifinal phase)) [
  | inl h ↦ rw h (
      assign_third_place_slot-round_sizes done.id (loser r) _
      ∙ fill_next-round_sizes done (winner r) rounds)
  | inr h ↦ rw h (fill_next-round_sizes done (winner r) rounds)
]
