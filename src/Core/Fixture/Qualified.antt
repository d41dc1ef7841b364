-- ===== src/Core/Fixture/Qualified.antt =====
-- Who plays in the first knockout round: the two best of every group and the eight best thirds.
use wc_fixture.Base.{
  ℕ, suc, ◌+◌, Uuid, nil_uuid, String, ◌≡◌, refl, sym, ap, ◌∙◌, List, [], ◌∷◌, ◌++◌, arith, true,
  false, map, length, length-map, ◌==◌, subst,
}
use wc_fixture.Base.Perms.{total}
use wc_fixture.Core.Slot.{MatchSlot, slot_for_team, is_resolved}
use wc_fixture.Core.Match.{Match, round_of_32, both_slots_resolved, is_completed}
use wc_fixture.Core.Group.{Group, classified_teams}
use wc_fixture.Core.Group.Tally.{bit}
use wc_fixture.Core.Fixture.{Runtime}
use wc_fixture.Core.Fixture.Bracket.{
  Classified, add_classified, resolve_group_classified, first_of_group, second_of_group, or_nil,
  best_thirds_or_nil, round_of_32_pairs, new_match, matches_of_pairs, build_round_of_32,
}

-- The names of the groups, in the order of the table.
abbrev pub group_letters : List String
group_letters = "A" ∷ "B" ∷ "C" ∷ "D" ∷ "E" ∷ "F" ∷ "G" ∷ "H" ∷ "I" ∷ "J" ∷ "K" ∷ "L" ∷ []

-- How often a team stands in a list.
abbrev pub occurrences : Uuid → List Uuid → ℕ
occurrences t = total (λ u. bit (u == t))

abbrev pub team_of : MatchSlot → Uuid
team_of s = or_nil s.team_id

-- The teams in the slots of the matches, home and away.
abbrev pub slot_teams : List Match → List Uuid
slot_teams [] = []
slot_teams (m ∷ rest) = team_of m.home_slot ∷ team_of m.away_slot ∷ slot_teams rest

abbrev pub firsts : List Group → List Uuid
firsts = map (λ g. (classified_teams g).0)

abbrev pub seconds : List Group → List Uuid
seconds = map (λ g. (classified_teams g).1)

-- The map of the classified teams, built from names and pairs.
add_named : Classified → List String → List (Uuid × Uuid) → Classified
add_named acc (n ∷ ns) ((a, b) ∷ ps) = add_named ((n, a, b) ∷ acc) ns ps
add_named acc _ _ = acc

add_classified-add_named :
    (acc : Classified) (groups : List Group)
    → add_classified acc groups
      ≡ add_named acc (map (λ g. g.name) groups) (map classified_teams groups)
unfolding add_classified add_named
add_classified-add_named acc [] = refl
add_classified-add_named acc (g ∷ rest) =
    let (a, b) = classified_teams g in add_classified-add_named ((g.name, a, b) ∷ acc) rest

abbrev pair_teams : List (Uuid × Uuid) → List Uuid
pair_teams [] = []
pair_teams ((a, b) ∷ rest) = a ∷ b ∷ pair_teams rest

-- The draw pairs twelve firsts, twelve seconds and eight thirds, each once.
total-pairs :
    (v : Uuid → ℕ) (ps : List (Uuid × Uuid)) (best : List Uuid)
    → length ps ≡ 12
    → length best ≡ 8
    → total v (pair_teams (round_of_32_pairs (add_named [] group_letters ps) best))
      ≡ total v (map (λ (p : Uuid × Uuid). p.0) ps)
        + (total v (map (λ (p : Uuid × Uuid). p.1) ps) + total v best)
unfolding total add_named round_of_32_pairs first_of_group second_of_group best_thirds_or_nil
total-pairs v
      ((a1, b1)
        ∷ (a2, b2)
        ∷ (a3, b3)
        ∷ (a4, b4)
        ∷ (a5, b5)
        ∷ (a6, b6)
        ∷ (a7, b7)
        ∷ (a8, b8)
        ∷ (a9, b9)
        ∷ (a10, b10)
        ∷ (a11, b11)
        ∷ (a12, b12)
        ∷ [])
      (t1 ∷ t2 ∷ t3 ∷ t4 ∷ t5 ∷ t6 ∷ t7 ∷ t8 ∷ []) h k =
    omega arith
total-pairs v ps best h k = absurd (omega arith)

slot_teams-matches_of_pairs :
    (env : Runtime) (i : ℕ) (ps : List (Uuid × Uuid))
    → slot_teams (matches_of_pairs env i ps) ≡ pair_teams ps
unfolding matches_of_pairs new_match slot_for_team
slot_teams-matches_of_pairs env i [] = refl
slot_teams-matches_of_pairs env i ((home, away) ∷ ps) =
    ap (λ l. home ∷ away ∷ l) (slot_teams-matches_of_pairs env (suc i) ps)

total-map :
    (v : Uuid → ℕ) (f : Uuid × Uuid → Uuid) (groups : List Group)
    → total v (map f (map classified_teams groups))
      ≡ total v (map (λ g. f (classified_teams g)) groups)
unfolding total
total-map v f [] = refl
total-map v f (g ∷ rest) = omega (arith, total-map v f rest)

total-append : (v : Uuid → ℕ) (xs ys : List Uuid) → total v (xs ++ ys) ≡ total v xs + total v ys
unfolding total
total-append v [] ys = omega arith
total-append v (x ∷ xs) ys = omega (arith, total-append v xs ys)

-- In the first knockout round of a tournament with groups A to L every team occurs as often as
-- among the group winners, the runners-up and the eight best thirds together.
pub build_round_of_32-qualified :
    (env : Runtime) (groups : List Group) (best : List Uuid) (t : Uuid)
    → map (λ g. g.name) groups ≡ group_letters
    → length best ≡ 8
    → occurrences t (slot_teams (build_round_of_32 env (resolve_group_classified groups) best))
      ≡ occurrences t (firsts groups ++ (seconds groups ++ best))
unfolding build_round_of_32 resolve_group_classified
build_round_of_32-qualified env groups best t names eight =
    let v : Uuid → ℕ = λ u. bit (u == t) in
    let ps = map classified_teams groups in
    let len : length ps ≡ 12 =
      length-map classified_teams groups
      ∙ sym (length-map (λ (g : Group). g.name) groups)
      ∙ ap length names in
    rw (slot_teams-matches_of_pairs env 0 _, add_classified-add_named [] groups, names)
      (total-pairs v ps best len eight
        ∙ omega (
          arith,
          total-map v (λ (p : Uuid × Uuid). p.0) groups,
          total-map v (λ (p : Uuid × Uuid). p.1) groups,
          total-append v (firsts groups) (seconds groups ++ best),
          total-append v (seconds groups) best,
        ))

-- The sixteen matches are numbered from 49, wait for their day, and have both teams.
abbrev pub IsRoundOf32 : ℕ → List Match → Type 0
IsRoundOf32 n [] = Unit
IsRoundOf32 n (m ∷ rest) =
    (m.match_number ≡ n)
    × (m.phase ≡ round_of_32)
    × (both_slots_resolved m ≡ true)
    × (is_completed m ≡ false)
    × IsRoundOf32 (suc n) rest

matches_of_pairs-IsRoundOf32 :
    (env : Runtime) (i : ℕ) (ps : List (Uuid × Uuid))
    → IsRoundOf32 (49 + i) (matches_of_pairs env i ps)
unfolding matches_of_pairs new_match both_slots_resolved is_resolved slot_for_team is_completed
matches_of_pairs-IsRoundOf32 env i [] = tt
matches_of_pairs-IsRoundOf32 env i ((home, away) ∷ ps) = (
  refl,
  refl,
  refl,
  refl,
  subst (λ n. IsRoundOf32 n (matches_of_pairs env (suc i) ps)) (omega arith)
      (matches_of_pairs-IsRoundOf32 env (suc i) ps),
)

length-matches_of_pairs :
    (env : Runtime) (i : ℕ) (ps : List (Uuid × Uuid))
    → length (matches_of_pairs env i ps) ≡ length ps
unfolding matches_of_pairs
length-matches_of_pairs env i [] = refl
length-matches_of_pairs env i ((home, away) ∷ ps) = ap suc (length-matches_of_pairs env (suc i) ps)

-- For groups A to L whose two best are teams, and eight thirds that are teams, the round has sixteen
-- open matches, numbered from 49 on, with both slots resolved, and none of its slots holds `uuid.Nil`.
pub build_round_of_32-IsRoundOf32 :
    (env : Runtime) (groups : List Group) (best : List Uuid)
    → map (λ g. g.name) groups ≡ group_letters
    → length best ≡ 8
    → occurrences nil_uuid (firsts groups ++ (seconds groups ++ best)) ≡ 0
    → (length (build_round_of_32 env (resolve_group_classified groups) best) ≡ 16)
      × IsRoundOf32 49 (build_round_of_32 env (resolve_group_classified groups) best)
      × (occurrences nil_uuid
            (slot_teams (build_round_of_32 env (resolve_group_classified groups) best))
          ≡ 0)
unfolding build_round_of_32 round_of_32_pairs
build_round_of_32-IsRoundOf32 env groups best names eight real = (
  length-matches_of_pairs env 0 (round_of_32_pairs (resolve_group_classified groups) best),
  matches_of_pairs-IsRoundOf32 env 0 _,
  build_round_of_32-qualified env groups best nil_uuid names eight ∙ real,
)
