-- ===== src/Core/Fixture/Invariant.antt =====
-- The aggregate between two commands: every group has its six matches and the status that goes with
-- them; there is no round while some group is open, and the whole bracket from then on.
use wc_fixture.Base.{
  Uuid, ◌≡◌, refl, sym, ap, subst, ◌∙◌, some, List, [], ◌∷◌, ◌++◌, arith, Bool, true, false, not,
  ◌&&◌, inl, inr, All, Bool-cases, length, length-append, is_some,
}
use wc_fixture.Base.Cursor.{Cursor, write, find-IsFirst, All-write, All-here}
use wc_fixture.Core.Result.{MatchResult}
use wc_fixture.Core.Match.{Match, complete}
use wc_fixture.Core.Group.{Group, completed_match_count, find_match}
use wc_fixture.Core.Group.Apply.{
  IsGroup, Accepts, accepted, accepted-IsGroup, accepted-count, count_completed-le-length,
}
use wc_fixture.Core.Fixture.{
  Fixture, Runtime, TournamentStatus, draft, group_stage, append_event, all_groups_complete,
  all_completed, is_completed_group, find_group_by_match, find_knockout_match, find_in_rounds,
  MatchPointer, knockout, drain_events, write_match,
}
use wc_fixture.Core.Events.{match_result_registered, build_result_payload}
use wc_fixture.Core.Fixture.Bracket.{generate_knockout_bracket}
use wc_fixture.Core.Fixture.Advance.{advance_knockout_bracket, advance_rounds, finish_tournament}
use wc_fixture.Core.Fixture.Pointer.{find_in_rounds-IsPlaced}
use wc_fixture.Core.Fixture.Shape.{
  round_sizes, full_bracket, generate_knockout_bracket-round_sizes, write_match-round_sizes,
  advance_rounds-round_sizes,
}
use wc_fixture.Core.Fixture.Register.{
  close_group, close_group_stage, after_group_result, after_knockout_result, register_match_result,
}
use wc_fixture.Core.Fixture.Outcome.{
  Outcome, refused, in_group, in_knockout, register_match_result-Outcome,
  all_groups_complete-groups, groups-close_group,
}

-- The group stage is not over.
abbrev pub is_open : TournamentStatus → Bool
is_open draft = true
is_open group_stage = true
is_open _ = false

pub record IsConsistent (f : Fixture) : Type 0 where
  pub groups_ok : All IsGroup f.groups
  pub stage_exact : all_groups_complete f ≡ not (is_open f.status)
  pub no_rounds : is_open f.status ≡ true → f.knockout_rounds ≡ []
  pub bracket : is_open f.status ≡ false → round_sizes f.knockout_rounds ≡ full_bracket

all_completed-append :
    (xs ys : List Group) → all_completed (xs ++ ys) ≡ (all_completed xs && all_completed ys)
unfolding all_completed
all_completed-append [] ys = refl
all_completed-append (g ∷ xs) ys = ground (arith, all_completed-append xs ys)

-- A group that is not complete keeps the stage open.
all_completed_here :
    (groups : List Group) (c : Cursor Group)
    → groups ≡ c.before ++ (c.here ∷ c.after)
    → is_completed_group c.here.status ≡ false
    → all_completed groups ≡ false
all_completed_here groups c e h =
    rw e
      (rw (all_completed-append c.before (c.here ∷ c.after)) (unfold all_completed in ground arith))

-- A bracket in which a match is found is not empty.
pub open_no_match :
    (id : Uuid) (f : Fixture) (p : MatchPointer)
    → IsConsistent f
    → find_knockout_match f.knockout_rounds id ≡ some p
    → is_open f.status ≡ false
unfolding find_knockout_match find_in_rounds
open_no_match id f p h q = elim (Bool-cases (is_open f.status)) [
  | inl o ↦ absurd (cc (rw (h.no_rounds o) at q))
  | inr o ↦ o
]

-- Replacing a group by one of the same status keeps the stage.
pub all_groups_complete-write :
    (f h : Fixture) (c : Cursor Group) (g : Group)
    → f.groups ≡ c.before ++ (c.here ∷ c.after)
    → g.status ≡ c.here.status
    → h.groups ≡ write c g
    → all_groups_complete h ≡ all_groups_complete f
unfolding all_groups_complete
all_groups_complete-write f h c g e s w =
    let same : all_completed (write c g) ≡ all_completed f.groups =
      rw
        (
          e,
          all_completed-append c.before (g ∷ c.after),
          all_completed-append c.before (c.here ∷ c.after),
        )
        (unfold all_completed in rw s) in
    let len : length (write c g) ≡ length f.groups = omega (
      arith,
      ap length e,
      length-append c.before (g ∷ c.after),
      length-append c.before (c.here ∷ c.after),
    ) in
    rw (w, same, len)

-- A group that accepts a result is not complete before it.
Accepts-incomplete :
    (g : Group) (id : Uuid) (r : MatchResult) (c : Cursor Match)
    → IsGroup g
    → Accepts g id r c
    → is_completed_group g.status ≡ false
unfolding completed_match_count
Accepts-incomplete g id r c h a =
    let k = accepted-IsGroup g id r c a h in
    let n = accepted-count g id r c a in
    let le = count_completed-le-length (accepted g r c).matches in
    ground (arith, h.status_exact, k.six)

IsConsistent-of :
    (f g : Fixture)
    → g.groups ≡ f.groups
    → g.status ≡ f.status
    → g.knockout_rounds ≡ f.knockout_rounds
    → IsConsistent f
    → IsConsistent g
IsConsistent-of f g e s n h = record {
  groups_ok = subst (All IsGroup) (sym e) h.groups_ok;
  stage_exact =
      all_groups_complete-groups g f e ∙ h.stage_exact ∙ ap (λ t. not (is_open t)) (sym s);
  no_rounds = λ o. n ∙ h.no_rounds (ap is_open (sym s) ∙ o);
  bracket = λ o. ap round_sizes n ∙ h.bracket (ap is_open (sym s) ∙ o);
}

module _ (env : Runtime) where
  close_group_stage-IsConsistent :
      (f : Fixture)
      → is_open f.status ≡ true
      → f.knockout_rounds ≡ []
      → All IsGroup f.groups
      → IsConsistent (close_group_stage env f)
  unfolding close_group_stage
  close_group_stage-IsConsistent f o n h = elim (Bool-cases (all_groups_complete f)) [
    | inl e ↦
        let b = record (generate_knockout_bracket env f) { status = knockout } in
        let same : b.groups ≡ f.groups = unfold generate_knockout_bracket append_event in refl in
        rw e (record {
          groups_ok = subst (All IsGroup) (sym same) h;
          stage_exact = all_groups_complete-groups b f same ∙ e;
          no_rounds = λ k. cc;
          bracket = λ _. generate_knockout_bracket-round_sizes env f;
        })
    | inr e ↦ rw e (record {
      groups_ok = h;
      stage_exact = e ∙ ap not (sym o);
      no_rounds = λ _. n;
      bracket = λ k. absurd (cc);
    })
  ]

module _ (env : Runtime) (id : Uuid) (r : MatchResult) where
  after_group_result-IsConsistent :
      (c : Cursor Group) (g : Group) (f : Fixture)
      → is_open f.status ≡ true
      → f.knockout_rounds ≡ []
      → All IsGroup (write c g)
      → IsConsistent (after_group_result env id r c g f)
  unfolding after_group_result close_group append_event
  after_group_result-IsConsistent c g f o n h =
      let f1 = record f { groups = write c g } in
      let f2 = append_event env f1 match_result_registered (build_result_payload id g.name r) in
      let f3 = close_group env g f2 in
      let k =
        close_group_stage-IsConsistent env f3
          (ap is_open (unfold close_group append_event in ground arith) ∙ o)
          ((unfold close_group append_event in ground arith) ∙ n)
          (subst (All IsGroup) (sym (groups-close_group env id r g f2)) h) in
      IsConsistent-of (close_group_stage env f3) _ refl refl refl k

  module _ (f : Fixture) (c : Cursor Group) (m : Cursor Match) (h : IsConsistent f)
      (found : find_group_by_match f.groups id ≡ some c) (a : Accepts c.here id r m) where
    pub group_place : f.groups ≡ c.before ++ (c.here ∷ c.after)
    unfolding find_group_by_match
    group_place = (find-IsFirst (λ g. is_some (find_match g id)) f.groups c found).place

    -- Only while the group stage is open does a group accept a result.
    pub accepts_open : is_open f.status ≡ true
    unfolding all_groups_complete
    accepts_open =
        let ok = All-here IsGroup f.groups c group_place h.groups_ok in
        let no_all =
          all_completed_here f.groups c group_place (Accepts-incomplete c.here id r m ok a) in
        ground (arith, h.stage_exact)

    group_result-IsConsistent : IsConsistent (after_group_result env id r c (accepted c.here r m) f)
    group_result-IsConsistent =
        let ok = All-here IsGroup f.groups c group_place h.groups_ok in
        after_group_result-IsConsistent c (accepted c.here r m) f accepts_open
          (h.no_rounds accepts_open)
          (All-write IsGroup f.groups c _ group_place h.groups_ok
            (accepted-IsGroup c.here id r m a ok))

  after_knockout_result-IsConsistent :
      (p : MatchPointer) (f : Fixture)
      → find_knockout_match f.knockout_rounds id ≡ some p
      → is_open f.status ≡ false
      → IsConsistent f
      → IsConsistent (after_knockout_result env id r p f)
  unfolding find_knockout_match after_knockout_result advance_knockout_bracket finish_tournament
      append_event
  after_knockout_result-IsConsistent p f found o h =
      let g = after_knockout_result env id r p f in
      let done = complete r p.match.here in
      let rounds = write_match p done in
      let advanced : g.knockout_rounds ≡ advance_rounds done p.round.here.phase r rounds =
        ground arith in
      let shape =
        advance_rounds-round_sizes done p.round.here.phase r rounds
        ∙ write_match-round_sizes _ f.knockout_rounds p done
            (find_in_rounds-IsPlaced _ f.knockout_rounds p found) in
      let same : g.groups ≡ f.groups = ground arith in
      let closed : is_open g.status ≡ false = ground arith in
      record {
        groups_ok = subst (All IsGroup) (sym same) h.groups_ok;
        stage_exact = all_groups_complete-groups g f same ∙ h.stage_exact ∙ ap not (o ∙ sym closed);
        no_rounds = λ k. absurd (cc);
        bracket = λ _. ap round_sizes advanced ∙ shape ∙ h.bracket o;
      }

-- The invariant is kept, whatever result is registered and whatever it answers.
pub register_match_result-IsConsistent :
    (env : Runtime) (f : Fixture) (id : Uuid) (r : MatchResult)
    → IsConsistent f
    → IsConsistent (register_match_result env f id r).0
register_match_result-IsConsistent env f id r h = go (register_match_result-Outcome env f id r)
  where
    go :
        Outcome env f id r (register_match_result env f id r)
        → IsConsistent (register_match_result env f id r).0
    go (refused e q) = rw q h
    go (in_group c m s found a q) = rw q (group_result-IsConsistent env id r f c m h found a)
    go (in_knockout p s n found v q) =
        rw q
          (after_knockout_result-IsConsistent env id r p f found (open_no_match id f p h found) h)

pub drain-IsConsistent : (f : Fixture) → IsConsistent f → IsConsistent (drain_events f).0
unfolding drain_events
drain-IsConsistent f h = IsConsistent-of f _ refl refl refl h
