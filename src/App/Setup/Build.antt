-- ===== src/App/Setup/Build.antt =====
-- What `buildFixture` of initialize_tournament.go returns for a command that `validate` accepts.
use wc_fixture.Base.{
  ℕ, suc, ◌+◌, Uuid, ◌≡◌, refl, ap, ◌∙◌, false, none, some, arith, List, [], ◌∷◌, length, All,
}
use wc_fixture.Base.Order.{All-mono}
use wc_fixture.Core.Match.{is_completed}
use wc_fixture.Core.Group.{Group, pending, count_completed, completed_match_count}
use wc_fixture.Core.Group.Apply.{IsGroup}
use wc_fixture.Core.Fixture.{Fixture, Runtime, all_completed, all_groups_complete, group_stage}
use wc_fixture.Core.Fixture.Invariant.{IsConsistent}
use wc_fixture.Core.Fixture.Stranded.{IsUnfinished}
use wc_fixture.App.Setup.{
  MatchConfig, GroupConfig, InitializeTournamentCmd, validate_groups, validate_init_cmd,
  build_teams, build_standings, build_match, build_matches, build_group, build_groups,
  build_fixture, ids_of_group, ids_of_groups,
}

length-build_matches :
    (env : Runtime) (n : ℕ) (cs : List MatchConfig) → length (build_matches env n cs) ≡ length cs
unfolding build_matches
length-build_matches env n [] = refl
length-build_matches env n (c ∷ cs) = ap suc (length-build_matches env (suc n) cs)

count_completed-build_matches :
    (env : Runtime) (n : ℕ) (cs : List MatchConfig) → count_completed (build_matches env n cs) ≡ 0
unfolding build_matches count_completed build_match is_completed
count_completed-build_matches env n [] = refl
count_completed-build_matches env n (c ∷ cs) = count_completed-build_matches env (suc n) cs

record HasFour (ts : List Uuid) : Type 0 where
  first : Uuid
  second : Uuid
  third : Uuid
  fourth : Uuid
  listed : ts ≡ first ∷ second ∷ third ∷ fourth ∷ []

length_four : (ts : List Uuid) → length ts ≡ 4 → HasFour ts
length_four (a ∷ b ∷ c ∷ d ∷ []) h = record {
  first = a;
  second = b;
  third = c;
  fourth = d;
  listed = refl;
}
length_four [] h = absurd (omega arith)
length_four (a ∷ []) h = absurd (omega arith)
length_four (a ∷ b ∷ []) h = absurd (omega arith)
length_four (a ∷ b ∷ c ∷ []) h = absurd (omega arith)
length_four (a ∷ b ∷ c ∷ d ∷ e ∷ ts) h = absurd (omega arith)

record IsBuilt (g : Group) : Type 0 where
  ok : IsGroup g
  waiting : g.status ≡ pending

build_group-four :
    (env : Runtime) (n : ℕ) (c : GroupConfig)
    → length c.teams ≡ 4
    → length c.matches ≡ 6
    → (g : Group) × (build_group env n c ≡ some g) × IsBuilt g
unfolding build_group build_teams build_standings completed_match_count
build_group-four env n c four six =
    let t = length_four c.teams four in
    let none_yet = count_completed-build_matches env n c.matches in
    rw t.listed (
      _,
      refl,
      record {
        ok = record {
          six = length-build_matches env n c.matches ∙ six;
          status_exact = rw none_yet refl;
        };
        waiting = refl;
      },
    )

validate_groups-cons :
    (c : GroupConfig) (cs : List GroupConfig)
    → validate_groups (c ∷ cs) ≡ none
    → (length c.teams ≡ 4) × (length c.matches ≡ 6) × (validate_groups cs ≡ none)
unfolding validate_groups
validate_groups-cons c cs e = ground arith

all_completed-built : (g : Group) (gs : List Group) → IsBuilt g → all_completed (g ∷ gs) ≡ false
unfolding all_completed
all_completed-built g gs h = rw h.waiting refl

build_groups-IsBuilt :
    (env : Runtime) (n : ℕ) (cs : List GroupConfig)
    → validate_groups cs ≡ none
    → (gs : List Group) × (build_groups env n cs ≡ some gs)
      × All IsBuilt gs
      × (length gs ≡ length cs)
unfolding build_groups
build_groups-IsBuilt env n [] e = ([], refl, tt, refl)
build_groups-IsBuilt env n (c ∷ cs) e =
    let (four, six, later) = validate_groups-cons c cs e in
    let (g, q, built) = build_group-four env n c four six in
    let (gs, qs, all_built, len) = build_groups-IsBuilt env (n + ids_of_group c) cs later in
    (g ∷ gs, rw (q, qs) refl, (built, all_built), ap suc len)

validate_init_cmd-groups :
    (c : InitializeTournamentCmd)
    → validate_init_cmd c ≡ none
    → (length c.groups ≡ 12) × (validate_groups c.groups ≡ none)
unfolding validate_init_cmd
validate_init_cmd-groups c e = ground arith

all_completed-All_built :
    (gs : List Group) → length gs ≡ 12 → All IsBuilt gs → all_completed gs ≡ false
all_completed-All_built [] len h = absurd (omega arith)
all_completed-All_built (g ∷ gs) len h = all_completed-built g gs h.0

abbrev initial : Runtime → InitializeTournamentCmd → List Group → Fixture
initial env c gs = record {
  id = env.match_id (ids_of_groups c.groups);
  tournament_id = c.tournament_id;
  edition = c.edition;
  name = c.name;
  status = group_stage;
  groups = gs;
  knockout_rounds = [];
  version = 0;
  pending_events = [];
}

build_fixture-initial :
    (env : Runtime) (c : InitializeTournamentCmd) (gs : List Group)
    → build_groups env 0 c.groups ≡ some gs
    → build_fixture env c ≡ some (initial env c gs)
unfolding build_fixture
build_fixture-initial env c gs q = rw (q, build_fixture) refl

initial-IsConsistent :
    (env : Runtime) (c : InitializeTournamentCmd) (gs : List Group)
    → length gs ≡ 12
    → All IsBuilt gs
    → IsConsistent (initial env c gs)
unfolding all_groups_complete
initial-IsConsistent env c gs len built =
    let incomplete = all_completed-All_built gs len built in
    record {
      groups_ok = All-mono _ _ (λ g (h : IsBuilt g). h.ok) gs built;
      stage_exact = rw (incomplete, len) refl;
      no_rounds = λ _. refl;
      bracket = λ o. absurd (cc);
    }

-- `buildFixture` does not panic on a command that `validate` accepts, and the aggregate that it
-- returns is consistent, has no bracket, is not finished and has no pending events.
pub build_fixture-IsConsistent :
    (env : Runtime) (c : InitializeTournamentCmd)
    → validate_init_cmd c ≡ none
    → (f : Fixture) × (build_fixture env c ≡ some f)
      × IsConsistent f
      × IsUnfinished f
      × (f.pending_events ≡ [])
build_fixture-IsConsistent env c e =
    let (twelve, groups) = validate_init_cmd-groups c e in
    let (gs, q, built, len) = build_groups-IsBuilt env 0 c.groups groups in
    (
      initial env c gs,
      build_fixture-initial env c gs q,
      initial-IsConsistent env c gs (len ∙ twelve) built,
      record { running = refl; stranded = tt },
      refl,
    )
