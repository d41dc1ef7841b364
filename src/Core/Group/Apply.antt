-- ===== src/Core/Group/Apply.antt =====
-- `applyResult`: which results a group accepts, what it does with one, and the invariant that ties
-- the status of a group to its completed matches.
use wc_fixture.Base.{
  ℕ, suc, ◌+◌, ◌≤◌, Uuid, ◌≡◌, refl, sym, ap, ◌∙◌, none, some, List, [], ◌∷◌, ◌++◌, arith, true,
  false, ◌⊎◌, inl, inr, length, ◌==◌, if◌then◌else◌, Option-cases, Bool-cases, length-append,
}
use wc_fixture.Base.Cursor.{Cursor, write, find-IsFirst}
use wc_fixture.Core.Errors.{DomainError, err_match_not_found}
use wc_fixture.Core.Result.{MatchResult}
use wc_fixture.Core.Match.{Match, is_completed, validate_result, complete}
use wc_fixture.Core.Group as Group
use wc_fixture.Core.Group.{
  Group, GroupStatus, count_completed, completed_match_count, is_complete, find_match,
  recalculate_standings, start, update_status, apply_at, apply_result, matches_per_group,
}
use wc_fixture.Core.Group.Table.{IsTable, recalculate_standings-IsTable}
use wc_fixture.Core.Group.Tally.{bit}

-- The status that goes with a number of completed matches.
abbrev pub status_after : ℕ → GroupStatus
status_after n =
    if n == 0
    then Group.pending
    else if n == matches_per_group
    then Group.completed
    else Group.in_progress

-- A group of six matches whose status is that of its completed matches.
pub record IsGroup (g : Group) : Type 0 where
  pub six : length g.matches ≡ matches_per_group
  pub status_exact : g.status ≡ status_after (completed_match_count g)

count_completed-append :
    (xs ys : List Match) → count_completed (xs ++ ys) ≡ count_completed xs + count_completed ys
unfolding count_completed
count_completed-append [] ys = omega arith
count_completed-append (x ∷ xs) ys = ground (arith, count_completed-append xs ys)

count_completed-here :
    (x : Match) (xs : List Match)
    → count_completed (x ∷ xs) ≡ bit (is_completed x) + count_completed xs
unfolding count_completed
count_completed-here x xs = ground arith

pub count_completed-le-length : (xs : List Match) → count_completed xs ≤ length xs
unfolding count_completed
count_completed-le-length [] = omega arith
count_completed-le-length (x ∷ xs) = ground (arith, count_completed-le-length xs)

-- Completing a match that was not complete adds one to the count.
pub count_completed-write :
    (xs : List Match) (c : Cursor Match) (m : Match)
    → xs ≡ c.before ++ (c.here ∷ c.after)
    → is_completed c.here ≡ false
    → is_completed m ≡ true
    → count_completed (write c m) ≡ suc (count_completed xs)
count_completed-write xs c m e h k = omega (
  arith,
  count_completed-append c.before (m ∷ c.after),
  count_completed-append c.before (c.here ∷ c.after),
  ap count_completed e,
  count_completed-here m c.after,
  count_completed-here c.here c.after,
  ap bit h,
  ap bit k,
)

-- A write of a match that is complete exactly if the old one is keeps the count.
pub count_completed-write_same :
    (xs : List Match) (c : Cursor Match) (m : Match)
    → xs ≡ c.before ++ (c.here ∷ c.after)
    → is_completed m ≡ is_completed c.here
    → count_completed (write c m) ≡ count_completed xs
count_completed-write_same xs c m e h = omega (
  arith,
  count_completed-append c.before (m ∷ c.after),
  count_completed-append c.before (c.here ∷ c.after),
  ap count_completed e,
  count_completed-here m c.after,
  count_completed-here c.here c.after,
  ap bit h,
)

pub length-write :
    (xs : List Match) (c : Cursor Match) (m : Match)
    → xs ≡ c.before ++ (c.here ∷ c.after)
    → length (write c m) ≡ length xs
length-write xs c m e = omega (
  arith,
  length-append c.before (m ∷ c.after),
  length-append c.before (c.here ∷ c.after),
  ap length e,
)

-- The result is accepted by the match that the id names.
pub record Accepts (g : Group) (id : Uuid) (r : MatchResult) (c : Cursor Match) : Type 0 where
  pub found : find_match g id ≡ some c
  pub valid : validate_result c.here r ≡ none

pub validate_none-is_completed :
    (m : Match) (r : MatchResult) → validate_result m r ≡ none → is_completed m ≡ false
unfolding validate_result
validate_none-is_completed m r h = ground arith

pub complete-is_completed : (r : MatchResult) (m : Match) → is_completed (complete r m) ≡ true
unfolding is_completed complete
complete-is_completed r m = refl

-- The group after an accepted result.
pub accepted : Group → MatchResult → Cursor Match → Group
accepted g r c =
    update_status (recalculate_standings (record g { matches = write c (complete r c.here) }))

-- A result is either refused, and the group is as it was, or accepted by a match of that id.
pub apply_result-cases :
    (g : Group) (id : Uuid) (r : MatchResult)
    → ((e : DomainError) × (apply_result g id r ≡ (g, some e)))
      ⊎ ((c : Cursor Match) × Accepts g id r c × (apply_result g id r ≡ (accepted g r c, none)))
unfolding apply_result apply_at accepted
apply_result-cases g id r = elim (Option-cases (find_match g id)) [
  | inl n ↦ inl (err_match_not_found id, rw (n, apply_result))
  | inr (c, s) ↦ elim (Option-cases (validate_result c.here r)) [
    | inl v ↦ inr (c, record { found = s; valid = v }, rw (s, apply_result) (rw (v, apply_at)))
    | inr (e, v) ↦ inl (e, rw (s, apply_result) (rw (v, apply_at)))
  ]
]

status-update_status :
    (g : Group) (n : ℕ)
    → g.status ≡ status_after n
    → completed_match_count g ≡ suc n
    → suc n ≤ matches_per_group
    → (update_status g).status ≡ status_after (suc n)
unfolding update_status is_complete completed_match_count
status-update_status g n s e le = ground arith

IsTable-status : (g : Group) (s : GroupStatus) → IsTable g → IsTable (record g { status = s })
IsTable-status g s t = record {
  tallies = t.tallies;
  teams = t.teams;
  sorted = t.sorted;
  numbered = t.numbered;
}

update_status-IsTable : (g : Group) → IsTable g → IsTable (update_status g)
unfolding update_status
update_status-IsTable g t = elim (Bool-cases (is_complete (record g { status = start g.status }))) [
  | inl h ↦ rw h (IsTable-status g Group.completed t)
  | inr h ↦ rw h (IsTable-status g (start g.status) t)
]

module _ (g : Group) (id : Uuid) (r : MatchResult) (c : Cursor Match) (a : Accepts g id r c) where
  place_of : g.matches ≡ c.before ++ (c.here ∷ c.after)
  unfolding find_match
  place_of = (find-IsFirst (λ m. m.id == id) g.matches c a.found).place

  count-accepted : count_completed (write c (complete r c.here)) ≡ suc (count_completed g.matches)
  count-accepted =
      count_completed-write g.matches c (complete r c.here) place_of
        (validate_none-is_completed c.here r a.valid) (complete-is_completed r c.here)

  -- An accepted result completes one more match, and changes no other.
  pub accepted_matches : (accepted g r c).matches ≡ c.before ++ (complete r c.here ∷ c.after)
  unfolding accepted update_status recalculate_standings
  accepted_matches = ground arith

  pub accepted-count : completed_match_count (accepted g r c) ≡ suc (completed_match_count g)
  unfolding completed_match_count
  accepted-count = rw accepted_matches count-accepted

  -- The invariant of the group is kept.
  pub accepted-IsGroup : IsGroup g → IsGroup (accepted g r c)
  unfolding accepted recalculate_standings completed_match_count
  accepted-IsGroup h =
      let w = write c (complete r c.here) in
      let k = recalculate_standings (record g { matches = w }) in
      let len = length-write g.matches c (complete r c.here) place_of in
      record {
        six = ap length accepted_matches ∙ len ∙ h.six;
        status_exact =
            status-update_status k (count_completed g.matches) h.status_exact count-accepted
              (omega (arith, count_completed-le-length w, count-accepted, h.six))
            ∙ ap status_after (sym accepted-count);
      }

  -- The standings are the table of the group with the new result.
  pub accepted-IsTable : IsTable (accepted g r c)
  unfolding accepted
  accepted-IsTable = update_status-IsTable _ (recalculate_standings-IsTable _)

pub Accepts-apply_result :
    (g : Group) (id : Uuid) (r : MatchResult) (c : Cursor Match)
    → Accepts g id r c
    → apply_result g id r ≡ (accepted g r c, none)
unfolding apply_result apply_at accepted
Accepts-apply_result g id r c a = rw (a.found, apply_result) (rw (a.valid, apply_at))

-- What a group is after a result that `applyResult` accepts.
pub record IsUpdated (g h : Group) : Type 0 where
  pub group : IsGroup h
  pub table : IsTable h
  pub one_more : completed_match_count h ≡ suc (completed_match_count g)

-- When `applyResult` returns no error on a group of six matches with the right status, the group that
-- it leaves is one again, has one more completed match, and its standings are its table.
pub apply_result-IsUpdated :
    (g : Group) (id : Uuid) (r : MatchResult)
    → IsGroup g
    → (apply_result g id r).1 ≡ none
    → IsUpdated g (apply_result g id r).0
apply_result-IsUpdated g id r h n = elim (apply_result-cases g id r) [
  | inl (e, q) ↦ absurd (cc)
  | inr (c, a, q) ↦ rw q (record {
    group = accepted-IsGroup g id r c a h;
    table = accepted-IsTable g id r c a;
    one_more = accepted-count g id r c a;
  })
]
