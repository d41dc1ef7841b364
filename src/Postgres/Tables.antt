-- ===== src/Postgres/Tables.antt =====
-- The tables that `Save` of contexts/fixture-core/internal/infrastructure/postgres/fixture_repository.go
-- and `AppendEvents` of event_store.go write, and what each of their statements does to them. The
-- columns `updated_at` and the number of an event row are left out: nothing reads them.
use wc_fixture.Base.{
  ℕ, Uuid, Time, String, Bool, ◌&&◌, Option, none, some, List, [], ◌∷◌, ◌++◌, ◌==◌, if◌then◌else◌,
}
use wc_fixture.Core.Slot.{GroupRef, MatchSlot}
use wc_fixture.Core.Result.{MatchResult}
use wc_fixture.Core.Standing.{GroupStanding}
use wc_fixture.Core.Events.{EventType, Payload}
use wc_fixture.Queries.Dtos.{kind_text}

mutual
  -- What a JSONB column keeps.
  pub data Json : Type 0 where
    null_value : Json
    string_value : String → Json
    uuid_value : Uuid → Json
    int_value : ℕ → Json
    object_value : Fields → Json

  pub data Fields : Type 0 where
    no_fields : Fields
    field : String → Json → Fields → Fields

abbrev pub uuid_or_null : Option Uuid → Json
uuid_or_null none = null_value
uuid_or_null (some id) = uuid_value id

abbrev pub encode_group_ref : Option GroupRef → Json
encode_group_ref none = null_value
encode_group_ref (some g) = object_value (
    field "GroupName" (string_value g.group_name)
      (field "Position" (int_value g.position) no_fields))

-- `json.Marshal` of a slot, whose fields have no tags: the keys are the names of the Go fields.
unfoldable pub encode_slot : MatchSlot → Json
encode_slot s = object_value (
    field "Kind" (string_value (kind_text s.kind)) (
      field "TeamID" (uuid_or_null s.team_id) (
        field "SourceMatchID" (uuid_or_null s.source_match_id)
          (field "GroupRef" (encode_group_ref s.group_ref) no_fields))))

pub record TournamentRow : Type 0 where
  pub id : Uuid
  pub tournament_id : Uuid
  pub edition : ℕ
  pub name : String
  pub status : String
  pub version : ℕ

pub record StoredMatch : Type 0 where
  pub id : Uuid
  pub tournament_id : Uuid
  pub group_id : Option Uuid
  pub phase : String
  pub match_number : ℕ
  pub home_slot : Json
  pub away_slot : Json
  pub venue_id : Uuid
  pub scheduled_at : Time
  pub status : String
  pub parent_home_id : Option Uuid
  pub parent_away_id : Option Uuid

pub record StoredResult : Type 0 where
  pub match_id : Uuid
  pub result : MatchResult
  pub winner_id : Option Uuid

pub record StoredStanding : Type 0 where
  pub group_id : Uuid
  pub standing : GroupStanding

pub record EventRow : Type 0 where
  pub tournament_id : Uuid
  pub event_type : EventType
  pub event_version : ℕ
  pub payload : Payload
  pub occurred_at : Time
  pub aggregate_version : ℕ

pub record Database : Type 0 where
  pub tournaments : List TournamentRow
  pub matches : List StoredMatch
  pub results : List StoredResult
  pub standings : List StoredStanding
  pub events : List EventRow

pub data Statement : Type 0 where
  upsert_match : StoredMatch → Statement
  upsert_result : StoredResult → Statement
  upsert_standing : StoredStanding → Statement
  insert_event : EventRow → Statement

-- `INSERT ... ON CONFLICT (key) DO UPDATE`: the row is added, or merged into the one with its key.
unfoldable pub upsert : {A : Type 0} → (A → A → Bool) → (A → A → A) → A → List A → List A
upsert same merge x [] = x ∷ []
upsert same merge x (y ∷ ys) =
    let rest = upsert same merge x ys in if same y x then merge y x ∷ ys else y ∷ rest

abbrev pub same_match : StoredMatch → StoredMatch → Bool
same_match old new = old.id == new.id

-- The columns that the statement sets on a match that is there already.
abbrev pub merge_match : StoredMatch → StoredMatch → StoredMatch
merge_match old new = record old {
  home_slot = new.home_slot;
  away_slot = new.away_slot;
  venue_id = new.venue_id;
  scheduled_at = new.scheduled_at;
  status = new.status;
}

abbrev pub same_result : StoredResult → StoredResult → Bool
same_result old new = old.match_id == new.match_id

abbrev pub merge_result : StoredResult → StoredResult → StoredResult
merge_result old new = record {
  match_id = old.match_id;
  result = record new.result {
    home_team_id = old.result.home_team_id;
    away_team_id = old.result.away_team_id;
  };
  winner_id = new.winner_id;
}

abbrev pub same_standing : StoredStanding → StoredStanding → Bool
same_standing old new =
    (old.group_id == new.group_id) && (old.standing.team_id == new.standing.team_id)

abbrev pub merge_standing : StoredStanding → StoredStanding → StoredStanding
merge_standing old new = new

unfoldable pub apply_statement : Statement → Database → Database
apply_statement (upsert_match m) db = record db {
  matches = upsert same_match merge_match m db.matches;
}
apply_statement (upsert_result r) db = record db {
  results = upsert same_result merge_result r db.results;
}
apply_statement (upsert_standing s) db = record db {
  standings = upsert same_standing merge_standing s db.standings;
}
apply_statement (insert_event e) db = record db { events = db.events ++ e ∷ [] }
