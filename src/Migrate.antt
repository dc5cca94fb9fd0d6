-- ===== src/Migrate.antt =====
-- backend/internal/db/migrate/migrate.go: applying and rolling back migrations.
--
-- The database is what the scripts act on, of the type `Schema`, with the rows of schema_migrations
-- and a script of failures. Postgres is not in the repository: `exec` says what the SQL of a
-- migration does to the schema, with `none` where a statement of it fails. A script runs in one
-- transaction (wrapTx), so it acts whole, with its bookkeeping statement, or not at all.
pub mod Up
pub mod Down
pub mod Files
pub mod Create
pub mod Scripts
use text.Mathlib.Text.{is_le}
use Prim.Native.String.{compare}
use ai_it_dab_com.Prelude.Faults.{fails, later}
use ai_it_dab_com.Prelude.{
  ℕ, zero, suc, String, Bool, true, false, not, Option, none, some, List, [], ◌∷◌, ◌++◌, map, ◌==◌,
  any, if◌then◌else◌,
}
use ai_it_dab_com.Prelude.Int.{ℤ, positive}

pub record Migration : Type 0 where
  pub version : String
  pub name : String
  pub up : String
  pub down : String

pub record Status : Type 0 where
  pub version : String
  pub name : String
  pub applied : Bool

-- A row of schema_migrations, with the version as its primary key.
pub record Row : Type 0 where
  pub version : String
  pub name : String

pub record MigrateDb (Schema : Type 0) : Type 0 where
  pub schema : Schema
  pub rows : List Row
  pub faults : List Bool

-- What Up and Down return: the versions, and the error's text beside them.
pub record Outcome : Type 0 where
  pub versions : List String
  pub failure : Option String

abbrev pub has_version : String → List String → Bool
has_version v = any (λ u. u == v)

abbrev pub versions_of : List Row → List String
versions_of = map (λ r. r.version)

-- ORDER BY version
unfoldable pub insert_version : String → List String → List String
insert_version v [] = v ∷ []
insert_version v (u ∷ us) = if is_le (compare v u) then v ∷ u ∷ us else u ∷ insert_version v us

unfoldable pub sort_versions : List String → List String
sort_versions [] = []
sort_versions (v ∷ vs) = insert_version v (sort_versions vs)

abbrev pub reverse_onto : List String → List String → List String
reverse_onto acc [] = acc
reverse_onto acc (v ∷ vs) = reverse_onto (v ∷ acc) vs

-- `byVer[m.Version] = m` for each in turn, so that the last one stands.
abbrev pub by_version : String → List Migration → Option Migration
by_version v [] = none
by_version v (m ∷ ms) = elim (by_version v ms) [
  | none ↦ if m.version == v then some m else none
  | some found ↦ some found
]

-- DELETE FROM schema_migrations WHERE version = v
abbrev pub delete_version : String → List Row → List Row
delete_version v [] = []
delete_version v (r ∷ rs) = if r.version == v then delete_version v rs else r ∷ delete_version v rs

abbrev pub statuses : List String → List Migration → List Status
statuses applied [] = []
statuses applied (m ∷ ms) =
    record { version = m.version; name = m.name; applied = has_version m.version applied }
    ∷ statuses applied ms

abbrev pub last_of : String → List String → String
last_of v [] = v
last_of v (u ∷ us) = last_of u us

module _ {Schema : Type 0} where
  -- The database after a statement was sent, whatever became of it.
  abbrev pub sent : MigrateDb Schema → MigrateDb Schema
  sent s = record s { faults = later s.faults }

  -- ensureBookkeeping, then appliedVersions; `none` where either fails.
  unfoldable pub applied_versions : MigrateDb Schema → Option (List String) × MigrateDb Schema
  applied_versions s =
      if fails s.faults
      then (none, sent s)
      else if fails (later s.faults)
      then (none, sent (sent s))
      else (some (sort_versions (versions_of s.rows)), sent (sent s))

  pub get_status : List Migration → MigrateDb Schema → Option (List Status) × MigrateDb Schema
  get_status migs s =
      let (order, t) = applied_versions s in
      (elim order [ none ↦ none | some applied ↦ some (statuses applied migs) ], t)

  pub current_version : MigrateDb Schema → Option String × MigrateDb Schema
  current_version s =
      let (order, t) = applied_versions s in
      (elim order [ none ↦ none | some applied ↦ some (last_of "" applied) ], t)

  -- runScript of a wrapped script; `none` where it fails and the transaction is rolled back.
  abbrev pub committed : MigrateDb Schema → Option Schema → List Row → Option (MigrateDb Schema)
  committed s none rows = none
  committed s (some schema) rows = some (record s { schema = schema; rows = rows })

  module _ (exec : String → Schema → Option Schema) where
    -- The migration's SQL, and the INSERT that its primary key may refuse.
    unfoldable pub run_up : Migration → MigrateDb Schema → Option (MigrateDb Schema)
    run_up m s =
        let row : Row = record { version = m.version; name = m.name } in
        if fails s.faults
        then none
        else if has_version m.version (versions_of s.rows)
        then none
        else committed (sent s) (exec m.up s.schema) (s.rows ++ row ∷ [])

    pub run_down : Migration → MigrateDb Schema → Option (MigrateDb Schema)
    run_down m s =
        if fails s.faults
        then none
        else committed (sent s) (exec m.down s.schema) (delete_version m.version s.rows)

    -- The loop of Up; `applied` is the set that was read before it.
    unfoldable pub up_loop :
        List String → List Migration → List String → MigrateDb Schema → Outcome × MigrateDb Schema
    up_loop applied [] done s = (record { versions = done; failure = none }, s)
    up_loop applied (m ∷ ms) done s =
        let skipped = up_loop applied ms done s in
        if has_version m.version applied then skipped else elim (run_up m s) [
          | none ↦ (record { versions = done; failure = some "migrate: applying" }, sent s)
          | some t ↦ up_loop applied ms (done ++ m.version ∷ []) t
        ]

    abbrev pub up_from :
        List Migration → Option (List String) → MigrateDb Schema → Outcome × MigrateDb Schema
    up_from migs none s =
        (record { versions = []; failure = some "migrate: reading applied versions" }, s)
    up_from migs (some applied) s = up_loop applied migs [] s

    unfoldable pub up : List Migration → MigrateDb Schema → Outcome × MigrateDb Schema
    up migs s = let (order, t) = applied_versions s in up_from migs order t

    -- One round of the loop of Down; `go` is the rest of the loop.
    abbrev pub down_ran :
        String
        → Option (MigrateDb Schema)
        → (List String → MigrateDb Schema → Outcome × MigrateDb Schema)
        → List String
        → MigrateDb Schema
        → Outcome × MigrateDb Schema
    down_ran v none go reverted s =
        (record { versions = reverted; failure = some "migrate: rolling back" }, sent s)
    down_ran v (some t) go reverted s = go (reverted ++ v ∷ []) t

    abbrev pub down_next :
        String
        → Option Migration
        → (List String → MigrateDb Schema → Outcome × MigrateDb Schema)
        → List String
        → MigrateDb Schema
        → Outcome × MigrateDb Schema
    down_next v none go reverted s =
        (record { versions = reverted; failure = some "migrate: no migration file" }, s)
    down_next v (some m) go reverted s = down_ran v (run_down m s) go reverted s

    -- The loop of Down, over the applied versions from the newest on.
    pub down_loop :
        List Migration
        → List String
        → ℕ
        → List String
        → MigrateDb Schema
        → Outcome × MigrateDb Schema
    down_loop migs [] steps reverted s = (record { versions = reverted; failure = none }, s)
    down_loop migs (v ∷ vs) zero reverted s = (record { versions = reverted; failure = none }, s)
    down_loop migs (v ∷ vs) (suc steps) reverted s =
        down_next v (by_version v migs) (λ r t. down_loop migs vs steps r t) reverted s

    -- `if steps <= 0 { steps = 1 }`
    abbrev pub step_count : ℤ → ℕ
    step_count steps = elim (positive steps) [ none ↦ 1 | some n ↦ n ]

    abbrev pub down_from :
        List Migration → ℤ → Option (List String) → MigrateDb Schema → Outcome × MigrateDb Schema
    down_from migs steps none s =
        (record { versions = []; failure = some "migrate: reading applied versions" }, s)
    down_from migs steps (some order) s =
        down_loop migs (reverse_onto [] order) (step_count steps) [] s

    pub down : List Migration → ℤ → MigrateDb Schema → Outcome × MigrateDb Schema
    down migs steps s = let (order, t) = applied_versions s in down_from migs steps order t
