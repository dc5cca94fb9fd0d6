-- ===== src/Usage/Repository.antt =====
-- backend/internal/usage/usage.go: the insert of an audit row into the table of
-- backend/migrations, and the recorder that makes it on a goroutine of its own. The table is a list of
-- rows beside a script of failures, and `parse_uuid` reads an argument of a uuid column.
use ai_it_dab_com.Prelude.{
  suc, ◌+◌, String, ◌≡◌, ◌∙◌, Bool, Bool-cases, Option-cases, inl, inr, Option, none, some, List,
  [], ◌∷◌, ◌++◌, length, length-append, arith, ◌==◌, if◌then◌else◌,
}
use ai_it_dab_com.Prelude.Faults.{fails, later}
use ai_it_dab_com.Prelude.Actions.{Result, ok, err, failed, Action}
use ai_it_dab_com.Usage

-- A row of gateway_usage.
pub record Row : Type 0 where
  pub call : Usage.Record
  pub conversation_id : Option String

pub record UsageDb : Type 0 where
  pub rows : List Row
  pub faults : List Bool

-- The asynchronous recorder: the writes that its goroutines have still to make, and the outcomes that
-- it warned of.
pub record Recorder : Type 0 where
  pub db : UsageDb
  pub pending : List Usage.Record
  pub warned : List String

module _ (parse_uuid : String → Option String) where
  abbrev insert_row : Usage.Record → Option String → Action UsageDb (Unit {0})
  insert_row rec id s =
      (ok tt, record s { rows = s.rows ++ record { call = rec; conversation_id = id } ∷ [] })

  abbrev with_id : Usage.Record → Option String → Action UsageDb (Unit {0})
  with_id rec none s = (err (failed "usage: recording"), s)
  with_id rec (some id) s = insert_row rec (some id) s

  -- Record: NULLIF($2, '')::uuid
  unfoldable pub record_usage : Usage.Record → Action UsageDb (Unit {0})
  record_usage rec s =
      let s' = record s { faults = later s.faults } in
      if fails s.faults
      then (err (failed "usage: recording"), s')
      else if rec.conversation_id == ""
      then insert_row rec none s'
      else with_id rec (parse_uuid rec.conversation_id) s'

  -- asyncRecorder.Record returns at once, without an error.
  pub async_record : Usage.Record → Action Recorder (Unit {0})
  async_record rec r = (ok tt, record r { pending = r.pending ++ rec ∷ [] })

  abbrev warn_or : Usage.Record → Result (Unit {0}) → List String → List String
  warn_or rec (ok u) warned = warned
  warn_or rec (err e) warned = warned ++ rec.outcome ∷ []

  -- A goroutine's write.
  abbrev pub write_one : Usage.Record → UsageDb → List String → UsageDb × List String
  write_one rec db warned = let (r, db') = record_usage rec db in (db', warn_or rec r warned)

  -- The goroutines, in the order in which their writes reach the database.
  unfoldable pub write_all : List Usage.Record → UsageDb → List String → UsageDb × List String
  write_all [] db warned = (db, warned)
  write_all (rec ∷ recs) db warned =
      let (db', warned') = write_one rec db warned in write_all recs db' warned'

  write_one_count :
      (rec : Usage.Record) (db : UsageDb) (warned : List String)
      → length (write_one rec db warned).0.rows + length (write_one rec db warned).1
        ≡ suc (length db.rows + length warned)
  unfolding record_usage
  write_one_count rec db warned = elim (Bool-cases (fails db.faults)) [
    | inl down ↦ rw down (omega (arith, length-append warned (rec.outcome ∷ [])))
    | inr up ↦ elim (Bool-cases (rec.conversation_id == "")) [
      | inl unset ↦
          rw (up, unset)
            (omega
              (arith, length-append db.rows (record { call = rec; conversation_id = none } ∷ [])))
      | inr set ↦ elim (Option-cases (parse_uuid rec.conversation_id)) [
        | inl bad ↦ rw (up, set, bad) (omega (arith, length-append warned (rec.outcome ∷ [])))
        | inr (id, good) ↦
            rw (up, set, good)
              (omega (
                arith,
                length-append db.rows (record { call = rec; conversation_id = some id } ∷ []),
              ))
      ]
    ]
  ]

  -- Every call that was handed to the asynchronous recorder ends in a row or in a warning.
  pub length-write_all :
      (recs : List Usage.Record) (db : UsageDb) (warned : List String)
      → length (write_all recs db warned).0.rows + length (write_all recs db warned).1
        ≡ length recs + (length db.rows + length warned)
  unfolding write_all
  length-write_all [] db warned = omega arith
  length-write_all (rec ∷ recs) db warned =
      let (db', warned') = write_one rec db warned in
      length-write_all recs db' warned' ∙ omega (arith, write_one_count rec db warned)
