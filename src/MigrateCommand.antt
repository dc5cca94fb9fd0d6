-- ===== src/MigrateCommand.antt =====
-- backend/cmd/migrate/main.go: the command line of the migration runner, as what it prints on the
-- standard output, its exit status, and the database after it. The configuration and the connection
-- are given, as whether each succeeds, with the directory of the embedded migrations; `create` is what
-- migrate.Create does, the two paths or an error. The messages on the standard error are left out.
pub mod Laws
use ai_it_dab_com.Prelude.{
  ℕ, String, Bool, true, false, Option, none, some, List, [], ◌∷◌, map, ◌==◌, ◌||◌, if◌then◌else◌,
  concat, is_empty,
}
use ai_it_dab_com.Prelude.Int.{ℤ, pos, positive}
use ai_it_dab_com.Prelude.Strconv.{atoi}
use ai_it_dab_com.Migrate.{
  Migration, Status, MigrateDb, Outcome, up, down, get_status, current_version,
}
use ai_it_dab_com.Migrate.Files.{Entry, Loaded, loaded, refused, load}

pub record Exit : Type 0 where
  pub printed : List String
  pub code : ℕ

abbrev pub exit : ℕ → Exit
exit code = record { printed = []; code = code }

abbrev pub print : List String → Exit
print lines = record { printed = lines; code = 0 }

abbrev pub line : List String → String
line parts = concat parts

-- `strings.Join(args, " ")`
abbrev pub joined : List String → String
joined [] = ""
joined (a ∷ []) = a
joined (a ∷ b ∷ rest) = concat (a ∷ " " ∷ joined (b ∷ rest) ∷ [])

-- What follows exitOn: the versions, or a line where there are none.
abbrev pub report : String → String → Outcome → Exit
report word nothing o = elim o.failure [
  | some e ↦ exit 1
  | none ↦
      if is_empty o.versions
      then print (nothing ∷ [])
      else print (map (λ v. line (word ∷ " " ∷ v ∷ [])) o.versions)
]

abbrev pub status_line : Status → String
status_line s =
    line ((if s.applied then "applied" else "pending") ∷ " " ∷ s.version ∷ "_" ∷ s.name ∷ [])

abbrev pub report_status : Option (List Status) → Exit
report_status none = exit 1
report_status (some st) = print (map status_line st)

abbrev pub report_version : Option String → Exit
report_version none = exit 1
report_version (some v) = if v == "" then print ("(no migrations applied)" ∷ []) else print (v ∷ [])

-- The argument of down: one step without it, and nothing where it is no positive integer.
abbrev pub count_of : Option ℤ → Option ℕ
count_of none = none
count_of (some n) = positive n

abbrev pub steps_of : List String → Option ℕ
steps_of [] = some 1
steps_of (a ∷ rest) = count_of (atoi a)

abbrev pub create_report : Option (String × String) → Exit
create_report none = exit 1
create_report (some (up_path, down_path)) =
    print (line ("created " ∷ up_path ∷ []) ∷ line ("created " ∷ down_path ∷ []) ∷ [])

unfoldable pub run_create : (create : String → Option (String × String)) → List String → Exit
run_create create [] = exit 2
run_create create (a ∷ rest) = create_report (create (joined (a ∷ rest)))

module _ {Schema : Type 0} (exec : String → Schema → Option Schema) where
  abbrev pub run_steps : List Migration → Option ℕ → MigrateDb Schema → Exit × MigrateDb Schema
  run_steps migs none s = (exit 2, s)
  run_steps migs (some n) s =
      let (o, t) = down exec migs (pos n) s in (report "reverted" "nothing to roll back" o, t)

  abbrev pub run_loaded :
      String → List String → Loaded (List Migration) → MigrateDb Schema → Exit × MigrateDb Schema
  run_loaded cmd args (refused e) s = (exit 1, s)
  run_loaded cmd args (loaded migs) s =
      if cmd == "up"
      then (let (o, t) = up exec migs s in (report "applied" "already up to date" o, t))
      else if cmd == "down"
      then run_steps migs (steps_of args) s
      else if cmd == "status"
      then (let (st, t) = get_status migs s in (report_status st, t))
      else (let (v, t) = current_version s in (report_version v, t))

  module _ (configured connects : Bool) (directory : Option (List Entry)) where
    unfoldable pub run_db : String → List String → MigrateDb Schema → Exit × MigrateDb Schema
    run_db cmd args s =
        if configured
        then (if connects then run_loaded cmd args (load directory) s else (exit 1, s))
        else (exit 1, s)

    module _ (create : String → Option (String × String)) where
      -- os.Args without the program's name
      unfoldable pub main : List String → MigrateDb Schema → Exit × MigrateDb Schema
      main [] s = (exit 2, s)
      main (cmd ∷ args) s =
          if cmd == "create"
          then (run_create create args, s)
          else if cmd == "up" || cmd == "down" || cmd == "status" || cmd == "version"
          then run_db cmd args s
          else if cmd == "-h" || cmd == "--help" || cmd == "help"
          then (exit 0, s)
          else (exit 2, s)
