-- ===== src/Migrate/Create.antt =====
-- backend/internal/db/migrate/migrate.go: Create and its helpers. `to_lower` is strings.ToLower and `join`
-- is filepath.Join; the clock gives Create the version.
pub mod Names
pub mod RoundTrip
use Prim.Native.Char.{code}
use Prim.Native.String
use ai_it_dab_com.Prelude.{
  String, Bool, true, false, List, [], ◌∷◌, ◌==◌, if◌then◌else◌, concat, trim_space, trim_left,
  trim_right,
}
use ai_it_dab_com.Migrate.Files.{is_alnum, is_underscore}

-- nameRE.ReplaceAllString(s, "_"): each run of other characters becomes one underscore.
unfoldable pub collapse : (in_run : Bool) → String → String
collapse in_run String.[] = ""
collapse in_run (String.◌∷◌ c s) =
    let kept = collapse false s in
    let run = collapse true s in
    if is_alnum (code c) then String.◌∷◌ c kept else if in_run then run else String.◌∷◌ "_" run

unfoldable pub stub : (base dir : String) → String
stub base dir =
    concat ("-- " ∷ base ∷ " (" ∷ dir ∷ " migration)\n-- Write the " ∷ dir ∷ " SQL here.\n" ∷ [])

-- A file that Create writes.
pub record Written : Type 0 where
  pub path : String
  pub content : String

pub data Created : Type 0 where
  created : (up_path down_path : String) → Created
  no_name : Created
  unwritten : (path : String) → Created

unfoldable pub file_name : (base dir : String) → String
file_name base dir = concat (base ∷ "." ∷ dir ∷ ".sql" ∷ [])

unfoldable pub base_name : (version slug : String) → String
base_name version slug = concat (version ∷ "_" ∷ slug ∷ [])

module _ (to_lower : String → String) where
  unfoldable pub sanitize_name : String → String
  sanitize_name name =
      trim_right is_underscore
        (trim_left is_underscore (collapse false (to_lower (trim_space name))))

  module _ (join : (dir name : String) → String) where
    -- The two writes, and whether each succeeds; what the first wrote stays when the second fails.
    abbrev pub write_pair : (base up_path down_path : String) → Bool → Bool → Created × List Written
    write_pair base up_path down_path false second = (unwritten up_path, [])
    write_pair base up_path down_path true false =
        (unwritten down_path, record { path = up_path; content = stub base "up" } ∷ [])
    write_pair base up_path down_path true true = (
      created up_path down_path,
      record { path = up_path; content = stub base "up" }
          ∷ record { path = down_path; content = stub base "down" }
          ∷ [],
    )

    unfoldable pub create :
        (version dir name : String) → (first second : Bool) → Created × List Written
    create version dir name first second =
        let slug = sanitize_name name in
        let base = base_name version slug in
        if slug == ""
        then (no_name, [])
        else write_pair base (join dir (file_name base "up")) (join dir (file_name base "down"))
            first second
