-- ===== src/Migrate/Files.antt =====
-- backend/internal/db/migrate/migrate.go: the migration files. A directory is its entries in the order
-- of fs.ReadDir, with the text of each file or `none` where it cannot be read; a directory that cannot
-- be listed is `none`. The regular expressions are written out as the scans that decide them.
use Prim.Native.Char.{Char, code}
use ai_it_dab_com.Prelude.{
  ℕ, zero, suc, String, Bool, true, false, not, ◌&&◌, ◌||◌, Option, none, some, List, [], ◌∷◌, map,
  ◌==◌, within, if◌then◌else◌,
}
use ai_it_dab_com.Migrate.{Migration, sort_versions}

abbrev pub is_digit : ℕ → Bool
is_digit = within 48 57

abbrev pub is_alnum : ℕ → Bool
is_alnum c = within 97 122 c || within 48 57 c

abbrev pub is_underscore : ℕ → Bool
is_underscore = within 95 95

abbrev pub cons_digit : Char → Option (String × String) → Option (String × String)
cons_digit c none = none
cons_digit c (some (v, rest)) = some (String.◌∷◌ c v, rest)

-- `\d{n}`, and the rest
unfoldable pub scan_digits : ℕ → String → Option (String × String)
scan_digits zero s = some ("", s)
scan_digits (suc n) String.[] = none
scan_digits (suc n) (String.◌∷◌ c s) =
    let rest = scan_digits n s in if is_digit (code c) then cons_digit c rest else none

-- The longest run of [a-z0-9_], and the rest: a label ends at the first dot.
unfoldable pub split_label : String → String × String
split_label String.[] = ("", "")
split_label (String.◌∷◌ c s) =
    let (l, t) = split_label s in
    if is_alnum (code c) || is_underscore (code c)
    then (String.◌∷◌ c l, t)
    else ("", String.◌∷◌ c s)

-- `[a-z0-9]+(?:_[a-z0-9]+)*`, whether it matches the text, inside a group or at its start.
unfoldable pub is_label : (inside : Bool) → String → Bool
is_label inside String.[] = inside
is_label inside (String.◌∷◌ c s) =
    let grown = is_label true s in
    let next = is_label false s in
    if is_alnum (code c) then grown else inside && is_underscore (code c) && next

pub data Direction : Type 0 where
  up_file down_file : Direction

pub record FileName : Type 0 where
  pub version : String
  pub label : String
  pub direction : Direction

abbrev pub of_suffix : String → String → String → Option FileName
of_suffix v l t =
    if t == ".up.sql"
    then some (record { version = v; label = l; direction = up_file })
    else if t == ".down.sql"
    then some (record { version = v; label = l; direction = down_file })
    else none

abbrev of_label : String → String × String → Option FileName
of_label v (l, t) = if is_label false l then of_suffix v l t else none

abbrev of_rest : String → String → Option FileName
of_rest v String.[] = none
of_rest v (String.◌∷◌ c s) = if is_underscore (code c) then of_label v (split_label s) else none

abbrev of_version : Option (String × String) → Option FileName
of_version none = none
of_version (some (v, rest)) = of_rest v rest

-- parseFilename
unfoldable pub parse_filename : String → Option FileName
parse_filename name = of_version (scan_digits 14 name)

unfoldable pub has_suffix : String → String → Bool
has_suffix String.[] t = "" == t
has_suffix (String.◌∷◌ c s) t = String.◌∷◌ c s == t || has_suffix s t

pub record Entry : Type 0 where
  pub name : String
  pub is_dir : Bool
  pub body : Option String

-- The files of a version so far.
pub record Pair : Type 0 where
  pub version : String
  pub name : String
  pub up : Option String
  pub down : Option String

pub data LoadError : Type 0 where
  unreadable_directory : LoadError
  malformed_filename unreadable_file : (name : String) → LoadError
  conflicting_names : (version name other : String) → LoadError
  missing_up missing_down : (version : String) → LoadError

pub data Loaded {ℓ} (A : Type ℓ) : Type ℓ where
  loaded : A → Loaded A
  refused : LoadError → Loaded A

abbrev pub find_pair : String → List Pair → Option Pair
find_pair v [] = none
find_pair v (p ∷ ps) = if p.version == v then some p else find_pair v ps

abbrev pub put_pair : Pair → List Pair → List Pair
put_pair p [] = p ∷ []
put_pair p (q ∷ qs) = if q.version == p.version then p ∷ qs else q ∷ put_pair p qs

abbrev pub with_body : Direction → String → Pair → Pair
with_body up_file body p = record p { up = some body }
with_body down_file body p = record p { down = some body }

abbrev pub pair_or_new : FileName → Option Pair → Pair
pair_or_new f none = record { version = f.version; name = f.label; up = none; down = none }
pair_or_new f (some p) = p

-- One file of the directory.
abbrev pub add_body : FileName → Pair → String → List Pair → Loaded (List Pair)
add_body f p body ps =
    if p.name == f.label
    then loaded (put_pair (with_body f.direction body p) ps)
    else refused (conflicting_names f.version p.name f.label)

abbrev pub add_file : Entry → Option FileName → List Pair → Loaded (List Pair)
add_file e none ps = refused (malformed_filename e.name)
add_file e (some f) ps = elim e.body [
  | none ↦ refused (unreadable_file e.name)
  | some body ↦ add_body f (pair_or_new f (find_pair f.version ps)) body ps
]

abbrev pub add_entry : Entry → List Pair → Loaded (List Pair)
add_entry e ps =
    if e.is_dir || not (has_suffix e.name ".sql")
    then loaded ps
    else add_file e (parse_filename e.name) ps

abbrev pub then_load : Loaded (List Pair) → (List Pair → Loaded (List Pair)) → Loaded (List Pair)
then_load (refused e) f = refused e
then_load (loaded ps) f = f ps

unfoldable pub collect : List Entry → List Pair → Loaded (List Pair)
collect [] ps = loaded ps
collect (e ∷ es) ps = then_load (add_entry e ps) λ qs. collect es qs

abbrev pub complete_pair : Pair → Option String → Option String → Loaded Migration
complete_pair p none down = refused (missing_up p.version)
complete_pair p (some up) none = refused (missing_down p.version)
complete_pair p (some up) (some down) =
    loaded (record { version = p.version; name = p.name; up = up; down = down })

abbrev pub cons_loaded : Loaded Migration → Loaded (List Migration) → Loaded (List Migration)
cons_loaded (refused e) rest = refused e
cons_loaded (loaded m) (refused e) = refused e
cons_loaded (loaded m) (loaded ms) = loaded (m ∷ ms)

abbrev pub cons_pair : Option Pair → Loaded (List Migration) → Loaded (List Migration)
cons_pair none rest = rest
cons_pair (some p) rest = cons_loaded (complete_pair p p.up p.down) rest

-- The versions in order; each of them is a key of the map.
abbrev pub assemble : List Pair → List String → Loaded (List Migration)
assemble ps [] = loaded []
assemble ps (v ∷ vs) = cons_pair (find_pair v ps) (assemble ps vs)

abbrev pub assembled : Loaded (List Pair) → Loaded (List Migration)
assembled (refused e) = refused e
assembled (loaded ps) = assemble ps (sort_versions (map (λ p. p.version) ps))

-- Load
unfoldable pub load : Option (List Entry) → Loaded (List Migration)
load none = refused unreadable_directory
load (some entries) = assembled (collect entries [])
