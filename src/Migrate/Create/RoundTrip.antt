-- ===== src/Migrate/Create/RoundTrip.antt =====
-- What Create writes is a migration to Load.
use Prim.Native.String
use text.Mathlib.TextLemmas.{nil-append, append-nil, cons-append, append_assoc as str_assoc}
use ai_it_dab_com.Prelude.{
  String, ◌≡◌, ◌≢◌, refl, sym, ◌∙◌, ap, true, false, Bool-cases, some, [], ◌∷◌, inl, inr, arith,
  ◌==◌, eq_iff, concat, trim_space, trim_right,
}
use ai_it_dab_com.Migrate.{sort_versions, insert_version}
use ai_it_dab_com.Migrate.Files.{
  is_label, split_label, of_suffix, is_underscore, FileName, up_file, down_file, parse_filename,
  has_suffix, Entry, loaded, collect, load,
}
use ai_it_dab_com.Migrate.Create.{
  collapse, stub, created, file_name, base_name, sanitize_name, create,
}
use ai_it_dab_com.Migrate.Create.Names.{
  is_digits, scan_digits-append, split_label-append, trim_left-collapse, trim_right-collapse_label,
}

sanitize_label :
    (to_lower : String → String) (name : String)
    → sanitize_name to_lower name ≢ ""
    → is_label false (sanitize_name to_lower name) ≡ true
unfolding sanitize_name
sanitize_label to_lower name some_ =
    let text = to_lower (trim_space name) in
    let (_, start) = trim_right-collapse_label text in
    let cut = trim_left-collapse false text in
    rw cut (elim start [
      | inl empty ↦ absurd (
          some_
            (rw cut (ground (arith, eq_iff (trim_right is_underscore (collapse true text)) ""))))
      | inr good ↦ good
    ])

-- The whole name, from its parts.
name_parts :
    (v slug t : String)
    → String.◌++◌ (base_name v slug) t ≡ String.◌++◌ v (String.◌∷◌ "_" (String.◌++◌ slug t))
unfolding base_name concat
name_parts v slug t =
    str_assoc v (String.◌++◌ "_" (String.◌++◌ slug "")) t
    ∙ ap (String.◌++◌ v) (
        str_assoc "_" (String.◌++◌ slug "") t
        ∙ cons-append "_" "" (String.◌++◌ (String.◌++◌ slug "") t)
        ∙ ap (String.◌∷◌ "_") (
            nil-append (String.◌++◌ (String.◌++◌ slug "") t)
            ∙ ap (λ s. String.◌++◌ s t) (append-nil slug)))

parse_base :
    (v slug t : String) {f : FileName}
    → is_digits 14 v ≡ true
    → is_label false slug ≡ true
    → split_label t ≡ ("", t)
    → of_suffix v slug t ≡ some f
    → parse_filename (String.◌++◌ (base_name v slug) t) ≡ some f
unfolding parse_filename
parse_base v slug t digits label dot suffix =
    rw
      (
        name_parts v slug t,
        scan_digits-append 14 v (String.◌∷◌ "_" (String.◌++◌ slug t)) digits,
        split_label-append false slug t label dot,
        label,
      )
      suffix

has_suffix_refl : (t : String) → has_suffix t t ≡ true
unfolding has_suffix
has_suffix_refl String.[] = refl
has_suffix_refl (String.◌∷◌ c s) = ground (arith, eq_iff (String.◌∷◌ c s) (String.◌∷◌ c s))

has_suffix-append : (s t : String) → has_suffix (String.◌++◌ s t) t ≡ true
unfolding has_suffix
has_suffix-append String.[] t = rw (nil-append t) (has_suffix_refl t)
has_suffix-append (String.◌∷◌ c s) t =
    rw (cons-append c s t, has_suffix-append s t)
      (elim (Bool-cases (String.◌∷◌ c (String.◌++◌ s t) == t)) [
        | inl e ↦ rw e refl
        | inr e ↦ rw e refl
      ])

up_name :
    (v slug : String)
    → is_digits 14 v ≡ true
    → is_label false slug ≡ true
    → parse_filename (file_name (base_name v slug) "up")
      ≡ some (record { version = v; label = slug; direction = up_file })
unfolding file_name concat split_label
up_name v slug digits label = parse_base v slug ".up.sql" digits label refl refl

down_name :
    (v slug : String)
    → is_digits 14 v ≡ true
    → is_label false slug ≡ true
    → parse_filename (file_name (base_name v slug) "down")
      ≡ some (record { version = v; label = slug; direction = down_file })
unfolding file_name concat split_label
down_name v slug digits label = parse_base v slug ".down.sql" digits label refl refl

sql_up : (base : String) → has_suffix (file_name base "up") ".sql" ≡ true
unfolding file_name concat
sql_up base =
    rw (sym (str_assoc base ".up" ".sql")) (has_suffix-append (String.◌++◌ base ".up") ".sql")

sql_down : (base : String) → has_suffix (file_name base "down") ".sql" ≡ true
unfolding file_name concat
sql_down base =
    rw (sym (str_assoc base ".down" ".sql")) (has_suffix-append (String.◌++◌ base ".down") ".sql")

-- A written file in the directory.
abbrev pub entry : String → String → Entry
entry name body = record { name = name; is_dir = false; body = some body }

load_pair :
    (up_file_name down_file_name v slug up down : String)
    → has_suffix up_file_name ".sql" ≡ true
    → has_suffix down_file_name ".sql" ≡ true
    → parse_filename up_file_name ≡ some (record { version = v; label = slug; direction = up_file })
    → parse_filename down_file_name
      ≡ some (record { version = v; label = slug; direction = down_file })
    → load (some (entry down_file_name down ∷ entry up_file_name up ∷ []))
      ≡ loaded (record { version = v; name = slug; up = up; down = down } ∷ [])
unfolding load collect sort_versions insert_version
load_pair up_file_name down_file_name v slug up down sql_u sql_d pu pd =
    let version : (v == v) ≡ true = ground (arith, eq_iff v v) in
    let label : (slug == slug) ≡ true = ground (arith, eq_iff slug slug) in
    rw (sql_d, pd, label, sql_u, pu, version, label, version) (rw version refl)

-- The pair of files that Create writes, with a version of 14 digits and a name in which something is
-- left of the letters and digits, loads as one migration, with the version, the sanitized name, and
-- the two stubs as its scripts, whatever the case mapping makes of the name.
pub create-load :
    (to_lower : String → String) (join : (dir name : String) → String) (version dir name : String)
    → is_digits 14 version ≡ true
    → sanitize_name to_lower name ≢ ""
    → let slug = sanitize_name to_lower name in
      let base = base_name version slug in
      let up_path = join dir (file_name base "up") in
      let down_path = join dir (file_name base "down") in
      (create to_lower join version dir name true true ≡ (
        created up_path down_path,
        record { path = up_path; content = stub base "up" }
            ∷ record { path = down_path; content = stub base "down" }
            ∷ [],
      ))
      × (load (
            some (
              entry (file_name base "down") (stub base "down")
              ∷ entry (file_name base "up") (stub base "up")
              ∷ []))
          ≡ loaded (
              record {
                version = version;
                name = slug;
                up = stub base "up";
                down = stub base "down";
              }
              ∷ []))
unfolding create
create-load to_lower join version dir name digits some_ =
    let slug = sanitize_name to_lower name in
    let base = base_name version slug in
    let label = sanitize_label to_lower name some_ in
    let given : (slug == "") ≡ false = ground (arith, eq_iff slug "") in
    (
      rw given refl,
      load_pair (file_name base "up") (file_name base "down") version slug (stub base "up")
          (stub base "down") (sql_up base) (sql_down base) (up_name version slug digits label)
          (down_name version slug digits label),
    )
