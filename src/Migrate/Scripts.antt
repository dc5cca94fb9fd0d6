-- ===== src/Migrate/Scripts.antt =====
-- backend/internal/db/migrate/migrate.go: the text of the scripts that a migration runs as.
use Prim.Native.Char.{code}
use Prim.Native.String
use text.Mathlib.TextLemmas.{nil-append, cons-append}
use ai_it_dab_com.Prelude.{
  ℕ, String, ◌≡◌, refl, [], ◌∷◌, Bool, true, false, Bool-cases, inl, inr, within, if◌then◌else◌,
  concat, trim_space, trim_right,
}
use ai_it_dab_com.Migrate.{Migration}

abbrev is_semicolon : ℕ → Bool
is_semicolon = within 59 59

abbrev is_quote : ℕ → Bool
is_quote = within 39 39

unfoldable pub wrap_tx : (body bookkeeping : String) → String
wrap_tx body bookkeeping = concat (
    "BEGIN;\n"
    ∷ trim_right is_semicolon (trim_space body)
    ∷ ";\n"
    ∷ bookkeeping
    ∷ ";\nCOMMIT;"
    ∷ [])

-- `strings.ReplaceAll(s, "'", "''")`
unfoldable pub double_quotes : String → String
double_quotes String.[] = ""
double_quotes (String.◌∷◌ c s) =
    let rest = double_quotes s in
    if is_quote (code c) then String.◌∷◌ c (String.◌∷◌ c rest) else String.◌∷◌ c rest

unfoldable pub sql_string : String → String
sql_string s = concat ("'" ∷ double_quotes s ∷ "'" ∷ [])

-- The scripts of Up and Down
pub up_script : Migration → String
up_script m = wrap_tx m.up (
    concat (
      "INSERT INTO schema_migrations (version, name) VALUES ("
      ∷ sql_string m.version
      ∷ ", "
      ∷ sql_string m.name
      ∷ ")"
      ∷ []))

pub down_script : Migration → String
down_script m =
    wrap_tx m.down
      (concat ("DELETE FROM schema_migrations WHERE version = " ∷ sql_string m.version ∷ []))

-- How SQL reads the inside of a quoted literal, up to its closing quote: two quotes are one of the
-- text; the result is the text and what follows the literal.
abbrev pub read_literal : (quoted : Bool) → String → String × String
read_literal false String.[] = ("", "")
read_literal true String.[] = ("", "")
read_literal false (String.◌∷◌ c s) =
    let opened = read_literal true s in
    let (text, rest) = read_literal false s in
    if is_quote (code c) then opened else (String.◌∷◌ c text, rest)
read_literal true (String.◌∷◌ c s) =
    let (text, rest) = read_literal false s in
    if is_quote (code c) then (String.◌∷◌ c text, rest) else ("", String.◌∷◌ c s)

abbrev pub begins_quoted : String → Bool
begins_quoted String.[] = false
begins_quoted (String.◌∷◌ c s) = is_quote (code c)

closing : (rest : String) → begins_quoted rest ≡ false → read_literal true rest ≡ ("", rest)
closing String.[] h = refl
closing (String.◌∷◌ c s) h = rw h refl

-- What SQL reads of the inside of a quoted text, when its closing quote follows and then something
-- that is no quote: the text itself, and what follows. No text ends its literal early.
pub read_literal-double_quotes :
    (s rest : String)
    → begins_quoted rest ≡ false
    → read_literal false (String.◌++◌ (double_quotes s) (String.◌∷◌ "'" rest)) ≡ (s, rest)
unfolding double_quotes
read_literal-double_quotes String.[] rest h = rw (nil-append (String.◌∷◌ "'" rest)) (closing rest h)
read_literal-double_quotes (String.◌∷◌ c s) rest h =
    let tail = String.◌∷◌ "'" rest in
    let inner = read_literal-double_quotes s rest h in
    elim (Bool-cases (is_quote (code c))) [
      | inl quote ↦
          rw
            (
              quote,
              cons-append c (String.◌∷◌ c (double_quotes s)) tail,
              cons-append c (double_quotes s) tail,
              quote,
              inner,
            )
            refl
      | inr plain ↦ rw (plain, cons-append c (double_quotes s) tail, plain, inner) refl
    ]
