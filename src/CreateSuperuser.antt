-- ===== src/CreateSuperuser.antt =====
-- backend/cmd/createsuperuser/main.go. The command line is what the flag package made of it, with
-- `none` for its error. `parse_address` is mail.ParseAddress, with `none` for its error, and gives the
-- address without a name; `prompt` is what the terminal gave, `none` for no terminal or a failure.
-- Load and the connection, which come before the repository is used, are values; the deadline is left
-- out.
pub mod Laws
use ai_it_dab_com.Prelude.{
  ℕ, suc, String, Bool, true, false, Option, none, some, List, [], ◌∷◌, ◌==◌, if◌then◌else◌,
  trim_space,
}
use ai_it_dab_com.Prelude.Actions.{Result, ok, err, Error, not_found, taken, failed}
use ai_it_dab_com.User.{User, UserDb, create, get_by_email, update_password}
use ai_it_dab_com.Auth.Password.{
  Bcrypt, Hashed, hashed, password_too_short, password_too_long, hashing_failed, hash_password,
}

pub record Flags : Type 0 where
  pub email : String
  pub password : String
  pub update_password : Bool

-- SUPERUSER_EMAIL and SUPERUSER_PASSWORD
pub record Variables : Type 0 where
  pub email : String
  pub password : String

pub data Failure : Type 0 where
  bad_flags email_required : Failure
  invalid_email : String → Failure
  no_password invalid_configuration no_database : Failure
  -- an error of HashPassword
  unhashable : Hashed → Failure
  user_exists : Failure
  repository : Error → Failure

-- The user and whether it was created, or an error.
pub data Outcome : Type 0 where
  stored : User → (created : Bool) → Outcome
  failure : Failure → Outcome

unfoldable pub first_non_empty : List String → String
first_non_empty [] = ""
first_non_empty (v ∷ vs) = let rest = first_non_empty vs in if trim_space v == "" then rest else v

module _ (parse_address : String → Option String) where
  -- parseEmail: the address, or an error
  unfoldable pub parse_email : String → Option String
  parse_email raw = if trim_space raw == "" then none else parse_address (trim_space raw)

  abbrev pub email_failure : String → Failure
  email_failure raw =
      if trim_space raw == "" then email_required else invalid_email (trim_space raw)

module _ (fold : String → String) (uuid : ℕ → String) (parse_uuid : String → Option String) where
  abbrev pub after_update : Result User → Outcome
  after_update (ok u) = stored u false
  after_update (err e) = failure (repository e)

  abbrev pub after_lookup : String → Result User → UserDb → Outcome × UserDb
  after_lookup hash (err e) s = (failure (repository e), s)
  after_lookup hash (ok existing) s =
      let (r, s') = update_password fold uuid parse_uuid existing.id hash s in (after_update r, s')

  -- What follows Create.
  abbrev pub after_create : String → String → Bool → Result User → UserDb → Outcome × UserDb
  after_create email hash update (ok u) s = (stored u true, s)
  after_create email hash false (err taken) s = (failure user_exists, s)
  after_create email hash true (err taken) s =
      let (r, s') = get_by_email fold uuid parse_uuid email s in after_lookup hash r s'
  after_create email hash update (err not_found) s = (failure (repository not_found), s)
  after_create email hash update (err (failed m)) s = (failure (repository (failed m)), s)

  abbrev pub after_hash : String → Bool → Hashed → UserDb → Outcome × UserDb
  after_hash email update (hashed hash) s =
      let (r, s') = create fold uuid parse_uuid email hash true s in
      after_create email hash update r s'
  after_hash email update password_too_short s = (failure (unhashable password_too_short), s)
  after_hash email update password_too_long s = (failure (unhashable password_too_long), s)
  after_hash email update hashing_failed s = (failure (unhashable hashing_failed), s)

  unfoldable pub create_superuser : Bcrypt → String → String → Bool → UserDb → Outcome × UserDb
  create_superuser b email password update = after_hash email update (hash_password b password)

  module _ (parse_address : String → Option String) (b : Bcrypt) where
    -- The number of pools that `run` opens and closes stands beside the table.
    pub record Run : Type 0 where
      pub table : UserDb
      pub opened : ℕ
      pub closed : ℕ

    abbrev with_pool : Flags → String → String → Run → Outcome × Run
    with_pool f email password r =
        let (outcome, table) = create_superuser b email password f.update_password r.table in
        (outcome, record r { table = table; opened = suc r.opened; closed = suc r.closed })

    abbrev with_password :
        (configured connects : Bool) → Flags → String → String → Run → Outcome × Run
    with_password false connects f email password r = (failure invalid_configuration, r)
    with_password true false f email password r = (failure no_database, r)
    with_password true true f email password r = with_pool f email password r

    abbrev with_prompt :
        (configured connects : Bool) → Flags → String → Option String → Run → Outcome × Run
    with_prompt configured connects f email none r = (failure no_password, r)
    with_prompt configured connects f email (some password) r =
        with_password configured connects f email password r

    abbrev with_email :
        (configured connects : Bool)
        → (prompt : Option String) → Flags
        → Variables
        → String
        → Option String
        → Run
        → Outcome × Run
    with_email configured connects prompt f v raw none r =
        (failure (email_failure parse_address raw), r)
    with_email configured connects prompt f v raw (some email) r =
        let password = first_non_empty (f.password ∷ v.password ∷ []) in
        if password == ""
        then with_prompt configured connects f email prompt r
        else with_password configured connects f email password r

    pub run :
        (configured connects : Bool)
        → (prompt : Option String) → Option Flags
        → Variables
        → Run
        → Outcome × Run
    run configured connects prompt none v r = (failure bad_flags, r)
    run configured connects prompt (some f) v r =
        let raw = first_non_empty (f.email ∷ v.email ∷ []) in
        with_email configured connects prompt f v raw (parse_email parse_address raw) r
