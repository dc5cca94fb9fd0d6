-- ===== src/User.antt =====
-- backend/internal/user/user.go, over the table of
-- backend/migrations/20260606000002_create_users.up.sql.
--
-- As in Conversation.antt the table is a list of rows beside a script of failures, `uuid` numbers the
-- ids that Postgres draws and `parse_uuid` reads an argument of a uuid column. The email column is a
-- citext: `fold` gives the text by which two of its values compare. `ErrEmailTaken` is `taken` and
-- `ErrNotFound` is `not_found`.
pub mod Unique
pub mod Lookup
use ai_it_dab_com.Prelude.{
  ℕ, suc, String, Bool, Option, none, some, List, [], ◌∷◌, ◌++◌, ◌==◌, any, if◌then◌else◌,
}
use ai_it_dab_com.Prelude.Faults.{fails, later}
use ai_it_dab_com.Prelude.Actions.{
  not_found, taken, failed, Result, ok, err, Action, pure, raise, ◌>>◌, ◌>>=◌,
}

pub record User : Type 0 where
  pub id : String
  pub email : String
  pub password_hash : String
  pub is_superuser : Bool
  pub created_at : ℕ
  pub updated_at : ℕ

pub record UserDb : Type 0 where
  pub users : List User
  pub faults : List Bool
  pub serial : ℕ
  pub now : ℕ

-- One statement sent to the server; the source wraps a failure with `context`.
unfoldable pub statement : String → Action UserDb (Unit {0})
statement context s =
    if fails s.faults
    then (err (failed context), record s { faults = later s.faults })
    else (ok tt, record s { faults = later s.faults })

abbrev pub find : (User → Bool) → List User → Option User
find p [] = none
find p (u ∷ us) = if p u then some u else find p us

abbrev pub update_where : (User → Bool) → (User → User) → List User → List User
update_where p f [] = []
update_where p f (u ∷ us) = (if p u then f u else u) ∷ update_where p f us

-- getOne: the row that a query of at most one row gives.
abbrev pub get_one : Option User → Action UserDb User
get_one none = raise not_found
get_one (some u) = pure u

module _ (fold : String → String) (uuid : ℕ → String) (parse_uuid : String → Option String) where
  abbrev pub has_email : String → User → Bool
  has_email email u = fold u.email == fold email

  -- INSERT … RETURNING, which the unique index on the email may refuse.
  unfoldable pub create : String → String → Bool → Action UserDb User
  create email password_hash is_superuser = do
    statement "user: creating user"
    λ s.
        let row : User = record {
          id = uuid s.serial;
          email = email;
          password_hash = password_hash;
          is_superuser = is_superuser;
          created_at = s.now;
          updated_at = s.now;
        } in
        if any (has_email email) s.users
        then raise taken s
        else (ok row, record s { users = s.users ++ row ∷ []; serial = suc s.serial })

  unfoldable pub get_by_email : String → Action UserDb User
  get_by_email email = do
    statement "user: querying user"
    λ s. get_one (find (has_email email) s.users) s

  -- A malformed id is an error of the statement, and not a missing row.
  pub get_by_id : String → Action UserDb User
  get_by_id id = do
    statement "user: querying user"
    elim (parse_uuid id) [
      | none ↦ raise (failed "user: querying user")
      | some i ↦ λ s. get_one (find (λ u. u.id == i) s.users) s
    ]

  -- UPDATE … RETURNING, with the row after the update.
  unfoldable pub update_password : String → String → Action UserDb User
  update_password id password_hash = do
    statement "user: querying user"
    elim (parse_uuid id) [
      | none ↦ raise (failed "user: querying user")
      | some i ↦ λ s.
          let edit = λ (u : User). record u { password_hash = password_hash; updated_at = s.now } in
          let users = update_where (λ u. u.id == i) edit s.users in
          get_one (find (λ u. u.id == i) users) (record s { users = users })
    ]
