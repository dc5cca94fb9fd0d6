-- ===== src/ApiKey.antt =====
-- backend/internal/apikey/apikey.go, over the table of
-- backend/migrations/20260606000003_create_api_keys.up.sql.
--
-- The table is a list of rows; a script of failures, the uuids and `parse_uuid` are as in
-- Conversation.antt. `ErrKeyIDTaken` is `taken` and `ErrNotFound` is `not_found`.
pub mod Credential
pub mod Table
pub mod Steps
pub mod Lookup
use Prim.Native.String.{compare}
use text.Mathlib.Text.{is_le}
use ai_it_dab_com.Prelude.Faults.{fails, later}
use ai_it_dab_com.Prelude.{
  ℕ, suc, String, Bool, true, false, not, ◌&&◌, ◌||◌, Option, none, some, List, [], ◌∷◌, ◌++◌, map,
  ◌==◌, ltb, any, is_some, if◌then◌else◌,
}
use ai_it_dab_com.Prelude.Actions.{
  not_found, taken, failed, Result, ok, err, Action, pure, raise, ◌>>◌, ◌>>=◌,
}

pub record ApiKey : Type 0 where
  pub id : String
  pub key_id : String
  pub secret_hash : String
  pub name : String
  pub persona : Option String
  pub created_by : Option String
  pub created_at : ℕ
  pub revoked_at : Option ℕ
  pub last_used_at : Option ℕ

-- The view with no secret hash.
pub record Metadata : Type 0 where
  pub id : String
  pub key_id : String
  pub name : String
  pub persona : Option String
  pub created_by : Option String
  pub created_at : ℕ
  pub revoked_at : Option ℕ
  pub last_used_at : Option ℕ

-- The columns of metaColumns.
unfoldable pub to_metadata : ApiKey → Metadata
to_metadata k = record {
  id = k.id;
  key_id = k.key_id;
  name = k.name;
  persona = k.persona;
  created_by = k.created_by;
  created_at = k.created_at;
  revoked_at = k.revoked_at;
  last_used_at = k.last_used_at;
}

pub record CreateParams : Type 0 where
  pub key_id : String
  pub secret_hash : String
  pub name : String
  pub persona : Option String
  pub created_by : Option String

pub record UpdateParams : Type 0 where
  pub name : String
  pub persona : Option String

pub record KeyDb : Type 0 where
  pub keys : List ApiKey
  pub faults : List Bool
  pub serial : ℕ
  pub now : ℕ

-- One statement sent to the server; the source wraps a failure with `context`.
unfoldable pub statement : String → Action KeyDb (Unit {0})
statement context s =
    if fails s.faults
    then (err (failed context), record s { faults = later s.faults })
    else (ok tt, record s { faults = later s.faults })

abbrev pub is_active : ApiKey → Bool
is_active k = not (is_some k.revoked_at)

abbrev pub find : (ApiKey → Bool) → List ApiKey → Option ApiKey
find p [] = none
find p (k ∷ ks) = if p k then some k else find p ks

-- UPDATE … WHERE p
abbrev pub update_where : (ApiKey → Bool) → (ApiKey → ApiKey) → List ApiKey → List ApiKey
update_where p f [] = []
update_where p f (k ∷ ks) = (if p k then f k else k) ∷ update_where p f ks

-- ORDER BY created_at DESC, id
abbrev newer : ApiKey → ApiKey → Bool
newer a b =
    ltb b.created_at a.created_at
    || (not (ltb a.created_at b.created_at) && is_le (compare a.id b.id))

pub insert_key : ApiKey → List ApiKey → List ApiKey
insert_key k [] = k ∷ []
insert_key k (j ∷ js) = if newer j k then j ∷ insert_key k js else k ∷ j ∷ js

pub newest_first : List ApiKey → List ApiKey
newest_first [] = []
newest_first (k ∷ ks) = insert_key k (newest_first ks)

-- No row is ErrNotFound.
abbrev pub found_or : {A : Type 0} → (ApiKey → A) → Option ApiKey → Action KeyDb A
found_or f none = raise not_found
found_or f (some k) = pure (f k)

module _ (uuid : ℕ → String) (parse_uuid : String → Option String) where
  -- INSERT; the unique index on key_id also counts revoked rows.
  unfoldable pub create : CreateParams → Action KeyDb ApiKey
  create p = do
    statement "apikey: creating key"
    λ s.
        let row : ApiKey = record {
          id = uuid s.serial;
          key_id = p.key_id;
          secret_hash = p.secret_hash;
          name = p.name;
          persona = p.persona;
          created_by = p.created_by;
          created_at = s.now;
          revoked_at = none;
          last_used_at = none;
        } in
        if any (λ k. k.key_id == p.key_id) s.keys
        then raise taken s
        else (ok row, record s { keys = s.keys ++ row ∷ []; serial = suc s.serial })

  unfoldable pub get_active_by_key_id : String → Action KeyDb ApiKey
  get_active_by_key_id key_id = do
    statement "apikey: querying key"
    λ s. found_or (λ k. k) (find (λ k. k.key_id == key_id && is_active k) s.keys) s

  -- A malformed id matches no row, by `isNotFound`.
  pub get_by_id : String → Action KeyDb Metadata
  get_by_id id = do
    statement "apikey: querying key"
    elim (parse_uuid id) [
      | none ↦ raise not_found
      | some i ↦ λ s. found_or to_metadata (find (λ k. k.id == i) s.keys) s
    ]

  pub list : Action KeyDb (List Metadata)
  list = do statement "apikey: listing keys"; λ s. (ok (map to_metadata (newest_first s.keys)), s)

  -- UPDATE … RETURNING, with the row after the update.
  pub update : String → UpdateParams → Action KeyDb Metadata
  update id p = do
    statement "apikey: updating key"
    elim (parse_uuid id) [
      | none ↦ raise not_found
      | some i ↦ λ s.
          let edit = λ (k : ApiKey). record k { name = p.name; persona = p.persona } in
          let keys = update_where (λ k. k.id == i) edit s.keys in
          found_or to_metadata (find (λ k. k.id == i) keys) (record s { keys = keys })
    ]

  -- Only an active row is revoked; none hit is ErrNotFound.
  unfoldable pub revoke : String → Action KeyDb (Unit {0})
  revoke id = do
    statement "apikey: revoking key"
    elim (parse_uuid id) [
      | none ↦ raise not_found
      | some i ↦ λ s.
          let target = λ (k : ApiKey). k.id == i && is_active k in
          let stamp = λ (k : ApiKey). record k { revoked_at = some s.now } in
          if any target s.keys
          then (ok tt, record s { keys = update_where target stamp s.keys })
          else raise not_found s
    ]

  -- An unknown or malformed id is no error.
  pub touch_last_used : String → Action KeyDb (Unit {0})
  touch_last_used id = do
    statement "apikey: touching last_used_at"
    elim (parse_uuid id) [
      | none ↦ pure tt
      | some i ↦ λ s.
          let stamp = λ (k : ApiKey). record k { last_used_at = some s.now } in
          (ok tt, record s { keys = update_where (λ k. k.id == i) stamp s.keys })
    ]
