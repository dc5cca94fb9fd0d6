-- ===== src/Tests/Store.antt =====
-- The stores: conversations, credentials and migrations.
use ai_it_dab_com.Prelude.{
  ℕ, String, ◌≡◌, refl, ◌≢◌, ◌↔◌, true, none, some, [], ◌∷◌, ◌++◌, arith, All,
}
use ai_it_dab_com.Prelude.Int.{negsuc}
use ai_it_dab_com.Prelude.Actions.{ok, err, failed, not_found}
use ai_it_dab_com.Conversation.{
  load_history, append_messages, create_conversation, get_conversation, append_body,
  insert_messages, insert_message, bump_updated_at, statement, in_transaction, sort_from,
  insert_row, rows_of, history_rows, find_conversation, scan_conversation, new_row, Conversation,
  ConvDb,
}
use ai_it_dab_com.Conversation.Append.{append_messages_atomic, append_messages-ne-not_found}
use ai_it_dab_com.Conversation.History.{load_history-append_messages}
use ai_it_dab_com.Conversation.Scoping.{get_conversation_owner, get-create_conversation}
use ai_it_dab_com.Conversation.Ordering.{stamped}
use ai_it_dab_com.ApiKey.{revoke}
use ai_it_dab_com.ApiKey.Credential.{verify_secret, hash_secret, verify_secret-hash_secret}
use ai_it_dab_com.ApiKey.Steps.{here, next, revoked, Reach-IsUnique}
use ai_it_dab_com.ApiKey.Table.{IsUnique}
use ai_it_dab_com.Migrate.{
  up, down, up_loop, run_up, applied_versions, sort_versions, has_version, versions_of,
  reverse_onto, step_count, MigrateDb,
}
use ai_it_dab_com.Migrate.Up.{up-recorded, up_complete, up-idempotent}
use ai_it_dab_com.Migrate.Down.{IsRolledBack, down-IsRolledBack}
use ai_it_dab_com.Tests.Samples.{
  uuid, parse_uuid, sha256, sha256_bytes, keys, conv, new_question, stored, db, broken_db,
  migration, exec, fresh,
}

append_messages_atomic_example :
    let t = (append_messages uuid parse_uuid "c1" (new_question ∷ []) broken_db).1 in
    (t.messages ≡ broken_db.messages) × (t.conversations ≡ broken_db.conversations)
unfolding append_messages append_body insert_messages insert_message bump_updated_at statement
    in_transaction
append_messages_atomic_example =
    append_messages_atomic uuid parse_uuid "c1" (new_question ∷ []) broken_db
      (failed "conversation: commit") refl

append_messages-ne-not_found_example :
    (append_messages uuid parse_uuid "missing" (new_question ∷ []) db).0 ≢ err not_found
append_messages-ne-not_found_example =
    append_messages-ne-not_found uuid parse_uuid "missing" (new_question ∷ []) db

load_history-append_messages_example :
    stored ∷ new_row uuid 7 "c1" new_question 10 ∷ []
    ≡ history_rows "c1" db.messages ++ stamped uuid db.serial "c1" db.now (new_question ∷ [])
unfolding append_messages append_body insert_messages insert_message bump_updated_at load_history
    sort_from insert_row rows_of history_rows statement in_transaction
load_history-append_messages_example =
    load_history-append_messages uuid parse_uuid "c1" "c1" (new_question ∷ []) db
      (append_messages uuid parse_uuid "c1" (new_question ∷ []) db).1 refl (omega arith, tt) refl
      refl refl

get_conversation_owner_example :
    (parse_uuid "k1" ≡ some conv.api_key_id) × (parse_uuid "c1" ≡ some conv.id)
unfolding get_conversation find_conversation statement scan_conversation
get_conversation_owner_example = get_conversation_owner uuid parse_uuid "k1" "c1" db {c = conv} refl

abbrev created_db : ConvDb
unfolding create_conversation statement
created_db = (create_conversation uuid parse_uuid "k1" "llama" db).1

get-create_conversation_example :
    let c : Conversation = record {
      id = uuid 7;
      api_key_id = "k1";
      model = "llama";
      created_at = 10;
      updated_at = 10;
    } in
    ((get_conversation uuid parse_uuid "k1" c.id created_db).0 ≡ ok c)
    × (◌≢◌ {A = String} "k1" "k2"
        → (get_conversation uuid parse_uuid "k2" c.id created_db).0 ≡ err not_found)
unfolding create_conversation statement scan_conversation
get-create_conversation_example =
    get-create_conversation uuid parse_uuid "k1" "llama" "k1" "k2" "k2" db created_db refl refl refl
      refl refl refl refl

verify_secret-hash_secret_example :
    (verify_secret sha256 "abc" (hash_secret sha256 "xyz") ≡ true) ↔ (sha256 "abc" ≡ sha256 "xyz")
verify_secret-hash_secret_example = verify_secret-hash_secret sha256 sha256_bytes "abc" "xyz"

Reach-IsUnique_example : IsUnique (revoke uuid parse_uuid "k1" keys).1.keys
Reach-IsUnique_example =
    Reach-IsUnique uuid parse_uuid {s = keys} {t = (revoke uuid parse_uuid "k1" keys).1} (refl, tt)
      (next here (revoked "k1"))

up-recorded_example :
    let (o, t) = up exec (migration ∷ []) fresh in versions_of t.rows ≡ [] ++ o.versions
up-recorded_example = up-recorded exec (migration ∷ []) fresh

up_complete_example :
    All
      (λ m. has_version m.version (versions_of (up exec (migration ∷ []) fresh).1.rows) ≡ true)
      (migration ∷ [])
unfolding up up_loop run_up applied_versions sort_versions
up_complete_example = up_complete exec (migration ∷ []) fresh refl

up-idempotent_example :
    let t = (up exec (migration ∷ []) fresh).1 in
    up exec (migration ∷ []) t ≡ (record { versions = []; failure = none }, t)
unfolding up up_loop run_up applied_versions sort_versions
up-idempotent_example = up-idempotent exec (migration ∷ []) fresh refl refl

abbrev migrated : MigrateDb ℕ
migrated = record {
  schema = 1;
  rows = record { version = migration.version; name = migration.name } ∷ [];
  faults = [];
}

down-IsRolledBack_example :
    let (o, t) = down exec (migration ∷ []) (negsuc 0) migrated in
    IsRolledBack
      (reverse_onto [] (sort_versions (versions_of migrated.rows)))
      (step_count exec (negsuc 0))
      o.versions
      migrated.rows
      t.rows
down-IsRolledBack_example = down-IsRolledBack exec (migration ∷ []) (negsuc 0) migrated
