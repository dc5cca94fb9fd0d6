-- ===== src/Tests/Chat.antt =====
-- The gateway: the core, authentication, the admin's keys, and a call from request to answer.
use Prim.Native.Nat.{max}
use Prim.Native.String
use ai_it_dab_com.Prelude.Faults.{fails}
use ai_it_dab_com.Prelude.{
  ◌+◌, ◌≤◌, ◌≡◌, refl, ◌≢◌, ◌⊎◌, ◌||◌, true, false, not, ◌&&◌, none, some, List, [], ◌∷◌, ◌++◌,
  arith, any, length, concat, if◌then◌else◌, trim_space, trim_left, trim_right, is_space,
}
use ai_it_dab_com.Prelude.Actions.{ok, failed}
use ai_it_dab_com.Conversation.{
  load_history, append_messages, get_conversation, append_body, insert_messages, insert_message,
  bump_updated_at, statement, in_transaction, sort_from, insert_row, rows_of, history_rows,
  find_conversation, scan_conversation, MessageRow,
}
use ai_it_dab_com.ApiKey
use ai_it_dab_com.ApiKey.{KeyDb, create, revoke}
use ai_it_dab_com.ApiKey.Credential.{generate, rand_token}
use ai_it_dab_com.ApiKey.Steps.{here}
use ai_it_dab_com.GatewayCore.{
  persist_exchange, assemble_context, drop_overlap, overlap_from, cap_history, assemble, resolve,
  to_message, to_messages, to_new_message, equal_message, equal_messages, Message,
}
use ai_it_dab_com.GatewayCore.Context.{IsAssembled, assemble_context-IsAssembled}
use ai_it_dab_com.GatewayCore.Persist.{persist_exchange_ok, persist_exchange_err}
use ai_it_dab_com.GatewayCore.Postgres.{postgres, postgres_laws}
use ai_it_dab_com.Gateway.Chat.{
  PreparedTurn, prepare_turn, assemble_turn, resolve_turn, parse_incoming, parse_message, Decoded,
  decoded,
}
use ai_it_dab_com.Gateway.Chat.Prepared.{IsPrepared, prepare_turn-IsPrepared}
use ai_it_dab_com.Gateway.Chat.Answered.{IsAnswered}
use ai_it_dab_com.Gateway.Auth.{Headers, admitted, require_credential}
use ai_it_dab_com.Gateway.Auth.Laws.{
  IsBacked, no_one, not_now, require_credential-cases, require_credential_revoked,
}
use ai_it_dab_com.Gateway.Chat
use ai_it_dab_com.Gateway.Stream.{relay_stream, read_lines}
use ai_it_dab_com.Gateway.Stream.Relay.{
  is_done, relayed_done, relayed_all, relay_stream_lem, relay_stream-completed,
}
use ai_it_dab_com.Gateway.Stream.Verbatim.{
  raw_text, is_error, after_done, closing, raw_text-relay_stream,
}
use ai_it_dab_com.Gateway.Serve.{chat}
use ai_it_dab_com.Gateway.Serve.Laws.{Ending, chat_lem}
use ai_it_dab_com.Admin.Keys.{
  CreateKeyRequest, KeyResponse, normalize_persona, creator_id, create_key, revoke_key,
}
use ai_it_dab_com.Admin.Keys.Laws.{create_key-admitted, revoke_key_final}
use ai_it_dab_com.Tests.Samples.{
  uuid, parse_uuid, sha256, sha256_bytes, base64url, random, row, keys, conv, question, answer, db,
  broken_db, caller, request, world, body, unmarshal_chunk, exchange,
}

chat_lem_example :
    let repo = postgres uuid parse_uuid in
    let laws = postgres_laws uuid parse_uuid in
    let (p, w) = prepare_turn repo 40 exchange.credential exchange.body world in
    IsAnswered repo laws PreparedTurn p world w
    × Ending unmarshal_chunk repo laws 40 exchange p w (chat unmarshal_chunk repo 40 exchange world)
chat_lem_example =
    chat_lem unmarshal_chunk (postgres uuid parse_uuid) (postgres_laws uuid parse_uuid) 40 exchange
      world

abbrev turns : List Message
turns = record { role = "user"; content = "hi" } ∷ question ∷ []

abbrev context : List Message
context =
    record { role = "system"; content = "Be brief." }
    ∷ record { role = "user"; content = "hi" }
    ∷ question
    ∷ []

assemble_context-IsAssembled_example :
    let repo = postgres uuid parse_uuid in
    (rows : List MessageRow) × ((repo.load_history conv.id db).0 ≡ ok rows)
    × IsAssembled 40 "Be brief." (to_messages rows) turns context
    × (length context ≤ 1 + max 40 (length turns))
unfolding assemble_context assemble cap_history load_history statement history_rows sort_from
    rows_of insert_row drop_overlap overlap_from equal_message equal_messages to_message
assemble_context-IsAssembled_example =
    assemble_context-IsAssembled (postgres uuid parse_uuid) 40 "Be brief." conv turns db refl

persist_exchange_ok_example :
    let repo = postgres uuid parse_uuid in
    let laws = postgres_laws uuid parse_uuid in
    let t = (persist_exchange repo conv turns answer db).1 in
    laws.history t conv.id
    ≡ laws.history db conv.id ++ (drop_overlap (laws.history db conv.id) turns ++ answer ∷ [])
unfolding persist_exchange append_messages in_transaction append_body insert_messages insert_message
    to_new_message bump_updated_at load_history statement history_rows sort_from rows_of insert_row
    drop_overlap overlap_from equal_message equal_messages to_message
persist_exchange_ok_example =
    persist_exchange_ok (postgres uuid parse_uuid) (postgres_laws uuid parse_uuid) conv turns answer
      db (omega arith, tt) refl

persist_exchange_err_example :
    let repo = postgres uuid parse_uuid in
    let laws = postgres_laws uuid parse_uuid in
    laws.history (persist_exchange repo conv turns answer broken_db).1 "c1"
    ≡ laws.history broken_db "c1"
unfolding persist_exchange append_messages in_transaction append_body insert_messages insert_message
    to_new_message bump_updated_at load_history statement history_rows sort_from rows_of insert_row
    drop_overlap overlap_from equal_message equal_messages to_message
persist_exchange_err_example =
    persist_exchange_err (postgres uuid parse_uuid) (postgres_laws uuid parse_uuid) conv turns
      answer broken_db "c1" (failed "conversation: appending message") refl

abbrev prepared : PreparedTurn
prepared = record {
  cred = caller;
  conv = conv;
  incoming = question ∷ [];
  assembled = context;
  eff_model = "llama";
  req = request;
}

prepare_turn-IsPrepared_example :
    IsPrepared (postgres uuid parse_uuid) 40 (some caller) (decoded request) prepared
unfolding prepare_turn parse_incoming parse_message trim_space trim_left trim_right is_space
    resolve_turn resolve get_conversation find_conversation assemble_turn scan_conversation
    assemble_context assemble cap_history load_history statement history_rows sort_from rows_of
    insert_row drop_overlap overlap_from equal_message equal_messages to_message
prepare_turn-IsPrepared_example =
    prepare_turn-IsPrepared (postgres uuid parse_uuid) 40 (some caller) (decoded request) world refl

abbrev headers : Headers
headers = record { key_id = "dab_pk_a"; secret = "abc" }

require_credential-cases_example :
    let r = (require_credential sha256 uuid parse_uuid headers keys).0 in
    ((c : Chat.Credential) × (r ≡ admitted c) × IsBacked sha256 uuid parse_uuid headers keys c)
    ⊎ ((r ≡ no_one) ⊎ ((r ≡ not_now) × (fails keys.faults ≡ true)))
require_credential-cases_example = require_credential-cases sha256 uuid parse_uuid headers keys

require_credential_revoked_example :
    (require_credential sha256 uuid parse_uuid headers (revoke uuid parse_uuid "k1" keys).1).0
    ≢ admitted caller
unfolding revoke trim_space ApiKey.statement
require_credential_revoked_example =
    require_credential_revoked sha256 uuid parse_uuid "k1" headers keys
      (revoke uuid parse_uuid "k1" keys).1 {r = row} (refl, tt) refl refl refl here

revoke_key_final_example :
    (require_credential sha256 uuid parse_uuid headers (revoke_key uuid parse_uuid "k1" keys).1).0
    ≢ admitted caller
unfolding revoke_key trim_space revoke ApiKey.statement
revoke_key_final_example =
    revoke_key_final sha256 uuid parse_uuid "k1" headers keys
      (revoke_key uuid parse_uuid "k1" keys).1 {r = row} (refl, tt) refl refl refl here

abbrev new_key : CreateKeyRequest
new_key = record { name = " shop "; persona = some " " }

abbrev no_keys : KeyDb
no_keys = record { keys = []; faults = []; serial = 1; now = 20 }

abbrev response : KeyResponse
response = record {
  id = uuid 1;
  key_id = "dab_pk_xyz";
  secret = "dab_sk_xyz";
  name = "shop";
  persona = none;
  created_at = 20;
}

create_key-admitted_example :
    let t = (create_key uuid parse_uuid sha256 base64url none random (some new_key) no_keys).1 in
    (require_credential sha256 uuid parse_uuid
      (record { key_id = "dab_pk_xyz"; secret = "dab_sk_xyz" })
      t).0
    ≡ admitted (record {
      id = uuid 1;
      key_id = "dab_pk_xyz";
      name = "shop";
      persona = none;
      owner_id = none;
    })
unfolding create_key trim_space generate rand_token create ApiKey.statement normalize_persona
    creator_id
create_key-admitted_example =
    create_key-admitted sha256 sha256_bytes base64url uuid parse_uuid none new_key random no_keys
      (create_key uuid parse_uuid sha256 base64url none random (some new_key) no_keys).1
      {k = response} refl refl refl refl refl

relay_stream_lem_example :
    let (lines, tail) = read_lines body.text in
    relay_stream unmarshal_chunk body ≡ (
      if any is_done lines
      then relayed_done unmarshal_chunk lines "" 0 []
      else relayed_all unmarshal_chunk body.gone_at_end tail lines "" 0 [])
relay_stream_lem_example = relay_stream_lem unmarshal_chunk body

relay_stream-completed_example :
    let (lines, tail) = read_lines body.text in
    (relay_stream unmarshal_chunk body).completed ≡ (any is_done lines || is_done tail)
relay_stream-completed_example = relay_stream-completed unmarshal_chunk body

raw_text-relay_stream_example :
    let (lines, tail) = read_lines body.text in
    let r = relay_stream unmarshal_chunk body in
    (any is_done lines ≡ true
      → String.◌++◌ (raw_text r.writes) (String.◌++◌ (concat (after_done lines)) tail) ≡ body.text)
    × (any is_done lines ≡ false → raw_text r.writes ≡ String.◌++◌ body.text (closing tail))
    × (any is_error r.writes ≡ (not r.completed && not body.gone_at_end))
raw_text-relay_stream_example = raw_text-relay_stream unmarshal_chunk body
