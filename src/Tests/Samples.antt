-- ===== src/Tests/Samples.antt =====
-- The concrete inputs of the tests.
use Prim.Native.String
use Prim.Native.String.{len}
use ai_it_dab_com.Prelude.{
  ℕ, zero, suc, ◌%◌, String, true, false, Option, none, some, List, [], ◌∷◌, ◌==◌, if◌then◌else◌,
  arith, All, ◌<◌,
}
use ai_it_dab_com.Conversation.{
  Conversation, MessageRow, NewMessage, ConvDb, role_user, role_assistant,
}
use ai_it_dab_com.ApiKey.{ApiKey, KeyDb}
use ai_it_dab_com.ApiKey.Credential.{Random}
use ai_it_dab_com.GatewayCore.{Message}
use ai_it_dab_com.Gateway.Chat
use ai_it_dab_com.Gateway.Chat.{ChatRequestBody, Decoded, decoded}
use ai_it_dab_com.Gateway.Respond.{World}
use ai_it_dab_com.Gateway.Stream.{Body}
use ai_it_dab_com.Gateway.Serve.{Call}
use ai_it_dab_com.Vllm.{got}
use ai_it_dab_com.Migrate.{Migration, MigrateDb}

abbrev pub uuid : ℕ → String
uuid zero = "u"
uuid (suc n) = String.◌++◌ "u" (uuid n)

abbrev pub parse_uuid : String → Option String
parse_uuid s = if s == "nonsense" then none else some s

-- A digest of one byte, the text's length.
abbrev pub sha256 : String → List ℕ
sha256 s = (len s % 256) ∷ []

pub sha256_bytes : (s : String) → All (λ b. b < 256) (sha256 s)
sha256_bytes s = (omega arith, tt)

abbrev pub base64url : List ℕ → String
base64url bs = "xyz"

abbrev pub random : Random
random = record { first = λ n. some (n ∷ []); second = λ n. some (n ∷ []) }

abbrev pub row : ApiKey
row = record {
  id = "k1";
  key_id = "dab_pk_a";
  secret_hash = "03";
  name = "site";
  persona = some "Be brief.";
  created_by = none;
  created_at = 1;
  revoked_at = none;
  last_used_at = none;
}

abbrev pub keys : KeyDb
keys = record { keys = row ∷ []; faults = []; serial = 1; now = 10 }

abbrev pub conv : Conversation
conv = record { id = "c1"; api_key_id = "k1"; model = "llama"; created_at = 1; updated_at = 6 }

abbrev pub question : Message
question = record { role = role_user; content = "and now?" }

abbrev pub answer : Message
answer = record { role = role_assistant; content = "later" }

abbrev pub new_question : NewMessage
new_question = record { role = role_user; content = "and now?"; token_count = none }

abbrev pub stored : MessageRow
stored = record {
  id = "m1";
  conversation_id = "c1";
  role = role_user;
  content = "hi";
  token_count = none;
  created_at = 5;
}

abbrev pub db : ConvDb
db = record {
  conversations =
      record { id = "c1"; api_key_id = "k1"; model = some "llama"; created_at = 1; updated_at = 6 }
      ∷ [];
  messages = stored ∷ [];
  faults = [];
  serial = 7;
  now = 10;
}

-- The same database with the COMMIT of a batch of one message failing: BEGIN, INSERT and UPDATE pass.
abbrev pub broken_db : ConvDb
broken_db = record db { faults = false ∷ false ∷ false ∷ true ∷ [] }

abbrev pub caller : Chat.Credential
caller = record {
  id = "k1";
  key_id = "dab_pk_a";
  name = "site";
  persona = some "Be brief.";
  owner_id = none;
}

abbrev pub request : ChatRequestBody
request = record {
  session_id = "c1";
  model = "";
  message = "and now?";
  messages = [];
  stream = false;
  temperature = none;
  top_p = none;
  max_tokens = none;
  stop = [];
}

abbrev pub world : World ConvDb
world = record { repo = db; sent = []; asked = []; audit = []; logged = [] }

abbrev pub body : Body
body = record { text = "data: later\n\ndata: [DONE]\n"; gone_at_end = false; gone_after = false }

-- A chunk's payload as the content itself.
abbrev pub unmarshal_chunk : String → Option (List String)
unmarshal_chunk payload = some (payload ∷ [])

abbrev pub exchange : Call
exchange = record {
  credential = some caller;
  body = decoded request;
  can_flush = true;
  auditor = record { enabled = true; latency_ms = 12 };
  complete = λ req. got (record {
    id = "r1";
    model = "llama";
    choices =
        record {
          index = 0;
          message = record { role = role_assistant; content = "later" };
          finish_reason = "stop";
        }
        ∷ [];
    usage = none;
  });
  stream = λ req. got body;
}

abbrev pub migration : Migration
migration = record { version = "20260606000001"; name = "users"; up = "up"; down = "down" }

-- A schema that counts the migrations it has.
abbrev pub exec : String → ℕ → Option ℕ
exec sql n = if sql == "up" then some (suc n) else some zero

abbrev pub fresh : MigrateDb ℕ
fresh = record { schema = 0; rows = []; faults = [] }
