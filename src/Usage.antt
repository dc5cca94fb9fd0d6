-- ===== src/Usage.antt =====
-- backend/internal/usage/usage.go: the audit row. To the gateway a recorder is the list of the rows
-- that it was handed; the repository and its asynchronous wrapper are in Usage/Repository.antt.
pub mod Repository
use ai_it_dab_com.Prelude.{ℕ, String, Bool, Option}

pub record Record : Type 0 where
  pub api_key_id : String
  pub conversation_id : String
  pub model : String
  pub stream : Bool
  pub prompt_msg_count : ℕ
  pub prompt_token_count : Option ℕ
  pub completion_token_count : Option ℕ
  pub upstream_status : Option ℕ
  pub outcome : String
  pub latency_ms : ℕ
