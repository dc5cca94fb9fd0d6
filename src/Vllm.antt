-- ===== src/Vllm.antt =====
-- backend/internal/vllm/client.go: the request and response types that the gateway exchanges with
-- the upstream client, and the statuses that are an error. A float64 that is only passed on stands
-- as its text. The client itself is in Vllm/Client.antt.
pub mod Client
use ai_it_dab_com.Prelude.{ℕ, String, Bool, Option, List}

pub record Message : Type 0 where
  pub role : String
  pub content : String

pub record ChatRequest : Type 0 where
  pub model : String
  pub messages : List Message
  pub stream : Bool
  pub temperature : Option String
  pub top_p : Option String
  pub max_tokens : Option ℕ
  pub stop : List String

pub record Usage : Type 0 where
  pub prompt_tokens : ℕ
  pub completion_tokens : ℕ
  pub total_tokens : ℕ

pub record Choice : Type 0 where
  pub index : ℕ
  pub message : Message
  pub finish_reason : String

pub record ChatResponse : Type 0 where
  pub id : String
  pub model : String
  pub choices : List Choice
  pub usage : Option Usage

-- An error of Complete or Stream: an *UpstreamError with its status and the bytes of its message, or
-- another error.
pub data Failure : Type 0 where
  upstream_error : (status_code : ℕ) → (message : List ℕ) → Failure
  other : Failure

pub data Reply {ℓ} (A : Type ℓ) : Type ℓ where
  got : A → Reply A
  lost : Failure → Reply A
