-- ===== src/Gateway/Respond.antt =====
-- backend/internal/gateway/respond.go, and the response writer as the list of what was written.
use ai_it_dab_com.Prelude.{ℕ, String, Option, none, some, List, [], ◌∷◌, ◌++◌, ◌==◌, if◌then◌else◌}
use ai_it_dab_com.Usage
use ai_it_dab_com.Vllm

abbrev pub err_invalid_request : String
err_invalid_request = "invalid_request"

abbrev pub err_unauthorized : String
err_unauthorized = "unauthorized"

abbrev pub err_not_found : String
err_not_found = "not_found"

abbrev pub err_rate_limited : String
err_rate_limited = "rate_limited"

abbrev pub err_upstream : String
err_upstream = "upstream_error"

abbrev pub err_unavailable : String
err_unavailable = "unavailable"

abbrev pub err_internal : String
err_internal = "internal_error"

unfoldable pub status_for_error : String → ℕ
status_for_error err_type =
    if err_type == err_invalid_request
    then 400
    else if err_type == err_unauthorized
    then 401
    else if err_type == err_not_found
    then 404
    else if err_type == err_rate_limited
    then 429
    else if err_type == err_upstream
    then 502
    else if err_type == err_unavailable
    then 503
    else 500

pub record ChatMessage : Type 0 where
  pub role : String
  pub content : String

pub record ChatResponseBody : Type 0 where
  pub session_id : String
  pub model : String
  pub message : ChatMessage
  pub usage : Option Vllm.Usage

-- What a handler does to its ResponseWriter. The JSON encoding of the bodies is not modelled.
pub data Write : Type 0 where
  -- a status with the error envelope's type and message
  json_error : ℕ → String → String → Write
  -- 200 with the chat response
  json_chat : ChatResponseBody → Write
  -- the SSE headers, X-DAB-Session-Id among them, with status 200
  sse_headers : String → Write
  -- the leading `session` frame, and an `error` frame
  sse_session : String → Write
  sse_error : String → String → Write
  raw : String → Write
  flush : Write

-- The structured log line of a call.
pub record LogLine : Type 0 where
  pub record_of : Usage.Record
  pub chunk_count : ℕ

-- What a request changes: the repository's state, the response, the upstream requests that were
-- made, the audit rows and the log lines.
pub record World (S : Type 0) : Type 0 where
  pub repo : S
  pub sent : List Write
  pub asked : List Vllm.ChatRequest
  pub audit : List Usage.Record
  pub logged : List LogLine

abbrev pub write : {S : Type 0} → Write → World S → World S
write x w = record w { sent = w.sent ++ x ∷ [] }

unfoldable pub write_error : {S : Type 0} → String → String → World S → World S
write_error err_type message = write (json_error (status_for_error err_type) err_type message)

-- A step of a handler: its value, or `none` where it wrote a response and the handler returns.
abbrev pub Handler : Type 0 → Type 0 → Type 0
Handler S A = World S → Option A × World S

module _ {S A : Type 0} where
  abbrev pub return : A → Handler S A
  return a w = (some a, w)

  abbrev pub reject : String → String → Handler S A
  reject err_type message w = (none, write_error err_type message w)

module _ {S A B : Type 0} where
  abbrev pub proceed : Option A → (A → Handler S B) → Handler S B
  proceed none f w = (none, w)
  proceed (some a) f w = f a w

  infixl 5 ◌>>=◌
  abbrev pub ◌>>=◌ : Handler S A → (A → Handler S B) → Handler S B
  ◌>>=◌ m f w = let (o, w') = m w in proceed o f w'
