-- ===== src/Gateway/Chat.antt =====
-- backend/internal/gateway/chat.go: the request and its validation, and prepareTurn.
pub mod Prepared
pub mod Answered
use Prim.Native.Nat.{◌≤◌}
use ai_it_dab_com.Prelude.{
  ℕ, suc, String, Bool, true, false, not, ◌&&◌, ◌||◌, Option, none, some, List, [], ◌∷◌, ◌++◌, map,
  ◌==◌, if◌then◌else◌, length, trim_space,
}
use ai_it_dab_com.Prelude.Actions
use ai_it_dab_com.Prelude.Actions.{Result, ok, err, Error, not_found, taken, failed, Action}
use ai_it_dab_com.Conversation.{Conversation, role_user, role_assistant}
use ai_it_dab_com.GatewayCore.{Message, ConvRepo, resolve, assemble_context, persist_exchange}
use ai_it_dab_com.Usage
use ai_it_dab_com.Vllm
use ai_it_dab_com.Vllm.{Failure, upstream_error, other, Reply, got, lost}
use ai_it_dab_com.Gateway.Respond.{
  ChatMessage, ChatResponseBody, Write, json_chat, LogLine, World, write, write_error, Handler,
  return, reject, ◌>>=◌, err_invalid_request, err_unauthorized, err_not_found, err_upstream,
  err_unavailable, err_internal,
}

-- The resolved credential that the auth middleware puts in the request context.
pub record Credential : Type 0 where
  pub id : String
  pub key_id : String
  pub name : String
  pub persona : Option String
  pub owner_id : Option String

pub record ChatRequestBody : Type 0 where
  pub session_id : String
  pub model : String
  pub message : String
  pub messages : List ChatMessage
  pub stream : Bool
  pub temperature : Option String
  pub top_p : Option String
  pub max_tokens : Option ℕ
  pub stop : List String

-- What the strict, size-capped JSON decoder makes of the request body.
pub data Decoded : Type 0 where
  too_large malformed : Decoded
  decoded : ChatRequestBody → Decoded

pub record PreparedTurn : Type 0 where
  pub cred : Credential
  pub conv : Conversation
  pub incoming : List Message
  pub assembled : List Message
  pub eff_model : String
  pub req : ChatRequestBody

abbrev pub outcome_success : String
outcome_success = "success"

abbrev pub outcome_upstream_error : String
outcome_upstream_error = "upstream_error"

abbrev pub outcome_persist_error : String
outcome_persist_error = "persist_error"

abbrev pub outcome_client_disconnect : String
outcome_client_disconnect = "client_disconnect"

abbrev pub outcome_internal_error : String
outcome_internal_error = "internal_error"

abbrev pub role_allowed : String → Bool
role_allowed role = role == role_user || role == role_assistant

-- `persona := ""`, or the credential's.
abbrev pub persona_of : Option String → String
persona_of none = ""
persona_of (some p) = p

unfoldable pub to_vllm_message : Message → Vllm.Message
to_vllm_message m = record { role = m.role; content = m.content }

pub to_vllm_messages : List Message → List Vllm.Message
to_vllm_messages = map to_vllm_message

unfoldable pub upstream_status_of : Failure → Option ℕ
upstream_status_of (upstream_error status_code message) = some status_code
upstream_status_of other = none

unfoldable pub token_counts : Option Vllm.Usage → Option ℕ × Option ℕ
token_counts none = (none, none)
token_counts (some u) = (some u.prompt_tokens, some u.completion_tokens)

-- The request of a turn; Complete and Stream set `stream`.
unfoldable pub upstream_request : Bool → PreparedTurn → Vllm.ChatRequest
upstream_request stream p = record {
  model = p.eff_model;
  messages = to_vllm_messages p.assembled;
  stream = stream;
  temperature = p.req.temperature;
  top_p = p.req.top_p;
  max_tokens = p.req.max_tokens;
  stop = p.req.stop;
}

module _ {S : Type 0} where
  -- The loop of parseIncoming over an explicit messages array.
  pub parse_messages : List ChatMessage → Handler S (List Message)
  parse_messages [] = return []
  parse_messages (m ∷ ms) =
      let rest = parse_messages ms in
      let role = trim_space m.role in
      if not (role_allowed role)
      then reject err_invalid_request "each message role must be 'user' or 'assistant'"
      else if trim_space m.content == ""
      then reject err_invalid_request "each message must have non-empty content"
      else (do out ← rest; return (record { role = role; content = m.content } ∷ out))

  -- The single `message`, where there is no messages array.
  unfoldable pub parse_message : String → Handler S (List Message)
  parse_message message =
      if not (trim_space message == "")
      then return (record { role = role_user; content = message } ∷ [])
      else reject err_invalid_request "a message or a non-empty messages array is required"

  abbrev pub parse_turns : String → List ChatMessage → Handler S (List Message)
  parse_turns message [] = parse_message message
  parse_turns message (m ∷ ms) = parse_messages (m ∷ ms)

  unfoldable pub parse_incoming : ChatRequestBody → Handler S (List Message)
  parse_incoming req = parse_turns req.message req.messages

  abbrev pub require_credential : Option Credential → Handler S Credential
  require_credential none = reject err_unauthorized "authentication required"
  require_credential (some cred) = return cred

  abbrev pub decode : Decoded → Handler S ChatRequestBody
  decode too_large = reject err_invalid_request "request body too large"
  decode malformed =
      reject err_invalid_request "request body is not valid JSON or contains unknown fields"
  decode (decoded req) = return req

  -- `if bad { writeError(…); return nil, false }`
  abbrev pub refuse_if : Bool → String → Handler S (Unit {0})
  refuse_if bad message = if bad then reject err_invalid_request message else return tt

  abbrev pub or_conversation : Result Conversation → Handler S Conversation
  or_conversation (ok conv) = return conv
  or_conversation (err not_found) = reject err_not_found "session not found"
  or_conversation (err taken) = reject err_unavailable "could not load the conversation"
  or_conversation (err (failed e)) = reject err_unavailable "could not load the conversation"

  abbrev pub or_context : Result (List Message) → Handler S (List Message)
  or_context (ok out) = return out
  or_context (err e) = reject err_unavailable "could not assemble context"

  -- A call of the core, over the repository's part of the state.
  abbrev pub call : {A B : Type 0} → Action S A → (Result A → Handler S B) → Handler S B
  call m k w = let (r, s) = m w.repo in k r (record w { repo = s })

module _ (repo : ConvRepo) (max_history : ℕ) where
  -- prepareTurn from the effective model on.
  unfoldable pub assemble_turn :
      Credential → ChatRequestBody → List Message → Conversation → Handler repo.State PreparedTurn
  assemble_turn cred req incoming conv = do
    let model = trim_space req.model
    let eff_model = if model == "" then conv.model else model
    _ ← refuse_if (eff_model == "") "model is required"
    assembled ←
        call (assemble_context repo max_history (persona_of cred.persona) conv incoming) or_context
    return (record {
      cred = cred;
      conv = conv;
      incoming = incoming;
      assembled = assembled;
      eff_model = eff_model;
      req = req;
    })

  -- prepareTurn from the session on.
  unfoldable pub resolve_turn :
      Credential → ChatRequestBody → List Message → Handler repo.State PreparedTurn
  resolve_turn cred req incoming = do
    let session_id = trim_space req.session_id
    let model = trim_space req.model
    _ ← refuse_if (session_id == "" && model == "") "model is required for a new conversation"
    conv ← call (resolve repo cred.id session_id model) or_conversation
    assemble_turn cred req incoming conv

  -- prepareTurn
  unfoldable pub prepare_turn : Option Credential → Decoded → Handler repo.State PreparedTurn
  prepare_turn credential body = do
    cred ← require_credential credential
    req ← decode body
    incoming ← parse_incoming req
    resolve_turn cred req incoming
