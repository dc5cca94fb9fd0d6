-- ===== src/Gateway/Complete.antt =====
-- backend/internal/gateway/chat.go: the audit of a call, and completeChat, the non-streaming path.
pub mod Concluded
use ai_it_dab_com.Prelude.{
  ℕ, suc, String, Bool, true, false, Option, none, some, List, [], ◌∷◌, ◌++◌, if◌then◌else◌, length,
}
use ai_it_dab_com.Prelude.Actions.{Result, ok, err}
use ai_it_dab_com.Conversation.{role_assistant}
use ai_it_dab_com.GatewayCore.{Message, ConvRepo, persist_exchange}
use ai_it_dab_com.Usage
use ai_it_dab_com.Vllm
use ai_it_dab_com.Vllm.{Reply, got, lost}
use ai_it_dab_com.Gateway.Respond.{World, json_chat, write, write_error, err_upstream, err_internal}
use ai_it_dab_com.Gateway.Chat.{
  PreparedTurn, outcome_success, outcome_upstream_error, outcome_persist_error, upstream_request,
  upstream_status_of, token_counts,
}

-- What a handler has besides the request: whether a usage recorder is set, and the latency that
-- time.Since gives at the end of the call.
pub record Auditor : Type 0 where
  pub enabled : Bool
  pub latency_ms : ℕ

unfoldable pub usage_record :
    ℕ → PreparedTurn → String → Option ℕ → Option ℕ → Option ℕ → Usage.Record
usage_record latency_ms p outcome upstream_status prompt_tokens completion_tokens = record {
  api_key_id = p.cred.id;
  conversation_id = p.conv.id;
  model = p.eff_model;
  stream = p.req.stream;
  prompt_msg_count = length p.assembled;
  prompt_token_count = prompt_tokens;
  completion_token_count = completion_tokens;
  upstream_status = upstream_status;
  outcome = outcome;
  latency_ms = latency_ms;
}

-- One audit row, where a recorder is set, and one log line.
unfoldable pub finish : {S : Type 0} → Bool → Usage.Record → ℕ → World S → World S
finish enabled rec chunk_count w = record w {
  audit = if enabled then w.audit ++ rec ∷ [] else w.audit;
  logged = w.logged ++ record { record_of = rec; chunk_count = chunk_count } ∷ [];
}

module _ (repo : ConvRepo) (a : Auditor) where
  -- A call that ends with `outcome`.
  abbrev pub end_call :
      PreparedTurn
      → String
      → Option ℕ
      → Option ℕ
      → Option ℕ
      → ℕ
      → World repo.State
      → World repo.State
  end_call p outcome status prompt completion chunks =
      finish a.enabled (usage_record a.latency_ms p outcome status prompt completion) chunks

  -- The answer after PersistExchange.
  abbrev reply :
      PreparedTurn
      → Option Vllm.Usage
      → Message
      → Result (Unit {0})
      → World repo.State
      → World repo.State
  reply p usage assistant (err e) w =
      end_call p outcome_persist_error (some 200) (token_counts usage).0 (token_counts usage).1 0
        (write_error err_internal "could not save the conversation" w)
  reply p usage assistant (ok u) w =
      end_call p outcome_success (some 200) (token_counts usage).0 (token_counts usage).1 0 (
        write
          (json_chat (record {
            session_id = p.conv.id;
            model = p.eff_model;
            message = record { role = assistant.role; content = assistant.content };
            usage = usage;
          }))
          w)

  abbrev with_choices :
      PreparedTurn → Option Vllm.Usage → List Vllm.Choice → World repo.State → World repo.State
  with_choices p usage [] w =
      end_call p outcome_upstream_error (some 200) none none 0
        (write_error err_upstream "the model backend returned no completion" w)
  with_choices p usage (choice ∷ _) w =
      let assistant : Message = record {
        role = role_assistant;
        content = choice.message.content;
      } in
      let (r, s) = persist_exchange repo p.conv p.incoming assistant w.repo in
      reply p usage assistant r (record w { repo = s })

  abbrev with_reply : PreparedTurn → Reply Vllm.ChatResponse → World repo.State → World repo.State
  with_reply p (lost failure) w =
      end_call p outcome_upstream_error (upstream_status_of failure) none none 0
        (write_error err_upstream "the model backend could not complete the request" w)
  with_reply p (got resp) w = with_choices p resp.usage resp.choices w

  -- completeChat, with `complete` for what the upstream answers.
  pub complete_chat :
      (Vllm.ChatRequest → Reply Vllm.ChatResponse)
      → PreparedTurn
      → World repo.State
      → World repo.State
  complete_chat complete p w =
      let req = upstream_request false p in
      with_reply p (complete req) (record w { asked = w.asked ++ req ∷ [] })
