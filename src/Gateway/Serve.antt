-- ===== src/Gateway/Serve.antt =====
-- The handler of POST /v1/gateway/chat (ChatHandler.Chat): prepare the turn, then the path that the
-- request's `stream` selects.
pub mod Laws
use ai_it_dab_com.Prelude.{String, Bool, true, Option, none, some, if◌then◌else◌, List, ℕ}
use ai_it_dab_com.GatewayCore.{ConvRepo}
use ai_it_dab_com.Vllm
use ai_it_dab_com.Vllm.{Reply}
use ai_it_dab_com.Gateway.Respond.{World}
use ai_it_dab_com.Gateway.Chat.{Credential, Decoded, PreparedTurn, prepare_turn}
use ai_it_dab_com.Gateway.Complete.{Auditor, complete_chat}
use ai_it_dab_com.Gateway.Stream.{Body, stream_chat}

-- What surrounds one call: the upstream's answers, the decoded request and the writer's abilities.
pub record Call : Type 0 where
  pub credential : Option Credential
  pub body : Decoded
  pub can_flush : Bool
  pub auditor : Auditor
  pub complete : Vllm.ChatRequest → Reply Vllm.ChatResponse
  pub stream : Vllm.ChatRequest → Reply Body

module _ (unmarshal_chunk : String → Option (List String)) (repo : ConvRepo) (max_history : ℕ) where
  -- The path that `stream` selects.
  pub dispatch : Call → PreparedTurn → World repo.State → World repo.State
  dispatch c p w =
      if p.req.stream
      then stream_chat unmarshal_chunk repo c.auditor c.can_flush c.stream p w
      else complete_chat repo c.auditor c.complete p w

  abbrev pub after_prepare : Call → Option PreparedTurn → World repo.State → World repo.State
  after_prepare c none w = w
  after_prepare c (some p) w = dispatch c p w

  pub chat : Call → World repo.State → World repo.State
  chat c w =
      let (p, w') = prepare_turn repo max_history c.credential c.body w in after_prepare c p w'
