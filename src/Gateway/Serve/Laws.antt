-- ===== src/Gateway/Serve/Laws.antt =====
-- What POST /v1/gateway/chat does from the request to the end of its answer.
use ai_it_dab_com.Prelude.{
  ℕ, String, ◌≡◌, refl, Bool, true, false, Option, none, some, List, if◌then◌else◌,
}
use ai_it_dab_com.GatewayCore.{ConvRepo}
use ai_it_dab_com.GatewayCore.Repo.{ConvRepoLaws}
use ai_it_dab_com.Gateway.Respond.{World}
use ai_it_dab_com.Gateway.Chat.{PreparedTurn, prepare_turn, upstream_request}
use ai_it_dab_com.Gateway.Conclusion.{IsConcluded}
use ai_it_dab_com.Gateway.Complete.Concluded.{reply_text, complete_chat-IsConcluded}
use ai_it_dab_com.Gateway.Stream.Concluded.{streamed_text, stream_chat-IsConcluded}
use ai_it_dab_com.Gateway.Complete.{complete_chat}
use ai_it_dab_com.Gateway.Stream.{stream_chat}
use ai_it_dab_com.Gateway.Serve.{Call, dispatch, after_prepare, chat}
use ai_it_dab_com.Gateway.Chat.Answered.{IsAnswered, prepare_turn-IsAnswered}

module _ (unmarshal_chunk : String → Option (List String)) (repo : ConvRepo)
    (laws : ConvRepoLaws repo) (max_history : ℕ) where
  -- What the upstream said to a turn, on the path that the request selects.
  abbrev pub reply_of : Call → PreparedTurn → String
  reply_of c p =
      if p.req.stream
      then streamed_text unmarshal_chunk (c.stream (upstream_request true p))
      else reply_text (c.complete (upstream_request false p))

  either-IsConcluded :
      (c : Call) (p : PreparedTurn) (w : World repo.State) (stream : Bool)
      → IsConcluded repo laws c.auditor p
          (if stream
            then streamed_text unmarshal_chunk (c.stream (upstream_request true p))
            else reply_text (c.complete (upstream_request false p)))
          w
          (if stream
            then stream_chat unmarshal_chunk repo c.auditor c.can_flush c.stream p w
            else complete_chat repo c.auditor c.complete p w)
  either-IsConcluded c p w true =
      stream_chat-IsConcluded unmarshal_chunk repo laws c.auditor p c.can_flush c.stream w
  either-IsConcluded c p w false = complete_chat-IsConcluded repo laws c.auditor p c.complete w

  dispatch-IsConcluded :
      (c : Call) (p : PreparedTurn) (w : World repo.State)
      → IsConcluded repo laws c.auditor p
          (reply_of c p)
          w
          (dispatch unmarshal_chunk repo max_history c p w)
  unfolding dispatch
  dispatch-IsConcluded c p w = either-IsConcluded c p w p.req.stream

  -- How a call ends, from the state in which its turn was prepared: it is over, or it is concluded.
  abbrev pub Ending : Call → Option PreparedTurn → World repo.State → World repo.State → Type 0
  Ending c none w w' = w' ≡ w
  Ending c (some p) w w' = IsConcluded repo laws c.auditor p (reply_of c p) w w'

  after_prepare-Ending :
      (c : Call) (p : Option PreparedTurn) (w : World repo.State)
      → Ending c p w (after_prepare unmarshal_chunk repo max_history c p w)
  after_prepare-Ending c none w = refl
  after_prepare-Ending c (some p) w = dispatch-IsConcluded c p w

  -- Each call of the endpoint ends in one of two ways. A refused request gets one JSON error, and
  -- there is no upstream request, audit row, log line or change of a history. An accepted one, on
  -- the streaming and the other path alike, ends with exactly one log line and, where a recorder is
  -- set, one audit row, both naming the caller's credential, the conversation, the model and the
  -- length of the context; where its outcome is not `success` no history changed, and where it is
  -- (and the clock is past the stored messages) the history grew by the fresh turns and the reply.
  pub chat_lem :
      (c : Call) (w : World repo.State)
      → let (p, w₁) = prepare_turn repo max_history c.credential c.body w in
        IsAnswered repo laws PreparedTurn p w w₁
        × Ending c p w₁ (chat unmarshal_chunk repo max_history c w)
  unfolding chat
  chat_lem c w =
      let (p, w₁) = prepare_turn repo max_history c.credential c.body w in
      (
        prepare_turn-IsAnswered repo laws max_history c.credential c.body w,
        after_prepare-Ending c p w₁,
      )
