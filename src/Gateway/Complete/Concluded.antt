-- ===== src/Gateway/Complete/Concluded.antt =====
-- completeChat ends each call with one audit row, and stores the exchange exactly on success.
use ai_it_dab_com.Prelude.{
  String, refl, ◌≢◌, List, [], ◌∷◌, ◌++◌, arith, eq_iff, Option, some, none, inl, inr, false,
}
use ai_it_dab_com.Prelude.Actions.{Result-cases}
use ai_it_dab_com.Conversation.{role_assistant}
use ai_it_dab_com.GatewayCore.{Message, ConvRepo, persist_exchange}
use ai_it_dab_com.GatewayCore.Repo.{ConvRepoLaws}
use ai_it_dab_com.GatewayCore.Persist.{persist_exchange_err}
use ai_it_dab_com.Vllm
use ai_it_dab_com.Vllm.{Reply, got, lost}
use ai_it_dab_com.Gateway.Respond.{World, write, write_error, json_chat, err_upstream, err_internal}
use ai_it_dab_com.Gateway.Chat.{
  PreparedTurn, outcome_success, outcome_upstream_error, outcome_persist_error, upstream_request,
}
use ai_it_dab_com.Gateway.Complete.{Auditor, complete_chat, with_reply, with_choices}
use ai_it_dab_com.Gateway.Conclusion.{
  IsConcluded, end_call-IsConcluded, end_call-IsConcluded_success,
}

-- The text of the upstream's first choice.
abbrev pub first_choice : List Vllm.Choice → String
first_choice [] = ""
first_choice (c ∷ cs) = c.message.content

abbrev pub reply_text : Reply Vllm.ChatResponse → String
reply_text (lost f) = ""
reply_text (got resp) = first_choice resp.choices

upstream_error-ne-success : ◌≢◌ {A = String} outcome_upstream_error outcome_success
upstream_error-ne-success = ground (arith, eq_iff outcome_upstream_error outcome_success)

persist_error-ne-success : ◌≢◌ {A = String} outcome_persist_error outcome_success
persist_error-ne-success = ground (arith, eq_iff outcome_persist_error outcome_success)

module _ (repo : ConvRepo) (laws : ConvRepoLaws repo) (a : Auditor) (p : PreparedTurn) where
  with_choices-IsConcluded :
      (usage : Option Vllm.Usage) (choices : List Vllm.Choice) (w : World repo.State)
      → IsConcluded repo laws a p (first_choice choices) w (with_choices repo a p usage choices w)
  unfolding write_error
  with_choices-IsConcluded usage [] w =
      end_call-IsConcluded repo laws a p "" w outcome_upstream_error (some 200) none none 0
        (write_error err_upstream "the model backend returned no completion" w)
        upstream_error-ne-success refl refl (λ j. refl)
  with_choices-IsConcluded usage (c ∷ cs) w =
      let said : Message = record { role = role_assistant; content = c.message.content } in
      let w₁ = record w { repo = (persist_exchange repo p.conv p.incoming said w.repo).1 } in
      elim (Result-cases (persist_exchange repo p.conv p.incoming said w.repo).0) [
        | inl (u, done) ↦ rw done (
            end_call-IsConcluded_success repo laws a p c.message.content w _ _ _ 0
              (write
                (json_chat (record {
                  session_id = p.conv.id;
                  model = p.eff_model;
                  message = record { role = role_assistant; content = c.message.content };
                  usage = usage;
                }))
                w₁)
              done refl refl refl)
        | inr (e, failed) ↦ rw failed (
            end_call-IsConcluded repo laws a p c.message.content w outcome_persist_error _ _ _ 0
              (write_error err_internal "could not save the conversation" w₁)
              persist_error-ne-success refl refl
              (λ j. persist_exchange_err repo laws p.conv p.incoming said w.repo j e failed))
      ]

  with_reply-IsConcluded :
      (r : Reply Vllm.ChatResponse) (w : World repo.State)
      → IsConcluded repo laws a p (reply_text r) w (with_reply repo a p r w)
  unfolding write_error
  with_reply-IsConcluded (lost f) w =
      end_call-IsConcluded repo laws a p "" w outcome_upstream_error _ none none 0
        (write_error err_upstream "the model backend could not complete the request" w)
        upstream_error-ne-success refl refl (λ j. refl)
  with_reply-IsConcluded (got resp) w = with_choices-IsConcluded resp.usage resp.choices w

  pub complete_chat-IsConcluded :
      (complete : Vllm.ChatRequest → Reply Vllm.ChatResponse) (w : World repo.State)
      → IsConcluded repo laws a p
          (reply_text (complete (upstream_request false p)))
          w
          (complete_chat repo a complete p w)
  unfolding complete_chat
  complete_chat-IsConcluded complete w =
      let req = upstream_request false p in
      let c = with_reply-IsConcluded (complete req) (record w { asked = w.asked ++ req ∷ [] }) in
      record {
        rec = c.rec;
        chunks = c.chunks;
        logged = c.logged;
        audited = c.audited;
        attributed = c.attributed;
        kept = c.kept;
        stored = c.stored;
      }
