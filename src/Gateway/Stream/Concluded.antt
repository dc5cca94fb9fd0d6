-- ===== src/Gateway/Stream/Concluded.antt =====
-- streamChat ends each call with one audit row, and stores the exchange exactly on success.
use ai_it_dab_com.Prelude.{
  ℕ, String, ◌≡◌, refl, sym, ◌≢◌, Bool, true, false, List, [], ◌∷◌, ◌++◌, arith, eq_iff, Option,
  some, none, inl, inr, Bool-cases, if◌then◌else◌,
}
use ai_it_dab_com.Prelude.Actions.{Result-cases}
use ai_it_dab_com.Conversation.{role_assistant}
use ai_it_dab_com.GatewayCore.{Message, ConvRepo, persist_exchange}
use ai_it_dab_com.GatewayCore.Repo.{ConvRepoLaws}
use ai_it_dab_com.GatewayCore.Persist.{persist_exchange_err}
use ai_it_dab_com.Vllm
use ai_it_dab_com.Vllm.{Reply, got, lost}
use ai_it_dab_com.Gateway.Respond.{
  World, write, write_error, sse_error, sse_headers, sse_session, flush, err_upstream, err_internal,
}
use ai_it_dab_com.Gateway.Chat.{
  PreparedTurn, outcome_success, outcome_upstream_error, outcome_persist_error,
  outcome_client_disconnect, outcome_internal_error, upstream_request,
}
use ai_it_dab_com.Gateway.Complete.{Auditor, end_call}
use ai_it_dab_com.Gateway.Conclusion.{
  IsConcluded, end_call-IsConcluded, end_call-IsConcluded_success,
}
use ai_it_dab_com.Gateway.Stream.Relay.{relay_stream-role}
use mathlib.Core.Path.{subst}
use ai_it_dab_com.Gateway.Stream.{
  after_persist, Body, Relayed, relay_stream, stream_chat, with_stream, after_relay,
}

failure-ne-success :
    (outcome_upstream_error ≢ outcome_success)
    × (outcome_persist_error ≢ outcome_success)
    × (outcome_client_disconnect ≢ outcome_success)
    × (outcome_internal_error ≢ outcome_success)
failure-ne-success = (
  ground (arith, eq_iff outcome_upstream_error outcome_success),
  ground (arith, eq_iff outcome_persist_error outcome_success),
  ground (arith, eq_iff outcome_client_disconnect outcome_success),
  ground (arith, eq_iff outcome_internal_error outcome_success),
)

module _ (unmarshal_chunk : String → Option (List String)) where
  -- The reply that the relay reassembled.
  abbrev pub streamed_text : Reply Body → String
  streamed_text (lost f) = ""
  streamed_text (got body) = (relay_stream unmarshal_chunk body).assistant.content

  module _ (repo : ConvRepo) (laws : ConvRepoLaws repo) (a : Auditor) (p : PreparedTurn) where
    after_persist-IsConcluded :
        (content : String) (chunks : ℕ) (w : World repo.State)
        → let said : Message = record { role = role_assistant; content = content } in
          let (r, s) = persist_exchange repo p.conv p.incoming said w.repo in
          IsConcluded repo laws a p content w
            (after_persist unmarshal_chunk repo a p chunks r (record w { repo = s }))
    after_persist-IsConcluded content chunks w =
        let said : Message = record { role = role_assistant; content = content } in
        let w₁ = record w { repo = (persist_exchange repo p.conv p.incoming said w.repo).1 } in
        elim (Result-cases (persist_exchange repo p.conv p.incoming said w.repo).0) [
          | inl (u, done) ↦ rw done (
              end_call-IsConcluded_success repo laws a p content w (some 200) none none chunks w₁
                done refl refl refl)
          | inr (e, failed) ↦ rw failed (
              end_call-IsConcluded repo laws a p content w outcome_persist_error (some 200) none
                none chunks
                (write flush (
                  write (sse_error err_internal "the reply was delivered but could not be saved")
                    w₁))
                failure-ne-success.1 refl refl
                (λ j. persist_exchange_err repo laws p.conv p.incoming said w.repo j e failed))
        ]

    broken_off-IsConcluded :
        (gone_after : Bool) (content : String) (chunks : ℕ) (w : World repo.State)
        → IsConcluded repo laws a p content w (
            end_call repo a p
              (if gone_after then outcome_client_disconnect else outcome_upstream_error)
              (some 200)
              none
              none
              chunks
              w)
    broken_off-IsConcluded true content chunks w =
        end_call-IsConcluded repo laws a p content w outcome_client_disconnect (some 200) none none
          chunks w failure-ne-success.2 refl refl (λ j. refl)
    broken_off-IsConcluded false content chunks w =
        end_call-IsConcluded repo laws a p content w outcome_upstream_error (some 200) none none
          chunks w failure-ne-success.0 refl refl (λ j. refl)

    after_relay-IsConcluded :
        (gone_after : Bool) (r : Relayed) (w : World repo.State)
        → (r.completed ≡ true → r.assistant.role ≡ role_assistant)
        → IsConcluded repo laws a p r.assistant.content w
            (after_relay unmarshal_chunk repo a p gone_after r w)
    after_relay-IsConcluded gone_after r w role = elim (Bool-cases r.completed) [
      | inl seen ↦
          let said : ◌≡◌ {A = Message}
              (record { role = role_assistant; content = r.assistant.content }) r.assistant =
            λ i. record { role = sym (role seen) i; content = r.assistant.content } in
          rw seen (
            subst
              (λ m. IsConcluded repo laws a p r.assistant.content w (
                after_persist unmarshal_chunk repo a p r.chunks
                  (persist_exchange repo p.conv p.incoming m w.repo).0
                  (record w { repo = (persist_exchange repo p.conv p.incoming m w.repo).1 })))
              said (after_persist-IsConcluded r.assistant.content r.chunks w))
      | inr cut ↦ rw cut (broken_off-IsConcluded gone_after r.assistant.content r.chunks w)
    ]

    with_stream-IsConcluded :
        (r : Reply Body) (w : World repo.State)
        → IsConcluded repo laws a p (streamed_text r) w (with_stream unmarshal_chunk repo a p r w)
    unfolding write_error
    with_stream-IsConcluded (lost f) w =
        end_call-IsConcluded repo laws a p "" w outcome_upstream_error _ none none 0
          (write_error err_upstream "the model backend could not start the stream" w)
          failure-ne-success.0 refl refl (λ j. refl)
    with_stream-IsConcluded (got body) w =
        let r = relay_stream unmarshal_chunk body in
        let c =
          after_relay-IsConcluded body.gone_after r
            (record w {
              sent = w.sent ++ (sse_headers p.conv.id ∷ sse_session p.conv.id ∷ flush ∷ r.writes);
            })
            (relay_stream-role unmarshal_chunk body) in
        record {
          rec = c.rec;
          chunks = c.chunks;
          logged = c.logged;
          audited = c.audited;
          attributed = c.attributed;
          kept = c.kept;
          stored = c.stored;
        }

    pub stream_chat-IsConcluded :
        (can_flush : Bool) (stream : Vllm.ChatRequest → Reply Body) (w : World repo.State)
        → IsConcluded repo laws a p
            (streamed_text (stream (upstream_request true p)))
            w
            (stream_chat unmarshal_chunk repo a can_flush stream p w)
    unfolding stream_chat write_error
    stream_chat-IsConcluded false stream w =
        end_call-IsConcluded repo laws a p _ w outcome_internal_error none none none 0
          (write_error err_internal "streaming is not supported by the server" w)
          failure-ne-success.3 refl refl (λ j. refl)
    stream_chat-IsConcluded true stream w =
        let req = upstream_request true p in
        let c = with_stream-IsConcluded (stream req) (record w { asked = w.asked ++ req ∷ [] }) in
        record {
          rec = c.rec;
          chunks = c.chunks;
          logged = c.logged;
          audited = c.audited;
          attributed = c.attributed;
          kept = c.kept;
          stored = c.stored;
        }
