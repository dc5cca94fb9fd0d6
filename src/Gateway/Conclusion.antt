-- ===== src/Gateway/Conclusion.antt =====
-- How an accepted call ends, on either path: one audit row and one log line, and the exchange is
-- stored exactly when the recorded outcome is success.
use ai_it_dab_com.Prelude.{ℕ, String, ◌≡◌, refl, ◌≢◌, [], ◌∷◌, ◌++◌, if◌then◌else◌, length, Option}
use ai_it_dab_com.Prelude.Actions.{ok}
use ai_it_dab_com.Conversation.{role_assistant}
use ai_it_dab_com.GatewayCore.{Message, ConvRepo, drop_overlap, persist_exchange}
use ai_it_dab_com.GatewayCore.Repo.{ConvRepoLaws}
use ai_it_dab_com.GatewayCore.Persist.{persist_exchange_ok}
use ai_it_dab_com.Usage
use ai_it_dab_com.Gateway.Respond.{World}
use ai_it_dab_com.Gateway.Chat.{PreparedTurn, outcome_success}
use ai_it_dab_com.Gateway.Complete.{Auditor, usage_record, finish, end_call}

-- `w` is the state when the turn was prepared, `w'` the state when the handler returns, and `reply`
-- what the upstream said.
pub record IsConcluded (repo : ConvRepo) (laws : ConvRepoLaws repo) (a : Auditor) (p : PreparedTurn)
    (reply : String) (w w' : World repo.State) : Type 0 where
  pub rec : Usage.Record
  pub chunks : ℕ
  pub logged : w'.logged ≡ w.logged ++ record { record_of = rec; chunk_count = chunks } ∷ []
  pub audited : w'.audit ≡ (if a.enabled then w.audit ++ rec ∷ [] else w.audit)
  pub attributed :
      (rec.api_key_id ≡ p.cred.id)
      × (rec.conversation_id ≡ p.conv.id)
      × (rec.model ≡ p.eff_model)
      × (rec.stream ≡ p.req.stream)
      × (rec.prompt_msg_count ≡ length p.assembled)
  pub kept :
      rec.outcome ≢ outcome_success → (j : String) → laws.history w'.repo j ≡ laws.history w.repo j
  pub stored :
      rec.outcome ≡ outcome_success
      → laws.IsReady w.repo p.conv.id
      → laws.history w'.repo p.conv.id
        ≡ laws.history w.repo p.conv.id
          ++ (drop_overlap (laws.history w.repo p.conv.id) p.incoming
              ++ record { role = role_assistant; content = reply } ∷ [])

module _ (repo : ConvRepo) (laws : ConvRepoLaws repo) (a : Auditor) (p : PreparedTurn)
    (reply : String) (w : World repo.State) where
  -- A call that ends with a failure, with the repository as the call found it or as a failed
  -- PersistExchange left it.
  pub end_call-IsConcluded :
      (outcome : String) (status prompt completion : Option ℕ) (chunks : ℕ) (w' : World repo.State)
      → outcome ≢ outcome_success
      → w'.logged ≡ w.logged
      → w'.audit ≡ w.audit
      → ((j : String) → laws.history w'.repo j ≡ laws.history w.repo j)
      → IsConcluded repo laws a p reply w
          (end_call repo a p outcome status prompt completion chunks w')
  unfolding usage_record finish
  end_call-IsConcluded outcome status prompt completion chunks w' fail el ea same = record {
    rec = usage_record a.latency_ms p outcome status prompt completion;
    chunks = chunks;
    logged = rw el refl;
    audited = rw ea refl;
    attributed = (refl, refl, refl, refl, refl);
    kept = λ n. same;
    stored = λ e. absurd (fail e);
  }

  abbrev pub assistant : Message
  assistant = record { role = role_assistant; content = reply }

  -- A call that ends with success, after PersistExchange returned nil.
  pub end_call-IsConcluded_success :
      (status prompt completion : Option ℕ) (chunks : ℕ) (w' : World repo.State) {u : Unit {0}}
      → (persist_exchange repo p.conv p.incoming assistant w.repo).0 ≡ ok u
      → w'.logged ≡ w.logged
      → w'.audit ≡ w.audit
      → w'.repo ≡ (persist_exchange repo p.conv p.incoming assistant w.repo).1
      → IsConcluded repo laws a p reply w
          (end_call repo a p outcome_success status prompt completion chunks w')
  unfolding usage_record finish
  end_call-IsConcluded_success status prompt completion chunks w' done el ea er = record {
    rec = usage_record a.latency_ms p outcome_success status prompt completion;
    chunks = chunks;
    logged = rw el refl;
    audited = rw ea refl;
    attributed = (refl, refl, refl, refl, refl);
    kept = λ n. absurd (n refl);
    stored = λ _ ready. rw er (
        persist_exchange_ok repo laws p.conv p.incoming
          (record { role = role_assistant; content = reply }) w.repo ready done);
  }
