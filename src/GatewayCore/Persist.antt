-- ===== src/GatewayCore/Persist.antt =====
-- PersistExchange and Resolve, over any repository that keeps the laws.
use ai_it_dab_com.Prelude.{
  ℕ, String, ◌≡◌, refl, ap, ◌∙◌, List, [], ◌∷◌, ◌++◌, map, Bool-cases, inl, inr, ◌==◌,
}
use mathlib.Core.List.{map-append}
use ai_it_dab_com.Prelude.Actions.{Error, ok, err, continue-eq-ok, Result-cases}
use ai_it_dab_com.Conversation.{Conversation, NewMessage}
use ai_it_dab_com.GatewayCore.{
  Message, ConvRepo, drop_overlap, to_messages, to_new_message, persist_exchange, resolve,
  assemble_context,
}
use ai_it_dab_com.GatewayCore.Repo.{ConvRepoLaws, from_new}

from_new-to_new_message : (ms : List Message) → map from_new (map to_new_message ms) ≡ ms
unfolding to_new_message
from_new-to_new_message [] = refl
from_new-to_new_message (m ∷ ms) = ap (λ t. m ∷ t) (from_new-to_new_message ms)

-- What is handed to AppendMessages reads back as the fresh turns and the reply.
from_new_batch :
    (fresh : List Message) (assistant : Message)
    → map from_new (map to_new_message fresh ++ to_new_message assistant ∷ [])
      ≡ fresh ++ assistant ∷ []
unfolding to_new_message
from_new_batch fresh assistant =
    map-append from_new _ _ ∙ ap (λ t. t ++ assistant ∷ []) (from_new-to_new_message fresh)

abbrev batch : List Message → List Message → Message → List NewMessage
batch stored user_msgs assistant =
    map to_new_message (drop_overlap stored user_msgs) ++ to_new_message assistant ∷ []

module _ (repo : ConvRepo) (laws : ConvRepoLaws repo) where
  open repo use {State, load_history, append_messages}
  open laws use {history, IsReady}

  -- When PersistExchange succeeds, the conversation's history is the old one, then the turns that
  -- AssembleContext found fresh (the longest repetition of the old history's end left out), then
  -- the assistant's reply. The clock must be past the conversation's stored messages.
  pub persist_exchange_ok :
      (conv : Conversation) (user_msgs : List Message) (assistant : Message) (s : State)
      {u : Unit {0}}
      → IsReady s conv.id
      → let (r, t) = persist_exchange repo conv user_msgs assistant s in
        r ≡ ok u
        → history t conv.id
          ≡ history s conv.id ++ (drop_overlap (history s conv.id) user_msgs ++ assistant ∷ [])
  unfolding persist_exchange
  persist_exchange_ok conv user_msgs assistant s ready h =
      let s₁ = (load_history conv.id s).1 in
      let (rows, loaded, done) =
        continue-eq-ok (load_history conv.id s).0
          (λ stored. append_messages conv.id (batch (to_messages stored) user_msgs assistant)) s₁
          h in
      let seen = laws.load_ok conv.id s rows loaded in
      let ready₁ = laws.load-IsReady conv.id conv.id s ready in
      rw loaded (
        laws.append_ok conv.id (batch (to_messages rows) user_msgs assistant) s₁ _ ready₁ done
        ∙ rw (laws.load_keeps conv.id conv.id s, from_new_batch, seen) refl)

  -- When PersistExchange fails, every conversation's history is what it was.
  pub persist_exchange_err :
      (conv : Conversation) (user_msgs : List Message) (assistant : Message) (s : State)
      (j : String) (e : Error)
      → let (r, t) = persist_exchange repo conv user_msgs assistant s in
        r ≡ err e → history t j ≡ history s j
  unfolding persist_exchange
  persist_exchange_err conv user_msgs assistant s j e h =
      let s₁ = (load_history conv.id s).1 in
      let kept = laws.load_keeps conv.id j s in
      elim (Result-cases (load_history conv.id s).0) [
        | inl (rows, loaded) ↦
            let b = batch (to_messages rows) user_msgs assistant in
            let failed : (append_messages conv.id b s₁).0 ≡ err e = rw loaded at h in
            rw loaded (laws.append_err conv.id j b s₁ e failed ∙ kept)
        | inr (e', broken) ↦ rw broken kept
      ]

  -- Resolve changes no history.
  pub resolve_keeps :
      (key session model j : String) (s : State)
      → history (resolve repo key session model s).1 j ≡ history s j
  unfolding resolve
  resolve_keeps key session model j s = elim (Bool-cases (session == "")) [
    | inl e ↦ rw e (laws.create_keeps key model j s)
    | inr e ↦ rw e (laws.get_keeps key session j s)
  ]

  -- AssembleContext changes no history.
  pub assemble_context_keeps :
      (max_history : ℕ) (persona : String) (conv : Conversation) (incoming : List Message)
      (j : String) (s : State)
      → history (assemble_context repo max_history persona conv incoming s).1 j ≡ history s j
  unfolding assemble_context
  assemble_context_keeps max_history persona conv incoming j s =
      elim (Result-cases (load_history conv.id s).0) [
        | inl (rows, e) ↦ rw e (laws.load_keeps conv.id j s)
        | inr (x, e) ↦ rw e (laws.load_keeps conv.id j s)
      ]
