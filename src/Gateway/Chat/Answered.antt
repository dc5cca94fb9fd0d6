-- ===== src/Gateway/Chat/Answered.antt =====
-- prepareTurn answers a request that it refuses with one error, and leaves everything else alone.
use mathlib.Core.Path.{subst}
use ai_it_dab_com.Prelude.{
  ℕ, String, ◌≡◌, refl, ◌∙◌, Bool, true, false, Option, none, some, List, [], ◌∷◌, ◌++◌,
  Option-cases, Bool-cases, inl, inr, ◌==◌, trim_space, not,
}
use ai_it_dab_com.Prelude.Actions.{Action, Result, ok, err, not_found, taken, failed}
use ai_it_dab_com.Conversation.{Conversation}
use ai_it_dab_com.GatewayCore.{Message, ConvRepo, resolve, assemble_context}
use ai_it_dab_com.GatewayCore.Repo.{ConvRepoLaws}
use ai_it_dab_com.GatewayCore.Persist.{resolve_keeps, assemble_context_keeps}
use ai_it_dab_com.Gateway.Respond.{
  ChatMessage, Write, json_error, status_for_error, World, write_error, Handler, ◌>>=◌, return,
  reject,
}
use ai_it_dab_com.Gateway.Chat.{
  Credential, ChatRequestBody, Decoded, decoded, malformed, too_large, persona_of, role_allowed,
  parse_messages, parse_message, parse_turns, parse_incoming, require_credential, decode, refuse_if,
  or_conversation, or_context, call, assemble_turn, resolve_turn, prepare_turn,
}

-- What was written: nothing where the handler goes on, else one error, with the status of its type.
abbrev pub Answer : {A : Type 0} → Option A → List Write → List Write → Type 0
Answer none s t =
    (err_type : String) × (message : String) × (t
      ≡ s ++ json_error (status_for_error err_type) err_type message ∷ [])
Answer (some a) s t = t ≡ s

module _ (repo : ConvRepo) (laws : ConvRepoLaws repo) where
  -- Besides that answer there is no request upstream, no audit row and no log line, and no
  -- conversation's history changes.
  pub record IsAnswered (A : Type 0) (o : Option A) (w w' : World repo.State) : Type 0 where
    pub answer : Answer o w.sent w'.sent
    pub asked : w'.asked ≡ w.asked
    pub audited : w'.audit ≡ w.audit
    pub logged : w'.logged ≡ w.logged
    pub kept : (j : String) → laws.history w'.repo j ≡ laws.history w.repo j

  abbrev IsQuiet : {A : Type 0} → Handler repo.State A → Type 0
  IsQuiet m = (w : World repo.State) → IsAnswered _ (m w).0 w (m w).1

  return-IsQuiet : {A : Type 0} (a : A) → IsQuiet (return a)
  return-IsQuiet a w = record {
    answer = refl;
    asked = refl;
    audited = refl;
    logged = refl;
    kept = λ j. refl;
  }

  reject-IsQuiet : {A : Type 0} (t m : String) → IsQuiet (reject {A = A} t m)
  unfolding write_error
  reject-IsQuiet t m w = record {
    answer = (t, m, refl);
    asked = refl;
    audited = refl;
    logged = refl;
    kept = λ j. refl;
  }

  bind-IsQuiet :
      {A B : Type 0} (m : Handler repo.State A) (f : A → Handler repo.State B)
      → IsQuiet m
      → ((a : A) → IsQuiet (f a))
      → IsQuiet (m >>= f)
  bind-IsQuiet m f qm qf w =
      let x = qm w in
      elim (Option-cases (m w).0) [
        | inl e ↦
            (let g = rw e at x.answer in
              rw e (record {
                answer = g;
                asked = x.asked;
                audited = x.audited;
                logged = x.logged;
                kept = x.kept;
              }))
        | inr (a, e) ↦
            let same = rw e at x.answer in
            let y = qf a (m w).1 in
            let g = subst (λ t. Answer (f a (m w).1).0 t (f a (m w).1).1.sent) same y.answer in
            rw e (record {
              answer = g;
              asked = y.asked ∙ x.asked;
              audited = y.audited ∙ x.audited;
              logged = y.logged ∙ x.logged;
              kept = λ j. y.kept j ∙ x.kept j;
            })
      ]

  refuse_if-IsQuiet : (bad : Bool) (message : String) → IsQuiet (refuse_if bad message)
  refuse_if-IsQuiet true message = reject-IsQuiet _ message
  refuse_if-IsQuiet false message = return-IsQuiet tt

  require_credential-IsQuiet : (c : Option Credential) → IsQuiet (require_credential c)
  require_credential-IsQuiet none = reject-IsQuiet _ _
  require_credential-IsQuiet (some c) = return-IsQuiet c

  decode-IsQuiet : (b : Decoded) → IsQuiet (decode b)
  decode-IsQuiet too_large = reject-IsQuiet _ _
  decode-IsQuiet malformed = reject-IsQuiet _ _
  decode-IsQuiet (decoded r) = return-IsQuiet r

  or_conversation-IsQuiet : (r : Result Conversation) → IsQuiet (or_conversation r)
  or_conversation-IsQuiet (ok c) = return-IsQuiet c
  or_conversation-IsQuiet (err not_found) = reject-IsQuiet _ _
  or_conversation-IsQuiet (err taken) = reject-IsQuiet _ _
  or_conversation-IsQuiet (err (failed e)) = reject-IsQuiet _ _

  or_context-IsQuiet : (r : Result (List Message)) → IsQuiet (or_context r)
  or_context-IsQuiet (ok out) = return-IsQuiet out
  or_context-IsQuiet (err e) = reject-IsQuiet _ _

  parse_messages-IsQuiet : (ms : List ChatMessage) → IsQuiet (parse_messages ms)
  unfolding parse_messages
  parse_messages-IsQuiet [] = return-IsQuiet []
  parse_messages-IsQuiet (m ∷ ms) =
      let role = trim_space m.role in
      elim (Bool-cases (not (role_allowed role))) [
        | inl bad ↦ rw bad (reject-IsQuiet _ _)
        | inr good ↦ elim (Bool-cases (trim_space m.content == "")) [
          | inl bad ↦ rw (good, bad) (reject-IsQuiet _ _)
          | inr fine ↦
              rw (good, fine)
                (bind-IsQuiet (parse_messages ms)
                  (λ out. return (record { role = role; content = m.content } ∷ out))
                  (parse_messages-IsQuiet ms) (λ out. return-IsQuiet _))
        ]
      ]

  parse_turns-IsQuiet :
      (message : String) (ms : List ChatMessage) → IsQuiet (parse_turns message ms)
  unfolding parse_message
  parse_turns-IsQuiet message [] = elim (Bool-cases (not (trim_space message == ""))) [
    | inl good ↦ rw good (return-IsQuiet _)
    | inr bad ↦ rw bad (reject-IsQuiet _ _)
  ]
  parse_turns-IsQuiet message (m ∷ ms) = parse_messages-IsQuiet (m ∷ ms)

  call-IsQuiet :
      {A B : Type 0} (m : Action repo.State A) (k : Result A → Handler repo.State B)
      → ((s : repo.State) (j : String) → laws.history (m s).1 j ≡ laws.history s j)
      → ((r : Result A) → IsQuiet (k r))
      → IsQuiet (call m k)
  call-IsQuiet m k keeps q w =
      let x = q (m w.repo).0 (record w { repo = (m w.repo).1 }) in
      record {
        answer = x.answer;
        asked = x.asked;
        audited = x.audited;
        logged = x.logged;
        kept = λ j. x.kept j ∙ keeps w.repo j;
      }

  module _ (max_history : ℕ) where
    assemble_turn-IsQuiet :
        (cred : Credential) (req : ChatRequestBody) (incoming : List Message) (conv : Conversation)
        → IsQuiet (assemble_turn repo max_history cred req incoming conv)
    unfolding assemble_turn
    assemble_turn-IsQuiet cred req incoming conv =
        let persona = persona_of cred.persona in
        bind-IsQuiet (refuse_if _ _) _ (refuse_if-IsQuiet _ _) (λ _.
          bind-IsQuiet (call (assemble_context repo max_history persona conv incoming) or_context) _
            (call-IsQuiet _ or_context
              (λ s j. assemble_context_keeps repo laws max_history persona conv incoming j s)
              or_context-IsQuiet)
            (λ out. return-IsQuiet _))

    resolve_turn-IsQuiet :
        (cred : Credential) (req : ChatRequestBody) (incoming : List Message)
        → IsQuiet (resolve_turn repo max_history cred req incoming)
    unfolding resolve_turn
    resolve_turn-IsQuiet cred req incoming =
        let session = trim_space req.session_id in
        let model = trim_space req.model in
        bind-IsQuiet (refuse_if _ _) _ (refuse_if-IsQuiet _ _) (λ _.
          bind-IsQuiet (call (resolve repo cred.id session model) or_conversation) _
            (call-IsQuiet _ or_conversation
              (λ s j. resolve_keeps repo laws cred.id session model j s) or_conversation-IsQuiet)
            (assemble_turn-IsQuiet cred req incoming))

    -- A request that prepareTurn refuses is answered by one JSON error, whose status is that of its
    -- type, and one that it accepts by nothing yet; either way nothing was asked of the upstream, no
    -- audit row or log line was written, and every conversation's history is what it was.
    pub prepare_turn-IsAnswered :
        (credential : Option Credential) (body : Decoded) (w : World repo.State)
        → let (p, w') = prepare_turn repo max_history credential body w in IsAnswered _ p w w'
    unfolding prepare_turn parse_incoming
    prepare_turn-IsAnswered credential body =
        bind-IsQuiet (require_credential credential) _ (require_credential-IsQuiet credential)
          (λ cred. bind-IsQuiet (decode body) _ (decode-IsQuiet body) (λ req.
            bind-IsQuiet (parse_incoming req) _ (parse_turns-IsQuiet req.message req.messages)
              (resolve_turn-IsQuiet cred req)))
