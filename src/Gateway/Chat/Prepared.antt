-- ===== src/Gateway/Chat/Prepared.antt =====
-- What a turn that prepareTurn accepts is made of.
use Prim.Native.Nat.{max}
use ai_it_dab_com.Prelude.{
  ℕ, ◌+◌, ◌≤◌, String, ◌≡◌, refl, ◌≢◌, Bool, true, not, ◌&&◌, Option, none, some, List, [], ◌∷◌,
  arith, Option-cases, Bool-cases, inl, inr, ◌==◌, if◌then◌else◌, trim_space, eq_iff, length,
}
use ai_it_dab_com.Prelude.Actions.{ok, Result-cases, not_found, taken, failed}
use ai_it_dab_com.Conversation.{Conversation, MessageRow}
use ai_it_dab_com.GatewayCore.{Message, ConvRepo, resolve, assemble_context, to_messages}
use ai_it_dab_com.GatewayCore.Context.{IsAssembled, assemble_context-IsAssembled}
use ai_it_dab_com.Gateway.Respond.{ChatMessage, World, Handler, ◌>>=◌}
use ai_it_dab_com.Gateway.Chat.{
  Credential, ChatRequestBody, Decoded, decoded, malformed, too_large, PreparedTurn, role_allowed,
  persona_of, parse_messages, parse_message, parse_incoming, parse_turns, prepare_turn,
  assemble_turn, resolve_turn,
}

-- A turn that the model may see: a client's role, and text that is not blank.
abbrev pub is_turn : Message → Bool
is_turn m = role_allowed m.role && not (trim_space m.content == "")

module _ {S A B : Type 0} where
  -- Inversion of a step that goes on.
  bind-eq-some :
      (m : Handler S A) (f : A → Handler S B) (w : World S) {b : B}
      → ((m >>= f) w).0 ≡ some b
      → (a : A) × ((m w).0 ≡ some a) × ((f a (m w).1).0 ≡ some b)
  bind-eq-some m f w h = elim (Option-cases (m w).0) [
    | inl e ↦ cc (rw e at h)
    | inr (a, e) ↦ (a, e, rw e at h)
  ]

abbrev pub are_turns : List Message → Bool
are_turns [] = true
are_turns (m ∷ ms) = is_turn m && are_turns ms

module _ {S : Type 0} where
  parse_messages-turns :
      (ms : List ChatMessage) (w : World S) {out : List Message}
      → (parse_messages ms w).0 ≡ some out
      → (are_turns out ≡ true) × (length out ≡ length ms)
  unfolding parse_messages
  parse_messages-turns [] w {out} h = ground arith
  parse_messages-turns (m ∷ ms) w {out} h = elim (Option-cases (parse_messages ms w).0) [
    | inl e ↦ ground arith
    | inr (rest, e) ↦ ground (arith, parse_messages-turns ms w e)
  ]

  parse_turns-turns :
      (message : String) (ms : List ChatMessage) (w : World S) {out : List Message}
      → (parse_turns message ms w).0 ≡ some out
      → (are_turns out ≡ true) × (1 ≤ length out)
  unfolding parse_message
  parse_turns-turns message [] w {out} h = ground arith
  parse_turns-turns message (m ∷ ms) w {out} h = ground (arith, parse_messages-turns (m ∷ ms) w h)

  parse_incoming-turns :
      (req : ChatRequestBody) (w : World S) {out : List Message}
      → (parse_incoming req w).0 ≡ some out
      → (are_turns out ≡ true) × (1 ≤ length out)
  unfolding parse_incoming
  parse_incoming-turns req w h = parse_turns-turns req.message req.messages w h

-- The model that the turn is charged to.
abbrev pub model_of : ChatRequestBody → Conversation → String
model_of req conv = if trim_space req.model == "" then conv.model else trim_space req.model

-- What a turn for the resolved conversation is made of: a model that is not empty, and the context
-- that was assembled from the credential's persona and the history that was loaded.
pub record IsTurn (repo : ConvRepo) (max_history : ℕ) (cred : Credential) (req : ChatRequestBody)
    (incoming : List Message) (conv : Conversation) (p : PreparedTurn) : Type 0 where
  pub out : List Message
  pub made : p ≡ record {
    cred = cred;
    conv = conv;
    incoming = incoming;
    assembled = out;
    eff_model = model_of req conv;
    req = req;
  }
  pub model : model_of req conv ≢ ""
  pub loaded : repo.State
  pub rows : List MessageRow
  pub history : (repo.load_history conv.id loaded).0 ≡ ok rows
  pub context : IsAssembled max_history (persona_of cred.persona) (to_messages rows) incoming out
  pub bounded : length out ≤ 1 + max max_history (length incoming)

-- What prepareTurn established of a turn.
pub record IsPrepared (repo : ConvRepo) (max_history : ℕ) (credential : Option Credential)
    (body : Decoded) (p : PreparedTurn) : Type 0 where
  pub cred : Credential
  pub caller : credential ≡ some cred
  pub req : ChatRequestBody
  pub request : body ≡ decoded req
  pub incoming : List Message
  pub turns : (are_turns incoming ≡ true) × (1 ≤ length incoming)
  pub conv : Conversation
  pub before : repo.State
  pub resolved :
      (resolve repo cred.id (trim_space req.session_id) (trim_space req.model) before).0 ≡ ok conv
  pub turn : IsTurn repo max_history cred req incoming conv p

module _ (repo : ConvRepo) (max_history : ℕ) where
  assemble_turn-IsTurn :
      (cred : Credential) (req : ChatRequestBody) (incoming : List Message) (conv : Conversation)
      (w : World repo.State) {p : PreparedTurn}
      → (assemble_turn repo max_history cred req incoming conv w).0 ≡ some p
      → IsTurn repo max_history cred req incoming conv p
  unfolding assemble_turn
  assemble_turn-IsTurn cred req incoming conv w {p} h =
      let persona = persona_of cred.persona in
      let r = (assemble_context repo max_history persona conv incoming w.repo).0 in
      elim (Bool-cases (model_of req conv == "")) [
        | inl bad ↦ cc (rw bad at h)
        | inr good ↦ elim (Result-cases r) [
          | inl (out, e) ↦
              let (rows, history, context, bounded) =
                assemble_context-IsAssembled repo max_history persona conv incoming w.repo e in
              record {
                out = out;
                made = cc (rw (good, e) at h);
                model = λ m. cc (good, (eq_iff (model_of req conv) "").1 m);
                loaded = w.repo;
                rows = rows;
                history = history;
                context = context;
                bounded = bounded;
              }
          | inr (x, e) ↦ cc (rw (good, e) at h)
        ]
      ]

  resolve_turn-some :
      (cred : Credential) (req : ChatRequestBody) (incoming : List Message) (w : World repo.State)
      {p : PreparedTurn}
      → (resolve_turn repo max_history cred req incoming w).0 ≡ some p
      → (conv : Conversation) × ((resolve repo cred.id
            (trim_space req.session_id)
            (trim_space req.model)
            w.repo).0
          ≡ ok conv)
        × IsTurn repo max_history cred req incoming conv p
  unfolding resolve_turn
  resolve_turn-some cred req incoming w h =
      let session = trim_space req.session_id in
      let model = trim_space req.model in
      elim (Bool-cases (session == "" && model == "")) [
        | inl bad ↦ cc (rw bad at h)
        | inr good ↦ elim (Result-cases (resolve repo cred.id session model w.repo).0) [
          | inl (conv, e) ↦
              (conv, e, assemble_turn-IsTurn cred req incoming conv _ (rw (good, e) at h))
          | inr (not_found, e) ↦ cc (rw (good, e) at h)
          | inr (taken, e) ↦ cc (rw (good, e) at h)
          | inr (failed x, e) ↦ cc (rw (good, e) at h)
        ]
      ]

  -- A turn that prepareTurn accepts has the caller's credential and the decoded request; its
  -- incoming turns are at least one, each by `user` or `assistant` (never `system`) with text that
  -- is not blank; its model is not empty, and is the request's or else the conversation's; Resolve
  -- answered its conversation for this credential; and its context is what AssembleContext makes of
  -- the credential's persona and the history that was loaded, within the bound on its length.
  pub prepare_turn-IsPrepared :
      (credential : Option Credential) (body : Decoded) (w : World repo.State) {p : PreparedTurn}
      → (prepare_turn repo max_history credential body w).0 ≡ some p
      → IsPrepared repo max_history credential body p
  unfolding prepare_turn
  prepare_turn-IsPrepared (some cred) (decoded req) w h =
      let (incoming, c, h₁) =
        bind-eq-some (parse_incoming req) (resolve_turn repo max_history cred req) w h in
      let (conv, resolved, turn) = resolve_turn-some cred req incoming _ h₁ in
      record {
        cred = cred;
        caller = refl;
        req = req;
        request = refl;
        incoming = incoming;
        turns = parse_incoming-turns req w c;
        conv = conv;
        before = _;
        resolved = resolved;
        turn = turn;
      }
  prepare_turn-IsPrepared none body w h = cc
  prepare_turn-IsPrepared (some cred) malformed w h = cc
  prepare_turn-IsPrepared (some cred) too_large w h = cc
