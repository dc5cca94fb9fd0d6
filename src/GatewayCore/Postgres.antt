-- ===== src/GatewayCore/Postgres.antt =====
-- The repository of backend/internal/conversation/conversation.go satisfies the interface, and the
-- laws of GatewayCore/Repo.antt hold of it.
use ai_it_dab_com.Prelude.{
  ℕ, suc, ◌+◌, String, ◌≡◌, refl, ap, ◌∙◌, List, [], ◌∷◌, ◌++◌, map, Option, none, some,
  Option-cases, inl, inr,
}
use mathlib.Core.List.{map-append}
use ai_it_dab_com.Prelude.Actions.{ok}
use ai_it_dab_com.Conversation.{
  ConvDb, MessageRow, NewMessage, history_rows, rows_of, create_conversation, get_conversation,
  load_history, append_messages,
}
use ai_it_dab_com.Conversation.Ordering.{stamped, OlderThan, history_rows-append}
use ai_it_dab_com.Conversation.Append.{append_messages_ok, append_messages_atomic}
use ai_it_dab_com.Conversation.History.{
  load_history_ok, load_history_tables, load_history_malformed, append_messages_malformed,
}
use ai_it_dab_com.Conversation.Scoping.{get_conversation_tables, create_conversation_messages}
use ai_it_dab_com.GatewayCore.{Message, ConvRepo, to_message, to_messages}
use ai_it_dab_com.GatewayCore.Repo.{ConvRepoLaws, from_new}

to_messages-stamped :
    (uuid : ℕ → String) (serial : ℕ) (id : String) (ts : ℕ) (ms : List NewMessage)
    → to_messages (stamped uuid serial id ts ms) ≡ map from_new ms
unfolding to_message
to_messages-stamped uuid serial id ts [] = refl
to_messages-stamped uuid serial id ts (m ∷ ms) =
    ap (λ t. from_new m ∷ t) (to_messages-stamped uuid (suc serial) id (ts + 1) ms)

module _ (uuid : ℕ → String) (parse_uuid : String → Option String) where
  abbrev pub postgres : ConvRepo
  postgres = record {
    State = ConvDb;
    create_conversation = create_conversation uuid parse_uuid;
    get_conversation = get_conversation uuid parse_uuid;
    load_history = load_history uuid parse_uuid;
    append_messages = append_messages uuid parse_uuid;
  }

  abbrev pub history_of : Option String → List MessageRow → List Message
  history_of none ms = []
  history_of (some id) ms = to_messages (history_rows id ms)

  abbrev pub history : ConvDb → String → List Message
  history s cid = history_of (parse_uuid cid) s.messages

  abbrev pub ReadyFor : Option String → ℕ → List MessageRow → Type 0
  ReadyFor none now ms = Unit
  ReadyFor (some id) now ms = OlderThan now (rows_of id ms)

  pub load_ok :
      (cid : String) (s : ConvDb) (rows : List MessageRow)
      → (load_history uuid parse_uuid cid s).0 ≡ ok rows
      → to_messages rows ≡ history s cid
  load_ok cid s rows h = elim (Option-cases (parse_uuid cid)) [
    | inl bad ↦ absurd (load_history_malformed uuid parse_uuid cid s bad h)
    | inr (id, good) ↦ rw good (ap to_messages (load_history_ok uuid parse_uuid cid id s good h))
  ]

  abbrev pub IsReady : ConvDb → String → Type 0
  IsReady s cid = ReadyFor (parse_uuid cid) s.now s.messages

  pub load-IsReady :
      (cid j : String) (s : ConvDb) → IsReady s j → IsReady (load_history uuid parse_uuid cid s).1 j
  load-IsReady cid j s h = let (m, _, n) = load_history_tables uuid parse_uuid cid s in rw (m, n) h

  pub append_ok :
      (cid : String) (ms : List NewMessage) (s : ConvDb) (u : Unit {0})
      → IsReady s cid
      → (append_messages uuid parse_uuid cid ms s).0 ≡ ok u
      → history (append_messages uuid parse_uuid cid ms s).1 cid ≡ history s cid ++ map from_new ms
  append_ok cid ms s u ready h = elim (Option-cases (parse_uuid cid)) [
    | inl bad ↦ rw (bad, append_messages_malformed uuid parse_uuid cid ms s bad h) refl
    | inr (id, good) ↦
        let older : OlderThan s.now (rows_of id s.messages) = rw good at ready in
        let rows = stamped uuid s.serial id s.now ms in
        rw
          (
            good,
            (append_messages_ok uuid parse_uuid cid id ms s good h).0,
            history_rows-append uuid s.serial id s.now ms s.messages older,
          )
          (map-append to_message (history_rows id s.messages) rows
            ∙ ap (λ t. to_messages (history_rows id s.messages) ++ t)
                (to_messages-stamped uuid s.serial id s.now ms))
  ]

  -- The laws that the core relies on.
  abbrev pub postgres_laws : ConvRepoLaws postgres
  postgres_laws = record {
    history = history;
    IsReady = IsReady;
    load_ok = load_ok;
    load_keeps =
        λ id j s. ap (history_of (parse_uuid j)) (load_history_tables uuid parse_uuid id s).0;
    load-IsReady = load-IsReady;
    append_ok = append_ok;
    append_err = λ id j ms s e h.
        ap (history_of (parse_uuid j)) (append_messages_atomic uuid parse_uuid id ms s e h).0;
    create_keeps = λ key model j s.
        ap (history_of (parse_uuid j)) (create_conversation_messages uuid parse_uuid key model s);
    get_keeps = λ key session j s.
        ap (history_of (parse_uuid j)) (get_conversation_tables uuid parse_uuid key session s).0;
  }
