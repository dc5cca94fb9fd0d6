-- ===== src/Conversation/History.antt =====
-- LoadHistory after AppendMessages, and when AppendMessages succeeds.
use ai_it_dab_com.Prelude.Faults.{later}
use ai_it_dab_com.Prelude.{
  ℕ, ◌+◌, String, ◌≡◌, refl, ◌∙◌, ap, ◌≢◌, true, Option, none, some, List, [], ◌∷◌, ◌++◌, arith,
  All,
}
use ai_it_dab_com.Prelude.Actions.{ok}
use ai_it_dab_com.Conversation.{
  NewMessage, MessageRow, ConvDb, statement, has_row, role_ok, history_rows, rows_of,
  insert_message, insert_messages, bump_updated_at, append_body, in_transaction, append_messages,
  load_history,
}
use ai_it_dab_com.Conversation.Ordering.{stamped, OlderThan, history_rows-append}
use ai_it_dab_com.Conversation.Append.{append_messages_ok}

module _ (uuid : ℕ → String) (parse_uuid : String → Option String) where
  -- LoadHistory answers the conversation's rows by created_at and id, and changes no table.
  pub load_history_ok :
      (cid id : String) (s : ConvDb) {rows : List MessageRow}
      → parse_uuid cid ≡ some id
      → let (r, t) = load_history uuid parse_uuid cid s in
        r ≡ ok rows → rows ≡ history_rows id s.messages
  unfolding load_history statement
  load_history_ok cid id s p h = ground arith

  pub load_history_tables :
      (cid : String) (s : ConvDb)
      → let (r, t) = load_history uuid parse_uuid cid s in
        (t.messages ≡ s.messages) × (t.conversations ≡ s.conversations) × (t.now ≡ s.now)
  unfolding load_history statement
  load_history_tables cid s = ground arith

  -- What LoadHistory answers at any later time `t`, as long as no one else has written to the
  -- messages: the old history, and behind it the batch in its order. The clock of the append must
  -- be past the stamps of the conversation's stored messages.
  pub load_history-append_messages :
      (cid id : String) (ms : List NewMessage) (s t : ConvDb) {u : Unit {0}}
      {rows : List MessageRow}
      → parse_uuid cid ≡ some id
      → OlderThan s.now (rows_of id s.messages)
      → (append_messages uuid parse_uuid cid ms s).0 ≡ ok u
      → t.messages ≡ (append_messages uuid parse_uuid cid ms s).1.messages
      → (load_history uuid parse_uuid cid t).0 ≡ ok rows
      → rows ≡ history_rows id s.messages ++ stamped uuid s.serial id s.now ms
  load_history-append_messages cid id ms s t p older done same loaded =
      load_history_ok cid id t p loaded
      ∙ ap (history_rows id) (same ∙ (append_messages_ok uuid parse_uuid cid id ms s p done).0)
      ∙ history_rows-append uuid s.serial id s.now ms s.messages older

  insert_messages_succeed :
      (id : String) (ts : ℕ) (ms : List NewMessage) (s : ConvDb)
      → s.faults ≡ []
      → has_row id s.conversations ≡ true
      → All (λ m. role_ok m.role ≡ true) ms
      → let (r, t) = insert_messages uuid parse_uuid id ts ms s in
        (r ≡ ok tt) × (t.faults ≡ []) × (t.conversations ≡ s.conversations)
  unfolding insert_messages insert_message statement
  insert_messages_succeed id ts [] s f e a = (refl, f, refl)
  insert_messages_succeed id ts (m ∷ ms) s f e (role, a) =
      let s₁ = (insert_message uuid parse_uuid id m ts s).1 in
      ground (arith, insert_messages_succeed id (ts + 1) ms s₁)

  append_body_succeeds :
      (id : String) (ms : List NewMessage) (s : ConvDb)
      → s.faults ≡ []
      → has_row id s.conversations ≡ true
      → All (λ m. role_ok m.role ≡ true) ms
      → (append_body uuid parse_uuid id ms s).0 ≡ ok tt
  unfolding append_body bump_updated_at statement
  append_body_succeeds id ms s f e a = ground (arith, insert_messages_succeed id s.now ms s f e a)

  -- AppendMessages succeeds when no statement fails, the conversation exists and the roles are of
  -- the three that the table allows.
  pub append_messages_succeeds :
      (cid id : String) (ms : List NewMessage) (s : ConvDb)
      → parse_uuid cid ≡ some id
      → s.faults ≡ []
      → has_row id s.conversations ≡ true
      → All (λ m. role_ok m.role ≡ true) ms
      → (append_messages uuid parse_uuid cid ms s).0 ≡ ok tt
  unfolding append_messages statement in_transaction
  append_messages_succeeds cid id [] s p f e a = refl
  append_messages_succeeds cid id (m ∷ ms) s p f e a = ground (
    arith,
    append_body_succeeds id (m ∷ ms) (record s { faults = later s.faults }) (ground arith) e a,
  )

  -- An id that is not a uuid is an error of every statement that reads it.
  pub load_history_malformed :
      (cid : String) (s : ConvDb) {rows : List MessageRow}
      → parse_uuid cid ≡ none
      → (load_history uuid parse_uuid cid s).0 ≢ ok rows
  unfolding load_history statement
  load_history_malformed cid s p h = ground arith

  pub append_messages_malformed :
      (cid : String) (ms : List NewMessage) (s : ConvDb) {u : Unit {0}}
      → parse_uuid cid ≡ none
      → (append_messages uuid parse_uuid cid ms s).0 ≡ ok u
      → ms ≡ []
  unfolding append_messages statement
  append_messages_malformed cid [] s p h = refl
  append_messages_malformed cid (m ∷ ms) s p h = ground arith
