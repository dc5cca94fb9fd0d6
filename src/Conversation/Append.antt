-- ===== src/Conversation/Append.antt =====
-- AppendMessages: the batch is written whole or not at all.
use mathlib.Core.List.{append_assoc, append-nil}
use ai_it_dab_com.Prelude.Faults.{later}
use ai_it_dab_com.Prelude.{
  ℕ, suc, ◌+◌, String, ◌≡◌, refl, ◌≢◌, sym, true, Option-cases, inl, inr, Option, some, List, [],
  ◌∷◌, ◌++◌, arith,
}
use ai_it_dab_com.Prelude.Actions.{Error, not_found, ok, err}
use ai_it_dab_com.Conversation.{
  NewMessage, ConvDb, statement, new_row, has_row, touch_rows, insert_message, insert_messages,
  bump_updated_at, append_body, in_transaction, append_messages,
}
use ai_it_dab_com.Conversation.Ordering.{stamped}

-- What a run of INSERTs may change: the messages, the ids drawn and the coming faults.
abbrev SameConversations : ConvDb → ConvDb → Type 0
SameConversations s t = (t.conversations ≡ s.conversations) × (t.now ≡ s.now)

module _ (uuid : ℕ → String) (parse_uuid : String → Option String) where
  insert_message_ok :
      (id : String) (m : NewMessage) (ts : ℕ) (s : ConvDb) {u : Unit {0}}
      → let (r, t) = insert_message uuid parse_uuid id m ts s in
        r ≡ ok u
        → (t.messages ≡ s.messages ++ new_row uuid s.serial id m ts ∷ [])
          × (t.serial ≡ suc s.serial)
          × (t.conversations ≡ s.conversations)
          × (t.now ≡ s.now)
          × (has_row id s.conversations ≡ true)
  unfolding insert_message statement
  insert_message_ok id m ts s h = ground arith

  insert_messages_ok :
      (id : String) (ts : ℕ) (ms : List NewMessage) (s : ConvDb) {u : Unit {0}}
      → let (r, t) = insert_messages uuid parse_uuid id ts ms s in
        r ≡ ok u
        → (t.messages ≡ s.messages ++ stamped uuid s.serial id ts ms)
          × (t.conversations ≡ s.conversations)
          × (t.now ≡ s.now)
  unfolding insert_messages
  insert_messages_ok id ts [] s h = (sym (append-nil s.messages), refl, refl)
  insert_messages_ok id ts (m ∷ ms) s h =
      let s₁ = (insert_message uuid parse_uuid id m ts s).1 in
      ground (
        arith,
        insert_message_ok id m ts s,
        insert_messages_ok id (ts + 1) ms s₁,
        append_assoc s.messages (new_row uuid s.serial id m ts ∷ [])
            (stamped uuid (suc s.serial) id (ts + 1) ms),
      )

  -- Neither the INSERTs nor the checks of the batch raise ErrNotFound.
  insert_messages-ne-not_found :
      (id : String) (ts : ℕ) (ms : List NewMessage) (s : ConvDb)
      → (insert_messages uuid parse_uuid id ts ms s).0 ≢ err not_found
  unfolding insert_messages insert_message statement
  insert_messages-ne-not_found id ts [] s h = cc
  insert_messages-ne-not_found id ts (m ∷ ms) s h = ground (
    arith,
    insert_messages-ne-not_found id (ts + 1) ms (insert_message uuid parse_uuid id m ts s).1,
  )

  -- The whole transaction, from the insertions to the commit, for a batch that is not empty.
  append_body_ok :
      (id : String) (m : NewMessage) (ms : List NewMessage) (s : ConvDb) {u : Unit {0}}
      → let (r, t) = append_body uuid parse_uuid id (m ∷ ms) s in
        r ≡ ok u
        → (t.messages ≡ s.messages ++ stamped uuid s.serial id s.now (m ∷ ms))
          × (t.conversations ≡ touch_rows id s.now s.conversations)
          × (t.now ≡ s.now)
  unfolding append_body bump_updated_at statement
  append_body_ok id m ms s h = ground (arith, insert_messages_ok id s.now (m ∷ ms) s)

  append_body-ne-not_found :
      (id : String) (m : NewMessage) (ms : List NewMessage) (s : ConvDb)
      → (append_body uuid parse_uuid id (m ∷ ms) s).0 ≢ err not_found
  unfolding append_body insert_messages bump_updated_at statement
  append_body-ne-not_found id m ms s h =
      let s₁ = (insert_message uuid parse_uuid id m s.now s).1 in
      ground (
        arith,
        insert_message_ok id m s.now s,
        insert_messages_ok id (s.now + 1) ms s₁,
        insert_messages-ne-not_found id s.now (m ∷ []) s,
        insert_messages-ne-not_found id (s.now + 1) ms s₁,
      )

  -- What AppendMessages leaves when it returns nil: for a batch that is not empty, the messages are
  -- behind the old ones in the order of the batch, with the stamps now, now + 1, and so on, and the
  -- conversation's updated_at is bumped; for an empty batch nothing changes.
  pub append_messages_ok :
      (cid id : String) (ms : List NewMessage) (s : ConvDb) {u : Unit {0}}
      → parse_uuid cid ≡ some id
      → let (r, t) = append_messages uuid parse_uuid cid ms s in
        r ≡ ok u
        → (t.messages ≡ s.messages ++ stamped uuid s.serial id s.now ms)
          × (t.now ≡ s.now)
          × (t.conversations
              ≡ elim ms [ [] ↦ s.conversations | _ ∷ _ ↦ touch_rows id s.now s.conversations ])
  unfolding append_messages statement in_transaction
  append_messages_ok cid id [] s p h = (sym (append-nil s.messages), refl, refl)
  append_messages_ok cid id (m ∷ ms) s p h =
      ground (arith, append_body_ok id m ms (record s { faults = later s.faults }))

  -- AppendMessages is atomic: when it returns an error, whichever statement failed, both tables
  -- hold what they held before the call.
  pub append_messages_atomic :
      (cid : String) (ms : List NewMessage) (s : ConvDb) (e : Error)
      → let (r, t) = append_messages uuid parse_uuid cid ms s in
        r ≡ err e → (t.messages ≡ s.messages) × (t.conversations ≡ s.conversations)
  unfolding append_messages statement in_transaction
  append_messages_atomic cid [] s e h = cc
  append_messages_atomic cid (m ∷ ms) s e h = ground arith

  -- ErrNotFound is never what AppendMessages returns: for a conversation that does not exist the
  -- foreign key refuses the first INSERT, before the UPDATE whose count is tested.
  pub append_messages-ne-not_found :
      (cid : String) (ms : List NewMessage) (s : ConvDb)
      → (append_messages uuid parse_uuid cid ms s).0 ≢ err not_found
  unfolding append_messages statement in_transaction
  append_messages-ne-not_found cid [] s h = cc
  append_messages-ne-not_found cid (m ∷ ms) s h = elim (Option-cases (parse_uuid cid)) [
    | inl bad ↦ ground arith
    | inr (id, good) ↦
        ground (arith, append_body-ne-not_found id m ms (record s { faults = later s.faults }))
  ]
