-- ===== src/Conversation/Scoping.antt =====
-- Which conversation a credential can fetch.
use ai_it_dab_com.Prelude.{
  ℕ, String, ◌≡◌, refl, ◌≢◌, false, Option-cases, inl, inr, Option, none, some, List, [], ◌∷◌, ◌++◌,
  arith, eq_iff,
}
use ai_it_dab_com.Prelude.Actions.{ok, err, not_found, failed}
use ai_it_dab_com.Conversation.{
  ConversationRow, Conversation, ConvDb, statement, find_conversation, has_row, null_if_empty,
  scan_conversation, create_conversation, get_conversation,
}

find_conversation_owner :
    (key session : String) (rs : List ConversationRow) (r : ConversationRow)
    → find_conversation key session rs ≡ some r
    → (r.api_key_id ≡ key) × (r.id ≡ session)
unfolding find_conversation
find_conversation_owner key session [] r h = cc
find_conversation_owner key session (q ∷ rs) r h =
    ground (
      arith,
      eq_iff q.api_key_id key,
      eq_iff q.id session,
      find_conversation_owner key session rs r,
    )

find_conversation-append :
    (key session : String) (rs : List ConversationRow) (r : ConversationRow)
    → has_row session rs ≡ false
    → find_conversation key session (rs ++ r ∷ []) ≡ find_conversation key session (r ∷ [])
unfolding find_conversation
find_conversation-append key session [] r h = refl
find_conversation-append key session (q ∷ rs) r h =
    ground (arith, find_conversation-append key session rs r)

module _ (uuid : ℕ → String) (parse_uuid : String → Option String) where
  -- A conversation that GetConversation returns is owned by the credential that asks, and it is the
  -- one that was asked for.
  pub get_conversation_owner :
      (key session : String) (s : ConvDb) {c : Conversation}
      → (get_conversation uuid parse_uuid key session s).0 ≡ ok c
      → (parse_uuid key ≡ some c.api_key_id) × (parse_uuid session ≡ some c.id)
  unfolding get_conversation statement scan_conversation
  get_conversation_owner key session s h = elim (Option-cases (parse_uuid key)) [
    | inl bad ↦ ground arith
    | inr (k, good) ↦ elim (Option-cases (parse_uuid session)) [
      | inl bad ↦ ground arith
      | inr (i, fine) ↦ elim (Option-cases (find_conversation k i s.conversations)) [
        | inl missing ↦ ground arith
        | inr (r, found) ↦ ground (arith, find_conversation_owner k i s.conversations r)
      ]
    ]
  ]

  -- A session id that is not a uuid is answered with an error other than ErrNotFound.
  pub get_conversation_malformed :
      (key session : String) (s : ConvDb)
      → parse_uuid session ≡ none
      → (get_conversation uuid parse_uuid key session s).0 ≡ err (failed "conversation: fetching")
  unfolding get_conversation statement
  get_conversation_malformed key session s h = ground arith

  pub get_conversation_tables :
      (key session : String) (s : ConvDb)
      → let (r, t) = get_conversation uuid parse_uuid key session s in
        (t.messages ≡ s.messages) × (t.conversations ≡ s.conversations) × (t.now ≡ s.now)
  unfolding get_conversation statement
  get_conversation_tables key session s = ground arith

  -- The session that CreateConversation issues is the one that its credential then fetches, and
  -- another credential is told that there is none. The new id must be one that Postgres reads back
  -- and that no row has; the fetch is from any state with the conversations that the creation left.
  pub get-create_conversation :
      (key model k other o : String) (s t : ConvDb) {c : Conversation}
      → parse_uuid key ≡ some k
      → parse_uuid other ≡ some o
      → parse_uuid (uuid s.serial) ≡ some (uuid s.serial)
      → has_row (uuid s.serial) s.conversations ≡ false
      → t.faults ≡ []
      → (create_conversation uuid parse_uuid key model s).0 ≡ ok c
      → t.conversations ≡ (create_conversation uuid parse_uuid key model s).1.conversations
      → ((get_conversation uuid parse_uuid key c.id t).0 ≡ ok c)
        × (k ≢ o → (get_conversation uuid parse_uuid other c.id t).0 ≡ err not_found)
  unfolding create_conversation get_conversation statement scan_conversation find_conversation
  get-create_conversation key model k other o s t pk po pu fresh quiet made same =
      let row : ConversationRow = record {
        id = uuid s.serial;
        api_key_id = k;
        model = null_if_empty model;
        created_at = s.now;
        updated_at = s.now;
      } in
      ground (
        arith,
        eq_iff k k,
        eq_iff (uuid s.serial) (uuid s.serial),
        eq_iff k o,
        find_conversation-append k (uuid s.serial) s.conversations row fresh,
        find_conversation-append o (uuid s.serial) s.conversations row fresh,
      )

  pub create_conversation_messages :
      (key model : String) (s : ConvDb)
      → (create_conversation uuid parse_uuid key model s).1.messages ≡ s.messages
  unfolding create_conversation statement
  create_conversation_messages key model s = ground arith
