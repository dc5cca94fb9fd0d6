-- ===== src/Conversation.antt =====
-- backend/internal/conversation/conversation.go, over the tables of
-- backend/migrations/20260606000004_create_conversations.up.sql.
--
-- The database is a value: the two tables as lists of rows, the clock that time.Now and now()
-- read, the number of uuids drawn, and a script that says for each coming statement whether the
-- driver reports a failure (an exhausted script reports none). Postgres and its uuid type are not
-- in the repository: `uuid` numbers the ids that gen_random_uuid() gives, and `parse_uuid` reads an
-- argument of a uuid column to its canonical text, with `none` where Postgres raises 22P02.
pub mod Ordering
pub mod Append
pub mod History
pub mod Scoping
-- mod Tests
use text.Mathlib.Text.{is_le}
use Prim.Native.String.{compare}
use ai_it_dab_com.Prelude.Faults.{fails, later}
use ai_it_dab_com.Prelude.{
  ℕ, suc, ◌+◌, String, Bool, false, not, ◌&&◌, ◌||◌, Option, none, some, List, [], ◌∷◌, ◌++◌, ◌==◌,
  ltb, any, if◌then◌else◌,
}
use ai_it_dab_com.Prelude.Actions.{not_found, failed, Result, ok, err, Action, pure, raise, ◌>>◌}

-- Role values stored in messages.role.
abbrev pub role_system : String
role_system = "system"

abbrev pub role_user : String
role_user = "user"

abbrev pub role_assistant : String
role_assistant = "assistant"

-- A row of `conversations`; `Conversation` of the source is its scan, with COALESCE(model, '').
pub record ConversationRow : Type 0 where
  pub id : String
  pub api_key_id : String
  pub model : Option String
  pub created_at : ℕ
  pub updated_at : ℕ

pub record Conversation : Type 0 where
  pub id : String
  pub api_key_id : String
  pub model : String
  pub created_at : ℕ
  pub updated_at : ℕ

-- `Message` of the source, which is a row of `messages`.
pub record MessageRow : Type 0 where
  pub id : String
  pub conversation_id : String
  pub role : String
  pub content : String
  pub token_count : Option ℕ
  pub created_at : ℕ

pub record NewMessage : Type 0 where
  pub role : String
  pub content : String
  pub token_count : Option ℕ

-- `now` counts microseconds, the resolution of timestamptz.
pub record ConvDb : Type 0 where
  pub conversations : List ConversationRow
  pub messages : List MessageRow
  pub faults : List Bool
  pub serial : ℕ
  pub now : ℕ

-- One statement sent to the server; the source wraps a failure with `context`.
unfoldable pub statement : String → Action ConvDb (Unit {0})
statement context s =
    if fails s.faults
    then (err (failed context), record s { faults = later s.faults })
    else (ok tt, record s { faults = later s.faults })

abbrev pub null_if_empty : String → Option String
null_if_empty s = if s == "" then none else some s

abbrev pub coalesce : Option String → String
coalesce none = ""
coalesce (some s) = s

unfoldable pub scan_conversation : ConversationRow → Conversation
scan_conversation r = record {
  id = r.id;
  api_key_id = r.api_key_id;
  model = coalesce r.model;
  created_at = r.created_at;
  updated_at = r.updated_at;
}

-- WHERE api_key_id = $1 AND id = $2; `id` is the primary key.
unfoldable pub find_conversation : String → String → List ConversationRow → Option ConversationRow
find_conversation key session [] = none
find_conversation key session (r ∷ rs) =
    if r.api_key_id == key && r.id == session then some r else find_conversation key session rs

-- ORDER BY created_at, id
abbrev pub ordered : MessageRow → MessageRow → Bool
ordered a b =
    ltb a.created_at b.created_at
    || (not (ltb b.created_at a.created_at) && is_le (compare a.id b.id))

unfoldable pub insert_row : MessageRow → List MessageRow → List MessageRow
insert_row m [] = m ∷ []
insert_row m (n ∷ ns) = if ordered n m then n ∷ insert_row m ns else m ∷ n ∷ ns

unfoldable pub sort_from : List MessageRow → List MessageRow → List MessageRow
sort_from acc [] = acc
sort_from acc (m ∷ ms) = sort_from (insert_row m acc) ms

-- WHERE conversation_id = $1
unfoldable pub rows_of : String → List MessageRow → List MessageRow
rows_of id [] = []
rows_of id (m ∷ ms) = let rest = rows_of id ms in if m.conversation_id == id then m ∷ rest else rest

-- The answer of LoadHistory's query.
unfoldable pub history_rows : String → List MessageRow → List MessageRow
history_rows id ms = sort_from [] (rows_of id ms)

-- UPDATE conversations SET updated_at = now() WHERE id = $1, and the number of rows hit.
unfoldable pub touch_rows : String → ℕ → List ConversationRow → List ConversationRow
touch_rows id now [] = []
touch_rows id now (r ∷ rs) =
    (if r.id == id then record r { updated_at = now } else r) ∷ touch_rows id now rs

abbrev pub has_row : String → List ConversationRow → Bool
has_row id = any (λ r. r.id == id)

-- CHECK (role IN ('system', 'user', 'assistant'))
abbrev pub role_ok : String → Bool
role_ok role = role == role_system || role == role_user || role == role_assistant

abbrev pub roll_back : ConvDb → ConvDb → ConvDb
roll_back s s' = record s' { conversations = s.conversations; messages = s.messages }

-- `defer tx.Rollback`: an error leaves the tables as they were when the transaction began.
abbrev pub settle : ConvDb → Result (Unit {0}) → ConvDb → Result (Unit {0}) × ConvDb
settle s (ok u) s' = (ok u, s')
settle s (err e) s' = (err e, roll_back s s')

unfoldable pub in_transaction : Action ConvDb (Unit {0}) → Action ConvDb (Unit {0})
in_transaction body s = let (r, s') = body s in settle s r s'

-- The row that one INSERT of the batch writes.
abbrev pub new_row : (ℕ → String) → ℕ → String → NewMessage → ℕ → MessageRow
new_row uuid serial id m ts = record {
  id = uuid serial;
  conversation_id = id;
  role = m.role;
  content = m.content;
  token_count = m.token_count;
  created_at = ts;
}

module _ (uuid : ℕ → String) (parse_uuid : String → Option String) where
  unfoldable pub create_conversation : String → String → Action ConvDb Conversation
  create_conversation api_key_id model = do
    statement "conversation: creating"
    elim (parse_uuid api_key_id) [
      | none ↦ raise (failed "conversation: creating")
      | some key ↦ λ s.
          let row : ConversationRow = record {
            id = uuid s.serial;
            api_key_id = key;
            model = null_if_empty model;
            created_at = s.now;
            updated_at = s.now;
          } in
          (
            ok (scan_conversation row),
            record s { conversations = s.conversations ++ row ∷ []; serial = suc s.serial },
          )
    ]

  abbrev found_conversation : Option ConversationRow → Action ConvDb Conversation
  found_conversation none = raise not_found
  found_conversation (some r) = pure (scan_conversation r)

  -- A malformed uuid is an error of the statement, and not a missing row.
  abbrev pub select_conversation : Option String → Option String → Action ConvDb Conversation
  select_conversation (some key) (some session) s =
      found_conversation (find_conversation key session s.conversations) s
  select_conversation none session s = raise (failed "conversation: fetching") s
  select_conversation (some key) none s = raise (failed "conversation: fetching") s

  unfoldable pub get_conversation : String → String → Action ConvDb Conversation
  get_conversation api_key_id session_id = do
    statement "conversation: fetching"
    select_conversation (parse_uuid api_key_id) (parse_uuid session_id)

  unfoldable pub load_history : String → Action ConvDb (List MessageRow)
  load_history conversation_id = do
    statement "conversation: loading history"
    elim (parse_uuid conversation_id) [
      | none ↦ raise (failed "conversation: loading history")
      | some id ↦ λ s. (ok (history_rows id s.messages), s)
    ]

  -- One INSERT, with the foreign key and the CHECK of the table.
  unfoldable pub insert_message : String → NewMessage → ℕ → Action ConvDb (Unit {0})
  insert_message id m ts = do
    statement "conversation: appending message"
    λ s.
        if has_row id s.conversations && role_ok m.role
        then (
          ok tt,
          record s {
            messages = s.messages ++ new_row uuid s.serial id m ts ∷ [];
            serial = suc s.serial;
          },
        )
        else raise (failed "conversation: appending message") s

  -- The loop over the batch: message number i is stamped base + i microseconds.
  unfoldable pub insert_messages : String → ℕ → List NewMessage → Action ConvDb (Unit {0})
  insert_messages id ts [] = pure tt
  insert_messages id ts (m ∷ ms) = do insert_message id m ts; insert_messages id (ts + 1) ms

  unfoldable pub bump_updated_at : String → Action ConvDb (Unit {0})
  bump_updated_at id = do
    statement "conversation: bumping updated_at"
    λ s.
        if has_row id s.conversations
        then (ok tt, record s { conversations = touch_rows id s.now s.conversations })
        else raise not_found s

  -- The statements between BEGIN and COMMIT.
  unfoldable pub append_body : String → List NewMessage → Action ConvDb (Unit {0})
  append_body id msgs s =
      (do insert_messages id s.now msgs; bump_updated_at id; statement "conversation: commit") s

  unfoldable pub append_messages : String → List NewMessage → Action ConvDb (Unit {0})
  append_messages conversation_id [] = pure tt
  append_messages conversation_id (m ∷ ms) = do
    statement "conversation: begin"
    elim (parse_uuid conversation_id) [
      | none ↦ raise (failed "conversation: appending message")
      | some id ↦ in_transaction (append_body id (m ∷ ms))
    ]
