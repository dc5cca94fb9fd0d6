-- ===== src/GatewayCore.antt =====
-- backend/internal/gatewaycore/gatewaycore.go: session resolution, context assembly and the
-- persistence of an exchange, over the `ConvRepo` interface.
pub mod Overlap
pub mod Context
pub mod Repo
pub mod Persist
pub mod Postgres
use ai_it_dab_com.Prelude.{
  ℕ, zero, suc, ◌+◌, ◌-◌, String, Bool, true, false, ◌&&◌, Option, none, some, List, [], ◌∷◌, ◌++◌,
  map, ◌==◌, ltb, leb, if◌then◌else◌, length, take, drop,
}
use ai_it_dab_com.Prelude.Int.{ℤ, positive}
use ai_it_dab_com.Prelude.Actions.{
  not_found, failed, Error, Result, ok, err, Action, pure, raise, continue, ◌>>=◌,
}
use ai_it_dab_com.Conversation.{role_system, Conversation, MessageRow, NewMessage}

-- defaultMaxHistory
abbrev pub default_max_history : ℕ
default_max_history = 40

pub record Message : Type 0 where
  pub role : String
  pub content : String

-- The interface, each method over the state that the repository keeps.
pub record ConvRepo : Type 1 where
  pub State : Type 0
  pub create_conversation : String → String → Action State Conversation
  pub get_conversation : String → String → Action State Conversation
  pub load_history : String → Action State (List MessageRow)
  pub append_messages : String → List NewMessage → Action State (Unit {0})

-- NewService: the cap that the service keeps.
pub new_service : ℤ → ℕ
new_service max_history_messages = elim (positive max_history_messages) [
  | none ↦ default_max_history
  | some n ↦ n
]

unfoldable pub to_message : MessageRow → Message
to_message m = record { role = m.role; content = m.content }

abbrev pub to_messages : List MessageRow → List Message
to_messages = map to_message

unfoldable pub to_new_message : Message → NewMessage
to_new_message m = record { role = m.role; content = m.content; token_count = none }

unfoldable pub equal_message : Message → Message → Bool
equal_message a b = a.role == b.role && a.content == b.content

-- False for lists of different lengths, else the loop's verdict.
unfoldable pub equal_messages : List Message → List Message → Bool
unfolding equal_message
equal_messages [] [] = true
equal_messages [] (b ∷ bs) = false
equal_messages (a ∷ as') [] = false
equal_messages (a ∷ as') (b ∷ bs) = equal_message a b && equal_messages as' bs

-- The loop of dropOverlap, from k down to 1.
unfoldable pub overlap_from : List Message → List Message → ℕ → List Message
overlap_from history incoming zero = incoming
overlap_from history incoming (suc k) =
    let rest = overlap_from history incoming k in
    if equal_messages (drop (length history - suc k) history) (take (suc k) incoming)
    then drop (suc k) incoming
    else rest

unfoldable pub drop_overlap : List Message → List Message → List Message
drop_overlap history incoming =
    let max_k =
      if ltb (length incoming) (length history) then length incoming else length history in
    overlap_from history incoming max_k

-- `over` is an int in the source; where it is not positive the history is returned whole.
unfoldable pub cap_history : List Message → List Message → ℕ → List Message
cap_history history incoming max_history =
    if leb (length history + length incoming) max_history
    then history
    else (let over = length history + length incoming - max_history in
        if ltb (length history) over then drop (length history) history else drop over history)

abbrev pub persona_messages : String → List Message
persona_messages persona =
    if persona == "" then [] else record { role = role_system; content = persona } ∷ []

-- The pure part of AssembleContext, behind LoadHistory.
unfoldable pub assemble : ℕ → String → List Message → List Message → List Message
assemble max_history persona stored incoming =
    let fresh = drop_overlap stored incoming in
    persona_messages persona ++ (cap_history stored fresh max_history ++ fresh)

module _ (repo : ConvRepo) where
  open repo use {State, create_conversation, get_conversation, load_history, append_messages}

  -- The repository's ErrNotFound is passed on, and so is any other error.
  unfoldable pub resolve : String → String → String → Action State Conversation
  resolve api_key_id session_id model s =
      if session_id == ""
      then create_conversation api_key_id model s
      else get_conversation api_key_id session_id s

  unfoldable pub assemble_context :
      ℕ → String → Conversation → List Message → Action State (List Message)
  assemble_context max_history persona conv incoming = do
    stored ← load_history conv.id
    pure (assemble max_history persona (to_messages stored) incoming)

  unfoldable pub persist_exchange : Conversation → List Message → Message → Action State (Unit {0})
  persist_exchange conv user_msgs assistant = do
    stored ← load_history conv.id
    append_messages conv.id (
        map to_new_message (drop_overlap (to_messages stored) user_msgs)
        ++ to_new_message assistant ∷ [])
