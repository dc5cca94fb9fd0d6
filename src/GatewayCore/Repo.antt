-- ===== src/GatewayCore/Repo.antt =====
-- What the core relies on of a conversation repository, in terms of the history that a client sees.
use ai_it_dab_com.Prelude.{String, ◌≡◌, List, ◌++◌, map}
use ai_it_dab_com.Prelude.Actions.{Error, ok, err}
use ai_it_dab_com.Conversation.{MessageRow, NewMessage}
use ai_it_dab_com.GatewayCore.{Message, ConvRepo, to_messages}

abbrev pub from_new : NewMessage → Message
from_new m = record { role = m.role; content = m.content }

-- `history s id` is what a load of the conversation `id` answers when it succeeds, and `IsReady s
-- id` that the clock is past the conversation's stored messages, so that appended ones come last.
pub record ConvRepoLaws (repo : ConvRepo) : Type 1 where
  pub history : repo.State → String → List Message
  pub IsReady : repo.State → String → Type 0
  pub load_ok :
      (id : String) (s : repo.State) (rows : List MessageRow)
      → (repo.load_history id s).0 ≡ ok rows
      → to_messages rows ≡ history s id
  pub load_keeps :
      (id j : String) (s : repo.State) → history (repo.load_history id s).1 j ≡ history s j
  pub load-IsReady :
      (id j : String) (s : repo.State) → IsReady s j → IsReady (repo.load_history id s).1 j
  pub append_ok :
      (id : String) (ms : List NewMessage) (s : repo.State) (u : Unit {0})
      → IsReady s id
      → (repo.append_messages id ms s).0 ≡ ok u
      → history (repo.append_messages id ms s).1 id ≡ history s id ++ map from_new ms
  pub append_err :
      (id j : String) (ms : List NewMessage) (s : repo.State) (e : Error)
      → (repo.append_messages id ms s).0 ≡ err e
      → history (repo.append_messages id ms s).1 j ≡ history s j
  pub create_keeps :
      (key model j : String) (s : repo.State)
      → history (repo.create_conversation key model s).1 j ≡ history s j
  pub get_keeps :
      (key session j : String) (s : repo.State)
      → history (repo.get_conversation key session s).1 j ≡ history s j
