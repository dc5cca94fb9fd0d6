-- ===== src/Gateway/Stream.antt =====
-- backend/internal/gateway/stream.go: the SSE path. The upstream body is the text that the reader
-- yields before its error (end of stream, a broken connection, or the cancelled request), and
-- `gone_at_end` and `gone_after` tell whether the request context is cancelled when the relay meets
-- that error and when streamChat looks again. `unmarshal_chunk` is the JSON decoding of one chunk:
-- `none` for a parse failure, else the delta's content of each choice.
pub mod Concluded
pub mod Lines
pub mod Relay
pub mod Verbatim
use Prim.Native.Char.{code}
use Prim.Native.String
use ai_it_dab_com.Prelude.{
  ℕ, suc, ◌+◌, String, Bool, true, false, not, ◌||◌, ◌&&◌, Option, none, some, List, [], ◌∷◌, ◌++◌,
  ◌==◌, leb, if◌then◌else◌, trim_space, trim_right, cut_prefix,
}
use ai_it_dab_com.Prelude.Actions.{Result, ok, err}
use ai_it_dab_com.Conversation.{role_assistant}
use ai_it_dab_com.GatewayCore.{Message, ConvRepo, persist_exchange}
use ai_it_dab_com.Vllm
use ai_it_dab_com.Vllm.{Reply, got, lost}
use ai_it_dab_com.Gateway.Respond.{
  World, Write, sse_headers, sse_session, sse_error, raw, flush, write, write_error, err_upstream,
  err_internal,
}
use ai_it_dab_com.Gateway.Chat.{
  PreparedTurn, outcome_success, outcome_upstream_error, outcome_persist_error,
  outcome_client_disconnect, outcome_internal_error, upstream_request, upstream_status_of,
}
use ai_it_dab_com.Gateway.Complete.{Auditor, end_call}

abbrev pub sse_done_payload : String
sse_done_payload = "[DONE]"

pub record Body : Type 0 where
  pub text : String
  pub gone_at_end : Bool
  pub gone_after : Bool

abbrev is_code : ℕ → ℕ → Bool
is_code c d = leb c d && leb d c

abbrev pub is_newline : ℕ → Bool
is_newline c = is_code 10 c

-- The cutset "\r\n".
abbrev pub is_line_end : ℕ → Bool
is_line_end c = is_code 13 c || is_code 10 c

abbrev cons_char : String → List String × String → List String × String
cons_char c ([], tail) = ([], String.◌++◌ c tail)
cons_char c ((l ∷ ls), tail) = (String.◌++◌ c l ∷ ls, tail)

-- bufio's ReadBytes('\n') until its error: the lines that end in a newline, and what came with the
-- error.
pub read_lines : String → List String × String
read_lines String.[] = ([], "")
read_lines (String.◌∷◌ c s) =
    let (ls, tail) = read_lines s in
    if is_newline (code c)
    then (String.◌∷◌ c "" ∷ ls, tail)
    else cons_char (String.◌∷◌ c "") (ls, tail)

unfoldable pub sse_data : String → Option String
sse_data line = elim (cut_prefix (trim_right is_line_end line) "data:") [
  | none ↦ none
  | some rest ↦ some (trim_space rest)
]

-- A line that the relay passes on, with the frame closed where the upstream cut it off.
abbrev pub relay_writes : Bool → String → List Write
relay_writes terminated line =
    if terminated then raw line ∷ flush ∷ [] else raw line ∷ raw "\n\n" ∷ flush ∷ []

-- relayStream's results: the message, whether the closing frame was seen, the number of data frames, and
-- what was written.
pub record Relayed : Type 0 where
  pub assistant : Message
  pub completed : Bool
  pub chunks : ℕ
  pub writes : List Write

module _ (unmarshal_chunk : String → Option (List String)) where
  pub delta_content : String → String
  delta_content payload = elim (unmarshal_chunk payload) [
    | none ↦ ""
    | some contents ↦ elim contents [ [] ↦ "" | c ∷ _ ↦ c ]
  ]

  abbrev finished : String → ℕ → List Write → Relayed
  finished content chunks writes = record {
    assistant = record { role = role_assistant; content = content };
    completed = true;
    chunks = chunks;
    writes = writes;
  }

  abbrev pub error_frame : List Write
  error_frame =
      sse_error err_upstream "the model backend ended the stream unexpectedly" ∷ flush ∷ []

  abbrev broken_off : Bool → ℕ → List Write → Relayed
  broken_off gone chunks writes = record {
    assistant = record { role = ""; content = "" };
    completed = false;
    chunks = chunks;
    writes = if gone then writes else writes ++ error_frame;
  }

  -- The last round of the loop, with what came with the error.
  pub relay_tail : Bool → String → String → ℕ → List Write → Relayed
  relay_tail gone tail content chunks writes =
      if tail == ""
      then broken_off gone chunks writes
      else (let writes' = writes ++ relay_writes false tail in
          elim (sse_data tail) [
            | none ↦ broken_off gone chunks writes'
            | some payload ↦
                if payload == sse_done_payload
                then finished content chunks writes'
                else broken_off gone (chunks + 1) writes'
          ])

  -- A round with a data payload or without; `go` is the rest of the loop.
  abbrev pub relay_next : Option String → (String → ℕ → Relayed) → String → ℕ → List Write → Relayed
  relay_next none go content chunks writes = go content chunks
  relay_next (some payload) go content chunks writes =
      if payload == sse_done_payload
      then finished content chunks writes
      else go (String.◌++◌ content (delta_content payload)) (chunks + 1)

  -- The loop over the lines that came without an error.
  pub relay_loop : Bool → String → List String → String → ℕ → List Write → Relayed
  relay_loop gone tail [] content chunks writes = relay_tail gone tail content chunks writes
  relay_loop gone tail (line ∷ lines) content chunks writes =
      let writes' = writes ++ relay_writes true line in
      relay_next (sse_data line) (λ c n. relay_loop gone tail lines c n writes') content chunks
        writes'

  pub relay_stream : Body → Relayed
  relay_stream body =
      let (lines, tail) = read_lines body.text in relay_loop body.gone_at_end tail lines "" 0 []

  module _ (repo : ConvRepo) (a : Auditor) where
    -- After a stream that saw the closing frame: persist, and signal a failure as a trailing frame.
    abbrev after_persist :
        PreparedTurn → ℕ → Result (Unit {0}) → World repo.State → World repo.State
    after_persist p chunks (ok u) w =
        end_call repo a p outcome_success (some 200) none none chunks w
    after_persist p chunks (err e) w =
        end_call repo a p outcome_persist_error (some 200) none none chunks (
          write flush
            (write (sse_error err_internal "the reply was delivered but could not be saved") w))

    abbrev after_relay : PreparedTurn → Bool → Relayed → World repo.State → World repo.State
    after_relay p gone_after r w =
        if r.completed
        then (let (res, s) = persist_exchange repo p.conv p.incoming r.assistant w.repo in
            after_persist p r.chunks res (record w { repo = s }))
        else end_call repo a p
            (if gone_after then outcome_client_disconnect else outcome_upstream_error) (some 200)
            none none r.chunks w

    abbrev with_stream : PreparedTurn → Reply Body → World repo.State → World repo.State
    with_stream p (lost failure) w =
        end_call repo a p outcome_upstream_error (upstream_status_of failure) none none 0
          (write_error err_upstream "the model backend could not start the stream" w)
    with_stream p (got body) w =
        let r = relay_stream body in
        after_relay p body.gone_after r (record w {
          sent = w.sent ++ (sse_headers p.conv.id ∷ sse_session p.conv.id ∷ flush ∷ r.writes);
        })

    -- streamChat; `can_flush` tells whether the response writer is an http.Flusher.
    pub stream_chat :
        Bool → (Vllm.ChatRequest → Reply Body) → PreparedTurn → World repo.State → World repo.State
    stream_chat can_flush stream p w =
        if can_flush
        then (let req = upstream_request true p in
            with_stream p (stream req) (record w { asked = w.asked ++ req ∷ [] }))
        else end_call repo a p outcome_internal_error none none none 0
            (write_error err_internal "streaming is not supported by the server" w)
