-- ===== src/Gateway/Stream/Relay.antt =====
-- What relayStream does, against a description with no accumulators: the lines up to the first
-- the closing frame are passed on, and the contents of the chunks before it make the message.
use Prim.Native.String
use text.Mathlib.TextLemmas.{append_assoc as str_assoc, append-nil as str-append-nil, nil-append}
use mathlib.Core.List.{append_assoc, append-nil}
use ai_it_dab_com.Prelude.{
  ℕ, ◌+◌, String, ◌≡◌, refl, sym, ap, ◌∙◌, Bool, true, false, ◌||◌, Bool-cases, Option-cases, inl,
  inr, Option, none, some, List, [], ◌∷◌, ◌++◌, arith, ◌==◌, any, cut_prefix, trim_right,
  if◌then◌else◌, eq_iff,
}
use ai_it_dab_com.Conversation.{role_assistant}
use ai_it_dab_com.Gateway.Respond.{Write}
use ai_it_dab_com.Gateway.Stream.{
  Body, Relayed, sse_done_payload, sse_data, relay_writes, delta_content, finished, relay_tail,
  relay_loop, relay_stream, read_lines,
}

abbrev pub is_done_payload : Option String → Bool
is_done_payload none = false
is_done_payload (some payload) = payload == sse_done_payload

-- The line is the closing frame.
abbrev pub is_done : String → Bool
is_done line = is_done_payload (sse_data line)

is_done-nil : is_done "" ≡ false
unfolding sse_data cut_prefix trim_right
is_done-nil = refl

-- The lines before the first one that is done, and the lines with it.
abbrev pub before_done : List String → List String
before_done [] = []
before_done (l ∷ ls) = if is_done l then [] else l ∷ before_done ls

abbrev pub until_done : List String → List String
until_done [] = []
until_done (l ∷ ls) = if is_done l then l ∷ [] else l ∷ until_done ls

-- The number of data frames among the lines.
abbrev pub is_data : Option String → ℕ
is_data none = 0
is_data (some payload) = 1

abbrev pub data_frames : List String → ℕ
data_frames [] = 0
data_frames (l ∷ ls) = is_data (sse_data l) + data_frames ls

-- Each line passed on unchanged, and flushed.
abbrev pub passed_on : List String → List Write
passed_on [] = []
passed_on (l ∷ ls) = relay_writes true l ++ passed_on ls

module _ (unmarshal_chunk : String → Option (List String)) where
  abbrev pub delta_of : Option String → String
  delta_of none = ""
  delta_of (some payload) = delta_content unmarshal_chunk payload

  -- The contents of the lines' chunks, one after the other.
  abbrev pub said : List String → String
  said [] = ""
  said (l ∷ ls) = String.◌++◌ (delta_of (sse_data l)) (said ls)

  abbrev pub relayed_done : List String → String → ℕ → List Write → Relayed
  relayed_done lines content chunks writes =
      finished unmarshal_chunk (String.◌++◌ content (said (before_done lines)))
        (chunks + data_frames (before_done lines)) (writes ++ passed_on (until_done lines))

  abbrev pub relayed_all : Bool → String → List String → String → ℕ → List Write → Relayed
  relayed_all gone tail lines content chunks writes =
      relay_tail unmarshal_chunk gone tail (String.◌++◌ content (said lines))
        (chunks + data_frames lines) (writes ++ passed_on lines)

  relay_loop_lem :
      (gone : Bool) (tail : String) (lines : List String) (content : String) (chunks : ℕ)
      (writes : List Write)
      → relay_loop unmarshal_chunk gone tail lines content chunks writes ≡ (
          if any is_done lines
          then relayed_done lines content chunks writes
          else relayed_all gone tail lines content chunks writes)
  unfolding relay_loop
  relay_loop_lem gone tail [] content chunks writes =
      ground (arith, append-nil writes, str-append-nil content)
  relay_loop_lem gone tail (line ∷ lines) content chunks writes =
      let writes' = writes ++ relay_writes true line in
      elim (Option-cases (sse_data line)) [
        | inl e ↦ rw e (
            relay_loop_lem gone tail lines content chunks writes'
            ∙ grind (arith, e, nil-append, append_assoc))
        | inr (payload, e) ↦ elim (Bool-cases (payload == sse_done_payload)) [
          | inl d ↦ rw (e, d) (grind (arith, str-append-nil))
          | inr n ↦
              let delta = delta_content unmarshal_chunk payload in
              rw (e, n)
                (relay_loop_lem gone tail lines (String.◌++◌ content delta) (chunks + 1) writes'
                  ∙ grind (arith, e, append_assoc, str_assoc))
        ]
      ]

  -- The relay passes the upstream's lines on unchanged and flushes each, up to and with the first
  -- the closing frame; the message it returns is then the concatenation of the delta contents before
  -- that line, and the count is that of the data frames before it. Where no whole line is done,
  -- all lines are passed on, and the rest is decided on what came with the error (relay_tail).
  pub relay_stream_lem :
      (body : Body)
      → let (lines, tail) = read_lines body.text in
        relay_stream unmarshal_chunk body ≡ (
          if any is_done lines
          then relayed_done lines "" 0 []
          else relayed_all body.gone_at_end tail lines "" 0 [])
  unfolding relay_stream
  relay_stream_lem body =
      let (lines, tail) = read_lines body.text in relay_loop_lem body.gone_at_end tail lines "" 0 []

  relay_tail-completed :
      (gone : Bool) (tail content : String) (chunks : ℕ) (writes : List Write)
      → (relay_tail unmarshal_chunk gone tail content chunks writes).completed ≡ is_done tail
  unfolding relay_tail
  relay_tail-completed gone tail content chunks writes = elim (Bool-cases (tail == "")) [
    | inl e ↦
        (let empty = ap (λ t. is_done_payload (sse_data t)) ((eq_iff tail "").0 e) in
          rw e (sym (empty ∙ is_done-nil)))
    | inr e ↦ rw e (ground arith)
  ]

  -- A relay completes exactly where a line of the upstream's text is the closing frame, the
  -- unterminated last line included.
  pub relay_stream-completed :
      (body : Body)
      → let (lines, tail) = read_lines body.text in
        (relay_stream unmarshal_chunk body).completed ≡ (any is_done lines || is_done tail)
  relay_stream-completed body =
      let (lines, tail) = read_lines body.text in
      ground (
        arith,
        relay_stream_lem body,
        relay_tail-completed body.gone_at_end tail (String.◌++◌ "" (said lines))
            (0 + data_frames lines) (passed_on lines),
      )

  relay_tail-role :
      (gone : Bool) (tail content : String) (chunks : ℕ) (writes : List Write)
      → let r = relay_tail unmarshal_chunk gone tail content chunks writes in
        r.completed ≡ true → r.assistant.role ≡ role_assistant
  unfolding relay_tail
  relay_tail-role gone tail content chunks writes h = ground arith

  pub relay_stream-role :
      (body : Body)
      → let r = relay_stream unmarshal_chunk body in
        r.completed ≡ true → r.assistant.role ≡ role_assistant
  relay_stream-role body h =
      let (lines, tail) = read_lines body.text in
      ground (
        arith,
        relay_stream_lem body,
        relay_tail-role body.gone_at_end tail (String.◌++◌ "" (said lines)) (0 + data_frames lines)
            (passed_on lines),
      )
