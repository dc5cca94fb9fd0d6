-- ===== src/Gateway/Stream/Verbatim.antt =====
-- backend/internal/gateway/stream.go: what reaches the client of the upstream's text.
use Prim.Native.String
use text.Mathlib.TextLemmas.{append_assoc as str_assoc, append-nil as str-append-nil, nil-append}
use mathlib.Core.List.{append-nil}
use ai_it_dab_com.Prelude.{
  ℕ, ◌+◌, String, ◌≡◌, refl, sym, ap, ◌∙◌, Bool, true, false, not, ◌&&◌, ◌||◌, Bool-cases, inl, inr,
  Option, List, [], ◌∷◌, ◌++◌, arith, ◌==◌, eq_iff, any, concat, if◌then◌else◌,
}
use ai_it_dab_com.Gateway.Respond.{
  Write, json_error, json_chat, sse_headers, sse_session, sse_error, raw, flush,
}
use ai_it_dab_com.Gateway.Stream.{
  Body, error_frame, relay_writes, relay_tail, relay_stream, read_lines,
}
use ai_it_dab_com.Gateway.Stream.Lines.{concat-read_lines}
use ai_it_dab_com.Gateway.Stream.Relay.{
  is_done, data_frames, until_done, passed_on, said, relay_stream_lem,
}

-- The upstream's text among the writes.
abbrev pub raw_text : List Write → String
raw_text [] = ""
raw_text (raw s ∷ ws) = String.◌++◌ s (raw_text ws)
raw_text (w ∷ ws) = raw_text ws

abbrev pub is_error : Write → Bool
is_error (sse_error kind message) = true
is_error w = false

-- The lines behind the first that is the closing frame.
abbrev pub after_done : List String → List String
after_done [] = []
after_done (l ∷ ls) = if is_done l then ls else after_done ls

raw_text-append :
    (ws vs : List Write) → raw_text (ws ++ vs) ≡ String.◌++◌ (raw_text ws) (raw_text vs)
raw_text-append [] vs = sym (nil-append (raw_text vs))
raw_text-append (raw s ∷ ws) vs = grind (arith, raw_text-append ws vs, str_assoc)
raw_text-append (flush ∷ ws) vs = raw_text-append ws vs
raw_text-append (json_error n k m ∷ ws) vs = raw_text-append ws vs
raw_text-append (json_chat b ∷ ws) vs = raw_text-append ws vs
raw_text-append (sse_headers s ∷ ws) vs = raw_text-append ws vs
raw_text-append (sse_session s ∷ ws) vs = raw_text-append ws vs
raw_text-append (sse_error k m ∷ ws) vs = raw_text-append ws vs

raw_text-passed_on : (ls : List String) → raw_text (passed_on ls) ≡ concat ls
unfolding concat
raw_text-passed_on [] = refl
raw_text-passed_on (l ∷ ls) = ap (String.◌++◌ l) (raw_text-passed_on ls)

any_error-append :
    (ws vs : List Write) → any is_error (ws ++ vs) ≡ (any is_error ws || any is_error vs)
any_error-append [] vs = refl
any_error-append (w ∷ ws) vs = ground (arith, any_error-append ws vs)

any_error-passed_on : (ls : List String) → any is_error (passed_on ls) ≡ false
any_error-passed_on [] = refl
any_error-passed_on (l ∷ ls) = any_error-passed_on ls

concat-until_done :
    (ls : List String) → String.◌++◌ (concat (until_done ls)) (concat (after_done ls)) ≡ concat ls
unfolding concat
concat-until_done [] = nil-append ""
concat-until_done (l ∷ ls) = elim (Bool-cases (is_done l)) [
  | inl e ↦ rw e (grind (arith, str-append-nil))
  | inr e ↦ rw e (grind (arith, concat-until_done ls, str_assoc))
]

-- The upstream's frame is closed where it was cut off.
abbrev pub closing : String → String
closing tail = if tail == "" then "" else "\n\n"

module _ (unmarshal_chunk : String → Option (List String)) where
  -- What the last round leaves written, before the error frame.
  abbrev tail_writes : String → List Write → List Write
  tail_writes tail writes = if tail == "" then writes else writes ++ relay_writes false tail

  abbrev last_frame : Bool → List Write
  last_frame quiet = if quiet then [] else error_frame unmarshal_chunk

  relay_tail-writes :
      (gone : Bool) (tail content : String) (chunks : ℕ) (writes : List Write)
      → let r = relay_tail unmarshal_chunk gone tail content chunks writes in
        r.writes ≡ tail_writes tail writes ++ last_frame (r.completed || gone)
  unfolding relay_tail
  relay_tail-writes gone tail content chunks writes =
      ground (arith, append-nil writes, append-nil (writes ++ relay_writes false tail))

  raw_text-last_frame : (quiet : Bool) → raw_text (last_frame quiet) ≡ ""
  raw_text-last_frame true = refl
  raw_text-last_frame false = refl

  error-last_frame : (quiet : Bool) → any is_error (last_frame quiet) ≡ not quiet
  error-last_frame true = refl
  error-last_frame false = refl

  raw_text-tail_writes :
      (tail : String) (writes : List Write)
      → raw_text (tail_writes tail writes)
        ≡ String.◌++◌ (raw_text writes) (String.◌++◌ tail (closing tail))
  raw_text-tail_writes tail writes = elim (Bool-cases (tail == "")) [
    | inl e ↦
        rw (e, (eq_iff tail "").0 e)
          (sym
            (ap (String.◌++◌ (raw_text writes)) (nil-append "") ∙ str-append-nil (raw_text writes)))
    | inr e ↦ rw e (
        raw_text-append writes (relay_writes false tail)
        ∙ ap (λ t. String.◌++◌ (raw_text writes) (String.◌++◌ tail t)) (str-append-nil "\n\n"))
  ]

  error-tail_writes :
      (tail : String) (writes : List Write)
      → any is_error (tail_writes tail writes) ≡ any is_error writes
  error-tail_writes tail writes = ground (arith, any_error-append writes (relay_writes false tail))

  relay_tail-raw_text :
      (gone : Bool) (tail content : String) (chunks : ℕ) (writes : List Write)
      → raw_text (relay_tail unmarshal_chunk gone tail content chunks writes).writes
        ≡ String.◌++◌ (raw_text writes) (String.◌++◌ tail (closing tail))
  relay_tail-raw_text gone tail content chunks writes =
      let quiet = (relay_tail unmarshal_chunk gone tail content chunks writes).completed || gone in
      ap raw_text (relay_tail-writes gone tail content chunks writes)
      ∙ raw_text-append (tail_writes tail writes) (last_frame quiet)
      ∙ ap (String.◌++◌ (raw_text (tail_writes tail writes))) (raw_text-last_frame quiet)
      ∙ str-append-nil (raw_text (tail_writes tail writes))
      ∙ raw_text-tail_writes tail writes

  relay_tail-error :
      (gone : Bool) (tail content : String) (chunks : ℕ) (writes : List Write)
      → any is_error writes ≡ false
      → let r = relay_tail unmarshal_chunk gone tail content chunks writes in
        any is_error r.writes ≡ (not r.completed && not gone)
  relay_tail-error gone tail content chunks writes calm =
      let r = relay_tail unmarshal_chunk gone tail content chunks writes in
      let frame = last_frame (r.completed || gone) in
      rw (relay_tail-writes gone tail content chunks writes) (
        ground (
          arith,
          any_error-append (tail_writes tail writes) frame,
          error-tail_writes tail writes,
          error-last_frame (r.completed || gone),
          calm,
        ))

  -- The client gets the upstream's text verbatim. Where no line that ends in a newline is the closing
  -- frame, it gets all of it, and a blank line to close a last line that has no newline. Else it gets
  -- the text up to the end of the first such line, and nothing of what follows. An error frame is
  -- among the writes exactly where the relay did not complete and the request was not cancelled when
  -- the upstream's text ended.
  pub raw_text-relay_stream :
      (body : Body)
      → let (lines, tail) = read_lines body.text in
        let r = relay_stream unmarshal_chunk body in
        (any is_done lines ≡ true
          → String.◌++◌ (raw_text r.writes) (String.◌++◌ (concat (after_done lines)) tail)
            ≡ body.text)
        × (any is_done lines ≡ false → raw_text r.writes ≡ String.◌++◌ body.text (closing tail))
        × (any is_error r.writes ≡ (not r.completed && not body.gone_at_end))
  raw_text-relay_stream body =
      let (lines, tail) = read_lines body.text in
      let content = String.◌++◌ "" (said unmarshal_chunk lines) in
      let frames = 0 + data_frames lines in
      rw (relay_stream_lem unmarshal_chunk body) (elim (Bool-cases (any is_done lines)) [
        | inl e ↦ rw e (
          λ h. grind (
            arith,
            raw_text-passed_on (until_done lines),
            concat-until_done lines,
            concat-read_lines body.text,
            str_assoc,
          ),
          λ h. cc h,
          any_error-passed_on (until_done lines),
        )
        | inr e ↦ rw e (
          λ h. cc h,
          λ h.
              relay_tail-raw_text body.gone_at_end tail content frames (passed_on lines)
              ∙ grind (arith, raw_text-passed_on lines, concat-read_lines body.text, str_assoc),
          relay_tail-error body.gone_at_end tail content frames (passed_on lines)
              (any_error-passed_on lines),
        )
      ])
