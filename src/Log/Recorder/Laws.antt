-- ===== src/Log/Recorder/Laws.antt =====
-- The recorder is transparent, and says what is on the wire.
use Prim.Native.String.{slice}
use ai_it_dab_com.Prelude.{
  ℕ, ◌+◌, suc, ◌++◌, ◌≡◌, refl, ◌∙◌, ap, Bool, true, false, Option-cases, inl, inr, none, some,
  is_some, List, [], ◌∷◌, All,
}
use ai_it_dab_com.Log.Recorder.{
  Wire, fresh_wire, is_informational, final_status, wire_header, Recording, write_header, commit,
  write, written, flush, Call, header_call, write_call, flush_call, call_wire, call_recorder,
  run_wire, run_recorder, Capabilities, capabilities, wrap_response_writer,
}

-- The recorder has what the wire has.
pub record Agrees (s : Recording) : Type 0 where
  pub status : s.0.status ≡ final_status s.1
  pub bytes : s.0.bytes ≡ s.1.bytes
  pub begun : s.0.wrote_header ≡ is_some s.1.status

-- A call does not send an informational status.
abbrev pub IsFinal : Call → Type 0
IsFinal (header_call code) = is_informational code ≡ false
IsFinal (write_call text taken) = Unit
IsFinal flush_call = Unit

wire_header_first :
    (code : ℕ) (w : Wire)
    → is_informational code ≡ false
    → w.status ≡ none
    → wire_header code w ≡ record w { status = some code }
wire_header_first code w final unsent = rw (unsent, final) refl

wire_header_later : (code : ℕ) (w : Wire) {c : ℕ} → w.status ≡ some c → wire_header code w ≡ w
wire_header_later code w {c} sent = rw sent refl

-- The header's call, on the recorder and on the wire.
write_header_lem :
    (code : ℕ) (s : Recording)
    → is_informational code ≡ false
    → Agrees s
    → ((write_header code s).1 ≡ wire_header code s.1) × Agrees (write_header code s)
unfolding write_header
write_header_lem code (r, w) final a = elim (Option-cases w.status) [
  | inl unsent ↦
      let fresh : r.wrote_header ≡ false = a.begun ∙ ap is_some unsent in
      rw (fresh, wire_header_first code w final unsent)
        (refl, record { status = refl; bytes = a.bytes; begun = refl })
  | inr (c, sent) ↦
      let begun : r.wrote_header ≡ true = a.begun ∙ ap is_some sent in
      simp (begun, wire_header_later code w sent) (refl, a)
]

commit_lem :
    (s : Recording)
    → Agrees s
    → (wire_header 200 (commit s).1 ≡ wire_header 200 s.1)
      × Agrees ((commit s).0, wire_header 200 (commit s).1)
unfolding write_header
commit_lem (r, w) a = elim (Option-cases w.status) [
  | inl unsent ↦
      let fresh : r.wrote_header ≡ false = a.begun ∙ ap is_some unsent in
      rw (fresh, wire_header_first 200 w refl unsent)
        (refl, record { status = refl; bytes = a.bytes; begun = refl })
  | inr (c, sent) ↦
      let begun : r.wrote_header ≡ true = a.begun ∙ ap is_some sent in
      simp (begun, wire_header_later 200 w sent) (refl, a)
]

call_lem :
    (c : Call) (s : Recording)
    → IsFinal c
    → Agrees s
    → ((call_recorder c s).1 ≡ call_wire c s.1) × Agrees (call_recorder c s)
unfolding write flush
call_lem (header_call code) s final a = write_header_lem code s final a
call_lem (write_call text taken) s final a =
    let (same, b) = commit_lem s a in
    (
      ap {A = Wire} {B = Wire}
          (λ w. record w { body = w.body ++ slice text 0 taken ∷ []; bytes = w.bytes + taken })
          same,
      record { status = b.status; bytes = ap (λ n. n + taken) b.bytes; begun = b.begun },
    )
call_lem flush_call s final a =
    let (same, b) = commit_lem s a in
    (
      ap {A = Wire} {B = Wire} (λ w. record w { flushes = suc w.flushes }) same,
      record { status = b.status; bytes = b.bytes; begun = b.begun },
    )

pub run_recorder-Agrees :
    (cs : List Call) (s : Recording)
    → All IsFinal cs
    → Agrees s
    → ((run_recorder cs s).1 ≡ run_wire cs s.1) × Agrees (run_recorder cs s)
run_recorder-Agrees [] s final a = (refl, a)
run_recorder-Agrees (c ∷ cs) s (first, final) a =
    let (same, b) = call_lem c s first a in
    let (rest, d) = run_recorder-Agrees cs (call_recorder c s) final b in
    (rest ∙ ap (run_wire cs) same, d)

-- A handler's calls on the recorder do to the wire what they do without it, and the recorder has the
-- status that the client sees, the number of bytes that the connection took, and whether a status was
-- sent. The handler sends no informational status, and the recorder agreed with the wire before.
pub run_recorder-IsRefinement :
    (cs : List Call) (s : Recording)
    → All IsFinal cs
    → Agrees s
    → ((run_recorder cs s).1 ≡ run_wire cs s.1)
      × ((run_recorder cs s).0.status ≡ final_status (run_wire cs s.1))
      × ((run_recorder cs s).0.bytes ≡ (run_wire cs s.1).bytes)
      × (written (run_recorder cs s).0 ≡ is_some (run_wire cs s.1).status)
unfolding written
run_recorder-IsRefinement cs s final a =
    let (same, b) = run_recorder-Agrees cs s final a in
    (
      same,
      b.status ∙ ap final_status same,
      b.bytes ∙ ap (λ w. w.bytes) same,
      b.begun ∙ ap (λ w. is_some w.status) same,
    )

wrap_of :
    (f h : Bool)
    → let (r, w) = wrap_response_writer (record { can_flush = f; can_hijack = h }) in
      Agrees (r, fresh_wire) × (capabilities w ≡ record { can_flush = f; can_hijack = h })
unfolding wrap_response_writer
wrap_of true true = (record { status = refl; bytes = refl; begun = refl }, refl)
wrap_of true false = (record { status = refl; bytes = refl; begun = refl }, refl)
wrap_of false true = (record { status = refl; bytes = refl; begun = refl }, refl)
wrap_of false false = (record { status = refl; bytes = refl; begun = refl }, refl)

-- A new recorder agrees with a response of which nothing is sent, and its wrapper can flush and hijack
-- exactly as the writer below can.
pub wrap_response_writer-Agrees :
    (c : Capabilities)
    → Agrees ((wrap_response_writer c).0, fresh_wire)
      × (capabilities (wrap_response_writer c).1 ≡ c)
wrap_response_writer-Agrees c = wrap_of c.can_flush c.can_hijack
