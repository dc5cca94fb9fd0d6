-- ===== src/Log/Recorder.antt =====
-- backend/internal/log/middleware.go: the recorder around a ResponseWriter, over net/http's writer.
--
-- `Wire` is what the client gets of net/http: the first status that is not informational is the
-- response's, a write or a flush without one sends 200, and the statuses 100 to 199 except 101 are
-- sent on their own. What a handler does is the sequence of its calls; a call of Write says how many
-- bytes the connection took. `Hijack` hands over the connection and is left out.
pub mod Laws
use Prim.Native.String.{slice}
use ai_it_dab_com.Prelude.{
  ℕ, suc, ◌+◌, String, Bool, true, false, not, ◌&&◌, ◌≡◌, Option, none, some, is_some, List, [],
  ◌∷◌, ◌++◌, ltb, leb, if◌then◌else◌,
}

pub record Wire : Type 0 where
  pub status : Option ℕ
  pub informational : List ℕ
  pub body : List String
  pub bytes : ℕ
  pub flushes : ℕ

abbrev pub fresh_wire : Wire
fresh_wire = record { status = none; informational = []; body = []; bytes = 0; flushes = 0 }

abbrev pub is_informational : ℕ → Bool
is_informational code = leb 100 code && leb code 199 && not (leb 101 code && leb code 101)

-- net/http's WriteHeader, Write and Flush
abbrev pub send_header : Option ℕ → ℕ → Wire → Wire
send_header (some sent) code w = w
send_header none code w =
    if is_informational code
    then record w { informational = w.informational ++ code ∷ [] }
    else record w { status = some code }

abbrev pub wire_header : ℕ → Wire → Wire
wire_header code w = send_header w.status code w

abbrev pub wire_write : String → ℕ → Wire → Wire
wire_write text taken w =
    let w' = wire_header 200 w in
    record w' { body = w'.body ++ slice text 0 taken ∷ []; bytes = w'.bytes + taken }

abbrev pub wire_flush : Wire → Wire
wire_flush w = let w' = wire_header 200 w in record w' { flushes = suc w'.flushes }

-- What the client sees of a finished response: net/http sends 200 when the handler sent no status.
abbrev pub status_or_ok : Option ℕ → ℕ
status_or_ok none = 200
status_or_ok (some code) = code

abbrev pub final_status : Wire → ℕ
final_status w = status_or_ok w.status

-- responseRecorder, beside the writer that it wraps.
pub record Recorder : Type 0 where
  pub status : ℕ
  pub bytes : ℕ
  pub wrote_header : Bool

abbrev pub Recording : Type 0
Recording = Recorder × Wire

unfoldable pub write_header : ℕ → Recording → Recording
write_header code (r, w) =
    if r.wrote_header
    then (r, w)
    else (record r { status = code; wrote_header = true }, wire_header code w)

-- `if !r.wroteHeader { r.WriteHeader(http.StatusOK) }`
abbrev pub commit : Recording → Recording
commit (r, w) = if r.wrote_header then (r, w) else write_header 200 (r, w)

unfoldable pub write : String → ℕ → Recording → Recording
write text taken s =
    let (r, w) = commit s in (record r { bytes = r.bytes + taken }, wire_write text taken w)

unfoldable pub written : Recorder → Bool
written r = r.wrote_header

unfoldable pub flush : Recording → Recording
flush s = let (r, w) = commit s in (r, wire_flush w)

-- What a handler calls on its writer.
pub data Call : Type 0 where
  header_call : ℕ → Call
  write_call : String → ℕ → Call
  flush_call : Call

abbrev pub call_wire : Call → Wire → Wire
call_wire (header_call code) w = wire_header code w
call_wire (write_call text taken) w = wire_write text taken w
call_wire flush_call w = wire_flush w

abbrev pub call_recorder : Call → Recording → Recording
call_recorder (header_call code) s = write_header code s
call_recorder (write_call text taken) s = write text taken s
call_recorder flush_call s = flush s

abbrev pub run_wire : List Call → Wire → Wire
run_wire [] w = w
run_wire (c ∷ cs) w = run_wire cs (call_wire c w)

abbrev pub run_recorder : List Call → Recording → Recording
run_recorder [] s = s
run_recorder (c ∷ cs) s = run_recorder cs (call_recorder c s)

-- The optional interfaces of a ResponseWriter.
pub record Capabilities : Type 0 where
  pub can_flush : Bool
  pub can_hijack : Bool

pub data Wrapper : Type 0 where
  flush_hijack_writer flush_writer hijack_writer plain_writer : Wrapper

-- What the wrapper's methods implement.
abbrev pub capabilities : Wrapper → Capabilities
capabilities flush_hijack_writer = record { can_flush = true; can_hijack = true }
capabilities flush_writer = record { can_flush = true; can_hijack = false }
capabilities hijack_writer = record { can_flush = false; can_hijack = true }
capabilities plain_writer = record { can_flush = false; can_hijack = false }

unfoldable pub wrap_response_writer : Capabilities → Recorder × Wrapper
wrap_response_writer c =
    let rec : Recorder = record { status = 200; bytes = 0; wrote_header = false } in
    if c.can_flush && c.can_hijack
    then (rec, flush_hijack_writer)
    else if c.can_flush
    then (rec, flush_writer)
    else if c.can_hijack
    then (rec, hijack_writer)
    else (rec, plain_writer)
