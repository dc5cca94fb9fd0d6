-- ===== src/Log/Middleware.antt =====
-- backend/internal/log/middleware.go: the request-logging middleware, on a handler as a function of
-- the request and of what serving it has done. A handler returns, panics with a value, or panics with
-- http.ErrAbortHandler. The random source and the clock are arguments: `id_bytes` is what
-- crypto/rand.Read gave, `fallback` the time in base 36, and `elapsed` the request's milliseconds.
pub mod Laws
use Prim.Native.String
use Prim.Native.String.{slice}
use ai_it_dab_com.Prelude.{
  ℕ, ◌+◌, ◌/◌, ◌%◌, String, Bool, true, false, not, Option, none, some, List, [], ◌∷◌, ◌++◌, ◌==◌,
  leb, concat, if◌then◌else◌,
}
use ai_it_dab_com.Cors
use ai_it_dab_com.Log.{Level, error, warn, info}
use ai_it_dab_com.Log.Recorder.{
  Wire, Recorder, Capabilities, Call, run_wire, run_recorder, wrap_response_writer, written,
}

-- The part of the request that the middleware reads, with the id in its context.
pub record Request : Type 0 where
  pub cors : Cors.Request
  pub path : String
  -- the X-Request-Id header
  pub request_id : String
  pub context_id : String

-- The summary line of a request.
pub record Line : Type 0 where
  pub request_id : String
  pub level : Level
  pub method : String
  pub path : String
  pub status : ℕ
  pub duration_ms : ℕ
  pub bytes : ℕ

-- The line of a recovered panic.
pub record PanicLine : Type 0 where
  pub request_id : String
  pub value : String

-- The response's headers, the writer, which is a recorder over the wire or the wire alone, and the
-- log.
pub record Serving : Type 0 where
  pub headers : List Cors.Header
  pub wire : Wire
  pub recorder : Option Recorder
  pub lines : List Line
  pub panics : List PanicLine

pub data Ended : Type 0 where
  returned : Ended
  panicked : String → Ended
  aborted : Ended

abbrev pub Handler : Type 0
Handler = Request → Serving → Ended × Serving

abbrev pub without : String → List Cors.Header → List Cors.Header
without name [] = []
without name (h ∷ hs) =
    let rest = without name hs in if not (h.name == name) then h ∷ rest else rest

-- http.Header.Set
abbrev pub set_header : String → String → List Cors.Header → List Cors.Header
set_header name value hs = without name hs ++ Cors.header name value ∷ []

abbrev perform_on : Option Recorder → List Call → Serving → Serving
perform_on none calls s = record s { wire = run_wire calls s.wire }
perform_on (some r) calls s =
    let (r', w) = run_recorder calls (r, s.wire) in record s { recorder = some r'; wire = w }

-- A handler's calls on its writer.
unfoldable pub perform : List Call → Serving → Serving
perform calls s = perform_on s.recorder calls s

abbrev has_written : Option Recorder → Bool
has_written none = false
has_written (some r) = written r

-- Whether the writer is a StatusWriter that has written.
unfoldable pub response_started : Serving → Bool
response_started s = has_written s.recorder

-- newRequestID: hex.EncodeToString of the bytes.
unfoldable pub hex : List ℕ → String
hex [] = ""
hex (b ∷ bs) =
    let digits : String = "0123456789abcdef" in
    concat (slice digits (b / 16) (b / 16 + 1) ∷ slice digits (b % 16) (b % 16 + 1) ∷ hex bs ∷ [])

unfoldable pub new_request_id : Option (List ℕ) → (fallback : String) → String
new_request_id none fallback = Prim.Native.String.◌++◌ "req-" fallback
new_request_id (some bytes) fallback = hex bytes

unfoldable pub level_of : ℕ → Level
level_of status = if leb 500 status then error else if leb 400 status then warn else info

abbrev pub recorder_or : Recorder → Option Recorder → Recorder
recorder_or r none = r
recorder_or r (some r') = r'

-- The summary, from what the recorder captured.
abbrev pub line_of : Recorder → ℕ → Request → String → Line
line_of rec elapsed req id = record {
  request_id = id;
  level = level_of rec.status;
  method = req.cors.method;
  path = req.path;
  status = rec.status;
  duration_ms = elapsed;
  bytes = rec.bytes;
}

-- What follows the next handler; a panic passes through without a summary.
abbrev pub summarize : Recorder → ℕ → Request → String → Ended × Serving → Ended × Serving
summarize r elapsed req id (returned, s) = (
  returned,
  record s { lines = s.lines ++ line_of (recorder_or r s.recorder) elapsed req id ∷ [] },
)
summarize r elapsed req id (panicked v, s) = (panicked v, s)
summarize r elapsed req id (aborted, s) = (aborted, s)

abbrev pub id_of : Request → Option (List ℕ) → String → String
id_of req id_bytes fallback =
    if req.request_id == "" then new_request_id id_bytes fallback else req.request_id

unfoldable pub middleware :
    Capabilities → Option (List ℕ) → (fallback : String) → (elapsed : ℕ) → Handler → Handler
middleware caps id_bytes fallback elapsed next req s =
    let id = id_of req id_bytes fallback in
    let (rec, wrapper) = wrap_response_writer caps in
    let headers = set_header "X-Request-Id" id s.headers in
    let s' = record s { headers = headers; recorder = some rec } in
    summarize rec elapsed req id (next (record req { context_id = id }) s')
