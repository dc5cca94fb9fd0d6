-- ===== src/HttpServer.antt =====
-- backend/internal/httpserver: the router's base chain (router.go), the recovery of panics (recover.go)
-- and the server's settings (server.go). The handlers behind the mux are a function that gives the
-- calls they make on their writer and how they end; http.ServeMux is not in the repository.
pub mod Laws
pub mod Health
use ai_it_dab_com.Prelude.{ℕ, ◌*◌, String, ◌==◌, Option, List, [], ◌∷◌, ◌++◌, if◌then◌else◌}
use ai_it_dab_com.Cors.{Answer, cors}
use ai_it_dab_com.Log.Recorder.{Capabilities, Call, header_call, write_call}
use ai_it_dab_com.Log.Middleware.{
  Request, Serving, Ended, returned, panicked, aborted, Handler, set_header, perform,
  response_started, middleware,
}

module _ {ℓ} {H : Type ℓ} where
  abbrev pub reverse_onto : List (H → H) → List (H → H) → List (H → H)
  reverse_onto acc [] = acc
  reverse_onto acc (m ∷ ms) = reverse_onto (m ∷ acc) ms

  -- `for i := len(mw) - 1; i >= 0; i-- { h = mw[i](h) }`, on the layers from the last to the first
  abbrev pub chain_loop : H → List (H → H) → H
  chain_loop h [] = h
  chain_loop h (m ∷ ms) = chain_loop (m h) ms

  unfoldable pub chain : H → List (H → H) → H
  chain h mw = chain_loop h (reverse_onto [] mw)

-- http.Error, whose message is written whole
abbrev pub http_error : Serving → Serving
http_error s = perform (header_call 500 ∷ write_call "internal server error\n" 22 ∷ []) (record s {
  headers =
      set_header "X-Content-Type-Options" "nosniff"
        (set_header "Content-Type" "text/plain; charset=utf-8" s.headers);
})

abbrev pub log_panic : Request → String → Serving → Serving
log_panic req v s = record s {
  panics = s.panics ++ record { request_id = req.context_id; value = v } ∷ [];
}

abbrev pub recovered : Request → Ended × Serving → Ended × Serving
recovered req (returned, s) = (returned, s)
recovered req (aborted, s) = (aborted, s)
recovered req (panicked v, s) =
    let s' = log_panic req v s in
    if response_started s' then (returned, s') else (returned, http_error s')

unfoldable pub recoverer : Handler → Handler
recoverer next req s = recovered req (next req s)

-- The middleware of cors.go on a response.
abbrev pub answered : Answer → Handler → Handler
answered a next req s =
    let s' = record s { headers = s.headers ++ a.headers } in
    if a.ended then (returned, perform (header_call 204 ∷ []) s') else next req s'

unfoldable pub cors_layer : List String → Handler → Handler
cors_layer allowed_origins next req s = answered (cors allowed_origins req.cors) next req s

-- The mux with the handlers behind it.
unfoldable pub mux : (Request → List Call × Ended) → Handler
mux run req s = let (calls, ended) = run req in (ended, perform calls s)

-- Router.Handler
unfoldable pub router_handler :
    Capabilities
    → Option (List ℕ)
    → (fallback : String) → (elapsed : ℕ) → (allowed_origins : List String)
    → (Request → List Call × Ended)
    → Handler
router_handler caps id_bytes fallback elapsed allowed_origins run =
    chain (mux run)
      (middleware caps id_bytes fallback elapsed ∷ cors_layer allowed_origins ∷ recoverer ∷ [])

-- http.Server's settings, in nanoseconds; 0 is no limit.
pub record Server : Type 0 where
  pub addr : String
  pub read_header_timeout : ℕ
  pub read_timeout : ℕ
  pub write_timeout : ℕ
  pub idle_timeout : ℕ

pub new_server : (listen_addr : String) → Server
new_server listen_addr = record {
  addr = if listen_addr == "" then ":8080" else listen_addr;
  read_header_timeout = 10 * 1000000000;
  read_timeout = 60 * 1000000000;
  write_timeout = 0;
  idle_timeout = 120 * 1000000000;
}
