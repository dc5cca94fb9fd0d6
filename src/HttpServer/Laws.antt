-- ===== src/HttpServer/Laws.antt =====
-- What the base chain does with a request.
use ai_it_dab_com.Prelude.{
  ℕ, String, ◌≡◌, ◌≢◌, refl, sym, ◌∙◌, ap, Bool, true, false, Bool-cases, Option, some, is_some,
  List, [], ◌∷◌, ◌++◌, All, inl, inr, if◌then◌else◌,
}
use mathlib.Core.Path.{subst}
use ai_it_dab_com.Cors.{is_preflight, cors}
use ai_it_dab_com.Cors.Laws.{cors_ended}
use ai_it_dab_com.Log.Recorder.{
  Wire, fresh_wire, Capabilities, Call, header_call, write_call, run_wire, wrap_response_writer,
}
use ai_it_dab_com.Log.Recorder.Laws.{Agrees, IsFinal}
use ai_it_dab_com.Log.Middleware.{
  Request, Line, Serving, Ended, returned, panicked, aborted, set_header, perform, response_started,
  id_of, middleware,
}
use ai_it_dab_com.Log.Middleware.Laws.{
  Fits, IsSummary, perform-Fits, response_started-wire, summarize_lem, middleware-Fits,
}
use ai_it_dab_com.HttpServer.{
  reverse_onto, chain_loop, chain, http_error, log_panic, recovered, recoverer, cors_layer, mux,
  router_handler,
}

module _ {ℓ} {H : Type ℓ} where
  -- The layers around a handler, the first outermost.
  abbrev pub nested : List (H → H) → H → H
  nested [] h = h
  nested (m ∷ ms) h = m (nested ms h)

  chain_loop-reverse_onto :
      (h : H) (done mw : List (H → H))
      → chain_loop h (reverse_onto done mw) ≡ chain_loop (nested mw h) done
  chain_loop-reverse_onto h done [] = refl
  chain_loop-reverse_onto h done (m ∷ ms) = chain_loop-reverse_onto h (m ∷ done) ms

  -- Chain puts the first listed middleware outermost: Chain(h, a, b, c) is a(b(c(h))).
  pub chain-nested : (h : H) (mw : List (H → H)) → chain h mw ≡ nested mw h
  unfolding chain
  chain-nested h mw = chain_loop-reverse_onto h [] mw

-- The response of a handler that made the calls and then panicked: 500, unless it had begun.
abbrev pub after_panic : List Call → Wire
after_panic calls =
    let w = run_wire calls fresh_wire in
    if is_some w.status
    then w
    else run_wire (header_call 500 ∷ write_call "internal server error\n" 22 ∷ []) w

-- The response to a request, by what the handler did.
abbrev pub response : Bool → List Call × Ended → Wire
response true run = run_wire (header_call 204 ∷ []) fresh_wire
response false (calls, returned) = run_wire calls fresh_wire
response false (calls, panicked v) = after_panic calls
response false (calls, aborted) = run_wire calls fresh_wire

-- The request as the inner layers see it.
abbrev pub identified : Request → Option (List ℕ) → String → Request
identified req id_bytes fallback = record req { context_id = id_of req id_bytes fallback }

-- An inner layer ended well, with the response `w`.
abbrev IsServed : Wire → Ended × Serving → Type 0
IsServed w t = (t.0 ≡ returned) × Fits t.1 × (t.1.wire ≡ w)

-- The panic's line and the headers of a response leave the writer and the summaries as they are.
same_fit :
    (s t : Serving)
    → s.recorder ≡ t.recorder
    → s.wire ≡ t.wire
    → s.lines ≡ t.lines
    → Fits s
    → Fits t
same_fit s t r w l f = record {
  recorder = f.recorder;
  installed = sym r ∙ f.installed;
  agrees = subst (λ (x : Wire). Agrees (f.recorder, x)) w f.agrees;
  unlogged = sym l ∙ f.unlogged;
}

-- What is done with the panic of a handler that did not begin the response.
http_error-IsServed :
    (s : Serving) (w : Wire)
    → Fits s
    → s.wire ≡ w
    → IsServed
        (run_wire (header_call 500 ∷ write_call "internal server error\n" 22 ∷ []) w)
        (returned, http_error s)
http_error-IsServed s w f same =
    let calls : List Call = header_call 500 ∷ write_call "internal server error\n" 22 ∷ [] in
    let s' = record s {
      headers =
          set_header "X-Content-Type-Options" "nosniff"
            (set_header "Content-Type" "text/plain; charset=utf-8" s.headers);
    } in
    let (fits, done) = perform-Fits calls s' (refl, (tt, tt)) (same_fit s s' refl refl refl f) in
    (refl, fits, done ∙ ap (run_wire calls) same)

recovered-IsServed :
    (req : Request) (calls : List Call) (e : Ended) (s : Serving)
    → e ≢ aborted
    → Fits s
    → s.wire ≡ run_wire calls fresh_wire
    → IsServed (response false (calls, e)) (recovered req (e, s))
recovered-IsServed req calls returned s ends f same = (refl, f, same)
recovered-IsServed req calls aborted s ends f same = absurd (ends refl)
recovered-IsServed req calls (panicked v) s ends f same =
    let s' = log_panic req v s in
    let fits = same_fit s s' refl refl refl f in
    let begun : response_started s' ≡ is_some (run_wire calls fresh_wire).status =
      response_started-wire s' fits ∙ ap (λ (w : Wire). is_some w.status) same in
    elim (Bool-cases (is_some (run_wire calls fresh_wire).status)) [
      | inl so ↦ rw (begun, so) (refl, fits, same)
      | inr not_so ↦
          rw (begun, not_so) (http_error-IsServed s' (run_wire calls fresh_wire) fits same)
    ]

recoverer-IsServed :
    (run : Request → List Call × Ended) (req : Request) (s : Serving)
    → All IsFinal (run req).0
    → (run req).1 ≢ aborted
    → Fits s
    → s.wire ≡ fresh_wire
    → IsServed (response false (run req)) (recoverer (mux run) req s)
unfolding recoverer mux
recoverer-IsServed run req s final ends f fresh =
    let (fits, same) = perform-Fits (run req).0 s final f in
    recovered-IsServed req (run req).0 (run req).1 (perform (run req).0 s) ends fits
      (same ∙ ap (run_wire (run req).0) fresh)

cors-IsServed :
    (allowed_origins : List String) (run : Request → List Call × Ended) (req : Request)
    (s : Serving)
    → All IsFinal (run req).0
    → (run req).1 ≢ aborted
    → Fits s
    → s.wire ≡ fresh_wire
    → IsServed
        (response (is_preflight req.cors) (run req))
        (cors_layer allowed_origins (recoverer (mux run)) req s)
unfolding cors_layer
cors-IsServed allowed_origins run req s final ends f fresh =
    let s' = record s { headers = s.headers ++ (cors allowed_origins req.cors).headers } in
    let fits = same_fit s s' refl refl refl f in
    let ended : (cors allowed_origins req.cors).ended ≡ is_preflight req.cors =
      cors_ended allowed_origins req.cors in
    elim (Bool-cases (is_preflight req.cors)) [
      | inl so ↦
          (let (done, same) = perform-Fits (header_call 204 ∷ []) s' (refl, tt) fits in
            rw (ended, so) (refl, done, same ∙ ap (run_wire (header_call 204 ∷ [])) fresh))
      | inr not_so ↦ rw (ended, not_so) (recoverer-IsServed run req s' final ends fits fresh)
    ]

-- Every request through the base chain whose handlers do not abort it is answered and returns, with
-- exactly one summary line, which has the request's id (its X-Request-Id, or a new one), method and
-- path, the status that the client sees with the level of its class, and the bytes sent. The client
-- gets 204 for a CORS preflight, and otherwise what the handler wrote; where the handler panicked, it
-- gets a bare 500, or what was written when the response had begun. The handlers send no
-- informational status.
pub router_handler_lem :
    (caps : Capabilities) (id_bytes : Option (List ℕ)) (fallback : String) (elapsed : ℕ)
    (allowed_origins : List String) (run : Request → List Call × Ended) (req : Request)
    (s : Serving)
    → All IsFinal (run (identified req id_bytes fallback)).0
    → (run (identified req id_bytes fallback)).1 ≢ aborted
    → s.wire ≡ fresh_wire
    → s.lines ≡ []
    → let (ended, t) = router_handler caps id_bytes fallback elapsed allowed_origins run req s in
      (ended ≡ returned)
      × (t.wire ≡ response (is_preflight req.cors) (run (identified req id_bytes fallback)))
      × (l : Line) × (t.lines ≡ l ∷ [])
      × IsSummary (id_of req id_bytes fallback) req elapsed t.wire l
unfolding router_handler chain middleware
router_handler_lem caps id_bytes fallback elapsed allowed_origins run req s final ends fresh
      unlogged =
    let id = id_of req id_bytes fallback in
    let req' = identified req id_bytes fallback in
    let rec = (wrap_response_writer caps).0 in
    let s' = record s { headers = set_header "X-Request-Id" id s.headers; recorder = some rec } in
    let f = middleware-Fits caps s id fresh unlogged in
    let (done, fits, same) = cors-IsServed allowed_origins run req' s' final ends f fresh in
    let t = cors_layer allowed_origins (recoverer (mux run)) req' s' in
    let (over, wire, l, lines, summary) = summarize_lem rec elapsed req id t done fits in
    (
      over,
      wire ∙ same,
      l,
      lines,
      subst (λ (w : Wire). IsSummary id req elapsed w l) (sym wire) summary,
    )
