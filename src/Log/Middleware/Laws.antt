-- ===== src/Log/Middleware/Laws.antt =====
-- What the middleware logs of a request.
use mathlib.Core.Path.{subst}
use ai_it_dab_com.Prelude.{
  ℕ, String, ◌≡◌, refl, sym, ◌∙◌, ap, some, is_some, List, [], ◌∷◌, ◌++◌, All,
}
use ai_it_dab_com.Log.Recorder.{
  Wire, fresh_wire, final_status, Recorder, Capabilities, Call, run_wire, run_recorder,
  wrap_response_writer, written,
}
use ai_it_dab_com.Log.Recorder.Laws.{
  Agrees, IsFinal, run_recorder-Agrees, wrap_response_writer-Agrees,
}
use ai_it_dab_com.Log.Middleware.{
  Request, Line, Serving, Ended, returned, perform, response_started, level_of, set_header,
  recorder_or, line_of, summarize,
}

-- The writer is a recorder that agrees with the wire, and no line is written yet.
pub record Fits (s : Serving) : Type 0 where
  pub recorder : Recorder
  pub installed : s.recorder ≡ some recorder
  pub agrees : Agrees (recorder, s.wire)
  pub unlogged : s.lines ≡ []

-- A line tells of the response that the client got.
pub record IsSummary (caps_id : String) (req : Request) (elapsed : ℕ) (w : Wire) (l : Line)
    : Type 0 where
  pub request_id : l.request_id ≡ caps_id
  pub method : l.method ≡ req.cors.method
  pub path : l.path ≡ req.path
  pub status : l.status ≡ final_status w
  pub level : l.level ≡ level_of (final_status w)
  pub bytes : l.bytes ≡ w.bytes
  pub duration : l.duration_ms ≡ elapsed

pub perform-Fits :
    (calls : List Call) (s : Serving)
    → All IsFinal calls
    → Fits s
    → Fits (perform calls s) × ((perform calls s).wire ≡ run_wire calls s.wire)
unfolding perform
perform-Fits calls s final f =
    let (same, a) = run_recorder-Agrees calls (f.recorder, s.wire) final f.agrees in
    rw f.installed (
      record {
        recorder = (run_recorder calls (f.recorder, s.wire)).0;
        installed = refl;
        agrees = a;
        unlogged = f.unlogged;
      },
      same,
    )

pub response_started-wire : (s : Serving) → Fits s → response_started s ≡ is_some s.wire.status
unfolding response_started written
response_started-wire s f = rw f.installed f.agrees.begun

pub summarize_lem :
    (r : Recorder) (elapsed : ℕ) (req : Request) (id : String) (t : Ended × Serving)
    → t.0 ≡ returned
    → Fits t.1
    → ((summarize r elapsed req id t).0 ≡ returned)
      × ((summarize r elapsed req id t).1.wire ≡ t.1.wire)
      × (l : Line) × ((summarize r elapsed req id t).1.lines ≡ l ∷ [])
      × IsSummary id req elapsed t.1.wire l
summarize_lem r elapsed req id (returned, s) done f =
    let mine : recorder_or r s.recorder ≡ f.recorder = ap (recorder_or r) f.installed in
    let status : (recorder_or r s.recorder).status ≡ final_status s.wire =
      ap (λ (q : Recorder). q.status) mine ∙ f.agrees.status in
    (
      refl,
      refl,
      line_of (recorder_or r s.recorder) elapsed req id,
      ap (λ ls. ls ++ line_of (recorder_or r s.recorder) elapsed req id ∷ []) f.unlogged,
      record {
        request_id = refl;
        method = refl;
        path = refl;
        status = status;
        level = ap level_of status;
        bytes = ap (λ (q : Recorder). q.bytes) mine ∙ f.agrees.bytes;
        duration = refl;
      },
    )
summarize_lem r elapsed req id (Ended.panicked v, s) done f = cc done
summarize_lem r elapsed req id (Ended.aborted, s) done f = cc done

-- The writer and the log that the next handler starts with.
pub middleware-Fits :
    (caps : Capabilities) (s : Serving) (id : String)
    → s.wire ≡ fresh_wire
    → s.lines ≡ []
    → Fits (record s {
      headers = set_header "X-Request-Id" id s.headers;
      recorder = some (wrap_response_writer caps).0;
    })
middleware-Fits caps s id fresh unlogged =
    let (a, _) = wrap_response_writer-Agrees caps in
    record {
      recorder = (wrap_response_writer caps).0;
      installed = refl;
      agrees = subst (λ (w : Wire). Agrees ((wrap_response_writer caps).0, w)) (sym fresh) a;
      unlogged = unlogged;
    }
