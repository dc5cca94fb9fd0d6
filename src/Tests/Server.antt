-- ===== src/Tests/Server.antt =====
-- The configuration, the base chain.
use native.Mathlib.Decide.{dec_lt}
use ai_it_dab_com.Prelude.{
  String, ◌≡◌, ◌↔◌, refl, true, false, Option, none, some, is_some, List, [], ◌∷◌, ◌==◌,
  if◌then◌else◌, trim_space, contains, concat, split,
}
use ai_it_dab_com.Prelude.Int.{ℤ}
use ai_it_dab_com.Prelude.Strconv.{atoi, format}
use ai_it_dab_com.Config.{
  database_url, vllm_url, vllm_api_key, jwt_secret, port, Environment, Url, Config, load, loaded,
  checked_config, resolve_listen_addr, require_non_empty, validate_database_url, validate_http_url,
  parse_bool_default, parse_int_default, parse_duration_default, getenv_default, split_csv,
}
use ai_it_dab_com.Config.Laws.{IsValid, load-IsValid}
use ai_it_dab_com.Config.Offenders.{offenders, reported, reported-load}
use ai_it_dab_com.Cors.{is_preflight}
use ai_it_dab_com.Log.Recorder.{
  Recorder, Capabilities, Call, header_call, write_call, flush_call, run_recorder, run_wire,
  fresh_wire, final_status, written,
}
use ai_it_dab_com.Log.Recorder.Laws.{run_recorder-IsRefinement}
use ai_it_dab_com.Log.Middleware.{Request, Line, Serving, Ended, returned, panicked, id_of}
use ai_it_dab_com.Log.Middleware.Laws.{IsSummary}
use ai_it_dab_com.HttpServer.{router_handler}
use ai_it_dab_com.HttpServer.Laws.{response, identified, router_handler_lem}

abbrev environment : Environment
environment database_url = " postgres://db/app "
environment vllm_url = "http://vllm"
environment vllm_api_key = "key"
environment jwt_secret = "s3cret"
environment port = "8081"
environment v = ""

-- The port is out of range, the key is blank, and the URL is not http(s).
abbrev bad_environment : Environment
bad_environment database_url = "postgres://db/app"
bad_environment vllm_url = "ftp://vllm"
bad_environment jwt_secret = "s3cret"
bad_environment port = "70000"
bad_environment v = ""

abbrev parse_url : String → Option Url
parse_url raw =
    if raw == "http://vllm"
    then some (record { scheme = "http"; host = "vllm" })
    else if raw == "ftp://vllm"
    then some (record { scheme = "ftp"; host = "vllm" })
    else if raw == "postgres://db/app"
    then some (record { scheme = "postgres"; host = "db" })
    else none

abbrev no_duration : String → Option ℤ
no_duration s = none

abbrev pub config : Config
config = record {
  env = "development";
  listen_addr = ":8081";
  log_level = "info";
  database_url = "postgres://db/app";
  auto_migrate = false;
  vllm_url = "http://vllm";
  vllm_api_key = "key";
  jwt_secret = "s3cret";
  cors_allowed_origins = [];
  shutdown_grace = 10000000000;
  login_rate_limit = record { requests_per_minute = 10; burst = 5 };
  gateway_rate_limit = record { requests_per_minute = 120; burst = 40 };
}

load-IsValid_example : IsValid parse_url no_duration environment config
unfolding load checked_config resolve_listen_addr require_non_empty validate_database_url
    validate_http_url parse_bool_default parse_int_default parse_duration_default getenv_default
    split_csv atoi format trim_space contains concat dec_lt split
load-IsValid_example = load-IsValid parse_url no_duration environment {c = config} refl

reported-load_example :
    (reported (load parse_url no_duration bad_environment)
      ≡ offenders parse_url no_duration bad_environment)
    × ((offenders parse_url no_duration bad_environment ≡ [])
        ↔ ((c : Config) × (load parse_url no_duration bad_environment ≡ loaded c)))
reported-load_example = reported-load parse_url no_duration bad_environment

bad_environment-offenders :
    offenders parse_url no_duration bad_environment ≡ port ∷ vllm_api_key ∷ vllm_url ∷ []
unfolding trim_space atoi contains
bad_environment-offenders = refl

abbrev streamed : List Call
streamed = header_call 201 ∷ write_call "data" 4 ∷ flush_call ∷ header_call 500 ∷ []

abbrev new_recorder : Recorder
new_recorder = record { status = 200; bytes = 0; wrote_header = false }

run_recorder-IsRefinement_example :
    ((run_recorder streamed (new_recorder, fresh_wire)).1 ≡ run_wire streamed fresh_wire)
    × ((run_recorder streamed (new_recorder, fresh_wire)).0.status
        ≡ final_status (run_wire streamed fresh_wire))
    × ((run_recorder streamed (new_recorder, fresh_wire)).0.bytes
        ≡ (run_wire streamed fresh_wire).bytes)
    × (written (run_recorder streamed (new_recorder, fresh_wire)).0
        ≡ is_some (run_wire streamed fresh_wire).status)
run_recorder-IsRefinement_example =
    run_recorder-IsRefinement streamed (new_recorder, fresh_wire) (refl, (tt, (tt, (refl, tt))))
      (record { status = refl; bytes = refl; begun = refl })

abbrev caps : Capabilities
caps = record { can_flush = true; can_hijack = false }

abbrev get_request : Request
get_request = record {
  cors = record { method = "GET"; origin = ""; request_method = ""; request_headers = "" };
  path = "/v1";
  request_id = "";
  context_id = "";
}

abbrev panics : Request → List Call × Ended
panics r = ([], panicked "boom")

abbrev serving : Serving
serving = record { headers = []; wire = fresh_wire; recorder = none; lines = []; panics = [] }

router_handler_lem_example :
    let (ended, t) = router_handler caps (some (7 ∷ [])) "" 3 [] panics get_request serving in
    (ended ≡ returned)
    × (t.wire
        ≡ response
            (is_preflight get_request.cors)
            (panics (identified get_request (some (7 ∷ [])) "")))
    × (l : Line) × (t.lines ≡ l ∷ [])
    × IsSummary (id_of get_request (some (7 ∷ [])) "") get_request 3 t.wire l
router_handler_lem_example =
    router_handler_lem caps (some (7 ∷ [])) "" 3 [] panics get_request serving tt (λ e. cc e) refl
      refl
