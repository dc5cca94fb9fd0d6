-- ===== src/Server.antt =====
-- backend/cmd/server/main.go: the start and the shutdown of the server, as the trace of what is done to
-- the pool, the listener and the HTTP server. What these answer is given: the configuration, whether
-- the pool connects, the migrations' result, the listener's, which of the two channels the select
-- receives from first, and what Shutdown returns. An error is its text. The log lines are left out.
pub mod Laws
use ai_it_dab_com.Prelude.{
  ℕ, String, Bool, true, false, Option, none, some, List, [], ◌∷◌, ◌++◌, ◌==◌, concat,
  if◌then◌else◌,
}
use ai_it_dab_com.Config.{Config}

pub data Event : Type 0 where
  pool_opened : Event
  migrated : Event
  bound : (addr : String) → Event
  serving : Event
  -- http.Server.Shutdown has returned, and Close after it failed
  shutdown_returned : Event
  forced_close : Event
  -- the Serve goroutine has ended
  serve_returned : Event
  pool_closed : Event

-- The error of Serve, which always returns one.
pub data ServeError : Type 0 where
  server_closed : ServeError
  serve_failed : String → ServeError

-- What the select receives.
pub data Wake : Type 0 where
  served : ServeError → Wake
  signalled : Wake

-- What run's calls answer, `none` for success where it is an Option String.
pub record Answers : Type 0 where
  pub config : Option Config
  pub config_error : String
  pub connect : Option String
  pub migrate : Option String
  pub listen : Option String
  pub wake : Wake
  pub shutdown : Option String

pub record Outcome : Type 0 where
  pub trace : List Event
  pub failure : Option String

-- `return nil` for http.ErrServerClosed
abbrev pub serve_failure : ServeError → Option String
serve_failure server_closed = none
serve_failure (serve_failed e) = some e

abbrev drained : Option String → Outcome
drained (some e) = record {
  trace = shutdown_returned ∷ forced_close ∷ serve_returned ∷ [];
  failure = some e;
}
drained none = record { trace = shutdown_returned ∷ serve_returned ∷ []; failure = none }

abbrev awake : Wake → Option String → Outcome
awake (served e) shutdown = record { trace = serve_returned ∷ []; failure = serve_failure e }
awake signalled shutdown = drained shutdown

-- The deferred pool.Close runs last.
abbrev closing_pool : Outcome → Outcome
closing_pool o = record o { trace = o.trace ++ pool_closed ∷ [] }

unfoldable pub run_server : Wake → (shutdown : Option String) → Outcome
run_server wake shutdown =
    let o = awake wake shutdown in closing_pool (record o { trace = serving ∷ o.trace })

abbrev pub listen_addr_of : Config → String
listen_addr_of cfg = if cfg.listen_addr == "" then ":8080" else cfg.listen_addr

abbrev after : List Event → Outcome → Outcome
after done o = record o { trace = done ++ o.trace }

-- `pool.Close()` before the return of an error
abbrev give_up : List String → Outcome
give_up message = record { trace = pool_closed ∷ []; failure = some (concat message) }

abbrev listened : Config → Answers → Option String → Outcome
listened cfg a (some e) = give_up ("listen on " ∷ listen_addr_of cfg ∷ ": " ∷ e ∷ [])
listened cfg a none = after (bound (listen_addr_of cfg) ∷ []) (run_server a.wake a.shutdown)

abbrev migrated_or : Config → Answers → Option String → Outcome
migrated_or cfg a (some e) = give_up ("migrations: " ∷ e ∷ [])
migrated_or cfg a none = after (migrated ∷ []) (listened cfg a a.listen)

abbrev connected : Config → Answers → Option String → Outcome
connected cfg a (some e) = record { trace = []; failure = some (concat ("database: " ∷ e ∷ [])) }
connected cfg a none =
    after (pool_opened ∷ [])
      (if cfg.auto_migrate then migrated_or cfg a a.migrate else listened cfg a a.listen)

abbrev configured : Answers → Option Config → Outcome
configured a none = record { trace = []; failure = some a.config_error }
configured a (some cfg) = connected cfg a a.connect

unfoldable pub run : Answers → Outcome
run a = configured a a.config

-- main's exit status
pub exit_code : Outcome → ℕ
exit_code o = elim o.failure [ none ↦ 0 | some e ↦ 1 ]
