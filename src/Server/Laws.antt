-- ===== src/Server/Laws.antt =====
-- backend/cmd/server/main.go: the pool's life, and the order of the shutdown.
use ai_it_dab_com.Prelude.{
  String, ◌≡◌, ◌⊎◌, refl, ap, Bool-cases, Bool, true, false, Option, none, some, List, [], ◌∷◌,
  ◌++◌, any, inl, inr,
}
use ai_it_dab_com.Config.{Config}
use ai_it_dab_com.Server.{
  Event, pool_opened, migrated, bound, serving, shutdown_returned, forced_close, serve_returned,
  pool_closed, serve_failure, Wake, served, signalled, Answers, Outcome, run_server, listen_addr_of,
  listened, migrated_or, connected, configured, run,
}

abbrev pub is_pool : Event → Bool
is_pool pool_opened = true
is_pool pool_closed = true
is_pool e = false

abbrev pub is_serving : Event → Bool
is_serving serving = true
is_serving e = false

-- How a server that serves is brought to its end, for what woke it and what Shutdown returns: the
-- events since, and run's error. After a signal Shutdown returns before the Serve goroutine is waited
-- for, with a forced Close in between where the drain failed.
abbrev pub IsStopped : Wake → Option String → List Event → Option String → Type 0
IsStopped (served e) shutdown since failure =
    (since ≡ serve_returned ∷ []) × (failure ≡ serve_failure e)
IsStopped signalled none since failure =
    (since ≡ shutdown_returned ∷ serve_returned ∷ []) × (failure ≡ none)
IsStopped signalled (some e) since failure =
    (since ≡ shutdown_returned ∷ forced_close ∷ serve_returned ∷ []) × (failure ≡ some e)

-- What run does between the opening of the pool and its close: it fails before the server serves, or
-- the server serves and is stopped.
abbrev pub IsUsed : Wake → Option String → List Event → Option String → Type 0
IsUsed wake shutdown mid failure =
    ((any is_serving mid ≡ false) × ((e : String) × (failure ≡ some e)))
    ⊎ ((before : List Event) × (since : List Event) × (mid ≡ before ++ serving ∷ since)
        × (any is_serving before ≡ false)
        × IsStopped wake shutdown since failure)

-- The outcome with a pool that is open: it is closed once, and last.
abbrev IsReleased : Wake → Option String → Outcome → Type 0
IsReleased wake shutdown o =
    (mid : List Event) × (o.trace ≡ mid ++ pool_closed ∷ [])
    × (any is_pool mid ≡ false)
    × IsUsed wake shutdown mid o.failure

run_server-IsReleased : (w : Wake) (s : Option String) → IsReleased w s (run_server w s)
unfolding run_server
run_server-IsReleased (served e) s = (
  serving ∷ serve_returned ∷ [],
  refl,
  refl,
  inr ([], serve_returned ∷ [], refl, refl, (refl, refl)),
)
run_server-IsReleased signalled none = (
  serving ∷ shutdown_returned ∷ serve_returned ∷ [],
  refl,
  refl,
  inr ([], shutdown_returned ∷ serve_returned ∷ [], refl, refl, (refl, refl)),
)
run_server-IsReleased signalled (some e) = (
  serving ∷ shutdown_returned ∷ forced_close ∷ serve_returned ∷ [],
  refl,
  refl,
  inr ([], shutdown_returned ∷ forced_close ∷ serve_returned ∷ [], refl, refl, (refl, refl)),
)

-- One more event before, neither of the pool nor the start of serving.
preceded :
    (wake : Wake) (shutdown : Option String) (x : Event) (o : Outcome)
    → is_pool x ≡ false
    → is_serving x ≡ false
    → IsReleased wake shutdown o
    → IsReleased wake shutdown (record o { trace = x ∷ o.trace })
preceded wake shutdown x o calm idle (mid, same, quiet, inl (unserved, failed)) =
    (x ∷ mid, ap (λ t. x ∷ t) same, rw calm quiet, inl (rw idle unserved, failed))
preceded wake shutdown x o calm idle (mid, same, quiet, inr (before, since, cut, early, stopped)) =
    (
      x ∷ mid,
      ap (λ t. x ∷ t) same,
      rw calm quiet,
      inr (x ∷ before, since, ap (λ t. x ∷ t) cut, rw idle early, stopped),
    )

listened-IsReleased :
    (cfg : Config) (a : Answers) (l : Option String)
    → IsReleased a.wake a.shutdown (listened cfg a l)
listened-IsReleased cfg a (some e) = ([], refl, refl, inl (refl, (_, refl)))
listened-IsReleased cfg a none =
    preceded a.wake a.shutdown (bound (listen_addr_of cfg)) (run_server a.wake a.shutdown) refl refl
      (run_server-IsReleased a.wake a.shutdown)

migrated_or-IsReleased :
    (cfg : Config) (a : Answers) (m : Option String)
    → IsReleased a.wake a.shutdown (migrated_or cfg a m)
migrated_or-IsReleased cfg a (some e) = ([], refl, refl, inl (refl, (_, refl)))
migrated_or-IsReleased cfg a none =
    preceded a.wake a.shutdown migrated (listened cfg a a.listen) refl refl
      (listened-IsReleased cfg a a.listen)

-- Either no pool was opened, nothing was done and run failed, or the pool was opened first.
abbrev IsKept : Answers → Outcome → Type 0
IsKept a o =
    ((o.trace ≡ []) × ((e : String) × (o.failure ≡ some e)))
    ⊎ ((mid : List Event) × (o.trace ≡ pool_opened ∷ (mid ++ pool_closed ∷ []))
        × (any is_pool mid ≡ false)
        × IsUsed a.wake a.shutdown mid o.failure)

opened :
    (a : Answers) (o : Outcome)
    → IsReleased a.wake a.shutdown o
    → IsKept a (record o { trace = pool_opened ∷ o.trace })
opened a o (mid, same, quiet, used) = inr (mid, ap (λ t. pool_opened ∷ t) same, quiet, used)

connected-IsKept : (cfg : Config) (a : Answers) (c : Option String) → IsKept a (connected cfg a c)
connected-IsKept cfg a (some e) = inl (refl, (_, refl))
connected-IsKept cfg a none = elim (Bool-cases cfg.auto_migrate) [
  | inl on ↦ rw on (opened a (migrated_or cfg a a.migrate) (migrated_or-IsReleased cfg a a.migrate))
  | inr off ↦ rw off (opened a (listened cfg a a.listen) (listened-IsReleased cfg a a.listen))
]

configured-IsKept : (a : Answers) (c : Option Config) → IsKept a (configured a c)
configured-IsKept a none = inl (refl, (_, refl))
configured-IsKept a (some cfg) = connected-IsKept cfg a a.connect

-- On every path of run the pool is closed exactly once when it was opened, as the last thing that is
-- done; when it was not opened, nothing was bound or served, and run failed. Where the server did not
-- serve, run failed. Where it did, the Serve goroutine has ended before the pool is closed: by itself,
-- and then run returns its error unless it is ErrServerClosed; or after a signal, once Shutdown has
-- returned (and, where its drain failed, Close), and then run returns Shutdown's error, if any.
pub run-pool :
    (a : Answers)
    → ((run a).trace ≡ []) × ((e : String) × ((run a).failure ≡ some e))
      ⊎ ((mid : List Event) × ((run a).trace ≡ pool_opened ∷ (mid ++ pool_closed ∷ []))
          × (any is_pool mid ≡ false)
          × IsUsed a.wake a.shutdown mid (run a).failure)
unfolding run
run-pool a = configured-IsKept a a.config
