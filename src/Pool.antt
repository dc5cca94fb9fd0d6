-- ===== src/Pool.antt =====
-- backend/internal/db/pool.go: the pool's settings and its first connection. github.com/jackc/pgx/v5 is
-- not in the repository: `parse_config` is pgxpool.ParseConfig, with `none` for its error, `connect`
-- is NewWithConfig, and `ping` the check that a new pool answers. `to_lower` is strings.ToLower. Times
-- are nanoseconds.
use ai_it_dab_com.Prelude.{
  ℕ, suc, ◌*◌, String, ◌≡◌, refl, Bool, true, Bool-cases, Option-cases, inl, inr, Option, none,
  some, ◌==◌, contains, trim_space, if◌then◌else◌,
}

pub record PoolConfig : Type 0 where
  pub max_conns : ℕ
  pub min_conns : ℕ
  pub max_conn_lifetime : ℕ
  pub max_conn_idle_time : ℕ
  pub health_check_period : ℕ

-- The errors of New.
pub data Failure : Type 0 where
  empty_url invalid_url creating_pool connectivity_check : Failure

pub data Opened (Handle : Type 0) : Type 0 where
  opened : Handle → Opened Handle
  refused : Failure → Opened Handle

abbrev second : ℕ
second = 1000000000

-- The setting of the DSN, where it names it, and the default otherwise.
abbrev or_default : (dsn name : String) → ℕ → ℕ → ℕ
or_default dsn name set def = if contains dsn name then set else def

module _ (to_lower : String → String) (parse_config : String → Option PoolConfig) where
  abbrev pub with_defaults : String → PoolConfig → PoolConfig
  with_defaults low cfg = record {
    max_conns = or_default low "pool_max_conns" cfg.max_conns 10;
    min_conns = or_default low "pool_min_conns" cfg.min_conns 0;
    max_conn_lifetime =
        or_default low "pool_max_conn_lifetime" cfg.max_conn_lifetime (1800 * second);
    max_conn_idle_time =
        or_default low "pool_max_conn_idle_time" cfg.max_conn_idle_time (300 * second);
    health_check_period =
        or_default low "pool_health_check_period" cfg.health_check_period (60 * second);
  }

  abbrev of_parsed : String → Option PoolConfig → Option PoolConfig
  of_parsed dsn none = none
  of_parsed dsn (some cfg) = some (with_defaults (to_lower dsn) cfg)

  -- buildPoolConfig: the configuration, or the error
  unfoldable pub build_pool_config : String → Option PoolConfig
  build_pool_config dsn = if trim_space dsn == "" then none else of_parsed dsn (parse_config dsn)

  abbrev pub config_failure : String → Failure
  config_failure dsn = if trim_space dsn == "" then empty_url else invalid_url

  -- connectivityContext: the bound on the check, 5 seconds where the caller's context has no deadline.
  pub connectivity_bound : (deadline : Option ℕ) → ℕ
  connectivity_bound none = 5 * second
  connectivity_bound (some left) = left

  module _ {Handle : Type 0} (connect : PoolConfig → Option Handle) (ping : Handle → Bool) where
    -- The number of pools that are open stands beside the result: one that does not answer is closed.
    abbrev pinged : Handle → ℕ → Opened Handle × ℕ
    pinged h open_ = if ping h then (opened h, suc open_) else (refused connectivity_check, open_)

    abbrev connected : Option Handle → ℕ → Opened Handle × ℕ
    connected none open_ = (refused creating_pool, open_)
    connected (some h) open_ = pinged h open_

    abbrev configured : String → Option PoolConfig → ℕ → Opened Handle × ℕ
    configured dsn none open_ = (refused (config_failure dsn), open_)
    configured dsn (some cfg) open_ = connected (connect cfg) open_

    unfoldable pub new : String → ℕ → Opened Handle × ℕ
    new dsn open_ = configured dsn (build_pool_config dsn) open_

    -- One more pool is open after New returns one, and none more after an error.
    abbrev IsCounted : ℕ → Opened Handle × ℕ → Type 0
    IsCounted open_ (opened h, n) = (n ≡ suc open_) × (ping h ≡ true)
    IsCounted open_ (refused e, n) = n ≡ open_

    -- New returns a pool that answers, and leaves no pool open with an error.
    pub new-IsCounted : (dsn : String) (open_ : ℕ) → IsCounted open_ (new dsn open_)
    unfolding new
    new-IsCounted dsn open_ = elim (Option-cases (build_pool_config dsn)) [
      | inl bad ↦ rw bad refl
      | inr (cfg, good) ↦ elim (Option-cases (connect cfg)) [
        | inl down ↦ rw (good, down) refl
        | inr (h, made) ↦ elim (Bool-cases (ping h)) [
          | inl answers ↦ rw (good, made, answers) (refl, answers)
          | inr silent ↦ rw (good, made, silent) refl
        ]
      ]
    ]
