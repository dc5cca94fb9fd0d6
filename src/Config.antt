-- ===== src/Config.antt =====
-- backend/internal/config/config.go: the configuration from the environment. The environment is a
-- function, which gives "" for a variable that is not set. `parse_url` is url.Parse and
-- `parse_duration` is time.ParseDuration in nanoseconds, each with `none` for its error. A helper
-- gives its value with the errors that it appends to the list.
pub mod Checks
pub mod Laws
pub mod Offenders
use ai_it_dab_com.Prelude.{
  ℕ, ◌*◌, String, Bool, true, false, not, ◌&&◌, ◌||◌, Option, none, some, List, [], ◌∷◌, ◌++◌, ◌==◌,
  leb, if◌then◌else◌, trim_space, split, contains, concat,
}
use ai_it_dab_com.Prelude.Int.{ℤ, pos, negsuc}
use ai_it_dab_com.Prelude.Strconv.{atoi, parse_bool, format}

-- The variables that Load reads: EnvKeys.
pub data Variable : Type 0 where
  app_env listen_addr port log_level database_url auto_migrate vllm_url vllm_api_key : Variable
  jwt_secret cors_allowed_origins shutdown_grace : Variable
  login_rate_rpm login_rate_burst gateway_rate_rpm gateway_rate_burst : Variable

abbrev pub Environment : Type 0
Environment = Variable → String

pub record Url : Type 0 where
  pub scheme : String
  pub host : String

pub record RateLimit : Type 0 where
  pub requests_per_minute : ℕ
  pub burst : ℕ

pub record Config : Type 0 where
  pub env : String
  pub listen_addr : String
  pub log_level : String
  pub database_url : String
  pub auto_migrate : Bool
  pub vllm_url : String
  pub vllm_api_key : String
  pub jwt_secret : String
  pub cors_allowed_origins : List String
  pub shutdown_grace : ℕ
  pub login_rate_limit : RateLimit
  pub gateway_rate_limit : RateLimit

-- The messages of the validation.
pub data Message : Type 0 where
  bad_port : String → Message
  required : Message
  unparseable_dsn : Message
  dsn_scheme : String → Message
  missing_host : Message
  unparseable_url : Message
  url_scheme : String → Message
  missing_host_in : String → Message
  not_boolean : String → Message
  not_integer : String → Message
  not_duration : String → Message

-- An error of the validation, which names the variable.
pub record Problem : Type 0 where
  pub variable : Variable
  pub message : Message

abbrev pub Checked : Type 0 → Type 0
Checked A = A × List Problem

abbrev pub valid : {A : Type 0} → A → Checked A
valid a = (a, [])

abbrev pub problem : {A : Type 0} → Variable → Message → A → Checked A
problem v m a = (a, record { variable = v; message = m } ∷ [])

infixl 5 ◌>>=◌ ◌>>◌
abbrev pub ◌>>=◌ : {A B : Type 0} → Checked A → (A → Checked B) → Checked B
◌>>=◌ m f = let (a, errs) = m in let (b, errs') = f a in (b, errs ++ errs')

abbrev pub ◌>>◌ : {A B : Type 0} → Checked A → Checked B → Checked B
m >> n = m >>= λ _. n

abbrev default_listen_addr : String
default_listen_addr = ":8080"

-- The value of the text, where it is an integer of 0 or more.
abbrev pub natural : Option ℤ → Option ℕ
natural (some (pos n)) = some n
natural (some (negsuc n)) = none
natural none = none

abbrev of_port : String → Option ℕ → Checked String
of_port text none = problem port (bad_port text) default_listen_addr
of_port text (some n) =
    if leb 1 n && leb n 65535
    then valid (concat (":" ∷ format n ∷ []))
    else problem port (bad_port text) default_listen_addr

abbrev pub keep_or : {A : Type 0} → Variable → Message → A → Option A → Checked A
keep_or v m def none = problem v m def
keep_or v m def (some a) = valid a

abbrev pub non_blank : List String → List String
non_blank [] = []
non_blank (p ∷ ps) =
    let rest = non_blank ps in let t = trim_space p in if not (t == "") then t ∷ rest else rest

unfoldable pub split_csv : String → List String
split_csv s = non_blank (split 44 s)

module _ (environ : Environment) where
  -- `strings.TrimSpace(os.Getenv(key))`
  abbrev pub trimmed : Variable → String
  trimmed v = trim_space (environ v)

  unfoldable pub resolve_listen_addr : Checked String
  resolve_listen_addr =
      let addr = trimmed listen_addr in
      let text = trimmed port in
      if not (addr == "")
      then valid addr
      else if text == ""
      then valid default_listen_addr
      else of_port text (natural (atoi text))

  unfoldable pub getenv_default : Variable → String → String
  getenv_default v def = if not (trimmed v == "") then trimmed v else def

  unfoldable pub require_non_empty : Variable → Checked String
  require_non_empty v =
      if trimmed v == "" then problem v required (trimmed v) else valid (trimmed v)

  unfoldable pub parse_bool_default : Variable → Bool → Checked Bool
  parse_bool_default v def =
      if trimmed v == ""
      then valid def
      else keep_or v (not_boolean (trimmed v)) def (parse_bool (trimmed v))

  unfoldable pub parse_int_default : Variable → ℕ → Checked ℕ
  parse_int_default v def =
      if trimmed v == ""
      then valid def
      else keep_or v (not_integer (trimmed v)) def (natural (atoi (trimmed v)))

  module _ (parse_duration : String → Option ℤ) where
    unfoldable pub parse_duration_default : Variable → ℕ → Checked ℕ
    parse_duration_default v def =
        if trimmed v == ""
        then valid def
        else keep_or v (not_duration (trimmed v)) def (natural (parse_duration (trimmed v)))

module _ (parse_url : String → Option Url) where
  abbrev of_dsn : Option Url → Checked (Unit {0})
  of_dsn none = problem database_url unparseable_dsn tt
  of_dsn (some u) =
      if not (u.scheme == "postgres" || u.scheme == "postgresql")
      then problem database_url (dsn_scheme u.scheme) tt
      else if u.host == ""
      then problem database_url missing_host tt
      else valid tt

  unfoldable pub validate_database_url : String → Checked (Unit {0})
  validate_database_url raw = if not (contains raw "://") then valid tt else of_dsn (parse_url raw)

  abbrev of_url : Variable → String → Option Url → Checked (Unit {0})
  of_url v raw none = problem v unparseable_url tt
  of_url v raw (some u) =
      if not (u.scheme == "http" || u.scheme == "https")
      then problem v (url_scheme u.scheme) tt
      else if u.host == ""
      then problem v (missing_host_in raw) tt
      else valid tt

  unfoldable pub validate_http_url : Variable → String → Checked (Unit {0})
  validate_http_url v raw = of_url v raw (parse_url raw)

-- Load's result: the configuration, or the aggregated error.
pub data Loaded : Type 0 where
  loaded : Config → Loaded
  invalid : List Problem → Loaded

abbrev pub finish : Checked Config → Loaded
finish (cfg, []) = loaded cfg
finish (cfg, e ∷ errs) = invalid (e ∷ errs)

abbrev pub unless_empty : String → Checked (Unit {0}) → Checked (Unit {0})
unless_empty v check = if not (v == "") then check else valid tt

module _ (parse_url : String → Option Url) (parse_duration : String → Option ℤ) where
  module _ (environ : Environment) where
    abbrev pub rate_limit : Variable → ℕ → Variable → ℕ → Checked RateLimit
    rate_limit rpm default_rpm burst default_burst = do
      n ← parse_int_default environ rpm default_rpm
      m ← parse_int_default environ burst default_burst
      valid (record { requests_per_minute = n; burst = m })

    unfoldable pub checked_config : Checked Config
    checked_config = do
      addr ← resolve_listen_addr environ
      dsn ← require_non_empty environ database_url
      api_key ← require_non_empty environ vllm_api_key
      secret ← require_non_empty environ jwt_secret
      url ← require_non_empty environ vllm_url
      unless_empty url (validate_http_url parse_url vllm_url url)
      unless_empty dsn (validate_database_url parse_url dsn)
      migrate ← parse_bool_default environ auto_migrate false
      grace ← parse_duration_default environ parse_duration shutdown_grace (10 * 1000000000)
      login ← rate_limit login_rate_rpm 10 login_rate_burst 5
      gateway ← rate_limit gateway_rate_rpm 120 gateway_rate_burst 40
      valid (record {
        env = getenv_default environ app_env "development";
        listen_addr = addr;
        log_level = getenv_default environ log_level "info";
        database_url = dsn;
        auto_migrate = migrate;
        vllm_url = url;
        vllm_api_key = api_key;
        jwt_secret = secret;
        cors_allowed_origins = split_csv (environ cors_allowed_origins);
        shutdown_grace = grace;
        login_rate_limit = login;
        gateway_rate_limit = gateway;
      })

    unfoldable pub load : Loaded
    load = finish checked_config
