-- ===== src/Config/Laws.antt =====
-- What a configuration that Load returns is good for.
use ai_it_dab_com.Prelude.{
  String, ◌≡◌, ◌≢◌, ◌⊎◌, refl, sym, ◌∙◌, true, false, not, ◌&&◌, Bool-cases, inl, inr, Option, List,
  [], ◌∷◌, ◌++◌, arith, ◌==◌, eq_iff, contains,
}
use mathlib.Core.Path.{subst}
use ai_it_dab_com.Prelude.Int.{ℤ}
use ai_it_dab_com.Prelude.Strconv.{atoi}
use ai_it_dab_com.Config.{
  Variable, database_url, vllm_url, vllm_api_key, jwt_secret, shutdown_grace, login_rate_rpm,
  login_rate_burst, gateway_rate_rpm, gateway_rate_burst, Environment, Url, Config, loaded, trimmed,
  require_non_empty, validate_database_url, validate_http_url, unless_empty, checked_config, load,
}
use ai_it_dab_com.Config.Checks
use ai_it_dab_com.Config.Offenders.{finish_ok, unless-http, unless-database}

both_empty : {A : Type 0} {xs ys : List A} → xs ++ ys ≡ [] → (xs ≡ []) × (ys ≡ [])
both_empty {xs = []} h = (refl, h)
both_empty {xs = x ∷ xs} h = cc h

-- A configuration that is fit to run with, in the environment that it came from.
pub record IsValid (parse_url : String → Option Url) (parse_duration : String → Option ℤ)
    (e : Environment) (c : Config) : Type 0 where
  pub dsn : (c.database_url ≡ trimmed e database_url) × (c.database_url ≢ "")
  pub dsn_form :
      (contains c.database_url "://" ≡ false)
      ⊎ (Checks.is_url_of "postgres" "postgresql" (parse_url c.database_url) ≡ true)
  pub api_key : (c.vllm_api_key ≡ trimmed e vllm_api_key) × (c.vllm_api_key ≢ "")
  pub secret : (c.jwt_secret ≡ trimmed e jwt_secret) × (c.jwt_secret ≢ "")
  pub url : (c.vllm_url ≡ trimmed e vllm_url) × (c.vllm_url ≢ "")
  pub url_form : Checks.is_url_of "http" "https" (parse_url c.vllm_url) ≡ true
  pub address : Checks.IsListenAddr e c.listen_addr
  pub grace : Checks.IsNumberOr parse_duration e shutdown_grace 10000000000 c.shutdown_grace
  pub login_rpm : Checks.IsNumberOr atoi e login_rate_rpm 10 c.login_rate_limit.requests_per_minute
  pub login_burst : Checks.IsNumberOr atoi e login_rate_burst 5 c.login_rate_limit.burst
  pub gateway_rpm :
      Checks.IsNumberOr atoi e gateway_rate_rpm 120 c.gateway_rate_limit.requests_per_minute
  pub gateway_burst : Checks.IsNumberOr atoi e gateway_rate_burst 40 c.gateway_rate_limit.burst

module _ (parse_url : String → Option Url) (parse_duration : String → Option ℤ)
    (e : Environment) where
  required_value :
      (v : Variable)
      → (require_non_empty e v).1 ≡ []
      → ((require_non_empty e v).0 ≡ trimmed e v) × ((require_non_empty e v).0 ≢ "")
  required_value v h =
      (Checks.require_value e v, λ x. Checks.require_ok e v h (sym (Checks.require_value e v) ∙ x))

  http_form :
      (require_non_empty e vllm_url).1 ≡ []
      → (let v = (require_non_empty e vllm_url).0 in
          (unless_empty v (validate_http_url parse_url vllm_url v)).1 ≡ [])
      → Checks.is_url_of "http" "https" (parse_url (trimmed e vllm_url)) ≡ true
  http_form given h =
      let raw = trimmed e vllm_url in
      let h' = rw (Checks.require_value e vllm_url) at h in
      let fine =
        Checks.named_none parse_url
          (not (raw == "") && not (Checks.is_url_of "http" "https" (parse_url raw))) vllm_url
          (unless_empty raw (validate_http_url parse_url vllm_url raw)).1
          (unless-http parse_url parse_duration e vllm_url raw) h' in
      ground (arith, eq_iff raw "", Checks.require_ok e vllm_url given)

  dsn_form :
      (require_non_empty e database_url).1 ≡ []
      → (let v = (require_non_empty e database_url).0 in
          (unless_empty v (validate_database_url parse_url v)).1 ≡ [])
      → (contains (trimmed e database_url) "://" ≡ false)
        ⊎ (Checks.is_url_of "postgres" "postgresql" (parse_url (trimmed e database_url)) ≡ true)
  dsn_form given h =
      let raw = trimmed e database_url in
      let h' = rw (Checks.require_value e database_url) at h in
      let fine =
        Checks.named_none parse_url
          (not (raw == "")
            && (contains raw "://"
                && not (Checks.is_url_of "postgres" "postgresql" (parse_url raw))))
          database_url (unless_empty raw (validate_database_url parse_url raw)).1
          (unless-database parse_url parse_duration e raw) h' in
      elim (Bool-cases (contains raw "://")) [
        | inl url ↦ inr (ground (arith, eq_iff raw "", Checks.require_ok e database_url given))
        | inr keywords ↦ inl keywords
      ]

  checked-IsValid :
      (checked_config parse_url parse_duration e).1 ≡ []
      → IsValid parse_url parse_duration e (checked_config parse_url parse_duration e).0
  unfolding checked_config
  checked-IsValid h =
      let (addr, h1) = both_empty h in
      let (dsn, h2) = both_empty h1 in
      let (key, h3) = both_empty h2 in
      let (secret, h4) = both_empty h3 in
      let (url, h5) = both_empty h4 in
      let (http, h6) = both_empty h5 in
      let (database, h7) = both_empty h6 in
      let (migrate, h8) = both_empty h7 in
      let (grace, h9) = both_empty h8 in
      let (login, h10) = both_empty h9 in
      let (gateway, h11) = both_empty h10 in
      let (login_rpm, l) = both_empty login in
      let (login_burst, l') = both_empty l in
      let (gateway_rpm, g) = both_empty gateway in
      let (gateway_burst, g') = both_empty g in
      record {
        dsn = required_value database_url dsn;
        dsn_form = rw (Checks.require_value e database_url) (dsn_form dsn database);
        api_key = required_value vllm_api_key key;
        secret = required_value jwt_secret secret;
        url = required_value vllm_url url;
        url_form = rw (Checks.require_value e vllm_url) (http_form url http);
        address = Checks.resolve_ok e addr;
        grace = Checks.parse_duration_ok e parse_duration shutdown_grace 10000000000 grace;
        login_rpm = Checks.parse_int_ok e login_rate_rpm 10 login_rpm;
        login_burst = Checks.parse_int_ok e login_rate_burst 5 login_burst;
        gateway_rpm = Checks.parse_int_ok e gateway_rate_rpm 120 gateway_rpm;
        gateway_burst = Checks.parse_int_ok e gateway_rate_burst 40 gateway_burst;
      }

  -- A configuration that Load returns has the database's DSN, both keys and the upstream's URL from
  -- the environment, trimmed and none of them blank; the URL is http(s) with a host, and a DSN in the
  -- form of a URL is a Postgres one with a host; the server listens where LISTEN_ADDR says, on a port
  -- in 1..65535 or on :8080; the grace period and each rate are 0 or more, as the variable says, or
  -- the default where it is blank.
  pub load-IsValid :
      {c : Config}
      → load parse_url parse_duration e ≡ loaded c
      → IsValid parse_url parse_duration e c
  unfolding load
  load-IsValid {c} h =
      let (same, quiet) = finish_ok (checked_config parse_url parse_duration e) h in
      subst (λ c. IsValid parse_url parse_duration e c) same (checked-IsValid quiet)
