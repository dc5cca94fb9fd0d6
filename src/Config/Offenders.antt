-- ===== src/Config/Offenders.antt =====
-- Which variables the error of Load names.
use ai_it_dab_com.Prelude.{
  String, ◌≡◌, ◌↔◌, refl, sym, ◌∙◌, ap, not, ◌&&◌, Bool-cases, inl, inr, Option, List, [], ◌∷◌,
  ◌++◌, ◌==◌, contains,
}
use mathlib.Core.List.{append-nil, append_assoc}
use ai_it_dab_com.Prelude.Int.{ℤ}
use ai_it_dab_com.Prelude.Strconv.{parse_bool}
use ai_it_dab_com.Config.{
  Variable, port, database_url, auto_migrate, vllm_url, vllm_api_key, jwt_secret, shutdown_grace,
  login_rate_rpm, login_rate_burst, gateway_rate_rpm, gateway_rate_burst, Environment, Url, Config,
  Problem, Checked, Loaded, loaded, invalid, natural, trimmed, validate_database_url,
  validate_http_url, finish, unless_empty, checked_config, load,
}
use ai_it_dab_com.Config.Checks

names-append : (xs ys : List Problem) → Checks.names (xs ++ ys) ≡ Checks.names xs ++ Checks.names ys
names-append [] ys = refl
names-append (x ∷ xs) ys = ap (λ t. x.variable ∷ t) (names-append xs ys)

-- The variables that are at fault, in the order of the checks.
abbrev pub offenders : (String → Option Url) → (String → Option ℤ) → Environment → List Variable
offenders parse_url parse_duration e =
    Checks.named_if (Checks.bad_listen_addr e) port
    ++ (Checks.named_if (trimmed e database_url == "") database_url
        ++ (Checks.named_if (trimmed e vllm_api_key == "") vllm_api_key
            ++ (Checks.named_if (trimmed e jwt_secret == "") jwt_secret
                ++ (Checks.named_if (trimmed e vllm_url == "") vllm_url
                    ++ (Checks.named_if
                          (not (trimmed e vllm_url == "")
                            && not
                                (Checks.is_url_of "http" "https" (parse_url (trimmed e vllm_url))))
                          vllm_url
                        ++ (Checks.named_if
                              (not (trimmed e database_url == "")
                                && (contains (trimmed e database_url) "://"
                                    && not (
                                        Checks.is_url_of "postgres" "postgresql"
                                          (parse_url (trimmed e database_url)))))
                              database_url
                            ++ (Checks.named_if
                                  (not (trimmed e auto_migrate == "")
                                    && Checks.is_none (parse_bool (trimmed e auto_migrate)))
                                  auto_migrate
                                ++ (Checks.named_if
                                      (not (trimmed e shutdown_grace == "")
                                        && Checks.is_none
                                            (natural (parse_duration (trimmed e shutdown_grace))))
                                      shutdown_grace
                                    ++ (Checks.named_if (Checks.bad_number e login_rate_rpm)
                                          login_rate_rpm
                                        ++ (Checks.named_if (Checks.bad_number e login_rate_burst)
                                              login_rate_burst
                                            ++ (Checks.named_if
                                                  (Checks.bad_number e gateway_rate_rpm)
                                                  gateway_rate_rpm
                                                ++ Checks.named_if
                                                    (Checks.bad_number e gateway_rate_burst)
                                                    gateway_rate_burst)))))))))))

-- The variables that the result's error names, and none for a configuration.
abbrev pub reported : Loaded → List Variable
reported (loaded c) = []
reported (invalid errs) = Checks.names errs

reported-finish : (c : Checked Config) → reported (finish c) ≡ Checks.names c.1
reported-finish (cfg, []) = refl
reported-finish (cfg, x ∷ errs) = refl

pub finish_ok :
    (c : Checked Config) {cfg : Config} → finish c ≡ loaded cfg → (c.0 ≡ cfg) × (c.1 ≡ [])
finish_ok (cfg, []) h = (cc h, refl)
finish_ok (cfg, x ∷ errs) h = cc h

finish_total : (c : Checked Config) → c.1 ≡ [] → (cfg : Config) × (finish c ≡ loaded cfg)
finish_total (cfg, []) h = (cfg, refl)
finish_total (cfg, x ∷ errs) h = cc h

names_empty : (errs : List Problem) → Checks.names errs ≡ [] → errs ≡ []
names_empty [] h = refl
names_empty (x ∷ errs) h = cc h

module _ (parse_url : String → Option Url) (parse_duration : String → Option ℤ)
    (e : Environment) where
  pub unless-http :
      (v : Variable) (raw : String)
      → Checks.names (unless_empty raw (validate_http_url parse_url v raw)).1
        ≡ Checks.named_if
            (not (raw == "") && not (Checks.is_url_of "http" "https" (parse_url raw)))
            v
  unless-http v raw = elim (Bool-cases (raw == "")) [
    | inl empty ↦ rw empty refl
    | inr given ↦ rw given (Checks.validate_http-names parse_url v raw)
  ]

  pub unless-database :
      (raw : String)
      → Checks.names (unless_empty raw (validate_database_url parse_url raw)).1
        ≡ Checks.named_if
            (not (raw == "")
              && (contains raw "://"
                  && not (Checks.is_url_of "postgres" "postgresql" (parse_url raw))))
            database_url
  unless-database raw = elim (Bool-cases (raw == "")) [
    | inl empty ↦ rw empty refl
    | inr given ↦ rw given (Checks.validate_database-names parse_url raw)
  ]

  checked_names :
      Checks.names (checked_config parse_url parse_duration e).1
      ≡ offenders parse_url parse_duration e
  unfolding checked_config
  checked_names = simp (
    names-append, Checks.resolve-names, Checks.require-names, Checks.require_value,
    Checks.parse_int-names, Checks.parse_bool-names, Checks.parse_duration-names, unless-http,
    unless-database, append-nil, append_assoc,
  )

  -- Load reports exactly the variables that are at fault, each check's once and in the order of the
  -- checks, and it returns a configuration exactly when there are none: a port outside 1..65535, a
  -- blank secret or URL, a URL of another scheme or without a host, and a boolean, a number or a
  -- duration that cannot be read or is negative.
  pub reported-load :
      (reported (load parse_url parse_duration e) ≡ offenders parse_url parse_duration e)
      × ((offenders parse_url parse_duration e ≡ [])
          ↔ ((c : Config) × (load parse_url parse_duration e ≡ loaded c)))
  unfolding load
  reported-load = (
    reported-finish (checked_config parse_url parse_duration e) ∙ checked_names,
    (
      λ none_bad.
          finish_total (checked_config parse_url parse_duration e)
            (names_empty (checked_config parse_url parse_duration e).1 (checked_names ∙ none_bad)),
      λ (c, ok).
          (let (_, quiet) = finish_ok (checked_config parse_url parse_duration e) ok in
            sym checked_names ∙ ap Checks.names quiet),
    ),
  )
