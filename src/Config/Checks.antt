-- ===== src/Config/Checks.antt =====
-- What each check of the configuration reports, and what holds of a value that it accepts.
use ai_it_dab_com.Prelude.{
  ℕ, ◌≤◌, String, ◌≡◌, ◌≢◌, ◌⊎◌, refl, Bool, true, false, not, ◌&&◌, ◌||◌, Bool-cases, Option-cases,
  inl, inr, Option, none, some, List, [], ◌∷◌, map, arith, ◌==◌, eq_iff, leb, contains, concat,
}
use ai_it_dab_com.Prelude.Int.{ℤ, pos}
use ai_it_dab_com.Prelude.Strconv.{atoi, parse_bool, format}
use ai_it_dab_com.Config.{
  Variable, port, listen_addr, database_url, Environment, Url, Problem, natural, trimmed,
  resolve_listen_addr, require_non_empty, parse_bool_default, parse_int_default,
  parse_duration_default, validate_database_url, validate_http_url,
}

-- The variables that the errors name.
abbrev pub names : List Problem → List Variable
names = map (λ p. p.variable)

abbrev pub named_if : Bool → Variable → List Variable
named_if true v = v ∷ []
named_if false v = []

abbrev pub is_none {ℓ} : {A : Type ℓ} → Option A → Bool
is_none none = true
is_none (some a) = false

natural_inv : (o : Option ℤ) {n : ℕ} → natural o ≡ some n → o ≡ some (pos n)
natural_inv none h = cc h
natural_inv (some (pos m)) h = cc h
natural_inv (some (ℤ.negsuc m)) h = cc h

abbrev pub is_port : Option ℕ → Bool
is_port none = false
is_port (some n) = leb 1 n && leb n 65535

-- The listen address is derived from a port that is none.
abbrev pub bad_listen_addr : Environment → Bool
bad_listen_addr e =
    trimmed e listen_addr == ""
    && not (trimmed e port == "")
    && not (is_port (natural (atoi (trimmed e port))))

abbrev pub is_url_of : String → String → Option Url → Bool
is_url_of s t none = false
is_url_of s t (some u) = (u.scheme == s || u.scheme == t) && not (u.host == "")

abbrev pub bad_number : Environment → Variable → Bool
bad_number e v = not (trimmed e v == "") && is_none (natural (atoi (trimmed e v)))

-- The listen address comes from LISTEN_ADDR, from a port in 1..65535, or is the default.
abbrev pub IsListenAddr : Environment → String → Type 0
IsListenAddr e addr =
    ((addr ≡ trimmed e listen_addr) × (addr ≢ ""))
    ⊎ (((n : ℕ) × (1 ≤ n)
          × (n ≤ 65535)
          × (atoi (trimmed e port) ≡ some (pos n))
          × (addr ≡ concat (":" ∷ format n ∷ [])))
        ⊎ ((trimmed e port ≡ "") × (addr ≡ ":8080")))

-- A number is the variable's, or the default where the variable is blank.
abbrev pub IsNumberOr : (read : String → Option ℤ) → Environment → Variable → ℕ → ℕ → Type 0
IsNumberOr read e v def n = ((trimmed e v ≡ "") × (n ≡ def)) ⊎ (read (trimmed e v) ≡ some (pos n))

module _ (e : Environment) where
  pub require-names :
      (v : Variable) → names (require_non_empty e v).1 ≡ named_if (trimmed e v == "") v
  unfolding require_non_empty
  require-names v = ground arith

  pub require_value : (v : Variable) → (require_non_empty e v).0 ≡ trimmed e v
  unfolding require_non_empty
  require_value v = ground arith

  pub require_ok : (v : Variable) → (require_non_empty e v).1 ≡ [] → trimmed e v ≢ ""
  unfolding require_non_empty
  require_ok v h = ground (arith, eq_iff (trimmed e v) "")

  pub parse_bool-names :
      (v : Variable) (def : Bool)
      → names (parse_bool_default e v def).1
        ≡ named_if (not (trimmed e v == "") && is_none (parse_bool (trimmed e v))) v
  unfolding parse_bool_default
  parse_bool-names v def = ground arith

  pub parse_int-names :
      (v : Variable) (def : ℕ) → names (parse_int_default e v def).1 ≡ named_if (bad_number e v) v
  unfolding parse_int_default
  parse_int-names v def = ground arith

  pub parse_int_ok :
      (v : Variable) (def : ℕ)
      → (parse_int_default e v def).1 ≡ []
      → IsNumberOr atoi e v def (parse_int_default e v def).0
  unfolding parse_int_default
  parse_int_ok v def h = elim (Bool-cases (trimmed e v == "")) [
    | inl blank ↦ inl (ground (arith, eq_iff (trimmed e v) ""), rw blank refl)
    | inr given ↦ elim (Option-cases (natural (atoi (trimmed e v)))) [
      | inl bad ↦ cc (rw (given, bad) at h)
      | inr (n, good) ↦ inr (rw (given, good) (natural_inv (atoi (trimmed e v)) good))
    ]
  ]

  pub parse_duration-names :
      (read : String → Option ℤ) (v : Variable) (def : ℕ)
      → names (parse_duration_default e read v def).1
        ≡ named_if (not (trimmed e v == "") && is_none (natural (read (trimmed e v)))) v
  unfolding parse_duration_default
  parse_duration-names read v def = ground arith

  pub parse_duration_ok :
      (read : String → Option ℤ) (v : Variable) (def : ℕ)
      → (parse_duration_default e read v def).1 ≡ []
      → IsNumberOr read e v def (parse_duration_default e read v def).0
  unfolding parse_duration_default
  parse_duration_ok read v def h = elim (Bool-cases (trimmed e v == "")) [
    | inl blank ↦ inl (ground (arith, eq_iff (trimmed e v) ""), rw blank refl)
    | inr given ↦ elim (Option-cases (natural (read (trimmed e v)))) [
      | inl bad ↦ cc (rw (given, bad) at h)
      | inr (n, good) ↦ inr (rw (given, good) (natural_inv (read (trimmed e v)) good))
    ]
  ]

  pub resolve-names : names (resolve_listen_addr e).1 ≡ named_if (bad_listen_addr e) port
  unfolding resolve_listen_addr
  resolve-names = elim (Option-cases (natural (atoi (trimmed e port)))) [
    | inl bad ↦ ground arith
    | inr (n, good) ↦ ground arith
  ]

  pub resolve_ok : (resolve_listen_addr e).1 ≡ [] → IsListenAddr e (resolve_listen_addr e).0
  unfolding resolve_listen_addr
  resolve_ok h = elim (Bool-cases (trimmed e listen_addr == "")) [
    | inr given ↦ inl (rw given refl, ground (arith, eq_iff (trimmed e listen_addr) ""))
    | inl unset ↦ elim (Bool-cases (trimmed e port == "")) [
      | inl blank ↦ inr (inr (ground (arith, eq_iff (trimmed e port) ""), rw (unset, blank) refl))
      | inr set ↦ elim (Option-cases (natural (atoi (trimmed e port)))) [
        | inl bad ↦ cc (rw (unset, set, bad) at h)
        | inr (n, good) ↦ elim (Bool-cases (leb 1 n && leb n 65535)) [
          | inl inside ↦ inr (
              inl (
                n,
                ground arith,
                ground arith,
                natural_inv (atoi (trimmed e port)) good,
                rw (unset, set, good, inside) refl,
              ))
          | inr outside ↦ cc (rw (unset, set, good, outside) at h)
        ]
      ]
    ]
  ]

module _ (parse_url : String → Option Url) where
  pub validate_database-names :
      (raw : String)
      → names (validate_database_url parse_url raw).1
        ≡ named_if
            (contains raw "://" && not (is_url_of "postgres" "postgresql" (parse_url raw)))
            database_url
  unfolding validate_database_url
  validate_database-names raw = elim (Option-cases (parse_url raw)) [
    | inl bad ↦ ground arith
    | inr (u, good) ↦ ground arith
  ]

  pub validate_http-names :
      (v : Variable) (raw : String)
      → names (validate_http_url parse_url v raw).1
        ≡ named_if (not (is_url_of "http" "https" (parse_url raw))) v
  unfolding validate_http_url
  validate_http-names v raw = elim (Option-cases (parse_url raw)) [
    | inl bad ↦ ground arith
    | inr (u, good) ↦ ground arith
  ]

  pub named_none :
      (b : Bool) (v : Variable) (errs : List Problem)
      → names errs ≡ named_if b v
      → errs ≡ []
      → b ≡ false
  named_none true v errs h e = cc (rw e at h)
  named_none false v errs h e = refl
