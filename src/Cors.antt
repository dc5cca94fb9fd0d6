-- ===== src/Cors.antt =====
-- backend/internal/httpserver/cors.go: what the CORS middleware answers, as the headers that it sets
-- and whether the next handler runs.
pub mod Laws
use ai_it_dab_com.Prelude.{
  String, Bool, true, false, not, ◌&&◌, Option, none, some, List, [], ◌∷◌, ◌++◌, ◌==◌, any,
  if◌then◌else◌,
}

-- What it reads of a request; http.Header.Get gives "" for a missing header.
pub record Request : Type 0 where
  pub method : String
  pub origin : String
  pub request_method : String
  pub request_headers : String

pub record Header : Type 0 where
  pub name : String
  pub value : String

pub record Answer : Type 0 where
  pub headers : List Header
  -- 204, and the next handler is not called
  pub ended : Bool

abbrev pub allowed_methods : String
allowed_methods = "GET, POST, PUT, PATCH, DELETE, OPTIONS"

abbrev pub default_allowed_headers : String
default_allowed_headers = "Content-Type, Authorization"

abbrev pub header : String → String → Header
header name value = record { name = name; value = value }

abbrev pub is_preflight : Request → Bool
is_preflight r = r.method == "OPTIONS" && not (r.request_method == "")

abbrev pub preflight_headers : Request → List Header
preflight_headers r =
    header "Access-Control-Allow-Methods" allowed_methods
    ∷ header "Access-Control-Allow-Headers"
        (if r.request_headers == "" then default_allowed_headers else r.request_headers)
    ∷ header "Access-Control-Max-Age" "600"
    ∷ []

abbrev pub grant : Request → List Header
grant r =
    header "Access-Control-Allow-Origin" r.origin
    ∷ header "Access-Control-Allow-Credentials" "true"
    ∷ (if is_preflight r then preflight_headers r else [])

unfoldable pub cors : List String → Request → Answer
cors allowed_origins r = record {
  headers =
      if r.origin == ""
      then []
      else header "Vary" "Origin"
        ∷ (if any (λ o. o == r.origin) allowed_origins then grant r else []);
  ended = is_preflight r;
}
