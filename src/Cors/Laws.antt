-- ===== src/Cors/Laws.antt =====
-- backend/internal/httpserver/cors.go: which origin the CORS middleware lets in.
use ai_it_dab_com.Prelude.{
  String, ◌≡◌, refl, ◌≢◌, ◌↔◌, Bool, true, ◌&&◌, List, arith, ◌==◌, eq_iff, any,
}
use ai_it_dab_com.Cors.{Request, Header, is_preflight, cors}

-- The answer has a header of the name with the value.
abbrev pub sends : String → String → List Header → Bool
sends name value = any (λ h. h.name == name && h.value == value)

-- The browser's grant: an origin is named in Access-Control-Allow-Origin exactly where the request
-- comes from it and the allowlist has it, word for word. Credentials are allowed exactly where the
-- request's own origin is granted. So an empty allowlist grants nothing, and `*` in it is no wildcard;
-- but a request whose Origin is the text `*` is then answered with `*` and with credentials.
pub cors-grants_iff :
    (allowed_origins : List String) (r : Request)
    → let headers = (cors allowed_origins r).headers in
      let listed = (r.origin ≢ "") × (any (λ o. o == r.origin) allowed_origins ≡ true) in
      ((origin : String)
        → (sends "Access-Control-Allow-Origin" origin headers ≡ true)
          ↔ ((r.origin ≡ origin) × listed))
      × ((sends "Access-Control-Allow-Credentials" "true" headers ≡ true) ↔ listed)
unfolding cors
cors-grants_iff allowed_origins r = (
  λ origin. ground (arith, eq_iff r.origin origin, eq_iff r.origin ""),
  ground (arith, eq_iff r.origin ""),
)

pub cors_ended : (allowed : List String) (r : Request) → (cors allowed r).ended ≡ is_preflight r
unfolding cors
cors_ended allowed r = refl
