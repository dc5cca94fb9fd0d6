-- ===== src/Admin/Guard.antt =====
-- backend/internal/admin/middleware.go: the guard of the admin routes. A request is what the guard
-- reads of it: the session cookie's value, if there is one, the Authorization header, which is empty
-- when it is missing, and the claims in its context. A handler is a function of the request on a
-- state `S` with a response `R`, in which `write_error` writes the error envelope.
pub mod Laws
use Prim.Native.Nat.{ℕ}
use ai_it_dab_com.Prelude.{
  String, Bool, Option, none, some, ◌==◌, if◌then◌else◌, cut_prefix, trim_space,
}
use ai_it_dab_com.Token.{Jwt, Issuer, Claims, parse}

abbrev pub session_cookie_name : String
session_cookie_name = "dab_admin_session"

pub record Request : Type 0 where
  pub cookie : Option String
  pub authorization : String
  pub claims : Option Claims

-- The header's token: `strings.CutPrefix(h, "Bearer ")`, trimmed.
abbrev pub bearer : Option String → String
bearer none = ""
bearer (some after) = trim_space after

abbrev pub header_token : String → String
header_token h = if h == "" then "" else bearer (cut_prefix h "Bearer ")

unfoldable pub token_from_request : Request → String
token_from_request r = elim r.cookie [
  | none ↦ header_token r.authorization
  | some value ↦ if value == "" then header_token r.authorization else value
]

unfoldable pub with_claims : Request → Claims → Request
with_claims r claims = record r { claims = some claims }

unfoldable pub claims_from_context : Request → Option Claims
claims_from_context r = r.claims

module _ (j : Jwt) (i : Issuer) where
  unfoldable pub authenticate : Request → ℕ → Option Claims
  authenticate r now =
      let raw = token_from_request r in if raw == "" then none else parse j i raw now

  module _ {S R : Type 0} (write_error : ℕ → String → String → R) where
    abbrev pub unauthenticated : S → R × S
    unauthenticated s = (write_error 401 "unauthorized" "authentication required", s)

    abbrev pub admit_admin : (next : Request → S → R × S) → Request → Option Claims → S → R × S
    admit_admin next r none s = unauthenticated s
    admit_admin next r (some claims) s = next (with_claims r claims) s

    unfoldable pub require_admin : (next : Request → S → R × S) → ℕ → Request → S → R × S
    require_admin next now r s = admit_admin next r (authenticate r now) s

    abbrev pub admit_superuser : (next : Request → S → R × S) → Request → Option Claims → S → R × S
    admit_superuser next r none s = unauthenticated s
    admit_superuser next r (some claims) s =
        if claims.is_superuser
        then next (with_claims r claims) s
        else (write_error 403 "forbidden" "superuser privileges required", s)

    unfoldable pub require_superuser : (next : Request → S → R × S) → ℕ → Request → S → R × S
    require_superuser next now r s = admit_superuser next r (authenticate r now) s
