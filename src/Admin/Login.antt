-- ===== src/Admin/Login.antt =====
-- backend/internal/admin/login.go. The body is what the strict, size-capped JSON decoder made of it,
-- with `none` for any problem. DummyVerify, which only spends time, is left out. Times are
-- nanoseconds.
pub mod Laws
use ai_it_dab_com.Prelude.{
  ℕ, ◌+◌, ◌/◌, String, Bool, true, false, ◌||◌, Option, none, some, ◌==◌, if◌then◌else◌,
}
use ai_it_dab_com.Prelude.Actions.{Result, ok, err, not_found, taken, failed}
use ai_it_dab_com.User.{User, UserDb, get_by_email}
use ai_it_dab_com.Auth.Password.{Bcrypt, verify_password}
use ai_it_dab_com.Token.{Jwt, Issuer, issue}
use ai_it_dab_com.Admin.Guard.{session_cookie_name}

pub record LoginRequest : Type 0 where
  pub email : String
  pub password : String

pub data SameSite : Type 0 where
  same_site_lax same_site_strict same_site_none : SameSite

pub record Cookie : Type 0 where
  pub name : String
  pub value : String
  pub path : String
  pub http_only : Bool
  pub secure : Bool
  pub same_site : SameSite
  pub expires : ℕ
  -- in seconds
  pub max_age : ℕ

pub data Response : Type 0 where
  error : ℕ → String → String → Response
  -- 200 with the cookie, the email and whether it is a superuser
  signed_in : Cookie → String → Bool → Response

abbrev pub bad_request : Response
bad_request = error 400 "invalid_request" "email and password are required"

abbrev pub unauthorized : Response
unauthorized = error 401 "unauthorized" "invalid email or password"

abbrev pub session_cookie : Issuer → Bool → ℕ → String → Cookie
session_cookie i secure now tok = record {
  name = session_cookie_name;
  value = tok;
  path = "/";
  http_only = true;
  secure = secure;
  same_site = same_site_lax;
  expires = now + i.ttl;
  max_age = i.ttl / 1000000000;
}

module _ (fold : String → String) (uuid : ℕ → String) (parse_uuid : String → Option String) where
  module _ (b : Bcrypt) (j : Jwt) (i : Issuer) (secure : Bool) (now : ℕ) where
    abbrev pub with_token : User → Option String → Response
    with_token u none = error 500 "internal_error" "could not issue session"
    with_token u (some tok) = signed_in (session_cookie i secure now tok) u.email u.is_superuser

    -- An error of the verification counts as a mismatch.
    abbrev pub with_verdict : User → Option Bool → Response
    with_verdict u none = unauthorized
    with_verdict u (some false) = unauthorized
    with_verdict u (some true) = with_token u (issue j i u.id u.is_superuser now)

    abbrev pub with_user : String → Result User → Response
    with_user password (err not_found) = unauthorized
    with_user password (err taken) = error 500 "internal_error" "login failed"
    with_user password (err (failed e)) = error 500 "internal_error" "login failed"
    with_user password (ok u) = with_verdict u (verify_password b password u.password_hash)

    unfoldable pub login : Option LoginRequest → UserDb → Response × UserDb
    login none s = (bad_request, s)
    login (some req) s =
        if req.email == "" || req.password == ""
        then (bad_request, s)
        else (let (r, s') = get_by_email fold uuid parse_uuid req.email s in
            (with_user req.password r, s'))
