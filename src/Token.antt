-- ===== src/Token.antt =====
-- backend/internal/token/token.go: the admin session's tokens. github.com/golang-jwt/jwt/v5 is not in
-- the repository: `Jwt` is what the code calls of it. Times are nanoseconds.
pub mod Laws
use ai_it_dab_com.Prelude.{
  ℕ, ◌+◌, ◌*◌, String, Bool, Option, none, some, List, [], ◌∷◌, ◌==◌, if◌then◌else◌,
}
use ai_it_dab_com.Prelude.Int.{ℤ, positive}

-- DefaultTTL: 24 hours
abbrev pub default_ttl : ℕ
default_ttl = 24 * 3600000000000

-- signingMethod.Alg()
abbrev pub signing_alg : String
signing_alg = "HS256"

pub record Claims : Type 0 where
  pub user_id : String
  pub is_superuser : Bool

-- appClaims, with the registered claims that are set; a token may lack the two times.
pub record AppClaims : Type 0 where
  pub is_superuser : Bool
  pub subject : String
  pub issued_at : Option ℕ
  pub expires_at : Option ℕ

-- `numeric_date` is NewNumericDate, which rounds to the library's precision. `signed` is SignedString
-- of a new token of the method, and `parse_with_claims` is ParseWithClaims with the key function, the
-- valid methods and the time function: the key function gives the key for the method that the
-- token's header names, or an error.
pub record Jwt : Type 0 where
  pub numeric_date : ℕ → ℕ
  pub signed : (alg : String) → AppClaims → (key : String) → Option String
  pub parse_with_claims :
      (key_for : String → Option String)
      → (valid_methods : List String) → (now : ℕ) → String
      → Option AppClaims

pub record Issuer : Type 0 where
  pub secret : String
  pub ttl : ℕ

unfoldable pub new_issuer : String → ℤ → Issuer
new_issuer secret ttl = record {
  secret = secret;
  ttl = elim (positive ttl) [ none ↦ default_ttl | some n ↦ n ];
}

-- The key function of Parse.
abbrev pub key_for : Issuer → String → Option String
key_for i alg = if alg == signing_alg then some i.secret else none

-- A token without a subject is invalid.
abbrev pub to_claims : Option AppClaims → Option Claims
to_claims none = none
to_claims (some c) =
    if c.subject == ""
    then none
    else some (record { user_id = c.subject; is_superuser = c.is_superuser })

module _ (j : Jwt) where
  abbrev pub claims_for : Issuer → String → Bool → ℕ → AppClaims
  claims_for i user_id is_superuser now = record {
    is_superuser = is_superuser;
    subject = user_id;
    issued_at = some (j.numeric_date now);
    expires_at = some (j.numeric_date (now + i.ttl));
  }

  unfoldable pub issue : Issuer → String → Bool → ℕ → Option String
  issue i user_id is_superuser now =
      j.signed signing_alg (claims_for i user_id is_superuser now) i.secret

  -- `none` is ErrInvalidToken.
  unfoldable pub parse : Issuer → String → ℕ → Option Claims
  parse i token now = to_claims (j.parse_with_claims (key_for i) (signing_alg ∷ []) now token)
