-- ===== src/Auth/Password.antt =====
-- backend/internal/auth/password.go. golang.org/x/crypto/bcrypt is not in the repository: `Bcrypt`
-- is what the code calls of it, at the cost and with the salt of the call. The lengths are those of
-- the text's bytes. DummyVerify discards its result and is left out.
pub mod Laws
use Prim.Native.String.{len}
use ai_it_dab_com.Prelude.{ℕ, String, Bool, true, false, Option, none, some, ltb, if◌then◌else◌}

-- CompareHashAndPassword: no error, ErrMismatchedHashAndPassword, or another error.
pub data Comparison : Type 0 where
  matched mismatched broken : Comparison

pub record Bcrypt : Type 0 where
  pub generate : String → Option String
  pub compare : (hash password : String) → Comparison

abbrev pub min_password_length : ℕ
min_password_length = 8

abbrev pub max_password_bytes : ℕ
max_password_bytes = 72

-- HashPassword's results.
pub data Hashed : Type 0 where
  hashed : String → Hashed
  password_too_short password_too_long hashing_failed : Hashed

abbrev pub of_generated : Option String → Hashed
of_generated none = hashing_failed
of_generated (some h) = hashed h

module _ (b : Bcrypt) where
  unfoldable pub hash_password : String → Hashed
  hash_password plaintext =
      if ltb (len plaintext) min_password_length
      then password_too_short
      else if ltb max_password_bytes (len plaintext)
      then password_too_long
      else of_generated (b.generate plaintext)

  -- VerifyPassword: `none` for its error.
  abbrev pub verdict_of : Comparison → Option Bool
  verdict_of matched = some true
  verdict_of mismatched = some false
  verdict_of broken = none

  unfoldable pub verify_password : String → String → Option Bool
  verify_password plaintext encoded_hash = verdict_of (b.compare encoded_hash plaintext)
