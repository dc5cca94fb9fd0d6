-- ===== src/App.antt =====
-- backend/internal/app/app.go: the gateway's route of BuildHandler, which is the two-key middleware
-- around the limiter around the chat handler. The chat handler is a function of the credential on
-- its own state `W`, with a response `R`; `write_error` writes the error envelope and
-- `write_limited` the 429 with its Retry-After.
pub mod Laws
use ai_it_dab_com.Prelude.{ℕ, String, Bool, Option, none, some, List}
use ai_it_dab_com.Prelude.Int.{ℤ}
use ai_it_dab_com.ApiKey.{KeyDb}
use ai_it_dab_com.Gateway.Chat.{Credential}
use ai_it_dab_com.Gateway.Auth.{Headers, Admission, refused, admitted, require_credential}
use ai_it_dab_com.RateLimit.{LimiterSet, Verdict, passed, too_many_requests, per_key}

-- gatewayCredentialKey, of the credential in the request's context.
unfoldable pub gateway_credential_key : Option Credential → String
gateway_credential_key none = ""
gateway_credential_key (some cred) = cred.id

pub record Serving (Limiter W : Type 0) : Type 0 where
  pub keys : KeyDb
  pub limiters : LimiterSet Limiter
  pub world : W

module _ (sha256 : String → List ℕ) (uuid : ℕ → String) (parse_uuid : String → Option String) where
  module _ {Limiter W R : Type 0} (new_limiter : Limiter)
      (allow_at : ℕ → Limiter → Bool × Limiter) where
    module _ (write_error : ℕ → String → String → R) (write_limited : ℕ → R)
        (chat : Credential → W → R × W) (rpm : ℤ) where
      abbrev pub with_verdict : Credential → Verdict → Serving Limiter W → R × Serving Limiter W
      with_verdict cred (too_many_requests after) s = (write_limited after, s)
      with_verdict cred passed s = let (r, w) = chat cred s.world in (r, record s { world = w })

      -- gatewayRL(http.HandlerFunc(chat.Chat))
      unfoldable pub limited : Credential → ℕ → Serving Limiter W → R × Serving Limiter W
      limited cred now s =
          let (v, limiters) =
            per_key new_limiter allow_at rpm (gateway_credential_key (some cred)) now s.limiters in
          with_verdict cred v (record s { limiters = limiters })

      abbrev pub with_admission : Admission → ℕ → Serving Limiter W → R × Serving Limiter W
      with_admission (refused status kind message) now s = (write_error status kind message, s)
      with_admission (admitted cred) now s = limited cred now s

      unfoldable pub gateway_route : Headers → ℕ → Serving Limiter W → R × Serving Limiter W
      gateway_route h now s =
          let (a, keys) = require_credential sha256 uuid parse_uuid h s.keys in
          with_admission a now (record s { keys = keys })
