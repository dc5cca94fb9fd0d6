-- ===== src/App/Laws.antt =====
-- backend/internal/app/app.go: which requests of the gateway's route reach the chat handler.
use ai_it_dab_com.Prelude.{
  ℕ, String, ◌≡◌, ◌≢◌, ◌⊎◌, refl, Bool, true, false, Option, none, some, List, inl, inr,
}
use ai_it_dab_com.Prelude.Int.{ℤ, positive}
use ai_it_dab_com.Gateway.Chat.{Credential}
use ai_it_dab_com.Gateway.Auth.{Headers, Admission, refused, admitted, require_credential}
use ai_it_dab_com.Gateway.Auth.Laws.{IsBacked, admitted-IsBacked}
use ai_it_dab_com.RateLimit.{allow, retry_after}
use ai_it_dab_com.RateLimit.Laws.{per_key-cases}
use ai_it_dab_com.App.{Serving, limited, gateway_credential_key, gateway_route}

Admission-cases :
    (a : Admission)
    → ((c : Credential) × (a ≡ admitted c))
      ⊎ ((n : ℕ) × (kind : String) × (message : String) × (a ≡ refused n kind message))
Admission-cases (admitted c) = inl (c, refl)
Admission-cases (refused n kind message) = inr (n, kind, message, refl)

module _ (sha256 : String → List ℕ) (uuid : ℕ → String) (parse_uuid : String → Option String) where
  module _ {Limiter W R : Type 0} (new_limiter : Limiter)
      (allow_at : ℕ → Limiter → Bool × Limiter) where
    -- A request to the gateway's route is refused by the authentication with the error that it gives,
    -- and then no token is taken and the chat handler does not run. Or it carries an active credential
    -- with its secret. The chat handler then runs once, under this credential, where the rate is not
    -- positive (or the credential's id is empty), and no token is taken. Else one token is asked of
    -- the bucket under the credential's id, and it runs exactly where allow grants it; where it does
    -- not, the answer is the 429 with the rate's Retry-After, and the chat handler does not run.
    pub gateway_route-cases :
        (write_error : ℕ → String → String → R) (write_limited : ℕ → R)
        (chat : Credential → W → R × W) (rpm : ℤ) (h : Headers) (now : ℕ) (s : Serving Limiter W)
        → let (r, t) =
            gateway_route sha256 uuid parse_uuid new_limiter allow_at write_error write_limited chat
              rpm h now s in
          let judged = (require_credential sha256 uuid parse_uuid h s.keys).0 in
          ((n : ℕ) × (kind : String) × (message : String) × (judged ≡ refused n kind message)
            × (r ≡ write_error n kind message)
            × (t.limiters ≡ s.limiters)
            × (t.world ≡ s.world))
          ⊎ ((c : Credential) × IsBacked sha256 uuid parse_uuid h s.keys c
              × ((((positive rpm ≡ none) ⊎ (c.id ≡ ""))
                    × (t.limiters ≡ s.limiters)
                    × (r ≡ (chat c s.world).0)
                    × (t.world ≡ (chat c s.world).1))
                  ⊎ ((n : ℕ) × (positive rpm ≡ some n)
                      × (c.id ≢ "")
                      × (let (allowed, limiters) = allow new_limiter allow_at c.id now s.limiters in
                          (t.limiters ≡ limiters)
                          × (((allowed ≡ true)
                                × (r ≡ (chat c s.world).0)
                                × (t.world ≡ (chat c s.world).1))
                              ⊎ ((allowed ≡ false)
                                  × (r ≡ write_limited (retry_after n))
                                  × (t.world ≡ s.world)))))))
    unfolding gateway_route limited gateway_credential_key
    gateway_route-cases write_error write_limited chat rpm h now s =
        elim (Admission-cases (require_credential sha256 uuid parse_uuid h s.keys).0) [
          | inr (n, kind, message, e) ↦ rw e (inl (n, kind, message, refl, refl, refl, refl))
          | inl (c, e) ↦
              let backed = admitted-IsBacked sha256 uuid parse_uuid h s.keys e in
              rw e (elim (per_key-cases new_limiter allow_at rpm c.id now s.limiters) [
                | inl (off, free, same) ↦
                    rw (free, same) (inr (c, backed, inl (off, refl, refl, refl)))
                | inr (n, on, named, (took, inl (granted, free))) ↦
                    rw (free, took)
                      (inr (c, backed, inr (n, on, named, (refl, inl (granted, refl, refl)))))
                | inr (n, on, named, (took, inr (denied, full))) ↦
                    rw (full, took)
                      (inr (c, backed, inr (n, on, named, (refl, inr (denied, refl, refl)))))
              ])
        ]
