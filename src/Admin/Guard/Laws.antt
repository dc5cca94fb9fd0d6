-- ===== src/Admin/Guard/Laws.antt =====
-- Whom the guard lets through.
use ai_it_dab_com.Prelude.{
  ℕ, String, ◌≡◌, ◌≢◌, ◌⊎◌, refl, true, false, Bool-cases, Option-cases, inl, inr, Option, some,
  arith, ◌==◌, eq_iff,
}
use ai_it_dab_com.Token.{Jwt, Issuer, AppClaims, Claims, signing_alg, parse}
use ai_it_dab_com.Token.Laws.{IsJwt, unexpired, parse_sound}
use ai_it_dab_com.Admin.Guard.{
  Request, token_from_request, with_claims, authenticate, admit_admin, require_admin,
  require_superuser,
}

module _ (j : Jwt) (i : Issuer) where
  pub authenticate_inv :
      (r : Request) (now : ℕ) {c : Claims}
      → authenticate j i r now ≡ some c
      → parse j i (token_from_request r) now ≡ some c
  unfolding authenticate
  authenticate_inv r now h = elim (Bool-cases (token_from_request r == "")) [
    | inl bare ↦ cc (rw bare at h)
    | inr given ↦ rw given at h
  ]

  -- A cookie with a token decides alone.
  pub authenticate-cookie :
      (r : Request) (now : ℕ) {t : String}
      → r.cookie ≡ some t
      → t ≢ ""
      → authenticate j i r now ≡ parse j i t now
  unfolding authenticate token_from_request
  authenticate-cookie r now {t} has named =
      let given : (t == "") ≡ false = ground (arith, eq_iff t "") in rw (has, given, given) refl

  module _ {S R : Type 0} (write_error : ℕ → String → String → R) where
    pub require_admin-cookie :
        (next : Request → S → R × S) (now : ℕ) (r : Request) (s : S) {t : String}
        → r.cookie ≡ some t
        → t ≢ ""
        → require_admin j i write_error next now r s
          ≡ admit_admin j i write_error next r (parse j i t now) s
    unfolding require_admin
    require_admin-cookie next now r s has named =
        rw (require_admin, authenticate-cookie r now has named) refl

module _ (j : Jwt) (carries : (alg key token : String) → Option AppClaims)
    (laws : IsJwt j carries) where
  module _ {S R : Type 0} (write_error : ℕ → String → String → R) where
    -- RequireSuperuser has three answers, and the first two leave the state as it was: 401, 403, or
    -- the next handler's. It runs the next handler only when the request's token carries, under a
    -- signature that verifies as HS256 by the issuer's secret, the claims of a superuser with no expiry
    -- that is past, and it runs it with these in the context; 403 is for such a token of another user.
    pub require_superuser-cases :
        (i : Issuer) (next : Request → S → R × S) (now : ℕ) (r : Request) (s : S)
        → let answer = require_superuser j i write_error next now r s in
          (answer ≡ (write_error 401 "unauthorized" "authentication required", s))
          ⊎ ((a : AppClaims) × (carries signing_alg i.secret (token_from_request r) ≡ some a)
              × (unexpired now a.expires_at ≡ true)
              × (a.subject ≢ "")
              × (((a.is_superuser ≡ true)
                    × (answer
                        ≡ next
                            (with_claims r (record { user_id = a.subject; is_superuser = true }))
                            s))
                  ⊎ ((a.is_superuser ≡ false)
                      × (answer
                          ≡ (write_error 403 "forbidden" "superuser privileges required", s)))))
    unfolding require_superuser
    require_superuser-cases i next now r s = elim (Option-cases (authenticate j i r now)) [
      | inl bad ↦ inl (rw (require_superuser, bad) refl)
      | inr (c, e) ↦
          let (a, carried, live, named, same) =
            parse_sound j carries laws i (token_from_request r) now
              (authenticate_inv j i r now e) in
          let e' = rw same at e in
          inr (
            a,
            carried,
            live,
            named,
            elim (Bool-cases a.is_superuser) [
              | inl su ↦ inl (su, rw (require_superuser, e', su) refl)
              | inr plain ↦ inr (plain, rw (require_superuser, e', plain) refl)
            ],
          )
    ]
