-- ===== src/Admin/Login/Laws.antt =====
-- Whom the login signs in, and what the session's cookie is good for.
use ai_it_dab_com.Prelude.{
  ℕ, ◌+◌, String, ◌≡◌, ◌≢◌, ◌↔◌, ◌⊎◌, refl, ◌∙◌, ap, Bool, true, false, ◌||◌, Bool-cases,
  Option-cases, inl, inr, Option, none, some, arith, ltb, ◌==◌, eq_iff, All, if◌then◌else◌,
}
use ai_it_dab_com.Prelude.Actions.{
  Result, ok, err, not_found, taken, failed, ok-injective, Result-cases,
}
use ai_it_dab_com.User.{User, UserDb, has_email, find, get_by_email}
use ai_it_dab_com.User.Lookup.{get_by_email_found, find-All}
use ai_it_dab_com.Auth.Password.{Bcrypt, verify_password}
use ai_it_dab_com.Token.{Jwt, AppClaims, Issuer, issue}
use ai_it_dab_com.Token.Laws.{IsJwt, parse-issue, issue_nonempty}
use ai_it_dab_com.Admin.Guard.{Request, with_claims, require_admin}
use ai_it_dab_com.Admin.Guard.Laws.{require_admin-cookie}
use ai_it_dab_com.Admin.Login.{
  LoginRequest, Cookie, Response, error, signed_in, session_cookie, unauthorized, with_user,
  with_verdict, with_token, login,
}

module _ (fold : String → String) (uuid : ℕ → String) (parse_uuid : String → Option String) where
  module _ (b : Bcrypt) (j : Jwt) (i : Issuer) (secure : Bool) (now : ℕ) where
    -- What a sign-in went through.
    pub login_inv :
        (req : LoginRequest) (s : UserDb) {c : Cookie} {email : String} {su : Bool}
        → (login fold uuid parse_uuid b j i secure now (some req) s).0 ≡ signed_in c email su
        → (u : User) × ((get_by_email fold uuid parse_uuid req.email s).0 ≡ ok u)
          × (verify_password b req.password u.password_hash ≡ some true)
          × (issue j i u.id u.is_superuser now ≡ some c.value)
          × (u.email ≡ email)
          × (u.is_superuser ≡ su)
    unfolding login
    login_inv req s {c} h = elim (Bool-cases (req.email == "" || req.password == "")) [
      | inl bare ↦ cc (rw bare at h)
      | inr given ↦ elim (Result-cases (get_by_email fold uuid parse_uuid req.email s).0) [
        | inl (u, found) ↦ elim (Option-cases (verify_password b req.password u.password_hash)) [
          | inl broken ↦ cc (rw (given, found, broken) at h)
          | inr (true, same) ↦ elim (Option-cases (issue j i u.id u.is_superuser now)) [
            | inl unsigned ↦ cc (rw (given, found, same, unsigned) at h)
            | inr (tok, signed) ↦
                let out = rw (given, found, same, signed) at h in
                let cookie : session_cookie i secure now tok ≡ c = cc out in
                let value : tok ≡ c.value = ap (λ (c : Cookie). c.value) cookie in
                (u, found, same, signed ∙ ap some value, cc out, cc out)
          ]
          | inr (false, wrong) ↦ cc (rw (given, found, wrong) at h)
        ]
        | inr (not_found, e) ↦ cc (rw (given, e) at h)
        | inr (taken, e) ↦ cc (rw (given, e) at h)
        | inr (failed x, e) ↦ cc (rw (given, e) at h)
      ]
    ]

    -- A user whose password matches goes through to the token.
    pub login_ok :
        (req : LoginRequest) (s : UserDb) {u : User}
        → req.email ≢ ""
        → req.password ≢ ""
        → (get_by_email fold uuid parse_uuid req.email s).0 ≡ ok u
        → verify_password b req.password u.password_hash ≡ some true
        → (login fold uuid parse_uuid b j i secure now (some req) s).0
          ≡ with_token fold uuid parse_uuid b j i secure now u (issue j i u.id u.is_superuser now)
    unfolding login
    login_ok req s named given found same =
        let open_ : (req.email == "" || req.password == "") ≡ false =
          ground (arith, eq_iff req.email "", eq_iff req.password "") in
        rw (open_, found, same) refl

    abbrev status : Response → ℕ
    status (error code kind message) = code
    status (signed_in c email su) = 200

    with_token_status :
        (u : User) (t : Option String)
        → status (with_token fold uuid parse_uuid b j i secure now u t) ≢ 401
    with_token_status u none h = omega arith
    with_token_status u (some tok) h = omega arith

    with_verdict-unauthorized :
        (u : User) (v : Option Bool)
        → (with_verdict fold uuid parse_uuid b j i secure now u v ≡ unauthorized) ↔ (v ≢ some true)
    with_verdict-unauthorized u none = (λ h e. cc, λ h. refl)
    with_verdict-unauthorized u (some false) = (λ h e. cc, λ h. refl)
    with_verdict-unauthorized u (some true) = (
      λ h e. with_token_status u (issue j i u.id u.is_superuser now) (ap status h),
      λ h. absurd (h refl),
    )

    -- Whether a lookup ends in the generic refusal.
    abbrev IsRefused : String → Result User → Type 0
    IsRefused password r =
        (r ≡ err not_found)
        ⊎ ((u : User) × (r ≡ ok u) × (verify_password b password u.password_hash ≢ some true))

    with_user-unauthorized :
        (password : String) (r : Result User)
        → (with_user fold uuid parse_uuid b j i secure now password r ≡ unauthorized)
          ↔ IsRefused password r
    with_user-unauthorized password (err not_found) = (λ h. inl refl, λ h. refl)
    with_user-unauthorized password (err taken) =
        (λ h. cc h, λ h. elim h [ inl e ↦ cc | inr (u, e, w) ↦ cc ])
    with_user-unauthorized password (err (failed m)) =
        (λ h. cc h, λ h. elim h [ inl e ↦ cc | inr (u, e, w) ↦ cc ])
    with_user-unauthorized password (ok u) =
        let (to, from) = with_verdict-unauthorized u (verify_password b password u.password_hash) in
        (
          λ h. inr (u, refl, to h),
          λ h. elim h [
            | inl e ↦ cc
            | inr (v, e, wrong) ↦ (let same : u ≡ v = ok-injective e in from (rw same wrong))
          ],
        )

    -- Login answers that the email or the password is invalid exactly when both were given and either
    -- no user has the email, or the user's hash does not match: the answer is one and the same, and
    -- says nothing about which of the two was wrong.
    pub login-unauthorized :
        (req : LoginRequest) (s : UserDb)
        → ((login fold uuid parse_uuid b j i secure now (some req) s).0 ≡ unauthorized) ↔ (
            ((req.email == "" || req.password == "") ≡ false)
            × (((get_by_email fold uuid parse_uuid req.email s).0 ≡ err not_found)
                ⊎ ((u : User) × ((get_by_email fold uuid parse_uuid req.email s).0 ≡ ok u)
                    × (verify_password b req.password u.password_hash ≢ some true))))
    unfolding login
    login-unauthorized req s =
        let r = (get_by_email fold uuid parse_uuid req.email s).0 in
        let (to, from) = with_user-unauthorized req.password r in
        elim (Bool-cases (req.email == "" || req.password == "")) [
          | inl bare ↦ (λ h. cc (rw bare at h), λ (given, _). cc)
          | inr given ↦ (λ h. (given, to (rw given at h)), λ (_, h). rw given (from h))
        ]

module _ (fold : String → String) (uuid : ℕ → String) (parse_uuid : String → Option String) where
  module _ (b : Bcrypt) (j : Jwt) (carries : (alg key token : String) → Option AppClaims) where
    module _ {S R : Type 0} (write_error : ℕ → String → String → R) where
      -- A login that sets the session cookie was made with the password of the user with that email,
      -- and a request that sends the cookie back passes RequireAdmin as this user until the token
      -- expires, the issuer's lifetime after the login, and is unauthenticated from then on. The ids
      -- in the table are not empty, and the JWT library keeps its laws.
      pub login-admitted :
          (i : Issuer) (secure : Bool) (now later : ℕ) (req : LoginRequest) (s : UserDb)
          (next : Request → S → R × S) (r : Request) (t : S) {c : Cookie} {email : String}
          {su : Bool}
          → IsJwt j carries
          → All (λ u. u.id ≢ "") s.users
          → (login fold uuid parse_uuid b j i secure now (some req) s).0 ≡ signed_in c email su
          → r.cookie ≡ some c.value
          → (u : User) × (find (has_email fold uuid parse_uuid req.email) s.users ≡ some u)
            × (verify_password b req.password u.password_hash ≡ some true)
            × (u.email ≡ email)
            × (require_admin j i write_error next later r t ≡ (
                if ltb later (j.numeric_date (now + i.ttl))
                then next (with_claims r (record { user_id = u.id; is_superuser = su })) t
                else (write_error 401 "unauthorized" "authentication required", t)))
      login-admitted i secure now later req s next r t {c} {email} {su} laws ids h sent =
          let (u, found, same, signed, mail, super) =
            login_inv fold uuid parse_uuid b j i secure now req s h in
          let row = get_by_email_found fold uuid parse_uuid req.email s found in
          let named =
            find-All (λ u. u.id ≢ "") (has_email fold uuid parse_uuid req.email) s.users ids row in
          let signed' : issue j i u.id su now ≡ some c.value = rw (← super) signed in
          let given = issue_nonempty j carries laws i u.id su now signed' in
          let guard = require_admin-cookie j i write_error next later r t sent given in
          let back = parse-issue j carries laws i u.id su now later named signed' in
          (
            u,
            row,
            same,
            mail,
            elim (Bool-cases (ltb later (j.numeric_date (now + i.ttl)))) [
              | inl live ↦ guard ∙ rw (back, live) refl
              | inr dead ↦ guard ∙ rw (back, dead) refl
            ],
          )
