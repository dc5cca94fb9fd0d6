-- ===== src/Tests/Accounts.antt =====
-- Accounts, sessions and the command that makes the first superuser.
use Prim.Native.String
use Prim.Native.String.{len}
use ai_it_dab_com.Prelude.{
  ℕ, ◌+◌, ◌≤◌, String, ◌≡◌, ◌≢◌, ◌↔◌, ◌⊎◌, refl, sym, ap, ◌∙◌, Bool, true, false, ◌&&◌, ◌||◌,
  Bool-cases, Option-cases, inl, inr, Option, none, some, List, [], ◌∷◌, arith, ◌==◌, eq_iff, any,
  ltb, within, if◌then◌else◌,
}
use ai_it_dab_com.Prelude.Actions.{ok, err, not_found}
use ai_it_dab_com.User.{User, UserDb, has_email, find, get_by_email, create, statement}
use ai_it_dab_com.User.Unique.{IsUnique, Step, Reach, Reach-IsUnique_emails}
use ai_it_dab_com.Auth.Password.{
  Bcrypt, matched, mismatched, hashed, password_too_short, password_too_long, hash_password,
  verify_password,
}
use ai_it_dab_com.Auth.Password.Laws.{IsBcrypt, hash_password_bounds}
use ai_it_dab_com.Token.{Jwt, AppClaims, Issuer, issue, signing_alg}
use ai_it_dab_com.Token.Laws.{IsJwt, unexpired}
use ai_it_dab_com.Admin.Guard
use ai_it_dab_com.Admin.Guard.{require_admin, require_superuser, token_from_request, with_claims}
use ai_it_dab_com.Admin.Guard.Laws.{require_superuser-cases}
use ai_it_dab_com.Admin.Login.{LoginRequest, login, session_cookie, unauthorized, with_token}
use ai_it_dab_com.Admin.Login.Laws.{login-admitted, login-unauthorized}
use ai_it_dab_com.CreateSuperuser.{create_superuser}
use ai_it_dab_com.CreateSuperuser.Laws.{create_superuser-login}
use ai_it_dab_com.Tests.Samples.{uuid, parse_uuid}

abbrev fold : String → String
fold s = s

-- A hash that shows the password.
abbrev bcrypt : Bcrypt
bcrypt = record {
  generate = λ p. some (String.◌++◌ "$" p);
  compare = λ h p. if h == String.◌++◌ "$" p then matched else mismatched;
}

bcrypt-IsBcrypt : IsBcrypt bcrypt
bcrypt-IsBcrypt p h e = ground (arith, eq_iff h (String.◌++◌ "$" p))

-- The claims of the one token that this library signs.
abbrev claims : AppClaims
claims = record { is_superuser = true; subject = "u"; issued_at = some 100; expires_at = some 150 }

abbrev is_time : ℕ → Option ℕ → Bool
is_time n none = false
is_time n (some m) = within n n m

is_time_eq : (n : ℕ) (o : Option ℕ) → is_time n o ≡ true → o ≡ some n
is_time_eq n none h = cc h
is_time_eq n (some m) h = ap some (ground arith)

abbrev is_claims : AppClaims → Bool
is_claims c =
    c.is_superuser && (c.subject == "u" && (is_time 100 c.issued_at && is_time 150 c.expires_at))

is_claims_eq : (c : AppClaims) → is_claims c ≡ true → c ≡ claims
is_claims_eq c h =
    let su : c.is_superuser ≡ true = ground arith in
    let subject : c.subject ≡ "u" = ground (arith, eq_iff c.subject "u") in
    let issued = is_time_eq 100 c.issued_at (ground arith) in
    let expires = is_time_eq 150 c.expires_at (ground arith) in cc (su, subject, issued, expires)

abbrev is_token : String → String → String → Bool
is_token alg key token = alg == "HS256" && (key == "s3cret" && token == "tok")

abbrev has_key : Option String → Bool
has_key none = false
has_key (some key) = key == "s3cret"

abbrev accepts : List String → Option String → String → Bool
accepts methods key token = any (λ m. m == "HS256") methods && (has_key key && token == "tok")

abbrev jwt : Jwt
jwt = record {
  numeric_date = λ n. n;
  signed = λ alg c key. if is_claims c && is_token alg key "tok" then some "tok" else none;
  parse_with_claims = λ keys methods now token.
      if accepts methods (keys "HS256") token && ltb now 150 then some claims else none;
}

abbrev carries : String → String → String → Option AppClaims
carries alg key token = if is_token alg key token then some claims else none

signed_inv :
    (alg key token : String) (c : AppClaims)
    → jwt.signed alg c key ≡ some token
    → (is_claims c ≡ true) × (alg ≡ "HS256") × (key ≡ "s3cret") × (token ≡ "tok")
signed_inv alg key token c h = elim (Bool-cases (is_claims c && is_token alg key "tok")) [
  | inl so ↦
      let tok : "tok" ≡ token = cc (rw so at h) in
      (
        ground arith,
        ground (arith, eq_iff alg "HS256"),
        ground (arith, eq_iff key "s3cret"),
        sym tok,
      )
  | inr not_so ↦ cc (rw not_so at h)
]

parse_own :
    (keys : String → Option String) (now : ℕ)
    → keys "HS256" ≡ some "s3cret"
    → jwt.parse_with_claims keys ("HS256" ∷ []) now "tok"
      ≡ (if ltb now 150 then some claims else none)
parse_own keys now k = elim (Bool-cases (ltb now 150)) [
  | inl live ↦ rw (k, live) refl
  | inr dead ↦ rw (k, dead) refl
]

parse_inv :
    (keys : String → Option String) (methods : List String) (now : ℕ) (token : String)
    {c : AppClaims}
    → jwt.parse_with_claims keys methods now token ≡ some c
    → (any (λ m. m == "HS256") methods ≡ true)
      × (keys "HS256" ≡ some "s3cret")
      × (token ≡ "tok")
      × (ltb now 150 ≡ true)
      × (claims ≡ c)
parse_inv keys methods now token {c} h =
    elim (Bool-cases (accepts methods (keys "HS256") token && ltb now 150)) [
      | inl so ↦ elim (Option-cases (keys "HS256")) [
        | inl keyless ↦ absurd (ground arith)
        | inr (key, keyed) ↦
            let mine : key ≡ "s3cret" = ground (arith, eq_iff key "s3cret") in
            (
              ground arith,
              keyed ∙ ap some mine,
              ground (arith, eq_iff token "tok"),
              ground arith,
              cc (rw so at h),
            )
      ]
      | inr not_so ↦ cc (rw not_so at h)
    ]

jwt-IsJwt : IsJwt jwt carries
jwt-IsJwt = record {
  reads_back = λ alg key token c keys now h k.
      (let (so, a, b, t) = signed_inv alg key token c h in
        let e = is_claims_eq c so in rw (a, t, e) (parse_own keys now (rw (a, b) at k)));
  non_empty = λ alg key token c h e.
      (let (so, a, b, t) = signed_inv alg key token c h in
        ground (arith, eq_iff "tok" "", sym t ∙ e));
  sound = λ keys methods now token c h.
      (let (any_, keyed, t, live, same) = parse_inv keys methods now token h in
        rw (← same, t) ("HS256", "s3cret", any_, keyed, refl, live));
}

abbrev admin : User
admin = record {
  id = "u";
  email = "a@b.c";
  password_hash = "$longpass";
  is_superuser = true;
  created_at = 1;
  updated_at = 1;
}

abbrev accounts : UserDb
accounts = record { users = admin ∷ []; faults = []; serial = 1; now = 9 }

abbrev empty : UserDb
empty = record { users = []; faults = []; serial = 0; now = 9 }

abbrev issuer : Issuer
issuer = record { secret = "s3cret"; ttl = 50 }

abbrev attempt : LoginRequest
attempt = record { email = "a@b.c"; password = "longpass" }

-- A handler that answers 200, and a response as its status.
abbrev ok_handler : Guard.Request → ℕ → ℕ × ℕ
ok_handler r s = (200, s + 1)

abbrev status : ℕ → String → String → ℕ
status code kind message = code

abbrev session : Guard.Request
session = record { cookie = some "tok"; authorization = ""; claims = none }

Reach-IsUnique_emails_example :
    IsUnique fold uuid parse_uuid (create fold uuid parse_uuid "a@b.c" "$x" false accounts).1.users
Reach-IsUnique_emails_example =
    Reach-IsUnique_emails fold uuid parse_uuid {s = accounts} (refl, tt)
      (Reach.next Reach.here (Step.created "a@b.c" "$x" false))

hash_password_bounds_example :
    ((h : String)
      → hash_password bcrypt "longpass" ≡ hashed h
      → (8 ≤ len "longpass")
        × (len "longpass" ≤ 72)
        × (verify_password bcrypt "longpass" h ≡ some true))
    × ((hash_password bcrypt "longpass" ≡ password_too_short) ↔ (len "longpass" ≤ 7))
    × ((hash_password bcrypt "longpass" ≡ password_too_long) ↔ (73 ≤ len "longpass"))
hash_password_bounds_example = hash_password_bounds bcrypt "longpass" bcrypt-IsBcrypt

login-admitted_example :
    (u : User) × (find (has_email fold uuid parse_uuid "a@b.c") accounts.users ≡ some u)
    × (verify_password bcrypt "longpass" u.password_hash ≡ some true)
    × (u.email ≡ "a@b.c")
    × (require_admin jwt issuer status ok_handler 120 session 0 ≡ (
        if ltb 120 150
        then ok_handler (with_claims session (record { user_id = u.id; is_superuser = true })) 0
        else (401, 0)))
unfolding login get_by_email statement verify_password issue
login-admitted_example =
    login-admitted fold uuid parse_uuid bcrypt jwt carries status issuer true 100 120 attempt
      accounts ok_handler session 0 {c = session_cookie issuer true 100 "tok"} {email = "a@b.c"}
      {su = true} jwt-IsJwt ((λ e. cc), tt) refl refl

login-unauthorized_example :
    ((login fold uuid parse_uuid bcrypt jwt issuer true 100 (some attempt) accounts).0
      ≡ unauthorized)
    ↔ (((attempt.email == "" || attempt.password == "") ≡ false)
        × (((get_by_email fold uuid parse_uuid attempt.email accounts).0 ≡ err not_found)
            ⊎ ((u : User) × ((get_by_email fold uuid parse_uuid attempt.email accounts).0 ≡ ok u)
                × (verify_password bcrypt attempt.password u.password_hash ≢ some true))))
login-unauthorized_example =
    login-unauthorized fold uuid parse_uuid bcrypt jwt issuer true 100 attempt accounts

require_superuser-cases_example :
    let answer = require_superuser jwt issuer status ok_handler 120 session 0 in
    (answer ≡ (401, 0))
    ⊎ ((a : AppClaims) × (carries signing_alg "s3cret" (token_from_request session) ≡ some a)
        × (unexpired 120 a.expires_at ≡ true)
        × (a.subject ≢ "")
        × (((a.is_superuser ≡ true)
              × (answer
                  ≡ ok_handler
                      (with_claims session (record { user_id = a.subject; is_superuser = true }))
                      0))
            ⊎ ((a.is_superuser ≡ false) × (answer ≡ (403, 0)))))
require_superuser-cases_example =
    require_superuser-cases jwt carries jwt-IsJwt status issuer ok_handler 120 session 0

-- The first superuser of an empty table.
create_superuser-login_example :
    (y : User) × (find
        (has_email fold uuid parse_uuid "a@b.c")
        (create_superuser fold uuid parse_uuid bcrypt "a@b.c" "longpass" false empty).1.users
      ≡ some y)
    × ((login fold uuid parse_uuid bcrypt jwt issuer true 100
          (some attempt)
          (create_superuser fold uuid parse_uuid bcrypt "a@b.c" "longpass" false empty).1).0
        ≡ with_token fold uuid parse_uuid bcrypt jwt issuer true 100 y
            (issue jwt issuer y.id y.is_superuser 100))
    × ((true ≡ false) ⊎ (y.is_superuser ≡ true))
unfolding create_superuser hash_password create statement
create_superuser-login_example =
    create_superuser-login fold uuid parse_uuid bcrypt jwt issuer true false 100 "a@b.c" "longpass"
      empty (create_superuser fold uuid parse_uuid bcrypt "a@b.c" "longpass" false empty).1
      {u = record {
        id = "u";
        email = "a@b.c";
        password_hash = "$longpass";
        is_superuser = true;
        created_at = 9;
        updated_at = 9;
      }}
      {created = true} bcrypt-IsBcrypt (λ e. cc) tt refl refl refl
