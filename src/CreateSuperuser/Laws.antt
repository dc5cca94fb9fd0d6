-- ===== src/CreateSuperuser/Laws.antt =====
-- What the account that the command stores is good for.
use mathlib.Core.Path.{subst}
use Prim.Native.String.{len}
use ai_it_dab_com.Prelude.{
  ℕ, ◌≤◌, String, ◌≡◌, ◌≢◌, ◌⊎◌, refl, sym, ◌∙◌, ap, Bool, true, false, inl, inr, Option, some,
  List, [], arith, All,
}
use ai_it_dab_com.Prelude.Actions.{Result, ok, err, not_found, taken, failed, Result-cases}
use ai_it_dab_com.User.{User, UserDb, has_email, find, create, get_by_email, update_password}
use ai_it_dab_com.User.Lookup.{
  get_by_email_ok, get_by_email_found, get_by_email_users, create_found, create_users,
  update_password_found,
}
use ai_it_dab_com.Auth.Password.{
  Bcrypt, Hashed, hashed, password_too_short, password_too_long, hashing_failed, hash_password,
}
use ai_it_dab_com.Auth.Password.Laws.{IsBcrypt, hash_password_bounds}
use ai_it_dab_com.Token.{Jwt, Issuer, issue}
use ai_it_dab_com.Admin.Login.{with_token, login}
use ai_it_dab_com.Admin.Login.Laws.{login_ok}
use ai_it_dab_com.CreateSuperuser.{stored, after_lookup, after_create, after_hash, create_superuser}

module _ (fold : String → String) (uuid : ℕ → String) (parse_uuid : String → Option String) where
  -- The user with the email has the hash, and is a superuser when it was created.
  abbrev IsStored : String → String → Bool → List User → Type 0
  IsStored email hash created users =
      (y : User) × (find (has_email fold uuid parse_uuid email) users ≡ some y)
      × (y.password_hash ≡ hash)
      × ((created ≡ false) ⊎ (y.is_superuser ≡ true))

  abbrev HasIds : List User → Type 0
  HasIds users = All (λ v. parse_uuid v.id ≡ some v.id) users

  after_lookup_inv :
      (email hash : String) (r : Result User) (s : UserDb) {u : User} {created : Bool}
      → HasIds s.users
      → ((x : User) → r ≡ ok x → find (has_email fold uuid parse_uuid email) s.users ≡ some x)
      → (after_lookup fold uuid parse_uuid hash r s).0 ≡ stored u created
      → IsStored email hash created (after_lookup fold uuid parse_uuid hash r s).1.users
  after_lookup_inv email hash (err e) s ids at_email h = cc h
  after_lookup_inv email hash (ok x) s ids at_email h =
      elim (Result-cases (update_password fold uuid parse_uuid x.id hash s).0) [
        | inl (v, e) ↦
            let (y, seen, same, _) =
              update_password_found fold uuid parse_uuid email hash s ids (at_email x refl) e in
            (y, seen, same, inl (cc (rw e at h)))
        | inr (x, e) ↦ cc (rw e at h)
      ]

  after_create_inv :
      (email hash : String) (update : Bool) (r : Result User) (s : UserDb) {u : User}
      {created : Bool}
      → ((v : User)
          → r ≡ ok v
          → (find (has_email fold uuid parse_uuid email) s.users ≡ some v)
            × (v.password_hash ≡ hash)
            × (v.is_superuser ≡ true))
      → (r ≡ err taken → HasIds s.users)
      → (after_create fold uuid parse_uuid email hash update r s).0 ≡ stored u created
      → IsStored email hash created
          (after_create fold uuid parse_uuid email hash update r s).1.users
  after_create_inv email hash update (ok v) s made ids h =
      let (seen, same, su) = made v refl in (v, seen, same, inr su)
  after_create_inv email hash false (err taken) s made ids h = cc h
  after_create_inv email hash true (err taken) s made ids h =
      let t = (get_by_email fold uuid parse_uuid email s).1 in
      let same : t.users ≡ s.users = get_by_email_users fold uuid parse_uuid email s in
      after_lookup_inv email hash (get_by_email fold uuid parse_uuid email s).0 t
        (subst HasIds (sym same) (ids refl))
        (λ x e.
          ap (find (has_email fold uuid parse_uuid email)) same
          ∙ get_by_email_found fold uuid parse_uuid email s e)
        h
  after_create_inv email hash update (err not_found) s made ids h = cc h
  after_create_inv email hash update (err (failed m)) s made ids h = cc h

  after_hash_inv :
      (email : String) (update : Bool) (r : Hashed) (s : UserDb) {u : User} {created : Bool}
      → HasIds s.users
      → (after_hash fold uuid parse_uuid email update r s).0 ≡ stored u created
      → (hash : String) × (r ≡ hashed hash)
        × IsStored email hash created (after_hash fold uuid parse_uuid email update r s).1.users
  after_hash_inv email update (hashed hash) s ids h = (
    hash,
    refl,
    after_create_inv email hash update (create fold uuid parse_uuid email hash true s).0
        (create fold uuid parse_uuid email hash true s).1
        (λ v e. create_found fold uuid parse_uuid email hash true s e)
        (λ e. subst HasIds (sym (create_users fold uuid parse_uuid email hash true s e)) ids) h,
  )
  after_hash_inv email update password_too_short s ids h = cc h
  after_hash_inv email update password_too_long s ids h = cc h
  after_hash_inv email update hashing_failed s ids h = cc h

  empty_short : 8 ≤ len "" → ⊥
  empty_short h = omega arith

  -- After the command stored an account, created or with its password reset, signing in with the email
  -- and that password finds this account and goes through to its token, whatever the settings of the
  -- login; an account that was created is a superuser. The email is not empty, the ids in the table
  -- are uuids, bcrypt matches what it generated, and no statement of the login fails.
  pub create_superuser-login :
      (b : Bcrypt) (j : Jwt) (i : Issuer) (secure update : Bool) (now : ℕ) (email password : String)
      (s t : UserDb) {u : User} {created : Bool}
      → IsBcrypt b
      → email ≢ ""
      → All (λ v. parse_uuid v.id ≡ some v.id) s.users
      → (create_superuser fold uuid parse_uuid b email password update s).0 ≡ stored u created
      → t.users ≡ (create_superuser fold uuid parse_uuid b email password update s).1.users
      → t.faults ≡ []
      → (y : User) × (find
            (has_email fold uuid parse_uuid email)
            (create_superuser fold uuid parse_uuid b email password update s).1.users
          ≡ some y)
        × ((login fold uuid parse_uuid b j i secure now
              (some (record { email = email; password = password }))
              t).0
            ≡ with_token fold uuid parse_uuid b j i secure now y
                (issue j i y.id y.is_superuser now))
        × ((created ≡ false) ⊎ (y.is_superuser ≡ true))
  unfolding create_superuser
  create_superuser-login b j i secure update now email password s t law named ids h users quiet =
      let (hash, made, account) = after_hash_inv email update (hash_password b password) s ids h in
      let (y, seen, same, su) = account in
      let (bounds, _, _) = hash_password_bounds b password law in
      let (long, _, verified) = bounds hash made in
      let found =
        get_by_email_ok fold uuid parse_uuid email t quiet
          (ap (find (has_email fold uuid parse_uuid email)) users ∙ seen) in
      let given : password ≢ "" = λ e. empty_short (subst (λ p. 8 ≤ len p) e long) in
      (
        y,
        seen,
        login_ok fold uuid parse_uuid b j i secure now
            (record { email = email; password = password }) t named given found (rw same verified),
        su,
      )
