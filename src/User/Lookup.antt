-- ===== src/User/Lookup.antt =====
-- What GetByEmail finds after an account was created, or had its password reset.
use ai_it_dab_com.Prelude.{
  ℕ, String, ◌≡◌, refl, ◌∙◌, ap, Bool, true, false, Bool-cases, Option-cases, inl, inr, Option,
  some, List, [], ◌∷◌, ◌++◌, arith, ◌==◌, eq_iff, any, All, if◌then◌else◌,
}
use ai_it_dab_com.Prelude.Faults.{fails}
use ai_it_dab_com.Prelude.Actions.{ok, err, taken}
use ai_it_dab_com.User.{
  User, UserDb, statement, find, update_where, has_email, create, get_by_email, update_password,
}

find-append :
    (p : User → Bool) (us : List User) (u : User)
    → any p us ≡ false
    → find p (us ++ u ∷ []) ≡ find p (u ∷ [])
find-append p [] u e = refl
find-append p (v ∷ vs) u e = ground (arith, find-append p vs u)

-- An edit that `p` does not see, of the row that `p` finds.
find-update_where :
    (p q : User → Bool) (f : User → User) (us : List User) {u : User}
    → ((v : User) → p (f v) ≡ p v)
    → find p us ≡ some u
    → find p (update_where q f us) ≡ some (if q u then f u else u)
find-update_where p q f [] h e = cc
find-update_where p q f (v ∷ vs) {u} h e = ground (arith, h v, find-update_where p q f vs {u = u} h)

pub find-All :
    (P : User → Type 0) (p : User → Bool) (us : List User) {u : User}
    → All P us
    → find p us ≡ some u
    → P u
find-All P p [] h e = cc
find-All P p (v ∷ vs) {u} (x, h) e = elim (Bool-cases (p v)) [
  | inl hit ↦ (let same : v ≡ u = cc (rw hit at e) in rw (← same) x)
  | inr missed ↦ find-All P p vs h (rw missed at e)
]

module _ (fold : String → String) (uuid : ℕ → String) (parse_uuid : String → Option String) where
  pub get_by_email_ok :
      (email : String) (s : UserDb) {u : User}
      → s.faults ≡ []
      → find (has_email fold uuid parse_uuid email) s.users ≡ some u
      → (get_by_email fold uuid parse_uuid email s).0 ≡ ok u
  unfolding get_by_email statement
  get_by_email_ok email s quiet e = rw (quiet, e) refl

  pub get_by_email_found :
      (email : String) (s : UserDb) {u : User}
      → (get_by_email fold uuid parse_uuid email s).0 ≡ ok u
      → find (has_email fold uuid parse_uuid email) s.users ≡ some u
  unfolding get_by_email statement
  get_by_email_found email s h = elim (Bool-cases (fails s.faults)) [
    | inl down ↦ cc (rw down at h)
    | inr up ↦ elim (Option-cases (find (has_email fold uuid parse_uuid email) s.users)) [
      | inl missing ↦ cc (rw (up, missing) at h)
      | inr (u, e) ↦ (let same = rw (up, e) at h in e ∙ ap some (cc same))
    ]
  ]

  pub get_by_email_users :
      (email : String) (s : UserDb) → (get_by_email fold uuid parse_uuid email s).1.users ≡ s.users
  unfolding get_by_email statement
  get_by_email_users email s = ground arith

  pub create_found :
      (email hash : String) (su : Bool) (s : UserDb) {u : User}
      → (create fold uuid parse_uuid email hash su s).0 ≡ ok u
      → (find
            (has_email fold uuid parse_uuid email)
            (create fold uuid parse_uuid email hash su s).1.users
          ≡ some u)
        × (u.password_hash ≡ hash)
        × (u.is_superuser ≡ su)
  unfolding create statement
  create_found email hash su s {u} h = elim (Bool-cases (fails s.faults)) [
    | inl down ↦ cc (rw down at h)
    | inr up ↦ elim (Bool-cases (any (has_email fold uuid parse_uuid email) s.users)) [
      | inl used ↦ cc (rw (up, used) at h)
      | inr free ↦
          let row : User = record {
            id = uuid s.serial;
            email = email;
            password_hash = hash;
            is_superuser = su;
            created_at = s.now;
            updated_at = s.now;
          } in
          let made : row ≡ u = cc (rw (up, free) at h) in
          let own = find-append (has_email fold uuid parse_uuid email) s.users row free in
          rw (up, free) (own ∙ ground (arith, eq_iff (fold email) (fold email)), cc made, cc made)
    ]
  ]

  pub create_users :
      (email hash : String) (su : Bool) (s : UserDb)
      → (create fold uuid parse_uuid email hash su s).0 ≡ err taken
      → (create fold uuid parse_uuid email hash su s).1.users ≡ s.users
  unfolding create statement
  create_users email hash su s h = ground arith

  pub update_password_found :
      (email hash : String) (s : UserDb) {x u : User}
      → All (λ v. parse_uuid v.id ≡ some v.id) s.users
      → find (has_email fold uuid parse_uuid email) s.users ≡ some x
      → (update_password fold uuid parse_uuid x.id hash s).0 ≡ ok u
      → (y : User) × (find
            (has_email fold uuid parse_uuid email)
            (update_password fold uuid parse_uuid x.id hash s).1.users
          ≡ some y)
        × (y.password_hash ≡ hash)
        × (y.is_superuser ≡ x.is_superuser)
  unfolding update_password statement
  update_password_found email hash s {x} ids found h =
      let good =
        find-All (λ v. parse_uuid v.id ≡ some v.id) (has_email fold uuid parse_uuid email) s.users
          ids found in
      let edit = λ (u : User). record u { password_hash = hash; updated_at = s.now } in
      let users = update_where (λ u. u.id == x.id) edit s.users in
      let mine : (x.id == x.id) ≡ true = ground (arith, eq_iff x.id x.id) in
      let now_found =
        find-update_where (has_email fold uuid parse_uuid email) (λ u. u.id == x.id) edit s.users
          (λ v. refl) found in
      let seen : find (has_email fold uuid parse_uuid email) users ≡ some (edit x) =
        rw mine at now_found in
      elim (Bool-cases (fails s.faults)) [
        | inl down ↦ cc (rw down at h)
        | inr up ↦ elim (Option-cases (find (λ u. u.id == x.id) users)) [
          | inl missing ↦ cc (rw (up, good, missing) at h)
          | inr (u, e) ↦ rw (up, good, e) (edit x, seen, refl, refl)
        ]
      ]
