-- ===== src/User/Unique.antt =====
-- Every sequence of writes to the users table keeps the emails unique, compared without case.
use ai_it_dab_com.Prelude.{
  ℕ, String, ◌≡◌, refl, ap, ◌∙◌, Bool, false, ◌||◌, Bool-cases, Option-cases, inl, inr, Option,
  List, [], ◌∷◌, ◌++◌, arith, ◌==◌, eq_iff, any,
}
use ai_it_dab_com.Prelude.Faults.{fails}
use ai_it_dab_com.User.{
  User, UserDb, statement, find, update_where, has_email, create, update_password,
}

module _ (fold : String → String) (uuid : ℕ → String) (parse_uuid : String → Option String) where
  -- The unique index of the table.
  abbrev pub IsUnique : List User → Type 0
  IsUnique [] = Unit
  IsUnique (u ∷ us) = (any (λ v. fold v.email == fold u.email) us ≡ false) × IsUnique us

  any-append : (p : User → Bool) (us vs : List User) → any p (us ++ vs) ≡ (any p us || any p vs)
  any-append p [] vs = refl
  any-append p (u ∷ us) vs = ground (arith, any-append p us vs)

  -- An edit that `q` does not see.
  any-update_where :
      (q p : User → Bool) (f : User → User) (us : List User)
      → ((u : User) → q (f u) ≡ q u)
      → any q (update_where p f us) ≡ any q us
  any-update_where q p f [] h = refl
  any-update_where q p f (u ∷ us) h = ground (arith, h u, any-update_where q p f us h)

  IsUnique-append :
      (us : List User) (u : User)
      → any (has_email fold uuid parse_uuid u.email) us ≡ false
      → IsUnique us
      → IsUnique (us ++ u ∷ [])
  IsUnique-append [] u e h = (refl, tt)
  IsUnique-append (v ∷ vs) u e (new, h) = (
    ground (
      arith,
      any-append (λ w. fold w.email == fold v.email) vs (u ∷ []),
      eq_iff (fold v.email) (fold u.email),
      eq_iff (fold u.email) (fold v.email),
    ),
    IsUnique-append vs u (ground arith) h,
  )

  IsUnique-update_where :
      (p : User → Bool) (f : User → User) (us : List User)
      → ((u : User) → (f u).email ≡ u.email)
      → IsUnique us
      → IsUnique (update_where p f us)
  IsUnique-update_where p f [] h u = tt
  IsUnique-update_where p f (k ∷ ks) h (new, u) =
      let rest = IsUnique-update_where p f ks h u in
      let hidden =
        any-update_where (λ v. fold v.email == fold k.email) p f ks
          (λ j. ap (λ x. fold x == fold k.email) (h j)) in
      elim (Bool-cases (p k)) [
        | inl e ↦ rw (e, h k) (hidden ∙ new, rest)
        | inr e ↦ rw e (hidden ∙ new, rest)
      ]

  -- What changes the table: a call of a method that writes, or time passing and the coming failures
  -- being chosen.
  pub data Step (s : UserDb) : UserDb → Type 0 where
    created :
        (email hash : String) (su : Bool) → Step s (create fold uuid parse_uuid email hash su s).1
    reset : (id hash : String) → Step s (update_password fold uuid parse_uuid id hash s).1
    waited : (now : ℕ) (faults : List Bool) → Step s (record s { now = now; faults = faults })

  pub data Reach (s : UserDb) : UserDb → Type 0 where
    here : Reach s s
    next : {t u : UserDb} → Reach s t → Step t u → Reach s u

  create-IsUnique :
      (email hash : String) (su : Bool) (s : UserDb)
      → IsUnique s.users
      → IsUnique (create fold uuid parse_uuid email hash su s).1.users
  unfolding create statement
  create-IsUnique email hash su s h = elim (Bool-cases (fails s.faults)) [
    | inl down ↦ rw down h
    | inr up ↦ elim (Bool-cases (any (has_email fold uuid parse_uuid email) s.users)) [
      | inl used ↦ rw (up, used) h
      | inr free ↦ rw (up, free) (IsUnique-append s.users _ free h)
    ]
  ]

  update_password-IsUnique :
      (id hash : String) (s : UserDb)
      → IsUnique s.users
      → IsUnique (update_password fold uuid parse_uuid id hash s).1.users
  unfolding update_password statement
  update_password-IsUnique id hash s h = elim (Bool-cases (fails s.faults)) [
    | inl down ↦ rw down h
    | inr up ↦ elim (Option-cases (parse_uuid id)) [
      | inl bad ↦ rw (up, bad) h
      | inr (i, good) ↦
          let edit = λ (u : User). record u { password_hash = hash; updated_at = s.now } in
          let users = update_where (λ u. u.id == i) edit s.users in
          let kept = IsUnique-update_where (λ u. u.id == i) edit s.users (λ u. refl) h in
          elim (Option-cases (find (λ u. u.id == i) users)) [
            | inl missing ↦ rw (up, good, missing) kept
            | inr (u, found) ↦ rw (up, good, found) kept
          ]
    ]
  ]

  Step-IsUnique : {s t : UserDb} → Step s t → IsUnique s.users → IsUnique t.users
  Step-IsUnique {s} (created email hash su) h = create-IsUnique email hash su s h
  Step-IsUnique {s} (reset id hash) h = update_password-IsUnique id hash s h
  Step-IsUnique (waited now faults) h = h

  -- Whatever calls are made, in any order and with any failures, no two accounts have emails that
  -- compare equal without case.
  pub Reach-IsUnique_emails : {s t : UserDb} → IsUnique s.users → Reach s t → IsUnique t.users
  Reach-IsUnique_emails h here = h
  Reach-IsUnique_emails h (next r st) = Step-IsUnique st (Reach-IsUnique_emails h r)
