-- ===== src/Token/Laws.antt =====
-- Parse reads back what Issue signed, until it expires, and accepts only the issuer's own method.
use ai_it_dab_com.Prelude.{
  ℕ, ◌+◌, String, ◌≡◌, refl, sym, ◌≢◌, Bool, true, false, Option, none, some, List, [], ◌∷◌, arith,
  ◌==◌, eq_iff, any, ltb, if◌then◌else◌, Bool-cases, Option-cases, inl, inr,
}
use ai_it_dab_com.Token.{
  Jwt, AppClaims, Claims, Issuer, signing_alg, key_for, claims_for, issue, parse,
}

-- The time is before the expiry, where there is one: the library takes a token without one.
abbrev pub unexpired : ℕ → Option ℕ → Bool
unexpired now none = true
unexpired now (some expires_at) = ltb now expires_at

-- What the library promises: a token that it signed is read back, under the key function's key for
-- its method, as long as the time is before the expiry; a signed token is no empty text; and what it
-- accepts is unexpired and the claims that the token `carries` under a signature that verifies by the
-- key that the key function gave for a valid method.
pub record IsJwt (j : Jwt) (carries : (alg key token : String) → Option AppClaims) : Type 0 where
  pub reads_back :
      (alg key token : String) (c : AppClaims) (keys : String → Option String) (now : ℕ)
      → j.signed alg c key ≡ some token
      → keys alg ≡ some key
      → j.parse_with_claims keys (alg ∷ []) now token
        ≡ (if unexpired now c.expires_at then some c else none)
  pub non_empty :
      (alg key token : String) (c : AppClaims) → j.signed alg c key ≡ some token → token ≢ ""
  pub sound :
      (keys : String → Option String) (methods : List String) (now : ℕ) (token : String)
      (c : AppClaims)
      → j.parse_with_claims keys methods now token ≡ some c
      → (alg : String) × (key : String) × (any (λ m. m == alg) methods ≡ true)
        × (keys alg ≡ some key)
        × (carries alg key token ≡ some c)
        × (unexpired now c.expires_at ≡ true)

-- The key function gives the secret, and only for a method that is valid.
key_for-some :
    (i : Issuer) (alg key : String)
    → any (λ m. m == alg) (signing_alg ∷ []) ≡ true
    → key_for i alg ≡ some key
    → (alg ≡ signing_alg) × (key ≡ i.secret)
key_for-some i alg key valid keyed = elim (Bool-cases (signing_alg == alg)) [
  | inl same ↦ ground (arith, eq_iff signing_alg alg, eq_iff alg signing_alg)
  | inr other ↦ cc (rw other at valid)
]

module _ (j : Jwt) (carries : (alg key token : String) → Option AppClaims)
    (laws : IsJwt j carries) where
  -- A token that Issue made is read back as its user by Parse of the same issuer at any time before
  -- its expiry, and is invalid from then on.
  pub parse-issue :
      (i : Issuer) (user_id : String) (is_superuser : Bool) (now later : ℕ) {token : String}
      → user_id ≢ ""
      → issue j i user_id is_superuser now ≡ some token
      → parse j i token later ≡ (
          if ltb later (j.numeric_date (now + i.ttl))
          then some (record { user_id = user_id; is_superuser = is_superuser })
          else none)
  unfolding parse issue
  parse-issue i user_id is_superuser now later {token} known signed =
      let c = claims_for j i user_id is_superuser now in
      let key : key_for i signing_alg ≡ some i.secret =
        ground (arith, eq_iff signing_alg signing_alg) in
      let back = laws.reads_back signing_alg i.secret token c (key_for i) later signed key in
      let named : (user_id == "") ≡ false = ground (arith, eq_iff user_id "") in
      elim (Bool-cases (ltb later (j.numeric_date (now + i.ttl)))) [
        | inl live ↦ rw (back, live, named) refl
        | inr dead ↦ rw (back, dead) refl
      ]

  pub issue_nonempty :
      (i : Issuer) (user_id : String) (is_superuser : Bool) (now : ℕ) {token : String}
      → issue j i user_id is_superuser now ≡ some token
      → token ≢ ""
  unfolding issue
  issue_nonempty i user_id is_superuser now {token} signed =
      laws.non_empty signing_alg i.secret token (claims_for j i user_id is_superuser now) signed

  -- Parse accepts only tokens whose signature verifies as HS256 under the issuer's own secret, that
  -- name a user and carry no expiry that is past, and gives the user that they carry.
  pub parse_sound :
      (i : Issuer) (token : String) (now : ℕ) {c : Claims}
      → parse j i token now ≡ some c
      → (a : AppClaims) × (carries signing_alg i.secret token ≡ some a)
        × (unexpired now a.expires_at ≡ true)
        × (a.subject ≢ "")
        × (c ≡ record { user_id = a.subject; is_superuser = a.is_superuser })
  unfolding parse
  parse_sound i token now {c} h =
      elim (Option-cases (j.parse_with_claims (key_for i) (signing_alg ∷ []) now token)) [
        | inl bad ↦ cc (rw bad at h)
        | inr (a, e) ↦
            let (alg, key, valid, keyed, verified, live) =
              laws.sound (key_for i) (signing_alg ∷ []) now token a e in
            let h' = rw e at h in
            elim (Bool-cases (a.subject == "")) [
              | inl empty ↦ cc (rw empty at h')
              | inr named ↦
                  let claims = rw named at h' in
                  let (same_alg, same_key) = key_for-some i alg key valid keyed in
                  let carried : carries signing_alg i.secret token ≡ some a =
                    rw (sym same_alg, sym same_key) verified in
                  let known : a.subject ≢ "" = ground (arith, eq_iff a.subject "") in
                  (a, carried, live, known, cc claims)
            ]
      ]
