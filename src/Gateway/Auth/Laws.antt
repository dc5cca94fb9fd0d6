-- ===== src/Gateway/Auth/Laws.antt =====
-- Who is let in by RequireCredential, and what the others are told.
use mathlib.Core.Path.{subst}
use ai_it_dab_com.Prelude.Faults.{fails}
use ai_it_dab_com.Prelude.{
  ℕ, String, ◌≡◌, refl, sym, ◌∙◌, ap, ◌≢◌, ◌<◌, true, false, ◌||◌, ◌⊎◌, inl, inr, Option, none,
  some, List, [], arith, ◌==◌, eq_iff, Bool-cases, trim_space, All,
}
use ai_it_dab_com.Prelude.Actions.{Result, ok, err, Error, not_found, taken, failed}
use ai_it_dab_com.ApiKey.{ApiKey, CreateParams, KeyDb, find, create, revoke, get_active_by_key_id}
use ai_it_dab_com.ApiKey.Table.{active_with, IsUnique}
use ai_it_dab_com.ApiKey.Steps.{Reach}
use ai_it_dab_com.ApiKey.Lookup.{
  get_active_by_key_id_ok, get_active_by_key_id-create, create_ok, revoke_dead,
  get_active_by_key_id_err,
}
use ai_it_dab_com.ApiKey.Credential.{verify_secret, hash_secret, verify_secret-hash_secret}
use ai_it_dab_com.Gateway.Respond.{err_unauthorized, err_unavailable, status_for_error}
use ai_it_dab_com.Gateway.Chat.{Credential}
use ai_it_dab_com.Gateway.Auth.{
  Headers, Verdict, accepted, invalid_credential, store_failure, credential_of, Admission, refused,
  admitted, judge, authenticate, require_credential,
}

abbrev pub no_one : Admission
no_one = refused 401 err_unauthorized "a valid api key id and secret are required"

abbrev pub not_now : Admission
not_now = refused 503 err_unavailable "could not verify credentials, try again"

Verdict-cases :
    (v : Verdict)
    → ((c : Credential) × (v ≡ accepted c))
      ⊎ ((v ≡ invalid_credential) ⊎ ((e : Error) × (v ≡ store_failure e)))
Verdict-cases (accepted c) = inl (c, refl)
Verdict-cases invalid_credential = inr (inl refl)
Verdict-cases (store_failure e) = inr (inr (e, refl))

module _ (sha256 : String → List ℕ) (uuid : ℕ → String) (parse_uuid : String → Option String) where
  -- The row that lets the headers in: it is active, its key id is the trimmed header, and the
  -- trimmed secret verifies against its hash.
  pub record IsBacked (h : Headers) (s : KeyDb) (c : Credential) : Type 0 where
    pub row : ApiKey
    pub found : find (active_with (trim_space h.key_id)) s.keys ≡ some row
    pub key : row.key_id ≡ trim_space h.key_id
    pub unrevoked : row.revoked_at ≡ none
    pub verified : verify_secret sha256 (trim_space h.secret) row.secret_hash ≡ true
    pub same : credential_of row ≡ c

  judge_accepted :
      (secret : String) (r : Result ApiKey) {c : Credential}
      → judge sha256 uuid parse_uuid secret r ≡ accepted c
      → (row : ApiKey) × (r ≡ ok row)
        × (verify_secret sha256 secret row.secret_hash ≡ true)
        × (credential_of row ≡ c)
  judge_accepted secret (err not_found) h = cc
  judge_accepted secret (err taken) h = cc
  judge_accepted secret (err (failed e)) h = cc
  judge_accepted secret (ok row) h =
      elim (Bool-cases (verify_secret sha256 secret row.secret_hash)) [
        | inl e ↦ (row, refl, e, cc (rw e at h))
        | inr e ↦ cc (rw e at h)
      ]

  authenticate-IsBacked :
      (h : Headers) (s : KeyDb) {c : Credential}
      → (authenticate sha256 uuid parse_uuid h s).0 ≡ accepted c
      → IsBacked h s c
  unfolding authenticate
  authenticate-IsBacked h s e =
      let key_id = trim_space h.key_id in
      let secret = trim_space h.secret in
      elim (Bool-cases (key_id == "" || secret == "")) [
        | inl empty ↦ cc (rw empty at e)
        | inr full ↦
            let (row, got, verified, same) =
              judge_accepted secret (get_active_by_key_id uuid parse_uuid key_id s).0
                (rw full at e) in
            let (key, unrevoked, found) = get_active_by_key_id_ok uuid parse_uuid key_id s got in
            record {
              row = row;
              found = found;
              key = key;
              unrevoked = unrevoked;
              verified = verified;
              same = same;
            }
      ]

  judge_store_failure :
      (secret : String) (r : Result ApiKey) {e : Error}
      → judge sha256 uuid parse_uuid secret r ≡ store_failure e
      → (r ≡ err e) × (e ≢ not_found)
  judge_store_failure secret (err not_found) h = cc
  judge_store_failure secret (err taken) h = (cc, λ n. cc)
  judge_store_failure secret (err (failed e)) h = (cc, λ n. cc)
  judge_store_failure secret (ok row) h =
      elim (Bool-cases (verify_secret sha256 secret row.secret_hash)) [
        | inl e ↦ cc (rw e at h)
        | inr e ↦ cc (rw e at h)
      ]

  authenticate-store_failure :
      (h : Headers) (s : KeyDb) {e : Error}
      → (authenticate sha256 uuid parse_uuid h s).0 ≡ store_failure e
      → fails s.faults ≡ true
  unfolding authenticate
  authenticate-store_failure h s {e = x} e =
      let key_id = trim_space h.key_id in
      let secret = trim_space h.secret in
      elim (Bool-cases (key_id == "" || secret == "")) [
        | inl empty ↦ cc (rw empty at e)
        | inr full ↦
            let (failed_with, other) =
              judge_store_failure secret (get_active_by_key_id uuid parse_uuid key_id s).0
                (rw full at e) in
            get_active_by_key_id_err uuid parse_uuid key_id s failed_with other
      ]

  -- The answer of RequireCredential is one of three: the credential of an active row whose key id
  -- is the header's and whose hash the secret verifies against; the 401 that is the same for every
  -- refusal, so that an unknown key id cannot be told from a wrong secret or a missing header; or
  -- the 503, only where the store failed.
  pub require_credential-cases :
      (h : Headers) (s : KeyDb)
      → let r = (require_credential sha256 uuid parse_uuid h s).0 in
        ((c : Credential) × (r ≡ admitted c) × IsBacked h s c)
        ⊎ ((r ≡ no_one) ⊎ ((r ≡ not_now) × (fails s.faults ≡ true)))
  unfolding require_credential status_for_error
  require_credential-cases h s = elim (Verdict-cases (authenticate sha256 uuid parse_uuid h s).0) [
    | inl (c, e) ↦ rw e (inl (c, refl, authenticate-IsBacked h s e))
    | inr (inl e) ↦ rw e (inr (inl refl))
    | inr (inr (x, e)) ↦ rw e (inr (inr (refl, authenticate-store_failure h s e)))
  ]

  pub admitted-IsBacked :
      (h : Headers) (s : KeyDb) {c : Credential}
      → (require_credential sha256 uuid parse_uuid h s).0 ≡ admitted c
      → IsBacked h s c
  admitted-IsBacked h s e = elim (require_credential-cases h s) [
    | inl (c, a, b) ↦ subst (IsBacked h s) (cc (a, e)) b
    | inr (inl denied) ↦ cc (denied, e)
    | inr (inr (down, _)) ↦ cc (down, e)
  ]

  -- After a credential is revoked, no request under its key id is let in, whatever its secret, and
  -- whatever calls are made in between.
  pub require_credential_revoked :
      (id : String) (h : Headers) (s t : KeyDb) {r : ApiKey} {c : Credential} {u : Unit {0}}
      → IsUnique s.keys
      → find (active_with (trim_space h.key_id)) s.keys ≡ some r
      → parse_uuid id ≡ some r.id
      → (revoke uuid parse_uuid id s).0 ≡ ok u
      → Reach uuid parse_uuid (revoke uuid parse_uuid id s).1 t
      → (require_credential sha256 uuid parse_uuid h t).0 ≢ admitted c
  require_credential_revoked id h s t unique found good done reach e =
      let b = admitted-IsBacked h t e in
      let dead =
        revoke_dead uuid parse_uuid id (trim_space h.key_id) s t unique found good done reach in
      cc (b.found, dead)

module _ (sha256 : String → List ℕ) (bytes : (s : String) → All (λ b. b < 256) (sha256 s))
    (uuid : ℕ → String) (parse_uuid : String → Option String) where
  -- Minting and authenticating agree: a credential that was created with the hash of a secret is
  -- admitted with that secret, from any later state with the same rows where the store works.
  pub require_credential-create :
      (p : CreateParams) (h : Headers) (s t : KeyDb) {k : ApiKey}
      → p.secret_hash ≡ hash_secret sha256 (trim_space h.secret)
      → p.key_id ≡ trim_space h.key_id
      → trim_space h.key_id ≢ ""
      → trim_space h.secret ≢ ""
      → (create uuid parse_uuid p s).0 ≡ ok k
      → t.keys ≡ (create uuid parse_uuid p s).1.keys
      → t.faults ≡ []
      → (require_credential sha256 uuid parse_uuid h t).0 ≡ admitted (credential_of k)
  unfolding require_credential authenticate
  require_credential-create p h s t {k} hash key named secret made same quiet =
      let got =
        ap (λ x. (get_active_by_key_id uuid parse_uuid x t).0) (sym key)
        ∙ get_active_by_key_id-create uuid parse_uuid p s t made same quiet in
      let verified : verify_secret sha256 (trim_space h.secret) k.secret_hash ≡ true =
        ap (verify_secret sha256 (trim_space h.secret))
          ((create_ok uuid parse_uuid p s made).0 ∙ hash)
        ∙ (verify_secret-hash_secret sha256 bytes (trim_space h.secret) (trim_space h.secret)).1
            refl in
      let full : (trim_space h.key_id == "" || trim_space h.secret == "") ≡ false =
        ground (arith, eq_iff (trim_space h.key_id) "", eq_iff (trim_space h.secret) "") in
      rw (full, got, verified) refl
