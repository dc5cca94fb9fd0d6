-- ===== src/ApiKey/Credential/Minting.antt =====
-- What Generate mints.
use Prim.Native.String
use text.Mathlib.TextLemmas.{append-eq-nil_iff}
use ai_it_dab_com.Prelude.{String, ℕ, ◌≡◌, ◌≢◌, List, arith, eq_iff, Option-cases, inl, inr}
use ai_it_dab_com.Prelude.Actions.{ok}
use ai_it_dab_com.ApiKey.Credential.{
  Credential, Random, generate, rand_token, hash_secret, key_id_prefix, secret_prefix, key_id_bytes,
  secret_bytes,
}

key_id_prefix-ne-nil : key_id_prefix ≢ ""
key_id_prefix-ne-nil = ground (arith, eq_iff key_id_prefix "")

secret_prefix-ne-nil : secret_prefix ≢ ""
secret_prefix-ne-nil = ground (arith, eq_iff secret_prefix "")

prefixed-ne-nil : (p s : String) → p ≢ "" → String.◌++◌ p s ≢ ""
prefixed-ne-nil p s n e = n ((append-eq-nil_iff {p = p} {q = s}).0 e).0

module _ (sha256 : String → List ℕ) (base64url : List ℕ → String) where
  -- A minted credential has a key id and a secret, and the hash is that of the secret.
  pub generate_ok :
      (r : Random) {c : Credential}
      → generate sha256 base64url r ≡ ok c
      → (c.key_id ≢ "") × (c.secret ≢ "") × (c.secret_hash ≡ hash_secret sha256 c.secret)
  unfolding generate rand_token
  generate_ok r {c} h = elim (Option-cases (r.first key_id_bytes)) [
    | inl e ↦ cc (rw e at h)
    | inr (a, e) ↦ elim (Option-cases (r.second secret_bytes)) [
      | inl e' ↦ cc (rw (e, e') at h)
      | inr (b, e') ↦
          let g = rw (e, e') at h in
          let key : c.key_id ≡ String.◌++◌ key_id_prefix (base64url a) = cc g in
          let secret : c.secret ≡ String.◌++◌ secret_prefix (base64url b) = cc g in
          (
            rw key (prefixed-ne-nil key_id_prefix (base64url a) key_id_prefix-ne-nil),
            rw secret (prefixed-ne-nil secret_prefix (base64url b) secret_prefix-ne-nil),
            cc (g, secret),
          )
    ]
  ]
