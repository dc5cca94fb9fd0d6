-- ===== src/Admin/Keys/Laws.antt =====
-- What the admin's handlers promise of a credential.
use ai_it_dab_com.Prelude.{
  ℕ, String, ◌≡◌, sym, ◌∙◌, ◌≢◌, ◌<◌, Option, some, List, [], ◌==◌, Bool-cases, inl, inr,
  trim_space, All,
}
use ai_it_dab_com.Prelude.Actions.{ok, not_found, taken, failed, Result-cases}
use ai_it_dab_com.ApiKey.{ApiKey, KeyDb, create, revoke, find}
use ai_it_dab_com.ApiKey.Table.{active_with, IsUnique}
use ai_it_dab_com.ApiKey.Steps.{Reach}
use ai_it_dab_com.ApiKey.Lookup.{create_ok}
use ai_it_dab_com.ApiKey.Credential.{Random, generate}
use ai_it_dab_com.ApiKey.Credential.Minting.{generate_ok}
use ai_it_dab_com.Gateway.Chat
use ai_it_dab_com.Gateway.Auth.{Headers, admitted, credential_of, require_credential}
use ai_it_dab_com.Gateway.Auth.Laws.{require_credential-create, require_credential_revoked}
use ai_it_dab_com.Admin.Keys.{
  CreateKeyRequest, KeyResponse, created, no_content, normalize_persona, creator_id, params_of,
  with_credential, create_key, revoke_key, write_store_error,
}

module _ (sha256 : String → List ℕ) (bytes : (s : String) → All (λ b. b < 256) (sha256 s))
    (base64url : List ℕ → String) (uuid : ℕ → String) (parse_uuid : String → Option String) where
  with_credential-admitted :
      (user : Option String) (name : String) (req : CreateKeyRequest) (random : Random)
      (s t : KeyDb) {k : KeyResponse}
      → let answer =
          with_credential uuid parse_uuid sha256 base64url user name req
            (generate sha256 base64url random)
            s in
        answer.0 ≡ created k
        → trim_space k.key_id ≡ k.key_id
        → trim_space k.secret ≡ k.secret
        → t.keys ≡ answer.1.keys
        → t.faults ≡ []
        → let headers : Headers = record { key_id = k.key_id; secret = k.secret } in
          (require_credential sha256 uuid parse_uuid headers t).0
          ≡ admitted (record {
            id = k.id;
            key_id = k.key_id;
            name = name;
            persona = normalize_persona req.persona;
            owner_id = creator_id user;
          })
  unfolding credential_of
  with_credential-admitted user name req random s t {k} made clean_id clean_secret same quiet =
      elim (Result-cases (generate sha256 base64url random)) [
        | inr (e, bad) ↦ cc (rw bad at made)
        | inl (cred, minted) ↦
            let p = params_of uuid parse_uuid sha256 base64url user name req cred in
            let (some_id, some_secret, hash) = generate_ok sha256 base64url random minted in
            elim (Result-cases (create uuid parse_uuid p s).0) [
              | inr (e, bad) ↦ cc (rw (minted, bad) at made)
              | inl (row, stored) ↦
                  let answered = rw (minted, stored) at made in
                  let kept = rw minted at same in
                  let (_, id, named, told, by) = create_ok uuid parse_uuid p s stored in
                  let secret : k.secret ≡ cred.secret = cc answered in
                  let key : k.key_id ≡ cred.key_id = cc (answered, id) in
                  let headers : Headers = record { key_id = k.key_id; secret = k.secret } in
                  require_credential-create sha256 bytes uuid parse_uuid p headers s t
                    (rw (clean_secret, secret) hash) (sym (clean_id ∙ key))
                    (rw (clean_id, key) some_id) (rw (clean_secret, secret) some_secret) stored kept
                    quiet
                  ∙ cc (answered, id, named, told, by, key)
            ]
      ]

  -- The whole life of a key's first use: where the handler answers 201, the key id and the secret in
  -- that one response, sent back as headers, are admitted as the new credential, with the name
  -- trimmed, a blank persona dropped, and the admin as the owner. The request is made in any later
  -- state with the same rows where the store works, and the two texts have no outer white space,
  -- which base64url never has.
  pub create_key-admitted :
      (user : Option String) (req : CreateKeyRequest) (random : Random) (s t : KeyDb)
      {k : KeyResponse}
      → let answer = create_key uuid parse_uuid sha256 base64url user random (some req) s in
        answer.0 ≡ created k
        → trim_space k.key_id ≡ k.key_id
        → trim_space k.secret ≡ k.secret
        → t.keys ≡ answer.1.keys
        → t.faults ≡ []
        → let headers : Headers = record { key_id = k.key_id; secret = k.secret } in
          (require_credential sha256 uuid parse_uuid headers t).0
          ≡ admitted (record {
            id = k.id;
            key_id = k.key_id;
            name = trim_space req.name;
            persona = normalize_persona req.persona;
            owner_id = creator_id user;
          })
  unfolding create_key
  create_key-admitted user req random s t made clean_id clean_secret same quiet =
      let name = trim_space req.name in
      elim (Bool-cases (name == "")) [
        | inl blank ↦ cc (rw blank at made)
        | inr named ↦
            let made' = rw named at made in
            let same' = rw named at same in
            with_credential-admitted user name req random s t made' clean_id clean_secret same'
              quiet
      ]

module _ (sha256 : String → List ℕ) (uuid : ℕ → String) (parse_uuid : String → Option String) where
  revoke_key_ok :
      (id : String) (s : KeyDb)
      → (revoke_key uuid parse_uuid id s).0 ≡ no_content
      → (u : Unit {0}) × ((revoke uuid parse_uuid id s).0 ≡ ok u)
  unfolding revoke_key write_store_error
  revoke_key_ok id s h = elim (Result-cases (revoke uuid parse_uuid id s).0) [
    | inl (u, done) ↦ (u, done)
    | inr (not_found, e) ↦ cc (rw e at h)
    | inr (taken, e) ↦ cc (rw e at h)
    | inr (failed x, e) ↦ cc (rw e at h)
  ]

  -- Where the handler answers 204, the credential has stopped authenticating: no later request under
  -- its key id is let in, whatever calls are made in between.
  pub revoke_key_final :
      (id : String) (h : Headers) (s t : KeyDb) {r : ApiKey} {c : Chat.Credential}
      → IsUnique s.keys
      → find (active_with (trim_space h.key_id)) s.keys ≡ some r
      → parse_uuid id ≡ some r.id
      → (revoke_key uuid parse_uuid id s).0 ≡ no_content
      → Reach uuid parse_uuid (revoke_key uuid parse_uuid id s).1 t
      → (require_credential sha256 uuid parse_uuid h t).0 ≢ admitted c
  unfolding revoke_key
  revoke_key_final id h s t unique found good answered reach =
      let (_, done) = revoke_key_ok id s answered in
      require_credential_revoked sha256 uuid parse_uuid id h s t unique found good done reach
