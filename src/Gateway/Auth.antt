-- ===== src/Gateway/Auth.antt =====
-- backend/internal/gateway/auth.go: the two-key authentication of a gateway request.
pub mod Laws
use ai_it_dab_com.Prelude.{
  ℕ, String, Bool, true, false, ◌||◌, Option, none, some, List, ◌==◌, if◌then◌else◌, trim_space,
}
use ai_it_dab_com.Prelude.Actions.{Result, ok, err, Error, not_found, taken, failed, Action}
use ai_it_dab_com.ApiKey.{ApiKey, KeyDb, get_active_by_key_id, touch_last_used}
use ai_it_dab_com.ApiKey.Credential.{verify_secret}
use ai_it_dab_com.Gateway.Respond.{err_unauthorized, err_unavailable, status_for_error}
use ai_it_dab_com.Gateway.Chat.{Credential}

-- The two headers; http.Header.Get gives "" for a missing one.
pub record Headers : Type 0 where
  pub key_id : String
  pub secret : String

-- authenticate's results: the credential, errInvalidCredential, or a failure of the store.
pub data Verdict : Type 0 where
  accepted : Credential → Verdict
  invalid_credential : Verdict
  store_failure : Error → Verdict

unfoldable pub credential_of : ApiKey → Credential
credential_of row = record {
  id = row.id;
  key_id = row.key_id;
  name = row.name;
  persona = row.persona;
  owner_id = row.created_by;
}

-- The answer of RequireCredential: the error to write, or the credential for the next handler.
pub data Admission : Type 0 where
  refused : (status : ℕ) → (err_type : String) → (message : String) → Admission
  admitted : Credential → Admission

module _ (sha256 : String → List ℕ) (uuid : ℕ → String) (parse_uuid : String → Option String) where
  -- The dummy verification of an unknown key id spends time and decides nothing.
  abbrev pub judge : String → Result ApiKey → Verdict
  judge secret (err not_found) = invalid_credential
  judge secret (err taken) = store_failure taken
  judge secret (err (failed e)) = store_failure (failed e)
  judge secret (ok row) =
      if verify_secret sha256 secret row.secret_hash
      then accepted (credential_of row)
      else invalid_credential

  pub authenticate : Headers → KeyDb → Verdict × KeyDb
  authenticate h s =
      let key_id = trim_space h.key_id in
      let secret = trim_space h.secret in
      if key_id == "" || secret == ""
      then (invalid_credential, s)
      else (let (r, s') = get_active_by_key_id uuid parse_uuid key_id s in (judge secret r, s'))

  abbrev admit : Verdict → KeyDb → Admission × KeyDb
  admit (accepted cred) s = (admitted cred, (touch_last_used uuid parse_uuid cred.id s).1)
  admit invalid_credential s = (
    refused (status_for_error err_unauthorized) err_unauthorized
        "a valid api key id and secret are required",
    s,
  )
  admit (store_failure e) s = (
    refused (status_for_error err_unavailable) err_unavailable
        "could not verify credentials, try again",
    s,
  )

  -- The touch is made before the next handler; in the source it runs on a goroutine of its own.
  pub require_credential : Headers → KeyDb → Admission × KeyDb
  require_credential h s = let (v, s') = authenticate h s in admit v s'
