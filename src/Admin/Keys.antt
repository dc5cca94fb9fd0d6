-- ===== src/Admin/Keys.antt =====
-- backend/internal/admin/keys.go: the handlers that create, list, edit and revoke credentials. A body
-- is what the strict, size-capped JSON decoder made of it, with `none` for any problem, and the
-- response is a value.
pub mod Laws
use ai_it_dab_com.Prelude.{
  ℕ, String, Bool, false, not, Option, none, some, List, map, ◌==◌, if◌then◌else◌, trim_space,
}
use ai_it_dab_com.Prelude.Actions.{Result, ok, err, Error, not_found, taken, failed}
use ai_it_dab_com.ApiKey.{
  ApiKey, Metadata, CreateParams, UpdateParams, KeyDb, create, get_by_id, list, update, revoke,
}
use ai_it_dab_com.ApiKey.Credential.{Random, generate}
use ai_it_dab_com.ApiKey.Credential

pub record CreateKeyRequest : Type 0 where
  pub name : String
  pub persona : Option String

-- A field that the body omits is `none`.
pub record UpdateKeyRequest : Type 0 where
  pub name : Option String
  pub persona : Option String

-- The one response with the plaintext secret.
pub record KeyResponse : Type 0 where
  pub id : String
  pub key_id : String
  pub secret : String
  pub name : String
  pub persona : Option String
  pub created_at : ℕ

pub record KeyMetadataResponse : Type 0 where
  pub id : String
  pub key_id : String
  pub name : String
  pub persona : Option String
  pub created_at : ℕ
  pub revoked_at : Option ℕ
  pub last_used_at : Option ℕ

pub data Response : Type 0 where
  error : ℕ → String → String → Response
  -- 201, 200 with a list, 200 with one key, and 204
  created : KeyResponse → Response
  listed : List KeyMetadataResponse → Response
  edited : KeyMetadataResponse → Response
  no_content : Response

unfoldable pub to_metadata_response : Metadata → KeyMetadataResponse
to_metadata_response m = record {
  id = m.id;
  key_id = m.key_id;
  name = m.name;
  persona = m.persona;
  created_at = m.created_at;
  revoked_at = m.revoked_at;
  last_used_at = m.last_used_at;
}

unfoldable pub normalize_persona : Option String → Option String
normalize_persona none = none
normalize_persona (some p) = if trim_space p == "" then none else some p

-- creatorID, of the user id in the request's claims.
unfoldable pub creator_id : Option String → Option String
creator_id none = none
creator_id (some user_id) = if not (user_id == "") then some user_id else none

unfoldable pub write_store_error : Error → String → Response
write_store_error not_found message = error 404 "not_found" "api key not found"
write_store_error taken message = error 500 "internal_error" message
write_store_error (failed e) message = error 500 "internal_error" message

abbrev pub malformed : Response
malformed = error 400 "invalid_request" "request body is not valid JSON"

module _ (uuid : ℕ → String) (parse_uuid : String → Option String) where
  module _ (sha256 : String → List ℕ) (base64url : List ℕ → String) where
    abbrev answer_create : Credential.Credential → Result ApiKey → Response
    answer_create cred (err e) = error 500 "internal_error" "could not create key"
    answer_create cred (ok row) = created (record {
      id = row.id;
      key_id = row.key_id;
      secret = cred.secret;
      name = row.name;
      persona = row.persona;
      created_at = row.created_at;
    })

    abbrev pub params_of :
        Option String → String → CreateKeyRequest → Credential.Credential → CreateParams
    params_of user name req cred = record {
      key_id = cred.key_id;
      secret_hash = cred.secret_hash;
      name = name;
      persona = normalize_persona req.persona;
      created_by = creator_id user;
    }

    abbrev pub with_credential :
        Option String
        → String
        → CreateKeyRequest
        → Result Credential.Credential
        → KeyDb
        → Response × KeyDb
    with_credential user name req (err e) s =
        (error 500 "internal_error" "could not generate credential", s)
    with_credential user name req (ok cred) s =
        let (r, s') = create uuid parse_uuid (params_of user name req cred) s in
        (answer_create cred r, s')

    unfoldable pub create_key :
        Option String → Random → Option CreateKeyRequest → KeyDb → Response × KeyDb
    create_key user random none s = (malformed, s)
    create_key user random (some req) s =
        let name = trim_space req.name in
        if name == ""
        then (error 400 "invalid_request" "name is required", s)
        else with_credential user name req (generate sha256 base64url random) s

  abbrev answer_list : Result (List Metadata) → Response
  answer_list (err e) = error 500 "internal_error" "could not list keys"
  answer_list (ok keys) = listed (map to_metadata_response keys)

  pub list_keys : KeyDb → Response × KeyDb
  list_keys s = let (r, s') = list uuid parse_uuid s in (answer_list r, s')

  -- `req.Name != nil && strings.TrimSpace(*req.Name) == ""`
  abbrev pub is_blank_name : Option String → Bool
  is_blank_name none = false
  is_blank_name (some name) = trim_space name == ""

  -- A field that is omitted keeps its value.
  abbrev pub new_name : Option String → String → String
  new_name none current = current
  new_name (some name) current = trim_space name

  abbrev pub new_persona : Option String → Option String → Option String
  new_persona none current = current
  new_persona (some p) current = normalize_persona (some p)

  abbrev answer_update : Result Metadata → Response
  answer_update (err e) = write_store_error e "could not update key"
  answer_update (ok m) = edited (to_metadata_response m)

  abbrev pub with_current : String → UpdateKeyRequest → Result Metadata → KeyDb → Response × KeyDb
  with_current id req (err e) s = (write_store_error e "could not load key", s)
  with_current id req (ok current) s =
      let params : UpdateParams = record {
        name = new_name req.name current.name;
        persona = new_persona req.persona current.persona;
      } in
      let (r, s') = update uuid parse_uuid id params s in (answer_update r, s')

  pub update_key : String → Option UpdateKeyRequest → KeyDb → Response × KeyDb
  update_key id none s = (malformed, s)
  update_key id (some req) s =
      if is_blank_name req.name
      then (error 400 "invalid_request" "name cannot be empty", s)
      else (let (r, s') = get_by_id uuid parse_uuid id s in with_current id req r s')

  abbrev answer_revoke : Result (Unit {0}) → Response
  answer_revoke (err e) = write_store_error e "could not revoke key"
  answer_revoke (ok u) = no_content

  unfoldable pub revoke_key : String → KeyDb → Response × KeyDb
  revoke_key id s = let (r, s') = revoke uuid parse_uuid id s in (answer_revoke r, s')
