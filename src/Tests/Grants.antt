-- ===== src/Tests/Grants.antt =====
-- sdk/local_credentials.go and sdk/credential_grant.go on one grant.
use serviceradar_sdk_go.Base.{false, [], ◌∷◌, ◌≡◌, ◌⊎◌, refl, none, some, ok}
use serviceradar_sdk_go.Strings.{
  Bytes, str, pos, trim_space, any_of, equal_fold, has_prefix, atoi, itoa, digits_from, to_upper,
  equal, to_lower, has_suffix, blank, trim_prefix,
}
use serviceradar_sdk_go.Maps.{Dict, insert, get}
use serviceradar_sdk_go.Values.{text}
use serviceradar_sdk_go.Http.{HttpRequest}
use serviceradar_sdk_go.Credentials.{CredentialBrokerGrant, inject_type, inject_spec}
use serviceradar_sdk_go.Credentials.Spec.{
  new_oauth2_inject, form_fields, spec, client_id, client_secret, grant_type_field,
  client_credentials, provided, collect_fixed, collect_fields, contains_any, valid_inject_suffix,
}
use serviceradar_sdk_go.Credentials.Form.{IsForm, form_fields-IsForm}
use serviceradar_sdk_go.Credentials.Scope.{
  Url, local_grant_allows, folded_list_contains, local_grant_path_allowed, local_url_port,
  local_inject_targets_request,
}
use serviceradar_sdk_go.Credentials.Local.{
  Outside, authorization, apply_local_credential_grants, local_grant_expired, some_missing,
  local_credential, other_headers, local_oauth2_bearer_token, covers, inject_grant, grant_loop,
}
use serviceradar_sdk_go.Credentials.Safety.{
  Settled, apply_local_credential_grants-Settled, apply_local_credential_grants_same,
}

abbrev exchange : Dict Bytes
exchange =
    (str "type", str "oauth2_client_credentials")
    ∷ (str "token_method", str "POST")
    ∷ (str "token_host", str "id.test")
    ∷ (str "token_port", str "443")
    ∷ (str "token_path", str "/token")
    ∷ (str "field_client_id", str "client_id")
    ∷ (str "field_client_secret", str "client_secret")
    ∷ (str "fixed_grant_type", str "client_credentials")
    ∷ []

abbrev mapped : Dict Bytes
mapped = (client_id, client_id) ∷ (client_secret, client_secret) ∷ []

abbrev fixed : Dict Bytes
fixed = (grant_type_field, client_credentials) ∷ []

exchange_accepted : form_fields exchange ≡ ok (mapped, fixed)
unfolding form_fields equal_fold trim_space get contains_any any_of atoi collect_fields has_prefix
    valid_inject_suffix insert collect_fixed provided
exchange_accepted = refl

built : spec (new_oauth2_inject (str "id.test") (pos 443) (str "/token")) ≡ ok exchange
unfolding spec equal_fold trim_space get insert to_upper contains_any any_of atoi itoa digits_from
    collect_fields has_prefix valid_inject_suffix collect_fixed provided
built = refl

form_fields-IsForm_example : IsForm exchange mapped fixed
form_fields-IsForm_example = form_fields-IsForm exchange mapped fixed exchange_accepted

abbrev grant : CredentialBrokerGrant
grant = record {
  grant_id = str "g";
  grant_ref = [];
  credential_secret_ref = str "s";
  grant_type = [];
  inject =
      (str "type", text (str "oauth2_client_credentials"))
      ∷ (str "token_method", text (str "POST"))
      ∷ (str "token_host", text (str "id.test"))
      ∷ (str "token_port", text (str "443"))
      ∷ (str "token_path", text (str "/token"))
      ∷ (str "field_client_id", text (str "client_id"))
      ∷ (str "field_client_secret", text (str "client_secret"))
      ∷ (str "fixed_grant_type", text (str "client_credentials"))
      ∷ [];
  allow = some (record {
    schemes = str "https" ∷ [];
    methods = str "GET" ∷ [];
    paths = str "/api/*" ∷ [];
    hosts = str "api.test" ∷ [];
    ports = pos 443 ∷ [];
  });
  expires_at = [];
  cache_status = [];
}

abbrev url : Url
url = record {
  scheme = str "https";
  host = str "api.test";
  hostname = str "api.test";
  port = [];
  escaped_path = str "/api/v1";
}

abbrev outside : Outside
outside = record {
  parse_url = λ t. some url;
  parse_time = λ t. none;
  sprint = λ v. [];
  digest = λ t. str "00";
}

abbrev request : HttpRequest
request = record {
  method = [];
  url = str "https://api.test/api/v1";
  headers = (str "authorization", str "mine") ∷ (str "Accept", str "*/*") ∷ [];
  body = [];
  body_base64 = false;
  response_mode = [];
  timeout_ms = pos 0;
  insecure_skip_verify = false;
}

abbrev after : HttpRequest
after = record request {
  headers = (str "Accept", str "*/*") ∷ (authorization, str "Bearer local-oauth2.00") ∷ [];
}

abbrev mine : Dict Bytes
mine = (str "client_id", str "a") ∷ (str "client_secret", str "b") ∷ []

abbrev yours : Dict Bytes
yours = (str "CLIENT_SECRET", str "d") ∷ (str "client_id", str "c") ∷ []

mine_applied : apply_local_credential_grants outside 5 mine (grant ∷ []) request ≡ ok after
unfolding apply_local_credential_grants equal inject_type inject_spec to_lower trim_space get
    local_grant_expired local_grant_allows folded_list_contains equal_fold to_upper
    local_grant_path_allowed has_prefix has_suffix local_url_port local_inject_targets_request
    form_fields contains_any any_of atoi collect_fields valid_inject_suffix insert collect_fixed
    provided some_missing local_credential blank other_headers local_oauth2_bearer_token covers
    inject_grant grant_loop trim_prefix
mine_applied = refl

yours_applied : apply_local_credential_grants outside 5 yours (grant ∷ []) request ≡ ok after
unfolding apply_local_credential_grants equal inject_type inject_spec to_lower trim_space get
    local_grant_expired local_grant_allows folded_list_contains equal_fold to_upper
    local_grant_path_allowed has_prefix has_suffix local_url_port local_inject_targets_request
    form_fields contains_any any_of atoi collect_fields valid_inject_suffix insert collect_fixed
    provided some_missing local_credential blank other_headers local_oauth2_bearer_token covers
    inject_grant grant_loop trim_prefix
yours_applied = refl

apply_local_credential_grants-Settled_example :
    ((grant ∷ [] ≡ []) × (after ≡ request))
    ⊎ ((u : Url) × (outside.parse_url (trim_space request.url) ≡ some u)
        × Settled outside 5 mine (grant ∷ []) u request after)
apply_local_credential_grants-Settled_example =
    apply_local_credential_grants-Settled outside 5 mine (grant ∷ []) request after mine_applied

apply_local_credential_grants_same_example : after ≡ after
apply_local_credential_grants_same_example =
    apply_local_credential_grants_same outside 5 mine yours (grant ∷ []) request after after
      mine_applied yours_applied
