-- ===== src/Credentials/Local.antt =====
-- sdk/local_credentials.go: the injection of an OAuth2 token by the native development host. net/url,
-- time.Parse, the clock, fmt.Sprint and the hash are parameters.
use serviceradar_sdk_go.Base.{
  ℕ, Bool, true, false, not, ◌&&◌, ◌||◌, List, [], ◌∷◌, ◌++◌, Option, none, some, if◌then◌else◌,
  null, leb, Result, ok, err,
}
use serviceradar_sdk_go.Strings.{Bytes, str, equal, equal_fold, trim_space, blank, to_upper}
use serviceradar_sdk_go.Maps.{Dict, insert, get}
use serviceradar_sdk_go.Values.{Value}
use serviceradar_sdk_go.Http.{HttpRequest}
use serviceradar_sdk_go.Credentials.{
  CredentialBrokerGrant, oauth2_client_credentials, inject_spec, inject_type,
}
use serviceradar_sdk_go.Credentials.Spec.{SpecError, form_fields}
use serviceradar_sdk_go.Credentials.Scope.{Url, local_grant_allows, local_inject_targets_request}

pub data GrantError : Type 0 where
  target insecure_tls credential_missing : GrantError
  bad_spec : SpecError → GrantError

-- Parameters of the model. `digest` is the hexadecimal form of the first 16 bytes of SHA-256, and
-- `parse_time` is time.Parse for RFC 3339.
pub record Outside : Type 0 where
  pub parse_url : Bytes → Option Url
  pub parse_time : Bytes → Option ℕ
  pub sprint : Value → Bytes
  pub digest : Bytes → Bytes

-- localCredential
unfoldable pub local_credential : Dict Bytes → Bytes → Bytes
local_credential [] field = []
local_credential ((key, value) ∷ rest) field =
    if equal_fold key field then value else local_credential rest field

-- The loop over the form fields: some field has no credential.
unfoldable pub some_missing : Dict Bytes → Dict Bytes → Bool
some_missing credentials [] = false
some_missing credentials ((form_field, source) ∷ fields) =
    blank (local_credential credentials source) || some_missing credentials fields

abbrev pub authorization : Bytes
authorization = str "Authorization"

-- The headers of a request apart from its own Authorization.
unfoldable pub other_headers : Dict Bytes → Dict Bytes
other_headers [] = []
other_headers ((key, value) ∷ rest) =
    let kept = other_headers rest in
    if equal_fold key authorization then kept else (key, value) ∷ kept

-- strings.ToUpper(strings.TrimSpace(request.Method)), GET where that is empty
abbrev pub request_method : HttpRequest → Bytes
request_method request =
    let method = to_upper (trim_space request.method) in if null method then str "GET" else method

module _ (outside : Outside) (now : ℕ) where
  -- LocalOAuth2BearerToken
  unfoldable pub local_oauth2_bearer_token : CredentialBrokerGrant → Bytes
  local_oauth2_bearer_token grant =
      str "local-oauth2."
      ++ outside.digest (
          str "serviceradar.local_oauth2"
          ++ (0 ∷ (grant.grant_id ++ (0 ∷ grant.credential_secret_ref))))

  abbrev expired_at : Option ℕ → Bool
  expired_at none = true
  expired_at (some at) = leb at now

  unfoldable pub local_grant_expired : CredentialBrokerGrant → Bool
  local_grant_expired grant =
      let raw = trim_space grant.expires_at in
      if null raw then false else expired_at (outside.parse_time raw)

  -- The grant is one that the loop does not skip.
  unfoldable pub covers : CredentialBrokerGrant → Bytes → Url → Bool
  covers grant method u = not (
      not (equal (inject_type outside.sprint grant) oauth2_client_credentials)
      || local_grant_expired grant
      || not (local_grant_allows grant.allow method u))

  abbrev pub injected : CredentialBrokerGrant → HttpRequest → HttpRequest
  injected grant request = record request {
    headers =
        insert authorization (str "Bearer " ++ local_oauth2_bearer_token grant)
          (other_headers request.headers);
  }

  -- The body of the loop for the grant that covers the request.
  unfoldable pub inject_grant :
      Dict Bytes → CredentialBrokerGrant → Bytes → Url → HttpRequest → Result GrantError HttpRequest
  inject_grant credentials grant method u request =
      let spec = inject_spec outside.sprint grant in
      if not (local_inject_targets_request spec method u)
      then err target
      else if request.insecure_skip_verify
          && not (equal_fold (trim_space (get (str "allow_insecure_tls") spec)) (str "true"))
      then err insecure_tls
      else elim (form_fields spec) [
        | err e ↦ err (bad_spec e)
        | ok (fields, fixed) ↦
            if some_missing credentials fields
            then err credential_missing
            else ok (injected grant request)
      ]

  unfoldable pub grant_loop :
      Dict Bytes
      → List CredentialBrokerGrant
      → Bytes
      → Url
      → HttpRequest
      → Result GrantError HttpRequest
  grant_loop credentials [] method u request = ok request
  grant_loop credentials (grant ∷ grants) method u request =
      let rest = grant_loop credentials grants method u request in
      if covers grant method u then inject_grant credentials grant method u request else rest

  abbrev at_url :
      Dict Bytes
      → List CredentialBrokerGrant
      → HttpRequest
      → Option Url
      → Result GrantError HttpRequest
  at_url credentials grants request none = err target
  at_url credentials grants request (some u) =
      if null u.host
      then err target
      else grant_loop credentials grants (request_method request) u request

  -- applyLocalCredentialGrants; the request is returned as the code leaves it.
  unfoldable pub apply_local_credential_grants :
      Dict Bytes → List CredentialBrokerGrant → HttpRequest → Result GrantError HttpRequest
  unfolding grant_loop inject_grant covers
  apply_local_credential_grants credentials grants request =
      if null grants
      then ok request
      else at_url credentials grants request (outside.parse_url (trim_space request.url))
