-- ===== src/Credentials/Spec.antt =====
-- sdk/credential_grant.go: the spec of an OAuth2 client-credentials exchange, its builder, and the
-- checks that the host runs on it. The maps of the code are lists in one order of iteration, on
-- which only the text of an error depends.
use serviceradar_sdk_go.Base.{
  ℕ, Bool, true, false, not, ◌&&◌, ◌||◌, [], ◌∷◌, ◌++◌, Option, none, some, ◌==◌, if◌then◌else◌,
  null, drop, get_or, leb, ltb, all, Result, ok, err,
}
use serviceradar_sdk_go.Strings.{
  Bytes, str, ℤ, is_pos, to_ℕ, itoaℤ, atoi, equal, equal_fold, has_prefix, any_of, trim_space,
  to_upper,
}
use serviceradar_sdk_go.Maps.{Dict, lookup, insert, get}
use serviceradar_sdk_go.Credentials.{oauth2_client_credentials}

pub record Oauth2ClientCredentialsInject : Type 0 where
  pub token_method : Bytes
  pub token_host : Bytes
  pub token_port : ℤ
  pub token_path : Bytes
  pub fields : Dict Bytes
  pub fixed : Dict Bytes
  pub method : Bytes
  pub host : Bytes
  pub path : Bytes
  pub allow_insecure_tls : Bool

pub data SpecError : Type 0 where
  bad_type bad_token_method bad_token_host bad_token_port bad_token_path bad_field bad_fixed
        bad_grant_type :
      SpecError
  set_twice unmapped : Bytes → SpecError

abbrev pub client_id : Bytes
client_id = str "client_id"

abbrev pub client_secret : Bytes
client_secret = str "client_secret"

abbrev pub grant_type_field : Bytes
grant_type_field = str "grant_type"

abbrev pub client_credentials : Bytes
client_credentials = str "client_credentials"

abbrev pub field_prefix : Bytes
field_prefix = str "field_"

abbrev pub fixed_prefix : Bytes
fixed_prefix = str "fixed_"

abbrev pub new_oauth2_inject : Bytes → ℤ → Bytes → Oauth2ClientCredentialsInject
new_oauth2_inject token_host token_port token_path = record {
  token_method = str "POST";
  token_host = token_host;
  token_port = token_port;
  token_path = token_path;
  fields = (client_id, client_id) ∷ (client_secret, client_secret) ∷ [];
  fixed = (grant_type_field, client_credentials) ∷ [];
  method = [];
  host = [];
  path = [];
  allow_insecure_tls = false;
}

-- WithField, WithFixed, WithScope and WithRequestTarget change a copy of the maps.
abbrev pub with_field :
    Bytes → Bytes → Oauth2ClientCredentialsInject → Oauth2ClientCredentialsInject
with_field credential_field form_field s = record s {
  fields = insert credential_field form_field s.fields;
}

abbrev pub with_fixed :
    Bytes → Bytes → Oauth2ClientCredentialsInject → Oauth2ClientCredentialsInject
with_fixed form_field value s = record s { fixed = insert form_field value s.fixed }

abbrev pub with_scope : Bytes → Oauth2ClientCredentialsInject → Oauth2ClientCredentialsInject
with_scope scope s = with_fixed (str "scope") scope s

abbrev pub with_request_target :
    Bytes → Bytes → Bytes → Oauth2ClientCredentialsInject → Oauth2ClientCredentialsInject
with_request_target method host path s = record s { method = method; host = host; path = path }

-- validInjectSuffix
abbrev suffix_byte : ℕ → Bool
suffix_byte c =
    (leb b'a' c && leb c b'z') || (leb b'0' c && leb c b'9') || c == b'_' || c == b'.' || c == b'-'

unfoldable pub valid_inject_suffix : Bytes → Bool
valid_inject_suffix value = not (null value) && all suffix_byte value

-- strings.ContainsAny
unfoldable pub contains_any : Bytes → Bytes → Bool
contains_any s chars = not (all (λ c. not (any_of c chars)) s)

-- The entries field_*: form field -> credential field.
unfoldable pub collect_fields : Dict Bytes → Dict Bytes → Result SpecError (Dict Bytes)
collect_fields [] fields = ok fields
collect_fields ((key, value) ∷ spec) fields =
    let source = drop 6 key in
    let target = trim_space value in
    let skipped = collect_fields spec fields in
    let taken = collect_fields spec (insert target source fields) in
    if not (has_prefix key field_prefix)
    then skipped
    else if not (valid_inject_suffix source) || null target
    then err bad_field
    else elim (lookup target fields) [ some dup ↦ err (set_twice target) | none ↦ taken ]

-- The entries fixed_*: form field -> literal.
unfoldable pub collect_fixed : Dict Bytes → Dict Bytes → Dict Bytes → Result SpecError (Dict Bytes)
collect_fixed fields [] fixed = ok fixed
collect_fixed fields ((key, value) ∷ spec) fixed =
    let field = drop 6 key in
    let skipped = collect_fixed fields spec fixed in
    let taken = collect_fixed fields spec (insert field value fixed) in
    if not (has_prefix key fixed_prefix)
    then skipped
    else if not (valid_inject_suffix field)
    then err bad_fixed
    else elim (lookup field fields) [ some dup ↦ err (set_twice field) | none ↦ taken ]

-- A field that the exchange needs is mapped from a credential or has a literal.
unfoldable pub provided : Bytes → Dict Bytes → Dict Bytes → Bool
provided required fields fixed = elim (lookup required fields) [
  | some source ↦ true
  | none ↦ not (null (get required fixed))
]

abbrev pub checked_form : Dict Bytes → Dict Bytes → Result SpecError (Dict Bytes × Dict Bytes)
checked_form fields fixed =
    if not (equal (get grant_type_field fixed) client_credentials)
    then err bad_grant_type
    else if not (provided client_id fields fixed)
    then err (unmapped client_id)
    else if not (provided client_secret fields fixed)
    then err (unmapped client_secret)
    else ok (fields, fixed)

abbrev pub bad_port : Option ℤ → Bool
bad_port none = true
bad_port (some port) = not (is_pos port) || ltb 65535 (to_ℕ port)

abbrev pub form_entries : Dict Bytes → Result SpecError (Dict Bytes × Dict Bytes)
form_entries spec = elim (collect_fields spec []) [
  | err e ↦ err e
  | ok fields ↦ elim (collect_fixed fields spec []) [
    | err e ↦ err e
    | ok fixed ↦ checked_form fields fixed
  ]
]

-- oauth2ClientCredentialsFormFields
unfoldable pub form_fields : Dict Bytes → Result SpecError (Dict Bytes × Dict Bytes)
form_fields spec =
    let host = trim_space (get (str "token_host") spec) in
    let path = trim_space (get (str "token_path") spec) in
    if not (equal_fold (trim_space (get (str "type") spec)) oauth2_client_credentials)
    then err bad_type
    else if not (equal_fold (trim_space (get (str "token_method") spec)) (str "POST"))
    then err bad_token_method
    else if null host || contains_any host (str "/@?#")
    then err bad_token_host
    else if bad_port (atoi (trim_space (get (str "token_port") spec)))
    then err bad_token_port
    else if null path || not (get_or path 0 0 == b'/') || contains_any path (str "?#")
    then err bad_token_path
    else form_entries spec

-- The entry is left out where its value is empty.
abbrev insert_given : Bytes → Bytes → Dict Bytes → Dict Bytes
insert_given key value spec = if null value then spec else insert key value spec

unfoldable pub insert_prefixed : Bytes → Dict Bytes → Dict Bytes → Dict Bytes
insert_prefixed prefix [] spec = spec
insert_prefixed prefix ((key, value) ∷ m) spec =
    insert_prefixed prefix m (insert (prefix ++ key) value spec)

unfoldable pub spec_map : Oauth2ClientCredentialsInject → Dict Bytes
unfolding insert_prefixed
spec_map s =
    let token : Dict Bytes =
      (str "type", oauth2_client_credentials)
      ∷ (str "token_method", to_upper (trim_space s.token_method))
      ∷ (str "token_host", trim_space s.token_host)
      ∷ (str "token_port", itoaℤ s.token_port)
      ∷ (str "token_path", trim_space s.token_path)
      ∷ [] in
    let spec = insert_given (str "method") (to_upper (trim_space s.method)) token in
    let spec = insert_given (str "host") (trim_space s.host) spec in
    let spec = insert_given (str "path") (trim_space s.path) spec in
    let spec =
      if s.allow_insecure_tls then insert (str "allow_insecure_tls") (str "true") spec else spec in
    insert_prefixed fixed_prefix s.fixed (insert_prefixed field_prefix s.fields spec)

-- Spec, and Validate, which gives its error alone
unfoldable pub spec : Oauth2ClientCredentialsInject → Result SpecError (Dict Bytes)
unfolding form_fields spec_map
spec s = elim (form_fields (spec_map s)) [ err e ↦ err e | ok form ↦ ok (spec_map s) ]
