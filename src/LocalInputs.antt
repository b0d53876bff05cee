-- ===== src/LocalInputs.antt =====
-- sdk/local_inputs.go: the inputs of a local run. The process environment, files, bufio.Scanner,
-- strconv.Unquote and encoding/json are parameters. An error keeps what it is about.
pub mod Reading
pub mod Precedence
use serviceradar_sdk_go.Base.{
  ℕ, ◌-◌, Bool, true, false, not, ◌&&◌, ◌||◌, List, [], ◌∷◌, ◌++◌, Option, none, some, ◌==◌,
  if◌then◌else◌, null, length, take, get_or, leb, ltb, all, Result, ok, err,
}
use serviceradar_sdk_go.Strings.{
  Bytes, str, is_digit, equal, has_prefix, trim_prefix, cut, trim_space, blank, to_lower,
}
use serviceradar_sdk_go.Maps.{Dict, lookup, insert, get}
use serviceradar_sdk_go.Host.{max_payload_bytes}

pub record LocalInputOptions : Type 0 where
  pub environment : List Bytes
  pub env_file : Bytes
  pub config_json : Bytes
  pub config_file : Bytes
  pub action_json : Bytes
  pub action_file : Bytes
  pub credential_prefix : Bytes

pub record LocalInputs : Type 0 where
  pub config_json : Bytes
  pub action_json : Bytes
  pub credentials : Dict Bytes

pub data InputError : Type 0 where
  bad_entry bad_value unreadable : InputError
  required unreadable_json too_large not_object : Bytes → InputError

-- An environment file: the lines that a scanner gives, and whether it then fails.
pub data EnvFile : Type 0 where
  missing failing : EnvFile
  scanned : List Bytes → Bool → EnvFile

-- Parameters of the model. `is_object` is that decodeJSONObject gives no error.
pub record Outside : Type 0 where
  pub read_env : Bytes → EnvFile
  pub read_file : Bytes → Option Bytes
  pub unquote : Bytes → Option Bytes
  pub is_object : Bytes → Bool

abbrev pub key_start : ℕ → Bool
key_start c = c == b'_' || (leb b'A' c && leb c b'Z') || (leb b'a' c && leb c b'z')

abbrev pub key_byte : ℕ → Bool
key_byte c = key_start c || is_digit c

unfoldable pub valid_local_env_key : Bytes → Bool
valid_local_env_key [] = false
valid_local_env_key (c ∷ s) = key_start c && all key_byte s

-- value[1 : len(value)-1] of a value that ends in a quote, and an error otherwise.
abbrev single_quoted : Bytes → Option Bytes
single_quoted rest =
    if null rest || not (get_or rest (length rest - 1) 0 == b'\'')
    then none
    else some (take (length rest - 1) rest)

-- The value up to a comment.
abbrev uncommented : Bytes → Bytes
uncommented value = let (before, after, found) = cut value (str " #") in before

-- `none` is an error.
unfoldable pub parse_local_env_value : (Bytes → Option Bytes) → Bytes → Option Bytes
parse_local_env_value unquote [] = some []
parse_local_env_value unquote (c ∷ rest) =
    if c == b'\''
    then single_quoted rest
    else if c == b'"'
    then unquote (c ∷ rest)
    else some (trim_space (uncommented (c ∷ rest)))

module _ (unquote : Bytes → Option Bytes) where
  abbrev put_value : Bytes → Option Bytes → Dict Bytes → Result InputError (Dict Bytes)
  put_value key none entries = err bad_value
  put_value key (some value) entries = ok (insert key value entries)

  -- One line of an environment file, with the entries so far.
  unfoldable pub read_env_line : Bytes → Dict Bytes → Result InputError (Dict Bytes)
  read_env_line raw entries =
      let line = trim_space raw in
      let (key, value, found) = cut (trim_space (trim_prefix line (str "export "))) (str "=") in
      if null line || has_prefix line (str "#")
      then ok entries
      else if not found || not (valid_local_env_key (trim_space key))
      then err bad_entry
      else put_value (trim_space key) (parse_local_env_value unquote (trim_space value)) entries

  unfoldable pub read_env_lines : List Bytes → Dict Bytes → Result InputError (Dict Bytes)
  read_env_lines [] entries = ok entries
  read_env_lines (line ∷ lines) entries = elim (read_env_line line entries) [
    | err e ↦ err e
    | ok more ↦ read_env_lines lines more
  ]

-- The entries key=value, a later one over an earlier one.
unfoldable pub parse_environment_from : List Bytes → Dict Bytes → Dict Bytes
parse_environment_from [] result = result
parse_environment_from (entry ∷ values) result =
    let (key, value, found) = cut entry (str "=") in
    parse_environment_from values
      (if found && not (null key) then insert key value result else result)

abbrev pub parse_environment : List Bytes → Dict Bytes
parse_environment values = parse_environment_from values []

unfoldable pub overlay_environment : Dict Bytes → Dict Bytes → Dict Bytes
overlay_environment base [] = base
overlay_environment base ((key, value) ∷ override) =
    overlay_environment (insert key value base) override

-- The file, and whether it was asked for.
unfoldable pub local_env_file : Bytes → Dict Bytes → Bytes × Bool
local_env_file explicit process =
    let value = trim_space (get (str "SERVICERADAR_PLUGIN_ENV_FILE") process) in
    if not (blank explicit)
    then (explicit, true)
    else if not (null value)
    then (value, true)
    else (str ".env", false)

module _ (outside : Outside) where
  abbrev after_scan : Bool → Result InputError (Dict Bytes) → Result InputError (Dict Bytes)
  after_scan fails (err e) = err e
  after_scan true (ok entries) = err unreadable
  after_scan false (ok entries) = ok entries

  -- readLocalEnvFile, for a file that is there
  unfoldable pub scanned_env : List Bytes → Bool → Result InputError (Dict Bytes)
  scanned_env lines fails = after_scan fails (read_env_lines outside.unquote lines [])

  -- A file that is missing is empty where nobody has asked for it.
  abbrev env_entries : Bool → EnvFile → Result InputError (Dict Bytes)
  env_entries explicit missing = if explicit then err unreadable else ok []
  env_entries explicit failing = err unreadable
  env_entries explicit (scanned lines fails) = scanned_env lines fails

  unfoldable pub read_local_env : Bytes × Bool → Result InputError (Dict Bytes)
  read_local_env (path, explicit) =
      if null path then ok [] else env_entries explicit (outside.read_env path)

  -- The checks on a payload that has been found.
  abbrev checked_json : Bytes → Bool → Bytes → Result InputError Bytes
  checked_json label is_required payload =
      if null payload
      then (if is_required then err (required label) else ok [])
      else if ltb max_payload_bytes (length payload)
      then err (too_large label)
      else if outside.is_object payload
      then ok payload
      else err (not_object label)

  abbrev file_json : Bytes → Bool → Option Bytes → Result InputError Bytes
  file_json label is_required none = err (unreadable_json label)
  file_json label is_required (some loaded) = checked_json label is_required (trim_space loaded)

  unfoldable pub resolve_local_json :
      Bytes → Bytes → Bytes → Bytes → Bytes → Bool → Result InputError Bytes
  resolve_local_json label explicit_json explicit_file environment_json environment_file
        is_required =
      let payload = trim_space explicit_json in
      let file = trim_space explicit_file in
      let env_payload = trim_space environment_json in
      let env_file = trim_space environment_file in
      if not (null payload)
      then checked_json label is_required payload
      else if not (null file)
      then file_json label is_required (outside.read_file file)
      else if not (null env_payload)
      then checked_json label is_required env_payload
      else if not (null env_file)
      then file_json label is_required (outside.read_file env_file)
      else checked_json label is_required []

  unfoldable pub credentials_from : Bytes → Dict Bytes → Dict Bytes → Dict Bytes
  credentials_from prefix [] credentials = credentials
  credentials_from prefix ((key, value) ∷ env) credentials =
      let field = to_lower (trim_space (trim_prefix key prefix)) in
      credentials_from prefix env (
        if not (has_prefix key prefix) || length key == length prefix
        then credentials
        else if null field
        then credentials
        else insert field value credentials)

  abbrev inputs_with :
      Bytes
      → Dict Bytes
      → Result InputError Bytes
      → Result InputError Bytes
      → Result InputError LocalInputs
  inputs_with prefix env (err e) action = err e
  inputs_with prefix env (ok config) (err e) = err e
  inputs_with prefix env (ok config) (ok action) = ok (record {
    config_json = config;
    action_json = action;
    credentials =
        credentials_from (if null prefix then str "SERVICERADAR_CREDENTIAL_" else prefix) env [];
  })

  abbrev inputs_from : LocalInputOptions → Dict Bytes → Result InputError LocalInputs
  inputs_from options env =
      inputs_with options.credential_prefix env
        (resolve_local_json (str "config") options.config_json options.config_file
          (get (str "SERVICERADAR_PLUGIN_CONFIG_JSON") env)
          (get (str "SERVICERADAR_PLUGIN_CONFIG_FILE") env) true)
        (resolve_local_json (str "action invocation") options.action_json options.action_file
          (get (str "SERVICERADAR_PLUGIN_ACTION_JSON") env)
          (get (str "SERVICERADAR_PLUGIN_ACTION_FILE") env) false)

  unfoldable pub load_local_inputs : LocalInputOptions → Result InputError LocalInputs
  load_local_inputs options =
      let process = parse_environment options.environment in
      elim (read_local_env (local_env_file options.env_file process)) [
        | err e ↦ err e
        | ok file ↦ inputs_from options (overlay_environment file process)
      ]

-- RuntimeConfigJSON: `decode` is decodeJSONObject and `encode` json.Marshal; `none` is an error. A nil
-- receiver is `none`.
abbrev with_action : Bytes → Dict Bytes → Dict Bytes
with_action action config =
    if null action then config else insert (str "action_invocation") action config

unfoldable pub runtime_config_json :
    (Bytes → Option (Dict Bytes)) → (Dict Bytes → Option Bytes) → Option LocalInputs → Option Bytes
runtime_config_json decode encode none = none
runtime_config_json decode encode (some i) =
    if null i.config_json then none else elim (decode i.config_json) [
      | none ↦ none
      | some config ↦ encode (with_action i.action_json config)
    ]

-- Credential, with its flag
unfoldable pub credential : Option LocalInputs → Bytes → Option Bytes
credential none name = none
credential (some i) name = lookup (to_lower (trim_space name)) i.credentials
