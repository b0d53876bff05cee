-- ===== src/Tests/Inputs.antt =====
-- sdk/plugin_inputs.go and sdk/manifest.go on small inputs.
use serviceradar_sdk_go.Base.{
  true, ◌++◌, ℕ, ◌+◌, [], ◌∷◌, ◌≡◌, ◌↔◌, Option, none, some, ◌==◌, if◌then◌else◌, List,
}
use serviceradar_sdk_go.Strings.{Bytes, str, pos}
use serviceradar_sdk_go.Values.{text}
use serviceradar_sdk_go.Manifest.{
  is_semver, number, PluginManifest, new_signal_schema_contribution, validate,
}
use serviceradar_sdk_go.Manifest.Semver.{triple, IsTail, is_semver_iff}
use serviceradar_sdk_go.Manifest.Rules.{IsAccepted, validate_iff}
use serviceradar_sdk_go.PluginInputs.{
  PluginInput, PluginInputItem, PluginInputsPayload, validate_payload, each_item,
}
use serviceradar_sdk_go.PluginInputs.Laws.{
  AreItems, IsValid, validate_payload_iff, Outcome, each_item-Outcome,
}

abbrev manifest : PluginManifest
manifest = record {
  id = str "probe";
  name = str "Probe";
  version = str "1.0.0";
  description = [];
  entrypoint = str "run";
  runtime = str "none";
  capabilities = str "log" ∷ [];
  permissions = [];
  resources = (str "memory", text (str "8")) ∷ [];
  outputs = str "serviceradar.plugin_result.v1";
  signal_schemas =
      new_signal_schema_contribution (str "com.acme.probe") (str "1.0.0") (str "event")
        (str "ocsf_event")
      ∷ [];
}

validate_iff_example : (validate manifest ≡ none) ↔ IsAccepted manifest
validate_iff_example = validate_iff manifest

abbrev input : PluginInput
input = record {
  name = str "devices";
  entity = str "device";
  query = str "in:devices";
  chunk_index = pos 0;
  chunk_total = pos 1;
  chunk_hash = str "h";
  items = [] ∷ ((str "uid", text (str "2")) ∷ []) ∷ [];
}

abbrev payload : PluginInputsPayload
payload = record {
  schema = str "serviceradar.plugin_inputs.v1";
  policy_id = str "p";
  policy_version = pos 1;
  agent_id = str "a";
  generated_at = str "now";
  template = [];
  inputs = input ∷ [];
}

validate_payload_iff_example : (validate_payload (some payload) ≡ none) ↔ IsValid payload
validate_payload_iff_example = validate_payload_iff payload

-- Counts the items and fails on the second.
abbrev count : ℕ → PluginInputItem → ℕ × Option ℕ
count n item = (n + 1, if n == 1 then some 7 else none)

each_item-Outcome_example :
    (items : List PluginInputItem) × AreItems payload.inputs items
    × Outcome count 0 items (each_item count 0 (some payload))
each_item-Outcome_example = each_item-Outcome count 0 payload

is_semver_iff_example : (is_semver (str "1.2.3-rc.1") ≡ true) ↔ (
    (a : Bytes) × (b : Bytes) × (c : Bytes) × (tail : Bytes) × (str "1.2.3-rc.1"
      ≡ triple a b c ++ tail)
    × (number a ≡ true)
    × (number b ≡ true)
    × (number c ≡ true)
    × IsTail tail)
is_semver_iff_example = is_semver_iff (str "1.2.3-rc.1")
