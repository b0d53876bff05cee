-- ===== src/Manifest/Rules.antt =====
-- What a manifest that passes validation meets, rule by rule.
use serviceradar_sdk_go.Base.{
  ℕ, ◌+◌, ◌≤◌, Bool, true, false, not, ◌&&◌, List, [], ◌∷◌, ◌++◌, ◌≡◌, ◌≢◌, ◌↔◌, ◌⊎◌, refl, none,
  some, null, length, ltb, All, arith, if◌then◌else◌,
}
use serviceradar_sdk_go.Strings.{
  Bytes, str, is_neg, equal, equal_iff, has_suffix, contains, blank, join,
}
use serviceradar_sdk_go.Manifest.{
  PluginManifest, SignalSchemaContribution, allowed_runtimes, allowed_outputs, allowed_capabilities,
  is_allowed_value, is_signal_ref, is_semver, is_relative_bundle_path, validate_signal_ref,
  validate_semver, validate_bundle_path, validate_schema, capability_errors, schema_errors,
  manifest_errors, validate, when,
}

abbrev IsGiven : Bytes → Type 0
IsGiven value = blank value ≡ false

abbrev OneOf : List Bytes → Bytes → Type 0
OneOf [] value = ⊥
OneOf (candidate ∷ values) value = (value ≡ candidate) ⊎ OneOf values value

-- An identifier of a schema or a display contract.
abbrev pub IsSignalRef : Bytes → Type 0
IsSignalRef value = (blank value ≡ false) × (length value ≤ 160) × (is_signal_ref value ≡ true)

-- A JSON file of the bundle.
abbrev pub IsBundlePath : Bytes → Type 0
IsBundlePath value =
    (blank value ≡ false)
    × (length value ≤ 240)
    × (contains value (str "..") ≡ false)
    × (has_suffix value (str ".json") ≡ true)
    × (is_relative_bundle_path value ≡ true)

validate_signal_ref_iff :
    (value path : Bytes) → (validate_signal_ref value path ≡ []) ↔ IsSignalRef value
unfolding validate_signal_ref
validate_signal_ref_iff value path = ground arith

validate_bundle_path_iff :
    (value path : Bytes) → (validate_bundle_path value path ≡ []) ↔ IsBundlePath value
unfolding validate_bundle_path
validate_bundle_path_iff value path = ground arith

validate_semver_iff :
    (value path : Bytes) → (validate_semver value path ≡ []) ↔ (is_semver value ≡ true)
unfolding validate_semver
validate_semver_iff value path = ground arith

when_iff : (b : Bool) (text : Bytes) → (when b text ≡ []) ↔ (b ≡ false)
when_iff b text = ground arith

append_iff : (xs ys : List Bytes) → (xs ++ ys ≡ []) ↔ ((xs ≡ []) × (ys ≡ []))
append_iff [] ys = ground arith
append_iff (x ∷ xs) ys = ground arith

is_allowed_value_iff :
    (values : List Bytes) (value : Bytes)
    → (is_allowed_value values value ≡ true) ↔ OneOf values value
unfolding is_allowed_value
is_allowed_value_iff [] value = ground arith
is_allowed_value_iff (c ∷ values) value =
    ground (arith, equal_iff c value, is_allowed_value_iff values value)

pub record IsAcceptedSchema (s : SignalSchemaContribution) : Type 0 where
  pub id_rule : IsSignalRef s.id
  pub display_contract_id_rule : IsSignalRef s.display_contract_id
  pub version_rule : is_semver s.version ≡ true
  pub display_contract_version_rule : is_semver s.display_contract_version ≡ true
  pub ocsf_rule : (s.ocsf_schema_version ≡ []) ⊎ (is_semver s.ocsf_schema_version ≡ true)
  pub signal_type_rule : OneOf (str "event" ∷ str "log" ∷ []) s.signal_type
  pub payload_kind_rule : OneOf (str "ocsf_event" ∷ str "otel_log" ∷ []) s.payload_kind
  pub payload_schema_rule : IsBundlePath s.payload_schema
  pub display_contract_rule : IsBundlePath s.display_contract
  pub class_uid_rule : is_neg s.class_uid ≡ false
  pub type_uid_rule : is_neg s.type_uid ≡ false

pub record IsAccepted (m : PluginManifest) : Type 0 where
  pub id_rule : IsGiven m.id
  pub name_rule : IsGiven m.name
  pub version_rule : IsGiven m.version
  pub entrypoint_rule : IsGiven m.entrypoint
  pub runtime_rule : (m.runtime ≡ []) ⊎ OneOf allowed_runtimes m.runtime
  pub outputs_rule : OneOf allowed_outputs m.outputs
  pub capabilities_rule : m.capabilities ≢ []
  pub capability_rule : All (OneOf allowed_capabilities) m.capabilities
  pub resources_rule : m.resources ≢ []
  pub signal_schemas_rule : All IsAcceptedSchema m.signal_schemas

two_iff :
    (a b value text : Bytes)
    → (when (not (equal value a) && not (equal value b)) text ≡ []) ↔ OneOf (a ∷ b ∷ []) value
two_iff a b value text = ground (arith, equal_iff value a, equal_iff value b)

ocsf_iff :
    (value path : Bytes)
    → ((if null value then [] else validate_semver value path) ≡ [])
      ↔ ((value ≡ []) ⊎ (is_semver value ≡ true))
ocsf_iff [] path = ground arith
ocsf_iff (c ∷ value) path = ground (arith, validate_semver_iff (c ∷ value) path)

allowed_iff :
    (values : List Bytes) (value text : Bytes)
    → (when (not (is_allowed_value values value)) text ≡ []) ↔ OneOf values value
allowed_iff values value text = ground (arith, is_allowed_value_iff values value)

runtime_iff :
    (value text : Bytes)
    → (when (not (null value) && not (is_allowed_value allowed_runtimes value)) text ≡ [])
      ↔ ((value ≡ []) ⊎ OneOf allowed_runtimes value)
runtime_iff [] text = ground arith
runtime_iff (c ∷ value) text = ground (arith, is_allowed_value_iff allowed_runtimes (c ∷ value))

null_iff {ℓ} : {A : Type ℓ} (xs : List A) (text : Bytes) → (when (null xs) text ≡ []) ↔ (xs ≢ [])
null_iff [] text = ground arith
null_iff (x ∷ xs) text = ground arith

infixr 5 ◌and◌
-- Two lists of complaints are both empty.
abbrev ◌and◌ {ℓ κ} :
    {A : Type ℓ} {B : Type κ} {xs ys : List Bytes}
    → ((xs ≡ []) ↔ A)
    → ((ys ≡ []) ↔ B)
    → (xs ++ ys ≡ []) ↔ (A × B)
◌and◌ {xs = xs} {ys = ys} f g = (
  (λ e. (f.0 ((append_iff xs ys).0 e).0, g.0 ((append_iff xs ys).0 e).1)),
  (λ v. (append_iff xs ys).1 (f.1 v.0, g.1 v.1)),
)

infixl 4 ◌means◌
abbrev ◌means◌ {ℓ κ μ} : {A : Type ℓ} {B : Type κ} {C : Type μ} → (A ↔ B) → (B ↔ C) → A ↔ C
f means g = ((λ a. g.0 (f.0 a)), (λ c. f.1 (g.1 c)))

none_iff :
    (errs : List Bytes)
    → ((if ltb 0 (length errs)
          then some (str "invalid plugin manifest: " ++ join errs (str "; "))
          else none)
        ≡ none)
      ↔ (errs ≡ [])
none_iff [] = ground arith
none_iff (e ∷ errs) = ground arith

capability_errors_iff :
    (cs : List Bytes) → (capability_errors cs ≡ []) ↔ All (OneOf allowed_capabilities) cs
unfolding capability_errors
capability_errors_iff [] = ((λ _. tt), (λ _. refl))
capability_errors_iff (c ∷ cs) = allowed_iff allowed_capabilities c _ and capability_errors_iff cs

validate_schema_iff :
    (s : SignalSchemaContribution) (path : Bytes)
    → (validate_schema s path ≡ []) ↔ IsAcceptedSchema s
unfolding validate_schema
validate_schema_iff s path =
    (validate_signal_ref_iff s.id _
      and validate_signal_ref_iff s.display_contract_id _
      and validate_semver_iff s.version _
      and validate_semver_iff s.display_contract_version _
      and ocsf_iff s.ocsf_schema_version _
      and two_iff (str "event") (str "log") s.signal_type _
      and two_iff (str "ocsf_event") (str "otel_log") s.payload_kind _
      and validate_bundle_path_iff s.payload_schema _
      and validate_bundle_path_iff s.display_contract _
      and when_iff (is_neg s.class_uid) _
      and when_iff (is_neg s.type_uid) _)
    means (
      (λ (a, (b, (c, (d, (e, (f, (g, (h, (i, (j, k)))))))))). record {
        id_rule = a;
        display_contract_id_rule = b;
        version_rule = c;
        display_contract_version_rule = d;
        ocsf_rule = e;
        signal_type_rule = f;
        payload_kind_rule = g;
        payload_schema_rule = h;
        display_contract_rule = i;
        class_uid_rule = j;
        type_uid_rule = k;
      }),
      (λ v. (
        v.id_rule,
        (
          v.display_contract_id_rule,
          (
            v.version_rule,
            (
              v.display_contract_version_rule,
              (
                v.ocsf_rule,
                (
                  v.signal_type_rule,
                  (
                    v.payload_kind_rule,
                    (
                      v.payload_schema_rule,
                      (v.display_contract_rule, (v.class_uid_rule, v.type_uid_rule)),
                    ),
                  ),
                ),
              ),
            ),
          ),
        ),
      )),
    )

schema_errors_iff :
    (i : ℕ) (ss : List SignalSchemaContribution)
    → (schema_errors i ss ≡ []) ↔ All IsAcceptedSchema ss
unfolding schema_errors
schema_errors_iff i [] = ((λ _. tt), (λ _. refl))
schema_errors_iff i (s ∷ ss) = validate_schema_iff s _ and schema_errors_iff (i + 1) ss

manifest_errors_iff : (m : PluginManifest) → (manifest_errors m ≡ []) ↔ IsAccepted m
unfolding manifest_errors
manifest_errors_iff m =
    (when_iff (blank m.id) _
      and when_iff (blank m.name) _
      and when_iff (blank m.version) _
      and when_iff (blank m.entrypoint) _
      and runtime_iff m.runtime _
      and allowed_iff allowed_outputs m.outputs _
      and null_iff m.capabilities _
      and capability_errors_iff m.capabilities
      and null_iff m.resources _
      and schema_errors_iff 0 m.signal_schemas)
    means (
      (λ (a, (b, (c, (d, (e, (f, (g, (h, (i, j))))))))). record {
        id_rule = a;
        name_rule = b;
        version_rule = c;
        entrypoint_rule = d;
        runtime_rule = e;
        outputs_rule = f;
        capabilities_rule = g;
        capability_rule = h;
        resources_rule = i;
        signal_schemas_rule = j;
      }),
      (λ v. (
        v.id_rule,
        (
          v.name_rule,
          (
            v.version_rule,
            (
              v.entrypoint_rule,
              (
                v.runtime_rule,
                (
                  v.outputs_rule,
                  (
                    v.capabilities_rule,
                    (v.capability_rule, (v.resources_rule, v.signal_schemas_rule)),
                  ),
                ),
              ),
            ),
          ),
        ),
      )),
    )

-- Validate returns no error exactly for a manifest that meets every rule: its required fields are not
-- blank, its runtime (where set), output and capabilities are allowed ones, it has a capability and a
-- resource, and each of its signal schemas has identifiers, versions, kinds, bundle paths and class
-- numbers of the required form.
pub validate_iff : (m : PluginManifest) → (validate m ≡ none) ↔ IsAccepted m
unfolding validate
validate_iff m = none_iff (manifest_errors m) means manifest_errors_iff m
