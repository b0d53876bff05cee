-- ===== src/PluginInputs.antt =====
-- sdk/plugin_inputs.go: the payload of policy-driven inputs, its validation, its items in order, and
-- the check targets that they decode to. encoding/json is a parameter. A nil payload is `none`.
pub mod Laws
use serviceradar_sdk_go.Base.{
  ℕ, ◌+◌, Bool, true, false, not, ◌||◌, List, [], ◌∷◌, ◌++◌, Option, none, some, if◌then◌else◌,
  null, map, Result, ok, err,
}
use serviceradar_sdk_go.Strings.{Bytes, str, ℤ, is_neg, is_pos, equal, trim_space, blank, to_lower}
use serviceradar_sdk_go.Maps.{Dict}
use serviceradar_sdk_go.Credentials.{CredentialBrokerGrant}
use serviceradar_sdk_go.Values.{Value}

abbrev pub Item : Type 0
Item = Dict Value

pub record PluginInput : Type 0 where
  pub name : Bytes
  pub entity : Bytes
  pub query : Bytes
  pub chunk_index : ℤ
  pub chunk_total : ℤ
  pub chunk_hash : Bytes
  pub items : List Item

pub record PluginInputsPayload : Type 0 where
  pub schema : Bytes
  pub policy_id : Bytes
  pub policy_version : ℤ
  pub agent_id : Bytes
  pub generated_at : Bytes
  pub template : Dict Value
  pub inputs : List PluginInput

pub record PluginInputItem : Type 0 where
  pub name : Bytes
  pub entity : Bytes
  pub query : Bytes
  pub chunk_index : ℤ
  pub chunk_total : ℤ
  pub chunk_hash : Bytes
  pub item : Item

-- The errors; a number is the index of the input.
pub data InputsError : Type 0 where
  nil_payload missing_policy_id invalid_policy_version missing_agent_id missing_generated_at
        missing_inputs :
      InputsError
  invalid_schema : Bytes → InputsError
  missing_input_name missing_input_entity missing_input_query : ℕ → InputsError
  invalid_chunk_index invalid_chunk_total missing_input_hash missing_input_items : ℕ → InputsError
  bad_json : InputsError

abbrev pub plugin_inputs_schema_v1 : Bytes
plugin_inputs_schema_v1 = str "serviceradar.plugin_inputs.v1"

unfoldable pub validate_inputs : ℕ → List PluginInput → Option InputsError
validate_inputs i [] = none
validate_inputs i (input ∷ inputs) =
    let rest = validate_inputs (i + 1) inputs in
    if blank input.name
    then some (missing_input_name i)
    else if blank input.entity
    then some (missing_input_entity i)
    else if blank input.query
    then some (missing_input_query i)
    else if is_neg input.chunk_index
    then some (invalid_chunk_index i)
    else if not (is_pos input.chunk_total)
    then some (invalid_chunk_total i)
    else if blank input.chunk_hash
    then some (missing_input_hash i)
    else if null input.items
    then some (missing_input_items i)
    else rest

unfoldable pub validate_payload : Option PluginInputsPayload → Option InputsError
validate_payload none = some nil_payload
validate_payload (some p) =
    if not (equal (trim_space p.schema) plugin_inputs_schema_v1)
    then some (invalid_schema p.schema)
    else if blank p.policy_id
    then some missing_policy_id
    else if not (is_pos p.policy_version)
    then some invalid_policy_version
    else if blank p.agent_id
    then some missing_agent_id
    else if blank p.generated_at
    then some missing_generated_at
    else if null p.inputs
    then some missing_inputs
    else validate_inputs 0 p.inputs

-- ParsePluginInputsJSON, with json.Unmarshal as a parameter
abbrev parsed : Option PluginInputsPayload → Result InputsError PluginInputsPayload
parsed none = err bad_json
parsed (some payload) = elim (validate_payload (some payload)) [
  | some e ↦ err e
  | none ↦ ok payload
]

unfoldable pub parse_plugin_inputs_json :
    (Bytes → Option PluginInputsPayload) → Bytes → Result InputsError PluginInputsPayload
parse_plugin_inputs_json unmarshal text = parsed (unmarshal text)

abbrev pub flat_item : PluginInput → Item → PluginInputItem
flat_item input item = record {
  name = input.name;
  entity = input.entity;
  query = input.query;
  chunk_index = input.chunk_index;
  chunk_total = input.chunk_total;
  chunk_hash = input.chunk_hash;
  item = item;
}

unfoldable pub flatten_inputs : List PluginInput → List PluginInputItem
flatten_inputs [] = []
flatten_inputs (input ∷ inputs) = map (flat_item input) input.items ++ flatten_inputs inputs

unfoldable pub flatten_items : Option PluginInputsPayload → List PluginInputItem
unfolding flatten_inputs
flatten_items none = []
flatten_items (some p) = flatten_inputs p.inputs

-- The callback is a step on what it changes; a nil callback, for which EachItem does nothing, is left
-- out.
unfoldable pub each :
    {S : Type 0} {E : Type 0}
    → (S → PluginInputItem → S × Option E)
    → S
    → List PluginInputItem
    → S × Option E
each fn s [] = (s, none)
each fn s (item ∷ items) =
    let rest = each fn (fn s item).0 items in
    elim (fn s item).1 [ some e ↦ ((fn s item).0, some e) | none ↦ rest ]

unfoldable pub each_item :
    {S : Type 0} {E : Type 0}
    → (S → PluginInputItem → S × Option E)
    → S
    → Option PluginInputsPayload
    → S × Option E
each_item fn s p = each fn s (flatten_items p)

unfoldable pub select : (PluginInputItem → Bool) → List PluginInputItem → List PluginInputItem
select test [] = []
select test (item ∷ items) = let rest = select test items in if test item then item ∷ rest else rest

-- The test of ItemsByEntity and ItemsByName, on what they compare
unfoldable pub named : Bytes → Bytes → Bool
named wanted found = equal (to_lower (trim_space found)) wanted

abbrev select_named :
    (PluginInputItem → Bytes) → Bytes → Option PluginInputsPayload → List PluginInputItem
select_named field wanted p =
    if null wanted then [] else select (λ item. named wanted (field item)) (flatten_items p)

unfoldable pub items_by_entity : Bytes → Option PluginInputsPayload → List PluginInputItem
items_by_entity entity p = select_named (λ item. item.entity) (trim_space (to_lower entity)) p

unfoldable pub items_by_name : Bytes → Option PluginInputsPayload → List PluginInputItem
items_by_name name p = select_named (λ item. item.name) (trim_space (to_lower name)) p

pub record CredentialPolicySnapshot : Type 0 where
  pub credential_brokers : List CredentialBrokerGrant
  pub credential_broker_grant_id : List Bytes

-- A nil target and an empty one are the empty list.
pub record TargetContext : Type 0 where
  pub uid : Bytes
  pub check_instance_id : Bytes
  pub check_key : Bytes
  pub monitoring_binding_id : Bytes
  pub descriptor_id : Bytes
  pub descriptor_version : Bytes
  pub target_kind : Bytes
  pub target : Dict Value
  pub credential_policy : CredentialPolicySnapshot
  pub event_policy : Dict Value

pub data TargetError : Type 0 where
  bad_item missing_check_instance_id missing_descriptor_id : TargetError

-- TargetContext; the parameter is json.Marshal of an item followed by json.Unmarshal.
module _ (recode : Item → Option TargetContext) where
  abbrev checked_context : Option TargetContext → Result TargetError TargetContext
  checked_context none = err bad_item
  checked_context (some ctx) =
      if blank ctx.check_instance_id
      then err missing_check_instance_id
      else if blank ctx.descriptor_id
      then err missing_descriptor_id
      else ok ctx

  unfoldable pub target_context : PluginInputItem → Result TargetError TargetContext
  target_context item = checked_context (recode item.item)

  -- The error comes with the index of its item.
  unfoldable pub contexts_from :
      ℕ → List PluginInputItem → Result (ℕ × TargetError) (List TargetContext)
  contexts_from i [] = ok []
  contexts_from i (item ∷ items) =
      let rest = contexts_from (i + 1) items in
      elim (target_context item) [
        | err e ↦ err (i, e)
        | ok ctx ↦ elim rest [ err e ↦ err e | ok ctxs ↦ ok (ctx ∷ ctxs) ]
      ]

  unfoldable pub target_contexts :
      Option PluginInputsPayload → Result (ℕ × TargetError) (List TargetContext)
  unfolding contexts_from
  target_contexts p = contexts_from 0 (flatten_items p)
