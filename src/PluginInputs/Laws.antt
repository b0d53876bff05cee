-- ===== src/PluginInputs/Laws.antt =====
-- What validation, iteration and selection on plugin inputs do.
use serviceradar_sdk_go.Base.{
  ℕ, ◌+◌, true, false, List, [], ◌∷◌, ◌++◌, ◌≡◌, ◌↔◌, inl, inr, refl, ap, Option, none, some, null,
  map, All, arith, Option-cases,
}
use serviceradar_sdk_go.Strings.{is_neg, is_pos, equal_iff, trim_space, blank}
use serviceradar_sdk_go.PluginInputs.{
  PluginInput, PluginInputItem, PluginInputsPayload, plugin_inputs_schema_v1, validate_inputs,
  validate_payload, flatten_inputs, flatten_items, flat_item, Item, each, each_item,
}

pub record IsValidInput (input : PluginInput) : Type 0 where
  pub name_rule : blank input.name ≡ false
  pub entity_rule : blank input.entity ≡ false
  pub query_rule : blank input.query ≡ false
  pub index_rule : is_neg input.chunk_index ≡ false
  pub total_rule : is_pos input.chunk_total ≡ true
  pub hash_rule : blank input.chunk_hash ≡ false
  pub items_rule : null input.items ≡ false

pub record IsValid (p : PluginInputsPayload) : Type 0 where
  pub schema_rule : trim_space p.schema ≡ plugin_inputs_schema_v1
  pub policy_id_rule : blank p.policy_id ≡ false
  pub policy_version_rule : is_pos p.policy_version ≡ true
  pub agent_id_rule : blank p.agent_id ≡ false
  pub generated_at_rule : blank p.generated_at ≡ false
  pub inputs_rule : null p.inputs ≡ false
  pub input_rule : All IsValidInput p.inputs

validate_inputs-All :
    (i : ℕ) (inputs : List PluginInput) → validate_inputs i inputs ≡ none → All IsValidInput inputs
unfolding validate_inputs
validate_inputs-All i [] e = tt
validate_inputs-All i (input ∷ inputs) e = (
  record {
    name_rule = ground arith;
    entity_rule = ground arith;
    query_rule = ground arith;
    index_rule = ground arith;
    total_rule = ground arith;
    hash_rule = ground arith;
    items_rule = ground arith;
  },
  validate_inputs-All (i + 1) inputs (ground arith),
)

All-validate_inputs :
    (i : ℕ) (inputs : List PluginInput) → All IsValidInput inputs → validate_inputs i inputs ≡ none
unfolding validate_inputs
All-validate_inputs i [] v = refl
All-validate_inputs i (input ∷ inputs) (v, vs) =
    rw
      (
        v.name_rule, v.entity_rule, v.query_rule, v.index_rule, v.total_rule, v.hash_rule,
        v.items_rule,
      )
      (All-validate_inputs (i + 1) inputs vs)

-- Validate returns no error exactly for a payload of the schema, spaces around its name aside, with a
-- policy id, a policy version from 1, an agent id and a generation time that are not blank, and at
-- least one input, each of whose inputs has a name, an entity, a query and a hash that are not blank,
-- at least one item, a chunk index from 0 and a chunk total from 1.
pub validate_payload_iff :
    (p : PluginInputsPayload) → (validate_payload (some p) ≡ none) ↔ IsValid p
unfolding validate_payload
validate_payload_iff p =
    let s = equal_iff (trim_space p.schema) plugin_inputs_schema_v1 in
    (
      (λ e. record {
        schema_rule = s.0 (ground arith);
        policy_id_rule = ground arith;
        policy_version_rule = ground arith;
        agent_id_rule = ground arith;
        generated_at_rule = ground arith;
        inputs_rule = ground arith;
        input_rule = validate_inputs-All 0 p.inputs (ground arith);
      }),
      (λ v.
          rw
            (
              s.1 v.schema_rule,
              v.policy_id_rule,
              v.policy_version_rule,
              v.agent_id_rule,
              v.generated_at_rule,
              v.inputs_rule,
            )
            (All-validate_inputs 0 p.inputs v.input_rule)),
    )

-- An item with the fields of its input.
pub record IsItem (input : PluginInput) (item : Item) (x : PluginInputItem) : Type 0 where
  pub name_kept : x.name ≡ input.name
  pub entity_kept : x.entity ≡ input.entity
  pub query_kept : x.query ≡ input.query
  pub index_kept : x.chunk_index ≡ input.chunk_index
  pub total_kept : x.chunk_total ≡ input.chunk_total
  pub hash_kept : x.chunk_hash ≡ input.chunk_hash
  pub item_kept : x.item ≡ item

-- The items of one input, one for each, in their order.
abbrev pub AreItemsOf : PluginInput → List Item → List PluginInputItem → Type 0
AreItemsOf input [] xs = xs ≡ []
AreItemsOf input (item ∷ items) [] = ⊥
AreItemsOf input (item ∷ items) (x ∷ xs) = IsItem input item x × AreItemsOf input items xs

-- The items of all inputs: those of the first come first.
abbrev pub AreItems : List PluginInput → List PluginInputItem → Type 0
AreItems [] xs = xs ≡ []
AreItems (input ∷ inputs) xs =
    (own later : List PluginInputItem) × (xs ≡ own ++ later)
    × AreItemsOf input input.items own
    × AreItems inputs later

map-AreItemsOf :
    (input : PluginInput) (items : List Item) → AreItemsOf input items (map (flat_item input) items)
map-AreItemsOf input [] = refl
map-AreItemsOf input (item ∷ items) = (
  record {
    name_kept = refl;
    entity_kept = refl;
    query_kept = refl;
    index_kept = refl;
    total_kept = refl;
    hash_kept = refl;
    item_kept = refl;
  },
  map-AreItemsOf input items,
)

flatten_inputs-AreItems : (inputs : List PluginInput) → AreItems inputs (flatten_inputs inputs)
unfolding flatten_inputs
flatten_inputs-AreItems [] = refl
flatten_inputs-AreItems (input ∷ inputs) = (
  map (flat_item input) input.items,
  flatten_inputs inputs,
  refl,
  map-AreItemsOf input input.items,
  flatten_inputs-AreItems inputs,
)

module _ {S E : Type 0} (fn : S → PluginInputItem → S × Option E) where
  -- The callback succeeds on each of the items in turn, from one state to another.
  pub data Runs : S → List PluginInputItem → S → Type 0 where
    done : {s : S} → Runs s [] s
    step :
        {s t : S} {item : PluginInputItem} {items : List PluginInputItem}
        → (fn s item).1 ≡ none
        → Runs (fn s item).0 items t
        → Runs s (item ∷ items) t

  -- The run stops at an item after a prefix of successes.
  abbrev StopsAt : S → List PluginInputItem → S → E → Type 0
  StopsAt s items t e =
      (before after : List PluginInputItem) × (item : PluginInputItem) × (u : S) × (items
        ≡ before ++ (item ∷ after))
      × Runs s before u
      × (fn u item ≡ (t, some e))

  unfoldable pub Outcome : S → List PluginInputItem → S × Option E → Type 0
  Outcome s items (t, none) = Runs s items t
  Outcome s items (t, some e) = StopsAt s items t e

  StopsAt-step :
      (s : S) (item : PluginInputItem) (items : List PluginInputItem) (t : S) (e : E)
      → (fn s item).1 ≡ none
      → StopsAt (fn s item).0 items t e
      → StopsAt s (item ∷ items) t e
  StopsAt-step s item items t e c (before, after, last, u, split, runs, stop) =
      (item ∷ before, after, last, u, ap (λ xs. item ∷ xs) split, step c runs, stop)

  Outcome-step :
      (s : S) (item : PluginInputItem) (items : List PluginInputItem) (r : S × Option E)
      → (fn s item).1 ≡ none
      → Outcome (fn s item).0 items r
      → Outcome s (item ∷ items) r
  unfolding Outcome
  Outcome-step s item items (t, none) c o = step c o
  Outcome-step s item items (t, some e) c o = StopsAt-step s item items t e c o

  each-Outcome : (s : S) (items : List PluginInputItem) → Outcome s items (each fn s items)
  unfolding each Outcome
  each-Outcome s [] = done
  each-Outcome s (item ∷ items) = elim (Option-cases (fn s item).1) [
    | inl c ↦ rw (each, c) (Outcome-step s item items _ c (each-Outcome (fn s item).0 items))
    | inr (e, c) ↦ rw (each, c) ([], items, item, s, refl, done, ap (λ r. ((fn s item).0, r)) c)
  ]

  -- EachItem runs the callback on the items of the payload, input by input and each input's in their
  -- order, each with the fields of its input: it returns no error after the callback has succeeded on
  -- all of them, and an error as soon as the callback gives that error on an item, having succeeded
  -- on all those before it.
  pub each_item-Outcome :
      (s : S) (p : PluginInputsPayload)
      → (items : List PluginInputItem) × AreItems p.inputs items
        × Outcome s items (each_item fn s (some p))
  unfolding each_item flatten_items
  each_item-Outcome s p = (
    flatten_inputs p.inputs,
    flatten_inputs-AreItems p.inputs,
    each-Outcome s (flatten_inputs p.inputs),
  )
