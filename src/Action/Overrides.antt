-- ===== src/Action/Overrides.antt =====
-- sdk/run_override.go: overrides that an action leaves for later runs. json is a parameter.
use serviceradar_sdk_go.Base.{
  ℕ, ◌-◌, ◌/◌, ◌≤◌, ◌<◌, Bool, not, ◌&&◌, List, [], ◌∷◌, ◌++◌, ◌≡◌, Option, none, some,
  if◌then◌else◌, null, ltb, arith, Result, ok, err,
}
use serviceradar_sdk_go.Strings.{Bytes, str, ℤ, pos, negsuc, equal}
use serviceradar_sdk_go.Maps.{Dict, lookup}
use serviceradar_sdk_go.Values.{Value}
use serviceradar_sdk_go.Host.{HostError, GetConfig, get_config_bytes}
use serviceradar_sdk_go.Action.{ActionResult, RunOverride}

pub record RunOverrideEnvelope : Type 0 where
  pub schema : Bytes
  pub overrides : List RunOverride

pub data OverrideError : Type 0 where
  host : HostError → OverrideError
  bad_config bad_overrides : OverrideError
  unsupported_schema : Bytes → OverrideError

module _ (decode_config : Bytes → Option (Dict Bytes))
    (decode_envelope : Bytes → Option RunOverrideEnvelope) where
  abbrev overrides_in : Option RunOverrideEnvelope → Result OverrideError (List RunOverride)
  overrides_in none = err bad_overrides
  overrides_in (some e) =
      if equal e.schema (str "serviceradar.plugin_run_overrides.v1")
      then ok e.overrides
      else err (unsupported_schema e.schema)

  abbrev overrides_of : Option (Dict Bytes) → Result OverrideError (List RunOverride)
  overrides_of none = err bad_config
  overrides_of (some config) = elim (lookup (str "_serviceradar_run_overrides") config) [
    | none ↦ ok []
    | some raw ↦ overrides_in (decode_envelope raw)
  ]

  unfoldable pub parse_run_overrides : Bytes → Result OverrideError (List RunOverride)
  parse_run_overrides config = if null config then ok [] else overrides_of (decode_config config)

  unfoldable pub run_overrides : GetConfig → Result OverrideError (List RunOverride)
  run_overrides call = elim (get_config_bytes call) [
    | err e ↦ err (host e)
    | ok config ↦ parse_run_overrides config
  ]

-- ActiveAt
unfoldable pub active_at : RunOverride → ℕ → Bool
active_at o t = not (ltb t o.starts_at) && ltb t o.expires_at

-- `int(duration / time.Second)`, which rounds towards 0
abbrev whole_seconds : ℤ → ℤ
whole_seconds (pos n) = pos (n / 1000000000)
whole_seconds (negsuc n) = if ltb n 999999999 then pos 0 else negsuc ((n - 999999999) / 1000000000)

abbrev pub set_run_override : Bytes → Bytes → Bytes → ℤ → Dict Value → ActionResult → ActionResult
set_run_override id kind target duration params r = record r {
  run_overrides =
      r.run_overrides
      ++ (record {
        op = str "set";
        id = id;
        kind = kind;
        target = target;
        params = params;
        starts_at = [];
        expires_at = [];
        duration_seconds = whole_seconds duration;
      }
          ∷ []);
}

abbrev pub end_run_override : Bytes → ActionResult → ActionResult
end_run_override id r = record r {
  run_overrides =
      r.run_overrides
      ++ (record {
        op = str "end";
        id = id;
        kind = [];
        target = [];
        params = [];
        starts_at = [];
        expires_at = [];
        duration_seconds = pos 0;
      }
          ∷ []);
}

-- Two overrides of which the second begins when the first expires are never active at once, and at
-- every time from the start of the first to the expiry of the second one of them is.
pub active_at_once :
    (a b : RunOverride) (t : ℕ)
    → a.expires_at ≡ b.starts_at
    → a.starts_at ≤ t
    → t < b.expires_at
    → active_at b t ≡ not (active_at a t)
unfolding active_at
active_at_once a b t e s x = ground (arith, e)
