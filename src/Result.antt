-- ===== src/Result.antt =====
-- sdk/result.go: the payload serviceradar.plugin_result.v1 and its builders.
-- A time.Time is the number of nanoseconds since Go's zero time, so that IsZero is a test for 0.
-- The methods that change a *Result give the changed record. The fluent `With…` methods are the
-- same functions, since each of them calls its setter and returns its receiver.
pub mod Thresholds
pub mod Execute
use serviceradar_sdk_go.Base.{
  ℕ, zero, suc, ◌+◌, ◌*◌, Bool, true, false, not, ◌&&◌, ◌||◌, List, [], ◌∷◌, ◌++◌, Option, none,
  some, ◌==◌, if◌then◌else◌, null,
}
use serviceradar_sdk_go.Strings.{Bytes, str, ℤ, pos, eqℤ, equal}
use serviceradar_sdk_go.Maps.{Dict, insert}
use serviceradar_sdk_go.Values.{
  Value, text, object, array, Fields, end, field, Items, nil, cons, float,
}

abbrev pub Time : Type 0
Time = ℕ

abbrev pub status_ok : Bytes
status_ok = str "OK"

abbrev pub status_warning : Bytes
status_warning = str "WARNING"

abbrev pub status_critical : Bytes
status_critical = str "CRITICAL"

abbrev pub status_unknown : Bytes
status_unknown = str "UNKNOWN"

pub record DisplayWidget : Type 0 where
  pub widget : Bytes
  pub label : Bytes
  pub value : Bytes
  pub tone : Bytes
  pub layout : Bytes
  pub contents : Dict Value

pub record OcsfEvent : Type 0 where
  pub id : Bytes
  pub time : Time
  pub class_uid : ℤ
  pub category_uid : ℤ
  pub type_uid : ℤ
  pub activity_id : ℤ
  pub activity_name : Bytes
  pub severity_id : ℤ
  pub severity : Bytes
  pub message : Bytes
  pub status_id : Option ℤ
  pub status : Bytes
  pub status_code : Bytes
  pub status_detail : Bytes
  pub metadata : Dict Value
  pub observables : List (Dict Value)
  pub trace_id : Bytes
  pub span_id : Bytes
  pub actor : Dict Value
  pub device : Dict Value
  pub src_endpoint : Dict Value
  pub dst_endpoint : Dict Value
  pub log_name : Bytes
  pub log_provider : Bytes
  pub log_level : Bytes
  pub log_version : Bytes
  pub unmapped : Dict Value
  pub raw_bytes : Bytes

-- Feeds and discoveries are carried as they are: `AdvisoryFeedBatch` and `DeviceDiscovery` are
-- plain structs of texts, numbers and maps.
pub record Result : Type 0 where
  pub status : Bytes
  pub summary : Bytes
  pub details : Bytes
  pub perfdata : Bytes
  pub labels : Dict Bytes
  pub observed_at : Bytes
  pub schema_version : ℤ
  pub display : List DisplayWidget
  pub events : List OcsfEvent
  pub device_discovery : List Value
  pub advisory_feeds : List Value
  pub alert_hint : Bool
  pub condition_id : Bytes
  pub check_instance_id : Bytes
  pub monitored_service_id : Bytes
  pub device_uid : Bytes

-- Result{}
abbrev pub zero_result : Result
zero_result = record {
  status = [];
  summary = [];
  details = [];
  perfdata = [];
  labels = [];
  observed_at = [];
  schema_version = pos 0;
  display = [];
  events = [];
  device_discovery = [];
  advisory_feeds = [];
  alert_hint = false;
  condition_id = [];
  check_instance_id = [];
  monitored_service_id = [];
  device_uid = [];
}

abbrev pub new_result : Result
new_result = record zero_result { schema_version = pos 1; status = status_unknown }

-- Ok, Warning, Critical and Unknown
abbrev pub result_of : Bytes → Bytes → Result
result_of status summary = record new_result { status = status; summary = summary }

abbrev pub critical : Bytes → Result
critical = result_of status_critical

abbrev pub add_label : Result → Bytes → Bytes → Result
add_label r key value = if null key then r else record r { labels = insert key value r.labels }

abbrev add_widget : Result → DisplayWidget → Result
add_widget r w = record r { display = r.display ++ (w ∷ []) }

abbrev pub add_stat_card : Result → Bytes → Bytes → Bytes → Result
add_stat_card r label value tone = add_widget r (record {
  widget = str "stat_card";
  label = label;
  value = value;
  tone = tone;
  layout = [];
  contents = [];
})

mapped : Dict Bytes → Dict Value
mapped [] = []
mapped ((key, value) ∷ rest) = (key, text value) ∷ mapped rest

-- A nil map is refused, an empty one is not.
unfoldable pub add_table : Result → Option (Dict Bytes) → Bytes → Result
unfolding mapped
add_table r none layout = r
add_table r (some cells) layout = add_widget r (record {
  widget = str "table";
  label = [];
  value = [];
  tone = [];
  layout = layout;
  contents = mapped cells;
})

floats : List ℕ → Items
floats [] = nil
floats (x ∷ xs) = cons (float x) (floats xs)

unfoldable pub add_sparkline : Result → Bytes → List ℕ → Bytes → Result
unfolding floats
add_sparkline r label [] tone = r
add_sparkline r label (x ∷ xs) tone = add_widget r (record {
  widget = str "sparkline";
  label = label;
  value = [];
  tone = tone;
  layout = [];
  contents = (str "values", array (floats (x ∷ xs))) ∷ [];
})

unfoldable pub add_markdown : Result → Bytes → Result
add_markdown r [] = r
add_markdown r (c ∷ cs) = add_widget r (record {
  widget = str "markdown";
  label = [];
  value = [];
  tone = [];
  layout = [];
  contents = (str "markdown", text (c ∷ cs)) ∷ [];
})

abbrev pub request_immediate_alert : Result → Bytes → Result
request_immediate_alert r condition_id = record r { alert_hint = true; condition_id = condition_id }

-- applyResultDefaults, with the text of SetObservedAt(now)
unfoldable pub apply_result_defaults : Bytes → Result → Result
apply_result_defaults now r =
    let status = if null r.status then status_unknown else r.status in
    record r {
      schema_version = if eqℤ r.schema_version (pos 0) then pos 1 else r.schema_version;
      status = status;
      summary = if null r.summary then status else r.summary;
      observed_at = if null r.observed_at then now else r.observed_at;
    }

-- Serialize: a nil result is serialized as the zero value; the copy takes the defaults.
-- json.Marshal of the payload is `marshal`.
unfoldable pub serialize : (Result → Option Bytes) → Bytes → Option Result → Option Bytes
serialize marshal now none = marshal (apply_result_defaults now zero_result)
serialize marshal now (some r) = marshal (apply_result_defaults now r)
