-- ===== src/Result/Execute/Reports.antt =====
-- sdk/execute.go: what is submitted for a plugin that returns an error.
use serviceradar_sdk_go.Base.{◌++◌, ◌≡◌, Option, none, some, if◌then◌else◌, null, false}
use serviceradar_sdk_go.Strings.{Bytes, str}
use serviceradar_sdk_go.Result.{Result, status_critical}

abbrev error_text : Bytes → Bytes
error_text e = str "plugin error: " ++ e

-- What the report of an error says of the result that came with it.
abbrev Keeps : Option Result → Bytes → Result → Type 0
Keeps none e r = r.summary ≡ error_text e
Keeps (some given) e r =
    (r.summary ≡ (if null given.summary then error_text e else given.summary))
    × (r.details ≡ (if null given.details then e else given.details))
    × (r.labels ≡ given.labels)
    × (r.display ≡ given.display)
    × (r.events ≡ given.events)

pub record IsReport (result : Option Result) (e : Bytes) (r : Result) : Type 0 where
  pub is_critical : r.status ≡ status_critical
  pub has_summary : null r.summary ≡ false
  pub keeps : Keeps result e r
