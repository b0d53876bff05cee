-- ===== src/Result/Thresholds.antt =====
-- Thresholds and ApplyThresholds of sdk/result.go, over any type of floats with its zero and its
-- tests >= and >. Examples take the natural numbers.
use serviceradar_sdk_go.Base.{
  ℕ, ◌≤◌, Bool, true, false, ◌||◌, Option, none, some, ◌≡◌, refl, arith, if◌then◌else◌, null,
}
use serviceradar_sdk_go.Strings.{Bytes, equal}
use serviceradar_sdk_go.Result.{Result, status_ok, status_warning, status_critical, status_unknown}

pub record ThresholdSpec (F : Type 0) : Type 0 where
  pub warn : Option F
  pub crit : Option F
  pub min : Option F
  pub max : Option F

module _ {F : Type 0} (positive : F → Bool) where
  unfoldable pub thresholds : F → F → ThresholdSpec F
  thresholds warn crit = record {
    warn = if positive warn then some warn else none;
    crit = if positive crit then some crit else none;
    min = none;
    max = none;
  }

module _ {F : Type 0} (ge : F → F → Bool) where
  -- `bound != nil && value >= *bound`
  abbrev pub reached : F → Option F → Bool
  reached value none = false
  reached value (some bound) = ge value bound

  unfoldable pub apply_thresholds : Result → F → Option F → Option F → Result
  apply_thresholds r value warn crit =
      if reached value crit
      then record r { status = status_critical }
      else if reached value warn
      then record r { status = status_warning }
      else if null r.status || equal r.status status_unknown
      then record r { status = status_ok }
      else r

-- How grave a status is; a status of the plugin's own is as grave as OK.
unfoldable pub rank : Bytes → ℕ
rank s = if equal s status_critical then 2 else if equal s status_warning then 1 else 0

reached_mono :
    {F : Type 0} (ge : F → F → Bool)
    → ((a b c : F) → ge a b ≡ true → ge b c ≡ true → ge a c ≡ true)
    → (high low : F) (bound : Option F) → ge high low ≡ true
    → reached ge low bound ≡ true
    → reached ge high bound ≡ true
reached_mono ge trans high low none h r = r
reached_mono ge trans high low (some bound) h r = trans high low bound h r

rank_critical : rank status_critical ≡ 2
unfolding rank equal
rank_critical = refl

rank_warning : rank status_warning ≡ 1
unfolding rank equal
rank_warning = refl

rank_ok : rank status_ok ≡ 0
unfolding rank equal
rank_ok = refl

-- The three outcomes of ApplyThresholds as a choice between ranks.
rank-apply_thresholds :
    {F : Type 0} (ge : F → F → Bool) (r : Result) (value : F) (warn crit : Option F)
    → rank r.status ≡ 0
    → rank (apply_thresholds ge r value warn crit).status
      ≡ (if reached ge value crit then 2 else if reached ge value warn then 1 else 0)
unfolding apply_thresholds
rank-apply_thresholds ge r value warn crit z =
    ground (arith, rank_critical, rank_warning, rank_ok, z)

-- If the test >= is transitive, then on a result that is not WARNING or CRITICAL already a greater value never gives a less grave
-- status, whichever of the two bounds are set and however they stand to each other.
pub rank-apply_thresholds_mono :
    {F : Type 0} (ge : F → F → Bool)
    → ((a b c : F) → ge a b ≡ true → ge b c ≡ true → ge a c ≡ true)
    → (r : Result) (high low : F) (warn crit : Option F) → rank r.status ≡ 0
    → ge high low ≡ true
    → rank (apply_thresholds ge r low warn crit).status
      ≤ rank (apply_thresholds ge r high warn crit).status
rank-apply_thresholds_mono ge trans r high low warn crit z h = ground (
  arith,
  rank-apply_thresholds ge r high warn crit z,
  rank-apply_thresholds ge r low warn crit z,
  reached_mono ge trans high low warn h,
  reached_mono ge trans high low crit h,
)
