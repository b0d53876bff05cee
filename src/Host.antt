-- ===== src/Host.antt =====
-- sdk/errors.go, sdk/constants.go and sdk/config.go: the codes of the host calls, and the client
-- side of get_config. A host call that fills a buffer gives its int32 result and what the buffer
-- then begins with.
pub mod Local
use serviceradar_sdk_go.Base.{
  ℕ, ◌*◌, ◌<◌, Bool, true, false, List, [], ◌∷◌, if◌then◌else◌, ltb, ◌==◌, take, Result, ok, err,
}
use serviceradar_sdk_go.Strings.{Bytes, str, ℤ, pos, negsuc, is_neg, eqℤ, to_ℕ}

abbrev pub host_err_ok : ℤ
host_err_ok = pos 0

abbrev pub host_err_invalid : ℤ
host_err_invalid = negsuc 0

abbrev pub host_err_denied : ℤ
host_err_denied = negsuc 1

abbrev pub host_err_too_large : ℤ
host_err_too_large = negsuc 2

abbrev pub host_err_not_found : ℤ
host_err_not_found = negsuc 3

abbrev pub host_err_internal : ℤ
host_err_internal = negsuc 4

abbrev pub host_err_timeout : ℤ
host_err_timeout = negsuc 5

abbrev pub host_err_bad_handle : ℤ
host_err_bad_handle = negsuc 6

pub record HostError : Type 0 where
  pub code : ℤ
  pub op : Bytes

-- hostErr: `ok` is its nil
pub data HostResult : Type 0 where
  fine : HostResult
  failed : HostError → HostResult

abbrev pub host_err : ℤ → Bytes → HostResult
host_err code op = if is_neg code then failed (record { code = code; op = op }) else fine

abbrev pub max_payload_bytes : ℕ
max_payload_bytes = 2 * 1024 * 1024

abbrev pub config_error : ℤ → HostError
config_error code = record { code = code; op = str "get_config" }

-- callHostGetConfig, as a function of the buffer's size
abbrev pub GetConfig : Type 0
GetConfig = ℕ → ℤ × Bytes

-- The code behind the `continue` of the loop in getConfigBytes.
abbrev read_config : ℕ → ℤ × Bytes → Result HostError Bytes
read_config size (res, buf) =
    if is_neg res
    then err (config_error res)
    else if eqℤ res (pos 0)
    then ok []
    else if ltb size (to_ℕ res)
    then err (config_error host_err_invalid)
    else ok (take (to_ℕ res) buf)

-- One buffer after the other; only the last size reports that it is too small.
unfoldable pub config_loop : GetConfig → List ℕ → Result HostError Bytes
config_loop call [] = err (config_error host_err_too_large)
config_loop call (size ∷ []) = read_config size (call size)
config_loop call (size ∷ larger ∷ sizes) =
    let rest = config_loop call (larger ∷ sizes) in
    if eqℤ (call size).0 host_err_too_large then rest else read_config size (call size)

abbrev pub config_sizes : List ℕ
config_sizes = 16 * 1024 ∷ 64 * 1024 ∷ 256 * 1024 ∷ max_payload_bytes ∷ []

pub get_config_bytes : GetConfig → Result HostError Bytes
unfolding config_loop
get_config_bytes call = config_loop call config_sizes
