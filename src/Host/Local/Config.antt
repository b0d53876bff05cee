-- ===== src/Host/Local/Config.antt =====
-- getConfigBytes against the local host.
use serviceradar_sdk_go.Base.{
  ◌≡◌, refl, [], ◌∷◌, some, if◌then◌else◌, ltb, length, take, arith, ok, err,
}
use serviceradar_sdk_go.Strings.{Bytes}
use serviceradar_sdk_go.Host.{host_err_too_large, config_error, get_config_bytes, max_payload_bytes}
use serviceradar_sdk_go.Host.Local.{LocalHost, local_get_config}

take_all : (b : Bytes) → take (length b) b ≡ b
take_all [] = refl
take_all (x ∷ b) = rw (take_all b)

-- The plugin reads the host's config whole if it fits the largest buffer, whichever of the four
-- buffers it fits first; a larger config is refused as too large, and nothing is cut off.
pub get_config_bytes-local :
    (h : LocalHost)
    → get_config_bytes (local_get_config (some h)) ≡ (
        if ltb max_payload_bytes (length h.config_json)
        then err (config_error host_err_too_large)
        else ok h.config_json)
unfolding get_config_bytes local_get_config
get_config_bytes-local h = ground (arith, take_all h.config_json)
