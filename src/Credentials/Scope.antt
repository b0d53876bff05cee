-- ===== src/Credentials/Scope.antt =====
-- sdk/local_credentials.go: which requests a grant covers and where it may be injected. A URL is
-- what the code asks of it.
use serviceradar_sdk_go.Base.{
  ◌-◌, Bool, true, false, not, ◌&&◌, ◌||◌, List, [], ◌∷◌, Option, none, some, if◌then◌else◌, null,
  take, length,
}
use serviceradar_sdk_go.Strings.{
  Bytes, str, ℤ, pos, eqℤ, atoi, equal, equal_fold, has_prefix, has_suffix, trim_prefix, trim_space,
  to_lower,
}
use serviceradar_sdk_go.Maps.{Dict, get}
use serviceradar_sdk_go.Credentials.{CredentialBrokerAllow}

-- A *url.URL as the code asks it: Scheme, Host, Hostname(), Port() and EscapedPath().
pub record Url : Type 0 where
  pub scheme : Bytes
  pub host : Bytes
  pub hostname : Bytes
  pub port : Bytes
  pub escaped_path : Bytes

-- foldedListContains
unfoldable pub folded_list_contains : List Bytes → Bytes → Bool
folded_list_contains [] value = false
folded_list_contains (candidate ∷ values) value =
    equal_fold (trim_space candidate) value || folded_list_contains values value

-- localEscapedPath
abbrev pub local_escaped_path : Url → Bytes
local_escaped_path u = if null u.escaped_path then str "/" else u.escaped_path

abbrev port_of : Option ℤ → ℤ
port_of none = pos 0
port_of (some port) = port

unfoldable pub local_url_port : Url → ℤ
local_url_port u =
    if not (null u.port)
    then port_of (atoi u.port)
    else if equal (to_lower u.scheme) (str "http")
    then pos 80
    else if equal (to_lower u.scheme) (str "https")
    then pos 443
    else pos 0

-- strings.TrimSuffix
abbrev trim_suffix : Bytes → Bytes → Bytes
trim_suffix s suffix = if has_suffix s suffix then take (length s - length suffix) s else s

abbrev path_matches : Bytes → Bytes → Bool
path_matches pattern requested =
    not (null pattern)
    && ((has_prefix pattern (str "=") && equal (trim_prefix pattern (str "=")) requested)
        || equal pattern requested
        || (has_suffix pattern (str "*") && has_prefix requested (trim_suffix pattern (str "*")))
        || (has_suffix pattern (str "/") && has_prefix requested pattern))

-- localGrantPathAllowed
unfoldable pub local_grant_path_allowed : List Bytes → Bytes → Bool
local_grant_path_allowed [] requested = false
local_grant_path_allowed (pattern ∷ patterns) requested =
    path_matches (trim_space pattern) requested || local_grant_path_allowed patterns requested

abbrev port_allowed : List ℤ → ℤ → Bool
port_allowed [] port = false
port_allowed (allowed ∷ ports) port =
    (not (eqℤ port (pos 0)) && eqℤ allowed port) || port_allowed ports port

abbrev allows : CredentialBrokerAllow → Bytes → Url → Bool
allows allow method u =
    if null allow.hosts
    then false
    else if not (null allow.schemes) && not (folded_list_contains allow.schemes u.scheme)
    then false
    else if not (null allow.methods) && not (folded_list_contains allow.methods method)
    then false
    else if not (null allow.paths)
        && not (local_grant_path_allowed allow.paths (local_escaped_path u))
    then false
    else if not (folded_list_contains allow.hosts u.hostname)
        && not (folded_list_contains allow.hosts u.host)
    then false
    else if not (null allow.ports)
    then port_allowed allow.ports (local_url_port u)
    else true

-- localGrantAllows
unfoldable pub local_grant_allows : Option CredentialBrokerAllow → Bytes → Url → Bool
local_grant_allows none method u = false
local_grant_allows (some allow) method u = allows allow method u

-- localInjectTargetsRequest
unfoldable pub local_inject_targets_request : Dict Bytes → Bytes → Url → Bool
local_inject_targets_request spec method u =
    let m = trim_space (get (str "method") spec) in
    let host = trim_space (get (str "host") spec) in
    let path = trim_space (get (str "path") spec) in
    if not (null m) && not (equal_fold m method)
    then false
    else if not (null host) && not (equal_fold host u.hostname) && not (equal_fold host u.host)
    then false
    else if not (null path) && not (equal path (local_escaped_path u))
    then false
    else true
