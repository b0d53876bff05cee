-- ===== src/Credentials.antt =====
-- sdk/credential_grant.go, with the grant type of sdk/plugin_inputs.go: what a credential broker
-- grant covers and how it says that a credential is injected. `sprint` is fmt.Sprint.
pub mod Spec
pub mod Entries
pub mod Form
pub mod Scope
pub mod Local
pub mod Injection
pub mod Safety
use serviceradar_sdk_go.Base.{ℕ, List, [], ◌∷◌, Option}
use serviceradar_sdk_go.Strings.{Bytes, str, ℤ, trim_space, to_lower}
use serviceradar_sdk_go.Maps.{Dict, get}
use serviceradar_sdk_go.Values.{Value, null, truth, int, float, text, array, object}

-- What a request has to be for a grant to apply to it.
pub record CredentialBrokerAllow : Type 0 where
  pub schemes : List Bytes
  pub methods : List Bytes
  pub paths : List Bytes
  pub hosts : List Bytes
  pub ports : List ℤ

pub record CredentialBrokerGrant : Type 0 where
  pub grant_id : Bytes
  pub grant_ref : Bytes
  pub credential_secret_ref : Bytes
  pub grant_type : Bytes
  pub inject : Dict Value
  pub allow : Option CredentialBrokerAllow
  pub expires_at : Bytes
  pub cache_status : Bytes

abbrev pub oauth2_client_credentials : Bytes
oauth2_client_credentials = str "oauth2_client_credentials"

module _ (sprint : Value → Bytes) where
  abbrev inject_value : Bytes → Value → Dict Bytes → Dict Bytes
  inject_value key null rest = rest
  inject_value key (text t) rest = (key, t) ∷ rest
  inject_value key (truth b) rest = (key, sprint (truth b)) ∷ rest
  inject_value key (int z) rest = (key, sprint (int z)) ∷ rest
  inject_value key (float x) rest = (key, sprint (float x)) ∷ rest
  inject_value key (array xs) rest = (key, sprint (array xs)) ∷ rest
  inject_value key (object xs) rest = (key, sprint (object xs)) ∷ rest

  abbrev spec_from : Dict Value → Dict Bytes
  spec_from [] = []
  spec_from ((key, value) ∷ rest) = inject_value key value (spec_from rest)

  -- InjectSpec and InjectType
  unfoldable pub inject_spec : CredentialBrokerGrant → Dict Bytes
  inject_spec g = spec_from g.inject

  unfoldable pub inject_type : CredentialBrokerGrant → Bytes
  unfolding inject_spec
  inject_type g = to_lower (trim_space (get (str "type") (inject_spec g)))
