-- ===== src/Credentials/Safety.antt =====
-- What the local host does to a request that passes its credential grants: a token for exactly the
-- requests that a grant covers, and nothing of the credentials themselves.
use serviceradar_sdk_go.Base.{
  ℕ, false, List, [], ◌∷◌, ◌++◌, ◌≡◌, refl, sym, ap, ◌∙◌, ◌⊎◌, inl, inr, some, null, All,
  Bool-cases, Option-cases, ok,
}
use serviceradar_sdk_go.Strings.{Bytes, trim_space}
use serviceradar_sdk_go.Maps.{Dict}
use serviceradar_sdk_go.Http.{HttpRequest}
use serviceradar_sdk_go.Credentials.{CredentialBrokerGrant}
use serviceradar_sdk_go.Credentials.Scope.{Url}
use serviceradar_sdk_go.Credentials.Local.{
  Outside, request_method, covers, grant_loop, apply_local_credential_grants,
}
use serviceradar_sdk_go.Credentials.Injection.{
  refused, success-injective, failure-success, IsInjected, inject_grant-IsInjected,
}

module _ (outside : Outside) (now : ℕ) (credentials : Dict Bytes) where
  abbrev Skipped : Url → HttpRequest → List CredentialBrokerGrant → Type 0
  Skipped u request = All (λ g. covers outside now g (request_method request) u ≡ false)

  -- No grant covers the request, which is as it was, or the first that covers it is injected.
  abbrev pub Settled : List CredentialBrokerGrant → Url → HttpRequest → HttpRequest → Type 0
  Settled grants u request after =
      ((after ≡ request) × Skipped u request grants)
      ⊎ ((before : List CredentialBrokerGrant) × (grant : CredentialBrokerGrant) × (later : List
            CredentialBrokerGrant)
          × (grants ≡ before ++ (grant ∷ later))
          × Skipped u request before
          × IsInjected outside now credentials grant u request after)

  grant_loop-IsInjected :
      (grants : List CredentialBrokerGrant) (u : Url) (request after : HttpRequest)
      → grant_loop outside now credentials grants (request_method request) u request ≡ ok after
      → Settled grants u request after
  unfolding grant_loop
  grant_loop-IsInjected [] u request after e = inl (sym (success-injective e), tt)
  grant_loop-IsInjected (g ∷ gs) u request after e =
      elim (Bool-cases (covers outside now g (request_method request) u)) [
        | inl c ↦ inr (
          [],
          g,
          gs,
          refl,
          tt,
          inject_grant-IsInjected outside now credentials g u request after c (rw c at e),
        )
        | inr c ↦ elim (grant_loop-IsInjected gs u request after (rw c at e)) [
          | inl (same, none_cover) ↦ inl (same, (c, none_cover))
          | inr (before, h, later, split, skipped, i) ↦
              inr (g ∷ before, h, later, ap (λ x. g ∷ x) split, (c, skipped), i)
        ]
      ]

  -- A request that passes the grants: there are none, and it is as it was; or its URL parses to u, and
  -- either no grant covers it and it is as it was, or the first grant that covers it allows its
  -- target and its TLS policy, has a valid spec and every credential that the spec maps, and the
  -- request has got exactly one Authorization header, the grant's bearer token, with its other
  -- headers as they were.
  pub apply_local_credential_grants-Settled :
      (grants : List CredentialBrokerGrant) (request after : HttpRequest)
      → apply_local_credential_grants outside now credentials grants request ≡ ok after
      → ((grants ≡ []) × (after ≡ request))
        ⊎ ((u : Url) × (outside.parse_url (trim_space request.url) ≡ some u)
            × Settled grants u request after)
  unfolding apply_local_credential_grants
  apply_local_credential_grants-Settled [] request after e = inl (refl, sym (success-injective e))
  apply_local_credential_grants-Settled (g ∷ gs) request after e =
      elim (Option-cases (outside.parse_url (trim_space request.url))) [
        | inl p ↦ refused (rw p at e)
        | inr (u, p) ↦ elim (Bool-cases (null u.host)) [
          | inl n ↦ refused (rw (p, n) at e)
          | inr n ↦ inr (u, p, grant_loop-IsInjected (g ∷ gs) u request after (rw (p, n) at e))
        ]
      ]

module _ (outside : Outside) (now : ℕ) (mine yours : Dict Bytes) where
  grant_loop_same :
      (grants : List CredentialBrokerGrant) (u : Url) (request a b : HttpRequest)
      → grant_loop outside now mine grants (request_method request) u request ≡ ok a
      → grant_loop outside now yours grants (request_method request) u request ≡ ok b
      → a ≡ b
  unfolding grant_loop
  grant_loop_same [] u request a b e f = sym (success-injective e) ∙ success-injective f
  grant_loop_same (g ∷ gs) u request a b e f =
      elim (Bool-cases (covers outside now g (request_method request) u)) [
        | inl c ↦
            let i = inject_grant-IsInjected outside now mine g u request a c (rw c at e) in
            let j = inject_grant-IsInjected outside now yours g u request b c (rw c at f) in
            i.exact ∙ sym j.exact
        | inr c ↦ grant_loop_same gs u request a b (rw c at e) (rw c at f)
      ]

  -- The request that passes does not depend on the values of the credentials: two stores of
  -- credentials with which a request passes the same grants give the same request.
  pub apply_local_credential_grants_same :
      (grants : List CredentialBrokerGrant) (request a b : HttpRequest)
      → apply_local_credential_grants outside now mine grants request ≡ ok a
      → apply_local_credential_grants outside now yours grants request ≡ ok b
      → a ≡ b
  unfolding apply_local_credential_grants
  apply_local_credential_grants_same [] request a b e f =
      sym (success-injective e) ∙ success-injective f
  apply_local_credential_grants_same (g ∷ gs) request a b e f =
      elim (Option-cases (outside.parse_url (trim_space request.url))) [
        | inl p ↦ absurd (failure-success (rw p at e))
        | inr (u, p) ↦ elim (Bool-cases (null u.host)) [
          | inl n ↦ absurd (failure-success (rw (p, n) at e))
          | inr n ↦ grant_loop_same (g ∷ gs) u request a b (rw (p, n) at e) (rw (p, n) at f)
        ]
      ]
