-- ===== src/Credentials/Injection.antt =====
-- sdk/local_credentials.go: what a request is to which a grant has been applied.
use serviceradar_sdk_go.Base.{
  ℕ, Bool, true, false, not, ◌&&◌, [], ◌∷◌, ◌++◌, ◌≡◌, refl, sym, ap, ◌∙◌, ◌⊎◌, inl, inr, none,
  some, if◌then◌else◌, arith, Bool-cases, Result, ok, err,
}
use mathlib.Core.Path.{subst}
use serviceradar_sdk_go.Strings.{
  Bytes, str, equal, equal_sound, equal_refl, equal_fold, trim_space, to_lower,
}
use serviceradar_sdk_go.Maps.{Dict, lookup, lookup-insert, get}
use serviceradar_sdk_go.Http.{HttpRequest}
use serviceradar_sdk_go.Credentials.{CredentialBrokerGrant, inject_spec}
use serviceradar_sdk_go.Credentials.Spec.{SpecError, form_fields}
use serviceradar_sdk_go.Credentials.Scope.{Url, local_inject_targets_request}
use serviceradar_sdk_go.Credentials.Local.{
  GrantError, Outside, authorization, other_headers, request_method, covers, injected, inject_grant,
  local_oauth2_bearer_token, some_missing,
}

lookup-other_headers :
    (key : Bytes) (m : Dict Bytes)
    → lookup key (other_headers m) ≡ (if equal_fold key authorization then none else lookup key m)
unfolding lookup other_headers
lookup-other_headers key [] = elim (Bool-cases (equal_fold key authorization)) [
  | inl e ↦ rw e refl
  | inr e ↦ rw e refl
]
lookup-other_headers key ((j, v) ∷ m) =
    let ih = lookup-other_headers key m in
    let same : equal j key ≡ true → equal_fold j authorization ≡ equal_fold key authorization =
      λ e. ap (λ x. equal_fold x authorization) (equal_sound j key e) in
    elim (Bool-cases (equal_fold j authorization)) [
      | inl f ↦ elim (Bool-cases (equal j key)) [
        | inl e ↦ let k = sym (same e) ∙ f in rw (f, k) (rw k at ih)
        | inr e ↦ rw (f, e) ih
      ]
      | inr f ↦ elim (Bool-cases (equal j key)) [
        | inl e ↦ let k = sym (same e) ∙ f in rw (f, lookup, e, k) refl
        | inr e ↦ rw (f, lookup, e) ih
      ]
    ]

abbrev pub failure : GrantError → Result GrantError HttpRequest
failure e = err e

abbrev pub success : HttpRequest → Result GrantError HttpRequest
success r = ok r

pub success-injective : {r s : HttpRequest} → success r ≡ success s → r ≡ s
success-injective {r} e = ap (λ x. elim x [ ok y ↦ y | err z ↦ r ]) e

apart : (key : Bytes) → equal_fold key authorization ≡ false → equal authorization key ≡ false
unfolding equal_fold
apart key f = elim (Bool-cases (equal authorization key)) [
  | inr d ↦ d
  | inl d ↦ cc (
    f,
    ap (λ x. equal_fold x authorization) (equal_sound authorization key d),
    equal_refl (to_lower authorization),
  )
]

pub failure-success : {x : GrantError} {r : HttpRequest} → failure x ≡ success r → ⊥
failure-success e = cc

pub refused : {A : Type 0} {after : HttpRequest} {x : GrantError} → failure x ≡ success after → A
refused e = absurd (failure-success e)

module _ (outside : Outside) (now : ℕ) (credentials : Dict Bytes) where
  -- The request has got the token of a grant whose target, TLS policy and credentials fit it: it is
  -- the request but for its headers, of which exactly one is an Authorization, the bearer token,
  -- and the others are as they were.
  pub record IsInjected (grant : CredentialBrokerGrant) (u : Url) (request after : HttpRequest)
      : Type 0 where
    pub covered : covers outside now grant (request_method request) u ≡ true
    pub aimed :
        local_inject_targets_request (inject_spec outside.sprint grant) (request_method request) u
        ≡ true
    pub tls_allowed :
        request.insecure_skip_verify ≡ true
        → equal_fold
            (trim_space (get (str "allow_insecure_tls") (inject_spec outside.sprint grant)))
            (str "true")
          ≡ true
    pub given :
        (fields : Dict Bytes) × (fixed : Dict Bytes) × (form_fields
            (inject_spec outside.sprint grant)
          ≡ ok (fields, fixed))
        × (some_missing credentials fields ≡ false)
    pub token :
        lookup authorization after.headers
        ≡ some (str "Bearer " ++ local_oauth2_bearer_token outside now grant)
    pub single :
        (key : Bytes)
        → equal_fold key authorization ≡ true
        → equal authorization key ≡ false
        → lookup key after.headers ≡ none
    pub others :
        (key : Bytes)
        → equal_fold key authorization ≡ false
        → lookup key after.headers ≡ lookup key request.headers
    pub exact : after ≡ injected outside now grant request

  abbrev insecure : Dict Bytes → HttpRequest → Bool
  insecure spec request =
      request.insecure_skip_verify
      && not (equal_fold (trim_space (get (str "allow_insecure_tls") spec)) (str "true"))

  form-cases :
      (r : Result SpecError (Dict Bytes × Dict Bytes))
      → ((e : SpecError) × (r ≡ err e))
        ⊎ ((fields : Dict Bytes) × (fixed : Dict Bytes) × (r ≡ ok (fields, fixed)))
  form-cases (err e) = inl (e, refl)
  form-cases (ok (fields, fixed)) = inr (fields, fixed, refl)

  injected-IsInjected :
      (grant : CredentialBrokerGrant) (u : Url) (request : HttpRequest)
      → covers outside now grant (request_method request) u ≡ true
      → local_inject_targets_request (inject_spec outside.sprint grant) (request_method request) u
        ≡ true
      → insecure (inject_spec outside.sprint grant) request ≡ false
      → (fields : Dict Bytes) × (fixed : Dict Bytes) × (form_fields
            (inject_spec outside.sprint grant)
          ≡ ok (fields, fixed))
        × (some_missing credentials fields ≡ false)
      → IsInjected grant u request (injected outside now grant request)
  injected-IsInjected grant u request c a t g =
      let looked : (key : Bytes)
          → lookup key (injected outside now grant request).headers ≡ (
              if equal authorization key
              then some (str "Bearer " ++ local_oauth2_bearer_token outside now grant)
              else lookup key (other_headers request.headers)) =
        λ key.
          lookup-insert authorization key
            (str "Bearer " ++ local_oauth2_bearer_token outside now grant)
            (other_headers request.headers) in
      record {
        covered = c;
        aimed = a;
        tls_allowed = λ i. ground (arith, t);
        given = g;
        token = rw (looked authorization, equal_refl authorization) refl;
        single = λ key f d. rw (looked key, d, lookup-other_headers key request.headers, f) refl;
        others = λ key f.
            let d : equal authorization key ≡ false = apart key f in
            rw (looked key, d, lookup-other_headers key request.headers, f) refl;
        exact = refl;
      }

  pub inject_grant-IsInjected :
      (grant : CredentialBrokerGrant) (u : Url) (request after : HttpRequest)
      → covers outside now grant (request_method request) u ≡ true
      → inject_grant outside now credentials grant (request_method request) u request ≡ ok after
      → IsInjected grant u request after
  unfolding inject_grant
  inject_grant-IsInjected grant u request after c e =
      let spec = inject_spec outside.sprint grant in
      elim (Bool-cases (local_inject_targets_request spec (request_method request) u)) [
        | inr a ↦ refused (rw a at e)
        | inl a ↦ elim (Bool-cases (insecure spec request)) [
          | inl t ↦ refused (rw (a, t) at e)
          | inr t ↦ elim (form-cases (form_fields spec)) [
            | inl (x, f) ↦ refused (rw (a, t, f) at e)
            | inr (fields, fixed, f) ↦ elim (Bool-cases (some_missing credentials fields)) [
              | inl m ↦ refused (rw (a, t, f, m) at e)
              | inr m ↦
                  subst (IsInjected grant u request) (success-injective (rw (a, t, f, m) at e))
                    (injected-IsInjected grant u request c a t (fields, fixed, f, m))
            ]
          ]
        ]
      ]
