-- ===== src/Credentials/Form.antt =====
-- What a spec is that passes the checks of sdk/credential_grant.go.
use serviceradar_sdk_go.Base.{
  ℕ, ◌≤◌, Bool, true, false, not, ◌||◌, [], ◌≡◌, ◌⊎◌, inl, inr, refl, sym, ap, Option, none, some,
  ◌==◌, if◌then◌else◌, null, get_or, All, arith, Option-cases, Result, ok, err,
}
use mathlib.Core.Path.{subst}
use serviceradar_sdk_go.Strings.{
  Bytes, str, ℤ, pos, negsuc, atoi, equal, equal_sound, equal_fold, trim_space,
}
use serviceradar_sdk_go.Maps.{Dict, lookup, get}
use serviceradar_sdk_go.Credentials.{oauth2_client_credentials}
use serviceradar_sdk_go.Credentials.Spec.{
  SpecError, form_entries, checked_form, bad_port, client_id, client_secret, grant_type_field,
  client_credentials, contains_any, collect_fields, collect_fixed, provided, form_fields,
}
use serviceradar_sdk_go.Credentials.Entries.{
  field_entries, IsMapping, collect_fields-mapped, AreDisjoint, collect_fixed-AreDisjoint,
}

-- A field that the exchange needs has a credential or a literal.
abbrev IsProvided : Bytes → Dict Bytes → Dict Bytes → Type 0
IsProvided required fields fixed =
    ((source : Bytes) × (lookup required fields ≡ some source))
    ⊎ (null (get required fixed) ≡ false)

pub record IsForm (spec fields fixed : Dict Bytes) : Type 0 where
  pub posted : equal_fold (trim_space (get (str "token_method") spec)) (str "POST") ≡ true
  pub host_given : null (trim_space (get (str "token_host") spec)) ≡ false
  pub host_bare : contains_any (trim_space (get (str "token_host") spec)) (str "/@?#") ≡ false
  pub port :
      (n : ℕ) × (atoi (trim_space (get (str "token_port") spec)) ≡ some (pos n))
      × (1 ≤ n)
      × (n ≤ 65535)
  pub path_absolute : get_or (trim_space (get (str "token_path") spec)) 0 0 ≡ b'/'
  pub path_plain : contains_any (trim_space (get (str "token_path") spec)) (str "?#") ≡ false
  pub mapped : fields ≡ field_entries spec
  pub mappings : All IsMapping fields
  pub disjoint : (k : Bytes) → (lookup k fields ≡ none) ⊎ (lookup k fixed ≡ none)
  pub grant_type : get grant_type_field fixed ≡ client_credentials
  pub has_id : IsProvided client_id fields fixed
  pub has_secret : IsProvided client_secret fields fixed

abbrev Form : Type 0
Form = Dict Bytes × Dict Bytes

abbrev accepted : Form → Result SpecError Form
accepted form = ok form

abbrev rejected : SpecError → Result SpecError Form
rejected e = err e

rejected-clash : {A : Type 0} {e : SpecError} {form : Form} → rejected e ≡ accepted form → A
rejected-clash {e} {form} p = absurd (distinct p)
  where
    distinct : rejected e ≡ accepted form → ⊥
    distinct p = cc

accepted-injective : {f g : Form} → accepted f ≡ accepted g → f ≡ g
accepted-injective {f} e = ap (λ x. elim x [ ok y ↦ y | err z ↦ f ]) e

provided-IsProvided :
    (required : Bytes) (fields fixed : Dict Bytes)
    → provided required fields fixed ≡ true
    → IsProvided required fields fixed
unfolding provided
provided-IsProvided required fields fixed h = elim (Option-cases (lookup required fields)) [
  | inl n ↦ inr (given (rw (provided, n) at h))
  | inr (source, s) ↦ inl (source, s)
]
  where
    given : {b : Bool} → not b ≡ true → b ≡ false
    given h = ground arith

-- What the two loops and the checks behind them give.
record IsEntries (spec fields fixed : Dict Bytes) : Type 0 where
  mapped : fields ≡ field_entries spec
  mappings : All IsMapping fields
  disjoint : AreDisjoint fields fixed
  grant_type : get grant_type_field fixed ≡ client_credentials
  has_id : IsProvided client_id fields fixed
  has_secret : IsProvided client_secret fields fixed

-- A check that has not rejected the spec.
past :
    (b : Bool) (x : SpecError) (r : Result SpecError Form) (form : Form)
    → (if b then rejected x else r) ≡ accepted form
    → (b ≡ false) × (r ≡ accepted form)
past true x r form e = rejected-clash e
past false x r form e = (refl, e)

checked_form-cases :
    (fields fixed : Dict Bytes) (form : Form)
    → checked_form fields fixed ≡ accepted form
    → ((fields, fixed) ≡ form)
      × (equal (get grant_type_field fixed) client_credentials ≡ true)
      × (provided client_id fields fixed ≡ true)
      × (provided client_secret fields fixed ≡ true)
checked_form-cases fields fixed form e =
    let (g, e) = past (not (equal (get grant_type_field fixed) client_credentials)) _ _ _ e in
    let (i, e) = past (not (provided client_id fields fixed)) _ _ _ e in
    let (s, e) = past (not (provided client_secret fields fixed)) _ _ _ e in
    (accepted-injective e, ground arith, ground arith, ground arith)

form_entries-IsEntries :
    (spec : Dict Bytes) (form : Form)
    → form_entries spec ≡ accepted form
    → IsEntries spec form.0 form.1
form_entries-IsEntries spec form e = elim (Result-cases (collect_fields spec [])) [
  | inl (x, f) ↦ rejected-clash (rw (form_entries, f) at e)
  | inr (fields, f) ↦ elim (Result-cases (collect_fixed fields spec [])) [
    | inl (x, g) ↦ rejected-clash (rw (form_entries, f, g) at e)
    | inr (fixed, g) ↦
        let (same, grant, id, secret) =
          checked_form-cases fields fixed form (rw (form_entries, f, g) at e) in
        let (mapped, good) = collect_fields-mapped spec [] fields f in
        subst (λ x. IsEntries spec x.0 x.1) same
          (record {
            mapped = mapped;
            mappings = subst (All IsMapping) (sym mapped) good;
            disjoint =
                collect_fixed-AreDisjoint fields spec [] fixed (λ k. inr (unfold lookup in refl)) g;
            grant_type = equal_sound _ _ grant;
            has_id = provided-IsProvided client_id fields fixed id;
            has_secret = provided-IsProvided client_secret fields fixed secret;
          })
  ]
]
  where
    Result-cases :
        (r : Result SpecError (Dict Bytes))
        → ((e : SpecError) × (r ≡ err e)) ⊎ ((m : Dict Bytes) × (r ≡ ok m))
    Result-cases (err x) = inl (x, refl)
    Result-cases (ok m) = inr (m, refl)

port-cases :
    (o : Option ℤ) → bad_port o ≡ false → (n : ℕ) × (o ≡ some (pos n)) × (1 ≤ n) × (n ≤ 65535)
port-cases none h = absurd cc
port-cases (some (pos n)) h = (n, refl, ground arith, ground arith)
port-cases (some (negsuc n)) h = absurd (ground arith)

-- A spec that is accepted: the token endpoint is a bare host, a port from 1 to 65535 and an absolute
-- path without query or fragment, and is posted to; the form fields are exactly its field_ entries,
-- each with a target and a valid source, and none of them is also a fixed one; the grant type is
-- client_credentials; the client id and the client secret each come from a credential or are fixed
-- to a value that is not empty.
pub form_fields-IsForm :
    (spec fields fixed : Dict Bytes)
    → form_fields spec ≡ ok (fields, fixed)
    → IsForm spec fields fixed
unfolding form_fields
form_fields-IsForm spec fields fixed e =
    let host = trim_space (get (str "token_host") spec) in
    let path = trim_space (get (str "token_path") spec) in
    let port = atoi (trim_space (get (str "token_port") spec)) in
    let type = trim_space (get (str "type") spec) in
    let method = trim_space (get (str "token_method") spec) in
    let (t, e) = past (not (equal_fold type oauth2_client_credentials)) _ _ _ e in
    let (m, e) = past (not (equal_fold method (str "POST"))) _ _ _ e in
    let (h, e) = past (null host || contains_any host (str "/@?#")) _ _ _ e in
    let (p, e) = past (bad_port port) _ _ _ e in
    let (a, e) =
      past (null path || not (get_or path 0 0 == b'/') || contains_any path (str "?#")) _ _ _ e in
    let f = form_entries-IsEntries spec (fields, fixed) e in
    record {
      posted = ground arith;
      host_given = ground arith;
      host_bare = ground arith;
      port = port-cases port p;
      path_absolute = ground arith;
      path_plain = ground arith;
      mapped = f.mapped;
      mappings = f.mappings;
      disjoint = f.disjoint;
      grant_type = f.grant_type;
      has_id = f.has_id;
      has_secret = f.has_secret;
    }
