-- ===== src/Verifier/Configured.antt =====
-- The configuration that `New` of oidcauth/oidc.go accepts.
use gobox.Base.{◌≤◌, ◌≡◌, inl, inr, true, false, Option, none, some, arith, Bool-cases}
use gobox.Base.Text.{Text, is_empty}
use gobox.Base.Int.{is_pos, is_neg}
use gobox.Base.Errors.{Result, ok, Result-cases}
use gobox.Introspection.{
  Introspector, IntrospectorConfig, new_introspector, resolve_introspection_endpoint,
}
use gobox.Verifier.{Config, validate_config, introspector_of, introspector_config, new_oidc}

-- The demands on a configuration, with its defaults filled in.
pub record IsValid (c : Config) : Type 0 where
  pub realm : is_empty c.realm_url ≡ false
  pub client : is_empty c.client_id ≡ false
  pub secret : c.disable_introspection ≡ false → is_empty c.client_secret ≡ false
  pub ttl : is_neg c.introspection_cache_ttl ≡ false
  pub request : is_pos c.request_timeout ≡ true
  pub round_trip : is_pos c.introspection_http_timeout ≡ true

-- The introspector is there exactly if introspection is not disabled, and can be used.
abbrev pub Ready : Config → Option Introspector → Type 0
Ready c none = c.disable_introspection ≡ true
Ready c (some i) =
    (c.disable_introspection ≡ false)
    × (is_empty i.endpoint ≡ false)
    × (1 ≤ i.http_timeout)
    × (i.cache_ttl ≡ c.introspection_cache_ttl)

validate_config-IsValid :
    (parse : Text → Option (Text × Text)) (config c : Config)
    → validate_config parse config ≡ ok c
    → IsValid c
unfolding validate_config
validate_config-IsValid parse config c is = ground (arith, is)

-- An introspector can be used, and keeps its configuration's time to live.
new_introspector-IsUsable :
    (cfg : IntrospectorConfig) (i : Introspector)
    → new_introspector cfg ≡ ok i
    → (is_empty i.endpoint ≡ false) × (1 ≤ i.http_timeout) × (i.cache_ttl ≡ cfg.cache_ttl)
unfolding new_introspector
new_introspector-IsUsable cfg i is = ground (arith, is)

introspector_of-Ready :
    (c : Config) (discovery : Result Text) (i : Option Introspector)
    → introspector_of c discovery ≡ ok i
    → Ready c i
unfolding introspector_of
introspector_of-Ready c discovery i is = elim (Bool-cases c.disable_introspection) [
  | inl off ↦
      let x = rw (off, introspector_of) at is in
      let none_there : none ≡ i = (cc) in rw (← none_there) off
  | inr on ↦
      elim (Result-cases (resolve_introspection_endpoint discovery c.introspection_endpoint)) [
        | inl (endpoint, found) ↦
            elim (Result-cases (new_introspector (introspector_config c endpoint))) [
              | inl (made, built) ↦
                  let x = rw (on, found, built, introspector_of) at is in
                  let there : some made ≡ i = (cc) in
                  let (a, b, d) = new_introspector-IsUsable _ made built in
                  rw (← there) (on, a, b, d)
              | inr (e, failed) ↦
                  let x = rw (on, found, failed, introspector_of) at is in absurd (cc)
            ]
        | inr (e, failed) ↦ let x = rw (on, failed, introspector_of) at is in absurd (cc)
      ]
]

-- New succeeds only with a valid configuration, whose defaults it fills in; it builds an
-- introspector exactly if introspection is not disabled, with an endpoint, a positive timeout and
-- the configured time to live.
new_oidc-Ready :
    (parse : Text → Option (Text × Text)) (discover : Text → Result (Result Text))
    (config c : Config) (i : Option Introspector)
    → new_oidc parse discover config ≡ ok (c, i)
    → IsValid c × Ready c i
unfolding new_oidc
new_oidc-Ready parse discover config c i is = elim (Result-cases (validate_config parse config)) [
  | inl (d, valid) ↦ elim (Result-cases (discover d.realm_url)) [
    | inl (discovery, found) ↦ elim (Result-cases (introspector_of d discovery)) [
      | inl (j, built) ↦
          let x = rw (valid, found, built, new_oidc) at is in
          let same_config : d ≡ c = (cc) in
          let same_introspector : j ≡ i = (cc) in
          (
            rw (← same_config) (validate_config-IsValid parse config d valid),
            rw (← same_config, ← same_introspector) (introspector_of-Ready d discovery j built),
          )
      | inr (e, failed) ↦ let x = rw (valid, found, failed, new_oidc) at is in absurd (cc)
    ]
    | inr (e, failed) ↦ let x = rw (valid, failed, new_oidc) at is in absurd (cc)
  ]
  | inr (e, failed) ↦ let x = rw (failed, new_oidc) at is in absurd (cc)
]
