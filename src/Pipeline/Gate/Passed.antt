-- ===== src/Pipeline/Gate/Passed.antt =====
-- What passes the gate of internal/pipeline/probe_origin_gate.go.
use vespasian.Prelude.{
  true, false, Option, none, some, ◌≡◌, refl, sym, ◌∙◌, inl, inr, arith, Bytes, Bool-cases,
}
use vespasian.Packages.{Packages, ParsedUrl}
use vespasian.Origins.{same_origin, validate_full_url, validated_url, is_http}
use vespasian.Origins.Components.{IsParsed, parts, same_origin_lem}
use vespasian.Pipeline.Gate.{
  Validator, GateConfig, Gate, check_origin, new_full_url_validator, validate_parsed, base_or,
}

passed_same :
    (packages : Packages) (config : GateConfig) (base : Validator) (raw : Bytes) (g : Gate)
    → (check_origin packages config base raw g).error ≡ none
    → (same_origin packages raw config.target_origin ≡ true) × (base raw ≡ none)
unfolding check_origin
passed_same packages config base raw g h =
    elim (Bool-cases (same_origin packages raw config.target_origin)) [
      | inl e ↦ (e, ground (arith, h, e))
      | inr e ↦ ground (arith, h, e)
    ]

through :
    (u : ParsedUrl) (base : Validator) (raw : Bytes)
    → validate_parsed base raw (validated_url (some u)) ≡ none
    → (is_http u.scheme ≡ true) × (u.has_user ≡ false) × (base raw ≡ none)
through u base raw h = ground (arith, h)

no_error :
    (packages : Packages) (default : Validator) (base : Option Validator) (raw : Bytes)
    (u : ParsedUrl)
    → packages.parse_url raw ≡ some u
    → new_full_url_validator packages default base raw ≡ none
    → (is_http u.scheme ≡ true) × (u.has_user ≡ false) × (base_or base default raw ≡ none)
unfolding new_full_url_validator validate_full_url
no_error packages default base raw u p h =
    through u (base_or base default) raw (sym (rw p refl) ∙ h)

-- A URL that the probe gate of a scan answers without an error, whatever URLs it was asked for
-- before, has the scheme, the host and the port of the target origin (the case and the default
-- port aside), is of HTTP or HTTPS, carries no credentials, and is accepted by the validator
-- inside, which is the default one if none was set; if both URLs parse, with no colon in a scheme
-- or a port and no bracket in a host name.
pub check_origin_lem :
    (packages : Packages) (config : GateConfig) (default : Validator) (base : Option Validator)
    (raw : Bytes) (g : Gate) (u v : ParsedUrl)
    → packages.parse_url raw ≡ some u
    → packages.parse_url config.target_origin ≡ some v
    → IsParsed packages u
    → IsParsed packages v
    → (check_origin packages config (new_full_url_validator packages default base) raw g).error
      ≡ none
    → (parts packages u ≡ parts packages v)
      × (is_http u.scheme ≡ true)
      × (u.has_user ≡ false)
      × (base_or base default raw ≡ none)
check_origin_lem packages config default base raw g u v pu pv wu wv h =
    let (same, ok) =
      passed_same packages config (new_full_url_validator packages default base) raw g h in
    let (x, y, e) = (same_origin_lem packages raw config.target_origin u v pu pv wu wv).0 same in
    let (i, j, k) = no_error packages default base raw u pu ok in (e, i, j, k)
