-- ===== src/Pipeline/Gate.antt =====
-- internal/pipeline/probe_origin_gate.go: which URLs the probes may request, and the warnings.
pub mod Warned
pub mod Passed
use vespasian.Prelude.{
  Bool, true, false, not, ◌&&◌, List, [], ◌∷◌, ◌++◌, Option, none, some, Bytes, codes, str_eq,
  if◌then◌else◌,
}
use vespasian.Prelude.Parts.{contains}
use vespasian.Packages.{Packages, ParsedUrl}
use vespasian.Origins.{same_origin, validate_full_url}

-- A validator returns an error, or none.
abbrev pub Validator : Type 0
Validator = Bytes → Option Bytes

abbrev best_effort_of_url : Packages → Option ParsedUrl → Bytes
best_effort_of_url packages none = []
best_effort_of_url packages (some u) =
    if str_eq u.host []
    then []
    else packages.to_lower u.scheme ++ (codes "://" ++ packages.to_lower u.host)

unfoldable pub best_effort_origin : Packages → Bytes → Bytes
best_effort_origin packages raw = best_effort_of_url packages (packages.parse_url raw)

-- The lines that are written: those of `warnDerivedProbeOrigin`, and that of a skipped origin.
pub data Warning : Type 0 where
  unresolved_target : Warning
  nothing_derived : Warning
  derived_origin : Bytes → Warning
  skipping : Bytes → Warning

abbrev pub warn_derived_probe_origin : Bytes → Bool → Warning
warn_derived_probe_origin [] true = unresolved_target
warn_derived_probe_origin [] false = nothing_derived
warn_derived_probe_origin (c ∷ origin) _ = derived_origin (c ∷ origin)

-- What `newCrossOriginValidator` is called with, but for the writer.
pub record GateConfig : Type 0 where
  pub target_origin : Bytes
  pub target_url : Bytes
  pub origin_is_derived : Bool

-- The variables of the closure: `warnedOrigins` and `warnedDerivedOrigin`.
pub record Gate : Type 0 where
  pub warned_origins : List Bytes
  pub warned_derived_origin : Bool

abbrev pub new_gate : Gate
new_gate = record { warned_origins = []; warned_derived_origin = false }

abbrev pub validate_parsed : Validator → Bytes → Option Bytes → Option Bytes
validate_parsed base raw none = some (codes "probe: URL rejected by parse-time validation: " ++ raw)
validate_parsed base raw (some _) = base raw

abbrev pub base_or : Option Validator → Validator → Validator
base_or none default = default
base_or (some base) default = base

-- The default is `probe.ValidateProbeURL`.
unfoldable pub new_full_url_validator : Packages → Validator → Option Validator → Validator
new_full_url_validator packages default base raw =
    validate_parsed (base_or base default) raw (validate_full_url packages raw)

abbrev pub cross_origin_error : Bytes → Bytes
cross_origin_error raw = codes "probe: cross-origin URL rejected: " ++ raw

-- One call of the closure: the error, the variables and the lines written.
pub record Answer : Type 0 where
  pub error : Option Bytes
  pub gate : Gate
  pub warnings : List Warning

abbrev derived_warnings : GateConfig → Gate → List Warning
derived_warnings config g =
    if config.origin_is_derived && not g.warned_derived_origin
    then warn_derived_probe_origin config.target_origin (not (str_eq config.target_url [])) ∷ []
    else []

abbrev origin_warnings : Bytes → Gate → List Warning
origin_warnings origin g = if contains g.warned_origins origin then [] else skipping origin ∷ []

unfoldable pub check_origin : Packages → GateConfig → Validator → Bytes → Gate → Answer
check_origin packages config base raw g =
    let origin = best_effort_origin packages raw in
    if same_origin packages raw config.target_origin
    then record { error = base raw; gate = g; warnings = [] }
    else record {
      error = some (cross_origin_error raw);
      gate = record {
        warned_origins =
            if contains g.warned_origins origin
            then g.warned_origins
            else origin ∷ g.warned_origins;
        warned_derived_origin =
            if config.origin_is_derived && not g.warned_derived_origin
            then true
            else g.warned_derived_origin;
      };
      warnings = derived_warnings config g ++ origin_warnings origin g;
    }

-- The calls of a scan, one after another: their errors and the lines written.
unfoldable pub check_all :
    Packages → GateConfig → Validator → List Bytes → Gate → List (Option Bytes) × List Warning
check_all packages config base [] g = ([], [])
check_all packages config base (raw ∷ urls) g =
    let answer = check_origin packages config base raw g in
    let (errors, warnings) = check_all packages config base urls answer.gate in
    (answer.error ∷ errors, answer.warnings ++ warnings)
