-- ===== src/Pipeline/Gate/Warned.antt =====
-- What the gate of internal/pipeline/probe_origin_gate.go lets pass and writes over a whole scan.
use vespasian.Prelude.{
  Bool, true, false, not, ◌&&◌, ◌||◌, List, [], ◌∷◌, ◌++◌, map, Option, some, ◌≡◌, refl, ap, ◌∙◌,
  inl, inr, arith, Bytes, any, str_eq, Bool-cases, if◌then◌else◌,
}
use vespasian.Prelude.Parts.{contains}
use vespasian.Packages.{Packages}
use vespasian.Origins.{same_origin}
use vespasian.Classify.Merging.Distinct.{firsts}
use vespasian.Pipeline.Gate.{
  Validator, best_effort_origin, skipping, Warning, warn_derived_probe_origin, GateConfig, Gate,
  new_gate, cross_origin_error, check_origin, check_all,
}

and_true : (b : Bool) → (b && true) ≡ b
and_true b = ground arith

-- The lines of a rejected URL and of those behind it.
lines_of :
    (derived warned seen later : Bool) (line skip : Warning) (old new : List Warning)
    → ((if derived && not warned then line ∷ [] else []) ++ (if seen then [] else skip ∷ []))
        ++ ((if derived && not (if derived && not warned then true else warned) && later
              then line ∷ []
              else [])
            ++ (if seen then old else new))
      ≡ (if derived && not warned && (true || later) then line ∷ [] else [])
        ++ (if seen then old else skip ∷ new)
lines_of true true true later line skip old new = refl
lines_of true true false later line skip old new = refl
lines_of true false true later line skip old new = refl
lines_of true false false later line skip old new = refl
lines_of false true true later line skip old new = refl
lines_of false true false later line skip old new = refl
lines_of false false true later line skip old new = refl
lines_of false false false later line skip old new = refl

module _ (packages : Packages) (config : GateConfig) where
  abbrev pub crosses : Bytes → Bool
  crosses raw = not (same_origin packages raw config.target_origin)

  -- The origins of the rejected URLs.
  abbrev pub crossing : List Bytes → List Bytes
  crossing [] = []
  crossing (raw ∷ urls) =
      let rest = crossing urls in
      if crosses raw then best_effort_origin packages raw ∷ rest else rest

  abbrev pub error_on : Validator → Bytes → Option Bytes
  error_on base raw = if crosses raw then some (cross_origin_error raw) else base raw

  abbrev derived_line : Warning
  derived_line = warn_derived_probe_origin config.target_origin (not (str_eq config.target_url []))

  abbrev derived_lines : Bool → List Bytes → List Warning
  derived_lines warned urls =
      if config.origin_is_derived && not warned && any crosses urls then derived_line ∷ [] else []

  check_all_from :
      (base : Validator) (urls : List Bytes) (g : Gate)
      → check_all packages config base urls g ≡ (
        map (error_on base) urls,
        derived_lines g.warned_derived_origin urls
            ++ map skipping (firsts g.warned_origins (crossing urls)),
      )
  unfolding check_all check_origin
  check_all_from base [] g = ground arith
  check_all_from base (raw ∷ urls) g =
      elim (Bool-cases (same_origin packages raw config.target_origin)) [
        | inl h ↦ rw (h, check_all_from base urls g) refl
        | inr h ↦
            let origin = best_effort_origin packages raw in
            rw (h, check_all_from base urls _)
              (elim (Bool-cases (contains g.warned_origins origin)) [
                | inl c ↦ rw c (
                    ap (λ ws. (some (cross_origin_error raw) ∷ map (error_on base) urls, ws))
                      (lines_of config.origin_is_derived g.warned_derived_origin true
                        (any crosses urls) derived_line (skipping origin)
                        (map skipping (firsts g.warned_origins (crossing urls))) []))
                | inr c ↦ rw c (
                    ap (λ ws. (some (cross_origin_error raw) ∷ map (error_on base) urls, ws))
                      (lines_of config.origin_is_derived g.warned_derived_origin false
                        (any crosses urls) derived_line (skipping origin) []
                        (map skipping (firsts (origin ∷ g.warned_origins) (crossing urls)))))
              ])
      ]

-- Over the calls of a scan, each URL gets the same answer whatever came before: an error if it
-- crosses origins, and that of the validator inside if not. The lines written are the one on the
-- target, once and first, if the origin was derived and a URL was rejected, and then one for each
-- origin that was rejected, in the order of the first rejections.
pub check_all_lem :
    (packages : Packages) (config : GateConfig) (base : Validator) (urls : List Bytes)
    → check_all packages config base urls new_gate ≡ (
      map (error_on packages config base) urls,
      (if config.origin_is_derived && any (crosses packages config) urls
            then warn_derived_probe_origin config.target_origin (not (str_eq config.target_url []))
              ∷ []
            else [])
          ++ map skipping (firsts [] (crossing packages config urls)),
    )
check_all_lem packages config base urls =
    check_all_from packages config base urls new_gate ∙ rw (and_true config.origin_is_derived) refl
