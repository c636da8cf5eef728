-- ===== src/Pipeline/Stage/Accepted.antt =====
-- The requests that the stage of internal/pipeline/pipeline.go that classifies keeps.
use vespasian.Prelude.{
  ℕ, ◌≤◌, ◌<◌, true, List, [], ◌∷◌, map, none, some, ◌≡◌, inl, inr, refl, sym, ap, subst, arith,
  All, Bytes, if_both, leb, leb→le, str_eq, Bool-cases, Option-cases,
}
use vespasian.Packages.{Packages}
use vespasian.Classify.Requests.{ObservedRequest, ClassifiedRequest, Verdict}
use vespasian.Classify.Running.{
  ApiClassifier, Kind, name_of, classifier_of, classify_detail, unclassified, with_verdict,
  best_match, run_classifiers,
}
use vespasian.Classify.Winners.{with_verdict-cases}
use vespasian.Classify.Dedup.{
  Entries, value, dedup_key, merge_entry, absorb, observe, dedup_loop, deduplicate,
}
use vespasian.Pipeline.Stage.{Options, classified_by}

-- A request that the stage keeps, for a threshold and a type of API.
pub record IsKept (threshold : ℕ) (api_type : Bytes) (c : ClassifiedRequest) : Type 0 where
  pub reaches : threshold ≤ c.confidence
  pub is_accepted : c.is_api ≡ true
  pub typed : c.api_type ≡ api_type

none_reach : (t n : ℕ) → 0 < t → leb t n ≡ true → n ≡ 0 → ⊥
none_reach t n h k e = ground (arith, h, k, e)

module _ (packages : Packages) (threshold : ℕ) where
  with_verdict-IsKept :
      (c : ApiClassifier) (v : Verdict) (req : ObservedRequest)
      → 0 < threshold
      → leb threshold (with_verdict c v (unclassified req)).confidence ≡ true
      → IsKept threshold c.name (with_verdict c v (unclassified req))
  with_verdict-IsKept c v req h k = elim (with_verdict-cases c v (unclassified req)) [
    | inl (e, w) ↦ absurd (none_reach threshold _ h k (ap (λ b. b.confidence) e))
    | inr (e, w, a, s) ↦ subst (IsKept threshold c.name) (sym e) (record {
      reaches = leb→le threshold v.score (subst (λ b. leb threshold b.confidence ≡ true) e k);
      is_accepted = refl;
      typed = refl;
    })
  ]

  run_classifiers-IsKept :
      (kind : Kind) (requests : List ObservedRequest)
      → 0 < threshold
      → All
          (IsKept threshold (name_of kind))
          (run_classifiers (classifier_of packages kind ∷ []) requests threshold)
  unfolding run_classifiers best_match
  run_classifiers-IsKept kind [] h = tt
  run_classifiers-IsKept kind (req ∷ requests) h =
      let c = classifier_of packages kind in
      let v = classify_detail packages kind req in
      let rest = run_classifiers-IsKept kind requests h in
      elim (Bool-cases (leb threshold (with_verdict c v (unclassified req)).confidence)) [
        | inl e ↦ rw e (with_verdict-IsKept c v req h e, rest)
        | inr e ↦ rw e rest
      ]

  merge-IsKept :
      (t : Bytes) (e r : ClassifiedRequest)
      → IsKept threshold t e
      → IsKept threshold t r
      → IsKept threshold t (merge_entry e r)
  unfolding merge_entry
  merge-IsKept t e r h k = record {
    reaches = if_both (λ n. threshold ≤ n) _ _ _ k.reaches h.reaches;
    is_accepted = h.is_accepted;
    typed = if_both (λ s. s ≡ t) _ _ _ k.typed h.typed;
  }

  absorb-IsKept :
      (t : Bytes) (e r : ClassifiedRequest)
      → IsKept threshold t e
      → IsKept threshold t r
      → IsKept threshold t (absorb packages (some e) r)
  unfolding absorb
  absorb-IsKept t e r h k = elim (Option-cases (packages.parse_url r.request.url)) [
    | inl p ↦ rw p h
    | inr (u, p) ↦ rw p (merge-IsKept t e r h k)
  ]

  absorb_new-IsKept :
      (t : Bytes) (r : ClassifiedRequest)
      → IsKept threshold t r
      → IsKept threshold t (absorb packages none r)
  unfolding absorb
  absorb_new-IsKept t r k = elim (Option-cases (packages.parse_url r.request.url)) [
    | inl p ↦ rw p k
    | inr (u, p) ↦
        rw p (record { reaches = k.reaches; is_accepted = k.is_accepted; typed = k.typed })
  ]

  abbrev AllKept : Bytes → Entries → Type 0
  AllKept t seen = All (λ x. IsKept threshold t (value x)) seen

  observe-AllKept :
      (t k : Bytes) (r : ClassifiedRequest) (seen : Entries)
      → IsKept threshold t r
      → AllKept t seen
      → AllKept t (observe packages k r seen)
  unfolding observe
  observe-AllKept t k r [] h hs = (absorb_new-IsKept t r h, tt)
  observe-AllKept t k r ((j, e) ∷ seen) h (he, hs) =
      if_both (AllKept t) (str_eq j k) _ _ (absorb-IsKept t e r he h, hs)
        (he, observe-AllKept t k r seen h hs)

  loop-AllKept :
      (t : Bytes) (rs : List ClassifiedRequest) (seen : Entries)
      → All (IsKept threshold t) rs
      → AllKept t seen
      → AllKept t (dedup_loop packages rs seen)
  unfolding dedup_loop
  loop-AllKept t [] seen h hs = hs
  loop-AllKept t (r ∷ rs) seen (h, k) hs =
      loop-AllKept t rs (observe packages (dedup_key packages r) r seen) k
        (observe-AllKept t (dedup_key packages r) r seen h hs)

  values-IsKept :
      (t : Bytes) (seen : Entries) → AllKept t seen → All (IsKept threshold t) (map value seen)
  values-IsKept t [] h = tt
  values-IsKept t (x ∷ seen) (h, hs) = (h, values-IsKept t seen hs)

  deduplicate-IsKept :
      (t : Bytes) (rs : List ClassifiedRequest)
      → All (IsKept threshold t) rs
      → All (IsKept threshold t) (deduplicate packages rs)
  unfolding deduplicate
  deduplicate-IsKept t rs h =
      values-IsKept t (dedup_loop packages rs []) (loop-AllKept t rs [] h tt)

pub classified_by-IsKept :
    (packages : Packages) (opts : Options) (kind : Kind) (requests : List ObservedRequest)
    → 0 < opts.confidence
    → opts.api_type ≡ name_of kind
    → All
        (IsKept opts.confidence opts.api_type)
        (classified_by packages opts requests (classifier_of packages kind ∷ []))
classified_by-IsKept packages opts kind requests h e =
    subst
      (λ t.
        All (IsKept opts.confidence t)
          (classified_by packages opts requests (classifier_of packages kind ∷ [])))
      (sym e)
      (if_both (All (IsKept opts.confidence (name_of kind))) opts.deduplicated _ _
        (deduplicate-IsKept packages opts.confidence (name_of kind) _
          (run_classifiers-IsKept packages opts.confidence kind requests h))
        (run_classifiers-IsKept packages opts.confidence kind requests h))
