-- ===== src/Classify/Winners.antt =====
-- What RunClassifiers of pkg/classify/classifier.go keeps of each request.
use vespasian.Prelude.{
  ℕ, ◌≤◌, ◌<◌, true, List, [], ◌∷◌, ◌++◌, ◌≡◌, ◌⊎◌, inl, inr, refl, ap, subst, arith, All, leb,
  leb→le, leb_false→lt, if◌then◌else◌, Bool-cases,
}
use vespasian.Classify.Requests.{ObservedRequest, ClassifiedRequest, Verdict}
use vespasian.Classify.Running.{
  ApiClassifier, verdict_on, unclassified, with_verdict, best_match, run_classifiers,
}

-- The score that a verdict counts with: none if the request was not accepted.
abbrev worth : Verdict → ℕ
worth v = if v.accepted then v.score else 0

abbrev worth_on : ObservedRequest → ApiClassifier → ℕ
worth_on req c = worth (verdict_on req c)

abbrev classified_as : ApiClassifier → Verdict → ClassifiedRequest → ClassifiedRequest
classified_as c v best = record {
  request = best.request;
  is_api = true;
  confidence = v.score;
  reason = v.why;
  api_type = c.name;
  multi_value_query_keys = best.multi_value_query_keys;
}

-- The first classifier of those with the greatest worth, which is more than the given one.
abbrev WonBy : List ApiClassifier → ObservedRequest → ClassifiedRequest → ClassifiedRequest → Type 0
WonBy classifiers req best r =
    (earlier : List ApiClassifier) × (c : ApiClassifier) × (later : List ApiClassifier)
    × (classifiers ≡ earlier ++ c ∷ later)
    × All (λ d. worth_on req d < worth_on req c) earlier
    × All (λ d. worth_on req d ≤ worth_on req c) later
    × (best.confidence < worth_on req c)
    × ((verdict_on req c).accepted ≡ true)
    × (r ≡ classified_as c (verdict_on req c) best)

abbrev IsBest :
    List ApiClassifier → ObservedRequest → ClassifiedRequest → ClassifiedRequest → Type 0
IsBest classifiers req best r =
    ((r ≡ best) × All (λ d. worth_on req d ≤ best.confidence) classifiers)
    ⊎ WonBy classifiers req best r

pub with_verdict-cases :
    (c : ApiClassifier) (v : Verdict) (best : ClassifiedRequest)
    → ((with_verdict c v best ≡ best) × (worth v ≤ best.confidence))
      ⊎ ((with_verdict c v best ≡ classified_as c v best)
          × (best.confidence < worth v)
          × (v.accepted ≡ true)
          × (v.score ≡ worth v))
with_verdict-cases c v best = ground arith

after_miss :
    (c : ApiClassifier) (cs : List ApiClassifier) (req : ObservedRequest)
    (best r : ClassifiedRequest)
    → worth_on req c ≤ best.confidence
    → IsBest cs req best r
    → IsBest (c ∷ cs) req best r
after_miss c cs req best r h (inl (e, k)) = inl (e, (h, k))
after_miss c cs req best r h (inr (pre, d, post, e, kp, kq, m, a, w)) =
    inr (c ∷ pre, d, post, ap (λ x. c ∷ x) e, (ground (arith, h, m), kp), kq, m, a, w)

after_hit :
    (c : ApiClassifier) (cs : List ApiClassifier) (req : ObservedRequest)
    (best r : ClassifiedRequest)
    → best.confidence < worth_on req c
    → (verdict_on req c).accepted ≡ true
    → (verdict_on req c).score ≡ worth_on req c
    → IsBest cs req (classified_as c (verdict_on req c) best) r
    → IsBest (c ∷ cs) req best r
after_hit c cs req best r h a s (inl (e, k)) =
    inr ([], c, cs, refl, tt, subst (λ n. All (λ d. worth_on req d ≤ n) cs) s k, h, a, e)
after_hit c cs req best r h a s (inr (pre, d, post, e, kp, kq, m, b, w)) = inr (
  c ∷ pre,
  d,
  post,
  ap (λ x. c ∷ x) e,
  (ground (arith, s, m), kp),
  kq,
  ground (arith, h, s, m),
  b,
  w,
)

best_match-IsBest :
    (cs : List ApiClassifier) (req : ObservedRequest) (best : ClassifiedRequest)
    → IsBest cs req best (best_match cs req best)
unfolding best_match
best_match-IsBest [] req best = inl (refl, tt)
best_match-IsBest (c ∷ cs) req best = elim (with_verdict-cases c (verdict_on req c) best) [
  | inl (e, h) ↦
      rw e (after_miss c cs req best (best_match cs req best) h (best_match-IsBest cs req best))
  | inr (e, h, a, s) ↦ rw e (
      after_hit c cs req best _ h a s
        (best_match-IsBest cs req (classified_as c (verdict_on req c) best)))
]

-- The results against the requests: a request is kept if what is best of it reaches the threshold.
pub data Results (classifiers : List ApiClassifier) (threshold : ℕ)
    : List ObservedRequest → List ClassifiedRequest → Type 0 where
  ended : Results classifiers threshold [] []
  kept :
      {req : ObservedRequest} {requests : List ObservedRequest} {r : ClassifiedRequest}
      {results : List ClassifiedRequest}
      → IsBest classifiers req (unclassified req) r
      → threshold ≤ r.confidence
      → Results classifiers threshold requests results
      → Results classifiers threshold (req ∷ requests) (r ∷ results)
  dropped :
      {req : ObservedRequest} {requests : List ObservedRequest} {r : ClassifiedRequest}
      {results : List ClassifiedRequest}
      → IsBest classifiers req (unclassified req) r
      → r.confidence < threshold
      → Results classifiers threshold requests results
      → Results classifiers threshold (req ∷ requests) results

-- RunClassifiers keeps, in their order, the requests whose best match reaches the threshold: it
-- has the verdict and the name of the first of the classifiers that accept the request with the
-- greatest confidence, or stays unclassified with confidence 0 if none accepts it with more than
-- 0.
pub run_classifiers-Results :
    (classifiers : List ApiClassifier) (requests : List ObservedRequest) (threshold : ℕ)
    → Results classifiers threshold requests (run_classifiers classifiers requests threshold)
unfolding run_classifiers
run_classifiers-Results classifiers [] threshold = Results.ended
run_classifiers-Results classifiers (req ∷ requests) threshold =
    let best = best_match classifiers req (unclassified req) in
    let rest = run_classifiers-Results classifiers requests threshold in
    let best_lem = best_match-IsBest classifiers req (unclassified req) in
    elim (Bool-cases (leb threshold best.confidence)) [
      | inl h ↦ rw h (Results.kept best_lem (leb→le _ _ h) rest)
      | inr h ↦ rw h (Results.dropped best_lem (leb_false→lt _ _ h) rest)
    ]
