-- ===== src/Classify/Dedup/Groups.antt =====
-- Deduplicate of pkg/classify/classifier.go against the grouping of the requests by their keys.
use vespasian.Prelude.{
  true, false, List, [], ◌∷◌, ◌++◌, map, Option, none, some, ◌≡◌, inl, inr, refl, sym, ap, subst,
  ◌∙◌, arith, All, Bytes, str_eq, str_eq_iff, str_eq_refl, Bool-cases, append_assoc, append-nil,
  if◌then◌else◌,
}
use vespasian.Prelude.Parts.{Distinct, contains_last, Distinct-append, contains}
use vespasian.Packages.{Packages}
use vespasian.Classify.Requests.{ClassifiedRequest}
use vespasian.Classify.Dedup.{dedup_key, absorb, Entries, observe, dedup_loop, value, deduplicate}
use vespasian.Classify.Merging.Distinct.{firsts}
use vespasian.Classify.Merging.Permuted.{firsts_same}

-- What the requests of a key come to, on their own.
unfoldable pub collect :
    Packages → Bytes → List ClassifiedRequest → Option ClassifiedRequest → Option ClassifiedRequest
collect packages k [] entry = entry
collect packages k (req ∷ reqs) entry =
    collect packages k reqs
      (if str_eq k (dedup_key packages req) then some (absorb packages entry req) else entry)

abbrev keys : Entries → List Bytes
keys [] = []
keys ((k, e) ∷ seen) = k ∷ keys seen

contains_ne :
    (ks : List Bytes) (j k : Bytes)
    → contains ks k ≡ true
    → contains ks j ≡ false
    → str_eq j k ≡ false
contains_ne ks j k h n = elim (Bool-cases (str_eq j k)) [
  | inl e ↦ cc (sym (subst (λ i. contains ks i ≡ false) ((str_eq_iff j k).0 e) n) ∙ h)
  | inr e ↦ e
]

-- Values that were seen are not among the first occurrences.
firsts-ne :
    (ks vs : List Bytes) (k : Bytes)
    → contains ks k ≡ true
    → All (λ j. str_eq j k ≡ false) (firsts ks vs)
unfolding contains
firsts-ne ks [] k h = tt
firsts-ne ks (v ∷ vs) k h = elim (Bool-cases (contains ks v)) [
  | inl e ↦ rw e (firsts-ne ks vs k h)
  | inr e ↦ rw e (contains_ne ks v k h e, firsts-ne (v ∷ ks) vs k (ground (arith, h)))
]

module _ (packages : Packages) where
  abbrev collected : List ClassifiedRequest → Bytes × ClassifiedRequest → Option ClassifiedRequest
  collected reqs (k, e) = collect packages k reqs (some e)

  map-collected_miss :
      (req : ClassifiedRequest) (reqs : List ClassifiedRequest) (seen : Entries)
      → contains (keys seen) (dedup_key packages req) ≡ false
      → map (collected (req ∷ reqs)) seen ≡ map (collected reqs) seen
  unfolding contains collect
  map-collected_miss req reqs [] h = refl
  map-collected_miss req reqs ((k, e) ∷ seen) h =
      ground (arith, h, map-collected_miss req reqs seen)

  map-collect_miss :
      (req : ClassifiedRequest) (reqs : List ClassifiedRequest) (ks : List Bytes)
      → All (λ k. str_eq k (dedup_key packages req) ≡ false) ks
      → map (λ k. collect packages k (req ∷ reqs) none) ks
        ≡ map (λ k. collect packages k reqs none) ks
  unfolding collect
  map-collect_miss req reqs [] h = refl
  map-collect_miss req reqs (k ∷ ks) (h, hs) = rw (h, map-collect_miss req reqs ks hs) refl

  observe_new :
      (req : ClassifiedRequest) (k : Bytes) (seen : Entries)
      → contains (keys seen) k ≡ false
      → observe packages k req seen ≡ seen ++ (k, absorb packages none req) ∷ []
  unfolding contains observe
  observe_new req k [] h = refl
  observe_new req k ((j, e) ∷ seen) h = ground (arith, h, observe_new req k seen)

  keys-observe :
      (req : ClassifiedRequest) (k : Bytes) (seen : Entries)
      → contains (keys seen) k ≡ true
      → keys (observe packages k req seen) ≡ keys seen
  unfolding contains observe
  keys-observe req k [] h = cc
  keys-observe req k ((j, e) ∷ seen) h = ground (arith, h, keys-observe req k seen)

  map-collected_hit :
      (req : ClassifiedRequest) (reqs : List ClassifiedRequest) (seen : Entries)
      → Distinct (keys seen)
      → contains (keys seen) (dedup_key packages req) ≡ true
      → map (collected reqs) (observe packages (dedup_key packages req) req seen)
        ≡ map (collected (req ∷ reqs)) seen
  unfolding contains observe collect
  map-collected_hit req reqs [] d h = cc
  map-collected_hit req reqs ((k, e) ∷ seen) (n, d) h =
      elim (Bool-cases (str_eq k (dedup_key packages req))) [
        | inl same ↦ rw same (
            ap (λ xs. collect packages k reqs (some (absorb packages (some e) req)) ∷ xs)
              (sym (
                map-collected_miss req reqs seen (
                  subst (λ j. contains (keys seen) j ≡ false)
                    ((str_eq_iff k (dedup_key packages req)).0 same) n))))
        | inr other ↦ rw other (
            ap (λ xs. collect packages k reqs (some e) ∷ xs)
              (map-collected_hit req reqs seen d (ground (arith, h, other))))
      ]

  keys-append :
      (seen : Entries) (k : Bytes) (e : ClassifiedRequest)
      → keys (seen ++ (k, e) ∷ []) ≡ keys seen ++ k ∷ []
  keys-append [] k e = refl
  keys-append ((j, d) ∷ seen) k e = ap (λ ks. j ∷ ks) (keys-append seen k e)

  map-append_last :
      (reqs : List ClassifiedRequest) (seen : Entries) (k : Bytes) (e : ClassifiedRequest)
      → map (collected reqs) (seen ++ (k, e) ∷ [])
        ≡ map (collected reqs) seen ++ collect packages k reqs (some e) ∷ []
  map-append_last reqs [] k e = refl
  map-append_last reqs ((j, d) ∷ seen) k e =
      ap (λ xs. collected reqs (j, d) ∷ xs) (map-append_last reqs seen k e)

  map-collected_end :
      (seen : Entries) → map (collected []) seen ≡ map (λ e. some e) (map value seen)
  unfolding collect
  map-collected_end [] = refl
  map-collected_end ((k, e) ∷ seen) = ap (λ xs. some e ∷ xs) (map-collected_end seen)

  abbrev groups : List ClassifiedRequest → List Bytes → List (Option ClassifiedRequest)
  groups reqs ks =
      map (λ k. collect packages k reqs none) (firsts ks (map (dedup_key packages) reqs))

  groups_hit :
      (req : ClassifiedRequest) (reqs : List ClassifiedRequest) (ks : List Bytes)
      → contains ks (dedup_key packages req) ≡ true
      → groups (req ∷ reqs) ks ≡ groups reqs ks
  groups_hit req reqs ks h = rw h (
      map-collect_miss req reqs _
        (firsts-ne ks (map (dedup_key packages) reqs) (dedup_key packages req) h))

  groups_miss :
      (req : ClassifiedRequest) (reqs : List ClassifiedRequest) (ks : List Bytes)
      → contains ks (dedup_key packages req) ≡ false
      → groups (req ∷ reqs) ks
        ≡ collect packages (dedup_key packages req) reqs (some (absorb packages none req))
          ∷ groups reqs (dedup_key packages req ∷ ks)
  unfolding collect contains
  groups_miss req reqs ks h =
      let k = dedup_key packages req in
      rw (h, str_eq_refl k)
        (ap (λ xs. collect packages k reqs (some (absorb packages none req)) ∷ xs)
          (map-collect_miss req reqs (firsts (k ∷ ks) (map (dedup_key packages) reqs))
            (firsts-ne (k ∷ ks) (map (dedup_key packages) reqs) k (rw (str_eq_refl k) refl))))

  groups_last :
      (reqs : List ClassifiedRequest) (ks : List Bytes) (k : Bytes)
      → groups reqs (ks ++ k ∷ []) ≡ groups reqs (k ∷ ks)
  groups_last reqs ks k =
      ap (λ js. map (λ j. collect packages j reqs none) js)
        (firsts_same (ks ++ k ∷ []) (k ∷ ks) (map (dedup_key packages) reqs) (contains_last ks k))

  loop_groups :
      (reqs : List ClassifiedRequest) (seen : Entries)
      → Distinct (keys seen)
      → map (λ e. some e) (map value (dedup_loop packages reqs seen))
        ≡ map (collected reqs) seen ++ groups reqs (keys seen)
  unfolding dedup_loop
  loop_groups [] seen d = sym (map-collected_end seen) ∙ sym (append-nil _)
  loop_groups (req ∷ reqs) seen d =
      elim (Bool-cases (contains (keys seen) (dedup_key packages req))) [
        | inl old ↦
            let k = dedup_key packages req in
            let same = keys-observe req k seen old in
            loop_groups reqs (observe packages k req seen) (rw same d)
            ∙ rw (map-collected_hit req reqs seen d old, same, groups_hit req reqs (keys seen) old)
                refl
        | inr new ↦
            let k = dedup_key packages req in
            let e = absorb packages none req in
            let last = keys-append seen k e in
            rw (observe_new req k seen new, map-collected_miss req reqs seen new)
              (loop_groups reqs (seen ++ (k, e) ∷ [])
                  (rw last (Distinct-append (keys seen) k d new))
                ∙ rw
                    (
                      map-append_last reqs seen k e,
                      last,
                      groups_miss req reqs (keys seen) new,
                      groups_last reqs (keys seen) k,
                    )
                    (append_assoc (map (collected reqs) seen) _ _))
      ]

-- Deduplicate gives one entry for each key, in the order in which the keys are first observed, and
-- the entry is what the observations with that key come to on their own, in their order.
pub deduplicate-groups :
    (packages : Packages) (classified : List ClassifiedRequest)
    → map (λ e. some e) (deduplicate packages classified)
      ≡ map
          (λ k. collect packages k classified none)
          (firsts [] (map (dedup_key packages) classified))
unfolding deduplicate
deduplicate-groups packages classified = loop_groups packages classified [] tt
