-- ===== src/Classify/Dedup/OrderFree.antt =====
-- What Deduplicate of pkg/classify/classifier.go says of its keys in whatever order it reads.
use vespasian.Prelude.{
  Bool, true, false, List, [], ◌∷◌, map, Option, none, some, ◌≡◌, inl, inr, refl, sym, ap, subst,
  ◌∙◌, All, Bytes, str_eq, str_eq_iff, Bool-cases, if◌then◌else◌,
}
use mathlib.Core.List.{Permᴰ}
use mathlib.Core.List.Permᴰ
use vespasian.Packages.{Packages, ParsedUrl}
use vespasian.Classify.Requests.{ClassifiedRequest}
use vespasian.Classify.Dedup.{merge_entry, entry_copy, absorb, dedup_key, deduplicate}
use vespasian.Classify.Dedup.Groups.{collect, deduplicate-groups}
use vespasian.Classify.Merging.Distinct.{firsts}
use vespasian.Classify.Merging.Permuted.{firsts-Permᴰ}
use vespasian.Classify.Dedup.Outcomes.{
  Outcome, outcome, observed, combine, combine_comm, combine_assoc, outcome-merge, outcome-copy,
}

abbrev joined : Outcome → Option Outcome → Option Outcome
joined o none = some o
joined o (some p) = some (combine o p)

joined_assoc : (o p : Outcome) (t : Option Outcome) → joined (combine o p) t ≡ joined o (joined p t)
joined_assoc o p none = refl
joined_assoc o p (some q) = ap some (combine_assoc o p q)

joined_comm : (o p : Outcome) (t : Option Outcome) → joined o (joined p t) ≡ joined p (joined o t)
joined_comm o p t =
    sym (joined_assoc o p t) ∙ (ap (λ x. joined x t) (combine_comm o p) ∙ joined_assoc p o t)

abbrev joined_if : Bool → Outcome → Option Outcome → Option Outcome
joined_if b o t = if b then joined o t else t

joined_if_comm :
    (b c : Bool) (o p : Outcome) (t : Option Outcome)
    → joined_if b o (joined_if c p t) ≡ joined_if c p (joined_if b o t)
joined_if_comm true true o p t = joined_comm o p t
joined_if_comm true false o p t = refl
joined_if_comm false c o p t = refl

-- An entry with its key; a missing one has a key and an outcome all the same.
abbrev pub Labelled : Type 0
Labelled = Bytes × Option Outcome

abbrev label : Bytes → Option Outcome → Labelled
label k none = ([], none)
label k (some o) = (k, some o)

module _ (packages : Packages) (s : Bytes) where
  abbrev pub labelled : ClassifiedRequest → Labelled
  labelled e = (dedup_key packages e, some (outcome s e))

  abbrev labelled_of : Option ClassifiedRequest → Labelled
  labelled_of none = ([], none)
  labelled_of (some e) = labelled e

  -- The outcomes of the observations of a key, combined from the right.
  abbrev total : Bytes → List ClassifiedRequest → Option Outcome
  total k [] = none
  total k (r ∷ rs) = joined_if (str_eq k (dedup_key packages r)) (observed s r) (total k rs)

  total-Permᴰ : {rs qs : List ClassifiedRequest} (k : Bytes) → Permᴰ rs qs → total k rs ≡ total k qs
  total-Permᴰ k Permᴰ.nil = refl
  total-Permᴰ k (Permᴰ.cons e p) = rw (e, total-Permᴰ k p) refl
  total-Permᴰ k (Permᴰ.swap {a' = c} {b' = b} {l = l} e d) =
      rw (e, d)
        (joined_if_comm (str_eq k (dedup_key packages b)) (str_eq k (dedup_key packages c))
          (observed s b) (observed s c) (total k l))
  total-Permᴰ k (Permᴰ.trans p q) = total-Permᴰ k p ∙ total-Permᴰ k q

  abbrev pub Parses : ClassifiedRequest → Type 0
  Parses r = (u : ParsedUrl) × (packages.parse_url r.request.url ≡ some u)

  dedup_key-merge :
      (e r : ClassifiedRequest) → dedup_key packages (merge_entry e r) ≡ dedup_key packages e
  unfolding dedup_key merge_entry
  dedup_key-merge e r = refl

  dedup_key-copy :
      (r : ClassifiedRequest) → dedup_key packages (entry_copy r) ≡ dedup_key packages r
  unfolding dedup_key
  dedup_key-copy r = refl

  labelled_collect :
      (k : Bytes) (e : ClassifiedRequest) (rs : List ClassifiedRequest)
      → dedup_key packages e ≡ k
      → All Parses rs
      → labelled_of (collect packages k rs (some e)) ≡ label k (joined (outcome s e) (total k rs))
  unfolding collect absorb
  labelled_collect k e [] d h = rw d refl
  labelled_collect k e (r ∷ rs) d ((u, p), h) =
      elim (Bool-cases (str_eq k (dedup_key packages r))) [
        | inl same ↦
            rw (same, p)
              (labelled_collect k (merge_entry e r) rs (dedup_key-merge e r ∙ d) h
                ∙ ap (λ t. label k t)
                    (ap (λ o. joined o (total k rs)) (outcome-merge s e r) ∙ joined_assoc _ _ _))
        | inr other ↦ rw other (labelled_collect k e rs d h)
      ]

  labelled_total :
      (k : Bytes) (rs : List ClassifiedRequest)
      → All Parses rs
      → labelled_of (collect packages k rs none) ≡ label k (total k rs)
  unfolding collect absorb
  labelled_total k [] h = refl
  labelled_total k (r ∷ rs) ((u, p), h) = elim (Bool-cases (str_eq k (dedup_key packages r))) [
    | inl same ↦
        rw (same, p)
          (labelled_collect k (entry_copy r) rs
              (dedup_key-copy r ∙ sym ((str_eq_iff k (dedup_key packages r)).0 same)) h
            ∙ ap (λ o. label k (joined o (total k rs))) (outcome-copy s r))
    | inr other ↦ rw other (labelled_total k rs h)
  ]

module _ (packages : Packages) (s : Bytes) where
  abbrev by_key : List ClassifiedRequest → Bytes → Labelled
  by_key reqs k = labelled_of packages s (collect packages k reqs none)

  All-Permᴰ :
      {rs qs : List ClassifiedRequest}
      → Permᴰ rs qs
      → All (Parses packages s) rs
      → All (Parses packages s) qs
  All-Permᴰ Permᴰ.nil h = h
  All-Permᴰ (Permᴰ.cons e p) (h, hs) = (subst (Parses packages s) e h, All-Permᴰ p hs)
  All-Permᴰ (Permᴰ.swap e d) (h, (k, hs)) =
      (subst (Parses packages s) d k, (subst (Parses packages s) e h, hs))
  All-Permᴰ (Permᴰ.trans p q) h = All-Permᴰ q (All-Permᴰ p h)

  by_key_same :
      {rs qs : List ClassifiedRequest}
      → Permᴰ rs qs
      → All (Parses packages s) rs
      → (ks : List Bytes) → map (by_key rs) ks ≡ map (by_key qs) ks
  by_key_same p h [] = refl
  by_key_same {rs} {qs} p h (k ∷ ks) =
      rw
        (
          labelled_total packages s k rs h,
          labelled_total packages s k qs (All-Permᴰ p h),
          total-Permᴰ packages s k p,
        )
        (ap (λ xs. label k (total packages s k qs) ∷ xs) (by_key_same p h ks))

  labelled-some :
      (es : List ClassifiedRequest)
      → map (labelled_of packages s) (map (λ e. some e) es) ≡ map (labelled packages s) es
  labelled-some [] = refl
  labelled-some (e ∷ es) = ap (λ xs. labelled packages s e ∷ xs) (labelled-some es)

  map-by_key :
      (reqs : List ClassifiedRequest) (ks : List Bytes)
      → map (labelled_of packages s) (map (λ k. collect packages k reqs none) ks)
        ≡ map (by_key reqs) ks
  map-by_key reqs [] = refl
  map-by_key reqs (k ∷ ks) = ap (λ xs. by_key reqs k ∷ xs) (map-by_key reqs ks)

  labelled-deduplicate :
      (reqs : List ClassifiedRequest)
      → map (labelled packages s) (deduplicate packages reqs)
        ≡ map (by_key reqs) (firsts [] (map (dedup_key packages) reqs))
  labelled-deduplicate reqs =
      sym (labelled-some (deduplicate packages reqs))
      ∙ (ap (λ xs. map (labelled_of packages s) xs) (deduplicate-groups packages reqs)
          ∙ map-by_key reqs (firsts [] (map (dedup_key packages) reqs)))

  -- If every URL parses, then in whatever order Deduplicate reads the requests it gives entries
  -- with the same keys, and for each key the same confidence, type of API and reason, a response
  -- with the same status code, content type and body, and the same answer to whether a query key
  -- is multi-value.
  pub deduplicate-Permᴰ :
      (rs qs : List ClassifiedRequest)
      → Permᴰ rs qs
      → All (Parses packages s) rs
      → Permᴰ
          (map (labelled packages s) (deduplicate packages rs))
          (map (labelled packages s) (deduplicate packages qs))
  deduplicate-Permᴰ rs qs p h =
      rw (labelled-deduplicate rs, labelled-deduplicate qs, by_key_same p h _)
        (Permᴰ.map (by_key qs) (firsts-Permᴰ [] (Permᴰ.map (dedup_key packages) p)))
