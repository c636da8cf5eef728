-- ===== src/Classify/Dedup/Outcomes.antt =====
-- What an entry of Deduplicate of pkg/classify/classifier.go says, and how two of them combine.
use vespasian.Prelude.{
  ℕ, Bool, true, false, ◌||◌, none, ◌≡◌, refl, ◌∙◌, arith, Bytes, ltb, str_lt, if◌then◌else◌,
}
use vespasian.Prelude.Order.{
  StrictOrder, str_order, lex, lex_order, lesser, lesser_comm, lesser_assoc,
}
use vespasian.Classify.Requests.{ClassifiedRequest}
use vespasian.Classify.Responses.OrderFree.{Key, key, key_lt, key_order, key-preferred, str_eq_lt}
use vespasian.Classify.Dedup.{is_better_entry, entry_copy, merge_entry}
use vespasian.Classify.Merging.Keys.{get_from, any_true, merge_multi_value_keys_lem}

-- The verdict of an entry, the greatest first.
abbrev pub Finding : Type 0
Finding = ℕ × (Bytes × Bytes)

abbrev pub finding : ClassifiedRequest → Finding
finding c = (c.confidence, (c.api_type, c.reason))

abbrev gtb : ℕ → ℕ → Bool
gtb a b = ltb b a

abbrev str_gt : Bytes → Bytes → Bool
str_gt a b = str_lt b a

abbrev finding_gt : Finding → Finding → Bool
finding_gt = lex gtb (lex str_gt str_gt)

gtb_order : StrictOrder ℕ gtb
gtb_order = record {
  asymm = λ a b h. ground arith;
  trans = λ a b c h k. ground arith;
  connected = λ a b h k. ground arith;
}

str_gt_order : StrictOrder Bytes str_gt
str_gt_order = record {
  asymm = λ a b h. str_order.asymm b a h;
  trans = λ a b c h k. str_order.trans c b a k h;
  connected = λ a b h k. str_order.connected a b k h;
}

finding_order : StrictOrder Finding finding_gt
finding_order =
    lex_order gtb (lex str_gt str_gt) gtb_order (lex_order str_gt str_gt str_gt_order str_gt_order)

better-gt : (a b : ClassifiedRequest) → is_better_entry a b ≡ finding_gt (finding a) (finding b)
unfolding is_better_entry
better-gt a b =
    ground (arith, str_eq_lt a.api_type b.api_type, str_order.asymm a.api_type b.api_type)

-- What an entry says: its verdict, its response, and whether a query key has several values.
abbrev pub Outcome : Type 0
Outcome = Finding × (Key × Bool)

abbrev pub outcome : Bytes → ClassifiedRequest → Outcome
outcome s e = (finding e, (key e.request.response, get_from s e.multi_value_query_keys))

abbrev pub observed : Bytes → ClassifiedRequest → Outcome
observed s r = (finding r, (key r.request.response, any_true s r.multi_value_query_keys))

abbrev pub combine : Outcome → Outcome → Outcome
combine (f, (k, b)) (g, (j, c)) = (lesser finding_gt f g, (lesser key_lt k j, b || c))

or_comm : (b c : Bool) → (b || c) ≡ (c || b)
or_comm b c = ground arith

or_assoc : (b c d : Bool) → ((b || c) || d) ≡ (b || (c || d))
or_assoc b c d = ground arith

pub combine_comm : (o p : Outcome) → combine o p ≡ combine p o
combine_comm (f, (k, b)) (g, (j, c)) =
    rw (lesser_comm finding_gt finding_order f g, lesser_comm key_lt key_order k j, or_comm b c)
      refl

pub combine_assoc : (o p q : Outcome) → combine (combine o p) q ≡ combine o (combine p q)
combine_assoc (f, (k, b)) (g, (j, c)) (h, (i, d)) =
    rw
      (
        lesser_assoc finding_gt finding_order f g h,
        lesser_assoc key_lt key_order k j i,
        or_assoc b c d,
      )
      refl

finding_if :
    (b : Bool) (e r : ClassifiedRequest)
    → (
      (if b then r.confidence else e.confidence),
      ((if b then r.api_type else e.api_type), (if b then r.reason else e.reason)),
    )
      ≡ (if b then finding r else finding e)
finding_if true e r = refl
finding_if false e r = refl

finding-merge :
    (e r : ClassifiedRequest)
    → finding (merge_entry e r) ≡ lesser finding_gt (finding e) (finding r)
unfolding merge_entry
finding-merge e r = finding_if (is_better_entry r e) e r ∙ rw (better-gt r e) refl

pub outcome-merge :
    (s : Bytes) (e r : ClassifiedRequest)
    → outcome s (merge_entry e r) ≡ combine (outcome s e) (observed s r)
unfolding merge_entry
outcome-merge s e r =
    rw
      (
        finding-merge e r,
        key-preferred e.request.response r.request.response,
        merge_multi_value_keys_lem s e.multi_value_query_keys r.multi_value_query_keys,
      )
      refl

pub outcome-copy : (s : Bytes) (r : ClassifiedRequest) → outcome s (entry_copy r) ≡ observed s r
outcome-copy s r = rw (merge_multi_value_keys_lem s none r.multi_value_query_keys) refl
