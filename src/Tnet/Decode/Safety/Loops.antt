-- ===== src/Tnet/Decode/Safety/Loops.antt =====
-- The loops of the decoder over the elements of a list and the pairs of a map.
use vespasian.Prelude.{
  ℕ, zero, suc, ◌+◌, ◌≤◌, ◌<◌, List, [], ◌∷◌, ◌++◌, ◌≡◌, refl, ap, arith, Bytes, length, All,
  All-append, str_eq, leb, ◌==◌, length-append, Bool-cases, leb_false→lt, inl, inr,
}
use vespasian.Tnet.Value.{Value, null, bytes, str, int, float, bool, list, dict}
use vespasian.Tnet.Reader.{
  list_element, dict_key, dict_value, Decoded, wrap, max_tnetstring_element,
  max_tnetstring_elements,
}
use vespasian.Tnet.Reader.Returns.{Returns, Returns-bind, Returns-wrap, Returns-if}
use vespasian.Tnet.Decode.{
  items_of, entries_of, put, coerce_dict_key, list_loop, dict_pair, dict_loop,
}
use vespasian.Tnet.Decode.Limits.{Fits, FitsItems, FitsEntries, count_items, count_entries}

module _ {F : Type 0} where
  room_pos : (v : Value F) (room : ℕ) → Fits v room → 1 ≤ room
  room_pos null room h = h
  room_pos (bytes b) room h = h.0
  room_pos (str s) room h = h.0
  room_pos (int z) room h = h.0
  room_pos (float x) room h = h
  room_pos (bool b) room h = h
  room_pos (list vs) room h = h.0
  room_pos (dict m) room h = h.0

  -- What the loops collect.
  abbrev pub FitsPair : ℕ → Bytes × Value F → Type 0
  FitsPair room p = (1 ≤ room) × (length p.0 ≤ max_tnetstring_element) × Fits p.1 room

  pub items_of-FitsItems :
      (vs : List (Value F)) (room : ℕ) → All (λ v. Fits v room) vs → FitsItems (items_of vs) room
  items_of-FitsItems [] room h = tt
  items_of-FitsItems (v ∷ vs) room (hv, h) = (hv, items_of-FitsItems vs room h)

  pub count_items-items_of : (vs : List (Value F)) → count_items (items_of vs) ≡ length vs
  count_items-items_of [] = refl
  count_items-items_of (v ∷ vs) = ap suc (count_items-items_of vs)

  pub entries_of-FitsEntries :
      (m : List (Bytes × Value F)) (room : ℕ)
      → All (FitsPair room) m
      → FitsEntries (entries_of m) room
  entries_of-FitsEntries [] room h = tt
  entries_of-FitsEntries ((k, v) ∷ m) room ((pos, size, hv), h) =
      (pos, size, hv, entries_of-FitsEntries m room h)

  pub count_entries-entries_of :
      (m : List (Bytes × Value F)) → count_entries (entries_of m) ≡ length m
  count_entries-entries_of [] = refl
  count_entries-entries_of ((k, v) ∷ m) = ap suc (count_entries-entries_of m)

  put-All :
      (P : Bytes × Value F → Type 0) (k : Bytes) (v : Value F) (m : List (Bytes × Value F))
      → All P m
      → P (k, v)
      → ((j : Bytes) (w : Value F) → P (j, w) → P (j, v))
      → All P (put k v m)
  unfolding put
  put-All P k v [] h p f = (p, tt)
  put-All P k v ((j, w) ∷ m) (q, h) p f = elim (Bool-cases (str_eq j k)) [
    | inl same ↦ rw same (f j w q, h)
    | inr other ↦ rw other (q, put-All P k v m h p f)
  ]

  length-put-le :
      (k : Bytes) (v : Value F) (m : List (Bytes × Value F)) → length (put k v m) ≤ suc (length m)
  unfolding put
  length-put-le k v [] = omega arith
  length-put-le k v ((j, w) ∷ m) = ground (arith, length-put-le k v m)

  -- A decoder that gives values for `room` levels, and takes a byte at least.
  abbrev pub Reads : ℕ → Bytes → Value F × Bytes → Type 0
  Reads room r p = Fits p.0 room × (length p.1 < length r)

  module _ (decode : Bytes → Decoded (Value F × Bytes)) (room : ℕ)
      (good : (r : Bytes) → Returns (Reads room r) (decode r)) where
    pub list_loop_lem :
        (fuel : ℕ) (result : List (Value F)) (r : Bytes)
        → length r ≤ fuel
        → All (λ v. Fits v room) result
        → length result ≤ max_tnetstring_elements
        → Returns
            (λ vs. All (λ v. Fits v room) vs × (length vs ≤ max_tnetstring_elements))
            (list_loop decode fuel result r)
    unfolding list_loop
    list_loop_lem zero result [] k h n = (h, n)
    list_loop_lem (suc fuel) result [] k h n = (h, n)
    list_loop_lem zero result (c ∷ r) k h n = absurd (omega arith)
    list_loop_lem (suc fuel) result (c ∷ r) k h n =
        elim (Bool-cases (leb max_tnetstring_elements (length result))) [
          | inl full ↦ rw full tt
          | inr more ↦ rw more (
              Returns-bind (Reads room (c ∷ r)) _ (wrap list_element (decode (c ∷ r))) _
                (Returns-wrap (Reads room (c ∷ r)) list_element (decode (c ∷ r)) (good (c ∷ r)))
                (λ p read.
                  list_loop_lem fuel (result ++ p.0 ∷ []) p.1 (omega arith)
                    (All-append (λ v. Fits v room) result (p.0 ∷ []) h (read.0, tt))
                    (omega (arith, length-append result (p.0 ∷ []), leb_false→lt _ _ more))))
        ]

    coerce_dict_key_lem :
        (v : Value F)
        → Fits v room
        → Returns (λ k. length k ≤ max_tnetstring_element) (coerce_dict_key v)
    unfolding coerce_dict_key
    coerce_dict_key_lem (str s) h = h.1
    coerce_dict_key_lem (bytes b) h = h.1
    coerce_dict_key_lem v h = tt

    dict_pair_lem :
        (r : Bytes)
        → Returns (λ t. FitsPair room (t.0, t.1) × (length t.2 < length r)) (dict_pair decode r)
    unfolding dict_pair
    dict_pair_lem r =
        Returns-bind (Reads room r) _ (wrap dict_key (decode r)) _
          (Returns-wrap (Reads room r) dict_key (decode r) (good r))
          (λ p read.
            Returns-bind (λ k. length k ≤ max_tnetstring_element) _ (coerce_dict_key p.0) _
              (coerce_dict_key_lem p.0 read.0)
              (λ k size. Returns-if _ (length p.1 == 0) _ _ tt (
                Returns-bind (Reads room p.1) _ (wrap (dict_value k) (decode p.1)) _
                  (Returns-wrap (Reads room p.1) (dict_value k) (decode p.1) (good p.1))
                  (λ q read'. ((room_pos q.0 room read'.0, size, read'.0), omega arith)))))

    pub dict_loop_lem :
        (fuel pairs : ℕ) (result : List (Bytes × Value F)) (r : Bytes)
        → length r ≤ fuel
        → All (FitsPair room) result
        → length result ≤ pairs
        → pairs ≤ max_tnetstring_elements
        → Returns
            (λ m. All (FitsPair room) m × (length m ≤ max_tnetstring_elements))
            (dict_loop decode fuel pairs result r)
    unfolding dict_loop
    dict_loop_lem zero pairs result [] k h l n = (h, omega arith)
    dict_loop_lem (suc fuel) pairs result [] k h l n = (h, omega arith)
    dict_loop_lem zero pairs result (c ∷ r) k h l n = absurd (omega arith)
    dict_loop_lem (suc fuel) pairs result (c ∷ r) k h l n =
        elim (Bool-cases (leb max_tnetstring_elements pairs)) [
          | inl full ↦ rw full tt
          | inr more ↦ rw more (
              Returns-bind (λ t. FitsPair room (t.0, t.1) × (length t.2 < length (c ∷ r))) _
                (dict_pair decode (c ∷ r)) _ (dict_pair_lem (c ∷ r))
                (λ t read.
                  dict_loop_lem fuel (pairs + 1) (put t.0 t.1 result) t.2 (omega arith)
                    (put-All (FitsPair room) t.0 t.1 result h read.0
                      (λ j w fits. (fits.0, fits.1, read.0.2)))
                    (omega (arith, length-put-le t.0 t.1 result))
                    (omega (arith, leb_false→lt _ _ more))))
        ]
