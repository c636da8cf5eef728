-- ===== src/Tnet/Decode/RoundTrip.antt =====
-- The loops of the decoder on what the encoder writes.
use vespasian.Prelude.{
  ℕ, zero, suc, ◌+◌, ◌≤◌, ◌<◌, true, false, Option, List, [], ◌∷◌, ◌++◌, ◌≡◌, refl, ap, ◌∙◌, arith,
  Bytes, length, str_lt-str_eq, append_assoc, append-nil, length-append,
}
use vespasian.Prelude.Decimal.{decimal}
use vespasian.Tnet.Value.{
  Value, null, bytes, str, int, float, bool, list, dict, Items, nil, cons, Entries, end, entry,
}
use vespasian.Tnet.Encode.{
  format_int, encode_with_marker, sort_pairs, concat_pairs, encode, encode_items, encode_entries,
}
use vespasian.Tnet.Reader.{
  Decoded, ok, ◌>>=◌, max_tnetstring_element, max_tnetstring_elements, read_byte,
}
use vespasian.Tnet.Reader.Prefix.{read_length_prefix-decimal, read_payload-append}
use vespasian.Tnet.Decode.{
  put, list_loop, dict_pair, dict_loop, parse_tnet_payload, decode_element, coerce_dict_key,
}
use vespasian.Tnet.Decode.Limits.{count_items, count_entries, Before, IsCanonicalMap}

pub length-encode_with_marker : (p : Bytes) (t : ℕ) → length p < length (encode_with_marker p t)
unfolding encode_with_marker
length-encode_with_marker p t =
    omega
      (arith, length-append (decimal (length p)) (b':' ∷ (p ++ t ∷ [])), length-append p (t ∷ []))

module _ {F : Type 0} (parse_float : Bytes → Option F)
    (decode : Bytes → Decoded (Value F × Bytes)) where
  -- An element that the encoder writes is cut into its payload and its marker.
  pub decode_element-marked :
      (p : Bytes) (t max_len : ℕ) (rest : Bytes)
      → length p ≤ max_tnetstring_element
      → length p ≤ max_len
      → decode_element parse_float decode max_len (encode_with_marker p t ++ rest)
        ≡ (parse_tnet_payload parse_float decode t p >>= λ v. ok (v, rest))
  unfolding decode_element encode_with_marker read_byte
  decode_element-marked p t max_len rest h k =
      rw
        (
          append_assoc (decimal (length p)) (b':' ∷ (p ++ t ∷ [])) rest,
          append_assoc p (t ∷ []) rest,
          read_length_prefix-decimal (length p) max_len (p ++ t ∷ rest) h k,
        )
        (rw (read_payload-append p (t ∷ rest)))

module _ {F : Type 0} (format_float : F → Bytes) where
  abbrev pub list_of : Items F → List (Value F)
  list_of nil = []
  list_of (cons v vs) = v ∷ list_of vs

  abbrev pub pairs_of : Entries F → List (Bytes × Value F)
  pairs_of end = []
  pairs_of (entry k v m) = (k, v) ∷ pairs_of m

  -- No element is written as nothing.
  pub length-encode_pos : (v : Value F) → 0 < length (encode format_float v)
  unfolding encode
  length-encode_pos null = omega arith
  length-encode_pos (bytes b) = omega (arith, length-encode_with_marker b b',')
  length-encode_pos (str b) = omega (arith, length-encode_with_marker b b',')
  length-encode_pos (bool true) = omega arith
  length-encode_pos (bool false) = omega arith
  length-encode_pos (int z) = omega (arith, length-encode_with_marker (format_int z) b'#')
  length-encode_pos (float x) = omega (arith, length-encode_with_marker (format_float x) b'^')
  length-encode_pos (list vs) =
      omega (arith, length-encode_with_marker (encode_items format_float vs) b']')
  length-encode_pos (dict m) = omega (
    arith,
    length-encode_with_marker (concat_pairs (sort_pairs (encode_entries format_float m))) b'}',
  )

  module _ (decode : Bytes → Decoded (Value F × Bytes)) where
    -- The decoder reads what the encoder writes for a value, for the elements of a list, and for the
    -- keys and values of a map.
    abbrev pub Reads : Value F → Type 0
    Reads v = (rest : Bytes) → decode (encode format_float v ++ rest) ≡ ok (v, rest)

    abbrev pub ReadsItems : Items F → Type 0
    ReadsItems nil = Unit
    ReadsItems (cons v vs) = Reads v × ReadsItems vs

    abbrev pub ReadsEntries : Entries F → Type 0
    ReadsEntries end = Unit
    ReadsEntries (entry k v m) = Reads (bytes k) × Reads v × ReadsEntries m

    list_round :
        (fuel : ℕ) (result : List (Value F)) (b : Bytes) (v : Value F) (rest : Bytes)
        → length result < max_tnetstring_elements
        → 0 < length b
        → decode b ≡ ok (v, rest)
        → list_loop decode (suc fuel) result b ≡ list_loop decode fuel (result ++ v ∷ []) rest
    unfolding list_loop
    list_round fuel result [] v rest h k e = absurd (omega arith)
    list_round fuel result (c ∷ b) v rest h k e = ground arith

    pub list_loop-encode_items :
        (vs : Items F) (fuel : ℕ) (result : List (Value F))
        → ReadsItems vs
        → length (encode_items format_float vs) ≤ fuel
        → length result + count_items vs ≤ max_tnetstring_elements
        → list_loop decode fuel result (encode_items format_float vs) ≡ ok (result ++ list_of vs)
    unfolding encode_items
    list_loop-encode_items nil zero result h k n = unfold list_loop in rw append-nil
    list_loop-encode_items nil (suc fuel) result h k n = unfold list_loop in rw append-nil
    list_loop-encode_items (cons v vs) zero result h k n = absurd (
        omega (
          arith,
          length-append (encode format_float v) (encode_items format_float vs),
          length-encode_pos v,
        ))
    list_loop-encode_items (cons v vs) (suc fuel) result (reads, h) k n =
        let sizes = length-append (encode format_float v) (encode_items format_float vs) in
        let pos = length-encode_pos v in
        list_round fuel result (encode format_float v ++ encode_items format_float vs) v
          (encode_items format_float vs) (omega arith) (omega arith) (reads _)
        ∙ list_loop-encode_items vs fuel (result ++ v ∷ []) h (omega arith)
            (omega (arith, length-append result (v ∷ [])))
        ∙ ap ok (append_assoc result (v ∷ []) (list_of vs))

    dict_pair-encode :
        (k : Bytes) (v : Value F) (rest : Bytes)
        → Reads (bytes k)
        → Reads v
        → dict_pair decode (encode_with_marker k b',' ++ (encode format_float v ++ rest))
          ≡ ok (k, v, rest)
    unfolding dict_pair coerce_dict_key encode
    dict_pair-encode k v rest hk hv =
        rw (hk (encode format_float v ++ rest))
          (ground (arith, hv rest, length-encode_pos v, length-append (encode format_float v) rest))

    dict_round :
        (fuel pairs : ℕ) (result : List (Bytes × Value F)) (b k : Bytes) (v : Value F)
        (rest : Bytes)
        → pairs < max_tnetstring_elements
        → 0 < length b
        → dict_pair decode b ≡ ok (k, v, rest)
        → dict_loop decode (suc fuel) pairs result b
          ≡ dict_loop decode fuel (pairs + 1) (put k v result) rest
    unfolding dict_loop
    dict_round fuel pairs result [] k v rest h n e = absurd (omega arith)
    dict_round fuel pairs result (c ∷ b) k v rest h n e = ground arith

  -- The keys that the loop has met come before those to come.
  abbrev pub IsMet : List (Bytes × Value F) → Entries F → Type 0
  IsMet [] m = Unit
  IsMet ((j, w) ∷ result) m = Before j m × IsMet result m

  put-met :
      (k : Bytes) (v : Value F) (m : Entries F) (result : List (Bytes × Value F))
      → IsMet result (entry k v m)
      → put k v result ≡ result ++ (k, v) ∷ []
  unfolding put
  put-met k v m [] h = refl
  put-met k v m ((j, w) ∷ result) ((lt, _), h) =
      rw (str_lt-str_eq j k lt) (ap (λ r. (j, w) ∷ r) (put-met k v m result h))

  IsMet-snoc :
      (k : Bytes) (v : Value F) (m : Entries F) (result : List (Bytes × Value F))
      → IsMet result (entry k v m)
      → Before k m
      → IsMet (result ++ (k, v) ∷ []) m
  IsMet-snoc k v m [] h b = (b, tt)
  IsMet-snoc k v m ((j, w) ∷ result) ((_, hj), h) b = (hj, IsMet-snoc k v m result h b)

  pub dict_loop-encode_entries :
      (decode : Bytes → Decoded (Value F × Bytes)) (m : Entries F) (fuel pairs : ℕ)
      (result : List (Bytes × Value F))
      → ReadsEntries decode m
      → IsCanonicalMap m
      → IsMet result m
      → length (concat_pairs (encode_entries format_float m)) ≤ fuel
      → pairs + count_entries m ≤ max_tnetstring_elements
      → dict_loop decode fuel pairs result (concat_pairs (encode_entries format_float m))
        ≡ ok (result ++ pairs_of m)
  unfolding encode_entries concat_pairs
  dict_loop-encode_entries decode end zero pairs result h c met k n =
      unfold dict_loop in rw append-nil
  dict_loop-encode_entries decode end (suc fuel) pairs result h c met k n =
      unfold dict_loop in rw append-nil
  dict_loop-encode_entries decode (entry j v m) zero pairs result h c met k n = absurd (
      omega (
        arith,
        length-append (encode_with_marker j b',')
            (encode format_float v ++ concat_pairs (encode_entries format_float m)),
        length-encode_with_marker j b',',
      ))
  dict_loop-encode_entries decode (entry j v m) (suc fuel) pairs result (hj, hv, h) (first, _, c)
        met k n =
      let tail = concat_pairs (encode_entries format_float m) in
      let size = length-append (encode_with_marker j b',') (encode format_float v ++ tail) in
      let size' = length-append (encode format_float v) tail in
      let pos = length-encode_with_marker j b',' in
      dict_round decode fuel pairs result
        (encode_with_marker j b',' ++ (encode format_float v ++ tail)) j v tail (omega arith)
        (omega arith) (dict_pair-encode decode j v tail hj hv)
      ∙ rw (put-met j v m result met) (
          dict_loop-encode_entries decode m fuel (pairs + 1) (result ++ (j, v) ∷ []) h c
            (IsMet-snoc j v m result met first) (omega arith) (omega arith))
      ∙ ap ok (append_assoc result ((j, v) ∷ []) (pairs_of m))
