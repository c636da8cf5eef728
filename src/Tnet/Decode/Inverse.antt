-- ===== src/Tnet/Decode/Inverse.antt =====
-- The decoder undoes the encoder.
use vespasian.Prelude.{
  ℕ, zero, suc, ◌+◌, ◌-◌, ◌≤◌, true, false, Option, some, [], ◌++◌, ◌≡◌, refl, ap, ◌∙◌, arith,
  Bytes, codes, length, str_eq, length-append,
}
use vespasian.Prelude.Decimal.{decimal}
use vespasian.Tnet.Value.{
  Value, null, bytes, str, int, float, bool, list, dict, Items, nil, cons, Entries, end, entry,
}
use vespasian.Tnet.Encode.{
  format_int, encode_with_marker, concat_pairs, encode, encode_items, encode_entries,
}
use vespasian.Tnet.Encode.Sorted.{sort_pairs-canonical}
use vespasian.Tnet.Reader.{
  Decoded, ok, chain-ok, read_length_prefix, max_tnetstring_depth, max_tnetstring_element,
}
use vespasian.Tnet.Reader.Prefix.{read_length_prefix-bound}
use vespasian.Tnet.Reader.Numbers.{parse_int-format_int}
use vespasian.Tnet.Decode.{
  items_of, entries_of, parse_tnet_list, parse_tnet_dict, parse_tnet_bool, or_error,
  parse_tnet_payload, decode_element, inner, decode_tnetstring_stream,
}
use vespasian.Tnet.Decode.Limits.{
  Fits, FitsItems, FitsEntries, IsCanonical, AreCanonical, IsCanonicalMap,
}
use vespasian.Tnet.Decode.RoundTrip.{
  length-encode_with_marker, decode_element-marked, list_of, pairs_of, Reads, ReadsItems,
  ReadsEntries, list_loop-encode_items, dict_loop-encode_entries,
}

items_of-list_of :
    {F : Type 0} (format_float : F → Bytes) (vs : Items F) → items_of (list_of format_float vs) ≡ vs
items_of-list_of g nil = refl
items_of-list_of g (cons v vs) = ap (cons v) (items_of-list_of g vs)

entries_of-pairs_of :
    {F : Type 0} (format_float : F → Bytes) (m : Entries F)
    → entries_of (pairs_of format_float m) ≡ m
entries_of-pairs_of g end = refl
entries_of-pairs_of g (entry k v m) = ap (entry k v) (entries_of-pairs_of g m)

null_marked : codes "0:~" ≡ encode_with_marker [] b'~'
unfolding encode_with_marker decimal
null_marked = refl

true_marked : codes "4:true!" ≡ encode_with_marker (codes "true") b'!'
unfolding encode_with_marker decimal
true_marked = refl

false_marked : codes "5:false!" ≡ encode_with_marker (codes "false") b'!'
unfolding encode_with_marker decimal
false_marked = refl

-- The stream's bound on the length refuses nothing that the bound of a buffer lets through.
decode_element-bound :
    {F : Type 0} (parse_float : Bytes → Option F) (decode : Bytes → Decoded (Value F × Bytes))
    (max_len : ℕ) (r : Bytes) (x : Value F × Bytes)
    → decode_element parse_float decode max_len r ≡ ok x
    → decode_element parse_float decode max_tnetstring_element r ≡ ok x
unfolding decode_element
decode_element-bound parse_float decode max_len r x e =
    let (p, read, more) = chain-ok (read_length_prefix r max_len) _ e in
    rw (read_length_prefix-bound r max_len p read) more

module _ {F : Type 0} (format_float : F → Bytes) (parse_float : Bytes → Option F)
    (exact : (x : F) → parse_float (format_float x) ≡ some x) where
  inner-marked :
      (room : ℕ) (p : Bytes) (t : ℕ) (v : Value F) (rest : Bytes)
      → 1 ≤ room
      → length (encode_with_marker p t) ≤ max_tnetstring_element
      → parse_tnet_payload parse_float (inner parse_float (room - 1)) t p ≡ ok v
      → inner parse_float room (encode_with_marker p t ++ rest) ≡ ok (v, rest)
  unfolding inner
  inner-marked zero p t v rest pos h e = absurd (omega arith)
  inner-marked (suc room) p t v rest pos h e =
      let size = length-encode_with_marker p t in
      decode_element-marked parse_float (inner parse_float room) p t
        (length (encode_with_marker p t ++ rest)) rest (omega arith)
        (omega (arith, length-append (encode_with_marker p t) rest))
      ∙ let same : suc room - 1 ≡ room = omega arith in rw (rw same at e)

  -- The same for the elements that `Encode` writes as literals.
  inner_literal :
      (room : ℕ) (b p : Bytes) (t : ℕ) (v : Value F) (rest : Bytes)
      → 1 ≤ room
      → b ≡ encode_with_marker p t
      → length b ≤ max_tnetstring_element
      → parse_tnet_payload parse_float (inner parse_float (room - 1)) t p ≡ ok v
      → inner parse_float room (b ++ rest) ≡ ok (v, rest)
  inner_literal room b p t v rest pos same h e =
      ap (λ x. inner parse_float room (x ++ rest)) same
      ∙ inner-marked room p t v rest pos (omega (arith, ap length same)) e

  mutual
    unfolding encode encode_items encode_entries concat_pairs parse_tnet_payload parse_tnet_bool
        or_error str_eq parse_tnet_list parse_tnet_dict

    reads :
        (v : Value F) (room : ℕ)
        → IsCanonical v
        → Fits v room
        → length (encode format_float v) ≤ max_tnetstring_element
        → Reads format_float (inner parse_float room) v
    reads null room c f h rest =
        inner_literal room (codes "0:~") [] b'~' null rest f null_marked h refl
    reads (bytes b) room c (pos, f) h rest = inner-marked room b b',' (bytes b) rest pos h refl
    reads (str s) room c f h rest = absurd c
    reads (int z) room c (pos, f) h rest =
        inner-marked room (format_int z) b'#' (int z) rest pos h (rw (parse_int-format_int z f))
    reads (float x) room c pos h rest =
        inner-marked room (format_float x) b'^' (float x) rest pos h (rw (exact x))
    reads (bool true) room c pos h rest =
        inner_literal room (codes "4:true!") (codes "true") b'!' (bool true) rest pos true_marked h
          refl
    reads (bool false) room c pos h rest =
        inner_literal room (codes "5:false!") (codes "false") b'!' (bool false) rest pos
          false_marked h refl
    reads (list vs) room c (pos, n, f) h rest =
        let payload = encode_items format_float vs in
        let fits = length-encode_with_marker payload b']' in
        inner-marked room payload b']' (list vs) rest pos h (
          rw
            (list_loop-encode_items format_float (inner parse_float (room - 1)) vs (length payload)
              [] (reads_items vs (room - 1) c f (omega arith)) (omega arith) (omega arith))
            (ap (λ us. ok (list us)) (items_of-list_of format_float vs)))
    reads (dict m) room c (pos, n, f) h rest =
        let payload = concat_pairs (encode_entries format_float m) in
        let sorted = sort_pairs-canonical format_float m c in
        let small : length (encode_with_marker payload b'}') ≤ max_tnetstring_element =
          rw sorted at h in
        let fits = length-encode_with_marker payload b'}' in
        rw sorted (
          inner-marked room payload b'}' (dict m) rest pos small (
            rw
              (dict_loop-encode_entries format_float (inner parse_float (room - 1)) m
                (length payload) 0 [] (reads_entries m (room - 1) c f (omega arith)) c tt
                (omega arith) (omega arith))
              (ap (λ e. ok (dict e)) (entries_of-pairs_of format_float m))))

    reads_items :
        (vs : Items F) (room : ℕ)
        → AreCanonical vs
        → FitsItems vs room
        → length (encode_items format_float vs) ≤ max_tnetstring_element
        → ReadsItems format_float (inner parse_float room) vs
    reads_items nil room c f h = tt
    reads_items (cons v vs) room (cv, c) (fv, f) h =
        let sizes = length-append (encode format_float v) (encode_items format_float vs) in
        (reads v room cv fv (omega arith), reads_items vs room c f (omega arith))

    reads_entries :
        (m : Entries F) (room : ℕ)
        → IsCanonicalMap m
        → FitsEntries m room
        → length (concat_pairs (encode_entries format_float m)) ≤ max_tnetstring_element
        → ReadsEntries format_float (inner parse_float room) m
    reads_entries end room c f h = tt
    reads_entries (entry k v m) room (_, cv, c) (pos, fk, fv, f) h =
        let tail = concat_pairs (encode_entries format_float m) in
        let sizes = length-append (encode_with_marker k b',') (encode format_float v ++ tail) in
        let sizes' = length-append (encode format_float v) tail in
        (
          (λ rest. inner-marked room k b',' (bytes k) rest pos (omega arith) refl),
          reads v room cv fv (omega arith),
          reads_entries m room c f (omega arith),
        )

  -- Decoding what Encode writes for a value gives the value back and leaves what stands behind
  -- it, for a value in the decoder's form (no string, map entries in key order) within the
  -- decoder's limits whose encoding is no longer than the limit for an element, if the float
  -- parser undoes the float formatter.
  pub decode_tnetstring_stream-encode :
      (v : Value F) (rest : Bytes)
      → IsCanonical v
      → Fits v (max_tnetstring_depth + 1)
      → length (encode format_float v) ≤ max_tnetstring_element
      → decode_tnetstring_stream parse_float (encode format_float v ++ rest) 0 ≡ ok (v, rest)
  unfolding decode_tnetstring_stream
  decode_tnetstring_stream-encode v rest c f h =
      decode_element-bound parse_float (inner parse_float max_tnetstring_depth)
        (length (encode format_float v ++ rest)) (encode format_float v ++ rest) (v, rest)
        (unfold inner in reads v (max_tnetstring_depth + 1) c f h rest)
