-- ===== src/Tnet/Decode/Safety.antt =====
-- On any bytes the decoder returns, and a value that it returns is within its limits.
pub mod Loops
use mathlib.Core.Option
use vespasian.Prelude.{
  ℕ, zero, suc, ◌+◌, ◌-◌, ◌≤◌, ◌<◌, Option, none, some, List, [], ◌∷◌, ◌++◌, ◌≡◌, refl, ap, arith,
  Bytes, length, All, All-append, str_eq, ltb, leb, ◌==◌, if◌then◌else◌, length-append, Bool-cases,
  leb_false→lt, ltb_false→le, inl, inr,
}
use vespasian.Prelude.Int.{ℤ}
use vespasian.Tnet.Value.{Value, null, bytes, str, int, float, bool, list, dict}
use vespasian.Tnet.Reader.{
  bad_int, bad_float, null_payload, unknown_marker, list_element, dict_key, dict_value, Decoded, ok,
  err, ◌>>=◌, wrap, max_tnetstring_depth, max_tnetstring_element, max_tnetstring_elements,
  read_length_prefix, read_payload, read_byte, parse_int,
}
use vespasian.Tnet.Reader.Prefix.{read_length_prefix_lem, read_payload_lem, read_byte_lem}
use vespasian.Tnet.Reader.Numbers.{parse_int-IsInt64}
use vespasian.Tnet.Reader.Returns.{Returns, Returns-bind, Returns-wrap, Returns-if}
use vespasian.Tnet.Decode.{
  items_of, entries_of, put, coerce_dict_key, list_loop, dict_pair, dict_loop, parse_tnet_list,
  parse_tnet_dict, parse_tnet_bool, or_error, parse_tnet_payload, decode_element, inner,
  decode_tnetstring_stream,
}
use vespasian.Tnet.Decode.Limits.{Fits, FitsItems, FitsEntries, count_items, count_entries}
use vespasian.Tnet.Decode.Safety.Loops.{
  FitsPair, Reads, items_of-FitsItems, count_items-items_of, entries_of-FitsEntries,
  count_entries-entries_of, list_loop_lem, dict_loop_lem,
}

module _ (F : Type 0) where
  int_lem :
      (p : Bytes) (room : ℕ) (z : Option ℤ)
      → parse_int p ≡ z
      → Returns (λ v. Fits {F = F} v (suc room)) (or_error (bad_int p) (Option.map int z))
  unfolding or_error
  int_lem p room none e = tt
  int_lem p room (some z) e = (omega arith, parse_int-IsInt64 p z e)

  bool_lem : (p : Bytes) (room : ℕ) → Returns (λ v. Fits v (suc room)) (parse_tnet_bool {F = F} p)
  unfolding parse_tnet_bool
  bool_lem p room = ground arith

module _ {F : Type 0} where
  float_lem :
      (p : Bytes) (room : ℕ) (x : Option F)
      → Returns (λ v. Fits v (suc room)) (or_error (bad_float p) (Option.map float x))
  unfolding or_error
  float_lem p room none = tt
  float_lem p room (some x) = omega arith

  module _ (parse_float : Bytes → Option F) (decode : Bytes → Decoded (Value F × Bytes)) (room : ℕ)
      (good : (r : Bytes) → Returns (Reads room r) (decode r)) where
    list_lem :
        (p : Bytes)
        → Returns
            (λ v. Fits v (suc room))
            (parse_tnet_list decode p >>= λ vs. ok (list (items_of vs)))
    unfolding parse_tnet_list
    list_lem p =
        Returns-bind (λ vs. All (λ v. Fits v room) vs × (length vs ≤ max_tnetstring_elements)) _
          (list_loop decode (length p) [] p) _
          (list_loop_lem decode room good (length p) [] p (omega arith) tt (omega arith))
          (λ vs h.
            let pred : suc room - 1 ≡ room = omega arith in
            (
              omega arith,
              rw (count_items-items_of vs) h.1,
              rw pred (items_of-FitsItems vs room h.0),
            ))

    dict_lem :
        (p : Bytes)
        → Returns
            (λ v. Fits v (suc room))
            (parse_tnet_dict decode p >>= λ m. ok (dict (entries_of m)))
    unfolding parse_tnet_dict
    dict_lem p =
        Returns-bind (λ m. All (FitsPair room) m × (length m ≤ max_tnetstring_elements)) _
          (dict_loop decode (length p) 0 [] p) _
          (dict_loop_lem decode room good (length p) 0 [] p (omega arith) tt (omega arith)
            (omega arith))
          (λ m h.
            let pred : suc room - 1 ≡ room = omega arith in
            (
              omega arith,
              rw (count_entries-entries_of m) h.1,
              rw pred (entries_of-FitsEntries m room h.0),
            ))

    payload_lem :
        (t : ℕ) (p : Bytes)
        → length p ≤ max_tnetstring_element
        → Returns (λ v. Fits v (suc room)) (parse_tnet_payload parse_float decode t p)
    unfolding parse_tnet_payload
    payload_lem t p h =
        let P : Value F → Type 0 = λ v. Fits v (suc room) in
        let other : Decoded (Value F) = err (unknown_marker t) in
        let map_or =
          if t == b'}'
          then (parse_tnet_dict decode p >>= λ m. ok (dict (entries_of m)))
          else other in
        let list_or =
          if t == b']'
          then (parse_tnet_list decode p >>= λ vs. ok (list (items_of vs)))
          else map_or in
        let no_value : Decoded (Value F) =
          if length p == 0 then ok null else err (null_payload (length p)) in
        let null_or = if t == b'~' then no_value else list_or in
        let bool_or = if t == b'!' then parse_tnet_bool p else null_or in
        let float_or =
          if t == b'^'
          then or_error (bad_float p) (Option.map float (parse_float p))
          else bool_or in
        let int_or =
          if t == b'#' then or_error (bad_int p) (Option.map int (parse_int p)) else float_or in
        let map_case = Returns-if P (t == b'}') _ other (dict_lem p) tt in
        let list_case : Returns P list_or =
          Returns-if P (t == b']') _ map_or (list_lem p) map_case in
        let nothing =
          Returns-if P (length p == 0) (ok null) (err (null_payload (length p))) (omega arith) tt in
        let null_case = Returns-if P (t == b'~') no_value list_or nothing list_case in
        let bool_case =
          Returns-if P (t == b'!') (parse_tnet_bool p) null_or (bool_lem F p room) null_case in
        let float_case =
          Returns-if P (t == b'^') _ bool_or (float_lem p room (parse_float p)) bool_case in
        let int_case =
          Returns-if P (t == b'#') _ float_or (int_lem F p room (parse_int p) refl) float_case in
        Returns-if P (t == b',') (ok (bytes p)) _ (omega arith, h)
          (Returns-if P (t == b';') (ok (str p)) int_or (omega arith, h) int_case)

    decode_element_lem :
        (max_len : ℕ) (r : Bytes)
        → Returns (Reads (suc room) r) (decode_element parse_float decode max_len r)
    unfolding decode_element
    decode_element_lem max_len r =
        Returns-bind
          (λ p. (p.0 ≤ max_tnetstring_element) × (p.0 ≤ max_len) × (length p.1 < length r)) _
          (read_length_prefix r max_len) _ (read_length_prefix_lem r max_len)
          (λ a ha.
            Returns-bind (λ p. (length p.0 ≡ a.0) × (length p.1 ≤ length a.1)) _
              (read_payload a.0 a.1) _ (read_payload_lem a.0 a.1)
              (λ b hb.
                Returns-bind (λ p. length p.1 < length b.1) _ (read_byte b.1) _ (read_byte_lem b.1)
                  (λ c hc.
                    Returns-bind (λ v. Fits v (suc room)) _
                      (parse_tnet_payload parse_float decode c.0 b.0) _
                      (payload_lem c.0 b.0 (omega arith)) (λ v hv. (hv, omega arith)))))

  module _ (parse_float : Bytes → Option F) where
    inner_lem : (room : ℕ) (r : Bytes) → Returns (Reads room r) (inner parse_float room r)
    unfolding inner
    inner_lem zero r = tt
    inner_lem (suc room) r =
        decode_element_lem parse_float (inner parse_float room) room (inner_lem room) (length r) r

    -- On any bytes and from any depth the decoder returns. It returns an error, or a value whose
    -- containers nest no deeper than the depth limit leaves room for, with every payload, list
    -- and map within its limit and every integer an int64; and then it has read at least one
    -- byte.
    pub decode_tnetstring_stream_lem :
        (r : Bytes) (depth : ℕ)
        → Returns
            (λ p. Fits p.0 (max_tnetstring_depth + 1 - depth) × (length p.1 < length r))
            (decode_tnetstring_stream parse_float r depth)
    unfolding decode_tnetstring_stream
    decode_tnetstring_stream_lem r depth = elim (Bool-cases (ltb max_tnetstring_depth depth)) [
      | inl deep ↦ rw deep tt
      | inr shallow ↦
          let le = ltb_false→le max_tnetstring_depth depth shallow in
          let room : max_tnetstring_depth + 1 - depth ≡ suc (max_tnetstring_depth - depth) =
            omega arith in
          rw (shallow, room)
            (decode_element_lem parse_float (inner parse_float (max_tnetstring_depth - depth))
              (max_tnetstring_depth - depth) (inner_lem (max_tnetstring_depth - depth))
              max_tnetstring_element r)
    ]
