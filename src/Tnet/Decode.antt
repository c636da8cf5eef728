-- ===== src/Tnet/Decode.antt =====
-- pkg/importer/tnetstring.go: the values. The depth at which the code reads an element is counted
-- down: `inner room` is `decodeTnetstringInner` at depth 65 - room, which fails where that is 65.
pub mod Limits
pub mod RoundTrip
pub mod Inverse
pub mod Safety
use vespasian.Prelude.{
  ℕ, zero, suc, ◌+◌, ◌-◌, Bool, true, false, Option, none, some, List, [], ◌∷◌, ◌++◌, Bytes, codes,
  length, str_eq, ltb, leb, ◌==◌, if◌then◌else◌,
}
use mathlib.Core.Option
use vespasian.Tnet.Value.{
  Value, null, bytes, str, int, float, bool, list, dict, Items, nil, cons, Entries, end, entry,
}
use vespasian.Tnet.Reader.{
  TnetError, depth_exceeded, bad_int, bad_float, bad_bool, null_payload, unknown_marker,
  list_too_long, dict_too_long, bad_dict_key, dict_key_without_value, list_element, dict_key,
  dict_value, Decoded, ok, err, stuck, ◌>>=◌, wrap, max_tnetstring_depth, max_tnetstring_element,
  max_tnetstring_elements, read_length_prefix, read_payload, read_byte, parse_int,
}

module _ {F : Type 0} where
  -- A slice and a map that the loops have built.
  abbrev pub items_of : List (Value F) → Items F
  items_of [] = nil
  items_of (v ∷ vs) = cons v (items_of vs)

  abbrev pub entries_of : List (Bytes × Value F) → Entries F
  entries_of [] = end
  entries_of ((k, v) ∷ m) = entry k v (entries_of m)

  -- `result[key] = value`
  pub put : Bytes → Value F → List (Bytes × Value F) → List (Bytes × Value F)
  put k v [] = (k, v) ∷ []
  put k v ((j, w) ∷ m) = if str_eq j k then (j, v) ∷ m else (j, w) ∷ put k v m

  pub coerce_dict_key : Value F → Decoded Bytes
  coerce_dict_key (str s) = ok s
  coerce_dict_key (bytes b) = ok b
  coerce_dict_key _ = err bad_dict_key

  -- The loops over the elements of a payload, by the decoder for an element.
  module _ (decode : Bytes → Decoded (Value F × Bytes)) where
    pub list_loop : ℕ → List (Value F) → Bytes → Decoded (List (Value F))
    list_loop fuel result [] = ok result
    list_loop zero result (c ∷ r) = stuck
    list_loop (suc fuel) result (c ∷ r) =
        if leb max_tnetstring_elements (length result)
        then err list_too_long
        else (wrap list_element (decode (c ∷ r)) >>= λ (v, r').
            list_loop fuel (result ++ v ∷ []) r')

    -- A round of the loop of `parseTnetDict`: the key, the value and the rest.
    pub dict_pair : Bytes → Decoded (Bytes × Value F × Bytes)
    dict_pair r = do
      (key_val, r1) ← wrap dict_key (decode r)
      key ← coerce_dict_key key_val
      if length r1 == 0
          then err (dict_key_without_value key)
          else (do (v, r2) ← wrap (dict_value key) (decode r1); ok (key, v, r2))

    pub dict_loop : ℕ → ℕ → List (Bytes × Value F) → Bytes → Decoded (List (Bytes × Value F))
    dict_loop fuel pairs result [] = ok result
    dict_loop zero pairs result (c ∷ r) = stuck
    dict_loop (suc fuel) pairs result (c ∷ r) =
        if leb max_tnetstring_elements pairs
        then err dict_too_long
        else (dict_pair (c ∷ r) >>= λ (k, v, r'). dict_loop fuel (pairs + 1) (put k v result) r')

    -- Each element takes a byte at least.
    pub parse_tnet_list : Bytes → Decoded (List (Value F))
    parse_tnet_list payload = list_loop (length payload) [] payload

    pub parse_tnet_dict : Bytes → Decoded (List (Bytes × Value F))
    parse_tnet_dict payload = dict_loop (length payload) 0 [] payload

  parse_tnet_bool : Bytes → Decoded (Value F)
  parse_tnet_bool payload =
      if str_eq payload (codes "true")
      then ok (bool true)
      else if str_eq payload (codes "false")
      then ok (bool false)
      else err (bad_bool payload)

  or_error : TnetError → Option (Value F) → Decoded (Value F)
  or_error e none = err e
  or_error e (some v) = ok v

  -- `strconv.ParseFloat` is a parameter; `none` is its error.
  module _ (parse_float : Bytes → Option F) where
    -- The `switch` of `parseTnetPayload`.
    pub parse_tnet_payload : (Bytes → Decoded (Value F × Bytes)) → ℕ → Bytes → Decoded (Value F)
    parse_tnet_payload decode t payload =
        if t == b','
        then ok (bytes payload)
        else if t == b';'
        then ok (str payload)
        else if t == b'#'
        then or_error (bad_int payload) (Option.map int (parse_int payload))
        else if t == b'^'
        then or_error (bad_float payload) (Option.map float (parse_float payload))
        else if t == b'!'
        then parse_tnet_bool payload
        else if t == b'~'
        then if length payload == 0 then ok null else err (null_payload (length payload))
        else if t == b']'
        then (parse_tnet_list decode payload >>= λ vs. ok (list (items_of vs)))
        else if t == b'}'
        then (parse_tnet_dict decode payload >>= λ m. ok (dict (entries_of m)))
        else err (unknown_marker t)

    -- What both decoders do behind their depth test, with the bound on the length.
    pub decode_element : (Bytes → Decoded (Value F × Bytes)) → ℕ → Bytes → Decoded (Value F × Bytes)
    decode_element decode max_len r = do
      (n, r1) ← read_length_prefix r max_len
      (payload, r2) ← read_payload n r1
      (t, r3) ← read_byte r2
      v ← parse_tnet_payload decode t payload
      ok (v, r3)

    pub inner : ℕ → Bytes → Decoded (Value F × Bytes)
    inner zero r = err depth_exceeded
    inner (suc room) r = decode_element (inner room) (length r) r

    pub decode_tnetstring_inner : Bytes → ℕ → Decoded (Value F × Bytes)
    decode_tnetstring_inner r depth = inner (max_tnetstring_depth + 1 - depth) r

    pub decode_tnetstring_stream : Bytes → ℕ → Decoded (Value F × Bytes)
    decode_tnetstring_stream r depth =
        if ltb max_tnetstring_depth depth
        then err depth_exceeded
        else decode_element (inner (max_tnetstring_depth - depth)) max_tnetstring_element r
