-- ===== src/Tnet/Encode.antt =====
-- internal/tnetenc/tnetenc.go: `Encode`.
pub mod Sorted
use vespasian.Prelude.{ℕ, suc, List, [], ◌∷◌, ◌++◌, Bytes, codes, length, str_lt, if◌then◌else◌}
use vespasian.Prelude.Decimal.{decimal}
use vespasian.Prelude.Int.{ℤ, pos, negsuc}
use vespasian.Tnet.Value.{
  Value, null, bytes, str, int, float, bool, list, dict, Items, nil, cons, Entries, end, entry,
}

-- `strconv.FormatInt(x, 10)`.
unfoldable pub format_int : ℤ → Bytes
format_int (pos n) = decimal n
format_int (negsuc n) = b'-' ∷ decimal (suc n)

unfoldable pub encode_with_marker : Bytes → ℕ → Bytes
encode_with_marker payload marker = decimal (length payload) ++ b':' ∷ (payload ++ marker ∷ [])

-- `sort.Strings` on the keys, each with what is written for its value.
unfoldable pub insert_pair : Bytes → Bytes → List (Bytes × Bytes) → List (Bytes × Bytes)
insert_pair k v [] = (k, v) ∷ []
insert_pair k v ((j, w) ∷ m) =
    if str_lt j k then (j, w) ∷ insert_pair k v m else (k, v) ∷ (j, w) ∷ m

unfoldable pub sort_pairs : List (Bytes × Bytes) → List (Bytes × Bytes)
sort_pairs [] = []
sort_pairs ((k, v) ∷ m) = insert_pair k v (sort_pairs m)

unfoldable pub concat_pairs : List (Bytes × Bytes) → Bytes
concat_pairs [] = []
concat_pairs ((k, v) ∷ m) = encode_with_marker k b',' ++ (v ++ concat_pairs m)

-- `strconv.FormatFloat(x, 'g', -1, 64)` is a parameter.
module _ {F : Type 0} (format_float : F → Bytes) where
  unfoldable mutual
    pub encode : Value F → Bytes
    encode null = codes "0:~"
    encode (bytes b) = encode_with_marker b b','
    encode (str s) = encode_with_marker s b','
    encode (bool b) = if b then codes "4:true!" else codes "5:false!"
    encode (int z) = encode_with_marker (format_int z) b'#'
    encode (float x) = encode_with_marker (format_float x) b'^'
    encode (list vs) = encode_with_marker (encode_items vs) b']'
    encode (dict m) = encode_with_marker (concat_pairs (sort_pairs (encode_entries m))) b'}'

    pub encode_items : Items F → Bytes
    encode_items nil = []
    encode_items (cons v vs) = encode v ++ encode_items vs

    pub encode_entries : Entries F → List (Bytes × Bytes)
    encode_entries end = []
    encode_entries (entry k v m) = (k, encode v) ∷ encode_entries m
