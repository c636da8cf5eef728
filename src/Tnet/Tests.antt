-- ===== src/Tnet/Tests.antt =====
-- Runs of the tnetstring encoder and decoder, and the theorems at concrete inputs.
use vespasian.Prelude.{
  str_lt, ℕ, ◌+◌, ◌-◌, ◌<◌, true, Option, some, ◌++◌, ◌≡◌, refl, ap, arith, Bytes, codes, length,
}
use vespasian.Prelude.Decimal.{decimal, digits_value, digits_value-decimal}
use vespasian.Prelude.Int.{pos}
use vespasian.Tnet.Value.{Value, null, bytes, int, bool, float, list, dict, nil, cons, end, entry}
use vespasian.Tnet.Encode.{
  encode, encode_with_marker, concat_pairs, sort_pairs, insert_pair, format_int,
}
use vespasian.Tnet.Reader.{ok, max_tnetstring_depth}
use vespasian.Tnet.Reader.Returns.{Returns}
use vespasian.Tnet.Decode.{decode_tnetstring_stream}
use vespasian.Tnet.Decode.Limits.{Fits, IsCanonical}
use vespasian.Tnet.Decode.Inverse.{decode_tnetstring_stream-encode}
use vespasian.Tnet.Decode.Safety.{decode_tnetstring_stream_lem}

-- Floats that are natural numbers, written in decimal, as an instance of the parameters.
abbrev read_decimal : Bytes → Option ℕ
read_decimal s = some (digits_value 0 s)

read_decimal-decimal : (n : ℕ) → read_decimal (decimal n) ≡ some n
read_decimal-decimal n = ap some (digits_value-decimal n)

-- The definitions that a run computes with.
encoder : Unit {0}
unfolding encode encode_with_marker decimal concat_pairs sort_pairs insert_pair str_lt format_int
encoder = tt

abbrev flow : Value ℕ
flow = dict (
    entry (codes "host") (bytes (codes "a.b")) (
      entry (codes "port") (int (pos 443))
        (entry (codes "tls") (list (cons (bool true) (cons (float 7) nil))) end)))

abbrev behind : Bytes
behind = codes "0:~"

flow_written : encode decimal flow ≡ codes "47:4:host,3:a.b,4:port,3:443#3:tls,11:4:true!1:7^]}"
unfolding encoder
flow_written = refl

-- Keys are written in their order, whatever the order of the entries.
keys_sorted :
    encode decimal (dict (entry (codes "b") null (entry (codes "a") null end)))
    ≡ codes "14:1:a,0:~1:b,0:~}"
unfolding encoder
keys_sorted = refl

decode_tnetstring_stream-encode_example :
    decode_tnetstring_stream read_decimal (encode decimal flow ++ behind) 0 ≡ ok (flow, behind)
decode_tnetstring_stream-encode_example =
    decode_tnetstring_stream-encode decimal read_decimal read_decimal-decimal flow behind
      flow_canonical (omega arith) (rw flow_written (omega arith))
  where
    flow_canonical : IsCanonical flow
    flow_canonical =
        unfold str_lt in ((refl, (refl, tt)), tt, ((refl, tt), tt, (tt, (tt, (tt, tt)), tt)))

-- The value is the list of abc and -7, and 0:~ is left.
decode_tnetstring_stream_lem_example :
    Returns
      (λ p.
        Fits p.0 (max_tnetstring_depth + 1 - 3)
        × (length p.1 < length (codes "11:3:abc,2:-7#]0:~")))
      (decode_tnetstring_stream read_decimal (codes "11:3:abc,2:-7#]0:~") 3)
decode_tnetstring_stream_lem_example =
    decode_tnetstring_stream_lem read_decimal (codes "11:3:abc,2:-7#]0:~") 3
