-- ===== src/Importer/RoundTrip.antt =====
-- pkg/importer/mitmproxy.go reads a dump back, value by value.
use vespasian.Prelude.{
  ℕ, zero, suc, ◌+◌, ◌≤◌, ◌<◌, false, List, [], ◌∷◌, ◌++◌, Option, some, Bytes, length, leb,
  append_assoc, append-nil, Result, ok, err, ◌>>=◌, All, ◌≡◌, refl, sym, ap, subst, ◌∙◌, arith,
}
use vespasian.Packages.{Packages}
use vespasian.Tnet.Value.{Value}
use vespasian.Tnet.Encode.{encode}
use vespasian.Tnet.Reader.{Decoded, max_tnetstring_depth, max_tnetstring_element}
use vespasian.Tnet.Reader.Returns.{Returns}
use vespasian.Tnet.Decode.{decode_tnetstring_stream}
use vespasian.Tnet.Decode.Limits.{Fits, IsCanonical}
use vespasian.Tnet.Decode.Safety.{decode_tnetstring_stream_lem}
use vespasian.Tnet.Decode.Inverse.{decode_tnetstring_stream-encode}
use vespasian.Classify.Requests.{ObservedRequest}
use vespasian.Importer.Flows.{UrlFunctions, ImportError}
use vespasian.Importer.Native.{max_native_flows, request_of_value, native_loop, import_native}

-- Chains of results.
bind_ext :
    {A B : Type 0} (m : Result ImportError A) (f g : A → Result ImportError B)
    → ((a : A) → f a ≡ g a)
    → (m >>= f) ≡ (m >>= g)
bind_ext (ok a) f g h = h a
bind_ext (err e) f g h = refl

bind_ok : {A : Type 0} (m : Result ImportError A) → (m >>= λ a. ok a) ≡ m
bind_ok (ok a) = refl
bind_ok (err e) = refl

bind_append :
    (xs : List ObservedRequest) (m n : Result ImportError (List ObservedRequest))
    → (m >>= λ found. n >>= λ rest. ok ((xs ++ found) ++ rest))
      ≡ ((m >>= λ found. n >>= λ rest. ok (found ++ rest)) >>= λ all. ok (xs ++ all))
bind_append xs (err e) n = refl
bind_append xs (ok found) (err e) = refl
bind_append xs (ok found) (ok rest) = ap ok (append_assoc xs found rest)

leb_room : (a b : ℕ) → b < a → leb a b ≡ false
leb_room a b h = ground arith

shorter_lem :
    {F : Type 0} (parse_float : Bytes → Option F) (b : Bytes) (v : Value F) (rest : Bytes)
    → decode_tnetstring_stream parse_float b 0 ≡ Decoded.ok (v, rest)
    → length rest < length b
shorter_lem parse_float b v rest h =
    (subst (Returns (λ p. Fits p.0 (max_tnetstring_depth + 1) × (length p.1 < length b))) h
      (decode_tnetstring_stream_lem parse_float b 0)).1

module _ {F : Type 0} (format_float : F → Bytes) where
  -- A value that the decoder reads back, one of a dump.
  abbrev pub IsDumped : Value F → Type 0
  IsDumped v =
      IsCanonical v
      × Fits v (max_tnetstring_depth + 1)
      × (length (encode format_float v) ≤ max_tnetstring_element)

  abbrev pub dump_of : List (Value F) → Bytes
  dump_of [] = []
  dump_of (v ∷ vs) = encode format_float v ++ dump_of vs

module _ (packages : Packages) (urls : UrlFunctions) {F : Type 0}
    (parse_float : Bytes → Option F) where
  -- The requests of a list of values, or the error of the first that has one.
  abbrev pub requests_of : List (Value F) → Result ImportError (List ObservedRequest)
  requests_of [] = ok []
  requests_of (v ∷ vs) =
      (request_of_value packages urls parse_float v >>= λ found.
      requests_of vs >>= λ rest. ok (found ++ rest))

  -- A round of the loop.
  round_lem :
      (fuel seen : ℕ) (requests : List ObservedRequest) (b : Bytes) (v : Value F) (rest : Bytes)
      → decode_tnetstring_stream parse_float b 0 ≡ Decoded.ok (v, rest)
      → seen < max_native_flows
      → native_loop packages urls parse_float (suc fuel) seen requests b ≡ (
          request_of_value packages urls parse_float v >>= λ found.
          native_loop packages urls parse_float fuel (seen + 1) (requests ++ found) rest)
  unfolding native_loop
  round_lem fuel seen requests [] v rest h room =
      absurd (omega (arith, shorter_lem parse_float [] v rest h))
  round_lem fuel seen requests (c ∷ b) v rest h room =
      rw (leb_room max_native_flows seen room, h) refl

  module _ (format_float : F → Bytes)
      (floats : (x : F) → parse_float (format_float x) ≡ some x) where
    native_loop-dump_of :
        (fuel seen : ℕ) (requests : List ObservedRequest) (vs : List (Value F))
        → All (IsDumped format_float) vs
        → length (dump_of format_float vs) ≤ fuel
        → seen + length vs ≤ max_native_flows
        → native_loop packages urls parse_float fuel seen requests (dump_of format_float vs)
          ≡ (requests_of vs >>= λ rest. ok (requests ++ rest))
    unfolding native_loop
    native_loop-dump_of fuel seen requests [] d f m = ap ok (sym (append-nil requests))
    native_loop-dump_of zero seen requests (v ∷ vs) ((c, fits, bound), d) f m =
        let read =
          decode_tnetstring_stream-encode format_float parse_float floats v
            (dump_of format_float vs) c fits bound in
        absurd (
          omega (
            arith,
            shorter_lem parse_float (encode format_float v ++ dump_of format_float vs) v
                (dump_of format_float vs) read,
          ))
    native_loop-dump_of (suc fuel) seen requests (v ∷ vs) ((c, fits, bound), d) f m =
        let read =
          decode_tnetstring_stream-encode format_float parse_float floats v
            (dump_of format_float vs) c fits bound in
        let shorter =
          shorter_lem parse_float (encode format_float v ++ dump_of format_float vs) v
            (dump_of format_float vs) read in
        round_lem fuel seen requests (encode format_float v ++ dump_of format_float vs) v
          (dump_of format_float vs) read (omega arith)
        ∙ bind_ext (request_of_value packages urls parse_float v) _ _ (λ found.
          native_loop-dump_of fuel (seen + 1) (requests ++ found) vs d (omega arith) (omega arith))
        ∙ bind_append requests (request_of_value packages urls parse_float v) (requests_of vs)

    -- Importing a dump, which is what Encode writes for each of a list of values, one after the
    -- other, gives the requests of the values in their order, or the error of the first value
    -- that has one, if there are at most 500,000 values, each in the decoder's form and within
    -- its limits, with an encoding no longer than the limit for an element, and the float parser
    -- undoes the float formatter.
    pub import_native-dump_of :
        (vs : List (Value F))
        → All (IsDumped format_float) vs
        → length vs ≤ max_native_flows
        → import_native packages urls parse_float (dump_of format_float vs) ≡ requests_of vs
    unfolding import_native
    import_native-dump_of vs d m =
        native_loop-dump_of (length (dump_of format_float vs)) 0 [] vs d (omega arith) (omega arith)
        ∙ bind_ok (requests_of vs)
