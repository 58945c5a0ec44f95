-- ===== src/Decoder/RoundTrip.antt =====
-- The decoder gives back what the encoder wrote, wherever it stands in the input.
use native.Mathlib.Numerals.{add-one}
use msgpck.Base.{
  ℕ, zero, suc, ◌+◌, ◌≤◌, ◌≡◌, refl, ap, ◌∙◌, Bytes, ◌++◌, arith, length, drop, length-append,
  append_assoc, drop-append,
}
use msgpck.Base.Words.{pos, negsuc}
use msgpck.Config.{Config}
use msgpck.Value.{
  Value, Values, Kvs, nil, bool, int, uint, float32, float64, string, binary, array, map, ext,
  no_values, elem, no_kvs, kv, values_len, kvs_len,
}
use msgpck.Encoder.{Encoder, encode_value}
use msgpck.Encoder.Wire.{wire, wire_values, wire_kvs, string_header, int_bytes}
use msgpck.Encoder.Wire.Sizes.{
  length-wire, length-wire_values, length-wire_kvs, length-array_header, length-map_header,
}
use msgpck.Encoder.Refines.{IsSized, AllSized, KvsSized, buf-encode_value}
use msgpck.Decoder.{Decoder, ok, remaining, M, pure, ◌>>=◌, advance}
use msgpck.Decoder.Values.{
  decode_inside, decode_value, decode, decode_elems, decode_pairs, decode_map_key,
}
use msgpck.Decoder.Canonical.{canonical, canonical_values, canonical_kvs, Fits, AllFit, KvsFit}
use msgpck.Decoder.Reads.{Reads, Reads-pure, Reads-bind, left-length}
use msgpck.Decoder.Scalars.{Reads-map}
use msgpck.Decoder.Scalars.Numbers.{
  Reads-nil, Reads-bool, Reads-uint, Reads-negative, Reads-float32, Reads-float64,
}
use msgpck.Decoder.Scalars.Texts.{Reads-string, Reads-binary, Reads-ext}
use msgpck.Decoder.Containers.{Reads-map_key, Reads-array, Reads-pairs}

length-append_bytes : (xs ys : Bytes) → length (xs ++ ys) ≡ length xs + length ys
length-append_bytes = length-append

ruleset sizes = (arith, length-append_bytes)

-- One element, or one pair, and the others.
module _ {c : Config} {k : ℕ} (below : ℕ → M Value) where
  Reads-elem :
      (bs cs : Bytes) (v : Value) (n : ℕ) (vs : Values)
      → Reads c k (decode_inside below) bs v
      → Reads c k (decode_elems below n) cs vs
      → Reads c k (decode_elems below (suc n)) (bs ++ cs) (elem v vs)
  unfolding decode_elems
  Reads-elem bs cs v n vs r s =
      Reads-bind (decode_inside below) (λ v. decode_elems below n >>= λ vs. pure (elem v vs)) bs cs
        v _ r (Reads-map (decode_elems below n) (elem v) cs vs s)

  Reads-pair :
      (ks bs cs key : Bytes) (v : Value) (n : ℕ) (kvs : Kvs)
      → Reads c k (decode_map_key below) ks key
      → Reads c k (decode_inside below) bs v
      → Reads c k (decode_pairs below n) cs kvs
      → Reads c k (decode_pairs below (suc n)) (ks ++ (bs ++ cs)) (kv key v kvs)
  unfolding decode_pairs
  Reads-pair ks bs cs key v n kvs p r s =
      Reads-bind (decode_map_key below) _ ks (bs ++ cs) key _ p (
        Reads-bind (decode_inside below) (λ v. decode_pairs below n >>= λ kvs. pure (kv key v kvs))
          bs cs v _ r (Reads-map (decode_pairs below n) (kv key v) cs kvs s))

-- By induction on the value; each level of nesting takes a byte at least, and one unit of fuel.
mutual
  unfolding wire canonical Fits IsSized decode_value decode_elems decode_pairs int_bytes

  Reads-wire_lem :
      (v : Value) (f k : ℕ) (c : Config)
      → IsSized v
      → Fits c k v
      → length (wire v) ≤ suc f
      → Reads c k (decode_inside (decode_value (suc f))) (wire v) (canonical v)
  Reads-wire_lem nil f k c s h l = Reads-nil (decode_value f)
  Reads-wire_lem (bool b) f k c s h l = Reads-bool (decode_value f) b
  Reads-wire_lem (int (pos n)) f k c s h l = Reads-uint (decode_value f) n (omega arith)
  Reads-wire_lem (int (negsuc n)) f k c s h l = Reads-negative (decode_value f) n s
  Reads-wire_lem (uint v) f k c s h l = Reads-uint (decode_value f) v s
  Reads-wire_lem (float32 v) f k c s h l = Reads-float32 (decode_value f) v s
  Reads-wire_lem (float64 v) f k c s h l = Reads-float64 (decode_value f) v s
  Reads-wire_lem (string bs) f k c s h l = Reads-string (decode_value f) bs s h
  Reads-wire_lem (binary bs) f k c s h l = Reads-binary (decode_value f) bs s h
  Reads-wire_lem (array vs) f k c (n, s) (h, deep, hs) l =
      Reads-array (decode_value f) (values_len vs) (wire_values vs) (canonical_values vs) n h deep
        (length-wire_values vs)
        (Reads-values_lem vs f (k + 1) c s hs (omega (sizes, length-array_header (values_len vs))))
  Reads-wire_lem (map kvs) f k c (n, s) (h, deep, hs) l =
      Reads-pairs (decode_value f) (kvs_len kvs) (wire_kvs kvs) (canonical_kvs kvs) n h deep
        (length-wire_kvs kvs)
        (Reads-kvs_lem kvs f (k + 1) c s hs (omega (sizes, length-map_header (kvs_len kvs))))
  Reads-wire_lem (ext t bs) f k c (ht, s) h l = Reads-ext (decode_value f) t bs ht s h

  Reads-values_lem :
      (vs : Values) (f k : ℕ) (c : Config)
      → AllSized vs
      → AllFit c k vs
      → length (wire_values vs) ≤ f
      → Reads c k
          (decode_elems (decode_value f) (values_len vs))
          (wire_values vs)
          (canonical_values vs)
  Reads-values_lem no_values f k c s h l = Reads-pure no_values
  Reads-values_lem (elem v vs) zero k c s h l = absurd (omega (sizes, length-wire v))
  Reads-values_lem (elem v vs) (suc f) k c (s, ss) (h, hs) l =
      Reads-elem (decode_value (suc f)) (wire v) (wire_values vs) (canonical v) (values_len vs)
        (canonical_values vs) (Reads-wire_lem v f k c s h (omega sizes))
        (Reads-values_lem vs (suc f) k c ss hs (omega sizes))

  Reads-kvs_lem :
      (kvs : Kvs) (f k : ℕ) (c : Config)
      → KvsSized kvs
      → KvsFit c k kvs
      → length (wire_kvs kvs) ≤ f
      → Reads c k (decode_pairs (decode_value f) (kvs_len kvs)) (wire_kvs kvs) (canonical_kvs kvs)
  Reads-kvs_lem no_kvs f k c s h l = Reads-pure no_kvs
  Reads-kvs_lem (kv key v kvs) zero k c s h l = absurd (omega (sizes, length-wire v))
  Reads-kvs_lem (kv key v kvs) (suc f) k c (sk, s, ss) (hk, h, hs) l =
      Reads-pair (decode_value (suc f)) (string_header (length key) ++ key) (wire v) (wire_kvs kvs)
        key (canonical v) (kvs_len kvs) (canonical_kvs kvs)
        (Reads-map_key (decode_value (suc f)) key sk hk) (Reads-wire_lem v f k c s h (omega sizes))
        (Reads-kvs_lem kvs (suc f) k c ss hs (omega sizes))

-- Decode on an input that holds the MessagePack form of a value at the position.
pub decode-wire :
    (v : Value) (d : Decoder) (rest : Bytes)
    → IsSized v
    → Fits d.cfg d.depth v
    → d.pos ≤ length d.input
    → drop d.pos d.input ≡ wire v ++ rest
    → decode d ≡ ok (canonical v) (advance (length (wire v)) d)
unfolding decode
decode-wire v d rest s h hp e = rw add-one (
    (Reads-wire_lem v (remaining d) d.depth d.cfg s h
        (omega (arith, left-length d (wire v) rest hp e))).run
      d rest refl refl hp e)

-- Decode, from where EncodeValue began to write, returns the canonical form of the value and stops
-- where EncodeValue stopped, whatever stands before and behind: if the value is one that Go's types
-- and the length prefixes can hold, and its lengths and its depth are within the decoder's limits.
pub decode-encode_value :
    (v : Value) (e : Encoder) (rest : Bytes) (c : Config) (k : ℕ)
    → IsSized v
    → Fits c k v
    → decode
        (record { input = (encode_value v e).buf ++ rest; pos = length e.buf; cfg = c; depth = k })
      ≡ ok (canonical v) (record {
        input = (encode_value v e).buf ++ rest;
        pos = length (encode_value v e).buf;
        cfg = c;
        depth = k;
      })
decode-encode_value v e rest c k s h =
    decode-wire v start rest s h within at_value
    ∙ ap (λ (n : ℕ). ok (canonical v) (record start { pos = n })) there
  where
    start : Decoder
    start = record {
      input = (encode_value v e).buf ++ rest;
      pos = length e.buf;
      cfg = c;
      depth = k;
    }

    written : (encode_value v e).buf ++ rest ≡ e.buf ++ (wire v ++ rest)
    written = rw (buf-encode_value v e s) (append_assoc e.buf (wire v) rest)

    within : length e.buf ≤ length ((encode_value v e).buf ++ rest)
    within = rw written (omega sizes)

    at_value : drop (length e.buf) ((encode_value v e).buf ++ rest) ≡ wire v ++ rest
    at_value = rw written (drop-append e.buf (wire v ++ rest) (length e.buf) refl)

    there : length e.buf + length (wire v) ≡ length (encode_value v e).buf
    there = rw (buf-encode_value v e s) (omega sizes)
