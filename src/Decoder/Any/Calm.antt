-- ===== src/Decoder/Any/Calm.antt =====
-- DecodeAny is safe on every input, and keeps what a method keeps: by induction on the fuel.
use msgpck.Base.{ℕ, zero, suc, ◌+◌, arith}
use msgpck.Config.{Config}
use msgpck.Any.{Any, Entries, item, put}
use msgpck.Decoder.{
  M, read_uint8, read_int8, read_int16, read_int32, read_int64, read_float32, read_float64,
  remaining,
}
use msgpck.Decoder.Any.{
  decode_any_uint_value, decode_any_int_value, decode_string_any, decode_binary_any, any_inside,
  any_elems, decode_array_any, any_key, any_pairs, decode_map_any, any_texts, any_format,
  decode_any_value_with, decode_any_value, decode_any,
}
use msgpck.Decoder.Contract.Calm.{Calm, Calm-pure, Calm-bind, Calm-byte_then, calm, parts}
use msgpck.Decoder.Contract.Try.{Calm-try, Calm-container, Level-string_len}

module _ {c : Config} {n : ℕ} where
  module _ {k : ℕ} where
    Calm-uint : (f : ℕ) → Calm c k n (decode_any_uint_value f)
    unfolding decode_any_uint_value read_uint8
    Calm-uint f = search calm depth 12

    Calm-int : (f : ℕ) → Calm c k n (decode_any_int_value f)
    unfolding decode_any_int_value read_int8 read_int16 read_int32 read_int64
    Calm-int f = search calm depth 12

    Calm-string : (l : ℕ) → Calm c k n (decode_string_any l)
    unfolding decode_string_any
    Calm-string l = search parts

    Calm-binary : (l : ℕ) → Calm c k n (decode_binary_any l)
    unfolding decode_binary_any
    Calm-binary l = search parts

    Calm-key : (below : ℕ → M Any) → Calm c k n (any_key below)
    unfolding any_key
    Calm-key below =
        Calm-bind _ _ (search calm)
          λ f. Calm-try _ _ _ (Level-string_len f) (search parts) Calm-string (λ e. search calm)

  module _ (below : ℕ → M Any) (b : (k : ℕ) → Calm c k n (any_inside below)) where
    Calm-elems : (k l : ℕ) → Calm c k n (any_elems below l)
    unfolding any_elems
    Calm-elems k zero = Calm-pure _
    Calm-elems k (suc l) =
        Calm-bind _ _ (b k) λ v. Calm-bind _ _ (Calm-elems k l) λ vs. Calm-pure (item v vs)

    Calm-pairs : (k l : ℕ) (m : Entries) → Calm c k n (any_pairs below l m)
    unfolding any_pairs
    Calm-pairs k zero m = Calm-pure _
    Calm-pairs k (suc l) m =
        Calm-bind _ _ (Calm-key below) λ key. Calm-bind _ _ (b k) λ v. Calm-pairs k l (put key v m)

    Calm-array : (k l : ℕ) → Calm c k n (decode_array_any below l)
    unfolding decode_array_any
    Calm-array k l = search (parts, Calm-container, Calm-elems)

    Calm-map : (k l : ℕ) → Calm c k n (decode_map_any below l)
    unfolding decode_map_any
    Calm-map k l = search (parts, Calm-container, Calm-pairs)

    Calm-texts : (k f : ℕ) → Calm c k n (any_texts below f)
    unfolding any_texts
    Calm-texts k f = search (parts, Calm-string, Calm-binary, Calm-array, Calm-map) depth 14

    Calm-format : (k f : ℕ) → Calm c k n (any_format below f)
    unfolding any_format read_float32 read_float64
    Calm-format k f = search (calm, Calm-uint, Calm-int, Calm-texts) depth 14

    Calm-value_with : (k f : ℕ) → Calm c k n (decode_any_value_with below f)
    unfolding decode_any_value_with
    Calm-value_with k f = search (calm, Calm-string, Calm-array, Calm-map, Calm-format) depth 14

Calm-value : (c : Config) (k fuel f : ℕ) → Calm c k fuel (decode_any_value fuel f)
unfolding decode_any_value any_inside
Calm-value c k zero f = record { run = λ d v hc hk r. absurd (omega arith) }
Calm-value c k (suc fuel) f =
    Calm-value_with (decode_any_value fuel)
      (λ j. Calm-byte_then (decode_any_value fuel) (λ b _. Calm-value c j fuel b)) k f

pub Calm-decode_any : {c : Config} {k n : ℕ} → Calm c k n decode_any
unfolding decode_any any_inside
Calm-decode_any {c} {k} = record {
  run = λ d v hc hk r.
      (Calm-byte_then (decode_any_value (remaining d + 1))
          (λ b _. Calm-value c k (remaining d + 1) b)).run
        d v hc hk (omega arith);
}
