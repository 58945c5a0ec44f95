-- ===== src/Struct/Calm.antt =====
-- The readers of scalars, slices and maps of struct fields are safe on every input.
use msgpck.Base.{ℕ, zero, suc, ◌+◌, arith}
use mathlib.Core.Path.{subst₂}
use msgpck.Config.{Config}
use msgpck.Any.{Any}
use msgpck.Decoder.{
  M, ◌>>=◌, read_byte, read_uint8, read_int8, read_int16, read_int32, read_int64, read_float32,
  read_float64, remaining,
}
use msgpck.Decoder.Values.{decode}
use msgpck.Decoder.Integers.{decode_int as read_int, decode_uint as read_uint}
use msgpck.Decoder.Floats.{decode_float as read_float}
use msgpck.Decoder.Arrays.{decode_list}
use msgpck.Decoder.Typed.{typed_any, typed_any_value}
use msgpck.Decoder.Typed.Safety.{Calm-typed_any_value, Calm-entries}
use msgpck.Decoder.Contract.{Meets, Ensures, Good, Failed}
use msgpck.Decoder.Contract.Parts.{Decoded}
use msgpck.Decoder.Contract.Whole.{decode-Ensures}
use msgpck.Decoder.Contract.Calm.{
  Calm, Calm-of, Calm-pure, Calm-bind, Calm-byte, Calm-byte_then, Calm-read_string, calm, parts,
}
use msgpck.Decoder.Contract.After.{After, Calm-byte_back, After-kept, After-unread}
use msgpck.Value.Size.{size}
use msgpck.Struct.Kinds.{
  ScalarKind, k_string, k_int, k_int64, k_int32, k_int16, k_int8, k_uint, k_uint64, k_uint32,
  k_uint16, k_uint8, k_float64, k_float32, k_bool, Table, NestedKind, n_bytes, n_string, n_int64,
  n_any,
}
use msgpck.Struct.Scalars.{
  decode_int, decode_uint, decode_float, string_len, decode_string, bytes_len, decode_bytes,
  decode_bool, decode_scalar,
}
use msgpck.Struct.Slices.{decode_slice}
use msgpck.Struct.Maps.{
  put_entry, set_map_index, read_inner, read_entries, decode_map_string, decode_map_string_any,
  nested_map_value, decode_nested_map_value, decode_inner_map, decode_nested_map,
}

module _ {c : Config} {k n : ℕ} where
  Meets-decode : Meets c k n size (Decoded c k) decode
  Meets-decode = record {
    run = λ d v hc hk r.
        subst₂ (λ c' k'. Ensures (Good size (Decoded c' k') d) (Failed d) (decode d)) hc hk
          (decode-Ensures d v);
  }

  pub Calm-decode : Calm c k n decode
  Calm-decode = Calm-of decode Meets-decode

  pub Calm-typed_any : Calm c k n typed_any
  unfolding typed_any
  Calm-typed_any = record {
    run = λ d v hc hk r.
        (Calm-byte_then (typed_any_value (remaining d + 1))
            (λ b _. Calm-typed_any_value c k (remaining d + 1) b)).run
          d v hc hk (omega arith);
  }

  pub Calm-int : (f : ℕ) → Calm c k n (decode_int f)
  unfolding decode_int read_uint8 read_int8 read_int16 read_int32 read_int64
  Calm-int f = search calm depth 24

  pub Calm-uint : (f : ℕ) → Calm c k n (decode_uint f)
  unfolding decode_uint read_uint8
  Calm-uint f = search calm depth 24

  pub Calm-float : (f : ℕ) → Calm c k n (decode_float f)
  unfolding decode_float read_uint8 read_int8 read_int16 read_int32 read_int64 read_float32
      read_float64
  Calm-float f = search calm depth 24

  pub Calm-reads_int : (f : ℕ) → Calm c k n (read_int f)
  unfolding read_int read_uint8 read_int8 read_int16 read_int32 read_int64
  Calm-reads_int f = search calm depth 24

  pub Calm-reads_uint : (f : ℕ) → Calm c k n (read_uint f)
  unfolding read_uint read_uint8 read_int8 read_int16 read_int32 read_int64
  Calm-reads_uint f = search calm depth 24

  pub Calm-reads_float : (f : ℕ) → Calm c k n (read_float f)
  unfolding read_float read_uint8 read_int8 read_int16 read_int32 read_int64 read_float32
      read_float64
  Calm-reads_float f = search calm depth 24

  Calm-string_length : (f : ℕ) → Calm c k n (string_len f)
  unfolding string_len read_uint8
  Calm-string_length f = search calm depth 14

  Calm-bytes_length : (f : ℕ) → Calm c k n (bytes_len f)
  unfolding bytes_len read_uint8
  Calm-bytes_length f = search calm depth 14

  pub Calm-string : (f : ℕ) → Calm c k n (decode_string f)
  unfolding decode_string
  Calm-string f = search (parts, Calm-string_length)

  pub Calm-byte_slice : (f : ℕ) → Calm c k n (decode_bytes f)
  unfolding decode_bytes
  Calm-byte_slice f = search (parts, Calm-bytes_length)

  pub Calm-bool : (f : ℕ) → Calm c k n (decode_bool f)
  unfolding decode_bool
  Calm-bool f = search calm depth 14

  pub ruleset readers = (
    Calm-int, Calm-uint, Calm-float, Calm-reads_int, Calm-reads_uint, Calm-reads_float, Calm-string,
    Calm-byte_slice, Calm-bool,
  )

  pub Calm-scalar : (kind : ScalarKind) (f : ℕ) → Calm c k n (decode_scalar kind f)
  unfolding decode_scalar
  Calm-scalar k_string f = search (calm, readers)
  Calm-scalar k_int f = search (calm, readers)
  Calm-scalar k_int64 f = search (calm, readers)
  Calm-scalar k_int32 f = search (calm, readers)
  Calm-scalar k_int16 f = search (calm, readers)
  Calm-scalar k_int8 f = search (calm, readers)
  Calm-scalar k_uint f = search (calm, readers)
  Calm-scalar k_uint64 f = search (calm, readers)
  Calm-scalar k_uint32 f = search (calm, readers)
  Calm-scalar k_uint16 f = search (calm, readers)
  Calm-scalar k_uint8 f = search (calm, readers)
  Calm-scalar k_float64 f = search (calm, readers)
  Calm-scalar k_float32 f = search (calm, readers)
  Calm-scalar k_bool f = search (calm, readers)

  module _ {A : Type 0} where
    Calm-list : (m : M A) → Calm c k n m → (l : ℕ) → Calm c k n (decode_list m l)
    unfolding decode_list
    Calm-list m h zero = Calm-pure _
    Calm-list m h (suc l) = Calm-bind _ _ h λ v. Calm-bind _ _ (Calm-list m h l) λ vs. Calm-pure _

    pub Calm-slice :
        (elem : ℕ → M A)
        → ((f : ℕ) → Calm c k n (elem f))
        → (f : ℕ) → Calm c k n (decode_slice elem f)
    unfolding decode_slice
    Calm-slice elem h f =
        search (parts, Calm-list (do f' ← read_byte; elem f') (Calm-bind _ _ Calm-byte h))

    Calm-read_entries :
        (value : M A)
        → Calm c k n value
        → (l : ℕ) (m : Table A) → Calm c k n (read_entries value l m)
    unfolding read_entries
    Calm-read_entries value h zero m = Calm-pure m
    Calm-read_entries value h (suc l) m =
        Calm-bind _ _ Calm-read_string
          λ key. Calm-bind _ _ h λ v. Calm-read_entries value h l (put_entry key v m)

    pub Calm-map_string :
        (value : M A) → Calm c k n value → (f : ℕ) → Calm c k n (decode_map_string value f)
    unfolding decode_map_string
    Calm-map_string value h f = search (parts, Calm-read_entries value h)

  pub Calm-map_any : (f : ℕ) → Calm c k n (decode_map_string_any f)
  unfolding decode_map_string_any
  Calm-map_any f = search (parts, Calm-entries typed_any Calm-typed_any)

  After-map_value : (kind : NestedKind) (f : ℕ) → After c k n (nested_map_value kind f)
  unfolding nested_map_value
  After-map_value n_bytes f = After-kept _ (Calm-bind _ _ (Calm-byte_slice f) λ b. Calm-pure _)
  After-map_value n_string f = After-kept _ (Calm-bind _ _ (Calm-string f) λ s. Calm-pure _)
  After-map_value n_int64 f = After-kept _ (Calm-bind _ _ (Calm-reads_int f) λ v. Calm-pure _)
  After-map_value n_any f = After-unread typed_any Calm-typed_any

  Calm-map_value : (kind : NestedKind) → Calm c k n (decode_nested_map_value kind)
  unfolding decode_nested_map_value
  Calm-map_value kind = Calm-byte_back _ (After-map_value kind)

  Calm-read_inner :
      (value : M Any)
      → Calm c k n value
      → (l : ℕ) (m : Table Any) → Calm c k n (read_inner value l m)
  unfolding read_inner
  Calm-read_inner value h zero m = Calm-pure m
  Calm-read_inner value h (suc l) m =
      Calm-bind _ _ Calm-read_string
        λ key. Calm-bind _ _ h λ v. Calm-read_inner value h l (set_map_index key v m)

  Calm-inner_map : (kind : NestedKind) → Calm c k n (decode_inner_map kind)
  unfolding decode_inner_map
  Calm-inner_map kind =
      search (parts, Calm-read_inner (decode_nested_map_value kind) (Calm-map_value kind))

  pub Calm-nested_map : (kind : NestedKind) (f : ℕ) → Calm c k n (decode_nested_map kind f)
  unfolding decode_nested_map
  Calm-nested_map kind f = Calm-map_string _ (Calm-inner_map kind) f
