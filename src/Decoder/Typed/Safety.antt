-- ===== src/Decoder/Typed/Safety.antt =====
-- The typed readers are safe on every input, though they put no limit on the nesting.
use msgpck.Base.{ℕ, zero, suc, ◌+◌, ◌≤◌, ◌≡◌, ◌≢◌, refl, arith, length}
use msgpck.Config.{Config}
use msgpck.Any.{Any, Entries, item}
use msgpck.Decoder.{
  Decoder, ok, panic, stuck, M, ◌>>=◌, read_byte, read_uint8, read_int8, read_int16, read_int32,
  read_int64, read_float32, read_float64, remaining,
}
use msgpck.Decoder.Typed.{
  decode_any_uint, decode_any_int, decode_string_with_len, decode_binary_with_len, decode_any_str,
  decode_any_bin, items_with_len, decode_array_any_with_len, entries_with_len,
  decode_map_string_any_with_len, decode_any_array, decode_any_map, typed_texts, typed_format,
  typed_value, typed_any_value, typed_any,
}
use msgpck.Decoder.Contract.{
  IsValid, Good, Failed, Ensures, Ensures-ok, Ensures-panic, Ensures-stuck,
}
use msgpck.Decoder.Contract.Calm.{
  Calm, Calm-pure, Calm-bind, Calm-byte_then, Calm-read_string, calm, parts,
}

module _ {c : Config} {k n : ℕ} where
  Calm-any_uint : (f : ℕ) → Calm c k n (decode_any_uint f)
  unfolding decode_any_uint read_uint8
  Calm-any_uint f = search calm depth 12

  Calm-any_int : (f : ℕ) → Calm c k n (decode_any_int f)
  unfolding decode_any_int read_int8 read_int16 read_int32 read_int64
  Calm-any_int f = search calm depth 12

  Calm-string : (l : ℕ) → Calm c k n (decode_string_with_len l)
  unfolding decode_string_with_len
  Calm-string l = search parts

  Calm-binary : (l : ℕ) → Calm c k n (decode_binary_with_len l)
  unfolding decode_binary_with_len
  Calm-binary l = search parts

  module _ (inside : M Any) (h : Calm c k n inside) where
    Calm-items : (l : ℕ) → Calm c k n (items_with_len inside l)
    unfolding items_with_len
    Calm-items zero = Calm-pure _
    Calm-items (suc l) =
        Calm-bind _ _ h λ v. Calm-bind _ _ (Calm-items l) λ vs. Calm-pure (item v vs)

    pub Calm-entries : (l : ℕ) (m : Entries) → Calm c k n (entries_with_len inside l m)
    unfolding entries_with_len
    Calm-entries zero m = Calm-pure _
    Calm-entries (suc l) m = search (calm, Calm-read_string, Calm-entries l)

    Calm-array : (l : ℕ) → Calm c k n (decode_array_any_with_len inside l)
    unfolding decode_array_any_with_len
    Calm-array l = search (parts, Calm-items)

    Calm-map : (l : ℕ) → Calm c k n (decode_map_string_any_with_len inside l)
    unfolding decode_map_string_any_with_len
    Calm-map l = search (parts, Calm-entries)

    Calm-texts : (f : ℕ) → Calm c k n (typed_texts inside f)
    unfolding typed_texts decode_any_str decode_any_bin decode_any_array decode_any_map
    Calm-texts f = search (parts, Calm-string, Calm-binary, Calm-array, Calm-map) depth 14

    Calm-format : (f : ℕ) → Calm c k n (typed_format inside f)
    unfolding typed_format read_float32 read_float64
    Calm-format f = search (calm, Calm-any_uint, Calm-any_int, Calm-texts) depth 14

    Calm-value : (f : ℕ) → Calm c k n (typed_value inside f)
    unfolding typed_value
    Calm-value f = search (calm, Calm-string, Calm-array, Calm-map, Calm-format) depth 14

pub Calm-typed_any_value : (c : Config) (k fuel f : ℕ) → Calm c k fuel (typed_any_value fuel f)
unfolding typed_any_value
Calm-typed_any_value c k zero f = record { run = λ d v hc hk r. absurd (omega arith) }
Calm-typed_any_value c k (suc fuel) f =
    Calm-value (read_byte >>= typed_any_value fuel)
      (Calm-byte_then (typed_any_value fuel) (λ b _. Calm-typed_any_value c k fuel b)) f

-- On any bytes, from any position within them, decodeAnyValue of typed_decode.go ends without an index
-- or a slice out of bounds; where it returns, it has kept the input, the configuration and the depth
-- and stopped within the input, not before it began.
pub typed_any_total :
    (d : Decoder)
    → IsValid d
    → (typed_any d ≢ panic)
      × (typed_any d ≢ stuck)
      × ((a : Any) (d' : Decoder)
          → typed_any d ≡ ok a d'
          → (d'.input ≡ d.input)
            × (d'.cfg ≡ d.cfg)
            × (d'.depth ≡ d.depth)
            × (d.pos ≤ d'.pos)
            × (d'.pos ≤ length d.input))
unfolding typed_any
typed_any_total d v =
    let all : Ensures (Good (λ _. 0) (λ _. Unit) d) (Failed d) (typed_any d) =
      (Calm-byte_then (typed_any_value (remaining d + 1))
          (λ b _. Calm-typed_any_value d.cfg d.depth (remaining d + 1) b)).run
        d v refl refl (omega arith) in
    (
      Ensures-panic all,
      Ensures-stuck all,
      λ a d' e.
          let g = Ensures-ok all e in
          (g.same_input, g.same_cfg, g.same_depth, omega (arith, g.taken), g.inside),
    )
