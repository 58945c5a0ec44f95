-- ===== src/Decoder/Dispatch.antt =====
-- Which branch of decodeValue a fix format takes, by the ranges of its format bytes.
use msgpck.Base.{ℕ, ◌+◌, ◌-◌, ◌≤◌, ◌<◌, ◌≡◌, arith, lt→ltb}
use msgpck.Base.Words.{negsuc, to_int8}
use msgpck.Format.Ranges.{
  is_positive_fixint-range, is_negative_fixint-range, is_fixmap-range, is_fixarray-range,
  is_fixstr-range, fixmap_len-mod, fixarray_len-mod, fixstr_len-mod,
}
use msgpck.Value.{Value, int, uint}
use msgpck.Decoder.{M, pure}
use msgpck.Decoder.Values.{
  decode_value_with, decode_format, decode_map, decode_array, decode_string,
}

module _ (below : ℕ → M Value) (n : ℕ) where
  pub dispatch_pos : n < 128 → decode_value_with below n ≡ pure (uint n)
  unfolding decode_value_with
  dispatch_pos h = rw (is_positive_fixint-range n (omega arith), lt→ltb n 128 h)

  pub dispatch_neg : n < 32 → decode_value_with below (0xff - n) ≡ pure (int (negsuc n))
  unfolding decode_value_with to_int8
  dispatch_neg h =
      ground (arith, is_positive_fixint-range (0xff - n), is_negative_fixint-range (0xff - n))

  pub dispatch_map : n < 16 → decode_value_with below (0x80 + n) ≡ decode_map below n
  unfolding decode_value_with
  dispatch_map h = ground (
    arith,
    is_positive_fixint-range (0x80 + n),
    is_negative_fixint-range (0x80 + n),
    is_fixmap-range (0x80 + n),
    fixmap_len-mod (0x80 + n),
  )

  pub dispatch_array : n < 16 → decode_value_with below (0x90 + n) ≡ decode_array below n
  unfolding decode_value_with
  dispatch_array h = ground (
    arith,
    is_positive_fixint-range (0x90 + n),
    is_negative_fixint-range (0x90 + n),
    is_fixmap-range (0x90 + n),
    is_fixarray-range (0x90 + n),
    fixarray_len-mod (0x90 + n),
  )

  pub dispatch_string : n < 32 → decode_value_with below (0xa0 + n) ≡ decode_string n
  unfolding decode_value_with
  dispatch_string h = ground (
    arith,
    is_positive_fixint-range (0xa0 + n),
    is_negative_fixint-range (0xa0 + n),
    is_fixmap-range (0xa0 + n),
    is_fixarray-range (0xa0 + n),
    is_fixstr-range (0xa0 + n),
    fixstr_len-mod (0xa0 + n),
  )

  -- The other format bytes reach the switch.
  pub dispatch_format : 0xc0 ≤ n → n < 0xe0 → decode_value_with below n ≡ decode_format below n
  unfolding decode_value_with
  dispatch_format lo hi = ground (
    arith,
    is_positive_fixint-range n,
    is_negative_fixint-range n,
    is_fixmap-range n,
    is_fixarray-range n,
    is_fixstr-range n,
  )
