-- ===== src/Decoder/Integers/Agree.antt =====
-- The copies of the reader of integers.
use msgpck.Base.{ℕ, ◌≡◌, refl, arith}
use msgpck.Decoder.Integers.{decode_int, decode_value_int, int_value_switch}

-- The switches of decodeValueInt and decodeIntValue do what decodeInt does, on every format byte and
-- from every state, whatever order they ask for the formats in.
pub decode_int_agree :
    (format : ℕ)
    → (decode_value_int format ≡ decode_int format) × (int_value_switch format ≡ decode_int format)
decode_int_agree format = (same, reordered)
  where
    same : decode_value_int format ≡ decode_int format
    same = unfold decode_value_int decode_int in refl

    reordered : int_value_switch format ≡ decode_int format
    reordered = unfold int_value_switch decode_int in ground arith
