-- ===== src/Timestamp.antt =====
-- timestamp.go: the timestamp extension. A time.Time is what the code asks of it: Unix() and
-- Nanosecond(), so that UTC() changes nothing.
pub mod RoundTrip
pub mod Ext
use msgpck.Base.{
  ℕ, ◌+◌, ◌*◌, ◌/◌, ◌%◌, ◌^◌, ◌<◌, Bool, true, false, ◌&&◌, not, Bytes, [], ◌∷◌, length, ◌==◌, leb,
  drop, bit_or, bit_and, take, Option, none, some, if◌then◌else◌,
}
use msgpck.Base.Words.{ℤ, pos, negsuc, IsInt64, leb_ℤ, to_uint64, to_int64, uint32_at, uint64_at}
use msgpck.Config.{default_config}
use msgpck.Errors.{Error, type_mismatch}
use msgpck.Format.{format_fix_ext4, format_fix_ext8, format_ext8}
use msgpck.Encoder.{Encoder, new_encoder, write_byte, write_uint32, write_uint64}
use msgpck.Decoder.{
  Decoder, Outcome, M, pure, fail, ◌>>=◌, ◌>>◌, read_byte, read_uint8, read_uint32, read_uint64,
  read_int8, read_int64, new_decoder,
}

pub record Time : Type 0 where
  pub sec : ℤ
  pub nsec : ℕ

-- What Go keeps: seconds of int64, and less than a second of nanoseconds.
abbrev pub IsTime : Time → Type 0
IsTime t = IsInt64 t.sec × (t.nsec < 1_000_000_000)

-- time.Unix(sec, nsec) for nanoseconds that are not negative: whole seconds among them are carried
-- over, with int64's wrap-around.
unfoldable pub unix : ℤ → ℕ → Time
unix sec nsec = record {
  sec = to_int64 ((to_uint64 sec + nsec / 1_000_000_000) % 2 ^ 64);
  nsec = nsec % 1_000_000_000;
}

abbrev pub timestamp_ext_type : ℤ
timestamp_ext_type = negsuc 0

abbrev pub is_minus_one : ℤ → Bool
is_minus_one (pos n) = false
is_minus_one (negsuc n) = n == 0

unfoldable pub encode_timestamp : Time → Encoder → Encoder
encode_timestamp t e =
    if (t.nsec == 0) && leb_ℤ (pos 0) t.sec && leb_ℤ t.sec (pos 0xffff_ffff)
    then write_uint32 (to_uint64 t.sec % 2 ^ 32) (write_byte 0xff (write_byte format_fix_ext4 e))
    else if leb_ℤ (pos 0) t.sec && leb_ℤ t.sec (pos 0x3_ffff_ffff)
    then write_uint64 (bit_or (t.nsec * 2 ^ 34 % 2 ^ 64) (to_uint64 t.sec))
        (write_byte 0xff (write_byte format_fix_ext8 e))
    else write_uint64 (to_uint64 t.sec)
        (write_uint32 t.nsec (write_byte 0xff (write_byte 12 (write_byte format_ext8 e))))

unfoldable pub decode_timestamp_data_len : ℕ → M ℕ
decode_timestamp_data_len format =
    if format == format_fix_ext4
    then pure 4
    else if format == format_fix_ext8
    then pure 8
    else if format == format_ext8
    then (do n ← read_uint8; if not (n == 12) then fail type_mismatch else pure 12)
    else fail type_mismatch

unfoldable pub decode_timestamp_value : ℕ → M Time
decode_timestamp_value data_len =
    if data_len == 4
    then (do sec ← read_uint32; pure (unix (pos sec) 0))
    else if data_len == 8
    then (do val ← read_uint64; pure (unix (pos (bit_and val 0x3_ffff_ffff)) (val / 2 ^ 34)))
    else if data_len == 12
    then (do nsec ← read_uint32; sec ← read_int64; pure (unix sec nsec))
    else fail type_mismatch

unfoldable pub decode_timestamp : M Time
decode_timestamp = do
  format ← read_byte
  data_len ← decode_timestamp_data_len format
  ext_type ← read_int8
  if not (is_minus_one ext_type) then fail type_mismatch else decode_timestamp_value data_len

-- An Encoder from the pool, after Reset; its capacity does not show.
unfoldable pub marshal_timestamp : Time → Bytes
marshal_timestamp t = (encode_timestamp t (new_encoder 0)).buf

-- A Decoder from the pool, after Reset: the pool's decoders have the default configuration.
unfoldable pub unmarshal_timestamp : Bytes → Outcome Time
unmarshal_timestamp bs = decode_timestamp (new_decoder bs)

-- What ExtToTimestamp returns: no result is a slice of the data out of bounds.
pub data Converted : Type 0 where
  converted : Time → Converted
  failed : Error → Converted
  out_of_bounds : Converted

abbrev with_word : Option ℕ → (ℕ → Converted) → Converted
with_word none f = out_of_bounds
with_word (some w) f = f w

unfoldable pub is_timestamp : ℤ → Bool
is_timestamp ext_type = is_minus_one ext_type

unfoldable pub ext_to_timestamp : ℤ → Bytes → Converted
ext_to_timestamp ext_type bs =
    if not (is_minus_one ext_type)
    then failed type_mismatch
    else if length bs == 4
    then with_word (uint32_at bs) (λ sec. converted (unix (pos sec) 0))
    else if length bs == 8
    then with_word (uint64_at bs)
        (λ val. converted (unix (pos (bit_and val 0x3_ffff_ffff)) (val / 2 ^ 34)))
    else if length bs == 12
    then with_word (uint32_at (take 4 bs))
        (λ nsec. with_word (uint64_at (drop 4 bs)) (λ sec. converted (unix (to_int64 sec) nsec)))
    else failed type_mismatch
