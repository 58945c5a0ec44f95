-- ===== src/Timestamp/RoundTrip.antt =====
-- The three forms of a timestamp, and the decoder on what the encoder wrote.
use msgpck.Base.{
  ℕ, ◌+◌, ◌*◌, ◌-◌, ◌/◌, ◌%◌, ◌^◌, ◌<◌, ◌≡◌, refl, ◌∙◌, true, ◌&&◌, Bytes, [], ◌∷◌, ◌++◌, arith,
  length, leb, leb→le, ◌==◌, append_assoc, append-nil, bit_and, if◌then◌else◌,
}
use msgpck.Base.Words.{
  ℤ, pos, negsuc, IsInt64, be32, be64, to_uint64, to_int64, to_int8, to_int64-to_uint64,
  to_uint64-lt,
}
use msgpck.Base.Bits.Fields.{bit_or_34, bit_and_34}
use msgpck.Config.{Config, default_config}
use msgpck.Encoder.{Encoder, new_encoder, write_byte, write_uint32, write_uint64}
use msgpck.Encoder.Appends.{buf-write_byte, buf-write_uint64, buf-byte_uint32, buf-byte_uint64}
use msgpck.Decoder.{
  new_decoder, ok, pure, ◌>>=◌, read_byte, read_int8, read_uint8, read_uint32, read_uint64,
  read_int64,
}
use msgpck.Decoder.Scalars.{Reads-map, Reads-map_to}
use msgpck.Decoder.Scalars.Numbers.{neg64}
use msgpck.Decoder.Reads.{
  Reads, Reads-pure, Reads-if, Reads-bind, Reads-byte, Reads-uint32, Reads-uint64,
}
use msgpck.Decoder.Written.{Reads-appended}
use msgpck.Timestamp.{
  marshal_timestamp, unmarshal_timestamp, Time, IsTime, unix, encode_timestamp, decode_timestamp,
  decode_timestamp_data_len, decode_timestamp_value,
}

-- The bytes by the specification: seconds in 32 bits where there are no nanoseconds and they fit,
-- else nanoseconds and seconds in 30 and 34 bits where they fit, else in 32 and 64.
unfoldable pub long_form : ℕ → ℕ → Bytes
long_form nsec sec = 0xc7 ∷ 12 ∷ 0xff ∷ (be32 nsec ++ be64 sec)

unfoldable pub timestamp_bytes : ℤ → ℕ → Bytes
timestamp_bytes (pos s) nsec =
    if (nsec == 0) && leb s 0xffff_ffff
    then 0xd6 ∷ 0xff ∷ be32 s
    else if leb s 0x3_ffff_ffff
    then 0xd7 ∷ 0xff ∷ be64 (nsec * 2 ^ 34 + s)
    else long_form nsec s
timestamp_bytes (negsuc n) nsec = long_form nsec (2 ^ 64 - 1 - n)

pub unix-normal :
    (sec : ℤ) (nsec : ℕ)
    → IsInt64 sec
    → nsec < 1_000_000_000
    → unix sec nsec ≡ record { sec = sec; nsec = nsec }
unfolding unix
unix-normal sec nsec h lt = rw (no_carry, to_int64-to_uint64 sec h, small) refl
  where
    no_carry : (to_uint64 sec + nsec / 1_000_000_000) % 2 ^ 64 ≡ to_uint64 sec
    no_carry = omega (arith, to_uint64-lt sec)

    small : nsec % 1_000_000_000 ≡ nsec
    small = omega arith

pub int64_word : (n : ℕ) → n < 2 ^ 63 → to_int64 n ≡ pos n
unfolding to_int64
int64_word n h = ground arith

-- What the encoder appends, form by form.
module _ (e : Encoder) (f : ℕ) where
  buf-form32 :
      (v : ℕ)
      → (write_uint32 v (write_byte 0xff (write_byte f e))).buf ≡ e.buf ++ (f ∷ 0xff ∷ be32 v)
  buf-form32 v =
      buf-byte_uint32 0xff v (write_byte f e)
      ∙ rw (buf-write_byte f e) (append_assoc e.buf (f ∷ []) (0xff ∷ be32 v))

  buf-form64 :
      (v : ℕ)
      → (write_uint64 v (write_byte 0xff (write_byte f e))).buf ≡ e.buf ++ (f ∷ 0xff ∷ be64 v)
  buf-form64 v =
      buf-byte_uint64 0xff v (write_byte f e)
      ∙ rw (buf-write_byte f e) (append_assoc e.buf (f ∷ []) (0xff ∷ be64 v))

buf-long_form :
    (e : Encoder) (nsec sec : ℕ)
    → (write_uint64 sec
        (write_uint32 nsec (write_byte 0xff (write_byte 12 (write_byte 0xc7 e))))).buf
      ≡ e.buf ++ long_form nsec sec
unfolding long_form
buf-long_form e nsec sec =
    buf-write_uint64 sec (write_uint32 nsec (write_byte 0xff (write_byte 12 (write_byte 0xc7 e))))
    ∙ rw (buf-form32 (write_byte 0xc7 e) 12 nsec, buf-write_byte 0xc7 e) (simp append_assoc)

buf-encode_timestamp_lem :
    (sec : ℤ) (nsec : ℕ) (e : Encoder)
    → IsInt64 sec
    → nsec < 1_000_000_000
    → (encode_timestamp (record { sec = sec; nsec = nsec }) e).buf
      ≡ e.buf ++ timestamp_bytes sec nsec
unfolding encode_timestamp timestamp_bytes to_uint64
buf-encode_timestamp_lem (pos s) nsec e h lt = ground (
  arith,
  buf-form32 e 0xd6 s,
  buf-form64 e 0xd7 (nsec * 2 ^ 34 + s),
  bit_or_34 nsec s,
  buf-long_form e nsec s,
)
buf-encode_timestamp_lem (negsuc n) nsec e h lt =
    ground (arith, buf-long_form e nsec (2 ^ 64 - 1 - n))

pub buf-encode_timestamp :
    (t : Time) (e : Encoder)
    → IsTime t
    → (encode_timestamp t e).buf ≡ e.buf ++ timestamp_bytes t.sec t.nsec
buf-encode_timestamp t e (h, lt) = buf-encode_timestamp_lem t.sec t.nsec e h lt

pub only_seconds :
    (s nsec : ℕ) → ((nsec == 0) && leb s 0xffff_ffff) ≡ true → (nsec ≡ 0) × (s < 2 ^ 32)
only_seconds s nsec h = ground arith

module _ {c : Config} {k : ℕ} where
  Reads-form :
      (f n : ℕ) (ls bs : Bytes) (t : Time)
      → Reads c k (decode_timestamp_data_len f) ls n
      → Reads c k (decode_timestamp_value n) bs t
      → Reads c k decode_timestamp (f ∷ (ls ++ (0xff ∷ bs))) t
  unfolding decode_timestamp read_int8 to_int8
  Reads-form f n ls bs t l r =
      Reads-bind read_byte _ (f ∷ []) (ls ++ (0xff ∷ bs)) f t (Reads-byte f) (
        Reads-bind (decode_timestamp_data_len f) _ ls (0xff ∷ bs) n t l (
          Reads-bind read_int8 _ (0xff ∷ []) bs (negsuc 0) t
            (Reads-map read_byte to_int8 _ 0xff (Reads-byte 0xff)) r))

  Reads-seconds :
      (s nsec : ℕ)
      → (nsec ≡ 0) × (s < 2 ^ 32)
      → Reads c k decode_timestamp (0xd6 ∷ 0xff ∷ be32 s) (record { sec = pos s; nsec = nsec })
  unfolding decode_timestamp_data_len decode_timestamp_value
  Reads-seconds s nsec (e, h) = Reads-form 0xd6 4 [] (be32 s) _ (Reads-pure 4) (
      Reads-map_to read_uint32 (λ sec. unix (pos sec) 0) (be32 s) s _
        (rw e (unix-normal (pos s) 0 (omega arith) (omega arith))) (Reads-uint32 s h))

  Reads-packed :
      (s nsec : ℕ)
      → s < 2 ^ 34
      → nsec < 1_000_000_000
      → Reads c k decode_timestamp
          (0xd7 ∷ 0xff ∷ be64 (nsec * 2 ^ 34 + s))
          (record { sec = pos s; nsec = nsec })
  unfolding decode_timestamp_data_len decode_timestamp_value
  Reads-packed s nsec h lt =
      Reads-form 0xd7 8 [] (be64 val) _ (Reads-pure 8)
        (Reads-map_to read_uint64 of_val (be64 val) val _ packed (Reads-uint64 val (omega arith)))
    where
      val : ℕ
      val = nsec * 2 ^ 34 + s

      of_val : ℕ → Time
      of_val val = unix (pos (bit_and val 0x3_ffff_ffff)) (val / 2 ^ 34)

      upper : val / 2 ^ 34 ≡ nsec
      upper = omega arith

      packed : of_val val ≡ record { sec = pos s; nsec = nsec }
      packed = rw (bit_and_34 nsec s h, upper) (unix-normal (pos s) nsec (omega arith) lt)

  Reads-long_form :
      (sec : ℤ) (w nsec : ℕ)
      → IsInt64 sec
      → to_int64 w ≡ sec
      → w < 2 ^ 64
      → nsec < 1_000_000_000
      → Reads c k decode_timestamp (long_form nsec w) (record { sec = sec; nsec = nsec })
  unfolding decode_timestamp_data_len decode_timestamp_value long_form read_uint8 read_int64
  Reads-long_form sec w nsec h e hw lt =
      Reads-form 0xc7 12 (12 ∷ []) (be32 nsec ++ be64 w) _ length_byte (
        Reads-bind read_uint32 (λ nsec. read_int64 >>= λ sec. pure (unix sec nsec)) (be32 nsec)
          (be64 w) nsec _ (Reads-uint32 nsec (omega arith))
          (Reads-map_to read_int64 (λ sec. unix sec nsec) (be64 w) sec _ (unix-normal sec nsec h lt)
            (Reads-map_to read_uint64 to_int64 (be64 w) w sec e (Reads-uint64 w hw))))
    where
      length_byte : Reads c k (decode_timestamp_data_len 0xc7) (12 ∷ []) 12
      length_byte = Reads-bind read_byte _ (12 ∷ []) [] 12 12 (Reads-byte 12) (Reads-pure 12)

  Reads-timestamp :
      (sec : ℤ) (nsec : ℕ)
      → IsInt64 sec
      → nsec < 1_000_000_000
      → Reads c k decode_timestamp (timestamp_bytes sec nsec) (record { sec = sec; nsec = nsec })
  unfolding timestamp_bytes
  Reads-timestamp (pos s) nsec h lt =
      Reads-if ((nsec == 0) && leb s 0xffff_ffff) _ _
        (λ e. Reads-seconds s nsec (only_seconds s nsec e))
        λ _.
          Reads-if (leb s 0x3_ffff_ffff) _ _
            (λ e. Reads-packed s nsec (omega (arith, leb→le s 0x3_ffff_ffff e)) lt)
            λ _. Reads-long_form (pos s) s nsec h (int64_word s h) (omega arith) lt
  Reads-timestamp (negsuc n) nsec h lt =
      Reads-long_form (negsuc n) (2 ^ 64 - 1 - n) nsec h (neg64 n h) (omega arith) lt

-- DecodeTimestamp reads back the time that EncodeTimestamp appended to any buffer, whatever follows
-- it, in each of the three forms: for seconds of int64 and less than a second of nanoseconds.
pub decode_timestamp-encode_timestamp :
    (t : Time) (e : Encoder) (rest : Bytes) (c : Config) (k : ℕ)
    → IsTime t
    → decode_timestamp (record {
      input = (encode_timestamp t e).buf ++ rest;
      pos = length e.buf;
      cfg = c;
      depth = k;
    })
      ≡ ok t (record {
        input = (encode_timestamp t e).buf ++ rest;
        pos = length (encode_timestamp t e).buf;
        cfg = c;
        depth = k;
      })
decode_timestamp-encode_timestamp t e rest c k (h, lt) =
    Reads-appended decode_timestamp _ t e.buf _ rest (Reads-timestamp t.sec t.nsec h lt)
      (buf-encode_timestamp t e (h, lt))

-- UnmarshalTimestamp gives back the time that MarshalTimestamp encoded and takes all of the bytes: for
-- seconds of int64 and less than a second of nanoseconds.
pub unmarshal_timestamp-marshal_timestamp :
    (t : Time)
    → IsTime t
    → unmarshal_timestamp (marshal_timestamp t)
      ≡ ok t (record (new_decoder (marshal_timestamp t)) { pos = length (marshal_timestamp t) })
unfolding unmarshal_timestamp marshal_timestamp
unmarshal_timestamp-marshal_timestamp t h =
    rw append-nil at (decode_timestamp-encode_timestamp t (new_encoder 0) [] default_config 0 h)
