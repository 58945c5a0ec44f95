-- ===== src/Timestamp/Ext.antt =====
-- A timestamp as a value: Decode gives an extension, which ExtToTimestamp converts.
use msgpck.Base.{
  ℕ, ◌+◌, ◌*◌, ◌-◌, ◌/◌, ◌^◌, ◌≤◌, ◌<◌, ◌≡◌, refl, ap, sym, ◌∙◌, Bool, true, false, ◌&&◌, Bytes, [],
  ◌++◌, arith, length, leb, leb→le, ◌==◌, if◌then◌else◌,
}
use msgpck.Base.Words.{
  ℤ, pos, negsuc, IsInt64, be16, be32, be64, to_int64, uint32_at-be32, uint64_at-be64,
}
use msgpck.Base.Bits.Fields.{bit_and_34}
use msgpck.Config.{Config, exceeds}
use msgpck.Value.{ext}
use msgpck.Encoder.{Encoder, encode_value}
use msgpck.Encoder.Wire.{wire, ext_header}
use msgpck.Encoder.Refines.{IsSized, buf-encode_value}
use msgpck.Decoder.{ok}
use msgpck.Decoder.Values.{decode}
use msgpck.Decoder.Canonical.{canonical, Fits}
use msgpck.Decoder.RoundTrip.{decode-encode_value}
use msgpck.Timestamp.{
  Time, IsTime, converted, encode_timestamp, ext_to_timestamp, timestamp_ext_type,
}
use msgpck.Timestamp.RoundTrip.{
  timestamp_bytes, long_form, buf-encode_timestamp, unix-normal, only_seconds, int64_word,
}
use msgpck.Decoder.Scalars.Numbers.{neg64}

-- The contents of the extension.
unfoldable timestamp_data : ℤ → ℕ → Bytes
timestamp_data (pos s) nsec =
    if (nsec == 0) && leb s 0xffff_ffff
    then be32 s
    else if leb s 0x3_ffff_ffff
    then be64 (nsec * 2 ^ 34 + s)
    else be32 nsec ++ be64 s
timestamp_data (negsuc n) nsec = be32 nsec ++ be64 (2 ^ 64 - 1 - n)

wire-timestamp :
    (sec : ℤ) (nsec : ℕ)
    → timestamp_bytes sec nsec ≡ wire (ext timestamp_ext_type (timestamp_data sec nsec))
unfolding wire timestamp_bytes timestamp_data long_form ext_header be64 be32 be16
wire-timestamp (pos s) nsec = ground arith
wire-timestamp (negsuc n) nsec = refl

length-timestamp : (sec : ℤ) (nsec : ℕ) → length (timestamp_data sec nsec) ≤ 12
unfolding timestamp_data be64 be32 be16
length-timestamp (pos s) nsec = ground arith
length-timestamp (negsuc n) nsec = omega arith

exceeds-le : (a b : ℕ) (l : ℤ) → a ≤ b → exceeds b l ≡ false → exceeds a l ≡ false
unfolding exceeds
exceeds-le a b (pos m) h e = ground arith
exceeds-le a b (negsuc m) h e = e

ext_seconds :
    (s nsec : ℕ)
    → (nsec ≡ 0) × (s < 2 ^ 32)
    → ext_to_timestamp timestamp_ext_type (be32 s) ≡ converted (record { sec = pos s; nsec = nsec })
unfolding ext_to_timestamp be32 be16
ext_seconds s nsec (e, h) =
    rw (uint32_at-be32 s [] h, e) (ap converted (unix-normal (pos s) 0 (omega arith) (omega arith)))

ext_packed :
    (s nsec : ℕ)
    → s < 2 ^ 34
    → nsec < 1_000_000_000
    → ext_to_timestamp timestamp_ext_type (be64 (nsec * 2 ^ 34 + s))
      ≡ converted (record { sec = pos s; nsec = nsec })
unfolding ext_to_timestamp be64 be32 be16
ext_packed s nsec h lt =
    rw (uint64_at-be64 (nsec * 2 ^ 34 + s) [] (omega arith), bit_and_34 nsec s h, upper)
      (ap converted (unix-normal (pos s) nsec (omega arith) lt))
  where
    upper : (nsec * 2 ^ 34 + s) / 2 ^ 34 ≡ nsec
    upper = omega arith

ext_long :
    (sec : ℤ) (w nsec : ℕ)
    → IsInt64 sec
    → to_int64 w ≡ sec
    → w < 2 ^ 64
    → nsec < 1_000_000_000
    → ext_to_timestamp timestamp_ext_type (be32 nsec ++ be64 w)
      ≡ converted (record { sec = sec; nsec = nsec })
unfolding ext_to_timestamp be64 be32 be16
ext_long sec w nsec h e hw lt =
    rw (uint32_at-be32 nsec [] (omega arith), uint64_at-be64 w [] hw, e)
      (ap converted (unix-normal sec nsec h lt))

-- One of two values, each of which satisfies a predicate where the test says so.
either {ℓ κ} :
    {A : Type ℓ} (P : A → Type κ) (t : Bool) (x y : A)
    → (t ≡ true → P x)
    → (t ≡ false → P y)
    → P (if t then x else y)
either P true x y p q = p refl
either P false x y p q = q refl

ext_to_timestamp-data :
    (sec : ℤ) (nsec : ℕ)
    → IsInt64 sec
    → nsec < 1_000_000_000
    → ext_to_timestamp timestamp_ext_type (timestamp_data sec nsec)
      ≡ converted (record { sec = sec; nsec = nsec })
unfolding timestamp_data
ext_to_timestamp-data (pos s) nsec h lt =
    either Gives ((nsec == 0) && leb s 0xffff_ffff) _ _
      (λ e. ext_seconds s nsec (only_seconds s nsec e))
      λ _.
        either Gives (leb s 0x3_ffff_ffff) _ _
          (λ e. ext_packed s nsec (omega (arith, leb→le s 0x3_ffff_ffff e)) lt)
          λ _. ext_long (pos s) s nsec h (int64_word s h) (omega arith) lt
  where
    Gives : Bytes → Type 0
    Gives bs =
        ext_to_timestamp timestamp_ext_type bs ≡ converted (record { sec = pos s; nsec = nsec })
ext_to_timestamp-data (negsuc n) nsec h lt =
    ext_long (negsuc n) (2 ^ 64 - 1 - n) nsec h (neg64 n h) (omega arith) lt

-- EncodeTimestamp writes the bytes that EncodeValue writes for an extension of type -1.
encode_timestamp-encode_value :
    (t : Time) (e : Encoder)
    → IsTime t
    → (encode_timestamp t e).buf
      ≡ (encode_value (ext timestamp_ext_type (timestamp_data t.sec t.nsec)) e).buf
unfolding IsSized
encode_timestamp-encode_value t e h =
    buf-encode_timestamp t e h
    ∙ ap (λ bs. e.buf ++ bs) (wire-timestamp t.sec t.nsec)
    ∙ sym (
        buf-encode_value (ext timestamp_ext_type (timestamp_data t.sec t.nsec)) e
          (omega arith, omega (arith, length-timestamp t.sec t.nsec)))

-- On what EncodeTimestamp appended, Decode gives an extension of type -1 and stops behind it, and
-- ExtToTimestamp converts that extension to the time that was encoded: where the limit on extensions
-- allows 12 bytes.
pub ext_to_timestamp-decode :
    (t : Time) (e : Encoder) (rest : Bytes) (c : Config) (k : ℕ)
    → IsTime t
    → exceeds 12 c.max_ext_len ≡ false
    → (bs : Bytes) × (decode (record {
      input = (encode_timestamp t e).buf ++ rest;
      pos = length e.buf;
      cfg = c;
      depth = k;
    })
        ≡ ok (ext timestamp_ext_type bs) (record {
          input = (encode_timestamp t e).buf ++ rest;
          pos = length (encode_timestamp t e).buf;
          cfg = c;
          depth = k;
        }))
      × (ext_to_timestamp timestamp_ext_type bs ≡ converted t)
unfolding IsSized Fits canonical
ext_to_timestamp-decode t e rest c k h fits =
    let bs : Bytes = timestamp_data t.sec t.nsec in
    let short = length-timestamp t.sec t.nsec in
    (
      bs,
      rw (encode_timestamp-encode_value t e h) (
          decode-encode_value (ext timestamp_ext_type bs) e rest c k
            (omega arith, omega (arith, short))
            (exceeds-le (length bs) 12 c.max_ext_len short fits)),
      ext_to_timestamp-data t.sec t.nsec h.0 h.1,
    )
