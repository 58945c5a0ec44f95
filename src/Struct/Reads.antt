-- ===== src/Struct/Reads.antt =====
-- The readers of one word or one string of a struct's field, on what the encoder wrote for it.
use msgpck.Base.{
  ℕ, ◌<◌, ◌^◌, ◌≡◌, refl, sym, ap, ◌∙◌, arith, Bool, true, false, ◌==◌, Bytes, [], ◌∷◌, ◌++◌,
  length, if◌then◌else◌,
}
use msgpck.Base.Words.{ℤ, pos, negsuc, IsInt64, be64}
use msgpck.Config.{Config}
use msgpck.Format.{format_nil, is_positive_fixint, is_negative_fixint}
use msgpck.Encoder.Wire.{uint_bytes, int_bytes, string_header}
use msgpck.Encoder.Arrays.{string_bytes}
use msgpck.Decoder.{
  Outcome, ok, err, panic, stuck, M, pure, ◌>>=◌, and_then, read_byte, read_float64, read_uint64,
  advance,
}
use msgpck.Decoder.Lengths.{parse_string_len, read_string_bytes}
use msgpck.Decoder.Integers.{decode_int as read_int, decode_uint as read_uint}
use msgpck.Decoder.Integers.Encoded.{Reads-decode_int, Reads-decode_uint}
use msgpck.Decoder.Arrays.RoundTrip.{StringFits, Reads-read_string}
use msgpck.Decoder.Scalars.{Reads-map, Reads-map_to}
use msgpck.Decoder.Reads.{Reads, Reads-pure, Reads-bind, Reads-byte, Reads-uint64}
use msgpck.Struct.Kinds.{
  ScalarKind, Scalar, k_string, k_int, k_int64, k_int32, k_int16, k_int8, k_uint, k_uint64,
  k_uint32, k_uint16, k_uint8, k_float64, k_bool, v_string, v_int, v_uint, v_float64, v_float32,
  v_bool,
}
use msgpck.Struct.Scalars.{
  decode_int, decode_uint, decode_float, string_len, decode_string, narrow_int, narrow_uint,
  decode_bool, decode_scalar,
}

-- The functions of struct_decoder.go and the methods of decoder.go read integers alike.
pub decode_int_same : (f : ℕ) → decode_int f ≡ read_int f
unfolding decode_int read_int
decode_int_same f = refl

pub decode_uint_same : (f : ℕ) → decode_uint f ≡ read_uint f
unfolding decode_uint read_uint
decode_uint_same f = refl

string_len_same : (f : ℕ) → string_len f ≡ parse_string_len f
unfolding string_len parse_string_len
string_len_same f = refl

same_string : (read_byte >>= decode_string) ≡ read_string_bytes
unfolding decode_string string_len read_string_bytes parse_string_len
same_string = refl

pub data IntKind : ScalarKind → Type 0 where
  is_int : IntKind k_int
  is_int64 : IntKind k_int64
  is_int32 : IntKind k_int32
  is_int16 : IntKind k_int16
  is_int8 : IntKind k_int8

pub data UintKind : ScalarKind → Type 0 where
  is_uint : UintKind k_uint
  is_uint64 : UintKind k_uint64
  is_uint32 : UintKind k_uint32
  is_uint16 : UintKind k_uint16
  is_uint8 : UintKind k_uint8

-- What a field of the kind can hold so that it comes back: words of the type's range, a string within its
-- limits. A float32 is left out.
pub data Holds (c : Config) : ScalarKind → Scalar → Type 0 where
  holds_string : (s : Bytes) → StringFits c s → Holds c k_string (v_string s)
  holds_int :
      (kind : ScalarKind) (v : ℤ)
      → IntKind kind
      → IsInt64 v
      → narrow_int kind v ≡ v
      → Holds c kind (v_int v)
  holds_uint :
      (kind : ScalarKind) (v : ℕ)
      → UintKind kind
      → v < 2 ^ 64
      → narrow_uint kind v ≡ v
      → Holds c kind (v_uint v)
  holds_float64 : (v : ℕ) → v < 2 ^ 64 → Holds c k_float64 (v_float64 v)
  holds_bool : (b : Bool) → Holds c k_bool (v_bool b)

-- The encoded form.
abbrev pub scalar_bytes : Scalar → Bytes
scalar_bytes (v_string s) = string_bytes s
scalar_bytes (v_int v) = int_bytes v
scalar_bytes (v_uint v) = uint_bytes v
scalar_bytes (v_float64 v) = 0xcb ∷ be64 v
scalar_bytes (v_float32 v) = []
scalar_bytes (v_bool b) = (if b then 0xc3 else 0xc2) ∷ []

and_then_assoc :
    {A B C : Type 0} (o : Outcome A) (f : A → M B) (g : B → M C)
    → and_then (and_then o f) g ≡ and_then o (λ a d. and_then (f a d) g)
and_then_assoc (ok a d) f g = refl
and_then_assoc (err e d) f g = refl
and_then_assoc panic f g = refl
and_then_assoc stuck f g = refl

module _ {c : Config} {k : ℕ} where
  -- A reader after a byte, and what is made of its result.
  pub Reads-made :
      {A B : Type 0} (f : ℕ → M A) (g : A → B) (bs : Bytes) (a : A) (b : B)
      → g a ≡ b
      → Reads c k (read_byte >>= f) bs a
      → Reads c k (read_byte >>= λ x. f x >>= λ a. pure (g a)) bs b
  Reads-made f g bs a b e r = record {
    run = λ d rest hc hk hp h.
        sym (and_then_assoc (read_byte d) f (λ a. pure (g a)))
        ∙ (Reads-map_to (read_byte >>= f) g bs a b e r).run d rest hc hk hp h;
  }

  pub Reads-string_scalar :
      (s : Bytes) → StringFits c s → Reads c k (read_byte >>= decode_string) (string_bytes s) s
  Reads-string_scalar s h = rw same_string (Reads-read_string s h)

  Reads-int : (v : ℤ) → IsInt64 v → Reads c k (read_byte >>= decode_int) (int_bytes v) v
  unfolding decode_int read_int
  Reads-int v h = Reads-decode_int v h

  Reads-uint : (v : ℕ) → v < 2 ^ 64 → Reads c k (read_byte >>= decode_uint) (uint_bytes v) v
  unfolding decode_uint read_uint
  Reads-uint v h = Reads-decode_uint v h

  Reads-float64 : (v : ℕ) → v < 2 ^ 64 → Reads c k (read_byte >>= decode_float) (0xcb ∷ be64 v) v
  unfolding decode_float read_float64 is_positive_fixint is_negative_fixint
  Reads-float64 v h =
      Reads-bind read_byte decode_float (0xcb ∷ []) (be64 v) 0xcb v (Reads-byte 0xcb)
        (Reads-map read_uint64 (λ v. v) (be64 v) v (Reads-uint64 v h))

  Reads-bool :
      (b : Bool) → Reads c k (read_byte >>= decode_bool) ((if b then 0xc3 else 0xc2) ∷ []) b
  unfolding decode_bool
  Reads-bool true =
      Reads-bind read_byte decode_bool (0xc3 ∷ []) [] 0xc3 true (Reads-byte 0xc3) (Reads-pure true)
  Reads-bool false =
      Reads-bind read_byte decode_bool (0xc2 ∷ []) [] 0xc2 false (Reads-byte 0xc2)
        (Reads-pure false)

  of_int :
      (kind : ScalarKind) (v : ℤ)
      → IntKind kind
      → IsInt64 v
      → narrow_int kind v ≡ v
      → Reads c k (read_byte >>= decode_scalar kind) (int_bytes v) (v_int v)
  unfolding decode_scalar
  of_int _ v is_int h e = Reads-made decode_int _ _ v _ (ap v_int e) (Reads-int v h)
  of_int _ v is_int64 h e = Reads-made decode_int _ _ v _ (ap v_int e) (Reads-int v h)
  of_int _ v is_int32 h e = Reads-made decode_int _ _ v _ (ap v_int e) (Reads-int v h)
  of_int _ v is_int16 h e = Reads-made decode_int _ _ v _ (ap v_int e) (Reads-int v h)
  of_int _ v is_int8 h e = Reads-made decode_int _ _ v _ (ap v_int e) (Reads-int v h)

  of_uint :
      (kind : ScalarKind) (v : ℕ)
      → UintKind kind
      → v < 2 ^ 64
      → narrow_uint kind v ≡ v
      → Reads c k (read_byte >>= decode_scalar kind) (uint_bytes v) (v_uint v)
  unfolding decode_scalar
  of_uint _ v is_uint h e = Reads-made decode_uint _ _ v _ (ap v_uint e) (Reads-uint v h)
  of_uint _ v is_uint64 h e = Reads-made decode_uint _ _ v _ (ap v_uint e) (Reads-uint v h)
  of_uint _ v is_uint32 h e = Reads-made decode_uint _ _ v _ (ap v_uint e) (Reads-uint v h)
  of_uint _ v is_uint16 h e = Reads-made decode_uint _ _ v _ (ap v_uint e) (Reads-uint v h)
  of_uint _ v is_uint8 h e = Reads-made decode_uint _ _ v _ (ap v_uint e) (Reads-uint v h)

  pub Reads-scalar :
      (kind : ScalarKind) (v : Scalar)
      → Holds c kind v
      → Reads c k (read_byte >>= decode_scalar kind) (scalar_bytes v) v
  unfolding decode_scalar
  Reads-scalar _ _ (holds_string s h) =
      Reads-made decode_string v_string _ s _ refl (Reads-string_scalar s h)
  Reads-scalar _ _ (holds_int kind v i h e) = of_int kind v i h e
  Reads-scalar _ _ (holds_uint kind v i h e) = of_uint kind v i h e
  Reads-scalar _ _ (holds_float64 v h) =
      Reads-made decode_float v_float64 _ v _ refl (Reads-float64 v h)
  Reads-scalar _ _ (holds_bool b) = Reads-made decode_bool v_bool _ b _ refl (Reads-bool b)

-- No encoded form begins like nil, which leaves a field as it is.
abbrev pub NotNil : Bytes → Type 0
NotNil [] = ⊥
NotNil (b ∷ bs) = (b == format_nil) ≡ false

NotNil-uint_bytes : (v : ℕ) → NotNil (uint_bytes v)
unfolding uint_bytes
NotNil-uint_bytes v = ground arith

NotNil-int_bytes : (v : ℤ) → NotNil (int_bytes v)
unfolding int_bytes
NotNil-int_bytes (pos n) = NotNil-uint_bytes n
NotNil-int_bytes (negsuc n) = ground arith

NotNil-string_header : (n : ℕ) (s : Bytes) → NotNil (string_header n ++ s)
unfolding string_header
NotNil-string_header n s = ground arith

pub NotNil-scalar_bytes :
    {c : Config} (kind : ScalarKind) (v : Scalar) → Holds c kind v → NotNil (scalar_bytes v)
NotNil-scalar_bytes _ _ (holds_string s h) = NotNil-string_header (length s) s
NotNil-scalar_bytes _ _ (holds_int _ v i h e) = NotNil-int_bytes v
NotNil-scalar_bytes _ _ (holds_uint _ v i h e) = NotNil-uint_bytes v
NotNil-scalar_bytes _ _ (holds_float64 v h) = refl
NotNil-scalar_bytes _ _ (holds_bool true) = refl
NotNil-scalar_bytes _ _ (holds_bool false) = refl

-- A reader that tests for nil first, on bytes that do not begin with it.
pub Reads-unless_nil :
    {A : Type 0} {c : Config} {k : ℕ} (x : M A) (g : ℕ → M A) (bs : Bytes) (a : A)
    → NotNil bs
    → Reads c k (read_byte >>= g) bs a
    → Reads c k (read_byte >>= λ f. if f == format_nil then x else g f) bs a
Reads-unless_nil x g [] a h r = absurd h
Reads-unless_nil {c = c} {k = k} x g (b ∷ bs) a ne r = record {
  run = λ d rest hc hk hp h.
      let e : read_byte d ≡ ok b (advance 1 d) =
        (Reads-byte {c = c} {k = k} b).run d (bs ++ rest) hc hk hp h in
      rw (e, ne) (rw e at (r.run d rest hc hk hp h));
}
