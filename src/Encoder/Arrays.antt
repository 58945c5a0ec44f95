-- ===== src/Encoder/Arrays.antt =====
-- What the encoders of typed arrays write: the header, and the encoded form of each element.
use msgpck.Base.{
  ℕ, ◌<◌, ◌≤◌, ◌^◌, ◌≡◌, sym, ◌∙◌, Bytes, List, [], ◌∷◌, ◌++◌, arith, length, All, append-nil,
  append_assoc, length-append,
}
use msgpck.Base.Words.{ℤ, IsInt64}
use msgpck.Encoder.{
  Encoder, encode_all, encode_int, encode_uint, encode_string, encode_array_header,
  encode_int64_array, encode_uint64_array, encode_string_array,
}
use msgpck.Encoder.Wire.{array_header, int_bytes, uint_bytes, string_header}
use msgpck.Encoder.Scalars.{
  buf-encode_int, buf-encode_uint, buf-encode_string, buf-encode_array_header,
}

-- A string behind its header.
abbrev pub string_bytes : Bytes → Bytes
string_bytes s = string_header (length s) ++ s

module _ {ℓ} {A : Type ℓ} (w : A → Bytes) where
  abbrev pub wire_all : List A → Bytes
  wire_all [] = []
  wire_all (x ∷ xs) = w x ++ wire_all xs

  -- Elements that each take a byte.
  pub length-wire_all :
      (xs : List A) → ((x : A) → 0 < length (w x)) → length xs ≤ length (wire_all xs)
  length-wire_all [] h = omega arith
  length-wire_all (x ∷ xs) h =
      omega (arith, h x, length-wire_all xs h, length-append (w x) (wire_all xs))

  module _ {κ} (P : A → Type κ) (f : A → Encoder → Encoder) where
    buf-encode_all :
        ((x : A) (e : Encoder) → P x → (f x e).buf ≡ e.buf ++ w x)
        → (xs : List A) (e : Encoder) → All P xs
        → (encode_all f xs e).buf ≡ e.buf ++ wire_all xs
    buf-encode_all h [] e all = sym (append-nil e.buf)
    buf-encode_all h (x ∷ xs) e (p, all) =
        buf-encode_all h xs (f x e) all ∙ rw (h x e p) (append_assoc e.buf _ _)

    pub buf-encode_array :
        ((x : A) (e : Encoder) → P x → (f x e).buf ≡ e.buf ++ w x)
        → (xs : List A) (e : Encoder) → length xs < 2 ^ 32
        → All P xs
        → (encode_all f xs (encode_array_header (length xs) e)).buf
          ≡ e.buf ++ (array_header (length xs) ++ wire_all xs)
    buf-encode_array h xs e n all =
        buf-encode_all h xs (encode_array_header (length xs) e) all
        ∙ rw (buf-encode_array_header (length xs) e n) (append_assoc e.buf _ _)

pub buf-encode_int64_array :
    (xs : List ℤ) (e : Encoder)
    → length xs < 2 ^ 32
    → All IsInt64 xs
    → (encode_int64_array xs e).buf ≡ e.buf ++ (array_header (length xs) ++ wire_all int_bytes xs)
unfolding encode_int64_array
buf-encode_int64_array = buf-encode_array int_bytes IsInt64 encode_int buf-encode_int

pub buf-encode_uint64_array :
    (xs : List ℕ) (e : Encoder)
    → length xs < 2 ^ 32
    → All (λ v. v < 2 ^ 64) xs
    → (encode_uint64_array xs e).buf ≡ e.buf ++ (array_header (length xs) ++ wire_all uint_bytes xs)
unfolding encode_uint64_array
buf-encode_uint64_array = buf-encode_array uint_bytes (λ v. v < 2 ^ 64) encode_uint buf-encode_uint

pub buf-encode_string_array :
    (xs : List Bytes) (e : Encoder)
    → length xs < 2 ^ 32
    → All (λ s. length s < 2 ^ 32) xs
    → (encode_string_array xs e).buf
      ≡ e.buf ++ (array_header (length xs) ++ wire_all string_bytes xs)
unfolding encode_string_array
buf-encode_string_array =
    buf-encode_array string_bytes (λ s. length s < 2 ^ 32) encode_string buf-encode_string
