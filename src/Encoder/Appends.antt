-- ===== src/Encoder/Appends.antt =====
-- Each write of the encoder appends to the buffer, keeps what stands there, and leaves the contents
-- within the capacity.
use msgpck.Base.{
  ℕ, ◌+◌, ◌-◌, ◌≤◌, ◌≡◌, refl, ap, ◌∙◌, Bytes, [], ◌∷◌, ◌++◌, arith, length, drop, length-append,
  take-append, drop-append, append-nil, append_assoc,
}
use msgpck.Base.Words.{be16, be32, be64}
use msgpck.Encoder.{
  Encoder, grow, put_at, write_byte, write_bytes, write_uint16, write_uint32, write_uint64,
}

pub buf-grow : (n : ℕ) (e : Encoder) → (grow n e).buf ≡ e.buf
unfolding grow
buf-grow n e = ground arith

pub spilled-grow : (n : ℕ) (e : Encoder) → (grow n e).spilled ≡ e.spilled
unfolding grow
spilled-grow n e = ground arith

-- After grow the capacity holds n more bytes: the append that follows allocates nothing.
pub grow-capacity :
    (n : ℕ) (e : Encoder) → length e.buf ≤ e.capacity → length e.buf + n ≤ (grow n e).capacity
unfolding grow
grow-capacity n e h = ground arith

-- Overwriting as many bytes as were appended replaces them.
put_at_end :
    (bs zs xs : Bytes) (i : ℕ)
    → i ≡ length xs
    → length bs ≡ length zs
    → put_at i bs (xs ++ zs) ≡ xs ++ bs
put_at_end bs zs xs i h l =
    rw (take-append xs zs i h) (ap (λ t. xs ++ (bs ++ t)) tail_gone ∙ rw append-nil)
  where
    all : drop (i + length bs) ((xs ++ zs) ++ []) ≡ []
    all = drop-append (xs ++ zs) [] (i + length bs) (omega (arith, length-append xs zs))

    tail_gone : drop (i + length bs) (xs ++ zs) ≡ []
    tail_gone = rw append-nil at all

pub buf-write_byte : (b : ℕ) (e : Encoder) → (write_byte b e).buf ≡ e.buf ++ (b ∷ [])
unfolding write_byte
buf-write_byte b e = ap (λ t. t ++ (b ∷ [])) (buf-grow 1 e)

pub buf-write_bytes : (bs : Bytes) (e : Encoder) → (write_bytes bs e).buf ≡ e.buf ++ bs
unfolding write_bytes
buf-write_bytes bs e = ap (λ t. t ++ bs) (buf-grow (length bs) e)

stored :
    (bs zs xs : Bytes)
    → length bs ≡ length zs
    → put_at (length (xs ++ zs) - length bs) bs (xs ++ zs) ≡ xs ++ bs
stored bs zs xs l = put_at_end bs zs xs _ (omega (arith, length-append xs zs)) l

pub buf-write_uint16 : (v : ℕ) (e : Encoder) → (write_uint16 v e).buf ≡ e.buf ++ be16 v
unfolding write_uint16 be16
buf-write_uint16 v e = rw (buf-grow 2 e) (stored (be16 v) (0 ∷ 0 ∷ []) e.buf refl)

pub buf-write_uint32 : (v : ℕ) (e : Encoder) → (write_uint32 v e).buf ≡ e.buf ++ be32 v
unfolding write_uint32 be32
buf-write_uint32 v e = rw (buf-grow 4 e) (stored (be32 v) (0 ∷ 0 ∷ 0 ∷ 0 ∷ []) e.buf refl)

pub buf-write_uint64 : (v : ℕ) (e : Encoder) → (write_uint64 v e).buf ≡ e.buf ++ be64 v
unfolding write_uint64 be64
buf-write_uint64 v e =
    rw (buf-grow 8 e) (stored (be64 v) (0 ∷ 0 ∷ 0 ∷ 0 ∷ 0 ∷ 0 ∷ 0 ∷ 0 ∷ []) e.buf refl)

-- A format byte and what follows it.
pub buf-byte_byte :
    (f b : ℕ) (e : Encoder) → (write_byte b (write_byte f e)).buf ≡ e.buf ++ (f ∷ b ∷ [])
buf-byte_byte f b e =
    buf-write_byte b (write_byte f e)
    ∙ rw (buf-write_byte f e) (append_assoc e.buf (f ∷ []) (b ∷ []))

pub buf-byte_uint16 :
    (f v : ℕ) (e : Encoder) → (write_uint16 v (write_byte f e)).buf ≡ e.buf ++ (f ∷ be16 v)
buf-byte_uint16 f v e =
    buf-write_uint16 v (write_byte f e)
    ∙ rw (buf-write_byte f e) (append_assoc e.buf (f ∷ []) (be16 v))

pub buf-byte_uint32 :
    (f v : ℕ) (e : Encoder) → (write_uint32 v (write_byte f e)).buf ≡ e.buf ++ (f ∷ be32 v)
buf-byte_uint32 f v e =
    buf-write_uint32 v (write_byte f e)
    ∙ rw (buf-write_byte f e) (append_assoc e.buf (f ∷ []) (be32 v))

pub buf-byte_uint64 :
    (f v : ℕ) (e : Encoder) → (write_uint64 v (write_byte f e)).buf ≡ e.buf ++ (f ∷ be64 v)
buf-byte_uint64 f v e =
    buf-write_uint64 v (write_byte f e)
    ∙ rw (buf-write_byte f e) (append_assoc e.buf (f ∷ []) (be64 v))
