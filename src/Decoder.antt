-- ===== src/Decoder.antt =====
-- decoder.go, first half: the decoder's state, what a method returns, and the reads of bytes, words
-- and floats. Every method takes the state and returns it, beside a result or beside an error.
pub mod Limits
pub mod Lengths
pub mod Values
pub mod Integers
pub mod Floats
pub mod Arrays
pub mod Any
pub mod Typed
pub mod Reads
pub mod Written
pub mod Dispatch
pub mod Scalars
pub mod Canonical
pub mod Containers
pub mod RoundTrip
pub mod Marshalled
pub mod Contract
pub mod Safety
use msgpck.Base.{
  ℕ, ◌+◌, ◌-◌, Bool, not, Option, none, some, Bytes, length, take, drop, get_elem?, leb,
  if◌then◌else◌,
}
use msgpck.Base.Words.{ℤ, to_int8, to_int16, to_int32, to_int64, uint16_at, uint32_at, uint64_at}
use msgpck.Errors.{Error, unexpected_eof, max_depth_exceeded}
use msgpck.Config.{Config, default_config, exceeds}

-- `input` is the field `data`. The depth never falls below zero: each leaveContainer follows an
-- enterContainer.
pub record Decoder : Type 0 where
  pub input : Bytes
  pub pos : ℕ
  pub cfg : Config
  pub depth : ℕ

-- What a method call comes to. `panic` is a run-time panic (an index or a slice out of bounds);
-- `stuck` is no outcome of the program: the model's fuel ran out.
pub data Outcome {ℓ} (A : Type ℓ) : Type ℓ where
  ok : A → Decoder → Outcome A
  err : Error → Decoder → Outcome A
  panic stuck : Outcome A

abbrev pub M {ℓ} : Type ℓ → Type ℓ
M A = Decoder → Outcome A

module _ {ℓ κ} {A : Type ℓ} {B : Type κ} where
  abbrev pub and_then : Outcome A → (A → M B) → Outcome B
  and_then (ok a d) f = f a d
  and_then (err e d) f = err e d
  and_then panic f = panic
  and_then stuck f = stuck

  -- `v, err := m(); if err != nil { return err }; f(v)`
  infixl 5 ◌>>=◌ ◌>>◌
  abbrev pub ◌>>=◌ : M A → (A → M B) → M B
  ◌>>=◌ m f d = and_then (m d) f

  abbrev pub ◌>>◌ : M A → M B → M B
  ◌>>◌ m k d = and_then (m d) (λ _. k)

  -- `v, err := m(); if err == nil { f(v) } else { g(err) }`
  abbrev pub or_else : Outcome A → (A → M B) → (Error → M B) → Outcome B
  or_else (ok a d) f g = f a d
  or_else (err e d) f g = g e d
  or_else panic f g = panic
  or_else stuck f g = stuck

  abbrev pub try : M A → (A → M B) → (Error → M B) → M B
  try m f g d = or_else (m d) f g

module _ {ℓ} {A : Type ℓ} where
  abbrev pub pure : A → M A
  pure a d = ok a d

  abbrev pub fail : Error → M A
  fail e d = err e d

  -- An index or a slice expression: none is out of bounds.
  abbrev pub or_panic : Option A → M A
  or_panic none d = panic
  or_panic (some a) d = ok a d

abbrev pub advance : ℕ → Decoder → Decoder
advance n d = record d { pos = d.pos + n }

abbrev pub move : ℕ → M (Unit {0})
move n d = ok tt (advance n d)

-- `d.pos--`, after a format byte was read.
abbrev pub unread : M (Unit {0})
unread d = ok tt (record d { pos = d.pos - 1 })

abbrev pub new_decoder : Bytes → Decoder
new_decoder bs = record { input = bs; pos = 0; cfg = default_config; depth = 0 }

abbrev pub new_decoder_with_config : Bytes → Config → Decoder
new_decoder_with_config bs c = record { input = bs; pos = 0; cfg = c; depth = 0 }

abbrev pub reset : Bytes → Decoder → Decoder
reset bs d = record d { input = bs; pos = 0; depth = 0 }

abbrev pub remaining : Decoder → ℕ
remaining d = length d.input - d.pos

abbrev pub position : Decoder → ℕ
position d = d.pos

abbrev pub has_bytes : ℕ → Decoder → Bool
has_bytes n d = leb (d.pos + n) (length d.input)

unfoldable pub read_byte : M ℕ
read_byte d =
    if leb (length d.input) d.pos
    then err unexpected_eof d
    else (or_panic (get_elem? d.input d.pos) >>= λ b. move 1 >> pure b) d

unfoldable pub peek_byte : M ℕ
peek_byte d =
    if leb (length d.input) d.pos
    then err unexpected_eof d
    else or_panic (get_elem? d.input d.pos) d

-- data[i : i+n]
abbrev pub slice : ℕ → ℕ → Bytes → Option Bytes
slice i n bs = if leb (i + n) (length bs) then some (take n (drop i bs)) else none

unfoldable pub read_bytes : ℕ → M Bytes
read_bytes n d =
    if not (has_bytes n d)
    then err unexpected_eof d
    else (or_panic (slice d.pos n d.input) >>= λ b. move n >> pure b) d

unfoldable pub read_uint8 : M ℕ
unfolding read_byte
read_uint8 = read_byte

-- The three reads of big-endian words, which differ in width.
abbrev pub read_word : ℕ → (Bytes → Option ℕ) → M ℕ
read_word n word_at d =
    if not (has_bytes n d)
    then err unexpected_eof d
    else (or_panic (word_at (drop d.pos d.input)) >>= λ v. move n >> pure v) d

unfoldable pub read_uint16 : M ℕ
read_uint16 = read_word 2 uint16_at

unfoldable pub read_uint32 : M ℕ
read_uint32 = read_word 4 uint32_at

unfoldable pub read_uint64 : M ℕ
read_uint64 = read_word 8 uint64_at

unfoldable pub read_int8 : M ℤ
read_int8 = do v ← read_byte; pure (to_int8 v)

unfoldable pub read_int16 : M ℤ
read_int16 = do v ← read_uint16; pure (to_int16 v)

unfoldable pub read_int32 : M ℤ
read_int32 = do v ← read_uint32; pure (to_int32 v)

unfoldable pub read_int64 : M ℤ
read_int64 = do v ← read_uint64; pure (to_int64 v)

-- Float32frombits and Float64frombits: a float is its bit pattern.
unfoldable pub read_float32 : M ℕ
read_float32 = do v ← read_uint32; pure v

unfoldable pub read_float64 : M ℕ
read_float64 = do v ← read_uint64; pure v

-- enterContainer: on the error the depth stays raised.
unfoldable pub enter_container : M (Unit {0})
enter_container d =
    let d' : Decoder = record d { depth = d.depth + 1 } in
    if exceeds d'.depth d.cfg.max_depth then err max_depth_exceeded d' else ok tt d'

abbrev pub leave_container : Decoder → Decoder
leave_container d = record d { depth = d.depth - 1 }

-- `defer d.leaveContainer()`: it runs however the body returns.
abbrev pub leaving {ℓ} : {A : Type ℓ} → Outcome A → Outcome A
leaving (ok a d) = ok a (leave_container d)
leaving (err e d) = err e (leave_container d)
leaving panic = panic
leaving stuck = stuck

abbrev pub deferring_leave {ℓ} : {A : Type ℓ} → M A → M A
deferring_leave m d = leaving (m d)
