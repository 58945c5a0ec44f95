-- ===== src/Decoder/Contract/Calm.antt =====
-- The contract for a method of which only the safety matters: it neither panics nor runs out of fuel,
-- keeps the input and the configuration, does not move back or past the end, and restores the depth
-- on success.
use msgpck.Base.{ℕ, suc, refl, Bool, arith, if◌then◌else◌}
use msgpck.Config.{Config}
use msgpck.Errors.{Error}
use msgpck.Decoder.{
  M, pure, fail, ◌>>=◌, read_byte, read_bytes, read_uint8, read_uint16, read_uint32, read_uint64,
}
use msgpck.Decoder.Limits.{
  validate_string_len, validate_binary_len, validate_array_len, validate_map_len,
}
use msgpck.Decoder.Lengths.{
  parse_string_len, parse_string_len_switch, parse_binary_len, parse_array_len,
  parse_array_len_switch, parse_map_len, parse_map_len_switch, read_string_bytes,
}
use msgpck.Decoder.Contract.{
  IsByte, Meets, Meets-pure, Meets-fail, Meets-if, Meets-weaken, Meets-step, Meets-step_byte,
}
use msgpck.Decoder.Contract.Leaves.{
  Meets-read_byte, Meets-uint16, Meets-uint32, Meets-uint64, Meets-bytes, Meets-check,
}

abbrev pub Calm : Config → ℕ → ℕ → {A : Type 0} → M A → Type 0
Calm c k n m = Meets c k n (λ _. 0) (λ _. Unit) m

module _ {c : Config} {k n : ℕ} where
  pub Calm-of :
      {A : Type 0} {w : A → ℕ} {G : A → Type 0} (m : M A) → Meets c k n w G m → Calm c k n m
  Calm-of m h = Meets-weaken _ _ m (λ a g. (omega arith, tt)) h

  pub Calm-pure : {A : Type 0} (a : A) → Calm c k n (pure a)
  Calm-pure a = Meets-pure a refl tt

  pub Calm-fail : {A : Type 0} (e : Error) → Calm c k n (fail {A = A} e)
  Calm-fail e = Meets-fail e

  pub Calm-if :
      {A : Type 0} (t : Bool) (m m' : M A)
      → Calm c k n m
      → Calm c k n m'
      → Calm c k n (if t then m else m')
  Calm-if t m m' h h' = Meets-if t m m' (λ _. h) (λ _. h')

  pub Calm-bind :
      {A B : Type 0} (m : M A) (f : A → M B)
      → Calm c k n m
      → ((a : A) → Calm c k n (f a))
      → Calm c k n (m >>= f)
  Calm-bind m f h next = Meets-step (λ _. 0) m f h (λ a _. next a)

  -- A byte makes room for a unit of fuel less.
  pub Calm-byte_then :
      {B : Type 0} (f : ℕ → M B)
      → ((b : ℕ) → IsByte b → Calm c k n (f b))
      → Calm c k (suc n) (read_byte >>= f)
  Calm-byte_then f h = Meets-step_byte (λ _. 0) read_byte f Meets-read_byte h

  pub Calm-byte : Calm c k n read_byte
  Calm-byte = Calm-of read_byte Meets-read_byte

  pub Calm-uint16 : Calm c k n read_uint16
  Calm-uint16 = Calm-of read_uint16 Meets-uint16

  pub Calm-uint32 : Calm c k n read_uint32
  Calm-uint32 = Calm-of read_uint32 Meets-uint32

  pub Calm-uint64 : Calm c k n read_uint64
  Calm-uint64 = Calm-of read_uint64 Meets-uint64

  pub Calm-bytes : (l : ℕ) → Calm c k n (read_bytes l)
  Calm-bytes l = Calm-of (read_bytes l) (Meets-bytes l)

  pub ruleset calm = (
    Calm-pure, Calm-fail, Calm-if, Calm-bind, Calm-byte, Calm-uint16, Calm-uint32, Calm-uint64,
    Calm-bytes,
  )

  pub Calm-string_len : (f : ℕ) → Calm c k n (parse_string_len f)
  unfolding parse_string_len read_uint8
  Calm-string_len f = search calm depth 12

  pub Calm-string_len_switch : (f : ℕ) → Calm c k n (parse_string_len_switch f)
  unfolding parse_string_len_switch read_uint8
  Calm-string_len_switch f = search calm depth 12

  pub Calm-binary_len : (f : ℕ) → Calm c k n (parse_binary_len f)
  unfolding parse_binary_len read_uint8
  Calm-binary_len f = search calm depth 12

  pub Calm-array_len : (f : ℕ) → Calm c k n (parse_array_len f)
  unfolding parse_array_len
  Calm-array_len f = search calm depth 12

  pub Calm-array_len_switch : (f : ℕ) → Calm c k n (parse_array_len_switch f)
  unfolding parse_array_len_switch
  Calm-array_len_switch f = search calm depth 12

  pub Calm-map_len : (f : ℕ) → Calm c k n (parse_map_len f)
  unfolding parse_map_len
  Calm-map_len f = search calm depth 12

  pub Calm-map_len_switch : (f : ℕ) → Calm c k n (parse_map_len_switch f)
  unfolding parse_map_len_switch
  Calm-map_len_switch f = search calm depth 12

  pub Calm-check_string : (l : ℕ) → Calm c k n (validate_string_len l)
  unfolding validate_string_len
  Calm-check_string l = Calm-of _ (Meets-check _ (λ c. c.max_string_len) l l)

  pub Calm-check_binary : (l : ℕ) → Calm c k n (validate_binary_len l)
  unfolding validate_binary_len
  Calm-check_binary l = Calm-of _ (Meets-check _ (λ c. c.max_binary_len) l l)

  pub Calm-check_array : (l : ℕ) → Calm c k n (validate_array_len l)
  unfolding validate_array_len
  Calm-check_array l = Calm-of _ (Meets-check _ (λ c. c.max_array_len) l l)

  pub Calm-check_map : (l : ℕ) → Calm c k n (validate_map_len l)
  unfolding validate_map_len
  Calm-check_map l = Calm-of _ (Meets-check _ (λ c. c.max_map_len) l _)

  pub ruleset parts = (
    calm, Calm-string_len, Calm-string_len_switch, Calm-binary_len, Calm-array_len,
    Calm-array_len_switch, Calm-map_len, Calm-map_len_switch, Calm-check_string, Calm-check_binary,
    Calm-check_array, Calm-check_map,
  )

  pub Calm-read_string : Calm c k n read_string_bytes
  unfolding read_string_bytes
  Calm-read_string = search parts depth 12
