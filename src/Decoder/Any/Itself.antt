-- ===== src/Decoder/Any/Itself.antt =====
-- The parsers of lengths follow themselves; and how the steps of a text may be grouped.
use mathlib.Core.Path.{fun_ext}
use msgpck.Base.{ℕ, ◌≡◌, refl, Bool, Bool-cases, inl, inr, Bytes, if◌then◌else◌}
use msgpck.Errors.{Error, invalid_format, is_type_mismatch}
use msgpck.Any.{Any}
use msgpck.Decoder.{
  Decoder, Outcome, ok, err, panic, stuck, M, pure, fail, or_else, and_then, ◌>>=◌, ◌>>◌, read_byte,
  read_bytes, read_uint8,
}
use msgpck.Decoder.Limits.{validate_string_len}
use msgpck.Decoder.Lengths.{
  parse_string_len, parse_string_len_switch, parse_binary_len, parse_array_len_switch,
  parse_map_len_switch,
}
use msgpck.Decoder.Any.{decode_string_any, any_key}
use msgpck.Decoder.Any.Follows.{
  Follows, Follow, Itself, fails, panics, stucks, both, Follow-pure, Follow-fail, Follow-if,
  Follow-bind, Follow-then, Follow-map, Follow-right, Follow-container, Itself-byte, Itself-bytes,
  Itself-uint16, Itself-uint32, Itself-uint64, Itself-check,
}

module _ {P : ℕ → ℕ → Type 0} where
  pub Itself-map :
      {A B : Type 0} (m : M A) (f : A → B) → Itself P m → Itself P (m >>= λ a. pure (f a))
  Itself-map m f r = Follow-map m f f r (λ a. refl)

  pub Itself-if :
      {A : Type 0} (t : Bool) (m n : M A) → Itself P m → Itself P n → Itself P (if t then m else n)
  Itself-if t m n = Follow-if t m n m n

  pub Itself-fail : {A : Type 0} (e : Error) → Itself P (fail {A = A} e)
  Itself-fail e = Follow-fail e _

  pub Itself-pure : {A : Type 0} (a : A) → Itself P (pure a)
  Itself-pure a = Follow-pure a a refl

  pub ruleset reads = (
    Itself-map, Itself-if, Itself-fail, Itself-pure, Itself-byte, Itself-uint16, Itself-uint32,
    Itself-uint64,
  )

  pub Itself-string_len : (f : ℕ) → Itself P (parse_string_len f)
  unfolding parse_string_len read_uint8
  Itself-string_len f = search reads depth 12

  pub Itself-string_len_switch : (f : ℕ) → Itself P (parse_string_len_switch f)
  unfolding parse_string_len_switch read_uint8
  Itself-string_len_switch f = search reads depth 12

  pub Itself-binary_len : (f : ℕ) → Itself P (parse_binary_len f)
  unfolding parse_binary_len read_uint8
  Itself-binary_len f = search reads depth 12

  pub Itself-array_len_switch : (f : ℕ) → Itself P (parse_array_len_switch f)
  unfolding parse_array_len_switch
  Itself-array_len_switch f = search reads depth 12

  pub Itself-map_len_switch : (f : ℕ) → Itself P (parse_map_len_switch f)
  unfolding parse_map_len_switch
  Itself-map_len_switch f = search reads depth 12

-- Two ways to group the steps of a text.
pub group : {A B C : Type 0} (m : M A) (n : M B) (f : B → M C) → ((m >> n) >>= f) ≡ (m >> (n >>= f))
group {A} {B} {C} m n f = fun_ext λ d. after (m d)
  where
    after : (o : Outcome A) → and_then (and_then o (λ _. n)) f ≡ and_then o (λ _. n >>= f)
    after (ok a d) = refl
    after (err e d) = refl
    after panic = refl
    after stuck = refl

pub group_bind :
    {A B C : Type 0} (m : M A) (f : A → M B) (g : B → M C)
    → ((m >>= f) >>= g) ≡ (m >>= λ a. f a >>= g)
group_bind {A} {B} {C} m f g = fun_ext λ d. after (m d)
  where
    after : (o : Outcome A) → and_then (and_then o f) g ≡ and_then o (λ a. f a >>= g)
    after (ok a d) = refl
    after (err e d) = refl
    after panic = refl
    after stuck = refl

mapped_error :
    (e : Error) (d : Decoder)
    → (e' : Error) × ((if is_type_mismatch e then fail {A = Bytes} invalid_format else fail e) d
        ≡ err e' d)
mapped_error e d = elim (Bool-cases (is_type_mismatch e)) [
  | inl t ↦ (invalid_format, rw t refl)
  | inr t ↦ (e, rw t refl)
]

-- The key of DecodeAny's maps before another way to go on from parseStringLen, which on success does
-- the same.
module _ {P : ℕ → ℕ → Type 0} where
  body : (l : ℕ) → Itself P (validate_string_len l >> read_bytes l)
  body l =
      unfold validate_string_len in
      Follow-then _ _ _ (Itself-check _ (λ c. c.max_string_len) l l) (λ _. Itself-bytes l)

  tried :
      (g : Error → M Bytes) (F : Outcome ℕ → Outcome Bytes) {o o' : Outcome ℕ}
      → ((e : Error) (d : Decoder) → (e' : Error) × (g e d ≡ err e' d))
      → ((l : ℕ) (d : Decoder) → F (ok l d) ≡ (validate_string_len l >> read_bytes l) d)
      → F panic ≡ panic
      → F stuck ≡ stuck
      → Follows P (λ (a : ℕ) (b : ℕ). a ≡ b) o o'
      → Follows P
          (λ (a : Bytes) (b : Bytes). a ≡ b)
          (or_else o (λ l. validate_string_len l >> read_bytes l) g)
          (F o')
  tried g F h same p s (both a b d k q r) =
      rw (r, same b (record d { depth = k })) ((body b).run d k q)
  tried g F h same p s (fails e d o) = let (e', q) = h e d in rw q (fails e' d _)
  tried g F h same p s panics = rw p panics
  tried g F h same p s stucks = rw s stucks

  pub Follow-any_key :
      (below : ℕ → M Any) (F : ℕ → Outcome ℕ → Outcome Bytes)
      → ((f l : ℕ) (d : Decoder) → F f (ok l d) ≡ (validate_string_len l >> read_bytes l) d)
      → ((f : ℕ) → F f panic ≡ panic)
      → ((f : ℕ) → F f stuck ≡ stuck)
      → Follow P
          (λ (a : Bytes) (b : Bytes). a ≡ b)
          (any_key below)
          (read_byte >>= λ f d. F f (parse_string_len f d))
  unfolding any_key decode_string_any
  Follow-any_key below F same p s = Follow-then read_byte _ _ Itself-byte λ f. record {
    run =
        λ d k q. tried _ (F f) mapped_error (same f) (p f) (s f) ((Itself-string_len f).run d k q);
  }
