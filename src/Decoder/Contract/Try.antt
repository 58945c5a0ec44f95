-- ===== src/Decoder/Contract/Try.antt =====
-- The contract of a method that goes on after another one failed, and of what runs inside a container.
use msgpck.Base.{
  ℕ, ◌+◌, ◌-◌, ◌≡◌, refl, ◌∙◌, arith, Bool, true, false, Option, none, some, not, if◌then◌else◌,
}
use msgpck.Errors.{Error, string_too_long, unexpected_eof}
use msgpck.Config.{Config, exceeds}
use msgpck.Decoder.{
  Decoder, Outcome, ok, err, panic, stuck, M, pure, fail, try, or_else, and_then, or_panic, move,
  ◌>>=◌, ◌>>◌, read_byte, read_bytes, read_uint8, read_uint16, read_uint32, has_bytes,
  enter_container, deferring_leave,
}
use msgpck.Decoder.Limits.{check_len, validate_string_len}
use msgpck.Decoder.Lengths.{
  parse_string_len, parse_binary_len, decode_string_key, decode_string_key_with_format,
}
use msgpck.Decoder.Contract.{
  IsByte, IsValid, Room, Good, Failed, Ensures, returns, fails, Meets, Meets-step, Meets-room,
  Meets-weaken, Ensures-bind,
}
use msgpck.Decoder.Contract.Leaves.{Meets-read_byte, Meets-container}
use msgpck.Decoder.Contract.Calm.{Calm}

-- Where a method that enters no container ends, the depth is as before.
abbrev Levelled : {A : Type 0} → Decoder → Outcome A → Type 0
Levelled d (ok a d') = d'.depth ≡ d.depth
Levelled d (err e d') = d'.depth ≡ d.depth
Levelled d panic = Unit
Levelled d stuck = Unit

pub record Level {A : Type 0} (m : M A) : Type 0 where
  pub run : (d : Decoder) → Levelled d (m d)

Levelled-trans :
    {A : Type 0} (d d' : Decoder) (o : Outcome A)
    → d'.depth ≡ d.depth
    → Levelled d' o
    → Levelled d o
Levelled-trans d d' (ok b d'') h p = p ∙ h
Levelled-trans d d' (err e d'') h p = p ∙ h
Levelled-trans d d' panic h p = tt
Levelled-trans d d' stuck h p = tt

Levelled-bind :
    {A B : Type 0} (d : Decoder) (o : Outcome A) (f : A → M B)
    → Levelled d o
    → ((a : A) → Level (f a))
    → Levelled d (and_then o f)
Levelled-bind d (ok a d') f h next = Levelled-trans d d' (f a d') h ((next a).run d')
Levelled-bind d (err e d') f h next = h
Levelled-bind d panic f h next = tt
Levelled-bind d stuck f h next = tt

Level-pure : {A : Type 0} (a : A) → Level (pure a)
Level-pure a = record { run = λ d. refl }

Level-fail : {A : Type 0} (e : Error) → Level (fail {A = A} e)
Level-fail e = record { run = λ d. refl }

Level-if : {A : Type 0} (t : Bool) (m m' : M A) → Level m → Level m' → Level (if t then m else m')
Level-if true m m' h h' = h
Level-if false m m' h h' = h'

Level-bind :
    {A B : Type 0} (m : M A) (f : A → M B) → Level m → ((a : A) → Level (f a)) → Level (m >>= f)
Level-bind m f h next = record { run = λ d. Levelled-bind d (m d) f (h.run d) next }

-- The reads, which check that the bytes are there.
read-Levelled :
    {A : Type 0} (t : Bool) (e : Error) (o : Option A) (n : ℕ) (d : Decoder)
    → Levelled d (if t then err e d else (or_panic o >>= λ b. move n >> pure b) d)
read-Levelled true e o n d = refl
read-Levelled false e none n d = tt
read-Levelled false e (some a) n d = refl

Level-byte : Level read_byte
unfolding read_byte
Level-byte = record { run = λ d. read-Levelled _ _ _ _ d }

Level-bytes : (n : ℕ) → Level (read_bytes n)
unfolding read_bytes
Level-bytes n = record { run = λ d. read-Levelled _ _ _ _ d }

Level-uint16 : Level read_uint16
unfolding read_uint16
Level-uint16 = record { run = λ d. read-Levelled _ _ _ _ d }

Level-uint32 : Level read_uint32
unfolding read_uint32
Level-uint32 = record { run = λ d. read-Levelled _ _ _ _ d }

check-Levelled :
    (t t' : Bool) (e e' : Error) (d : Decoder)
    → Levelled d (if t then err e d else if t' then err e' d else ok (tt {0}) d)
check-Levelled true t' e e' d = refl
check-Levelled false true e e' d = refl
check-Levelled false false e e' d = refl

Level-check_string : (l : ℕ) → Level (validate_string_len l)
unfolding validate_string_len check_len
Level-check_string l = record {
  run = λ d.
      check-Levelled (exceeds l d.cfg.max_string_len) (not (has_bytes l d)) string_too_long
        unexpected_eof d;
}

ruleset level = (
  Level-pure, Level-fail, Level-if, Level-bind, Level-byte, Level-bytes, Level-uint16, Level-uint32,
  Level-check_string,
)

pub Level-string_len : (f : ℕ) → Level (parse_string_len f)
unfolding parse_string_len read_uint8
Level-string_len f = search level depth 12

pub Level-binary_len : (f : ℕ) → Level (parse_binary_len f)
unfolding parse_binary_len read_uint8
Level-binary_len f = search level depth 12

pub Level-key_with_format : (f : ℕ) → Level (decode_string_key_with_format f)
unfolding decode_string_key_with_format
Level-key_with_format f = search (level, Level-string_len) depth 8

pub Level-key : Level decode_string_key
unfolding decode_string_key
Level-key = search (level, Level-key_with_format) depth 8

Failed-Good :
    {A : Type 0} (d d' : Decoder) (e : Error) (a : A)
    → Failed d e d'
    → d'.depth ≡ d.depth
    → Good (λ _. 0) (λ _. Unit) d a d'
Failed-Good d d' e a f h = record {
  same_input = f.same_input;
  same_cfg = f.same_cfg;
  same_depth = h;
  taken = omega (arith, f.forward);
  inside = f.inside;
  holds = tt;
}

module _ {c : Config} {k n : ℕ} where
  Calm-minus : {A : Type 0} (m : M A) → Calm c k n m → Meets c k (n - 0) (λ _. 0) (λ _. Unit) m
  Calm-minus m h = Meets-room (n - 0) m (omega arith) h

  module _ {A B : Type 0} where
    Ensures-try :
        (d : Decoder) (o : Outcome A) (f : A → M B) (g : Error → M B)
        → IsValid d
        → d.cfg ≡ c
        → d.depth ≡ k
        → Room n d
        → Levelled d o
        → Ensures (Good (λ _. 0) (λ _. Unit) d) (Failed d) o
        → ((a : A) → Calm c k n (f a))
        → ((e : Error) → Calm c k n (g e))
        → Ensures (Good (λ _. 0) (λ _. Unit) d) (Failed d) (or_else o f g)
    Ensures-try d o f g v hc hk r l (returns {a} {d = d'} h) next other =
        Ensures-bind c k n (λ _. 0) (λ _. 0) d f v hc hk r (returns h)
          (λ a _. Calm-minus (f a) (next a))
    Ensures-try d o f g v hc hk r l (fails {e} {d = d'} h) next other =
        Ensures-bind {A = Unit {0}} c k n (λ _. 0) (λ _. 0) d (λ _. g e) v hc hk r
          (returns (Failed-Good d d' e tt h l)) (λ _ _. Calm-minus (g e) (other e))

    -- A method that enters no container, and what follows its result or its error.
    pub Calm-try :
        (m : M A) (f : A → M B) (g : Error → M B)
        → Level m
        → Calm c k n m
        → ((a : A) → Calm c k n (f a))
        → ((e : Error) → Calm c k n (g e))
        → Calm c k n (try m f g)
    Calm-try m f g l h next other = record {
      run =
          λ d v hc hk r. Ensures-try d (m d) f g v hc hk r (l.run d) (h.run d v hc hk r) next other;
    }

  pub Calm-container :
      {A : Type 0} (m : M A)
      → Calm c (k + 1) n m
      → Calm c k n (enter_container >> deferring_leave m)
  Calm-container m h = Meets-container _ _ m (λ _. h)

  -- What follows may rely on having read a byte.
  pub Calm-byte_is :
      {B : Type 0} (f : ℕ → M B)
      → ((b : ℕ) → IsByte b → Calm c k n (f b))
      → Calm c k n (read_byte >>= f)
  Calm-byte_is f h =
      Meets-step (λ _. 0) read_byte f
        (Meets-weaken (λ _. 0) IsByte read_byte (λ a g. (omega arith, g)) Meets-read_byte)
        (λ b g. h b g)
