-- ===== src/Decoder/Any/Follows.antt =====
-- A method that follows another: where the first returns, the second returns too, at the same place,
-- a result that is related, and a first that panics or runs out of fuel shows that the second does.
-- Where the first fails, nothing is said. The depths are related by `P`.
use msgpck.Base.{
  ℕ, ◌+◌, ◌-◌, ◌≡◌, refl, inl, inr, Bool, true, false, Bool-cases, arith, Bytes, Option, none, some,
  not, if◌then◌else◌,
}
use mathlib.Core.Path.{subst}
use msgpck.Base.Words.{ℤ, uint16_at, uint32_at, uint64_at}
use msgpck.Errors.{Error, unexpected_eof}
use msgpck.Config.{Config, exceeds}
use msgpck.Decoder.{
  Decoder, Outcome, ok, err, panic, stuck, M, pure, fail, or_panic, move, and_then, ◌>>=◌, ◌>>◌,
  read_byte, read_bytes, read_word, read_uint16, read_uint32, read_uint64, has_bytes,
  enter_container, leaving, deferring_leave,
}
use msgpck.Decoder.Limits.{check_len}

pub data Follows {A B : Type 0} (P : ℕ → ℕ → Type 0) (R : A → B → Type 0)
    : Outcome A → Outcome B → Type 0 where
  both :
      (a : A) (b : B) (d : Decoder) (k : ℕ)
      → P d.depth k
      → R a b
      → Follows P R (ok a d) (ok b (record d { depth = k }))
  fails : (e : Error) (d : Decoder) (o : Outcome B) → Follows P R (err e d) o
  panics : Follows P R panic panic
  stucks : Follows P R stuck stuck

-- Started at the same place with related depths.
pub record Follow {A B : Type 0} (P : ℕ → ℕ → Type 0) (R : A → B → Type 0) (m : M A) (n : M B)
    : Type 0 where
  pub run : (d : Decoder) (k : ℕ) → P d.depth k → Follows P R (m d) (n (record d { depth = k }))

module _ {P : ℕ → ℕ → Type 0} where
  pub Follow-pure :
      {A B : Type 0} {R : A → B → Type 0} (a : A) (b : B) → R a b → Follow P R (pure a) (pure b)
  Follow-pure a b r = record { run = λ d k p. both a b d k p r }

  pub Follow-fail :
      {A B : Type 0} {R : A → B → Type 0} (e : Error) (n : M B) → Follow P R (fail {A = A} e) n
  Follow-fail e n = record { run = λ d k p. fails e d _ }

  pub Follow-if :
      {A B : Type 0} {R : A → B → Type 0} (t : Bool) (m m' : M A) (n n' : M B)
      → Follow P R m n
      → Follow P R m' n'
      → Follow P R (if t then m else m') (if t then n else n')
  Follow-if true m m' n n' h h' = h
  Follow-if false m m' n n' h h' = h'

  module _ {A B C D : Type 0} {R : A → B → Type 0} {S : C → D → Type 0} where
    Follows-bind :
        {o : Outcome A} {o' : Outcome B} (f : A → M C) (g : B → M D)
        → Follows P R o o'
        → ((a : A) (b : B) → R a b → Follow P S (f a) (g b))
        → Follows P S (and_then o f) (and_then o' g)
    Follows-bind f g (both a b d k p r) h = (h a b r).run d k p
    Follows-bind f g (fails e d o) h = fails e d _
    Follows-bind f g panics h = panics
    Follows-bind f g stucks h = stucks

    pub Follow-bind :
        (m : M A) (n : M B) (f : A → M C) (g : B → M D)
        → Follow P R m n
        → ((a : A) (b : B) → R a b → Follow P S (f a) (g b))
        → Follow P S (m >>= f) (n >>= g)
    Follow-bind m n f g r h = record { run = λ d k p. Follows-bind f g (r.run d k p) h }

  module _ {A B C : Type 0} {R : A → B → Type 0} {S : A → C → Type 0} where
    Follows-right :
        {o : Outcome A} {o' : Outcome B} (g : B → C)
        → ((a : A) (b : B) → R a b → S a (g b))
        → Follows P R o o'
        → Follows P S o (and_then o' (λ b. pure (g b)))
    Follows-right g h (both a b d k p r) = both a (g b) d k p (h a b r)
    Follows-right g h (fails e d o) = fails e d _
    Follows-right g h panics = panics
    Follows-right g h stucks = stucks

    -- Only the second makes something of its result.
    pub Follow-right :
        (m : M A) (n : M B) (g : B → C)
        → ((a : A) (b : B) → R a b → S a (g b))
        → Follow P R m n
        → Follow P S m (n >>= λ b. pure (g b))
    Follow-right m n g h r = record { run = λ d k p. Follows-right g h (r.run d k p) }

  module _ {A B : Type 0} {R : A → B → Type 0} where
    Follows-leaving :
        {o : Outcome A} {o' : Outcome B}
        → ((j k : ℕ) → P j k → P (j - 1) (k - 1))
        → Follows P R o o'
        → Follows P R (leaving o) (leaving o')
    Follows-leaving h (both a b d k p r) = both a b _ (k - 1) (h d.depth k p) r
    Follows-leaving h (fails e d o) = fails e _ _
    Follows-leaving h panics = panics
    Follows-leaving h stucks = stucks

    -- What a method that follows another says of a result.
    pub Follows-ok :
        {o : Outcome A} {o' : Outcome B} (a : A) (d : Decoder)
        → Follows P R o o'
        → o ≡ ok a d
        → (b : B) × (k : ℕ) × (o' ≡ ok b (record d { depth = k })) × P d.depth k × R a b
    Follows-ok a d (both a' b d' k p r) e =
        (b, k, cc, subst (λ x. P x k) (cc) p, subst (λ x. R x b) (cc) r)
    Follows-ok a d (fails e' d' o) e = cc
    Follows-ok a d panics e = cc
    Follows-ok a d stucks e = cc

    pub Follows-panic : {o : Outcome A} {o' : Outcome B} → Follows P R o o' → o ≡ panic → o' ≡ panic
    Follows-panic (both a' b d' k p r) e = cc
    Follows-panic (fails e' d' o) e = cc
    Follows-panic panics e = refl
    Follows-panic stucks e = cc

    pub Follows-stuck : {o : Outcome A} {o' : Outcome B} → Follows P R o o' → o ≡ stuck → o' ≡ stuck
    Follows-stuck (both a' b d' k p r) e = cc
    Follows-stuck (fails e' d' o) e = cc
    Follows-stuck panics e = cc
    Follows-stuck stucks e = refl

-- Methods that neither look at the depth nor change it follow themselves.
abbrev pub Itself : (ℕ → ℕ → Type 0) → {A : Type 0} → M A → Type 0
Itself P {A} m = Follow P (λ (a : A) (b : A). a ≡ b) m m

module _ {P : ℕ → ℕ → Type 0} where
  -- A read that checks the position first.
  checked :
      {A : Type 0} (t : Bool) (e : Error) (n : ℕ) (r : Option A) (d : Decoder) (k : ℕ)
      → P d.depth k
      → Follows P
          (λ (a : A) (b : A). a ≡ b)
          (if t then err e d else (or_panic r >>= λ b. move n >> pure b) d)
          (if t
            then err e (record d { depth = k })
            else (or_panic r >>= λ b. move n >> pure b) (record d { depth = k }))
  checked true e n r d k p = fails e d _
  checked false e n none d k p = panics
  checked false e n (some a) d k p = both a a _ k p refl

  pub Itself-byte : Itself P read_byte
  unfolding read_byte
  Itself-byte = record { run = λ d k p. checked _ _ 1 _ d k p }

  pub Itself-bytes : (n : ℕ) → Itself P (read_bytes n)
  unfolding read_bytes
  Itself-bytes n = record { run = λ d k p. checked _ _ n _ d k p }

  Itself-word : (n : ℕ) (word_at : Bytes → Option ℕ) → Itself P (read_word n word_at)
  Itself-word n word_at = record { run = λ d k p. checked _ _ n _ d k p }

  pub Itself-uint16 : Itself P read_uint16
  unfolding read_uint16
  Itself-uint16 = Itself-word 2 uint16_at

  pub Itself-uint32 : Itself P read_uint32
  unfolding read_uint32
  Itself-uint32 = Itself-word 4 uint32_at

  pub Itself-uint64 : Itself P read_uint64
  unfolding read_uint64
  Itself-uint64 = Itself-word 8 uint64_at

  pub Itself-check :
      (e : Error) (limit : Config → ℤ) (n needed : ℕ)
      → Itself P (λ d. check_len e (limit d.cfg) n needed d)
  unfolding check_len
  Itself-check e limit n needed = record {
    run = λ d k p. two (exceeds n (limit d.cfg)) (not (has_bytes needed d)) d k p;
  }
    where
      two :
          (t u : Bool) (d : Decoder) (k : ℕ)
          → P d.depth k
          → Follows P
              (λ (a b : Unit {0}). a ≡ b)
              (if t then err e d else if u then err unexpected_eof d else ok tt d)
              (if t
                then err e (record d { depth = k })
                else if u
                then err unexpected_eof (record d { depth = k })
                else ok tt (record d { depth = k }))
      two true u d k p = fails e d _
      two false true d k p = fails _ d _
      two false false d k p = both tt tt d k p refl

  -- A method that follows itself, before what depends on its result.
  pub Follow-then :
      {A C D : Type 0} {S : C → D → Type 0} (m : M A) (f : A → M C) (g : A → M D)
      → Itself P m
      → ((a : A) → Follow P S (f a) (g a))
      → Follow P S (m >>= f) (m >>= g)
  Follow-then {S = S} m f g r h =
      Follow-bind m m f g r (λ a b e. subst (λ b. Follow P S (f a) (g b)) e (h a))

  -- Two results of one read.
  pub Follow-map :
      {A C D : Type 0} {S : C → D → Type 0} (m : M A) (f : A → C) (g : A → D)
      → Itself P m
      → ((a : A) → S (f a) (g a))
      → Follow P S (m >>= λ a. pure (f a)) (m >>= λ a. pure (g a))
  Follow-map m f g r h = Follow-then m _ _ r (λ a. Follow-pure (f a) (g a) (h a))

-- Both enter a container, at one depth.
pub Follow-container :
    {A B : Type 0} {R : A → B → Type 0} (m : M A) (n : M B)
    → Follow (λ j k. j ≡ k) R m n
    → Follow
        (λ j k. j ≡ k)
        R
        (enter_container >> deferring_leave m)
        (enter_container >> deferring_leave n)
unfolding enter_container
Follow-container {R = R} m n h = record {
  run = λ d k p. rw p (elim (Bool-cases (exceeds (k + 1) d.cfg.max_depth)) [
    | inl e ↦ rw e (fails _ _ _)
    | inr e ↦
        rw e
          (Follows-leaving (λ i j q. omega arith) (h.run (record d { depth = k + 1 }) (k + 1) refl))
  ]);
}
