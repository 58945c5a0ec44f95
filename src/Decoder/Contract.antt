-- ===== src/Decoder/Contract.antt =====
-- What a decoder method guarantees on any input: it neither panics nor runs out of fuel; on success
-- it has taken so many bytes and restored the depth; on an error the input is kept and the depth is
-- as before, or one more if the error is that of the depth itself. One rule for each way to build a method.
use msgpck.Base.{
  ℕ, suc, ◌+◌, ◌-◌, ◌≤◌, ◌<◌, ◌≡◌, ◌≢◌, ◌⊎◌, inl, inr, refl, sym, ap, ◌∙◌, Bool, true, false, Bytes,
  All, length, arith, if◌then◌else◌,
}
pub mod Words
pub mod Leaves
pub mod Parts
pub mod Whole
pub mod Calm
pub mod After
pub mod Try
use mathlib.Core.Path.{subst₂}
use msgpck.Errors.{Error, max_depth_exceeded}
use msgpck.Config.{Config, exceeds}
use msgpck.Decoder.{
  Decoder, Outcome, ok, err, panic, stuck, M, pure, fail, ◌>>=◌, ◌>>◌, and_then, enter_container,
  deferring_leave, leaving, try, or_else,
}

abbrev pub IsByte : ℕ → Type 0
IsByte b = b < 256

-- The position is within the input, whose elements are bytes.
pub record IsValid (d : Decoder) : Type 0 where
  pub within : d.pos ≤ length d.input
  pub are_bytes : All IsByte d.input

-- Fewer than `n` bytes are left.
abbrev pub Room : ℕ → Decoder → Type 0
Room n d = length d.input - d.pos < n

-- `d'` is `d` with the position moved forward by `w a` bytes at least.
pub record Good {A : Type 0} (w : A → ℕ) (G : A → Type 0) (d : Decoder) (a : A) (d' : Decoder)
    : Type 0 where
  pub same_input : d'.input ≡ d.input
  pub same_cfg : d'.cfg ≡ d.cfg
  pub same_depth : d'.depth ≡ d.depth
  pub taken : d.pos + w a ≤ d'.pos
  pub inside : d'.pos ≤ length d.input
  pub holds : G a

pub record Failed (d : Decoder) (e : Error) (d' : Decoder) : Type 0 where
  pub same_input : d'.input ≡ d.input
  pub same_cfg : d'.cfg ≡ d.cfg
  pub forward : d.pos ≤ d'.pos
  pub inside : d'.pos ≤ length d.input
  pub depth_kept : (d'.depth ≡ d.depth) ⊎ ((e ≡ max_depth_exceeded) × (d'.depth ≡ d.depth + 1))

pub data Ensures {A : Type 0} (P : A → Decoder → Type 0) (Q : Error → Decoder → Type 0)
    : Outcome A → Type 0 where
  returns : {a : A} {d : Decoder} → P a d → Ensures P Q (ok a d)
  fails : {e : Error} {d : Decoder} → Q e d → Ensures P Q (err e d)

module _ {A : Type 0} {P : A → Decoder → Type 0} {Q : Error → Decoder → Type 0} where
  pub Ensures-ok : {o : Outcome A} {a : A} {d : Decoder} → Ensures P Q o → o ≡ ok a d → P a d
  Ensures-ok (returns {a = b} {d = d'} h) e = subst₂ P (cc) (cc) h
  Ensures-ok (fails h) e = cc

  pub Ensures-err : {o : Outcome A} {e : Error} {d : Decoder} → Ensures P Q o → o ≡ err e d → Q e d
  Ensures-err (returns h) e = cc
  Ensures-err (fails h) e = subst₂ Q (cc) (cc) h

  pub Ensures-panic : {o : Outcome A} → Ensures P Q o → o ≢ panic
  Ensures-panic (returns h) = λ e. cc
  Ensures-panic (fails h) = λ e. cc

  pub Ensures-stuck : {o : Outcome A} → Ensures P Q o → o ≢ stuck
  Ensures-stuck (returns h) = λ e. cc
  Ensures-stuck (fails h) = λ e. cc

-- A method under the configuration `c` at depth `k`, with fewer than `n` bytes left.
pub record Meets {A : Type 0} (c : Config) (k n : ℕ) (w : A → ℕ) (G : A → Type 0) (m : M A)
    : Type 0 where
  pub run :
      (d : Decoder)
      → IsValid d
      → d.cfg ≡ c
      → d.depth ≡ k
      → Room n d
      → Ensures (Good w G d) (Failed d) (m d)

Good-IsValid :
    {A : Type 0} {w : A → ℕ} {G : A → Type 0} {d d' : Decoder} {a : A}
    → Good w G d a d'
    → IsValid d
    → IsValid d'
Good-IsValid g v = record {
  within = rw g.same_input g.inside;
  are_bytes = rw g.same_input v.are_bytes;
}

Failed-trans :
    {A : Type 0} {w : A → ℕ} {G : A → Type 0} {d d' d'' : Decoder} {a : A} {e : Error}
    → Good w G d a d'
    → Failed d' e d''
    → Failed d e d''
Failed-trans g f = record {
  same_input = f.same_input ∙ g.same_input;
  same_cfg = f.same_cfg ∙ g.same_cfg;
  forward = omega arith;
  inside = rw g.same_input at f.inside;
  depth_kept = rw g.same_depth at f.depth_kept;
}

module _ {A B : Type 0} {G : A → Type 0} {G' : B → Type 0} where
  Good-trans :
      (w : A → ℕ) (W : B → ℕ) {d d' d'' : Decoder} {a : A} {b : B}
      → Good w G d a d'
      → Good (λ b. W b - w a) G' d' b d''
      → Good W G' d b d''
  Good-trans w W {b = b} g h = record {
    same_input = h.same_input ∙ g.same_input;
    same_cfg = h.same_cfg ∙ g.same_cfg;
    same_depth = h.same_depth ∙ g.same_depth;
    taken = omega arith;
    inside = rw g.same_input at h.inside;
    holds = h.holds;
  }

  -- The rest of a method, after a call that succeeded or failed.
  pub Ensures-bind :
      (c : Config) (k n : ℕ) (w : A → ℕ) (W : B → ℕ) (d : Decoder) {o : Outcome A} (f : A → M B)
      → IsValid d
      → d.cfg ≡ c
      → d.depth ≡ k
      → Room n d
      → Ensures (Good w G d) (Failed d) o
      → ((a : A) → G a → Meets c k (n - w a) (λ b. W b - w a) G' (f a))
      → Ensures (Good W G' d) (Failed d) (and_then o f)
  Ensures-bind c k n w W d f v hc hk r (returns {a} {d = d'} g) next = after (
      (next a g.holds).run d' (Good-IsValid g v) (g.same_cfg ∙ hc) (g.same_depth ∙ hk)
        (rw g.same_input (omega arith)))
    where
      after :
          {o : Outcome B}
          → Ensures (Good (λ b. W b - w a) G' d') (Failed d') o
          → Ensures (Good W G' d) (Failed d) o
      after (returns h) = returns (Good-trans w W g h)
      after (fails h) = fails (Failed-trans g h)
  Ensures-bind c k n w W d f v hc hk r (fails h) next = fails h

  pub Meets-bind :
      (c : Config) (k n : ℕ) (w : A → ℕ) (W : B → ℕ) (m : M A) (f : A → M B)
      → Meets c k n w G m
      → ((a : A) → G a → Meets c k (n - w a) (λ b. W b - w a) G' (f a))
      → Meets c k n W G' (m >>= f)
  Meets-bind c k n w W m f h next = record {
    run = λ d v hc hk r. Ensures-bind c k n w W d f v hc hk r (h.run d v hc hk r) next;
  }

module _ {A : Type 0} {c : Config} {k n : ℕ} {w : A → ℕ} {G : A → Type 0} where
  pub Meets-pure : (a : A) → w a ≡ 0 → G a → Meets c k n w G (pure a)
  Meets-pure a z g = record {
    run = λ d v hc hk r. returns (record {
      same_input = refl;
      same_cfg = refl;
      same_depth = refl;
      taken = omega arith;
      inside = v.within;
      holds = g;
    });
  }

  pub Meets-fail : (e : Error) → Meets c k n w G (fail e)
  Meets-fail e = record {
    run = λ d v hc hk r. fails (record {
      same_input = refl;
      same_cfg = refl;
      forward = omega arith;
      inside = v.within;
      depth_kept = inl refl;
    });
  }

  pub Meets-if :
      (t : Bool) (m m' : M A)
      → (t ≡ true → Meets c k n w G m)
      → (t ≡ false → Meets c k n w G m')
      → Meets c k n w G (if t then m else m')
  Meets-if true m m' h h' = h refl
  Meets-if false m m' h h' = h' refl

  -- A lighter claim, and less room.
  pub Meets-weaken :
      (w' : A → ℕ) (G' : A → Type 0) (m : M A)
      → ((a : A) → G a → (w' a ≤ w a) × G' a)
      → Meets c k n w G m
      → Meets c k n w' G' m
  Meets-weaken w' G' m h r = record { run = λ d v hc hk room. weaken (r.run d v hc hk room) }
    where
      weaken :
          {d : Decoder} {o : Outcome A}
          → Ensures (Good w G d) (Failed d) o
          → Ensures (Good w' G' d) (Failed d) o
      weaken (returns {a} g) = returns (record {
        same_input = g.same_input;
        same_cfg = g.same_cfg;
        same_depth = g.same_depth;
        taken = omega (arith, (h a g.holds).0);
        inside = g.inside;
        holds = (h a g.holds).1;
      })
      weaken (fails f) = fails f

  pub Meets-room : (n' : ℕ) (m : M A) → n' ≤ n → Meets c k n w G m → Meets c k n' w G m
  Meets-room n' m h r = record { run = λ d v hc hk room. r.run d v hc hk (omega arith) }

module _ {A B : Type 0} {c : Config} {k n : ℕ} {G : A → Type 0} {G' : B → Type 0} where
  -- A step that takes nothing, and one that takes a byte, before the rest.
  pub Meets-step :
      (W : B → ℕ) (m : M A) (f : A → M B)
      → Meets c k n (λ _. 0) G m
      → ((a : A) → G a → Meets c k n W G' (f a))
      → Meets c k n W G' (m >>= f)
  Meets-step W m f h next =
      Meets-bind c k n (λ _. 0) W m f h
        (λ a g.
          Meets-room (n - 0) (f a) (omega arith)
            (Meets-weaken (λ b. W b - 0) G' (f a) (λ b g'. (omega arith, g')) (next a g)))

  pub Meets-step_byte :
      (W : B → ℕ) (m : M A) (f : A → M B)
      → Meets c k (suc n) (λ _. 1) G m
      → ((a : A) → G a → Meets c k n (λ b. W b - 1) G' (f a))
      → Meets c k (suc n) W G' (m >>= f)
  Meets-step_byte W m f h next =
      Meets-bind c k (suc n) (λ _. 1) W m f h
        (λ a g. Meets-room (suc n - 1) (f a) (omega arith) (next a g))

  -- A method tried first, whose errors leave the decoder as it was.
  Ensures-try :
      (W : B → ℕ) (d : Decoder) (o : Outcome A) (f : A → M B) (g : Error → M B)
      → IsValid d
      → d.cfg ≡ c
      → d.depth ≡ k
      → Room n d
      → ((e : Error) (d' : Decoder) → o ≡ err e d' → d' ≡ d)
      → Ensures (Good (λ _. 0) G d) (Failed d) o
      → ((a : A) → G a → Meets c k n W G' (f a))
      → ((e : Error) → Meets c k n W G' (g e))
      → Ensures (Good W G' d) (Failed d) (or_else o f g)
  Ensures-try W d o f g v hc hk r same (returns {a} {d = d'} h) next other =
      Ensures-bind c k n (λ _. 0) W d f v hc hk r (returns h)
        (λ a g.
          Meets-room (n - 0) (f a) (omega arith)
            (Meets-weaken (λ b. W b - 0) G' (f a) (λ b g'. (omega arith, g')) (next a g)))
  Ensures-try W d o f g v hc hk r same (fails {e} {d = d'} h) next other =
      rw (same e d' refl) ((other e).run d v hc hk r)

  pub Meets-try :
      (W : B → ℕ) (m : M A) (f : A → M B) (g : Error → M B)
      → ((d : Decoder) (e : Error) (d' : Decoder) → m d ≡ err e d' → d' ≡ d)
      → Meets c k n (λ _. 0) G m
      → ((a : A) → G a → Meets c k n W G' (f a))
      → ((e : Error) → Meets c k n W G' (g e))
      → Meets c k n W G' (try m f g)
  Meets-try W m f g same h next other = record {
    run =
        λ d v hc hk r. Ensures-try W d (m d) f g v hc hk r (same d) (h.run d v hc hk r) next other;
  }
