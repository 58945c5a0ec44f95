-- ===== src/Decoder/Contract/After.antt =====
-- The contract of a method that runs after a byte was read and can move back before that byte, as the
-- code does with `d.pos--` where it leaves a value to another method.
use msgpck.Base.{
  ℕ, ◌≡◌, refl, sym, ap, ◌∙◌, arith, Bool, true, false, Option, none, some, if◌then◌else◌,
}
use mathlib.Core.Path.{subst}
use msgpck.Errors.{unexpected_eof}
use msgpck.Config.{Config}
use msgpck.Decoder.{
  Decoder, Outcome, ok, err, panic, stuck, M, ◌>>=◌, ◌>>◌, and_then, read_byte, advance, unread,
  or_panic, move, pure,
}
use msgpck.Decoder.Contract.{IsValid, Room, Good, Failed, Ensures, returns, fails}
use msgpck.Decoder.Contract.Calm.{Calm, Calm-bind, Calm-byte}

-- `m` is safe after any byte.
abbrev pub After : Config → ℕ → ℕ → {A : Type 0} → M A → Type 0
After c k n m = Calm c k n (read_byte >> m)

moved :
    (d d' : Decoder) (b : ℕ) (t : Bool) (o : Option ℕ)
    → (if t then err unexpected_eof d else (or_panic o >>= λ a. move 1 >> pure a) d) ≡ ok b d'
    → d' ≡ advance 1 d
moved d d' b true o e = cc
moved d d' b false none e = cc
moved d d' b false (some a) e = cc

read_byte-advance : (d d' : Decoder) (b : ℕ) → read_byte d ≡ ok b d' → d' ≡ advance 1 d
unfolding read_byte
read_byte-advance d d' b e = moved d d' b _ _ e

-- A method that goes on in one of many ways does so in one of them.
bind-one :
    {A : Type 0} (o : Outcome ℕ) (f : ℕ → M A) → (b : ℕ) × (and_then o f ≡ and_then o (λ _. f b))
bind-one (ok b d) f = (b, refl)
bind-one (err e d) f = (0, refl)
bind-one panic f = (0, refl)
bind-one stuck f = (0, refl)

unread-advance : {A : Type 0} (d : Decoder) (m : M A) → (unread >> m) (advance 1 d) ≡ m d
unread-advance d m = ap m (ap (λ (p : ℕ). record d { pos = p }) (omega arith))

module _ {c : Config} {k n : ℕ} where
  pub Calm-byte_back :
      {A : Type 0} (f : ℕ → M A) → ((b : ℕ) → After c k n (f b)) → Calm c k n (read_byte >>= f)
  Calm-byte_back f h = record {
    run = λ d v hc hk r.
        let one = bind-one (read_byte d) f in
        subst (Ensures _ (Failed d)) (sym one.1) ((h one.0).run d v hc hk r);
  }

  pub After-kept : {A : Type 0} (m : M A) → Calm c k n m → After c k n m
  After-kept m h = Calm-bind read_byte (λ _. m) Calm-byte (λ _. h)

  pub After-if :
      {A : Type 0} (t : Bool) (m m' : M A)
      → After c k n m
      → After c k n m'
      → After c k n (if t then m else m')
  After-if true m m' h h' = h
  After-if false m m' h h' = h'

  pub After-unread : {A : Type 0} (m : M A) → Calm c k n m → After c k n (unread >> m)
  After-unread m h = record {
    run = λ d v hc hk r. keep d v hc hk r refl (Calm-byte.run d v hc hk r);
  }
    where
      keep :
          (d : Decoder)
          → IsValid d
          → d.cfg ≡ c
          → d.depth ≡ k
          → Room n d
          → {o : Outcome ℕ} → read_byte d ≡ o
          → Ensures (Good (λ _. 0) (λ _. Unit) d) (Failed d) o
          → Ensures (Good (λ _. 0) (λ _. Unit) d) (Failed d) (and_then o (λ _. unread >> m))
      keep d v hc hk r e (returns {a} {d = d'} g) =
          subst (Ensures _ (Failed d))
            (sym (ap (unread >> m) (read_byte-advance d d' a e) ∙ unread-advance d m))
            (h.run d v hc hk r)
      keep d v hc hk r e (fails f) = fails f
