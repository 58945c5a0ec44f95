-- ===== src/Decoder/Contract/Leaves.antt =====
-- The reads and the checks of a length meet their contracts, and so does a body inside a container.
use msgpck.Base.{
  ℕ, ◌+◌, ◌^◌, ◌≤◌, ◌<◌, ◌≡◌, inl, inr, refl, ap, false, Bytes, All, length, arith, take, drop,
  length-take, length-drop, leb, leb→le, Option, some, All-drop, All-get_elem?, Bool-cases,
}
use msgpck.Base.Words.{
  ℤ, IsInt8, IsInt64, uint16_at, uint32_at, uint64_at, to_int8, to_int16, to_int32, to_int64,
}
use msgpck.Errors.{Error}
use msgpck.Config.{Config, exceeds}
use msgpck.Decoder.{
  Decoder, Outcome, ok, err, M, pure, ◌>>=◌, ◌>>◌, enter_container, deferring_leave, leaving,
  read_byte, read_bytes, read_word, read_uint16, read_uint32, read_uint64, read_int8, read_int16,
  read_int32, read_int64,
}
use msgpck.Decoder.Limits.{check_len}
use msgpck.Decoder.Contract.{
  IsByte, Good, Failed, Ensures, returns, fails, Meets, Meets-bind, Meets-pure, Meets-weaken,
}
use msgpck.Decoder.Contract.Words.{
  IsInt64-of_int8, to_int16-IsInt64, to_int32-IsInt64, to_int64-IsInt64, to_int8-IsInt8, total16,
  total32, total64,
}

-- A read that checks the position first fails without a change, or gives `a` and takes `t` bytes.
module _ {A : Type 0} {w : A → ℕ} {G : A → Type 0} {d : Decoder} where
  unmoved : (e : Error) → d.pos ≤ length d.input → Ensures (Good w G d) (Failed d) (err e d)
  unmoved e h = fails (record {
    same_input = refl;
    same_cfg = refl;
    forward = omega arith;
    inside = h;
    depth_kept = inl refl;
  })

  took :
      (a : A) (t : ℕ)
      → w a ≤ t
      → d.pos + t ≤ length d.input
      → G a
      → Ensures (Good w G d) (Failed d) (ok a (record d { pos = d.pos + t }))
  took a t h l g = returns (record {
    same_input = refl;
    same_cfg = refl;
    same_depth = refl;
    taken = omega arith;
    inside = l;
    holds = g;
  })

-- The deferred leaveContainer lowers the depth again, on a result as on an error.
lowered :
    {A : Type 0} {w : A → ℕ} {G : A → Type 0} (d : Decoder) {o : Outcome A}
    → Ensures
        (Good w G (record d { depth = d.depth + 1 }))
        (Failed (record d { depth = d.depth + 1 }))
        o
    → Ensures (Good w G d) (Failed d) (leaving o)
lowered d (returns g) = returns (record {
  same_input = g.same_input;
  same_cfg = g.same_cfg;
  same_depth = rw g.same_depth (omega arith);
  taken = g.taken;
  inside = g.inside;
  holds = g.holds;
})
lowered d (fails f) = fails (record {
  same_input = f.same_input;
  same_cfg = f.same_cfg;
  forward = f.forward;
  inside = f.inside;
  depth_kept = elim f.depth_kept [ inl p ↦ inl (omega arith) | inr (e, p) ↦ inr (e, omega arith) ];
})

module _ {c : Config} {k n : ℕ} where
  pub Meets-read_byte : Meets c k n (λ _. 1) IsByte read_byte
  unfolding read_byte
  Meets-read_byte = record {
    run = λ d v hc hk r. elim (Bool-cases (leb (length d.input) d.pos)) [
      | inl e ↦ rw e (unmoved _ v.within)
      | inr e ↦
          let (b, here, small) = All-get_elem? IsByte d.input d.pos (lt_of e) v.are_bytes in
          rw (e, here) (took b 1 (omega arith) (omega (arith, lt_of e)) small)
    ];
  }
    where
      lt_of : {a b : ℕ} → leb a b ≡ false → b < a
      lt_of h = ground arith

  -- A read of a word, where the word exists in any long enough run of bytes.
  Meets-word :
      (t bound : ℕ) (word_at : Bytes → Option ℕ)
      → ((bs : Bytes)
          → All IsByte bs
          → t ≤ length bs
          → (v : ℕ) × (word_at bs ≡ some v) × (v < bound))
      → Meets c k n (λ _. t) (λ v. v < bound) (read_word t word_at)
  Meets-word t bound word_at total = record {
    run = λ d v hc hk r. elim (Bool-cases (leb (d.pos + t) (length d.input))) [
      | inl e ↦
          let (x, here, small) =
            total (drop d.pos d.input) (All-drop IsByte d.pos d.input v.are_bytes)
              (omega (arith, length-drop d.pos d.input, leb→le _ _ e)) in
          rw (e, here) (took x t (omega arith) (leb→le _ _ e) small)
      | inr e ↦ rw e (unmoved _ v.within)
    ];
  }

  pub Meets-uint16 : Meets c k n (λ _. 2) (λ v. v < 2 ^ 16) read_uint16
  unfolding read_uint16
  Meets-uint16 = Meets-word 2 _ uint16_at total16

  pub Meets-uint32 : Meets c k n (λ _. 4) (λ v. v < 2 ^ 32) read_uint32
  unfolding read_uint32
  Meets-uint32 = Meets-word 4 _ uint32_at total32

  pub Meets-uint64 : Meets c k n (λ _. 8) (λ v. v < 2 ^ 64) read_uint64
  unfolding read_uint64
  Meets-uint64 = Meets-word 8 _ uint64_at total64

  -- A read, and a value made of what it gives.
  pub Meets-map :
      {A B : Type 0} {w : A → ℕ} {G : A → Type 0} (W : B → ℕ) (G' : B → Type 0) (m : M A)
      (f : A → B)
      → ((a : A) → G a → (W (f a) ≤ w a) × G' (f a))
      → Meets c k n w G m
      → Meets c k n W G' (m >>= λ a. pure (f a))
  Meets-map {w = w} {G = G} W G' m f h r =
      Meets-bind c k n w W m (λ a. pure (f a)) r
        (λ a g. Meets-pure (f a) (omega (arith, (h a g).0)) (h a g).1)

  pub Meets-read_int8 : Meets c k n (λ _. 1) IsInt8 read_int8
  unfolding read_int8
  Meets-read_int8 =
      Meets-map _ _ read_byte to_int8 (λ a g. (omega arith, to_int8-IsInt8 a g)) Meets-read_byte

  pub Meets-int8_wide : Meets c k n (λ _. 1) IsInt64 read_int8
  Meets-int8_wide =
      Meets-weaken (λ _. 1) IsInt64 read_int8 (λ a g. (omega arith, IsInt64-of_int8 a g))
        Meets-read_int8

  pub Meets-int16 : Meets c k n (λ _. 2) IsInt64 read_int16
  unfolding read_int16
  Meets-int16 =
      Meets-map _ _ read_uint16 to_int16 (λ a g. (omega arith, to_int16-IsInt64 a g)) Meets-uint16

  pub Meets-int32 : Meets c k n (λ _. 4) IsInt64 read_int32
  unfolding read_int32
  Meets-int32 =
      Meets-map _ _ read_uint32 to_int32 (λ a g. (omega arith, to_int32-IsInt64 a g)) Meets-uint32

  pub Meets-read_int64 : Meets c k n (λ _. 8) IsInt64 read_int64
  unfolding read_int64
  Meets-read_int64 =
      Meets-map _ _ read_uint64 to_int64 (λ a g. (omega arith, to_int64-IsInt64 a g)) Meets-uint64

  pub Meets-bytes : (l : ℕ) → Meets c k n length (λ bs. length bs ≡ l) (read_bytes l)
  unfolding read_bytes
  Meets-bytes l = record {
    run = λ d v hc hk r.
        let cut : Bytes = take l (drop d.pos d.input) in
        elim (Bool-cases (leb (d.pos + l) (length d.input))) [
          | inl e ↦
              let whole : length cut ≡ l = omega (
                arith,
                length-take l (drop d.pos d.input),
                length-drop d.pos d.input,
                leb→le _ _ e,
              ) in
              rw e (took cut l (omega arith) (leb→le _ _ e) whole)
          | inr e ↦ rw e (unmoved _ v.within)
        ];
  }

  -- A check of a length passes only within the limit.
  pub Meets-check :
      (e : Error) (limit : Config → ℤ) (l needed : ℕ)
      → Meets c k n
          (λ _. 0)
          (λ _. exceeds l (limit c) ≡ false)
          (λ d. check_len e (limit d.cfg) l needed d)
  unfolding check_len
  Meets-check e limit l needed = record {
    run = λ d v hc hk r. elim (Bool-cases (exceeds l (limit d.cfg))) [
      | inl p ↦ rw p (unmoved e v.within)
      | inr p ↦ rw p (elim (Bool-cases (leb (d.pos + needed) (length d.input))) [
        | inl q ↦ rw q (
            returns (record {
              same_input = refl;
              same_cfg = refl;
              same_depth = refl;
              taken = omega arith;
              inside = v.within;
              holds = rw hc at p;
            }))
        | inr q ↦ rw q (unmoved _ v.within)
      ])
    ];
  }

  -- A body inside a container, where the depth allows one.
  pub Meets-container :
      {A : Type 0} (w : A → ℕ) (G : A → Type 0) (m : M A)
      → (exceeds (k + 1) c.max_depth ≡ false → Meets c (k + 1) n w G m)
      → Meets c k n w G (enter_container >> deferring_leave m)
  unfolding enter_container
  Meets-container w G m h = record {
    run = λ d v hc hk r. elim (Bool-cases (exceeds (d.depth + 1) d.cfg.max_depth)) [
      | inl p ↦ rw p (
          fails (record {
            same_input = refl;
            same_cfg = refl;
            forward = omega arith;
            inside = v.within;
            depth_kept = inr (refl, refl);
          }))
      | inr p ↦
          let d' : Decoder = record d { depth = d.depth + 1 } in
          rw p (
            lowered d (
              (h (rw (hc, hk) at p)).run d' (record { within = v.within; are_bytes = v.are_bytes })
                hc (ap (λ k. k + 1) hk) r))
    ];
  }
