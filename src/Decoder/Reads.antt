-- ===== src/Decoder/Reads.antt =====
-- Reading a known string of bytes: what a method does where its bytes stand in the input, whatever
-- follows them, at a given configuration and depth. The rules follow the way that methods are built.
use msgpck.Base.{
  ℕ, ◌+◌, ◌≤◌, ◌<◌, ◌^◌, ◌≡◌, refl, ap, ◌∙◌, Bool, true, false, Bytes, [], ◌∷◌, ◌++◌, arith, length,
  drop, length-append, length-drop, take-append, drop-append, drop-drop, get_elem?-drop,
  append_assoc, le→leb, lt→leb_false, if◌then◌else◌, Option, some,
}
use msgpck.Base.Words.{
  ℤ, be16, be32, be64, uint16_at, uint32_at, uint64_at, uint16_at-be16, uint32_at-be32,
  uint64_at-be64,
}
use msgpck.Errors.{Error}
use msgpck.Config.{Config, exceeds}
use msgpck.Decoder.{
  Decoder, ok, M, pure, ◌>>=◌, ◌>>◌, advance, read_byte, read_bytes, read_uint16, read_uint32,
  read_uint64, read_word, enter_container, deferring_leave,
}
use msgpck.Decoder.Limits.{check_len}

-- `m` reads `bs` at depth `k` under `c`, gives `a` and changes nothing but the position.
pub record Reads {ℓ} {A : Type ℓ} (c : Config) (k : ℕ) (m : M A) (bs : Bytes) (a : A) : Type ℓ where
  pub run :
      (d : Decoder) (rest : Bytes)
      → d.cfg ≡ c
      → d.depth ≡ k
      → d.pos ≤ length d.input
      → drop d.pos d.input ≡ bs ++ rest
      → m d ≡ ok a (advance (length bs) d)

-- The bytes that stand in the input lie before its end.
pub left-length :
    (d : Decoder) (bs rest : Bytes)
    → d.pos ≤ length d.input
    → drop d.pos d.input ≡ bs ++ rest
    → d.pos + length bs ≤ length d.input
left-length d bs rest hp h =
    omega (arith, length-drop d.pos d.input, ap length h, length-append bs rest)

module _ {ℓ} {A : Type ℓ} {c : Config} {k : ℕ} where
  pub Reads-pure : (a : A) → Reads c k (pure a) [] a
  Reads-pure a = record {
    run = λ d rest hc hk hp h. ap (λ (n : ℕ). ok a (record d { pos = n })) (omega arith);
  }

  -- The depth is raised while the body runs.
  pub Reads-container :
      (m : M A) (bs : Bytes) (a : A)
      → exceeds (k + 1) c.max_depth ≡ false
      → Reads c (k + 1) m bs a
      → Reads c k (enter_container >> deferring_leave m) bs a
  unfolding enter_container
  Reads-container m bs a fits r = record {
    run = λ d rest hc hk hp h.
        let d' : Decoder = record d { depth = d.depth + 1 } in
        let test : exceeds (d.depth + 1) d.cfg.max_depth ≡ false = rw (hc, hk) fits in
        rw (test, r.run d' rest hc (ap (λ n. n + 1) hk) hp h)
          (ap (λ (n : ℕ). ok a (record d { pos = d.pos + length bs; depth = n })) (omega arith));
  }

  -- A length check passes where the limit allows the length and the body reads as many bytes.
  pub Reads-check :
      (e : Error) (limit : Config → ℤ) (n needed : ℕ) (m : M A) (bs : Bytes) (a : A)
      → exceeds n (limit c) ≡ false
      → needed ≤ length bs
      → Reads c k m bs a
      → Reads c k ((λ d. check_len e (limit d.cfg) n needed d) >> m) bs a
  unfolding check_len
  Reads-check e limit n needed m bs a fits enough r = record {
    run = λ d rest hc hk hp h.
        let test : exceeds n (limit d.cfg) ≡ false = rw hc fits in
        rw
          (
            test,
            le→leb (d.pos + needed) (length d.input) (omega (arith, left-length d bs rest hp h)),
          )
          (r.run d rest hc hk hp h);
  }

module _ {ℓ} {A : Type ℓ} {c : Config} {k : ℕ} {m : M A} {a : A} where
  pub Reads-if :
      (t : Bool) (bs cs : Bytes)
      → (t ≡ true → Reads c k m bs a)
      → (t ≡ false → Reads c k m cs a)
      → Reads c k m (if t then bs else cs) a
  Reads-if true bs cs r s = r refl
  Reads-if false bs cs r s = s refl

  -- The same for a header, with what stands behind it.
  pub Reads-if_append :
      (t : Bool) (bs cs xs : Bytes)
      → (t ≡ true → Reads c k m (bs ++ xs) a)
      → (t ≡ false → Reads c k m (cs ++ xs) a)
      → Reads c k m ((if t then bs else cs) ++ xs) a
  Reads-if_append true bs cs xs r s = r refl
  Reads-if_append false bs cs xs r s = s refl

module _ {ℓ κ} {A : Type ℓ} {B : Type κ} {c : Config} {k : ℕ} where
  pub Reads-bind :
      (m : M A) (f : A → M B) (bs cs : Bytes) (a : A) (b : B)
      → Reads c k m bs a
      → Reads c k (f a) cs b
      → Reads c k (m >>= f) (bs ++ cs) b
  Reads-bind m f bs cs a b r s = record {
    run = λ d rest hc hk hp h.
        let here : drop d.pos d.input ≡ bs ++ (cs ++ rest) = h ∙ append_assoc bs cs rest in
        let there : drop (d.pos + length bs) d.input ≡ cs ++ rest =
          drop-drop d.pos (length bs) (d.pos + length bs) d.input refl
          ∙ rw here (drop-append bs (cs ++ rest) (length bs) refl) in
        rw (r.run d (cs ++ rest) hc hk hp here) (
          s.run (advance (length bs) d) rest hc hk (left-length d bs (cs ++ rest) hp here) there
          ∙ ap (λ (n : ℕ). ok b (record d { pos = n })) (omega (arith, length-append bs cs)));
  }

module _ {c : Config} {k : ℕ} where
  pub Reads-byte : (b : ℕ) → Reads c k read_byte (b ∷ []) b
  unfolding read_byte
  Reads-byte b = record {
    run = λ d rest hc hk hp h. rw (
      lt→leb_false (length d.input) d.pos (omega (arith, left-length d (b ∷ []) rest hp h)),
      get_elem?-drop d.pos d.input h,
    );
  }

  Reads-word :
      (n : ℕ) (word_at : Bytes → Option ℕ) (bs : Bytes) (v : ℕ)
      → n ≡ length bs
      → ((rest : Bytes) → word_at (bs ++ rest) ≡ some v)
      → Reads c k (read_word n word_at) bs v
  Reads-word n word_at bs v l reads = record {
    run = λ d rest hc hk hp h. rw (
      le→leb (d.pos + n) (length d.input) (omega (arith, left-length d bs rest hp h)),
      h,
      reads rest,
      l,
    );
  }

  pub Reads-uint16 : (v : ℕ) → v < 2 ^ 16 → Reads c k read_uint16 (be16 v) v
  unfolding read_uint16 be16
  Reads-uint16 v h = Reads-word 2 uint16_at (be16 v) v refl (λ r. uint16_at-be16 v r h)

  pub Reads-uint32 : (v : ℕ) → v < 2 ^ 32 → Reads c k read_uint32 (be32 v) v
  unfolding read_uint32 be32
  Reads-uint32 v h = Reads-word 4 uint32_at (be32 v) v refl (λ r. uint32_at-be32 v r h)

  pub Reads-uint64 : (v : ℕ) → v < 2 ^ 64 → Reads c k read_uint64 (be64 v) v
  unfolding read_uint64 be64
  Reads-uint64 v h = Reads-word 8 uint64_at (be64 v) v refl (λ r. uint64_at-be64 v r h)

  pub Reads-bytes : (n : ℕ) (bs : Bytes) → n ≡ length bs → Reads c k (read_bytes n) bs bs
  unfolding read_bytes
  Reads-bytes n bs l = record {
    run = λ d rest hc hk hp h. rw (
      le→leb (d.pos + n) (length d.input) (omega (arith, left-length d bs rest hp h)),
      h,
      take-append bs rest n l,
      l,
    );
  }
