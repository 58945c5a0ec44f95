-- ===== src/Format/Ranges.antt =====
-- The mask tests of format.go as ranges of bytes, by evaluation over all 256 bytes.
use msgpck.Base.{
  ℕ, ◌+◌, ◌%◌, ◌<◌, ◌≡◌, refl, Bool, true, false, ◌&&◌, ◌==◌, leb, ltb, arith, ==_iff, bit_or,
}
use msgpck.Base.Bits.{holds_below, holds_below_sound}
use msgpck.Format.{
  is_positive_fixint, is_negative_fixint, is_fixmap, is_fixarray, is_fixstr, fixmap_len,
  fixarray_len, fixstr_len, fixmap_prefix, fixarray_prefix, fixstr_prefix,
}

abbrev eqb : Bool → Bool → Bool
eqb true b = b
eqb false true = false
eqb false false = true

eqb→eq : (a b : Bool) → eqb a b ≡ true → a ≡ b
eqb→eq a b h = ground arith

pub is_positive_fixint-range : (b : ℕ) → b < 256 → is_positive_fixint b ≡ ltb b 0x80
unfolding is_positive_fixint holds_below
is_positive_fixint-range b h =
    eqb→eq _ _ (holds_below_sound 256 (λ x. eqb (is_positive_fixint x) (ltb x 0x80)) b refl h)

pub is_fixmap-range : (b : ℕ) → b < 256 → is_fixmap b ≡ (leb 0x80 b && ltb b 0x90)
unfolding is_fixmap holds_below
is_fixmap-range b h =
    eqb→eq _ _ (holds_below_sound 256 (λ x. eqb (is_fixmap x) (leb 0x80 x && ltb x 0x90)) b refl h)

pub is_fixarray-range : (b : ℕ) → b < 256 → is_fixarray b ≡ (leb 0x90 b && ltb b 0xa0)
unfolding is_fixarray holds_below
is_fixarray-range b h =
    eqb→eq _ _
      (holds_below_sound 256 (λ x. eqb (is_fixarray x) (leb 0x90 x && ltb x 0xa0)) b refl h)

pub is_fixstr-range : (b : ℕ) → b < 256 → is_fixstr b ≡ (leb 0xa0 b && ltb b 0xc0)
unfolding is_fixstr holds_below
is_fixstr-range b h =
    eqb→eq _ _ (holds_below_sound 256 (λ x. eqb (is_fixstr x) (leb 0xa0 x && ltb x 0xc0)) b refl h)

pub is_negative_fixint-range : (b : ℕ) → is_negative_fixint b ≡ leb 0xe0 b
unfolding is_negative_fixint
is_negative_fixint-range b = refl

pub fixmap_len-mod : (b : ℕ) → b < 256 → fixmap_len b ≡ b % 16
unfolding fixmap_len holds_below
fixmap_len-mod b h = (==_iff _ _).0 (holds_below_sound 256 (λ x. fixmap_len x == x % 16) b refl h)

pub fixarray_len-mod : (b : ℕ) → b < 256 → fixarray_len b ≡ b % 16
unfolding fixarray_len holds_below
fixarray_len-mod b h =
    (==_iff _ _).0 (holds_below_sound 256 (λ x. fixarray_len x == x % 16) b refl h)

pub fixstr_len-mod : (b : ℕ) → b < 256 → fixstr_len b ≡ b % 32
unfolding fixstr_len holds_below
fixstr_len-mod b h = (==_iff _ _).0 (holds_below_sound 256 (λ x. fixstr_len x == x % 32) b refl h)

-- `prefix | byte(length)` for the lengths that fit.
pub fixmap_or : (n : ℕ) → n < 16 → bit_or fixmap_prefix (n % 256) ≡ 0x80 + n
unfolding holds_below
fixmap_or n h =
    (==_iff _ _).0 (holds_below_sound 16 (λ x. bit_or 0x80 (x % 256) == 0x80 + x) n refl h)

pub fixarray_or : (n : ℕ) → n < 16 → bit_or fixarray_prefix (n % 256) ≡ 0x90 + n
unfolding holds_below
fixarray_or n h =
    (==_iff _ _).0 (holds_below_sound 16 (λ x. bit_or 0x90 (x % 256) == 0x90 + x) n refl h)

pub fixstr_or : (n : ℕ) → n < 32 → bit_or fixstr_prefix (n % 256) ≡ 0xa0 + n
unfolding holds_below
fixstr_or n h =
    (==_iff _ _).0 (holds_below_sound 32 (λ x. bit_or 0xa0 (x % 256) == 0xa0 + x) n refl h)
