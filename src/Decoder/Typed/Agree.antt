-- ===== src/Decoder/Typed/Agree.antt =====
-- The typed readers follow DecodeAny, whatever the depths: where DecodeAny returns, they return the
-- same Go value at the same place. They may return where DecodeAny finds the nesting too deep.
use mathlib.Core.Path.{subst}
use msgpck.Base.{ℕ, zero, suc, ◌+◌, ◌*◌, ◌≡◌, refl, ◌∙◌, Bool-cases, inl, inr, ◌||◌, ◌==◌}
use msgpck.Config.{exceeds}
use msgpck.Format.{is_positive_fixint, is_negative_fixint, is_fixmap, is_fixarray, is_fixstr}
use msgpck.Any.{Any, Entries, go_string, go_bytes, go_slice, go_map, item, no_entries, put}
use msgpck.Decoder.{
  Decoder, Outcome, ok, M, pure, and_then, ◌>>=◌, ◌>>◌, read_byte, read_bytes, read_float32,
  read_float64, remaining, read_uint8, read_int8, read_int16, read_int32, read_int64,
  enter_container, leaving, deferring_leave,
}
use msgpck.Decoder.Limits.{
  validate_string_len, validate_binary_len, validate_array_len, validate_map_len,
}
use msgpck.Decoder.Lengths.{parse_string_len_switch, parse_binary_len, read_string_bytes}
use msgpck.Decoder.Any.{
  decode_any_uint_value, decode_any_int_value, decode_string_any, decode_binary_any, any_inside,
  any_elems, decode_array_any, any_key, any_pairs, decode_map_any, any_texts, any_format,
  decode_any_value_with, decode_any_value, decode_any,
}
use msgpck.Decoder.Typed.{
  decode_any_uint, decode_any_int, decode_string_with_len, decode_binary_with_len, decode_any_str,
  decode_any_bin, items_with_len, decode_array_any_with_len, entries_with_len,
  decode_map_string_any_with_len, decode_any_array, decode_any_map, typed_texts, typed_format,
  typed_value, typed_any_value, typed_any,
}
use msgpck.Decoder.Any.Follows.{
  Follows, Follow, fails, panics, stucks, both, Follow-pure, Follow-fail, Follow-if, Follow-bind,
  Follow-then, Follows-ok, Itself-byte, Itself-bytes, Itself-check,
}
use msgpck.Decoder.Any.Itself.{
  Follow-any_key, group_bind, reads, Itself-string_len_switch, Itself-binary_len,
  Itself-array_len_switch, Itself-map_len_switch,
}

-- The second keeps its depth, whatever the first does with its own.
abbrev Keeps : ℕ → ℕ → ℕ → Type 0
Keeps kept j k = k ≡ kept

abbrev Same : ℕ → {A : Type 0} → M A → M A → Type 0
Same kept {A} m n = Follow (Keeps kept) (λ (a : A) (b : A). a ≡ b) m n

module _ {kept : ℕ} where
  -- Only the first enters a container.
  Same-container :
      {A : Type 0} (m n : M A) → Same kept m n → Same kept (enter_container >> deferring_leave m) n
  unfolding enter_container
  Same-container {A} m n h = record {
    run = λ d k p. elim (Bool-cases (exceeds (d.depth + 1) d.cfg.max_depth)) [
      | inl e ↦ rw e (fails _ _ _)
      | inr e ↦ rw e (left (h.run (record d { depth = d.depth + 1 }) k p))
    ];
  }
    where
      left :
          {o o' : Outcome A}
          → Follows (Keeps kept) (λ (a : A) (b : A). a ≡ b) o o'
          → Follows (Keeps kept) (λ (a : A) (b : A). a ≡ b) (leaving o) o'
      left (both a b d k p r) = both a b _ k p r
      left (fails e d o) = fails e _ _
      left panics = panics
      left stucks = stucks

  Same-bind :
      {A B : Type 0} (m n : M A) (f g : A → M B)
      → Same kept m n
      → ((a : A) → Same kept (f a) (g a))
      → Same kept (m >>= f) (n >>= g)
  Same-bind m n f g r h =
      Follow-bind m n f g r (λ a b e. subst (λ b. Same kept (f a) (g b)) e (h a))

  -- What both make of equal results.
  Itself-of :
      {A B : Type 0} (m n : M A) (f : A → B)
      → Same kept m n
      → Same kept (m >>= λ a. pure (f a)) (n >>= λ a. pure (f a))
  Itself-of m n f r = Same-bind m n _ _ r (λ a. Follow-pure (f a) (f a) refl)

  Same-uint : (f : ℕ) → Same kept (decode_any_uint_value f) (decode_any_uint f)
  unfolding decode_any_uint_value decode_any_uint read_uint8
  Same-uint f = search reads depth 12

  Same-int : (f : ℕ) → Same kept (decode_any_int_value f) (decode_any_int f)
  unfolding decode_any_int_value decode_any_int read_int8 read_int16 read_int32 read_int64
  Same-int f = search reads depth 12

  Same-string : (l : ℕ) → Same kept (decode_string_any l) (decode_string_with_len l)
  unfolding decode_string_any decode_string_with_len validate_string_len
  Same-string l =
      Follow-then _ _ _ (Itself-check _ (λ c. c.max_string_len) l l) (λ _. Itself-bytes l)

  Same-binary : (l : ℕ) → Same kept (decode_binary_any l) (decode_binary_with_len l)
  unfolding decode_binary_any decode_binary_with_len validate_binary_len
  Same-binary l =
      Follow-then _ _ _ (Itself-check _ (λ c. c.max_binary_len) l l) (λ _. Itself-bytes l)

  Same-key : (below : ℕ → M Any) → Same kept (any_key below) read_string_bytes
  unfolding read_string_bytes
  Same-key below =
      Follow-any_key below (λ f o. and_then o (λ l. validate_string_len l >> read_bytes l))
        (λ f l d. refl) (λ f. refl) (λ f. refl)

  module _ (below : ℕ → M Any) (inside : M Any) (h : Same kept (any_inside below) inside) where
    Same-items : (n : ℕ) → Same kept (any_elems below n) (items_with_len inside n)
    unfolding any_elems items_with_len
    Same-items zero = Follow-pure _ _ refl
    Same-items (suc n) = Same-bind _ _ _ _ h λ x. Itself-of _ _ (item x) (Same-items n)

    Same-array : (n : ℕ) → Same kept (decode_array_any below n) (decode_array_any_with_len inside n)
    unfolding decode_array_any decode_array_any_with_len validate_array_len
    Same-array n =
        Follow-then _ _ _ (Itself-check _ (λ c. c.max_array_len) n n)
          λ _. Same-container _ _ (Itself-of _ _ go_slice (Same-items n))

    Same-entries :
        (n : ℕ) (m : Entries) → Same kept (any_pairs below n m) (entries_with_len inside n m)
    unfolding any_pairs entries_with_len
    Same-entries zero m = Follow-pure _ _ refl
    Same-entries (suc n) m =
        Same-bind _ _ _ _ (Same-key below)
          λ key. Same-bind _ _ _ _ h λ x. Same-entries n (put key x m)

    Same-map :
        (n : ℕ) → Same kept (decode_map_any below n) (decode_map_string_any_with_len inside n)
    unfolding decode_map_any decode_map_string_any_with_len validate_map_len
    Same-map n =
        Follow-then _ _ _ (Itself-check _ (λ c. c.max_map_len) n (n * 2))
          λ _. Same-container _ _ (Itself-of _ _ go_map (Same-entries n no_entries))

    Same-texts : (f : ℕ) → Same kept (any_texts below f) (typed_texts inside f)
    unfolding any_texts typed_texts decode_any_str decode_any_bin decode_any_array decode_any_map
    Same-texts f =
        Follow-if (f == 0xd9 || f == 0xda || f == 0xdb) _ _ _ _
          (rw
            (group_bind (parse_string_len_switch f) decode_string_with_len
              (λ s. pure (go_string s)))
            (Follow-then _ _ _ (Itself-string_len_switch f)
              (λ l. Itself-of _ _ go_string (Same-string l))))
          (Follow-if (f == 0xc4 || f == 0xc5 || f == 0xc6) _ _ _ _
            (rw (group_bind (parse_binary_len f) decode_binary_with_len (λ s. pure (go_bytes s))) (
              Follow-then _ _ _ (Itself-binary_len f)
                (λ l. Itself-of _ _ go_bytes (Same-binary l))))
            (Follow-if (f == 0xdc || f == 0xdd) _ _ _ _
              (Follow-then _ _ _ (Itself-array_len_switch f) Same-array)
              (Follow-if (f == 0xde || f == 0xdf) _ _ _ _
                (Follow-then _ _ _ (Itself-map_len_switch f) Same-map) (Follow-fail _ _))))

    Same-format : (f : ℕ) → Same kept (any_format below f) (typed_format inside f)
    unfolding any_format typed_format read_float32 read_float64
    Same-format f = Follow-if (f == 0xc0) _ _ _ _ (Follow-pure _ _ refl) (
        Follow-if (f == 0xc2) _ _ _ _ (Follow-pure _ _ refl) (
          Follow-if (f == 0xc3) _ _ _ _ (Follow-pure _ _ refl) (
            Follow-if (f == 0xcc || f == 0xcd || f == 0xce || f == 0xcf) _ _ _ _ (Same-uint f) (
              Follow-if (f == 0xd0 || f == 0xd1 || f == 0xd2 || f == 0xd3) _ _ _ _ (Same-int f) (
                Follow-if (f == 0xca) _ _ _ _ (search reads)
                  (Follow-if (f == 0xcb) _ _ _ _ (search reads) (Same-texts f)))))))

    Same-value_with : (f : ℕ) → Same kept (decode_any_value_with below f) (typed_value inside f)
    unfolding decode_any_value_with typed_value
    Same-value_with f = Follow-if (is_positive_fixint f) _ _ _ _ (Follow-pure _ _ refl) (
        Follow-if (is_negative_fixint f) _ _ _ _ (Follow-pure _ _ refl) (
          Follow-if (is_fixmap f) _ _ _ _ (Same-map _) (
            Follow-if (is_fixarray f) _ _ _ _ (Same-array _) (
              Follow-if (is_fixstr f) _ _ _ _ (Itself-of _ _ go_string (Same-string _))
                (Same-format f)))))

  Same-value : (fuel f : ℕ) → Same kept (decode_any_value fuel f) (typed_any_value fuel f)
  unfolding decode_any_value typed_any_value any_inside
  Same-value zero f = record { run = λ d k p. stucks }
  Same-value (suc fuel) f =
      Same-value_with (decode_any_value fuel) (read_byte >>= typed_any_value fuel)
        (Follow-then read_byte _ _ Itself-byte (Same-value fuel)) f

-- Where DecodeAny returns, decodeAnyValue of typed_decode.go returns the same Go value and stops at
-- the same place, at whatever depth it is called; it leaves that depth as it is.
pub typed_any-decode_any :
    (d : Decoder) (k : ℕ) (a : Any) (d' : Decoder)
    → decode_any d ≡ ok a d'
    → typed_any (record d { depth = k }) ≡ ok a (record d' { depth = k })
unfolding decode_any typed_any any_inside
typed_any-decode_any d k a d' e =
    let fuel = remaining d + 1 in
    let (b, j, same, p, r) =
      Follows-ok a d'
        ((Follow-then read_byte (decode_any_value fuel) (typed_any_value fuel) Itself-byte
            (Same-value {kept = k} fuel)).run
          d k refl)
        e in
    same ∙ rw (p, r) refl
