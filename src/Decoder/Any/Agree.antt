-- ===== src/Decoder/Any/Agree.antt =====
-- DecodeAny follows Decode: what the one returns stands for what the other returns.
use msgpck.Base.{
  ℕ, zero, suc, ◌^◌, ◌*◌, ◌+◌, ◌≡◌, refl, sym, true, false, Bool-cases, inl, inr, ◌||◌, ◌==◌, ltb,
  arith, ltb→lt, lt→ltb, ltb_false→le, Bytes, if◌then◌else◌,
}
use msgpck.Base.Words.{to_int64}
use msgpck.Base.Floats.{float64_of_float32}
use msgpck.Format.{is_positive_fixint, is_negative_fixint, is_fixmap, is_fixarray, is_fixstr}
use msgpck.Any.{
  Any, Entries, go_int64, go_uint64, go_float64, go_string, go_bytes, go_slice, go_map, item,
  no_entries, put,
}
use msgpck.Any.Represents.{
  Represents, Items, Fills, rep_nil, rep_bool, rep_int, rep_small, rep_large, rep_float32,
  rep_float64, rep_string, rep_bytes, rep_slice, rep_map, all_items, one_item, all_put, one_put,
}
use msgpck.Value.{Value, uint, string, binary, array, map, elem, kv}
use msgpck.Decoder.{
  Decoder, M, pure, or_else, ◌>>=◌, ◌>>◌, read_byte, read_bytes, read_uint8, read_uint16,
  read_uint32, read_uint64, read_int8, read_int16, read_int32, read_int64, read_float32,
  read_float64, remaining,
}
use msgpck.Decoder.Limits.{
  validate_string_len, validate_binary_len, validate_array_len, validate_map_len,
}
use msgpck.Decoder.Lengths.{parse_string_len_switch, parse_binary_len}
use msgpck.Decoder.Values.{
  decode_uint_to_value, decode_int_to_value, decode_float_to_value, decode_string, decode_binary,
  decode_inside, decode_elems, decode_array, decode_map_key, key_bytes, decode_pairs, decode_map,
  decode_containers, decode_format, decode_value_with, decode_value, decode,
}
use msgpck.Decoder.Any.{
  decode_any_uint_value, decode_any_int_value, decode_string_any, decode_binary_any, any_inside,
  any_elems, decode_array_any, any_key, any_pairs, decode_map_any, any_texts, any_format,
  decode_any_value_with, decode_any_value, decode_any,
}
use msgpck.Decoder.Any.Follows.{
  Follows, Follow, stucks, Follow-pure, Follow-fail, Follow-if, Follow-bind, Follow-then,
  Follow-map, Follow-right, Follow-container, Itself-byte, Itself-bytes, Itself-uint16,
  Itself-uint32, Itself-uint64, Itself-check,
}
use msgpck.Decoder.Any.Itself.{
  Follow-any_key, Follow-any_key, reads, group, Itself-string_len_switch, Itself-binary_len,
  Itself-array_len_switch, Itself-map_len_switch,
}

rep_uint64 :
    (v : ℕ)
    → Represents (if ltb 9223372036854775807 v then go_uint64 v else go_int64 (to_int64 v)) (uint v)
unfolding to_int64
rep_uint64 v = elim (Bool-cases (ltb 9223372036854775807 v)) [
  | inl e ↦ rw e (rep_large v (omega (arith, ltb→lt 9223372036854775807 v e)))
  | inr e ↦
      rw (e, lt→ltb v (2 ^ 63) (omega (arith, ltb_false→le 9223372036854775807 v e))) (rep_small v)
]

module _ {P : ℕ → ℕ → Type 0} where
  Follow-uint : (f : ℕ) → Follow P Represents (decode_any_uint_value f) (decode_uint_to_value f)
  unfolding decode_any_uint_value decode_uint_to_value read_uint8
  Follow-uint f = Follow-if (f == 0xcc) _ _ _ _ (Follow-map read_byte _ _ Itself-byte rep_small) (
      Follow-if (f == 0xcd) _ _ _ _ (Follow-map read_uint16 _ _ Itself-uint16 rep_small) (
        Follow-if (f == 0xce) _ _ _ _ (Follow-map read_uint32 _ _ Itself-uint32 rep_small)
          (Follow-map read_uint64 _ _ Itself-uint64 rep_uint64)))

  Follow-int : (f : ℕ) → Follow P Represents (decode_any_int_value f) (decode_int_to_value f)
  unfolding decode_any_int_value decode_int_to_value read_int8 read_int16 read_int32 read_int64
  Follow-int f = Follow-if (f == 0xd0) _ _ _ _ (Follow-map read_int8 _ _ (search reads) rep_int) (
      Follow-if (f == 0xd1) _ _ _ _ (Follow-map read_int16 _ _ (search reads) rep_int) (
        Follow-if (f == 0xd2) _ _ _ _ (Follow-map read_int32 _ _ (search reads) rep_int)
          (Follow-map read_int64 _ _ (search reads) rep_int)))

module _ {P : ℕ → ℕ → Type 0} where
  Follow-string :
      (l : ℕ)
      → Follow P Represents (decode_string_any l >>= λ s. pure (go_string s)) (decode_string l)
  unfolding decode_string_any decode_string validate_string_len
  Follow-string l = rw (group (validate_string_len l) (read_bytes l) (λ s. pure (go_string s))) (
      Follow-then (validate_string_len l) _ _ (Itself-check _ (λ c. c.max_string_len) l l)
        λ _. Follow-map (read_bytes l) go_string string (Itself-bytes l) rep_string)

  Follow-binary :
      (l : ℕ)
      → Follow P Represents (decode_binary_any l >>= λ s. pure (go_bytes s)) (decode_binary l)
  unfolding decode_binary_any decode_binary validate_binary_len
  Follow-binary l = rw (group (validate_binary_len l) (read_bytes l) (λ s. pure (go_bytes s))) (
      Follow-then (validate_binary_len l) _ _ (Itself-check _ (λ c. c.max_binary_len) l l)
        λ _. Follow-map (read_bytes l) go_bytes binary (Itself-bytes l) rep_bytes)

-- A key: where it is a string, both read the same bytes.
Follow-key :
    {P : ℕ → ℕ → Type 0} (below : ℕ → M Any) (below' : ℕ → M Value)
    → Follow P (λ (a : Bytes) (b : Bytes). a ≡ b) (any_key below) (decode_map_key below')
unfolding decode_map_key
Follow-key below below' =
    Follow-any_key below
      (λ f o.
        or_else o (λ l. validate_string_len l >> read_bytes l)
          (λ _. below' f >>= λ v. pure (key_bytes v)))
      (λ f l d. refl) (λ f. refl) (λ f. refl)

module _ (below : ℕ → M Any) (below' : ℕ → M Value)
    (h : (f : ℕ) → Follow (λ j k. j ≡ k) Represents (below f) (below' f)) where
  Follow-inside : Follow (λ j k. j ≡ k) Represents (any_inside below) (decode_inside below')
  unfolding any_inside decode_inside
  Follow-inside = Follow-then read_byte below below' Itself-byte h

  Follow-elems : (n : ℕ) → Follow (λ j k. j ≡ k) Items (any_elems below n) (decode_elems below' n)
  unfolding any_elems decode_elems
  Follow-elems zero = Follow-pure _ _ all_items
  Follow-elems (suc n) = Follow-bind _ _ _ _ Follow-inside λ x v r.
      Follow-bind _ _ _ _ (Follow-elems n)
        λ xs vs q. Follow-pure (item x xs) (elem v vs) (one_item x v xs vs r q)

  Follow-array :
      (n : ℕ) → Follow (λ j k. j ≡ k) Represents (decode_array_any below n) (decode_array below' n)
  unfolding decode_array_any decode_array validate_array_len
  Follow-array n = Follow-then _ _ _ (Itself-check _ (λ c. c.max_array_len) n n) λ _.
      Follow-container _ _ (
        Follow-bind _ _ _ _ (Follow-elems n)
          λ xs vs q. Follow-pure (go_slice xs) (array vs) (rep_slice xs vs q))

  Follow-pairs :
      (n : ℕ) (m : Entries)
      → Follow
          (λ j k. j ≡ k)
          (λ m' kvs. Fills m kvs m')
          (any_pairs below n m)
          (decode_pairs below' n)
  unfolding any_pairs decode_pairs
  Follow-pairs zero m = Follow-pure m _ (all_put m)
  Follow-pairs (suc n) m = Follow-bind _ _ _ _ (Follow-key below below') λ key key' e.
      Follow-bind _ _ _ _ Follow-inside λ x v r.
        Follow-right _ _ (kv key' v) (λ m' kvs q. rw (sym e) (one_put key x v m m' kvs r q))
          (Follow-pairs n (put key x m))

  Follow-map_of :
      (n : ℕ) → Follow (λ j k. j ≡ k) Represents (decode_map_any below n) (decode_map below' n)
  unfolding decode_map_any decode_map validate_map_len
  Follow-map_of n = Follow-then _ _ _ (Itself-check _ (λ c. c.max_map_len) n (n * 2)) λ _.
      Follow-container _ _ (
        Follow-bind _ _ _ _ (Follow-pairs n no_entries)
          λ m kvs q. Follow-pure (go_map m) (map kvs) (rep_map m kvs q))

  Follow-texts :
      (f : ℕ)
      → Follow
          (λ j k. j ≡ k)
          Represents
          (any_texts below f)
          (if f == 0xd9 || f == 0xda || f == 0xdb
            then (parse_string_len_switch f >>= λ l. decode_string l)
            else if f == 0xc4 || f == 0xc5 || f == 0xc6
            then (parse_binary_len f >>= λ l. decode_binary l)
            else decode_containers below' f)
  unfolding any_texts decode_containers
  Follow-texts f =
      Follow-if (f == 0xd9 || f == 0xda || f == 0xdb) _ _ _ _
        (Follow-then _ _ _ (Itself-string_len_switch f) Follow-string)
        (Follow-if (f == 0xc4 || f == 0xc5 || f == 0xc6) _ _ _ _
          (Follow-then _ _ _ (Itself-binary_len f) Follow-binary)
          (Follow-if (f == 0xdc || f == 0xdd) _ _ _ _
            (Follow-then _ _ _ (Itself-array_len_switch f) Follow-array)
            (Follow-if (f == 0xde || f == 0xdf) _ _ _ _
              (Follow-then _ _ _ (Itself-map_len_switch f) Follow-map_of) (Follow-fail _ _))))

  -- Decode asks for both float formats at once.
  Follow-floats :
      (f : ℕ) (m : M Any) (n : M Value)
      → Follow (λ j k. j ≡ k) Represents m n
      → Follow
          (λ j k. j ≡ k)
          Represents
          (if f == 0xca
            then (read_float32 >>= λ v. pure (go_float64 (float64_of_float32 v)))
            else if f == 0xcb
            then (read_float64 >>= λ v. pure (go_float64 v))
            else m)
          (if f == 0xca || f == 0xcb then decode_float_to_value f else n)
  unfolding decode_float_to_value read_float32 read_float64
  Follow-floats f m n r = elim (Bool-cases (f == 0xca)) [
    | inl e ↦ rw e (Follow-map _ _ _ (search reads) rep_float32)
    | inr e ↦ rw e (Follow-if (f == 0xcb) _ _ _ _ (Follow-map _ _ _ (search reads) rep_float64) r)
  ]

  Follow-format :
      (f : ℕ) → Follow (λ j k. j ≡ k) Represents (any_format below f) (decode_format below' f)
  unfolding any_format decode_format
  Follow-format f = Follow-if (f == 0xc0) _ _ _ _ (Follow-pure _ _ rep_nil) (
      Follow-if (f == 0xc2) _ _ _ _ (Follow-pure _ _ (rep_bool false)) (
        Follow-if (f == 0xc3) _ _ _ _ (Follow-pure _ _ (rep_bool true)) (
          Follow-if (f == 0xcc || f == 0xcd || f == 0xce || f == 0xcf) _ _ _ _ (Follow-uint f) (
            Follow-if (f == 0xd0 || f == 0xd1 || f == 0xd2 || f == 0xd3) _ _ _ _ (Follow-int f)
              (Follow-floats f _ _ (Follow-texts f))))))

  Follow-value_with :
      (f : ℕ)
      → Follow
          (λ j k. j ≡ k)
          Represents
          (decode_any_value_with below f)
          (decode_value_with below' f)
  unfolding decode_any_value_with decode_value_with
  Follow-value_with f = Follow-if (is_positive_fixint f) _ _ _ _ (Follow-pure _ _ (rep_small f)) (
      Follow-if (is_negative_fixint f) _ _ _ _ (Follow-pure _ _ (rep_int _)) (
        Follow-if (is_fixmap f) _ _ _ _ (Follow-map_of _) (
          Follow-if (is_fixarray f) _ _ _ _ (Follow-array _)
            (Follow-if (is_fixstr f) _ _ _ _ (Follow-string _) (Follow-format f)))))

Follow-value :
    (fuel f : ℕ) → Follow (λ j k. j ≡ k) Represents (decode_any_value fuel f) (decode_value fuel f)
unfolding decode_any_value decode_value
Follow-value zero f = record { run = λ d k p. stucks }
Follow-value (suc fuel) f =
    Follow-value_with (decode_any_value fuel) (decode_value fuel) (Follow-value fuel) f

pub Follows-decode_any : (d : Decoder) → Follows (λ j k. j ≡ k) Represents (decode_any d) (decode d)
unfolding decode_any decode
Follows-decode_any d =
    let fuel = remaining d + 1 in
    (Follow-inside (decode_any_value fuel) (decode_value fuel) (Follow-value fuel)).run d d.depth
      refl
