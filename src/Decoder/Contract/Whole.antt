-- ===== src/Decoder/Contract/Whole.antt =====
-- Decode meets its contract on any input: by induction on the fuel, which the bytes that are left bound.
use msgpck.Base.{
  ℕ, zero, suc, ◌+◌, ◌-◌, ◌*◌, ◌≤◌, ◌≡◌, refl, ◌||◌, true, false, Bytes, length, arith, ◌==◌,
}
use msgpck.Base.Words.{to_int8}
use msgpck.Config.{Config, exceeds}
use msgpck.Format.{
  is_positive_fixint, is_negative_fixint, is_fixmap, is_fixarray, is_fixstr, fixmap_len,
  fixarray_len, fixstr_len,
}
use msgpck.Format.Ranges.{fixmap_len-mod, fixarray_len-mod, fixstr_len-mod}
use msgpck.Value.{
  Value, Values, Kvs, nil, bool, int, uint, string, array, map, no_values, elem, no_kvs, kv,
  values_len, kvs_len,
}
use msgpck.Value.Size.{size, size_values, size_kvs}
use msgpck.Encoder.Refines.{IsSized, AllSized, KvsSized}
use msgpck.Decoder.{Decoder, M, read_byte, read_bytes, remaining}
use msgpck.Decoder.Limits.{validate_string_len, validate_array_len, validate_map_len}
use msgpck.Decoder.Lengths.{parse_string_len}
use msgpck.Decoder.Values.{
  key_bytes, decode_inside, decode_elems, decode_array, decode_map_key, decode_pairs, decode_map,
  decode_format, decode_containers, decode_exts, decode_value_with, decode_value, decode,
  decode_string, decode_binary,
}
use msgpck.Decoder.Canonical.{Fits, AllFit, KvsFit}
use msgpck.Decoder.Contract.{
  IsByte, IsValid, Good, Failed, Ensures, Meets, Meets-bind, Meets-pure, Meets-fail, Meets-if,
  Meets-step, Meets-step_byte, Meets-weaken, Meets-room, Meets-try,
}
use msgpck.Decoder.Contract.Leaves.{
  Meets-read_byte, Meets-map, Meets-bytes, Meets-check, Meets-container,
}
use msgpck.Decoder.Contract.Words.{to_int8-IsInt8, IsInt64-of_int8}
use msgpck.Decoder.Contract.Parts.{
  Decoded, inner_size, IsAnnounced, Meets-string_len, Meets-string_len_switch, Meets-binary_len,
  Meets-array_len_switch, Meets-map_len_switch, Meets-decode_uint, Meets-decode_int,
  Meets-decode_float, Meets-decode_string, Meets-decode_binary, Meets-decode_ext,
  Meets-decode_ext_var, Meets-with_len, parse_string_len_fails,
}

abbrev DecodedAll : Config → ℕ → ℕ → Values → Type 0
DecodedAll c k l vs =
    (exceeds 0 c.max_string_len ≡ false → AllFit c k vs) × AllSized vs × (values_len vs ≡ l)

abbrev DecodedKvs : Config → ℕ → ℕ → Kvs → Type 0
DecodedKvs c k l kvs =
    (exceeds 0 c.max_string_len ≡ false → KvsFit c k kvs) × KvsSized kvs × (kvs_len kvs ≡ l)

abbrev DecodedKey : Config → Bytes → Type 0
DecodedKey c key =
    (exceeds 0 c.max_string_len ≡ false → exceeds (length key) c.max_string_len ≡ false)
    × IsAnnounced (length key)

-- What is asked of decodeValue at the level below, with fewer than `n` bytes left.
abbrev pub Below : Config → ℕ → (ℕ → M Value) → Type 0
Below c n below = (k f : ℕ) → IsByte f → Meets c k n inner_size (Decoded c k) (below f)

key_bytes-DecodedKey :
    (c : Config) (k : ℕ) (v : Value)
    → Decoded c k v
    → (length (key_bytes v) ≤ inner_size v) × DecodedKey c (key_bytes v)
unfolding Fits IsSized size
key_bytes-DecodedKey c k (string s) (h, l) = (omega arith, (h, l))
key_bytes-DecodedKey c k nil h = (omega arith, ((λ e. e), omega arith))
key_bytes-DecodedKey c k _ h = (omega arith, ((λ e. e), omega arith))

module _ {c : Config} {k n : ℕ} (below : ℕ → M Value) (b : Below c n below) where
  Meets-inside : Meets c k (suc n) size (Decoded c k) (decode_inside below)
  unfolding decode_inside
  Meets-inside = Meets-step_byte size read_byte below Meets-read_byte (λ f h. b k f h)

  Meets-elems : (l : ℕ) → Meets c k (suc n) size_values (DecodedAll c k l) (decode_elems below l)
  unfolding decode_elems size Fits IsSized
  Meets-elems zero = Meets-pure no_values refl ((λ _. tt), tt, refl)
  Meets-elems (suc l) =
      Meets-bind c k (suc n) size size_values (decode_inside below) _ Meets-inside
        λ v (fits, sized). Meets-room (suc n - size v) _ (omega arith) (
          Meets-map _ _ (decode_elems below l) (elem v)
            (λ vs (fits', sized', e).
              (omega arith, ((λ p. (fits p, fits' p)), (sized, sized'), omega arith)))
            (Meets-elems l))

  Meets-key : Meets c k (suc n) (λ key. suc (length key)) (DecodedKey c) (decode_map_key below)
  unfolding decode_map_key
  Meets-key =
      Meets-step_byte (λ key. suc (length key)) read_byte _ Meets-read_byte
        λ f hf.
          Meets-try (λ key. suc (length key) - 1) (parse_string_len f) _ _
            (parse_string_len_fails f) (Meets-string_len f hf)
            (λ l h.
              unfold validate_string_len in
              Meets-step _ _ (λ _. read_bytes l) (Meets-check _ (λ c. c.max_string_len) l l)
                λ _ fits.
                  Meets-weaken _ _ (read_bytes l)
                    (λ s e. (omega arith, ((λ _. rw e fits), omega arith))) (Meets-bytes l))
            (λ _.
              Meets-map _ _ (below f) key_bytes
                (λ v h. (
                  omega (arith, (key_bytes-DecodedKey c k v h).0),
                  (key_bytes-DecodedKey c k v h).1,
                ))
                (b k f hf))

  Meets-pairs : (l : ℕ) → Meets c k (suc n) size_kvs (DecodedKvs c k l) (decode_pairs below l)
  unfolding decode_pairs size Fits IsSized
  Meets-pairs zero = Meets-pure no_kvs refl ((λ _. tt), tt, refl)
  Meets-pairs (suc l) =
      Meets-bind c k (suc n) (λ key. suc (length key)) size_kvs (decode_map_key below) _ Meets-key
        λ key (kf, ks).
          Meets-bind c k (suc n - suc (length key)) size _ (decode_inside below) _
            (Meets-room _ _ (omega arith) Meets-inside)
            λ v (fits, sized). Meets-room (suc n - suc (length key) - size v) _ (omega arith) (
              Meets-map _ _ (decode_pairs below l) (kv key v)
                (λ kvs (fits', sized', e).
                  (omega arith, ((λ p. (kf p, fits p, fits' p)), (ks, sized, sized'), omega arith)))
                (Meets-pairs l))

module _ {c : Config} {k n : ℕ} (below : ℕ → M Value) (b : Below c n below) where
  Meets-array :
      (l : ℕ) → IsAnnounced l → Meets c k (suc n) inner_size (Decoded c k) (decode_array below l)
  unfolding decode_array validate_array_len size Fits IsSized
  Meets-array l h = Meets-step inner_size _ _ (Meets-check _ (λ c. c.max_array_len) l l) λ _ fits.
      Meets-container inner_size (Decoded c k) _ λ deep.
        Meets-map _ _ (decode_elems below l) array
          (λ vs (fits', sized', e).
            (omega arith, ((λ p. (rw e fits, deep, fits' p)), (omega arith, sized'))))
          (Meets-elems below b l)

  Meets-map_of :
      (l : ℕ) → IsAnnounced l → Meets c k (suc n) inner_size (Decoded c k) (decode_map below l)
  unfolding decode_map validate_map_len size Fits IsSized
  Meets-map_of l h =
      Meets-step inner_size _ _ (Meets-check _ (λ c. c.max_map_len) l (l * 2)) λ _ fits.
        Meets-container inner_size (Decoded c k) _ λ deep.
          Meets-map _ _ (decode_pairs below l) map
            (λ kvs (fits', sized', e).
              (omega arith, ((λ p. (rw e fits, deep, fits' p)), (omega arith, sized'))))
            (Meets-pairs below b l)

  Meets-exts : (f : ℕ) → Meets c k (suc n) inner_size (Decoded c k) (decode_exts f)
  unfolding decode_exts
  Meets-exts f =
      Meets-if (f == 0xd4) _ _ (λ _. Meets-decode_ext 1 (omega arith))
        λ _.
          Meets-if (f == 0xd5) _ _ (λ _. Meets-decode_ext 2 (omega arith))
            λ _.
              Meets-if (f == 0xd6) _ _ (λ _. Meets-decode_ext 4 (omega arith))
                λ _.
                  Meets-if (f == 0xd7) _ _ (λ _. Meets-decode_ext 8 (omega arith))
                    λ _.
                      Meets-if (f == 0xd8) _ _ (λ _. Meets-decode_ext 16 (omega arith))
                        λ _.
                          Meets-if (f == 0xc7 || f == 0xc8 || f == 0xc9) _ _
                            (λ _. Meets-decode_ext_var f) (λ _. Meets-fail _)

  -- The branches of the switch from the arrays on.
  Meets-containers :
      (f : ℕ) → Meets c k (suc n) inner_size (Decoded c k) (decode_containers below f)
  unfolding decode_containers
  Meets-containers f =
      Meets-if (f == 0xdc || f == 0xdd) _ _
        (λ _. Meets-with_len _ (decode_array below) (Meets-array_len_switch f) Meets-array)
        λ _.
          Meets-if (f == 0xde || f == 0xdf) _ _
            (λ _. Meets-with_len _ (decode_map below) (Meets-map_len_switch f) Meets-map_of)
            λ _. Meets-exts f

  Meets-format : (f : ℕ) → Meets c k (suc n) inner_size (Decoded c k) (decode_format below f)
  unfolding decode_format size Fits IsSized
  Meets-format f =
      Meets-if (f == 0xc0) _ _ (λ _. Meets-pure nil refl ((λ _. tt), tt))
        λ _.
          Meets-if (f == 0xc2) _ _ (λ _. Meets-pure (bool false) refl ((λ _. tt), tt))
            λ _.
              Meets-if (f == 0xc3) _ _ (λ _. Meets-pure (bool true) refl ((λ _. tt), tt))
                λ _.
                  Meets-if (f == 0xcc || f == 0xcd || f == 0xce || f == 0xcf) _ _
                    (λ _. Meets-decode_uint f)
                    λ _.
                      Meets-if (f == 0xd0 || f == 0xd1 || f == 0xd2 || f == 0xd3) _ _
                        (λ _. Meets-decode_int f)
                        λ _.
                          Meets-if (f == 0xca || f == 0xcb) _ _ (λ _. Meets-decode_float f)
                            λ _.
                              Meets-if (f == 0xd9 || f == 0xda || f == 0xdb) _ _
                                (λ _.
                                  Meets-with_len _ decode_string (Meets-string_len_switch f)
                                    Meets-decode_string)
                                λ _.
                                  Meets-if (f == 0xc4 || f == 0xc5 || f == 0xc6) _ _
                                    (λ _.
                                      Meets-with_len _ decode_binary (Meets-binary_len f)
                                        Meets-decode_binary)
                                    λ _. Meets-containers f

  Meets-value_with :
      (f : ℕ) → IsByte f → Meets c k (suc n) inner_size (Decoded c k) (decode_value_with below f)
  unfolding decode_value_with size Fits IsSized
  Meets-value_with f h =
      Meets-if (is_positive_fixint f) _ _ (λ _. Meets-pure (uint f) refl ((λ _. tt), omega arith))
        λ _.
          Meets-if (is_negative_fixint f) _ _
            (λ _.
              Meets-pure (int (to_int8 f)) refl
                ((λ _. tt), IsInt64-of_int8 (to_int8 f) (to_int8-IsInt8 f h)))
            λ _.
              Meets-if (is_fixmap f) _ _
                (λ _. Meets-map_of (fixmap_len f) (omega (arith, fixmap_len-mod f h)))
                λ _.
                  Meets-if (is_fixarray f) _ _
                    (λ _. Meets-array (fixarray_len f) (omega (arith, fixarray_len-mod f h)))
                    λ _.
                      Meets-if (is_fixstr f) _ _
                        (λ _.
                          Meets-decode_string (fixstr_len f) (omega (arith, fixstr_len-mod f h)))
                        (λ _. Meets-format f)

pub Meets-value : (c : Config) (fuel : ℕ) → Below c fuel (decode_value fuel)
unfolding decode_value
Meets-value c zero k f h = record { run = λ d v hc hk r. absurd (omega arith) }
Meets-value c (suc fuel) k f h = Meets-value_with (decode_value fuel) (Meets-value c fuel) f h

-- Decode meets its contract from any valid state, with the fuel that it supplies.
pub decode-Ensures :
    (d : Decoder) → IsValid d → Ensures (Good size (Decoded d.cfg d.depth) d) (Failed d) (decode d)
unfolding decode
decode-Ensures d v =
    (Meets-inside (decode_value (remaining d + 1)) (Meets-value d.cfg (remaining d + 1))).run d v
      refl refl (omega arith)
