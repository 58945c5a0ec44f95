-- ===== src/Reflect/Pairs.antt =====
-- The loop of decodeIntoMap over pairs with new string keys appends them.
use msgpck.Base.{ℕ, suc, ◌≡◌, refl, ap, sym, Bytes, ◌++◌}
use msgpck.Config.{Config}
use msgpck.Value.{Value}
use msgpck.Encoder.Wire.{wire, wire_kvs}
use msgpck.Encoder.Arrays.{string_bytes}
use msgpck.Decoder.{M}
use msgpck.Decoder.Reads.{Reads, Reads-bind}
use msgpck.Struct.Kinds.{Scalar, v_string, v_int, v_uint, v_float64, v_float32, v_bool}
use msgpck.Reflect.Types.{GoValue, GoPairs, no_pairs, pair, pairs_len}
use msgpck.Reflect.Keys.{same_key, set_map_index}
use msgpck.Reflect.Decode.{map_entries}
use msgpck.Reflect.Contents.{pairs_value}
use msgpck.Reflect.Restored.{IsNew}

abbrev pub append_pairs : GoPairs → GoPairs → GoPairs
append_pairs no_pairs m = m
append_pairs (pair k v m₀) m = pair k v (append_pairs m₀ m)

-- No key of the second is one of the first, whose keys are strings.
abbrev pub AreApart : GoPairs → GoPairs → Type 0
AreApart no_pairs m = Unit
AreApart (pair (v_string s) v m₀) m = IsNew s m × AreApart m₀ m
AreApart (pair _ v m₀) m = ⊥

module _ (s : Bytes) (v : GoValue) (m : GoPairs) where
  set_map_index-new :
      (m₀ : GoPairs)
      → AreApart m₀ (pair (v_string s) v m)
      → set_map_index (v_string s) v m₀ ≡ append_pairs m₀ (pair (v_string s) v no_pairs)
  unfolding set_map_index same_key
  set_map_index-new no_pairs h = refl
  set_map_index-new (pair (v_string r) u m₀) ((e, n), h) =
      rw e (ap (pair (v_string r) u) (set_map_index-new m₀ h))
  set_map_index-new (pair (v_int _) u m₀) h = absurd h
  set_map_index-new (pair (v_uint _) u m₀) h = absurd h
  set_map_index-new (pair (v_float64 _) u m₀) h = absurd h
  set_map_index-new (pair (v_float32 _) u m₀) h = absurd h
  set_map_index-new (pair (v_bool _) u m₀) h = absurd h

  AreApart-next :
      (m₀ : GoPairs)
      → AreApart m₀ (pair (v_string s) v m)
      → IsNew s m
      → AreApart (append_pairs m₀ (pair (v_string s) v no_pairs)) m
  AreApart-next no_pairs h new = (new, tt)
  AreApart-next (pair (v_string r) u m₀) ((e, n), h) new = (n, AreApart-next m₀ h new)
  AreApart-next (pair (v_int _) u m₀) h new = absurd h
  AreApart-next (pair (v_uint _) u m₀) h new = absurd h
  AreApart-next (pair (v_float64 _) u m₀) h new = absurd h
  AreApart-next (pair (v_float32 _) u m₀) h new = absurd h
  AreApart-next (pair (v_bool _) u m₀) h new = absurd h

  append_pairs-one :
      (m₀ : GoPairs)
      → append_pairs (append_pairs m₀ (pair (v_string s) v no_pairs)) m
        ≡ append_pairs m₀ (pair (v_string s) v m)
  append_pairs-one no_pairs = refl
  append_pairs-one (pair k u m₀) = ap (pair k u) (append_pairs-one m₀)

pub append_pairs-none : (m : GoPairs) → append_pairs m no_pairs ≡ m
append_pairs-none no_pairs = refl
append_pairs-none (pair k v m) = ap (pair k v) (append_pairs-none m)

-- A pair of a new key, and the rest of the pairs.
pub Reads-map_entries :
    {c : Config} {k : ℕ} (key : M Scalar) (value : M GoValue) (f : GoValue → Value) (s : Bytes)
    (v : GoValue) (m m₀ : GoPairs)
    → AreApart m₀ (pair (v_string s) v m)
    → IsNew s m
    → Reads c k key (string_bytes s) (v_string s)
    → Reads c k value (wire (f v)) v
    → ((m₁ : GoPairs)
        → AreApart m₁ m
        → Reads c k
            (map_entries key value (pairs_len m) m₁)
            (wire_kvs (pairs_value f m))
            (append_pairs m₁ m))
    → Reads c k
        (map_entries key value (suc (pairs_len m)) m₀)
        (wire_kvs (pairs_value f (pair (v_string s) v m)))
        (append_pairs m₀ (pair (v_string s) v m))
unfolding map_entries pairs_value wire
Reads-map_entries key value f s v m m₀ apart new rk rv rest =
    Reads-bind key _ (string_bytes s) (wire (f v) ++ wire_kvs (pairs_value f m)) (v_string s) _ rk (
      Reads-bind value _ (wire (f v)) (wire_kvs (pairs_value f m)) v _ rv (
        rw (set_map_index-new s v m m₀ apart, sym (append_pairs-one s v m m₀))
          (rest _ (AreApart-next s v m m₀ apart new))))
