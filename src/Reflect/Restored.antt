-- ===== src/Reflect/Restored.antt =====
-- The Go values that decodeIntoValue restores, into a new variable, from what Encode writes for them:
-- words but for float32, strings, byte slices, slices, maps with string keys, and structs without embedded
-- structs. A field that is written holds such a value; one that is not written holds the zero value.
use msgpck.Base.{ℕ, ◌+◌, ◌<◌, ◌^◌, ◌≡◌, true, false, ◌&&◌, List, [], Bytes, All, some, length}
use msgpck.Config.{Config, exceeds}
use msgpck.Value.{bytes_equal}
use msgpck.Any.{go_nil}
use msgpck.Decoder.Arrays.RoundTrip.{StringFits}
use msgpck.Struct.Kinds.{ScalarKind, k_string, Scalar, v_string}
use msgpck.Struct.Reads.{Holds}
use msgpck.Struct.SliceReads.{SliceFits}
use msgpck.Reflect.Types.{
  Label, GoType, Members, t_scalar, t_bytes, t_slice, t_map, t_struct, t_pointer, t_any, no_members,
  member, GoValue, GoValues, GoPairs, g_scalar, g_nil, g_bytes, g_slice, g_map, g_struct, g_any,
  no_slots, slot, no_pairs, pair, go_len, pairs_len, zero_value,
}
use msgpck.Reflect.Info.{FieldInfo, is_struct, field_info, build_struct_info, find_field}
use msgpck.Reflect.Encode.{is_empty_value, kept_fields}
use msgpck.Reflect.Paths.{is_skipped}

-- A nil is restored where the type has one.
pub data IsNilable : GoType → Type 0 where
  nil_bytes : IsNilable t_bytes
  nil_slice : (t : GoType) → IsNilable (t_slice t)
  nil_map : (kind : ScalarKind) (t : GoType) → IsNilable (t_map kind t)
  nil_pointer : (t : GoType) → IsNilable (t_pointer t)

-- The key is not among the keys.
abbrev pub IsNew : Bytes → GoPairs → Type 0
IsNew s no_pairs = Unit
IsNew s (pair (v_string k) v m) = (bytes_equal s k ≡ false) × IsNew s m
IsNew s (pair _ v m) = ⊥

-- Each field is the first of its name.
abbrev pub AreNamed : List FieldInfo → Type 0
AreNamed fs = All (λ f. find_field f.name fs ≡ some f) fs

-- As many entries as the length prefix and the limit allow.
abbrev pub MapFits : Config → ℕ → Type 0
MapFits c n = (n < 2 ^ 32) × (exceeds n c.max_map_len ≡ false)

-- One container more is within the depth.
abbrev pub IsShallow : Config → ℕ → Type 0
IsShallow c k = exceeds (k + 1) c.max_depth ≡ false

mutual
  -- At depth `k`.
  pub data Restored (c : Config) : ℕ → GoType → GoValue → Type 0 where
    restored_scalar :
        (k : ℕ) (kind : ScalarKind) (s : Scalar)
        → Holds c kind s
        → Restored c k (t_scalar kind) (g_scalar s)
    restored_bytes :
        (k : ℕ) (b : Bytes)
        → length b < 2 ^ 32
        → exceeds (length b) c.max_binary_len ≡ false
        → Restored c k t_bytes (g_bytes b)
    restored_nil : (k : ℕ) (t : GoType) → IsNilable t → Restored c k t g_nil
    restored_any : (k : ℕ) → Restored c k t_any (g_any go_nil)
    restored_slice :
        (k : ℕ) (t : GoType) (vs : GoValues)
        → SliceFits c (go_len vs)
        → IsShallow c k
        → RestoredAll c (k + 1) t vs
        → Restored c k (t_slice t) (g_slice vs)
    restored_map :
        (k : ℕ) (t : GoType) (m : GoPairs)
        → MapFits c (pairs_len m)
        → IsShallow c k
        → RestoredPairs c (k + 1) t m
        → Restored c k (t_map k_string t) (g_map m)
    restored_struct :
        (k : ℕ) (ms : Members) (vs : GoValues)
        → MapFits c (length (kept_fields (build_struct_info ms) vs))
        → IsShallow c k
        → AreNamed (build_struct_info ms)
        → RestoredFields c (k + 1) ms vs
        → Restored c k (t_struct ms) (g_struct vs)

  pub data RestoredAll (c : Config) : ℕ → GoType → GoValues → Type 0 where
    all_none : (k : ℕ) (t : GoType) → RestoredAll c k t no_slots
    all_one :
        (k : ℕ) (t : GoType) (v : GoValue) (vs : GoValues)
        → Restored c k t v
        → RestoredAll c k t vs
        → RestoredAll c k t (slot v vs)

  -- The keys are different.
  pub data RestoredPairs (c : Config) : ℕ → GoType → GoPairs → Type 0 where
    pairs_none : (k : ℕ) (t : GoType) → RestoredPairs c k t no_pairs
    pairs_one :
        (k : ℕ) (t : GoType) (s : Bytes) (v : GoValue) (m : GoPairs)
        → StringFits c s
        → IsNew s m
        → Restored c k t v
        → RestoredPairs c k t m
        → RestoredPairs c k t (pair (v_string s) v m)

  pub data RestoredFields (c : Config) : ℕ → Members → GoValues → Type 0 where
    fields_none : (k : ℕ) → RestoredFields c k no_members no_slots
    field_skipped :
        (k : ℕ) (l : Label) (t : GoType) (ms : Members) (vs : GoValues)
        → is_skipped l t ≡ true
        → RestoredFields c k ms vs
        → RestoredFields c k (member l t ms) (slot (zero_value t) vs)
    field_omitted :
        (k : ℕ) (l : Label) (t : GoType) (ms : Members) (vs : GoValues)
        → is_skipped l t ≡ false
        → l.embedded && is_struct t ≡ false
        → (field_info l []).omitempty && is_empty_value (zero_value t) ≡ true
        → RestoredFields c k ms vs
        → RestoredFields c k (member l t ms) (slot (zero_value t) vs)
    field_kept :
        (k : ℕ) (l : Label) (t : GoType) (ms : Members) (v : GoValue) (vs : GoValues)
        → is_skipped l t ≡ false
        → l.embedded && is_struct t ≡ false
        → (field_info l []).omitempty && is_empty_value v ≡ false
        → StringFits c (field_info l []).name
        → Restored c k t v
        → RestoredFields c k ms vs
        → RestoredFields c k (member l t ms) (slot v vs)
