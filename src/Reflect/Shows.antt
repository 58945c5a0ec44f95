-- ===== src/Reflect/Shows.antt =====
-- encode.go, decode_struct.go, README.md: what a Go value is as a message, said by relations on types and
-- values that follow the struct's declaration. They use none of the encoder's functions on fields, tags
-- and empty values.
pub mod Tags
pub mod Empty
pub mod Fields
pub mod Whole
pub mod Top
use msgpck.Base.{ℕ, ◌^◌, ◌≡◌, ◌≢◌, Bool, true, false, ◌⊎◌, List, [], ◌∷◌, ◌++◌, Bytes, All}
use msgpck.Base.Words.{pos}
use msgpck.Value.{
  Value, Values, Kvs, nil, bool, int, uint, float32, float64, string, binary, array, map, no_values,
  elem, no_kvs, kv,
}
use msgpck.Any.{Any, go_nil}
use msgpck.Timestamp.{Time}
use msgpck.Encoder.Any.Agree.{value_of}
use msgpck.Struct.Kinds.{
  ScalarKind, k_string, Scalar, v_string, v_int, v_uint, v_float64, v_float32, v_bool,
}
use msgpck.Struct.Tags.{dash, omitempty_option}
use msgpck.Reflect.Types.{
  Label, GoType, Members, t_scalar, t_bytes, t_slice, t_array, t_map, t_struct, t_pointer, t_any,
  t_time, t_other, no_members, member, GoValue, GoValues, GoPairs, g_scalar, g_nil, g_bytes,
  g_slice, g_array, g_map, g_struct, g_pointer, g_any, g_time, no_slots, slot, no_pairs, pair,
}
use msgpck.Reflect.Encode.{reflected}
use msgpck.Reflect.Contents.{scalar_value}

-- What omitempty leaves out: a zero under either sign, and nothing else of the values of one word.
abbrev pub IsZero : Scalar → Type 0
IsZero (v_string s) = s ≡ []
IsZero (v_int v) = v ≡ pos 0
IsZero (v_uint v) = v ≡ 0
IsZero (v_float64 v) = (v ≡ 0) ⊎ (v ≡ 2 ^ 63)
IsZero (v_float32 v) = (v ≡ 0) ⊎ (v ≡ 2 ^ 31)
IsZero (v_bool b) = b ≡ false

abbrev pub IsEmpty : GoValue → Type 0
IsEmpty (g_scalar s) = IsZero s
IsEmpty g_nil = Unit
IsEmpty (g_bytes b) = b ≡ []
IsEmpty (g_slice vs) = vs ≡ no_slots
IsEmpty (g_array vs) = vs ≡ no_slots
IsEmpty (g_map m) = m ≡ no_pairs
IsEmpty (g_any a) = a ≡ go_nil
IsEmpty _ = ⊥

-- A tag is a name without a comma, and the options after the first comma.
pub data Tagged : Bytes → Bytes → Bytes → Type 0 where
  only_name : (tag : Bytes) → All (λ c. c ≢ b',') tag → Tagged tag tag []
  with_options :
      (tag name opts : Bytes)
      → tag ≡ name ++ (b',' ∷ opts)
      → All (λ c. c ≢ b',') name
      → Tagged tag name opts

-- A field has the name of its tag, or its own where the tag has none.
pub data Named (l : Label) : Bytes → Bytes → Type 0 where
  by_tag : (name opts : Bytes) → Tagged l.tag name opts → name ≢ [] → Named l name opts
  by_field : (opts : Bytes) → Tagged l.tag [] opts → Named l l.name opts

-- The word omitempty stands somewhere in the options.
abbrev pub HasOmitempty : Bytes → Type 0
HasOmitempty opts = (a : Bytes) × (b : Bytes) × (opts ≡ a ++ (omitempty_option ++ b))

-- A field that stands under a name of its own: it is exported, not an embedded struct (an embedded
-- time.Time has no fields to show), and not tagged "-".
pub record IsNamed (l : Label) (t : GoType) : Type 0 where
  pub is_exported : l.exported ≡ true
  pub not_opened : (l.embedded ≡ true) → (t ≢ t_time) × ((ms : Members) → t ≢ t_struct ms)
  pub not_dashed : l.tag ≢ dash

abbrev pub append_kvs : Kvs → Kvs → Kvs
append_kvs no_kvs ys = ys
append_kvs (kv k v xs) ys = kv k v (append_kvs xs ys)

mutual
  -- The Value of a field or an element. Behind an interface, what the decoders make.
  pub data Shows : GoType → GoValue → Value → Type 0 where
    shows_scalar : (k : ScalarKind) (s : Scalar) → Shows (t_scalar k) (g_scalar s) (scalar_value s)
    shows_nil : (t : GoType) → Shows t g_nil nil
    shows_bytes : (b : Bytes) → Shows t_bytes (g_bytes b) (binary b)
    shows_slice :
        (t : GoType) (vs : GoValues) (xs : Values)
        → ShowsAll t vs xs
        → Shows (t_slice t) (g_slice vs) (array xs)
    shows_array :
        (n : ℕ) (t : GoType) (vs : GoValues) (xs : Values)
        → ShowsAll t vs xs
        → Shows (t_array n t) (g_array vs) (array xs)
    shows_map :
        (k : ScalarKind) (t : GoType) (m : GoPairs) (kvs : Kvs)
        → ShowsPairs t m kvs
        → Shows (t_map k t) (g_map m) (map kvs)
    shows_struct :
        (ms : Members) (vs : GoValues) (kvs : Kvs)
        → ShowsFields ms vs kvs
        → Shows (t_struct ms) (g_struct vs) (map kvs)
    shows_pointer :
        (t : GoType) (v : GoValue) (x : Value) → Shows t v x → Shows (t_pointer t) (g_pointer v) x
    shows_any : (a : Any) → Shows t_any (g_any a) (value_of (reflected a))
    shows_time : (time : Time) → Shows t_time (g_time time) (map no_kvs)

  pub data ShowsAll : GoType → GoValues → Values → Type 0 where
    all_shown : (t : GoType) → ShowsAll t no_slots no_values
    one_shown :
        (t : GoType) (v : GoValue) (vs : GoValues) (x : Value) (xs : Values)
        → Shows t v x
        → ShowsAll t vs xs
        → ShowsAll t (slot v vs) (elem x xs)

  pub data ShowsPairs : GoType → GoPairs → Kvs → Type 0 where
    all_pairs_shown : (t : GoType) → ShowsPairs t no_pairs no_kvs
    pair_shown :
        (t : GoType) (s : Bytes) (v : GoValue) (m : GoPairs) (x : Value) (kvs : Kvs)
        → Shows t v x
        → ShowsPairs t m kvs
        → ShowsPairs t (pair (v_string s) v m) (kv s x kvs)

  -- The fields of a struct, in the order of its declaration.
  pub data ShowsFields : Members → GoValues → Kvs → Type 0 where
    fields_end : (vs : GoValues) → ShowsFields no_members vs no_kvs
    field_unexported :
        (l : Label) (t : GoType) (ms : Members) (v : GoValue) (vs : GoValues) (kvs : Kvs)
        → l.exported ≡ false
        → ShowsFields ms vs kvs
        → ShowsFields (member l t ms) (slot v vs) kvs
    field_dashed :
        (l : Label) (t : GoType) (ms : Members) (v : GoValue) (vs : GoValues) (kvs : Kvs)
        → l.tag ≡ dash
        → (l.embedded ≡ true → (ms' : Members) → t ≢ t_struct ms')
        → ShowsFields ms vs kvs
        → ShowsFields (member l t ms) (slot v vs) kvs
    field_embedded :
        (l : Label) (ms' ms : Members) (us vs : GoValues) (inner kvs both : Kvs)
        → l.exported ≡ true
        → l.embedded ≡ true
        → ShowsFields ms' us inner
        → ShowsFields ms vs kvs
        → both ≡ append_kvs inner kvs
        → ShowsFields (member l (t_struct ms') ms) (slot (g_struct us) vs) both
    field_embedded_time :
        (l : Label) (ms : Members) (v : GoValue) (vs : GoValues) (kvs : Kvs)
        → l.embedded ≡ true
        → ShowsFields ms vs kvs
        → ShowsFields (member l t_time ms) (slot v vs) kvs
    field_omitted :
        (l : Label) (t : GoType) (ms : Members) (v : GoValue) (vs : GoValues) (kvs : Kvs)
        (name opts : Bytes)
        → Named l name opts
        → HasOmitempty opts
        → IsEmpty v
        → IsNamed l t
        → ShowsFields ms vs kvs
        → ShowsFields (member l t ms) (slot v vs) kvs
    field_kept :
        (l : Label) (t : GoType) (ms : Members) (v : GoValue) (vs : GoValues) (kvs : Kvs)
        (name opts : Bytes) (x : Value)
        → Named l name opts
        → (HasOmitempty opts → ¬ IsEmpty v)
        → IsNamed l t
        → Shows t v x
        → ShowsFields ms vs kvs
        → ShowsFields (member l t ms) (slot v vs) (kv name x kvs)
