-- ===== src/Reflect/Types.antt =====
-- Go's types and values, as far as package reflect shows them to this program. A type is finite: a struct
-- that holds itself behind a pointer is left out, as are maps with keys other than words and strings.
use msgpck.Base.{ℕ, zero, suc, Bool, false, [], Bytes}
use msgpck.Base.Words.{pos, negsuc}
use msgpck.Any.{Any, go_nil}
use msgpck.Timestamp.{Time}
use msgpck.Struct.Kinds.{
  ScalarKind, Scalar, k_string, k_int, k_int64, k_int32, k_int16, k_int8, k_float64, k_float32,
  k_bool, v_string, v_int, v_uint, v_float64, v_float32, v_bool,
}

-- What reflect.StructField says of a field beside its type: `tag` is the value of its tag for msgpack.
pub record Label : Type 0 where
  pub exported : Bool
  pub embedded : Bool
  pub tag : Bytes
  pub name : Bytes

mutual
  -- A slice of bytes is t_bytes; t_other is a type that no decoder or encoder supports.
  pub data GoType : Type 0 where
    t_scalar : ScalarKind → GoType
    t_bytes : GoType
    t_slice : GoType → GoType
    t_array : ℕ → GoType → GoType
    t_map : ScalarKind → GoType → GoType
    t_struct : Members → GoType
    t_pointer : GoType → GoType
    t_any : GoType
    t_time : GoType
    t_other : GoType

  pub data Members : Type 0 where
    no_members : Members
    member : Label → GoType → Members → Members

mutual
  -- `g_nil` is the nil of slices, maps and pointers; an interface that is nil holds go_nil. An interface
  -- holds only what the decoders make; any other dynamic type is left out.
  pub data GoValue : Type 0 where
    g_scalar : Scalar → GoValue
    g_nil : GoValue
    g_bytes : Bytes → GoValue
    g_slice : GoValues → GoValue
    g_array : GoValues → GoValue
    g_map : GoPairs → GoValue
    g_struct : GoValues → GoValue
    g_pointer : GoValue → GoValue
    g_any : Any → GoValue
    g_time : Time → GoValue
    g_other : GoValue

  pub data GoValues : Type 0 where
    no_slots : GoValues
    slot : GoValue → GoValues → GoValues

  -- The entries of a map, in the order in which a loop comes to them.
  pub data GoPairs : Type 0 where
    no_pairs : GoPairs
    pair : Scalar → GoValue → GoPairs → GoPairs

unfoldable pub zero_scalar : ScalarKind → Scalar
zero_scalar k_string = v_string []
zero_scalar k_float64 = v_float64 0
zero_scalar k_float32 = v_float32 0
zero_scalar k_bool = v_bool false
zero_scalar k_int = v_int (pos 0)
zero_scalar k_int64 = v_int (pos 0)
zero_scalar k_int32 = v_int (pos 0)
zero_scalar k_int16 = v_int (pos 0)
zero_scalar k_int8 = v_int (pos 0)
zero_scalar _ = v_uint 0

unfoldable pub copies : GoValue → ℕ → GoValues
copies v zero = no_slots
copies v (suc n) = slot v (copies v n)

-- reflect.Zero; time.Time{} is the first of January of the year 1.
unfoldable mutual
  pub zero_value : GoType → GoValue
  zero_value (t_scalar kind) = g_scalar (zero_scalar kind)
  zero_value t_bytes = g_nil
  zero_value (t_slice _) = g_nil
  zero_value (t_array n t) = g_array (copies (zero_value t) n)
  zero_value (t_map _ _) = g_nil
  zero_value (t_struct ms) = g_struct (zero_fields ms)
  zero_value (t_pointer _) = g_nil
  zero_value t_any = g_any go_nil
  zero_value t_time = g_time (record { sec = negsuc 62_135_596_799; nsec = 0 })
  zero_value t_other = g_other

  pub zero_fields : Members → GoValues
  zero_fields no_members = no_slots
  zero_fields (member l t ms) = slot (zero_value t) (zero_fields ms)

-- What stands in a value of the kind.
abbrev pub elems_of : GoValue → GoValues
elems_of (g_slice vs) = vs
elems_of (g_array vs) = vs
elems_of (g_struct vs) = vs
elems_of _ = no_slots

abbrev pub pairs_of : GoValue → GoPairs
pairs_of (g_map ps) = ps
pairs_of _ = no_pairs

abbrev pub go_len : GoValues → ℕ
go_len no_slots = zero
go_len (slot v vs) = suc (go_len vs)

abbrev pub pairs_len : GoPairs → ℕ
pairs_len no_pairs = zero
pairs_len (pair k v ps) = suc (pairs_len ps)

abbrev pub first_value : GoValues → GoValue
first_value no_slots = g_other
first_value (slot v vs) = v

abbrev pub rest_values : GoValues → GoValues
rest_values no_slots = no_slots
rest_values (slot v vs) = vs
