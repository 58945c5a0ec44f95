-- ===== src/Reflect/Shows/Empty.antt =====
-- isEmptyValue answers true exactly on the empty values.
use msgpck.Base.{◌≡◌, refl, ap, true, arith, [], ◌∷◌}
use msgpck.Base.Words.{pos, negsuc}
use msgpck.Any.{go_nil}
use msgpck.Struct.Kinds.{Scalar, v_string, v_int, v_uint, v_float64, v_float32, v_bool}
use msgpck.Struct.Encode.{is_zero}
use msgpck.Reflect.Types.{
  GoValue, g_scalar, g_nil, g_bytes, g_slice, g_array, g_map, g_struct, g_pointer, g_any, g_time,
  g_other, no_slots, slot, no_pairs, pair,
}
use msgpck.Reflect.Encode.{is_empty_value}
use msgpck.Reflect.Shows.{IsZero, IsEmpty}

is_zero-IsZero : (s : Scalar) → is_zero s ≡ true → IsZero s
unfolding is_zero
is_zero-IsZero (v_string []) h = refl
is_zero-IsZero (v_string (c ∷ s)) h = absurd (ground arith)
is_zero-IsZero (v_int (pos n)) h = ap pos (ground arith)
is_zero-IsZero (v_int (negsuc n)) h = absurd (ground arith)
is_zero-IsZero (v_uint v) h = ground arith
is_zero-IsZero (v_float64 v) h = ground arith
is_zero-IsZero (v_float32 v) h = ground arith
is_zero-IsZero (v_bool b) h = ground arith

IsZero-is_zero : (s : Scalar) → IsZero s → is_zero s ≡ true
unfolding is_zero
IsZero-is_zero (v_string s) e = rw e refl
IsZero-is_zero (v_int v) e = rw e refl
IsZero-is_zero (v_uint v) e = ground arith
IsZero-is_zero (v_float64 v) e = ground arith
IsZero-is_zero (v_float32 v) e = ground arith
IsZero-is_zero (v_bool b) e = rw e refl

pub is_empty_value-IsEmpty : (v : GoValue) → is_empty_value v ≡ true → IsEmpty v
unfolding is_empty_value
is_empty_value-IsEmpty (g_scalar s) h = is_zero-IsZero s h
is_empty_value-IsEmpty g_nil h = tt
is_empty_value-IsEmpty (g_bytes []) h = refl
is_empty_value-IsEmpty (g_bytes (c ∷ b)) h = absurd (ground arith)
is_empty_value-IsEmpty (g_slice no_slots) h = refl
is_empty_value-IsEmpty (g_slice (slot v vs)) h = absurd (ground arith)
is_empty_value-IsEmpty (g_array no_slots) h = refl
is_empty_value-IsEmpty (g_array (slot v vs)) h = absurd (ground arith)
is_empty_value-IsEmpty (g_map no_pairs) h = refl
is_empty_value-IsEmpty (g_map (pair k v m)) h = absurd (ground arith)
is_empty_value-IsEmpty (g_any go_nil) h = refl
is_empty_value-IsEmpty _ h = absurd (cc h)

pub IsEmpty-is_empty_value : (v : GoValue) → IsEmpty v → is_empty_value v ≡ true
unfolding is_empty_value
IsEmpty-is_empty_value (g_scalar s) e = IsZero-is_zero s e
IsEmpty-is_empty_value g_nil e = refl
IsEmpty-is_empty_value (g_bytes b) e = rw e refl
IsEmpty-is_empty_value (g_slice vs) e = rw e refl
IsEmpty-is_empty_value (g_array vs) e = rw e refl
IsEmpty-is_empty_value (g_map m) e = rw e refl
IsEmpty-is_empty_value (g_any a) e = rw e refl
IsEmpty-is_empty_value (g_struct vs) e = absurd e
IsEmpty-is_empty_value (g_pointer v) e = absurd e
IsEmpty-is_empty_value (g_time t) e = absurd e
IsEmpty-is_empty_value g_other e = absurd e
