-- ===== src/Reflect/Keys.antt =====
-- Go's maps: when two keys are the same, and assignment to an entry.
use msgpck.Base.{ℕ, ◌%◌, ◌^◌, Bool, true, false, not, ◌&&◌, ◌||◌, ◌==◌, ltb, if◌then◌else◌}
use msgpck.Base.Words.{ℤ, pos, negsuc}
use msgpck.Value.{bytes_equal}
use msgpck.Struct.Kinds.{Scalar, v_string, v_int, v_uint, v_float64, v_float32, v_bool}
use msgpck.Reflect.Types.{GoValue, GoPairs, no_pairs, pair}

abbrev pub same_int : ℤ → ℤ → Bool
same_int (pos a) (pos b) = a == b
same_int (negsuc a) (negsuc b) = a == b
same_int _ _ = false

abbrev pub same_bool : Bool → Bool → Bool
same_bool true b = b
same_bool false b = not b

-- Of floats, zeros of either sign are the same, and no NaN is the same as any float. `width` is the number
-- of bits below the sign, and `infinity` the pattern above which stand the NaN.
abbrev pub same_float : ℕ → ℕ → ℕ → ℕ → Bool
same_float width infinity a b =
    not (ltb infinity (a % 2 ^ width))
    && not (ltb infinity (b % 2 ^ width))
    && ((a == b) || ((a % 2 ^ width == 0) && (b % 2 ^ width == 0)))

unfoldable pub same_key : Scalar → Scalar → Bool
same_key (v_string a) (v_string b) = bytes_equal a b
same_key (v_int a) (v_int b) = same_int a b
same_key (v_uint a) (v_uint b) = a == b
same_key (v_float64 a) (v_float64 b) = same_float 63 0x7ff0_0000_0000_0000 a b
same_key (v_float32 a) (v_float32 b) = same_float 31 0x7f80_0000 a b
same_key (v_bool a) (v_bool b) = same_bool a b
same_key _ _ = false

-- rv.SetMapIndex(key, val), for a value that is set: the key is written with the value.
unfoldable pub set_map_index : Scalar → GoValue → GoPairs → GoPairs
set_map_index key v no_pairs = pair key v no_pairs
set_map_index key v (pair k u m) =
    let rest = set_map_index key v m in if same_key k key then pair key v m else pair k u rest
