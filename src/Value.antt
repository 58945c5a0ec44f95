-- ===== src/Value.antt =====
-- value.go: a decoded value and its accessors. Go's struct carries a type tag and a field for each
-- kind of content; only the field that the tag names is ever set, so a value is a constructor with
-- that field, and an accessor for another field returns Go's zero value.
pub mod Lookup
pub mod Size
use Prim.Native.String.{String}
use msgpck.Base.{
  ℕ, zero, suc, ◌+◌, ◌≡◌, Bool, true, false, Option, none, some, Bytes, List, [], ◌∷◌, ◌==◌, not,
  length, if◌then◌else◌,
}
use msgpck.Base.Words.{ℤ, pos, negsuc, to_uint64, to_int64}
use msgpck.Base.Floats.{float64_of_float32, float64_of_nat, float64_of_int}

pub data Kind : Type 0 where
  type_nil type_bool type_int type_uint type_float32 type_float64 : Kind
  type_string type_binary type_array type_map type_ext : Kind

-- Type.String; no Type of a Value is "unknown".
unfoldable pub type_name : Kind → String
type_name type_nil = "nil"
type_name type_bool = "bool"
type_name type_int = "int"
type_name type_uint = "uint"
type_name type_float32 = "float32"
type_name type_float64 = "float64"
type_name type_string = "string"
type_name type_binary = "binary"
type_name type_array = "array"
type_name type_map = "map"
type_name type_ext = "ext"

-- A float is its IEEE bit pattern. The data of an extension stands beside its type.
mutual
  pub data Value : Type 0 where
    nil : Value
    bool : Bool → Value
    int : ℤ → Value
    uint : ℕ → Value
    float32 : ℕ → Value
    float64 : ℕ → Value
    string : Bytes → Value
    binary : Bytes → Value
    array : Values → Value
    map : Kvs → Value
    ext : ℤ → Bytes → Value

  pub data Values : Type 0 where
    no_values : Values
    elem : Value → Values → Values

  pub data Kvs : Type 0 where
    no_kvs : Kvs
    kv : Bytes → Value → Kvs → Kvs

abbrev pub type_of : Value → Kind
type_of nil = type_nil
type_of (bool b) = type_bool
type_of (int v) = type_int
type_of (uint v) = type_uint
type_of (float32 v) = type_float32
type_of (float64 v) = type_float64
type_of (string s) = type_string
type_of (binary s) = type_binary
type_of (array vs) = type_array
type_of (map kvs) = type_map
type_of (ext t s) = type_ext

unfoldable pub is_nil : Value → Bool
is_nil nil = true
is_nil _ = false

unfoldable pub as_bool : Value → Bool
as_bool (bool b) = b
as_bool _ = false

unfoldable pub as_int : Value → ℤ
as_int (int v) = v
as_int (uint v) = to_int64 v
as_int _ = pos 0

unfoldable pub as_uint : Value → ℕ
as_uint (int v) = to_uint64 v
as_uint (uint v) = v
as_uint _ = 0

unfoldable pub as_float64 : Value → ℕ
as_float64 (float64 v) = v
as_float64 (float32 v) = float64_of_float32 v
as_float64 (int v) = float64_of_int v
as_float64 (uint v) = float64_of_nat v
as_float64 _ = 0

unfoldable pub as_bytes : Value → Bytes
as_bytes (string s) = s
as_bytes (binary s) = s
as_bytes _ = []

abbrev pub values_len : Values → ℕ
values_len no_values = 0
values_len (elem v vs) = suc (values_len vs)

abbrev pub kvs_len : Kvs → ℕ
kvs_len no_kvs = 0
kvs_len (kv k v kvs) = suc (kvs_len kvs)

-- Len
unfoldable pub len : Value → ℕ
len (array vs) = values_len vs
len (map kvs) = kvs_len kvs
len (string s) = length s
len (binary s) = length s
len _ = 0

-- Index: none is the run-time panic of a slice read out of bounds.
unfoldable pub elem_at : Values → ℕ → Option Value
elem_at no_values i = none
elem_at (elem v vs) zero = some v
elem_at (elem v vs) (suc i) = elem_at vs i

unfoldable pub index : Value → ℕ → Option Value
unfolding elem_at
index (array vs) i = elem_at vs i
index _ i = none

-- The loop of bytesEqual, after the lengths were compared.
unfoldable pub same_from : Bytes → Bytes → Bool
same_from [] bs = true
same_from (a ∷ as') [] = true
same_from (a ∷ as') (b ∷ bs) = let rest = same_from as' bs in if not (a == b) then false else rest

unfoldable pub bytes_equal : Bytes → Bytes → Bool
unfolding same_from
bytes_equal a b = if not (length a == length b) then false else same_from a b

-- The loop of Get.
unfoldable pub find_key : Kvs → Bytes → Option Value
unfolding bytes_equal
find_key no_kvs key = none
find_key (kv k v kvs) key =
    let rest = find_key kvs key in if bytes_equal k key then some v else rest

-- Get, and GetString, whose string is its bytes here.
unfoldable pub get : Value → Bytes → Option Value
unfolding find_key
get (map kvs) key = find_key kvs key
get _ key = none
