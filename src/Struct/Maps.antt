-- ===== src/Struct/Maps.antt =====
-- struct_decoder.go: the readers of maps from strings, given the format byte.
use msgpck.Base.{ℕ, zero, suc, [], ◌∷◌, Bytes, Bool, if◌then◌else◌}
use msgpck.Base.Words.{ℤ}
use msgpck.Any.{Any, Entries, go_int64, go_string, go_bytes, go_nil, no_entries}
use msgpck.Value.{bytes_equal}
use msgpck.Decoder.{M, pure, ◌>>=◌, ◌>>◌, read_byte, unread}
use msgpck.Decoder.Limits.{validate_map_len}
use msgpck.Decoder.Lengths.{parse_map_len, read_string_bytes}
use msgpck.Decoder.Integers.{decode_int as read_int, decode_uint as read_uint}
use msgpck.Decoder.Typed.{typed_any, entries_with_len}
use msgpck.Struct.Kinds.{
  k_int, k_int32, k_uint32, Table, NestedKind, n_bytes, n_string, n_int64, n_any,
}
use msgpck.Struct.Scalars.{
  decode_string, decode_bytes, decode_bool, decode_float, narrow_int, narrow_uint,
}

-- result[key] = val
unfoldable pub put_entry : {A : Type 0} → Bytes → A → Table A → Table A
put_entry key v [] = (key, v) ∷ []
put_entry key v ((k, u) ∷ m) =
    let rest = put_entry key v m in if bytes_equal k key then (k, v) ∷ m else (k, u) ∷ rest

-- The loop over the pairs, each a string key and a value.
unfoldable pub read_entries : {A : Type 0} → M A → ℕ → Table A → M (Table A)
read_entries value zero m = pure m
read_entries value (suc n) m = do
  key ← read_string_bytes
  val ← value
  read_entries value n (put_entry key val m)

-- What the readers share: the announced length, its check, and the loop; a value begins with its
-- format byte.
unfoldable pub decode_map_string : {A : Type 0} → M A → ℕ → M (Table A)
decode_map_string value format = do
  map_len ← parse_map_len format
  validate_map_len map_len
  read_entries value map_len []

unfoldable pub decode_string_map : ℕ → M (Table Bytes)
decode_string_map = decode_map_string (do f ← read_byte; decode_string f)

unfoldable pub decode_map_string_int : ℕ → M (Table ℤ)
decode_map_string_int =
    decode_map_string (do f ← read_byte; v ← read_int f; pure (narrow_int k_int v))

unfoldable pub decode_map_string_int64 : ℕ → M (Table ℤ)
decode_map_string_int64 = decode_map_string (do f ← read_byte; read_int f)

unfoldable pub decode_map_string_int32 : ℕ → M (Table ℤ)
decode_map_string_int32 =
    decode_map_string (do f ← read_byte; v ← read_int f; pure (narrow_int k_int32 v))

unfoldable pub decode_map_string_uint64 : ℕ → M (Table ℕ)
decode_map_string_uint64 = decode_map_string (do f ← read_byte; read_uint f)

unfoldable pub decode_map_string_uint32 : ℕ → M (Table ℕ)
decode_map_string_uint32 =
    decode_map_string (do f ← read_byte; v ← read_uint f; pure (narrow_uint k_uint32 v))

unfoldable pub decode_map_string_float64 : ℕ → M (Table ℕ)
decode_map_string_float64 = decode_map_string (do f ← read_byte; decode_float f)

unfoldable pub decode_map_string_bool : ℕ → M (Table Bool)
decode_map_string_bool = decode_map_string (do f ← read_byte; decode_bool f)

-- The length is checked here and again by decodeMapStringAnyWithLen.
unfoldable pub decode_map_string_any : ℕ → M Entries
decode_map_string_any format = do
  map_len ← parse_map_len format
  validate_map_len map_len
  validate_map_len map_len
  entries_with_len typed_any map_len no_entries

unfoldable pub nested_map_value : NestedKind → ℕ → M Any
nested_map_value n_bytes f = do b ← decode_bytes f; pure (go_bytes b)
nested_map_value n_string f = do s ← decode_string f; pure (go_string s)
nested_map_value n_int64 f = do v ← read_int f; pure (go_int64 v)
nested_map_value n_any f = do unread; typed_any

unfoldable pub decode_nested_map_value : NestedKind → M Any
decode_nested_map_value kind = do f ← read_byte; nested_map_value kind f

-- SetMapIndex(key, val): a nil val removes the key.
unfoldable pub delete_entry : Bytes → Table Any → Table Any
delete_entry key [] = []
delete_entry key ((k, u) ∷ m) =
    let rest = delete_entry key m in if bytes_equal k key then m else (k, u) ∷ rest

unfoldable pub set_map_index : Bytes → Any → Table Any → Table Any
set_map_index key go_nil m = delete_entry key m
set_map_index key v m = put_entry key v m

-- The loop over the pairs of a map inside.
unfoldable pub read_inner : M Any → ℕ → Table Any → M (Table Any)
read_inner value zero m = pure m
read_inner value (suc n) m = do
  key ← read_string_bytes
  val ← value
  read_inner value n (set_map_index key val m)

-- A map inside: its announced length is not checked.
unfoldable pub decode_inner_map : NestedKind → M (Table Any)
decode_inner_map kind = do
  f ← read_byte
  nested_len ← parse_map_len f
  read_inner (decode_nested_map_value kind) nested_len []

unfoldable pub decode_nested_map : NestedKind → ℕ → M (Table (Table Any))
decode_nested_map kind = decode_map_string (decode_inner_map kind)
