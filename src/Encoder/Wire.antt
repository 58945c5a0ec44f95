-- ===== src/Encoder/Wire.antt =====
-- The MessagePack form of a value in plain arithmetic, independent of the buffer: what the encoder is
-- to write. Lengths and words are taken as they are; the encoder's truncations are not repeated.
pub mod Sizes
use msgpck.Base.{
  ℕ, ◌+◌, ◌-◌, ◌≤◌, ◌<◌, ◌^◌, Bool, true, false, Bytes, [], ◌∷◌, ◌++◌, length, leb, ◌==◌, arith,
  if◌then◌else◌, length-append, List,
}
use msgpck.Base.Words.{ℤ, pos, negsuc, be16, be32, be64}
use msgpck.Value.{
  Value, Values, Kvs, nil, bool, int, uint, float32, float64, string, binary, array, map, ext,
  no_values, elem, no_kvs, kv, values_len, kvs_len,
}

unfoldable pub uint_bytes : ℕ → Bytes
uint_bytes v =
    if leb v 0x7f
    then v ∷ []
    else if leb v 0xff
    then 0xcc ∷ v ∷ []
    else if leb v 0xffff
    then 0xcd ∷ be16 v
    else if leb v 0xffff_ffff
    then 0xce ∷ be32 v
    else 0xcf ∷ be64 v

-- The word of w bits of -(n + 1) is 2 ^ w - 1 - n.
unfoldable pub int_bytes : ℤ → Bytes
int_bytes (pos n) = uint_bytes n
int_bytes (negsuc n) =
    if leb n 31
    then (0xff - n) ∷ []
    else if leb n 0x7f
    then 0xd0 ∷ (0xff - n) ∷ []
    else if leb n 0x7fff
    then 0xd1 ∷ be16 (0xffff - n)
    else if leb n 0x7fff_ffff
    then 0xd2 ∷ be32 (0xffff_ffff - n)
    else 0xd3 ∷ be64 (2 ^ 64 - 1 - n)

unfoldable pub string_header : ℕ → Bytes
string_header n =
    if leb n 31
    then (0xa0 + n) ∷ []
    else if leb n 0xff
    then 0xd9 ∷ n ∷ []
    else if leb n 0xffff
    then 0xda ∷ be16 n
    else 0xdb ∷ be32 n

unfoldable pub binary_header : ℕ → Bytes
binary_header n =
    if leb n 0xff then 0xc4 ∷ n ∷ [] else if leb n 0xffff then 0xc5 ∷ be16 n else 0xc6 ∷ be32 n

unfoldable pub array_header : ℕ → Bytes
array_header n =
    if leb n 15 then (0x90 + n) ∷ [] else if leb n 0xffff then 0xdc ∷ be16 n else 0xdd ∷ be32 n

unfoldable pub map_header : ℕ → Bytes
map_header n =
    if leb n 15 then (0x80 + n) ∷ [] else if leb n 0xffff then 0xde ∷ be16 n else 0xdf ∷ be32 n

unfoldable pub ext_header : ℕ → Bytes
ext_header n =
    if n == 1
    then 0xd4 ∷ []
    else if n == 2
    then 0xd5 ∷ []
    else if n == 4
    then 0xd6 ∷ []
    else if n == 8
    then 0xd7 ∷ []
    else if n == 16
    then 0xd8 ∷ []
    else if leb n 0xff
    then 0xc7 ∷ n ∷ []
    else if leb n 0xffff
    then 0xc8 ∷ be16 n
    else 0xc9 ∷ be32 n

abbrev pub int8_byte : ℤ → ℕ
int8_byte (pos n) = n
int8_byte (negsuc n) = 0xff - n

unfoldable mutual
  pub wire : Value → Bytes
  wire nil = 0xc0 ∷ []
  wire (bool b) = (if b then 0xc3 else 0xc2) ∷ []
  wire (int v) = int_bytes v
  wire (uint v) = uint_bytes v
  wire (float32 v) = 0xca ∷ be32 v
  wire (float64 v) = 0xcb ∷ be64 v
  wire (string s) = string_header (length s) ++ s
  wire (binary s) = binary_header (length s) ++ s
  wire (array vs) = array_header (values_len vs) ++ wire_values vs
  wire (map kvs) = map_header (kvs_len kvs) ++ wire_kvs kvs
  wire (ext t s) = ext_header (length s) ++ (int8_byte t ∷ s)

  pub wire_values : Values → Bytes
  wire_values no_values = []
  wire_values (elem v vs) = wire v ++ wire_values vs

  pub wire_kvs : Kvs → Bytes
  wire_kvs no_kvs = []
  wire_kvs (kv k v kvs) = (string_header (length k) ++ k) ++ (wire v ++ wire_kvs kvs)
