-- ===== src/Config.antt =====
-- config.go: the limits of a decoder. A limit is a Go int, which a caller may set below zero.
use msgpck.Base.{ℕ, Bool, ltb, true}
use msgpck.Base.Words.{ℤ, pos, negsuc}

abbrev pub default_max_string_len : ℤ
default_max_string_len = pos 0x7fff_ffff

abbrev pub default_max_binary_len : ℤ
default_max_binary_len = pos 0x7fff_ffff

abbrev pub default_max_array_len : ℤ
default_max_array_len = pos 0x7fff_ffff

abbrev pub default_max_map_len : ℤ
default_max_map_len = pos 0x7fff_ffff

abbrev pub default_max_ext_len : ℤ
default_max_ext_len = pos 0x7fff_ffff

abbrev pub default_max_depth : ℤ
default_max_depth = pos 10000

pub record Config : Type 0 where
  pub max_string_len : ℤ
  pub max_binary_len : ℤ
  pub max_array_len : ℤ
  pub max_map_len : ℤ
  pub max_ext_len : ℤ
  pub max_depth : ℤ

abbrev pub default_config : Config
default_config = record {
  max_string_len = default_max_string_len;
  max_binary_len = default_max_binary_len;
  max_array_len = default_max_array_len;
  max_map_len = default_max_map_len;
  max_ext_len = default_max_ext_len;
  max_depth = default_max_depth;
}

abbrev pub with_max_string_len : Config → ℤ → Config
with_max_string_len c n = record c { max_string_len = n }

abbrev pub with_max_binary_len : Config → ℤ → Config
with_max_binary_len c n = record c { max_binary_len = n }

abbrev pub with_max_array_len : Config → ℤ → Config
with_max_array_len c n = record c { max_array_len = n }

abbrev pub with_max_map_len : Config → ℤ → Config
with_max_map_len c n = record c { max_map_len = n }

abbrev pub with_max_ext_len : Config → ℤ → Config
with_max_ext_len c n = record c { max_ext_len = n }

abbrev pub with_max_depth : Config → ℤ → Config
with_max_depth c n = record c { max_depth = n }

-- n > limit, for a length or a depth n.
unfoldable pub exceeds : ℕ → ℤ → Bool
exceeds n (pos m) = ltb m n
exceeds n (negsuc m) = true
