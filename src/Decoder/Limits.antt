-- ===== src/Decoder/Limits.antt =====
-- decoder.go: the checks of a declared length against the configured limit and the input that is left.
use msgpck.Base.{ℕ, ◌*◌, not, if◌then◌else◌}
use msgpck.Base.Words.{ℤ}
use msgpck.Errors.{
  Error, unexpected_eof, string_too_long, binary_too_long, array_too_long, map_too_long,
  ext_too_long,
}
use msgpck.Config.{exceeds}
use msgpck.Decoder.{ok, err, M, has_bytes}

-- The common body: `length` against the limit, then the bytes that it needs at least.
unfoldable pub check_len : Error → ℤ → ℕ → ℕ → M (Unit {0})
check_len too_long limit length needed d =
    if exceeds length limit
    then err too_long d
    else if not (has_bytes needed d)
    then err unexpected_eof d
    else ok tt d

unfoldable pub validate_string_len : ℕ → M (Unit {0})
validate_string_len length d = check_len string_too_long d.cfg.max_string_len length length d

unfoldable pub validate_binary_len : ℕ → M (Unit {0})
validate_binary_len length d = check_len binary_too_long d.cfg.max_binary_len length length d

-- Each element needs a byte at least.
unfoldable pub validate_array_len : ℕ → M (Unit {0})
validate_array_len length d = check_len array_too_long d.cfg.max_array_len length length d

-- Each pair needs two bytes at least.
unfoldable pub validate_map_len : ℕ → M (Unit {0})
validate_map_len length d = check_len map_too_long d.cfg.max_map_len length (length * 2) d

unfoldable pub validate_ext_len : ℕ → M (Unit {0})
validate_ext_len length d = check_len ext_too_long d.cfg.max_ext_len length length d
