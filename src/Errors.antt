-- ===== src/Errors.antt =====
-- errors.go: the error values. Go's sentinel errors are told apart by identity, as constructors are.
use msgpck.Base.{Bool, true, false}

pub data Error : Type 0 where
  unexpected_eof invalid_format : Error
  string_too_long binary_too_long array_too_long map_too_long ext_too_long : Error
  max_depth_exceeded type_mismatch not_pointer not_struct unsupported_type : Error

-- err == ErrTypeMismatch
abbrev pub is_type_mismatch : Error → Bool
is_type_mismatch type_mismatch = true
is_type_mismatch _ = false
