-- ===== src/Value/Size.antt =====
-- How much a value holds: one for each value and each pair, and the bytes of its texts.
use msgpck.Base.{ℕ, suc, ◌+◌, ◌<◌, length, arith}
use msgpck.Value.{
  Value, Values, Kvs, nil, bool, int, uint, float32, float64, string, binary, array, map, ext,
  no_values, elem, no_kvs, kv,
}

unfoldable mutual
  pub size : Value → ℕ
  size nil = 1
  size (bool b) = 1
  size (int v) = 1
  size (uint v) = 1
  size (float32 v) = 1
  size (float64 v) = 1
  size (string s) = suc (length s)
  size (binary s) = suc (length s)
  size (array vs) = suc (size_values vs)
  size (map kvs) = suc (size_kvs kvs)
  size (ext t s) = suc (suc (length s))

  pub size_values : Values → ℕ
  size_values no_values = 0
  size_values (elem v vs) = size v + size_values vs

  pub size_kvs : Kvs → ℕ
  size_kvs no_kvs = 0
  size_kvs (kv k v kvs) = suc (length k) + size v + size_kvs kvs

pub size_pos : (v : Value) → 0 < size v
unfolding size
size_pos nil = omega arith
size_pos _ = omega arith
