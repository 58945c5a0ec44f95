-- ===== src/Decoder/Canonical.antt =====
-- The value that an encoded value decodes to, and the limits under which it does.
use msgpck.Base.{ℕ, ◌+◌, ◌≡◌, false, length}
use msgpck.Base.Words.{pos, negsuc}
use msgpck.Config.{Config, exceeds}
use msgpck.Value.{
  Value, Values, Kvs, nil, bool, int, uint, float32, float64, string, binary, array, map, ext,
  no_values, elem, no_kvs, kv, values_len, kvs_len,
}

-- An integer that is not negative is written in an unsigned format, and comes back as a Uint.
unfoldable mutual
  pub canonical : Value → Value
  canonical nil = nil
  canonical (bool b) = bool b
  canonical (int (pos n)) = uint n
  canonical (int (negsuc n)) = int (negsuc n)
  canonical (uint v) = uint v
  canonical (float32 v) = float32 v
  canonical (float64 v) = float64 v
  canonical (string s) = string s
  canonical (binary s) = binary s
  canonical (array vs) = array (canonical_values vs)
  canonical (map kvs) = map (canonical_kvs kvs)
  canonical (ext t s) = ext t s

  pub canonical_values : Values → Values
  canonical_values no_values = no_values
  canonical_values (elem v vs) = elem (canonical v) (canonical_values vs)

  pub canonical_kvs : Kvs → Kvs
  canonical_kvs no_kvs = no_kvs
  canonical_kvs (kv k v kvs) = kv k (canonical v) (canonical_kvs kvs)

-- Every length and the nesting below depth k stay within the limits of the configuration.
unfoldable mutual
  pub Fits : Config → ℕ → Value → Type 0
  Fits c k nil = Unit
  Fits c k (bool b) = Unit
  Fits c k (int v) = Unit
  Fits c k (uint v) = Unit
  Fits c k (float32 v) = Unit
  Fits c k (float64 v) = Unit
  Fits c k (string s) = exceeds (length s) c.max_string_len ≡ false
  Fits c k (binary s) = exceeds (length s) c.max_binary_len ≡ false
  Fits c k (array vs) =
      (exceeds (values_len vs) c.max_array_len ≡ false)
      × (exceeds (k + 1) c.max_depth ≡ false)
      × AllFit c (k + 1) vs
  Fits c k (map kvs) =
      (exceeds (kvs_len kvs) c.max_map_len ≡ false)
      × (exceeds (k + 1) c.max_depth ≡ false)
      × KvsFit c (k + 1) kvs
  Fits c k (ext t s) = exceeds (length s) c.max_ext_len ≡ false

  pub AllFit : Config → ℕ → Values → Type 0
  AllFit c k no_values = Unit
  AllFit c k (elem v vs) = Fits c k v × AllFit c k vs

  pub KvsFit : Config → ℕ → Kvs → Type 0
  KvsFit c k no_kvs = Unit
  KvsFit c k (kv key v kvs) =
      (exceeds (length key) c.max_string_len ≡ false) × Fits c k v × KvsFit c k kvs
