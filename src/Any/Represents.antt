-- ===== src/Any/Represents.antt =====
-- When a Go value stands for a decoded Value: the same content, a number as an int64 where that holds
-- it, a float32 widened, and a map in which a later pair has replaced an earlier one of the same key.
use msgpck.Base.{ℕ, ◌^◌, ◌≤◌, Bool, Bytes}
use msgpck.Base.Words.{ℤ, pos}
use msgpck.Base.Floats.{float64_of_float32}
use msgpck.Value.{
  Value, Values, Kvs, nil, bool, int, uint, float32, float64, string, binary, array, map, no_values,
  elem, no_kvs, kv,
}
use msgpck.Any.{
  Any, Anys, Entries, go_nil, go_bool, go_int64, go_uint64, go_float64, go_string, go_bytes,
  go_slice, go_map, no_anys, item, no_entries, put,
}

mutual
  pub data Represents : Any → Value → Type 0 where
    rep_nil : Represents go_nil nil
    rep_bool : (b : Bool) → Represents (go_bool b) (bool b)
    rep_int : (n : ℤ) → Represents (go_int64 n) (int n)
    rep_small : (n : ℕ) → Represents (go_int64 (pos n)) (uint n)
    rep_large : (n : ℕ) → 2 ^ 63 ≤ n → Represents (go_uint64 n) (uint n)
    rep_float32 : (x : ℕ) → Represents (go_float64 (float64_of_float32 x)) (float32 x)
    rep_float64 : (x : ℕ) → Represents (go_float64 x) (float64 x)
    rep_string : (s : Bytes) → Represents (go_string s) (string s)
    rep_bytes : (s : Bytes) → Represents (go_bytes s) (binary s)
    rep_slice : (xs : Anys) (vs : Values) → Items xs vs → Represents (go_slice xs) (array vs)
    rep_map : (m : Entries) (kvs : Kvs) → Fills no_entries kvs m → Represents (go_map m) (map kvs)

  pub data Items : Anys → Values → Type 0 where
    all_items : Items no_anys no_values
    one_item :
        (x : Any) (v : Value) (xs : Anys) (vs : Values)
        → Represents x v
        → Items xs vs
        → Items (item x xs) (elem v vs)

  -- `Fills m kvs m'`: the pairs, put one after the other into m, make it m'.
  pub data Fills : Entries → Kvs → Entries → Type 0 where
    all_put : (m : Entries) → Fills m no_kvs m
    one_put :
        (k : Bytes) (x : Any) (v : Value) (m m' : Entries) (kvs : Kvs)
        → Represents x v
        → Fills (put k x m) kvs m'
        → Fills m (kv k v kvs) m'
