-- ===== src/Value/Lookup.antt =====
-- value.go: bytesEqual and Get.
use msgpck.Base.{
  ◌≢◌, false, inl, inr, Option, none, some, Bool-cases, ◌≡◌, refl, true, Bytes, [], ◌∷◌, ◌↔◌, arith,
  length,
}
use msgpck.Value.{Value, Kvs, no_kvs, kv, map, same_from, bytes_equal, find_key, get}

same_from→eq : (a b : Bytes) → length a ≡ length b → same_from a b ≡ true → a ≡ b
unfolding same_from
same_from→eq [] [] l h = refl
same_from→eq [] (b ∷ bs) l h = absurd (omega arith)
same_from→eq (a ∷ as') [] l h = absurd (omega arith)
same_from→eq (a ∷ as') (b ∷ bs) l h = ground (arith, same_from→eq as' bs (omega arith))

same_from_refl : (a : Bytes) → same_from a a ≡ true
unfolding same_from
same_from_refl [] = refl
same_from_refl (a ∷ as') = ground (arith, same_from_refl as')

pub bytes_equal_refl : (a : Bytes) → bytes_equal a a ≡ true
unfolding bytes_equal
bytes_equal_refl a = ground (arith, same_from_refl a)

pub bytes_equal→eq : (a b : Bytes) → bytes_equal a b ≡ true → a ≡ b
unfolding bytes_equal
bytes_equal→eq a b h = ground (arith, same_from→eq a b)

-- bytesEqual answers true exactly on equal byte slices.
pub bytes_equal_iff : (a b : Bytes) → (bytes_equal a b ≡ true) ↔ (a ≡ b)
bytes_equal_iff a b = (bytes_equal→eq a b, λ e. rw e (bytes_equal_refl b))

-- The first pair with the key holds the value.
pub data First (key : Bytes) (v : Value) : Kvs → Type 0 where
  here : (kvs : Kvs) → First key v (kv key v kvs)
  there : (k : Bytes) (u : Value) (kvs : Kvs) → k ≢ key → First key v kvs → First key v (kv k u kvs)

-- No pair has the key.
pub data Absent (key : Bytes) : Kvs → Type 0 where
  nowhere : Absent key no_kvs
  past : (k : Bytes) (u : Value) (kvs : Kvs) → k ≢ key → Absent key kvs → Absent key (kv k u kvs)

pub differs : (k key : Bytes) → bytes_equal k key ≡ false → k ≢ key
differs k key h e = absurd (cc (bytes_equal_refl key))

pub bytes_differ : (k key : Bytes) → k ≢ key → bytes_equal k key ≡ false
bytes_differ k key ne = elim (Bool-cases (bytes_equal k key)) [
  | inl e ↦ absurd (ne (bytes_equal→eq k key e))
  | inr e ↦ e
]

-- What an answer says of the pairs.
unfoldable pub Answers : Bytes → Kvs → Option Value → Type 0
Answers key kvs none = Absent key kvs
Answers key kvs (some v) = First key v kvs

Answers-past :
    (k key : Bytes) (u : Value) (kvs : Kvs) (r : Option Value)
    → k ≢ key
    → Answers key kvs r
    → Answers key (kv k u kvs) r
unfolding Answers
Answers-past k key u kvs none ne h = past k u kvs ne h
Answers-past k key u kvs (some v) ne h = there k u kvs ne h

Answers-first :
    (k key : Bytes) (v : Value) (kvs : Kvs) → k ≡ key → Answers key (kv k v kvs) (some v)
unfolding Answers
Answers-first k key v kvs e = rw e (here kvs)

Answers-find_key : (kvs : Kvs) (key : Bytes) → Answers key kvs (find_key kvs key)
unfolding find_key
Answers-find_key no_kvs key = unfold Answers in nowhere
Answers-find_key (kv k v kvs) key = elim (Bool-cases (bytes_equal k key)) [
  | inl e ↦ rw e (Answers-first k key v kvs (bytes_equal→eq k key e))
  | inr e ↦
      rw e
        (Answers-past k key v kvs (find_key kvs key) (differs k key e) (Answers-find_key kvs key))
]

-- Get on a map answers with the value of the first pair whose key has the same bytes, and answers nil
-- only where no pair has that key.
pub Answers-get : (kvs : Kvs) (key : Bytes) → Answers key kvs (get (map kvs) key)
unfolding get
Answers-get = Answers-find_key
