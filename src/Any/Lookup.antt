-- ===== src/Any/Lookup.antt =====
-- A Go map filled from the pairs of a decoded map: the last pair of a key decides.
use mathlib.Core.Path.{subst}
use msgpck.Base.{◌≡◌, ◌≢◌, refl, sym, ◌∙◌, ◌⊎◌, inl, inr, Bool-cases, Bytes, Option, none, some}
use msgpck.Value.{Value, Kvs, no_kvs, kv, bytes_equal, map}
use msgpck.Value.Lookup.{
  bytes_differ, bytes_equal_refl, bytes_equal→eq, Absent, nowhere, past, differs,
}
use msgpck.Any.{Any, Entries, go_map, no_entries, entry, put, lookup}
use msgpck.Any.Represents.{Represents, Fills, all_put, one_put, rep_map}

-- The last pair with the key holds the value.
pub data Last (key : Bytes) (v : Value) : Kvs → Type 0 where
  last_here : (kvs : Kvs) → Absent key kvs → Last key v (kv key v kvs)
  last_later : (k : Bytes) (u : Value) (kvs : Kvs) → Last key v kvs → Last key v (kv k u kvs)

lookup-put_self : (key : Bytes) (x : Any) (m : Entries) → lookup key (put key x m) ≡ some x
unfolding put lookup
lookup-put_self key x no_entries = rw (bytes_equal_refl key) refl
lookup-put_self key x (entry k u m) = elim (Bool-cases (bytes_equal k key)) [
  | inl e ↦ rw (e, e) refl
  | inr e ↦ rw (e, e) (lookup-put_self key x m)
]

lookup-put_other :
    (k key : Bytes) (x : Any) (m : Entries) → k ≢ key → lookup key (put k x m) ≡ lookup key m
unfolding put lookup
lookup-put_other k key x no_entries ne = rw (bytes_differ k key ne) refl
lookup-put_other k key x (entry j u m) ne = elim (Bool-cases (bytes_equal j k)) [
  | inl e ↦ let same = bytes_equal→eq j k e in rw (e, same, bytes_differ k key ne) refl
  | inr e ↦ rw e (elim (Bool-cases (bytes_equal j key)) [
    | inl f ↦ rw f refl
    | inr f ↦ rw f (lookup-put_other k key x m ne)
  ])
]

-- What a lookup says of the pairs that filled the map.
unfoldable pub Finds : Bytes → Kvs → Option Any → Type 0
Finds key kvs none = Absent key kvs
Finds key kvs (some x) = (v : Value) × Represents x v × Last key v kvs

-- A lookup after filling: as before, or the last pair.
filled :
    (key : Bytes) (m : Entries) (kvs : Kvs) (m' : Entries)
    → Fills m kvs m'
    → (Absent key kvs × (lookup key m' ≡ lookup key m))
      ⊎ ((x : Any) × (lookup key m' ≡ some x) × ((v : Value) × Represents x v × Last key v kvs))
filled key m no_kvs m' (all_put _) = inl (nowhere, refl)
filled key m (kv k v kvs) m' (one_put _ x _ _ _ _ r f) = elim (filled key (put k x m) kvs m' f) [
  | inl (gone, same) ↦ elim (Bool-cases (bytes_equal k key)) [
    | inl e ↦
        let eq : k ≡ key = bytes_equal→eq k key e in
        inr (
          x,
          same ∙ subst (λ j. lookup j (put k x m) ≡ some x) eq (lookup-put_self k x m),
          (v, r, subst (λ j. Last key v (kv j v kvs)) (sym eq) (last_here kvs gone)),
        )
    | inr e ↦
        let ne = differs k key e in inl (past k v kvs ne gone, same ∙ lookup-put_other k key x m ne)
  ]
  | inr (y, found, (u, q, last)) ↦ inr (y, found, (u, q, last_later k v kvs last))
]

-- In a Go map that stands for a decoded map, looking up a key gives what stands for the value of the
-- last pair with that key, and finds nothing only where no pair has the key.
pub lookup-Finds :
    (m : Entries) (kvs : Kvs) (key : Bytes)
    → Represents (go_map m) (map kvs)
    → Finds key kvs (lookup key m)
unfolding Finds lookup
lookup-Finds m kvs key (rep_map _ _ f) = elim (filled key no_entries kvs m f) [
  | inl (gone, same) ↦ rw same gone
  | inr (x, found, (v, r, last)) ↦ rw found (v, r, last)
]
