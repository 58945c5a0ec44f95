-- ===== src/Decoder/Any/Safety.antt =====
-- What DecodeAny guarantees on every input, by what Decode guarantees.
use msgpck.Base.{ℕ, ◌≡◌, ◌≢◌, refl, ◌∙◌, ap, sym, Bytes}
use msgpck.Any.{Any, Entries, go_map, lookup}
use msgpck.Any.Represents.{Represents, rep_map}
use msgpck.Any.Lookup.{Finds, lookup-Finds}
use msgpck.Value.{Value, Kvs, map}
use msgpck.Decoder.{Decoder, ok, panic, stuck}
use msgpck.Decoder.Values.{decode}
use msgpck.Decoder.Any.{decode_any}
use msgpck.Decoder.Any.Agree.{Follows-decode_any}
use msgpck.Decoder.Any.Follows.{Follows-ok, Follows-panic, Follows-stuck}
use msgpck.Decoder.Contract.{IsValid}
use msgpck.Decoder.Safety.{decode_total}

-- Where DecodeAny returns, Decode returns too, from the same state and to the same state, and the Go
-- value stands for the decoded Value: the same contents, a number as an int64 where that holds it, a
-- float32 widened, and a map in which each key has the value that was put last.
pub decode_any-decode :
    (d : Decoder) (a : Any) (d' : Decoder)
    → decode_any d ≡ ok a d'
    → (v : Value) × (decode d ≡ ok v d') × Represents a v
decode_any-decode d a d' e =
    let (v, k, same, depth, r) = Follows-ok a d' (Follows-decode_any d) e in
    (v, same ∙ ap (λ (j : ℕ). ok v (record d' { depth = j })) (sym depth), r)

-- On any bytes, from any position within them, DecodeAny ends without an index or a slice out of
-- bounds.
pub decode_any_total : (d : Decoder) → IsValid d → (decode_any d ≢ panic) × (decode_any d ≢ stuck)
decode_any_total d v =
    let (no_panic, no_stuck) = decode_total d v in
    (
      (λ e. no_panic (Follows-panic (Follows-decode_any d) e)),
      (λ e. no_stuck (Follows-stuck (Follows-decode_any d) e)),
    )

-- A Value that a Go map stands for is a map, and what a lookup in the Go map gives is said by its pairs.
lookup-Represents :
    (m : Entries) (v : Value)
    → Represents (go_map m) v
    → (kvs : Kvs) × (v ≡ map kvs) × ((key : Bytes) → Finds key kvs (lookup key m))
lookup-Represents m _ (rep_map _ kvs f) =
    (kvs, refl, (λ key. lookup-Finds m kvs key (rep_map _ kvs f)))

-- Where DecodeAny returns a Go map, Decode of the same bytes returns a map from the same state, and
-- looking up any key in the Go map gives what stands for the value of the last of its pairs with that
-- key, and finds nothing only where no pair has the key.
pub decode_any-Finds :
    (d : Decoder) (m : Entries) (d' : Decoder)
    → decode_any d ≡ ok (go_map m) d'
    → (kvs : Kvs) × (decode d ≡ ok (map kvs) d') × ((key : Bytes) → Finds key kvs (lookup key m))
decode_any-Finds d m d' e =
    let (v, same, r) = decode_any-decode d (go_map m) d' e in
    let (kvs, is_map, finds) = lookup-Represents m v r in
    (kvs, same ∙ ap (λ (u : Value). ok u d') is_map, finds)
