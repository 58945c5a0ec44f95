-- ===== src/Tests/Values.antt =====
-- Get, the readers of integers and the encoder's capacity at concrete inputs.
use msgpck.Base.{◌≡◌, refl, arith, [], ◌∷◌}
use msgpck.Value.{Kvs, nil, uint, map, no_kvs, kv, get}
use msgpck.Value.Lookup.{Answers, Answers-get}
use msgpck.Encoder.{new_encoder, encode_value}
use msgpck.Encoder.Capacity.{IsWithin, IsWithin-encode_value}
use msgpck.Decoder.Integers.{decode_int, decode_value_int, int_value_switch}
use msgpck.Decoder.Integers.Agree.{decode_int_agree}

-- The key "b" twice.
abbrev pairs : Kvs
pairs = kv (b'a' ∷ []) nil (kv (b'b' ∷ []) (uint 1) (kv (b'b' ∷ []) (uint 2) no_kvs))

Answers-get_example : Answers (b'b' ∷ []) pairs (get (map pairs) (b'b' ∷ []))
Answers-get_example = Answers-get pairs (b'b' ∷ [])

decode_int_agree_example :
    (decode_value_int 0xd1 ≡ decode_int 0xd1) × (int_value_switch 0xd1 ≡ decode_int 0xd1)
decode_int_agree_example = decode_int_agree 0xd1

empty-IsWithin : IsWithin (new_encoder 4)
empty-IsWithin = record { within = omega arith; in_place = refl }

IsWithin-encode_value_example : IsWithin (encode_value (map pairs) (new_encoder 4))
IsWithin-encode_value_example = IsWithin-encode_value (map pairs) (new_encoder 4) empty-IsWithin
