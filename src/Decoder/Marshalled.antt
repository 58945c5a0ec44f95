-- ===== src/Decoder/Marshalled.antt =====
-- Decode on what Marshal returned.
use msgpck.Base.{◌≡◌, sym, ap, [], length, append-nil}
use mathlib.Core.Path.{subst}
use msgpck.Config.{Config}
use msgpck.Any.{Any}
use msgpck.Encoder.{Encoder, new_encoder, encode_value}
use msgpck.Encoder.Refines.{IsSized}
use msgpck.Encoder.Any.{marshal}
use msgpck.Encoder.Any.Agree.{value_of, encode_any-encode_value}
use msgpck.Decoder.{ok, new_decoder_with_config}
use msgpck.Decoder.Values.{decode}
use msgpck.Decoder.Canonical.{Fits, canonical}
use msgpck.Decoder.RoundTrip.{decode-encode_value}

-- Decode of what Marshal returned takes all of the bytes and gives the canonical form of the Value with
-- the contents of the Go value, where its words and lengths are in range and within the limits.
pub decode-marshal :
    (a : Any) (c : Config)
    → IsSized (value_of a)
    → Fits c 0 (value_of a)
    → decode (new_decoder_with_config (marshal a) c)
      ≡ ok
          (canonical (value_of a))
          (record (new_decoder_with_config (marshal a) c) { pos = length (marshal a) })
unfolding marshal
decode-marshal a c s f =
    subst
      (λ bs.
        decode (new_decoder_with_config bs c)
        ≡ ok (canonical (value_of a)) (record (new_decoder_with_config bs c) { pos = length bs }))
      (ap (λ (e : Encoder). e.buf) (sym (encode_any-encode_value a (new_encoder 256))))
      (rw (append-nil (encode_value (value_of a) (new_encoder 256)).buf) at
        (decode-encode_value (value_of a) (new_encoder 256) [] c 0 s f))
