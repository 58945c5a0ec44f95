-- ===== src/Tests/Timestamps.antt =====
-- The timestamp theorems at a concrete time, one before 1970.
use msgpck.Base.{◌≡◌, refl, arith, Bytes, [], ◌∷◌, ◌++◌, length}
use msgpck.Base.Words.{negsuc}
use msgpck.Config.{default_config, exceeds}
use msgpck.Value.{ext}
use msgpck.Encoder.{new_encoder}
use msgpck.Decoder.{ok, new_decoder}
use msgpck.Decoder.Values.{decode}
use msgpck.Timestamp.{
  marshal_timestamp, unmarshal_timestamp, Time, IsTime, converted, encode_timestamp,
  decode_timestamp, ext_to_timestamp, timestamp_ext_type,
}
use msgpck.Timestamp.RoundTrip.{
  unmarshal_timestamp-marshal_timestamp, decode_timestamp-encode_timestamp,
}
use msgpck.Timestamp.Ext.{ext_to_timestamp-decode}

abbrev sample_time : Time
sample_time = record { sec = negsuc 999; nsec = 500 }

sample_time-IsTime : IsTime sample_time
sample_time-IsTime = (omega arith, omega arith)

decode_timestamp-encode_timestamp_example :
    decode_timestamp (record {
      input = (encode_timestamp sample_time (new_encoder 0)).buf ++ (1 ∷ []);
      pos = 0;
      cfg = default_config;
      depth = 0;
    })
    ≡ ok sample_time (record {
      input = (encode_timestamp sample_time (new_encoder 0)).buf ++ (1 ∷ []);
      pos = length (encode_timestamp sample_time (new_encoder 0)).buf;
      cfg = default_config;
      depth = 0;
    })
decode_timestamp-encode_timestamp_example =
    decode_timestamp-encode_timestamp sample_time (new_encoder 0) (1 ∷ []) default_config 0
      sample_time-IsTime

ext_to_timestamp-decode_example :
    (bs : Bytes) × (decode (record {
      input = (encode_timestamp sample_time (new_encoder 0)).buf ++ (1 ∷ []);
      pos = 0;
      cfg = default_config;
      depth = 0;
    })
      ≡ ok (ext timestamp_ext_type bs) (record {
        input = (encode_timestamp sample_time (new_encoder 0)).buf ++ (1 ∷ []);
        pos = length (encode_timestamp sample_time (new_encoder 0)).buf;
        cfg = default_config;
        depth = 0;
      }))
    × (ext_to_timestamp timestamp_ext_type bs ≡ converted sample_time)
unfolding exceeds
ext_to_timestamp-decode_example =
    ext_to_timestamp-decode sample_time (new_encoder 0) (1 ∷ []) default_config 0 sample_time-IsTime
      refl

unmarshal_timestamp-marshal_timestamp_example :
    unmarshal_timestamp (marshal_timestamp sample_time)
    ≡ ok sample_time (record (new_decoder (marshal_timestamp sample_time)) {
      pos = length (marshal_timestamp sample_time);
    })
unmarshal_timestamp-marshal_timestamp_example =
    unmarshal_timestamp-marshal_timestamp sample_time sample_time-IsTime
