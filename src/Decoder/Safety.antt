-- ===== src/Decoder/Safety.antt =====
-- What Decode guarantees on every input, well formed or not.
use msgpck.Base.{◌+◌, ◌≤◌, ◌≡◌, ◌≢◌, ◌⊎◌, Bytes, false, ◌++◌, length}
use msgpck.Errors.{Error, max_depth_exceeded}
use msgpck.Config.{exceeds}
use msgpck.Value.{Value}
use msgpck.Value.Size.{size}
use msgpck.Encoder.{Encoder, encode_value}
use msgpck.Decoder.{Decoder, ok, err, panic, stuck}
use msgpck.Decoder.Values.{decode}
use msgpck.Decoder.Canonical.{canonical, Fits}
use msgpck.Decoder.RoundTrip.{decode-encode_value}
use msgpck.Decoder.Contract.{IsValid, Ensures-ok, Ensures-err, Ensures-panic, Ensures-stuck}
use msgpck.Decoder.Contract.Whole.{decode-Ensures}

-- On any bytes, from any position within them, Decode ends: no index or slice is out of bounds, and
-- the model's fuel of one unit for each byte left and one more is never used up.
pub decode_total : (d : Decoder) → IsValid d → (decode d ≢ panic) × (decode d ≢ stuck)
decode_total d v = (Ensures-panic (decode-Ensures d v), Ensures-stuck (decode-Ensures d v))

-- A successful Decode keeps the input and the configuration, restores the depth, and stops within the
-- input; what it returns holds no more values, pairs and text bytes than it took bytes. So a small
-- input cannot make it build a large value.
pub decode-size :
    (d : Decoder) (v : Value) (d' : Decoder)
    → IsValid d
    → decode d ≡ ok v d'
    → (d'.input ≡ d.input)
      × (d'.cfg ≡ d.cfg)
      × (d'.depth ≡ d.depth)
      × (d.pos + size v ≤ d'.pos)
      × (d'.pos ≤ length d.input)
decode-size d v d' h e =
    let g = Ensures-ok (decode-Ensures d h) e in
    (g.same_input, g.same_cfg, g.same_depth, g.taken, g.inside)

-- A failed Decode keeps the input and the configuration and does not move back or past the end. It
-- leaves the depth as it was, unless the error is that the depth is exceeded: then the depth can be
-- left one higher.
pub decode-err :
    (d : Decoder) (e : Error) (d' : Decoder)
    → IsValid d
    → decode d ≡ err e d'
    → (d'.input ≡ d.input)
      × (d'.cfg ≡ d.cfg)
      × (d.pos ≤ d'.pos)
      × (d'.pos ≤ length d.input)
      × ((d'.depth ≡ d.depth) ⊎ ((e ≡ max_depth_exceeded) × (d'.depth ≡ d.depth + 1)))
decode-err d e d' h p =
    let f = Ensures-err (decode-Ensures d h) p in
    (f.same_input, f.same_cfg, f.forward, f.inside, f.depth_kept)

-- Whatever Decode returns is within the limits: every string, binary, extension, array and map is at
-- most as long as the configuration allows, and the nesting stays within the depth that is left. The
-- limit on strings is taken not to be negative.
pub decode-Fits :
    (d : Decoder) (v : Value) (d' : Decoder)
    → IsValid d
    → exceeds 0 d.cfg.max_string_len ≡ false
    → decode d ≡ ok v d'
    → Fits d.cfg d.depth v
decode-Fits d v d' h p e = (Ensures-ok (decode-Ensures d h) e).holds.0 p

-- A decoded value can be encoded and decoded again, under the same limits, and comes back in its
-- canonical form, wherever it is written.
pub decode-encode_value-decode :
    (d : Decoder) (v : Value) (d' : Decoder) (e : Encoder) (rest : Bytes)
    → IsValid d
    → exceeds 0 d.cfg.max_string_len ≡ false
    → decode d ≡ ok v d'
    → decode (record {
      input = (encode_value v e).buf ++ rest;
      pos = length e.buf;
      cfg = d.cfg;
      depth = d.depth;
    })
      ≡ ok (canonical v) (record {
        input = (encode_value v e).buf ++ rest;
        pos = length (encode_value v e).buf;
        cfg = d.cfg;
        depth = d.depth;
      })
decode-encode_value-decode d v d' e rest h p r =
    let g = (Ensures-ok (decode-Ensures d h) r).holds in
    decode-encode_value v e rest d.cfg d.depth g.1 (g.0 p)
