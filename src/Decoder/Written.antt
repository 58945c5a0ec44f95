-- ===== src/Decoder/Written.antt =====
-- A reader on what an encoder appended: it starts where the encoder did and stops where it stopped.
use msgpck.Base.{
  ℕ, ◌+◌, ◌≤◌, ◌≡◌, refl, ap, ◌∙◌, Bytes, ◌++◌, arith, length, drop, length-append, drop-append,
  append_assoc,
}
use msgpck.Config.{Config}
use msgpck.Decoder.{Decoder, M, ok}
use msgpck.Decoder.Reads.{Reads}

length-append_bytes : (xs ys : Bytes) → length (xs ++ ys) ≡ length xs + length ys
length-append_bytes = length-append

-- `old` is the buffer before, and `new` the buffer after.
pub Reads-appended {ℓ} :
    {A : Type ℓ} {c : Config} {k : ℕ} (m : M A) (bs : Bytes) (a : A) (old new rest : Bytes)
    → Reads c k m bs a
    → new ≡ old ++ bs
    → m (record { input = new ++ rest; pos = length old; cfg = c; depth = k })
      ≡ ok a (record { input = new ++ rest; pos = length new; cfg = c; depth = k })
Reads-appended {c = c} {k = k} m bs a old new rest r e =
    r.run start rest refl refl within here ∙ ap (λ (n : ℕ). ok a (record start { pos = n })) there
  where
    start : Decoder
    start = record { input = new ++ rest; pos = length old; cfg = c; depth = k }

    written : new ++ rest ≡ old ++ (bs ++ rest)
    written = rw e (append_assoc old bs rest)

    within : length old ≤ length (new ++ rest)
    within = rw written (omega (arith, length-append_bytes old (bs ++ rest)))

    here : drop (length old) (new ++ rest) ≡ bs ++ rest
    here = rw written (drop-append old (bs ++ rest) (length old) refl)

    there : length old + length bs ≡ length new
    there = rw e (omega (arith, length-append_bytes old bs))
