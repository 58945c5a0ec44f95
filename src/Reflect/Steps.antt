-- ===== src/Reflect/Steps.antt =====
-- The two loops over the keys of a struct, on keys that are strings.
use msgpck.Base.{ℕ, zero, suc, ◌≡◌, refl, ◌∙◌, Bytes, [], ◌++◌, length, append_assoc}
use msgpck.Config.{Config}
use msgpck.Errors.{Error}
use msgpck.Encoder.Arrays.{string_bytes}
use msgpck.Decoder.{
  Decoder, Outcome, ok, err, panic, stuck, M, try, or_else, and_then, ◌>>=◌, read_byte, advance,
}
use msgpck.Decoder.Lengths.{decode_string_key, decode_string_key_with_format}
use msgpck.Decoder.Arrays.RoundTrip.{StringFits}
use msgpck.Decoder.Reads.{Reads, Reads-pure, Reads-bind}
use msgpck.Reflect.Types.{GoValues}
use msgpck.Reflect.Decode.{struct_entries, top_entries}
use msgpck.Reflect.Reads.{Reads-key, Reads-key_with_format}

-- `n` keys and their values stand in the bytes, and setting one after the other leads from the first values
-- to the last.
pub data Steps (c : Config) (k : ℕ) (set : Bytes → GoValues → M GoValues)
    : ℕ → GoValues → Bytes → GoValues → Type 0 where
  no_step : (vs : GoValues) → Steps c k set zero vs [] vs
  step :
      (n : ℕ) (key : Bytes) (vs vs' vs'' : GoValues) (bs rest : Bytes)
      → StringFits c key
      → Reads c k (set key vs) bs vs'
      → Steps c k set n vs' rest vs''
      → Steps c k set (suc n) vs (string_bytes key ++ (bs ++ rest)) vs''

module _ {A B C : Type 0} where
  tried :
      (o : Outcome A) (f : A → M B) (h : Error → M B) (r : B → M C) (a : A) (d : Decoder)
      → o ≡ ok a d
      → and_then (or_else o f h) r ≡ and_then (f a d) r
  tried o f h r a d e = rw e refl

  tried_after :
      (o : Outcome ℕ) (g : ℕ → M A) (f : A → M B) (h : ℕ → Error → M B) (r : B → M C) (a : A)
      (d : Decoder)
      → and_then o g ≡ ok a d
      → and_then o (λ b. try (g b) f (h b) >>= r) ≡ and_then (f a d) r
  tried_after (ok b d') g f h r a d e = rw e refl
  tried_after (err x d') g f h r a d e = absurd (cc e)
  tried_after panic g f h r a d e = absurd (cc e)
  tried_after stuck g f h r a d e = absurd (cc e)

  module _ {c : Config} {k : ℕ} where
    -- A method that is tried, where it returns.
    Reads-try :
        (m : M A) (f : A → M B) (h : Error → M B) (r : B → M C) (bs cs : Bytes) (a : A) (x : C)
        → Reads c k m bs a
        → Reads c k (f a >>= r) cs x
        → Reads c k (try m f h >>= r) (bs ++ cs) x
    Reads-try m f h r bs cs a x p q = record {
      run = λ d rest hc hk hp e.
          let first = p.run d (cs ++ rest) hc hk hp (e ∙ append_assoc bs cs rest) in
          tried (m d) f h r a (advance (length bs) d) first
          ∙ rw first at ((Reads-bind m (λ a. f a >>= r) bs cs a x p q).run d rest hc hk hp e);
    }

    Reads-try_after :
        (g : ℕ → M A) (f : A → M B) (h : ℕ → Error → M B) (r : B → M C) (bs cs : Bytes) (a : A)
        (x : C)
        → Reads c k (read_byte >>= g) bs a
        → Reads c k (f a >>= r) cs x
        → Reads c k (read_byte >>= λ b. try (g b) f (h b) >>= r) (bs ++ cs) x
    Reads-try_after g f h r bs cs a x p q = record {
      run = λ d rest hc hk hp e.
          let first = p.run d (cs ++ rest) hc hk hp (e ∙ append_assoc bs cs rest) in
          tried_after (read_byte d) g f h r a (advance (length bs) d) first
          ∙ rw first at
              ((Reads-bind (read_byte >>= g) (λ a. f a >>= r) bs cs a x p q).run d rest hc hk hp e);
    }

module _ {c : Config} {k : ℕ} {set : Bytes → GoValues → M GoValues} where
  pub Reads-struct_entries :
      (n : ℕ) (vs vs' : GoValues) (bs : Bytes)
      → Steps c k set n vs bs vs'
      → Reads c k (struct_entries set n vs) bs vs'
  unfolding struct_entries
  Reads-struct_entries _ _ _ _ (no_step vs) = Reads-pure vs
  Reads-struct_entries _ _ _ _ (step n key vs vs' vs'' bs rest s p q) =
      Reads-try decode_string_key (λ key. set key vs) _ (struct_entries set n) (string_bytes key)
        (bs ++ rest) key vs'' (Reads-key key s)
        (Reads-bind (set key vs) (struct_entries set n) bs rest vs' vs'' p
          (Reads-struct_entries n vs' vs'' rest q))

  pub Reads-top_entries :
      (n : ℕ) (vs vs' : GoValues) (bs : Bytes)
      → Steps c k set n vs bs vs'
      → Reads c k (top_entries set n vs) bs vs'
  unfolding top_entries
  Reads-top_entries _ _ _ _ (no_step vs) = Reads-pure vs
  Reads-top_entries _ _ _ _ (step n key vs vs' vs'' bs rest s p q) =
      Reads-try_after decode_string_key_with_format (λ key. set key vs) _ (top_entries set n)
        (string_bytes key) (bs ++ rest) key vs'' (Reads-key_with_format key s)
        (Reads-bind (set key vs) (top_entries set n) bs rest vs' vs'' p
          (Reads-top_entries n vs' vs'' rest q))
