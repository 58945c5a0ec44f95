-- ===== src/Reflect/Shows/Tags.antt =====
-- parseTag: the name and the options that it gives are those of the tag.
use msgpck.Base.{
  ℕ, zero, suc, ◌≡◌, ◌≢◌, refl, sym, ap, ◌∙◌, Bool, true, false, inl, inr, Bool-cases, arith, ◌==◌,
  ◌||◌, List, [], ◌∷◌, ◌++◌, Bytes, length, take, drop, take-append,
}
use mathlib.Core.Path.{subst}
use msgpck.Value.{bytes_equal}
use msgpck.Value.Lookup.{bytes_equal→eq, bytes_equal_refl, bytes_equal_iff}
use msgpck.Struct.Tags.{cut, omitempty_option}
use msgpck.Reflect.Types.{Label}
use msgpck.Reflect.Info.{string_contains, options_of, parse_tag, field_info}
use msgpck.Reflect.Shows.{Tagged, only_name, with_options, Named, by_tag, by_field, HasOmitempty}

-- One more byte of the name.
longer :
    (c : ℕ) {tag name opts : Bytes}
    → c ≢ b','
    → Tagged tag name opts
    → Tagged (c ∷ tag) (c ∷ name) opts
longer c ne (only_name tag h) = only_name (c ∷ tag) (ne, h)
longer c ne (with_options tag name opts e h) =
    with_options (c ∷ tag) (c ∷ name) opts (ap (λ (t : Bytes). c ∷ t) e) (ne, h)

pub cut-Tagged : (tag : Bytes) → Tagged tag (cut tag).0 (options_of (cut tag).1)
unfolding cut
cut-Tagged [] = only_name [] tt
cut-Tagged (c ∷ s) = elim (Bool-cases (c == b',')) [
  | inl e ↦ rw e (with_options (c ∷ s) [] s (ap (λ (k : ℕ). k ∷ s) (ground arith)) tt)
  | inr e ↦ rw e (longer c (λ (h : c ≡ b','). ground arith) (cut-Tagged s))
]

pub field_info-Named :
    (l : Label) (index : List ℕ) → Named l (field_info l index).name (parse_tag l.tag).1
unfolding field_info parse_tag
field_info-Named l index = elim (Bool-cases (bytes_equal (cut l.tag).0 [])) [
  | inl e ↦ rw e (
      by_field _ (
        subst (λ (n : Bytes). Tagged l.tag n (options_of (cut l.tag).1)) (bytes_equal→eq _ [] e)
          (cut-Tagged l.tag)))
  | inr e ↦
      rw e (
        by_tag _ _ (cut-Tagged l.tag)
          (λ h. absurd (cc (e, (bytes_equal_iff (cut l.tag).0 []).1 h))))
]

take-drop : (n : ℕ) (s : Bytes) → take n s ++ drop n s ≡ s
take-drop zero s = refl
take-drop (suc n) [] = refl
take-drop (suc n) (c ∷ s) = ap (λ (t : Bytes). c ∷ t) (take-drop n s)

-- The pattern stands somewhere in the text.
abbrev Holds : Bytes → Bytes → Type 0
Holds s p = (a : Bytes) × (b : Bytes) × (s ≡ a ++ (p ++ b))

string_contains-Holds : (s p : Bytes) → string_contains s p ≡ true → Holds s p
unfolding string_contains
string_contains-Holds [] p h = ([], [], sym (rw (bytes_equal→eq p [] h) refl))
string_contains-Holds (c ∷ s) p h = elim (Bool-cases (bytes_equal (take (length p) (c ∷ s)) p)) [
  | inl e ↦ (
    [],
    drop (length p) (c ∷ s),
    sym (take-drop (length p) (c ∷ s))
        ∙ ap (λ (t : Bytes). t ++ drop (length p) (c ∷ s)) (bytes_equal→eq _ p e),
  )
  | inr e ↦
      let (a, b, same) = string_contains-Holds s p (ground arith) in
      (c ∷ a, b, ap (λ (t : Bytes). c ∷ t) same)
]

starts : (p b : Bytes) → string_contains (p ++ b) p ≡ true
unfolding string_contains
starts [] [] = bytes_equal_refl []
starts [] (c ∷ b) = rw (bytes_equal_refl []) refl
starts (c ∷ p) b = rw (take-append (c ∷ p) b (length (c ∷ p)) refl, bytes_equal_refl (c ∷ p)) refl

Holds-string_contains : (p a b : Bytes) → string_contains (a ++ (p ++ b)) p ≡ true
unfolding string_contains
Holds-string_contains p [] b = starts p b
Holds-string_contains p (c ∷ a) b = rw (Holds-string_contains p a b) (any _)
  where
    any : (t : Bool) → t || true ≡ true
    any true = refl
    any false = refl

pub omitempty-HasOmitempty :
    (l : Label) (index : List ℕ)
    → (field_info l index).omitempty ≡ true
    → HasOmitempty (parse_tag l.tag).1
unfolding field_info
omitempty-HasOmitempty l index h = string_contains-Holds _ omitempty_option h

pub HasOmitempty-omitempty :
    (l : Label) (index : List ℕ)
    → HasOmitempty (parse_tag l.tag).1
    → (field_info l index).omitempty ≡ true
unfolding field_info
HasOmitempty-omitempty l index (a, b, e) = rw e (Holds-string_contains omitempty_option a b)
