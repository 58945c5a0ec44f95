-- ===== src/Reflect/Shows/Fields.antt =====
-- The fields that encodeStruct keeps, from the field list of buildStructFields, are those of the
-- declaration.
use msgpck.Base.{
  ℕ, ◌≡◌, ◌≢◌, refl, sym, ap, ◌∙◌, Bool, true, false, not, ◌&&◌, inl, inr, Bool-cases, arith, List,
  [], ◌∷◌, ◌++◌, if◌then◌else◌,
}
use msgpck.Value.{Kvs, kv, bytes_equal}
use msgpck.Value.Lookup.{bytes_equal_iff}
use msgpck.Struct.Tags.{dash}
use msgpck.Reflect.Types.{
  Label, GoType, Members, t_struct, t_time, member, GoValue, GoValues, g_struct, slot,
}
use msgpck.Reflect.Info.{FieldInfo, is_struct, field_info, field_by_index}
use msgpck.Reflect.Encode.{is_empty_value, is_left_out, kept_fields}
use msgpck.Reflect.Contents.{fields_value, value_at}
use msgpck.Reflect.Shows.{IsNamed, append_kvs, Shows, ShowsFields, field_omitted, field_kept}
use msgpck.Reflect.Shows.Tags.{field_info-Named, omitempty-HasOmitempty, HasOmitempty-omitempty}
use msgpck.Reflect.Shows.Empty.{is_empty_value-IsEmpty, IsEmpty-is_empty_value}

-- The pairs of the fields that are kept of a list of fields, in a struct with the members and values.
abbrev pub pairs_kept : Members → GoValues → List FieldInfo → Kvs
pairs_kept root rvs fs = fields_value (λ p. value_at root p rvs) (kept_fields fs rvs)

pub pairs_kept-append :
    (root : Members) (rvs : GoValues) (fs gs : List FieldInfo)
    → pairs_kept root rvs (fs ++ gs) ≡ append_kvs (pairs_kept root rvs fs) (pairs_kept root rvs gs)
unfolding kept_fields fields_value
pairs_kept-append root rvs [] gs = refl
pairs_kept-append root rvs (f ∷ fs) gs = elim (Bool-cases (is_left_out f rvs)) [
  | inl e ↦ rw e (pairs_kept-append root rvs fs gs)
  | inr e ↦ rw e (ap (kv f.name (value_at root f.index rvs)) (pairs_kept-append root rvs fs gs))
]

is_struct-opened :
    (t : GoType) → is_struct t ≡ false → (t ≢ t_time) × ((ms : Members) → t ≢ t_struct ms)
is_struct-opened t h = (
  (λ (e : t ≡ t_time). absurd (cc (ap is_struct e, h))),
  λ ms (e : t ≡ t_struct ms). absurd (cc (ap is_struct e, h)),
)

-- Where the code does not open the field.
pub not_opened :
    (l : Label) (t : GoType)
    → l.embedded && is_struct t ≡ false
    → l.embedded ≡ true
    → (t ≢ t_time) × ((ms : Members) → t ≢ t_struct ms)
not_opened l t h e = is_struct-opened t (ground arith)

pub exported : (l : Label) → not l.exported ≡ false → l.exported ≡ true
exported l e = ground arith

pub named :
    (l : Label) (t : GoType)
    → l.exported ≡ true
    → l.embedded && is_struct t ≡ false
    → bytes_equal l.tag dash ≡ false
    → IsNamed l t
named l t e o d = record {
  is_exported = e;
  not_opened = not_opened l t o;
  not_dashed = λ q. absurd (cc (d, (bytes_equal_iff l.tag dash).1 q));
}

pub if_cases :
    (P : List FieldInfo → Type 0) (t : Bool) (xs ys : List FieldInfo)
    → (t ≡ true → P xs)
    → (t ≡ false → P ys)
    → P (if t then xs else ys)
if_cases P true xs ys h h' = h refl
if_cases P false xs ys h h' = h' refl

both_true : (a c : Bool) → a && c ≡ true → (a ≡ true) × (c ≡ true)
both_true true c h = (refl, h)
both_true false c h = absurd (cc h)

module _ (root : Members) (rvs : GoValues) where
  left_out_as :
      (l : Label) (v : GoValue) (p : List ℕ)
      → field_by_index p (g_struct rvs) ≡ v
      → is_left_out (field_info l p) rvs ≡ ((field_info l p).omitempty && is_empty_value v)
  unfolding field_info
  left_out_as l v p at = ap (λ u. (field_info l p).omitempty && is_empty_value u) at

  shown_at :
      (l : Label) (t : GoType) (v : GoValue) (p : List ℕ)
      → Shows t v (value_at root p rvs)
      → Shows t v (value_at root (field_info l p).index rvs)
  unfolding field_info
  shown_at l t v p shown = shown

  -- One field that stands under a name, at the index `p`, before the others.
  pub named_field :
      (l : Label) (t : GoType) (ms : Members) (v : GoValue) (vs : GoValues) (p : List ℕ)
      (rest : List FieldInfo)
      → IsNamed l t
      → field_by_index p (g_struct rvs) ≡ v
      → Shows t v (value_at root p rvs)
      → ShowsFields ms vs (pairs_kept root rvs rest)
      → ShowsFields (member l t ms) (slot v vs) (pairs_kept root rvs (field_info l p ∷ rest))
  unfolding kept_fields fields_value
  named_field l t ms v vs p rest named at shown h =
      let name = field_info-Named l p in
      elim (Bool-cases (is_left_out (field_info l p) rvs)) [
        | inl e ↦
            let (option, empty) = both_true _ _ (sym (left_out_as l v p at) ∙ e) in
            rw e (
              field_omitted l t ms v vs _ _ _ name (omitempty-HasOmitempty l p option)
                (is_empty_value-IsEmpty v empty) named h)
        | inr e ↦ rw e (
            field_kept l t ms v vs _ _ _ _ name
              (λ o em.
                kept (HasOmitempty-omitempty l p o) (IsEmpty-is_empty_value v em)
                  (sym (left_out_as l v p at) ∙ e))
              named (shown_at l t v p shown) h)
      ]
    where
      kept : {a c : Bool} → a ≡ true → c ≡ true → a && c ≡ false → ⊥
      kept {a} {c} x y z = ground arith
