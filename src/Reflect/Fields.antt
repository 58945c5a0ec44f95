-- ===== src/Reflect/Fields.antt =====
-- The fields of a struct, one after the other, as the loops over its keys fill a new struct.
use msgpck.Base.{
  ℕ, zero, suc, ◌≡◌, refl, ap, Bool, true, false, not, ◌&&◌, ◌||◌, List, [], ◌∷◌, ◌++◌, Bytes,
  if◌then◌else◌,
}
use mathlib.Core.Path.{subst}
use msgpck.Config.{Config}
use msgpck.Decoder.Reads.{Reads}
use msgpck.Decoder.Scalars.{Reads-map}
use msgpck.Reflect.Types.{
  Label, GoType, Members, no_members, member, GoValue, GoValues, no_slots, slot, zero_value,
  zero_fields,
}
use msgpck.Reflect.Info.{is_struct, field_info, build_struct_fields, nth_value}
use msgpck.Reflect.Decode.{set_at, into_value}
use msgpck.Reflect.Paths.{is_skipped}
use msgpck.Reflect.Contents.{value_of_go, value_at}

-- Before the field `i`: `now` is `vs` up to there and zero from there on, where `ms'` and `vs'` stand.
pub data Filled : ℕ → Members → GoValues → GoValues → Members → GoValues → Type 0 where
  at_start : (ms : Members) (vs : GoValues) → Filled zero ms vs (zero_fields ms) ms vs
  at_next :
      (i : ℕ) (l : Label) (t : GoType) (ms : Members) (v : GoValue) (vs now : GoValues)
      (ms' : Members) (vs' : GoValues)
      → Filled i ms vs now ms' vs'
      → Filled (suc i) (member l t ms) (slot v vs) (slot v now) ms' vs'

-- At the end all is filled.
pub Filled-end :
    (i : ℕ) (ms : Members) (vs now : GoValues) → Filled i ms vs now no_members no_slots → now ≡ vs
unfolding zero_fields
Filled-end _ _ _ _ (at_start _ _) = refl
Filled-end _ _ _ _ (at_next i l t ms v vs now _ _ f) = ap (slot v) (Filled-end i ms vs now f)

module _ (l : Label) (t : GoType) (ms' : Members) (v : GoValue) (vs' : GoValues) where
  pub nth_value-Filled :
      (i : ℕ) (ms : Members) (vs now : GoValues)
      → Filled i ms vs now (member l t ms') (slot v vs')
      → nth_value i vs ≡ v
  unfolding nth_value
  nth_value-Filled _ _ _ _ (at_start _ _) = refl
  nth_value-Filled _ _ _ _ (at_next i _ _ ms _ vs now _ _ f) = nth_value-Filled i ms vs now f

  pub value_at-Filled :
      (i : ℕ) (ms : Members) (vs now : GoValues)
      → Filled i ms vs now (member l t ms') (slot v vs')
      → value_at ms (i ∷ []) vs ≡ value_of_go t v
  unfolding value_at
  value_at-Filled _ _ _ _ (at_start _ _) = refl
  value_at-Filled _ _ _ _ (at_next i _ _ ms _ vs now _ _ f) = value_at-Filled i ms vs now f

-- A field that stays zero.
pub Filled-zero :
    (l : Label) (t : GoType) (ms' : Members) (v : GoValue) (vs' : GoValues)
    → v ≡ zero_value t
    → (i : ℕ) (ms : Members) (vs now : GoValues) → Filled i ms vs now (member l t ms') (slot v vs')
    → Filled (suc i) ms vs now ms' vs'
unfolding zero_fields
Filled-zero l t ms' v vs' e _ _ _ _ (at_start _ _) =
    subst (λ z. Filled 1 (member l t ms') (slot v vs') (slot z (zero_fields ms')) ms' vs') e
      (at_next zero l t ms' v vs' _ ms' vs' (at_start _ _))
Filled-zero l t ms' v vs' e _ _ _ _ (at_next i l' t' ms w vs now _ _ f) =
    at_next (suc i) l' t' ms w vs now ms' vs' (Filled-zero l t ms' v vs' e i ms vs now f)

-- A field that is set.
pub Filled-set :
    {c : Config} {k : ℕ} (l : Label) (t : GoType) (ms' : Members) (v : GoValue) (vs' : GoValues)
    (bs : Bytes)
    → Reads c k (into_value t (zero_value t)) bs v
    → (i : ℕ) (ms : Members) (vs now : GoValues) → Filled i ms vs now (member l t ms') (slot v vs')
    → (next : GoValues) × Reads c k (set_at ms (i ∷ []) now) bs next
      × Filled (suc i) ms vs next ms' vs'
unfolding zero_fields set_at into_value
Filled-set l t ms' v vs' bs r _ _ _ _ (at_start _ _) = (
  slot v (zero_fields ms'),
  Reads-map _ (λ y. slot y (zero_fields ms')) bs v r,
  at_next zero l t ms' v vs' _ ms' vs' (at_start _ _),
)
Filled-set l t ms' v vs' bs r _ _ _ _ (at_next i l' t' ms w vs now _ _ f) =
    let (next, s, g) = Filled-set l t ms' v vs' bs r i ms vs now f in
    (slot w next, Reads-map _ (slot w) bs next s, at_next (suc i) l' t' ms w vs next ms' vs' g)

skips :
    {A : Type 0} (x o g : Bool) (inside rest : List A) (f : A)
    → not x || (not o && g) ≡ true
    → (if not x then rest else if o then inside ++ rest else if g then rest else f ∷ rest) ≡ rest
skips true true g inside rest f e = cc
skips true false true inside rest f e = refl
skips true false false inside rest f e = cc
skips false o g inside rest f e = refl

enters :
    {A : Type 0} (x o g : Bool) (inside rest : List A) (f : A)
    → not x || (not o && g) ≡ false
    → o ≡ false
    → (if not x then rest else if o then inside ++ rest else if g then rest else f ∷ rest)
      ≡ f ∷ rest
enters true true g inside rest f e e' = cc
enters true false true inside rest f e e' = cc
enters true false false inside rest f e e' = refl
enters false o g inside rest f e e' = cc

module _ (l : Label) (t : GoType) (ms : Members) (i : ℕ) where
  pub build_struct_fields-skipped :
      is_skipped l t ≡ true
      → build_struct_fields (member l t ms) [] i ≡ build_struct_fields ms [] (suc i)
  unfolding build_struct_fields
  build_struct_fields-skipped e = skips l.exported (l.embedded && is_struct t) _ _ _ _ e

  pub build_struct_fields-plain :
      is_skipped l t ≡ false
      → l.embedded && is_struct t ≡ false
      → build_struct_fields (member l t ms) [] i
        ≡ field_info l (i ∷ []) ∷ build_struct_fields ms [] (suc i)
  unfolding build_struct_fields
  build_struct_fields-plain e e' = enters l.exported (l.embedded && is_struct t) _ _ _ _ e e'
