-- ===== src/Reflect/Paths.antt =====
-- The indices that buildStructFields gives lead to fields, so that FieldByIndex finds them.
use msgpck.Base.{
  ℕ, zero, suc, ◌+◌, ◌≡◌, refl, sym, ap, ◌∙◌, arith, List, [], ◌∷◌, ◌++◌, All, Bool, not, ◌&&◌,
  ◌||◌, ◌⊎◌, inl, inr, true, false, append_assoc, if◌then◌else◌,
}
use mathlib.Core.Path.{subst}
use msgpck.Value.{bytes_equal}
use msgpck.Struct.Tags.{dash}
use msgpck.Reflect.Types.{Label, GoType, Members, t_struct, no_members, member}
use msgpck.Reflect.Info.{
  FieldInfo, is_struct, field_info, build_struct_fields, embedded_fields, build_struct_info,
}

-- A field that no name leads to: it is not exported, or it is left out by its tag.
abbrev pub is_skipped : Label → GoType → Bool
is_skipped l t = not l.exported || (not (l.embedded && is_struct t) && bytes_equal l.tag dash)

-- `Leads ms p`: from a struct with the members, `p` leads to a field that has a name, through structs.
pub data Leads : Members → List ℕ → Type 0 where
  here :
      {l : Label} {t : GoType} {ms : Members}
      → is_skipped l t ≡ false
      → Leads (member l t ms) (zero ∷ [])
  later :
      {l : Label} {t : GoType} {ms : Members} {i : ℕ} {p : List ℕ}
      → Leads ms (i ∷ p)
      → Leads (member l t ms) (suc i ∷ p)
  inside :
      {l : Label} {ms' ms : Members} {j : ℕ} {p : List ℕ}
      → is_skipped l (t_struct ms') ≡ false
      → Leads ms' (j ∷ p)
      → Leads (member l (t_struct ms') ms) (zero ∷ j ∷ p)

abbrev pub LeadsTo : Members → FieldInfo → Type 0
LeadsTo ms f = Leads ms f.index

module _ {A : Type 0} (P : A → Type 0) where
  All-append : (xs ys : List A) → All P xs → All P ys → All P (xs ++ ys)
  All-append [] ys h h' = h'
  All-append (x ∷ xs) ys (p, h) h' = (p, All-append xs ys h h')

  All-if :
      (t : Bool) (xs ys : List A)
      → (t ≡ true → All P xs)
      → (t ≡ false → All P ys)
      → All P (if t then xs else ys)
  All-if true xs ys h h' = h refl
  All-if false xs ys h h' = h' refl

-- From the members `ms`, which stand in `root` behind `index` from the field `i` on.
abbrev Stands : Members → Members → List ℕ → ℕ → Type 0
Stands root ms index i =
    (j : ℕ) (q : List ℕ) → Leads ms (j ∷ q) → Leads root (index ++ ((i + j) ∷ q))

shown :
    (exported opened left_out : Bool)
    → not exported ≡ false
    → (opened ≡ true) ⊎ (left_out ≡ false)
    → not exported || (not opened && left_out) ≡ false
shown true true left_out h h' = refl
shown true false false h h' = refl
shown true false true h (inl e) = cc
shown true false true h (inr e) = cc
shown false opened left_out h h' = cc

module _ (root : Members) where
  Stands-rest :
      {l : Label} {t : GoType} (ms : Members) (index : List ℕ) (i : ℕ)
      → Stands root (member l t ms) index i
      → Stands root ms index (suc i)
  Stands-rest ms index i h j q p =
      subst (λ (s : ℕ). Leads root (index ++ (s ∷ q))) (omega arith) (h (suc j) q (later p))

  Stands-inside :
      {l : Label} (ms' ms : Members) (index : List ℕ) (i : ℕ)
      → is_skipped l (t_struct ms') ≡ false
      → Stands root (member l (t_struct ms') ms) index i
      → Stands root ms' (index ++ (i ∷ [])) 0
  Stands-inside ms' ms index i s h j q p =
      subst (Leads root)
        (ap (λ (s : ℕ). index ++ (s ∷ j ∷ q)) (omega arith)
          ∙ sym (append_assoc index (i ∷ []) (j ∷ q))
          ∙ ap (λ (s : ℕ). (index ++ (i ∷ [])) ++ (s ∷ q)) (omega arith))
        (h 0 (j ∷ q) (inside s p))

  Stands-here :
      {l : Label} {t : GoType} {ms : Members} (index : List ℕ) (i : ℕ)
      → is_skipped l t ≡ false
      → Stands root (member l t ms) index i
      → Leads root (index ++ (i ∷ []))
  Stands-here index i s h =
      subst (λ (s : ℕ). Leads root (index ++ (s ∷ []))) (omega arith) (h 0 [] (here s))

  mutual
    unfolding build_struct_fields embedded_fields field_info

    build_struct_fields-LeadsTo :
        (ms : Members) (index : List ℕ) (i : ℕ)
        → Stands root ms index i
        → All (LeadsTo root) (build_struct_fields ms index i)
    build_struct_fields-LeadsTo no_members index i h = tt
    build_struct_fields-LeadsTo (member l t ms) index i h =
        let rest = build_struct_fields-LeadsTo ms index (suc i) (Stands-rest ms index i h) in
        let P = LeadsTo root in
        All-if P (not l.exported) _ _ (λ _. rest)
          λ out.
            All-if P (l.embedded && is_struct t) _ _
              (λ opened.
                All-append P _ _
                  (embedded_fields-LeadsTo t ms index i (shown _ _ _ out (inl opened)) h) rest)
              λ opened.
                All-if P (bytes_equal l.tag dash) _ (field_info l (index ++ (i ∷ [])) ∷ _)
                  (λ _. rest) λ named. (Stands-here index i (shown _ _ _ out (inr named)) h, rest)

    embedded_fields-LeadsTo :
        {l : Label} (t : GoType) (ms : Members) (index : List ℕ) (i : ℕ)
        → is_skipped l t ≡ false
        → Stands root (member l t ms) index i
        → All (LeadsTo root) (embedded_fields t (index ++ (i ∷ [])))
    embedded_fields-LeadsTo (t_struct ms') ms index i s h =
        build_struct_fields-LeadsTo ms' (index ++ (i ∷ [])) 0 (Stands-inside ms' ms index i s h)
    embedded_fields-LeadsTo _ ms index i s h = tt

pub build_struct_info-LeadsTo : (ms : Members) → All (LeadsTo ms) (build_struct_info ms)
unfolding build_struct_info
build_struct_info-LeadsTo ms =
    build_struct_fields-LeadsTo ms ms [] 0
      (λ j q p. subst (λ (s : ℕ). Leads ms (s ∷ q)) (omega arith) p)
