-- ===== src/Reflect/Shows/Whole.antt =====
-- The Value that encodeValue writes is the one that the Go value is as a message.
use msgpck.Base.{
  ℕ, suc, ◌+◌, ◌≡◌, refl, sym, ap, ◌∙◌, true, false, not, ◌&&◌, ◌⊎◌, inl, inr, Bool-cases, arith,
  List, [], ◌∷◌, ◌++◌, append_assoc,
}
use mathlib.Core.Path.{subst}
use msgpck.Value.{Value, bytes_equal}
use msgpck.Value.Lookup.{bytes_equal_iff}
use msgpck.Struct.Kinds.{v_string, v_int, v_uint, v_float64, v_float32, v_bool}
use msgpck.Struct.Tags.{dash}
use msgpck.Reflect.Types.{
  Label, GoType, Members, t_scalar, t_bytes, t_slice, t_array, t_map, t_struct, t_pointer, t_any,
  t_time, no_members, member, GoValue, GoValues, GoPairs, g_scalar, g_nil, g_bytes, g_slice,
  g_array, g_map, g_struct, g_pointer, g_any, g_time, no_slots, slot, no_pairs, pair,
}
use msgpck.Reflect.Info.{
  FieldInfo, is_struct, field_info, build_struct_fields, embedded_fields, build_struct_info,
  nth_value, field_by_index,
}
use msgpck.Reflect.Encode.{kept_fields}
use msgpck.Reflect.Paths.{is_skipped}
use msgpck.Reflect.Contents.{
  AllValues, AllPairs, IsWritable, AreWritable, elems_value, pairs_value, fields_value, value_of_go,
  value_at, value_inside,
}
use msgpck.Reflect.Shows.{
  Shows, ShowsAll, ShowsPairs, ShowsFields, shows_scalar, shows_nil, shows_bytes, shows_slice,
  shows_array, shows_map, shows_struct, shows_pointer, shows_any, shows_time, all_shown, one_shown,
  all_pairs_shown, pair_shown, fields_end, field_unexported, field_dashed, field_embedded,
  field_embedded_time,
}
use msgpck.Reflect.Shows.Fields.{
  pairs_kept, pairs_kept-append, named_field, not_opened, exported, named, if_cases,
}

elems_value-ShowsAll :
    (t : GoType) (g : GoValue → Value) (vs : GoValues)
    → ((v : GoValue) → IsWritable t v → Shows t v (g v))
    → AllValues (IsWritable t) vs
    → ShowsAll t vs (elems_value g vs)
unfolding elems_value
elems_value-ShowsAll t g no_slots w h = all_shown t
elems_value-ShowsAll t g (slot v vs) w (h, h') =
    one_shown t v vs _ _ (w v h) (elems_value-ShowsAll t g vs w h')

pairs_value-ShowsPairs :
    (t : GoType) (g : GoValue → Value) (m : GoPairs)
    → ((v : GoValue) → IsWritable t v → Shows t v (g v))
    → AllPairs (IsWritable t) m
    → ShowsPairs t m (pairs_value g m)
unfolding pairs_value
pairs_value-ShowsPairs t g no_pairs w h = all_pairs_shown t
pairs_value-ShowsPairs t g (pair (v_string s) v m) w (h, h') =
    pair_shown t s v m _ _ (w v h) (pairs_value-ShowsPairs t g m w h')
pairs_value-ShowsPairs t g (pair (v_int _) v m) w h = absurd h
pairs_value-ShowsPairs t g (pair (v_uint _) v m) w h = absurd h
pairs_value-ShowsPairs t g (pair (v_float64 _) v m) w h = absurd h
pairs_value-ShowsPairs t g (pair (v_float32 _) v m) w h = absurd h
pairs_value-ShowsPairs t g (pair (v_bool _) v m) w h = absurd h

-- The values of the members `ms` are found in `root` behind `index`, from the field `i` on.
abbrev Sees : Members → GoValues → Members → GoValues → List ℕ → ℕ → Type 0
Sees root rvs ms vs index i =
    (j : ℕ) (q : List ℕ)
    → (value_at root (index ++ ((i + j) ∷ q)) rvs ≡ value_at ms (j ∷ q) vs)
      × (field_by_index (index ++ ((i + j) ∷ q)) (g_struct rvs)
          ≡ field_by_index (j ∷ q) (g_struct vs))

module _ (root : Members) (rvs : GoValues) where
  -- What is found at an index.
  abbrev Found : Value → GoValue → List ℕ → Type 0
  Found x v p = (value_at root p rvs ≡ x) × (field_by_index p (g_struct rvs) ≡ v)

  Sees-rest :
      (l : Label) (t : GoType) (ms : Members) (v : GoValue) (vs : GoValues) (index : List ℕ) (i : ℕ)
      → Sees root rvs (member l t ms) (slot v vs) index i
      → Sees root rvs ms vs index (suc i)
  unfolding value_at field_by_index nth_value
  Sees-rest l t ms v vs index i h j q =
      subst
        (λ (s : ℕ).
          Found (value_at ms (j ∷ q) vs) (field_by_index (j ∷ q) (g_struct vs)) (index ++ (s ∷ q)))
        (omega arith) (h (suc j) q)

  Sees-inside :
      (l : Label) (ms' ms : Members) (us vs : GoValues) (index : List ℕ) (i : ℕ)
      → Sees root rvs (member l (t_struct ms') ms) (slot (g_struct us) vs) index i
      → Sees root rvs ms' us (index ++ (i ∷ [])) 0
  unfolding value_at value_inside field_by_index nth_value
  Sees-inside l ms' ms us vs index i h j q =
      subst (Found (value_at ms' (j ∷ q) us) (field_by_index (j ∷ q) (g_struct us)))
        (ap (λ (s : ℕ). index ++ (s ∷ j ∷ q)) (omega arith)
          ∙ sym (append_assoc index (i ∷ []) (j ∷ q))
          ∙ ap (λ (s : ℕ). (index ++ (i ∷ [])) ++ (s ∷ q)) (omega arith))
        (h 0 (j ∷ q))

  Sees-here :
      (l : Label) (t : GoType) (ms : Members) (v : GoValue) (vs : GoValues) (index : List ℕ) (i : ℕ)
      → Sees root rvs (member l t ms) (slot v vs) index i
      → Found (value_of_go t v) v (index ++ (i ∷ []))
  unfolding value_at field_by_index nth_value
  Sees-here l t ms v vs index i h =
      subst (λ (s : ℕ). Found (value_of_go t v) v (index ++ (s ∷ []))) (omega arith) (h 0 [])

Sees-all : (ms : Members) (vs : GoValues) → Sees ms vs ms vs [] 0
Sees-all ms vs j q =
    subst
      (λ (s : ℕ).
        Found ms vs (value_at ms (j ∷ q) vs) (field_by_index (j ∷ q) (g_struct vs)) (s ∷ q))
      (omega arith) (refl, refl)

not_skipped :
    (l : Label) (t : GoType)
    → l.exported ≡ true
    → (l.embedded && is_struct t ≡ true) ⊎ (bytes_equal l.tag dash ≡ false)
    → is_skipped l t ≡ false
not_skipped l t e (inl h) = rw (e, h) refl
not_skipped l t e (inr h) = elim (Bool-cases (l.embedded && is_struct t)) [
  | inl k ↦ rw (e, k) refl
  | inr k ↦ rw (e, k, h) refl
]

mutual
  unfolding value_of_go IsWritable AreWritable build_struct_fields embedded_fields build_struct_info
      kept_fields fields_value

  pub value_of_go-Shows : (t : GoType) (v : GoValue) → IsWritable t v → Shows t v (value_of_go t v)
  value_of_go-Shows (t_scalar k) (g_scalar s) h = shows_scalar k s
  value_of_go-Shows t_bytes (g_bytes b) h = shows_bytes b
  value_of_go-Shows t_bytes g_nil h = shows_nil t_bytes
  value_of_go-Shows (t_slice t) (g_slice vs) h =
      shows_slice t vs _ (elems_value-ShowsAll t _ vs (λ v h'. value_of_go-Shows t v h') h)
  value_of_go-Shows (t_slice t) g_nil h = shows_nil (t_slice t)
  value_of_go-Shows (t_array n t) (g_array vs) h =
      shows_array n t vs _ (elems_value-ShowsAll t _ vs (λ v h'. value_of_go-Shows t v h') h)
  value_of_go-Shows (t_map k t) (g_map m) h =
      shows_map k t m _ (pairs_value-ShowsPairs t _ m (λ v h'. value_of_go-Shows t v h') h)
  value_of_go-Shows (t_map k t) g_nil h = shows_nil (t_map k t)
  value_of_go-Shows (t_struct ms) (g_struct vs) h =
      shows_struct ms vs _ (members-ShowsFields ms vs ms vs [] 0 h (Sees-all ms vs))
  value_of_go-Shows (t_pointer t) (g_pointer v) h = shows_pointer t v _ (value_of_go-Shows t v h)
  value_of_go-Shows (t_pointer t) g_nil h = shows_nil (t_pointer t)
  value_of_go-Shows t_any (g_any a) h = shows_any a
  value_of_go-Shows t_time (g_time x) h = shows_time x
  value_of_go-Shows _ _ h = absurd h

  members-ShowsFields :
      (root : Members) (rvs : GoValues) (ms : Members) (vs : GoValues) (index : List ℕ) (i : ℕ)
      → AreWritable ms vs
      → Sees root rvs ms vs index i
      → ShowsFields ms vs (pairs_kept root rvs (build_struct_fields ms index i))
  members-ShowsFields root rvs no_members vs index i h s = fields_end vs
  members-ShowsFields root rvs (member l t ms) no_slots index i h s = absurd h
  members-ShowsFields root rvs (member l t ms) (slot v vs) index i (h, h') s =
      let rest =
        members-ShowsFields root rvs ms vs index (suc i) h'
          (Sees-rest root rvs l t ms v vs index i s) in
      let P =
        λ (fs : List FieldInfo). ShowsFields (member l t ms) (slot v vs) (pairs_kept root rvs fs) in
      if_cases P (not l.exported) _ _ (λ e. field_unexported l t ms v vs _ (ground arith) rest)
        λ e.
          if_cases P (l.embedded && is_struct t) _ _
            (λ o.
              opened-ShowsFields root rvs l t ms v vs index i _ (exported l e) o
                (h (not_skipped l t (exported l e) (inl o))) s rest)
            λ o.
              if_cases P (bytes_equal l.tag dash) _ (field_info l (index ++ (i ∷ [])) ∷ _)
                (λ d.
                  field_dashed l t ms v vs _ ((bytes_equal_iff l.tag dash).0 d)
                    (λ em. (not_opened l t o em).1) rest)
                λ d.
                  let (value, found) = Sees-here root rvs l t ms v vs index i s in
                  let shown = value_of_go-Shows t v (h (not_skipped l t (exported l e) (inr d))) in
                  named_field root rvs l t ms v vs (index ++ (i ∷ [])) _
                    (named l t (exported l e) o d) found
                    (subst (λ (x : Value). Shows t v x) (sym value) shown) rest

  -- The fields of an embedded struct, before the others.
  opened-ShowsFields :
      (root : Members) (rvs : GoValues) (l : Label) (t : GoType) (ms : Members) (v : GoValue)
      (vs : GoValues) (index : List ℕ) (i : ℕ) (fs : List FieldInfo)
      → l.exported ≡ true
      → l.embedded && is_struct t ≡ true
      → IsWritable t v
      → Sees root rvs (member l t ms) (slot v vs) index i
      → ShowsFields ms vs (pairs_kept root rvs fs)
      → ShowsFields
          (member l t ms)
          (slot v vs)
          (pairs_kept root rvs (embedded_fields t (index ++ (i ∷ [])) ++ fs))
  opened-ShowsFields root rvs l (t_struct ms') ms (g_struct us) vs index i fs e o h s rest =
      field_embedded l ms' ms us vs _ _ _ e (ground arith)
        (members-ShowsFields root rvs ms' us (index ++ (i ∷ [])) 0 h
          (Sees-inside root rvs l ms' ms us vs index i s))
        rest (pairs_kept-append root rvs _ fs)
  opened-ShowsFields root rvs l t_time ms v vs index i fs e o h s rest =
      field_embedded_time l ms v vs _ (ground arith) rest
  opened-ShowsFields root rvs l (t_struct ms') ms _ vs index i fs e o h s rest = absurd h
  opened-ShowsFields root rvs l _ ms v vs index i fs e o h s rest = absurd (ground arith)
