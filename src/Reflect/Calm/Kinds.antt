-- ===== src/Reflect/Calm/Kinds.antt =====
-- decodeIntoValue and DecodeStruct are safe on every input: FieldByIndex always finds its field.
use msgpck.Base.{ℕ, ◌+◌, List}
use msgpck.Config.{Config}
use msgpck.Decoder.{M}
use msgpck.Decoder.Contract.{IsByte}
use msgpck.Decoder.Contract.Calm.{Calm, Calm-pure, Calm-fail, Calm-bind, parts}
use msgpck.Decoder.Contract.Try.{Calm-container}
use msgpck.Reflect.Types.{
  GoType, Members, t_scalar, t_bytes, t_slice, t_array, t_map, t_struct, t_pointer, t_any, t_time,
  t_other, no_members, member, GoValue, GoValues, no_slots, zero_value, elems_of, pairs_of,
  first_value, rest_values,
}
use msgpck.Reflect.Info.{build_struct_info, find_field}
use msgpck.Reflect.Decode.{
  into_array_with, into_map_with, set_key, target, into_kind, set_at, set_inside, decode_fields,
}
use msgpck.Reflect.Paths.{Leads, here, later, inside, build_struct_info-LeadsTo}
use msgpck.Reflect.Calm.{
  Calm-array_elems, Calm-into_key, Calm-into_scalar, Calm-map_entries, Calm-or_zero, Calm-rest,
  Calm-set_first, Calm-set_key, Calm-set_rest, Calm-skip, Calm-slice_elems, Calm-struct_entries,
  Calm-top_entries, Calm-value_bytes,
}

module _ {c : Config} {n : ℕ} where
  Calm-array_with :
      (k : ℕ) (body : ℕ → M GoValue)
      → ((l : ℕ) → Calm c (k + 1) n (body l))
      → (f : ℕ) → Calm c k n (into_array_with body f)
  unfolding into_array_with
  Calm-array_with k body h f = search (parts, Calm-container)

  Calm-map_with :
      (k : ℕ) (body : ℕ → M GoValue)
      → ((l : ℕ) → Calm c (k + 1) n (body l))
      → (f : ℕ) → Calm c k n (into_map_with body f)
  unfolding into_map_with
  Calm-map_with k body h f = search (parts, Calm-container)

  mutual
    unfolding into_kind set_at set_inside

    pub Calm-into_kind :
        (t : GoType) (k : ℕ) (v : GoValue) (f : ℕ) → IsByte f → Calm c k n (into_kind t v f)
    Calm-into_kind (t_scalar kind) k v f b =
        Calm-bind _ _ (Calm-into_scalar kind f) λ s. Calm-pure _
    Calm-into_kind t_bytes k v f b = Calm-bind _ _ (Calm-value_bytes f) λ s. Calm-pure _
    Calm-into_kind (t_slice t) k v f b =
        Calm-array_with k _
          (λ l.
            Calm-bind _ _
              (Calm-slice_elems _ (Calm-or_zero _ _ (Calm-into_kind t (k + 1) (zero_value t))) l)
              λ vs. Calm-pure _)
          f
    Calm-into_kind (t_array m t) k v f b =
        Calm-array_with k _
          (λ l.
            Calm-bind _ _
              (Calm-array_elems _ (λ x. Calm-or_zero _ _ (Calm-into_kind t (k + 1) x)) l
                (elems_of v))
              λ vs. Calm-pure _)
          f
    Calm-into_kind (t_map kind t) k v f b =
        Calm-map_with k _
          (λ l.
            Calm-bind _ _
              (Calm-map_entries _ _ (Calm-into_key kind)
                (Calm-or_zero _ _ (Calm-into_kind t (k + 1) (zero_value t))) l (pairs_of v))
              λ m. Calm-pure _)
          f
    Calm-into_kind (t_struct ms) k v f b =
        Calm-map_with k _
          (λ l.
            Calm-bind _ _
              (Calm-struct_entries _
                (λ key.
                  Calm-set_key ms (Calm-set_at ms (k + 1)) key _ (build_struct_info-LeadsTo ms))
                l (elems_of v))
              λ vs. Calm-pure _)
          f
    Calm-into_kind t_time k v f b =
        Calm-map_with k _
          (λ l.
            Calm-bind _ _ (Calm-struct_entries _ (λ key. Calm-skip) l no_slots) λ vs. Calm-pure _)
          f
    Calm-into_kind (t_pointer t) k v f b =
        Calm-bind _ _ (Calm-or_zero _ _ (Calm-into_kind t k (target t v))) λ x. Calm-pure _
    Calm-into_kind t_any k v f b = Calm-bind _ _ (Calm-rest f b) λ x. Calm-pure _
    Calm-into_kind t_other k v f b = Calm-fail _

    Calm-set_at :
        (ms : Members) (k : ℕ) (p : List ℕ)
        → Leads ms p
        → (vs : GoValues) → Calm c k n (set_at ms p vs)
    Calm-set_at no_members k p q vs = elim q [ ]
    Calm-set_at (member l t ms) k _ (here _) vs =
        Calm-set_first vs _ (Calm-or_zero _ _ (Calm-into_kind t k (first_value vs)))
    Calm-set_at (member l t ms) k _ (later p) vs =
        Calm-set_rest vs _ (Calm-set_at ms k _ p (rest_values vs))
    Calm-set_at (member l (t_struct ms') ms) k _ (inside _ p) vs =
        Calm-set_first vs _
          (Calm-bind _ _ (Calm-set_at ms' k _ p (elems_of (first_value vs))) λ ys. Calm-pure _)

  pub Calm-decode_fields : (ms : Members) (k : ℕ) (vs : GoValues) → Calm c k n (decode_fields ms vs)
  unfolding decode_fields
  Calm-decode_fields ms k vs =
      search
        (
          parts,
          Calm-container,
          Calm-top_entries (λ key. set_key (set_at ms) (find_field key (build_struct_info ms)))
              (λ key.
                Calm-set_key ms (Calm-set_at ms (k + 1)) key _ (build_struct_info-LeadsTo ms)),
        )
        depth 12
