-- ===== src/Opack/RoundTrip/Container.antt =====
-- An array or a dictionary around its elements: the nesting depth, the tag and the terminator.
use pyatv_rs.Prelude.{
  ℕ, zero, suc, ◌+◌, ◌*◌, ◌-◌, ◌≤◌, ◌<◌, ◌≡◌, refl, sym, ap, ◌∙◌, Bool, true, false, none, List, [],
  ◌∷◌, ◌++◌, Bytes, length, append-nil, arith, leb, ◌==◌, if◌then◌else◌, Bool-cases, Option-cases,
  inl, inr, ◌⊎◌, subst, min, lt→leb_false,
}
use pyatv_rs.Opack.Value.{Value, array, dict, ok, err, Result, ◌>>=◌}
use pyatv_rs.Opack.Objects.{PackTable, UnpackTable, lookup}
use pyatv_rs.Opack.Ser
use pyatv_rs.Opack.Ser.{Encoder, container_tag, finish_container, fresh_encoder}
use pyatv_rs.Opack.De.{
  M, Decoder, bind, position, container, arm_of, array_arm, dict_arm, decode_arm, note_value,
  value_with, value, counted_items, endless_items, counted_fields, endless_fields,
}
use pyatv_rs.Opack.Leaf.{at, tag_lem}
use pyatv_rs.Opack.Reads.{Reads}
use pyatv_rs.Opack.Reads.Leaves.{leaf_Reads}
use pyatv_rs.Opack.Sync.{InSync}
use pyatv_rs.Opack.RoundTrip.{Run}

abbrev pub wrapped : ℕ → ℕ → Bytes × Encoder → Bytes × Encoder
wrapped base count (body, after) = (
  container_tag base count ∷ (body ++ finish_container count),
  record after { depth = after.depth - 1 },
)

elements_ok :
    (base count : ℕ) (r : Result (Bytes × Encoder)) {out : Bytes × Encoder}
    → (r >>= λ (body, after). ok (wrapped base count (body, after))) ≡ ok out
    → (body : Bytes) × (after : Encoder) × (r ≡ ok (body, after))
      × (wrapped base count (body, after) ≡ out)
elements_ok base count (ok (body, after)) h = (body, after, refl, cc)
elements_ok base count (err e) h = cc

-- The parts of a container that was written.
pub container_ok :
    (base count : ℕ) (enc : Encoder) (elements : Encoder → Result (Bytes × Encoder))
    {out : Bytes × Encoder}
    → Ser.container base count enc elements ≡ ok out
    → (body : Bytes) × (after : Encoder) × (enc.depth < 32)
      × (elements (record enc { depth = enc.depth + 1 }) ≡ ok (body, after))
      × (wrapped base count (body, after) ≡ out)
unfolding Ser.container
container_ok base count enc elements {out} h = elim (Bool-cases (leb 32 enc.depth)) [
  | inl deep ↦ absurd (unfold Ser.enter in ground arith)
  | inr shallow ↦
      let (body, after, run, out) =
        elements_ok base count (elements (record enc { depth = enc.depth + 1 })) (opened shallow) in
      (body, after, ground arith, run, out)
]
  where
    opened :
        leb 32 enc.depth ≡ false
        → (elements (record enc { depth = enc.depth + 1 }) >>= λ (body, after).
            ok (wrapped base count (body, after)))
          ≡ ok out
    opened shallow =
        subst
          (λ r.
            (r >>= λ inner.
            elements inner >>= λ (body, after). ok (wrapped base count (body, after)))
            ≡ ok out)
          (entered shallow) h
      where
        entered :
            leb 32 enc.depth ≡ false → Ser.enter enc ≡ ok (record enc { depth = enc.depth + 1 })
        entered shallow = unfold Ser.enter in ground arith

array_tag : (n : ℕ) → arm_of (container_tag 0xD0 n) ≡ array_arm (min n 15)
unfolding arm_of container_tag
array_tag n = ground arith

dict_tag : (n : ℕ) → arm_of (container_tag 0xE0 n) ≡ dict_arm (min n 15)
unfolding arm_of container_tag
dict_tag n = ground arith

module _ (hash : List ℕ → ℕ) (element_cost : ℕ) where
  -- No slot holds an encoding that starts with a container's tag.
  pub no_slot :
      (pt : PackTable) (ut : UnpackTable) (head : ℕ) (tail : Bytes)
      → InSync hash pt ut
      → 0xD0 ≤ head
      → lookup pt (head ∷ tail) ≡ none
  no_slot pt ut head tail sync high = elim (Option-cases (lookup pt (head ∷ tail))) [
    | inr e ↦ e
    | inl (i, e) ↦
        let (v, here, slot) = sync.found (head ∷ tail) i e in
        let r : Reads hash element_cost ut 0 0 (omega arith) (head ∷ tail) _ _ =
          (leaf_Reads hash element_cost ut 0 0 (omega arith) v fresh_encoder fresh_encoder
            (head ∷ tail) slot.fits (slot.writes fresh_encoder)).0 in
        absurd (ground (arith, r.split, r.low))
  ]

module _ (hash : List ℕ → ℕ) (element_cost budget : ℕ) where
  -- `value` on a container's tag.
  pub array_step :
      (f n o s depth : ℕ) (ut : UnpackTable) (tail : Bytes) (v : Value) (d : Decoder)
      → container array
          (counted_items hash element_cost f)
          (endless_items hash element_cost f)
          (min n 15)
          (at ut depth budget tail (o + 1) s)
        ≡ ok (v, d)
      → value hash element_cost (suc f) (at ut depth budget (container_tag 0xD0 n ∷ tail) o s)
        ≡ ok (v, d)
  unfolding value value_with position decode_arm note_value
  array_step f n o s depth ut tail v d h =
      rw (tag_lem ut depth budget (container_tag 0xD0 n) tail o s, array_tag n, h)

  pub dict_step :
      (f n o s depth : ℕ) (ut : UnpackTable) (tail : Bytes) (v : Value) (d : Decoder)
      → container dict
          (counted_fields hash element_cost f)
          (endless_fields hash element_cost f)
          (min n 15)
          (at ut depth budget tail (o + 1) s)
        ≡ ok (v, d)
      → value hash element_cost (suc f) (at ut depth budget (container_tag 0xE0 n ∷ tail) o s)
        ≡ ok (v, d)
  unfolding value value_with position decode_arm note_value
  dict_step f n o s depth ut tail v d h =
      rw (tag_lem ut depth budget (container_tag 0xE0 n) tail o s, dict_tag n, h)

  module _ {A : Type 0} (wrap : A → Value) (counted : ℕ → ℕ → M A) (endless : ℕ → M A) (n : ℕ) where
    abbrev pub chosen : Bool → ℕ → ℕ → M A
    chosen b m f = if b then endless f else counted f m

    container_lem :
        (f depth o s : ℕ) (ut : UnpackTable) (r : Bytes) {a : A} {d : Decoder}
        → depth < 32
        → chosen (min n 15 == 15) (min n 15) f (at ut (depth + 1) budget r o s) ≡ ok (a, d)
        → container wrap (counted f) (endless f) (min n 15) (at ut depth budget r o s)
          ≡ ok (wrap a, record d { depth = d.depth - 1 })
    unfolding container
    container_lem f depth o s ut r shallow h =
        rw (lt→leb_false 32 depth shallow)
          (ap (λ r. bind r (λ elements d. ok (wrap elements, record d { depth = d.depth - 1 }))) h)

    module _ (body : Bytes) (a : A) (enc after : Encoder) (ut : UnpackTable) (c : ℕ)
        (by_count : Run hash budget (λ f. counted f n) 2 body a enc after ut c)
        (by_end : Run hash budget endless 2 (body ++ (3 ∷ [])) a enc after ut c) where
      -- The loop that the decoder chooses is the one that the encoder wrote for.
      pub chosen-Run :
          Run hash budget
            (chosen (min n 15 == 15) (min n 15))
            2
            (body ++ finish_container n)
            a
            enc
            after
            ut
            c
      unfolding finish_container
      chosen-Run = elim (Bool-cases (leb 15 n)) [
        | inl many ↦ pick (min n 15 == 15) (min n 15) _ (inl (ground arith, ground arith))
        | inr few ↦
            pick (min n 15 == 15) (min n 15) _ (inr (ground arith, ground arith, ground arith))
      ]
        where
          pick :
              (b : Bool) (m : ℕ) (fin : Bytes)
              → ((b ≡ true) × (fin ≡ 3 ∷ [])) ⊎ ((b ≡ false) × (m ≡ n) × (fin ≡ []))
              → Run hash budget (chosen b m) 2 (body ++ fin) a enc after ut c
          pick true m fin (inl (p, q)) =
              subst (λ t. Run hash budget endless 2 (body ++ t) a enc after ut c) (sym q) by_end
          pick false m fin (inl (p, q)) = cc
          pick true m fin (inr (p, q, r)) = cc
          pick false m fin (inr (p, q, r)) =
              subst (λ t. Run hash budget (λ f. counted f m) 2 (body ++ t) a enc after ut c) (sym r)
                (rw append-nil (
                  subst (λ k. Run hash budget (λ f. counted f k) 2 body a enc after ut c) (sym q)
                    by_count))

    module _ (base : ℕ) (enc after : Encoder) (ut : UnpackTable) (body : Bytes) (a : A) (c : ℕ)
        (shallow : enc.depth < 32)
        (inner : Run hash budget
          (chosen (min n 15 == 15) (min n 15))
          2
          (body ++ finish_container n)
          a
          (record enc { depth = enc.depth + 1 })
          after
          ut
          c)
        (step : (f o s : ℕ) (tail : Bytes) (v : Value) (d : Decoder)
          → container wrap
              (counted f)
              (endless f)
              (min n 15)
              (at ut enc.depth budget tail (o + 1) s)
            ≡ ok (v, d)
          → value hash element_cost
              (suc f)
              (at ut enc.depth budget (container_tag base n ∷ tail) o s)
            ≡ ok (v, d)) where
      -- A container reads back if its elements do.
      pub container_Run :
          Run hash budget
            (value hash element_cost)
            1
            (wrapped base n (body, after)).0
            (wrap a)
            enc
            (wrapped base n (body, after)).1
            ut
            c
      container_Run = record { table = inner.table; sync = inner.sync; runs = whole }
        where
          whole :
              (f : ℕ) (rest : Bytes) (o s : ℕ)
              → 2 * length (container_tag base n ∷ (body ++ finish_container n)) + 1 ≤ f
              → s + c ≤ budget
              → (s' : ℕ) × (s' ≤ s + c)
                × (value hash element_cost f (
                      at ut enc.depth budget
                        ((container_tag base n ∷ (body ++ finish_container n)) ++ rest)
                        o
                        s)
                    ≡ ok (
                      wrap a,
                      at inner.table
                          (after.depth - 1)
                          budget
                          rest
                          (o + length (container_tag base n ∷ (body ++ finish_container n)))
                          s',
                    ))
          whole zero rest o s enough room = absurd (omega arith)
          whole (suc f) rest o s enough room =
              let (s', h, e) = inner.runs f rest (o + 1) s (omega arith) room in
              (
                s',
                h,
                step f o s ((body ++ finish_container n) ++ rest) _ _ (
                      container_lem f enc.depth (o + 1) s ut ((body ++ finish_container n) ++ rest)
                        shallow e)
                    ∙ ap (λ k. ok (wrap a, at inner.table (after.depth - 1) budget rest k s'))
                        (omega arith),
              )
