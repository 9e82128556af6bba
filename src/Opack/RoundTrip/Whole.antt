-- ===== src/Opack/RoundTrip/Whole.antt =====
-- The round trip of every value, by induction on it.
use pyatv_rs.Prelude.{
  ℕ, ◌+◌, ◌*◌, ◌^◌, ◌≤◌, ◌<◌, ◌≡◌, sym, ap, ◌∙◌, List, [], ◌++◌, Bytes, length, append-nil, arith,
  subst,
}
use pyatv_rs.Opack.Value.{Value, Items, Fields, nil, cons, end, field, ok, err, Result, ◌>>=◌}
use pyatv_rs.Opack.Objects.{UnpackTable, empty_unpack_table}
use pyatv_rs.Opack.Ser.{
  Encoder, fresh_encoder, write, write_items, write_fields, encode_value, pack,
}
use pyatv_rs.Opack.De.{value, unpack_with_budget, consumed}
use pyatv_rs.Opack.Spec.{
  Fits, ItemsFit, FieldsFit, leaf, in_array, in_dict, more, next, stop, norm, cost, leaves,
  leaves_items, leaves_fields,
}
use pyatv_rs.Opack.Leaf.{at}
use pyatv_rs.Opack.Sync.{TellsZerosApart, InSync, InSync-empty}
use pyatv_rs.Opack.RoundTrip.{Wrote}
use pyatv_rs.Opack.RoundTrip.Interned.{leaf_Wrote}
use pyatv_rs.Opack.RoundTrip.Nested.{
  bind_ok, ItemsWrote, FieldsWrote, array_Wrote, dict_Wrote, nil_Wrote, end_Wrote, cons_Wrote,
  field_Wrote,
}
use native.Mathlib.Nat.{zero-add}

ok-injective : {out out' : Bytes × Encoder} → ok out ≡ ok out' → out ≡ out'
ok-injective h = cc

nil_ok : (enc : Encoder) {out : Bytes × Encoder} → write_items nil enc ≡ ok out → ([], enc) ≡ out
unfolding write
nil_ok enc h = ok-injective h

end_ok : (enc : Encoder) {out : Bytes × Encoder} → write_fields end enc ≡ ok out → ([], enc) ≡ out
unfolding write
end_ok enc h = ok-injective h

cons_ok :
    (x : Value) (xs : Items) (enc : Encoder) {out : Bytes × Encoder}
    → write_items (cons x xs) enc ≡ ok out
    → (first : Bytes) × (mid : Encoder) × (body : Bytes) × (after : Encoder) × (encode_value x enc
        ≡ ok (first, mid))
      × (write_items xs mid ≡ ok (body, after))
      × ((first ++ body, after) ≡ out)
unfolding encode_value
cons_ok x xs enc h =
    let (first, mid, head, more_run) =
      bind_ok (encode_value x enc)
        (λ first mid. write_items xs mid >>= λ (rest, after). ok (first ++ rest, after)) h in
    let (body, after, tail, whole) =
      bind_ok (write_items xs mid) (λ rest after. ok (first ++ rest, after)) more_run in
    (first, mid, body, after, head, tail, ok-injective whole)

field_ok :
    (k x : Value) (fs : Fields) (enc : Encoder) {out : Bytes × Encoder}
    → write_fields (field k x fs) enc ≡ ok out
    → (first : Bytes) × (mid₁ : Encoder) × (second : Bytes) × (mid₂ : Encoder) × (body : Bytes)
      × (after : Encoder) × (encode_value k enc ≡ ok (first, mid₁))
      × (encode_value x mid₁ ≡ ok (second, mid₂))
      × (write_fields fs mid₂ ≡ ok (body, after))
      × ((first ++ (second ++ body), after) ≡ out)
unfolding encode_value
field_ok k x fs enc h =
    let (first, mid₁, key, then_run) =
      bind_ok (encode_value k enc)
        (λ first mid₁. encode_value x mid₁ >>= λ (second, mid₂).
          write_fields fs mid₂ >>= λ (rest, after). ok (first ++ (second ++ rest), after))
        h in
    let (second, mid₂, item, more_run) =
      bind_ok (encode_value x mid₁)
        (λ second mid₂.
          write_fields fs mid₂ >>= λ (rest, after). ok (first ++ (second ++ rest), after))
        then_run in
    let (body, after, tail, whole) =
      bind_ok (write_fields fs mid₂) (λ rest after. ok (first ++ (second ++ rest), after))
        more_run in
    (first, mid₁, second, mid₂, body, after, key, item, tail, ok-injective whole)

first_ok :
    (r : Result (Bytes × Encoder)) {bytes : Bytes}
    → (r >>= λ (bytes, enc). ok bytes) ≡ ok bytes
    → (enc : Encoder) × (r ≡ ok (bytes, enc))
first_ok (ok (b, enc)) h = (enc, ap (λ t. ok (t, enc)) (cc))
first_ok (err e) h = cc

module _ (hash : List ℕ → ℕ) (apart : TellsZerosApart hash) (element_cost budget : ℕ)
    (hb : budget < 2 ^ 64) where
  mutual
    unfolding leaves

    value_Wrote :
        {v : Value} (enc enc' : Encoder) (bytes : Bytes) (ut : UnpackTable)
        → Fits v
        → InSync hash enc.table ut
        → length enc.table.indices + leaves v ≤ 2 ^ 16
        → encode_value v enc ≡ ok (bytes, enc')
        → Wrote hash element_cost budget v enc ut (bytes, enc')
    value_Wrote {v} enc enc' bytes ut (leaf fits) sync room e =
        leaf_Wrote hash apart element_cost budget hb v enc enc' bytes ut fits sync room e
    value_Wrote enc enc' bytes ut (in_array {xs} fit) sync room e =
        array_Wrote hash apart element_cost budget hb xs enc enc' bytes ut
          (λ after body.
            items_Wrote (record enc { depth = enc.depth + 1 }) after body ut fit sync room)
          e
    value_Wrote enc enc' bytes ut (in_dict {fs} fit) sync room e =
        dict_Wrote hash apart element_cost budget hb fs enc enc' bytes ut
          (λ after body.
            fields_Wrote (record enc { depth = enc.depth + 1 }) after body ut fit sync room)
          e

    items_Wrote :
        {xs : Items} (enc enc' : Encoder) (bytes : Bytes) (ut : UnpackTable)
        → ItemsFit xs
        → InSync hash enc.table ut
        → length enc.table.indices + leaves_items xs ≤ 2 ^ 16
        → write_items xs enc ≡ ok (bytes, enc')
        → ItemsWrote hash apart element_cost budget hb xs enc ut (bytes, enc')
    items_Wrote enc enc' bytes ut ItemsFit.none sync room e =
        subst (ItemsWrote hash apart element_cost budget hb nil enc ut) (nil_ok enc e)
          (nil_Wrote hash apart element_cost budget hb enc ut sync)
    items_Wrote enc enc' bytes ut (more {x} {xs} fit fits) sync room e =
        let (first, mid, body, after, head, tail, whole) = cons_ok x xs enc e in
        let h : Wrote hash element_cost budget x enc ut (first, mid) =
          value_Wrote enc mid first ut fit sync (omega arith) head in
        subst (ItemsWrote hash apart element_cost budget hb (cons x xs) enc ut) whole (
          cons_Wrote hash apart element_cost budget hb x xs enc mid after ut first body h
            (items_Wrote mid after body h.run.table fits h.run.sync (omega (arith, h.grows)) tail))

    fields_Wrote :
        {fs : Fields} (enc enc' : Encoder) (bytes : Bytes) (ut : UnpackTable)
        → FieldsFit fs
        → InSync hash enc.table ut
        → length enc.table.indices + leaves_fields fs ≤ 2 ^ 16
        → write_fields fs enc ≡ ok (bytes, enc')
        → FieldsWrote hash apart element_cost budget hb fs enc ut (bytes, enc')
    fields_Wrote enc enc' bytes ut stop sync room e =
        subst (FieldsWrote hash apart element_cost budget hb end enc ut) (end_ok enc e)
          (end_Wrote hash apart element_cost budget hb enc ut sync)
    fields_Wrote enc enc' bytes ut (next {k} {x} {fs} fit₁ fit₂ fits) sync room e =
        let (first, mid₁, second, mid₂, body, after, key_run, item_run, tail, whole) =
          field_ok k x fs enc e in
        let h₁ : Wrote hash element_cost budget k enc ut (first, mid₁) =
          value_Wrote enc mid₁ first ut fit₁ sync (omega arith) key_run in
        let h₂ : Wrote hash element_cost budget x mid₁ h₁.run.table (second, mid₂) =
          value_Wrote mid₁ mid₂ second h₁.run.table fit₂ h₁.run.sync (omega (arith, h₁.grows))
            item_run in
        subst (FieldsWrote hash apart element_cost budget hb (field k x fs) enc ut) whole (
          field_Wrote hash apart element_cost budget hb k x fs enc mid₁ mid₂ after ut first second
            body h₁ h₂
            (fields_Wrote mid₂ after body h₂.run.table fits h₂.run.sync
              (omega (arith, h₁.grows, h₂.grows)) tail))

pack_ok :
    (v : Value) {bytes : Bytes}
    → pack v ≡ ok bytes
    → (enc : Encoder) × (encode_value v fresh_encoder ≡ ok (bytes, enc))
unfolding pack
pack_ok v h = first_ok (encode_value v fresh_encoder) h

-- A document that `pack` produced is read back whole: the value comes back in normal form, which
-- pins integers of 0x28 or more to their narrowest width, and every byte is consumed. The
-- conditions are that the value holds what its Rust type can hold, that it has at most 65536
-- leaves, that the budget covers its cost and is under 2^64, and that the hasher tells 0.0 from -0.0.
pub unpack_with_budget-pack :
    (hash : List ℕ → ℕ) (element_cost budget : ℕ) (v : Value) (bytes : Bytes)
    → TellsZerosApart hash
    → budget < 2 ^ 64
    → Fits v
    → leaves v ≤ 2 ^ 16
    → cost element_cost v ≤ budget
    → pack v ≡ ok bytes
    → unpack_with_budget hash element_cost bytes budget ≡ ok (norm v, length bytes)
unfolding unpack_with_budget
unpack_with_budget-pack hash element_cost budget v bytes apart hb fits few room e =
    let (enc, packed) = pack_ok v e in
    let w : Wrote hash element_cost budget v fresh_encoder empty_unpack_table (bytes, enc) =
      value_Wrote hash apart element_cost budget hb fresh_encoder enc bytes empty_unpack_table fits
        (InSync-empty hash) (omega arith) packed in
    let (s, h, run) = w.run.runs (2 * length bytes + 1) [] 0 0 (omega arith) (omega arith) in
    ap consumed (
      ap
        (λ b. value hash element_cost (2 * length bytes + 1) (at empty_unpack_table 0 budget b 0 0))
        (sym (append-nil bytes))
      ∙ run)
    ∙ rw zero-add
