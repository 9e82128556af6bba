-- ===== src/Opack/RoundTrip/Nested.antt =====
-- Containers around elements that read back, and the elements' lists.
use pyatv_rs.Prelude.{
  ℕ, ◌+◌, ◌^◌, ◌≤◌, ◌<◌, ◌≡◌, ◌≢◌, refl, sym, ap, ◌∙◌, List, [], ◌∷◌, ◌++◌, Bytes, length, arith,
  subst, none, false,
}
use pyatv_rs.Opack.Value.{
  Value, Items, Fields, array, dict, nil, cons, end, field, ok, err, Result, ◌>>=◌,
}
use pyatv_rs.Opack.Objects.{UnpackTable, lookup}
use pyatv_rs.Opack.Ser.{
  Encoder, write, write_items, write_fields, encode_value, count_items, count_fields, container_tag,
  finish_container, is_interned, intern_bytes,
}
use pyatv_rs.Opack.De.{counted_items, endless_items, counted_fields, endless_fields}
use pyatv_rs.Opack.Spec.{
  norm, norm_items, norm_fields, cost, cost_items, cost_fields, leaves, leaves_items, leaves_fields,
}
use pyatv_rs.Opack.Sync.{TellsZerosApart, InSync}
use pyatv_rs.Opack.RoundTrip.{Run, Wrote}
use pyatv_rs.Opack.RoundTrip.Leaf.{intern_ok}
use pyatv_rs.Opack.RoundTrip.Interned.{intern_bytes_plain}
use pyatv_rs.Opack.RoundTrip.Items.{counted_nil, endless_nil, counted_cons, endless_cons}
use pyatv_rs.Opack.RoundTrip.Fields.{counted_end, endless_end, counted_field, endless_field}
use pyatv_rs.Opack.RoundTrip.Container.{
  container_ok, no_slot, array_step, dict_step, wrapped, chosen-Run, container_Run,
}

pub bind_ok :
    (r : Result (Bytes × Encoder)) (f : Bytes → Encoder → Result (Bytes × Encoder))
    {out : Bytes × Encoder}
    → (r >>= λ (bytes, enc). f bytes enc) ≡ ok out
    → (bytes : Bytes) × (enc : Encoder) × (r ≡ ok (bytes, enc)) × (f bytes enc ≡ ok out)
bind_ok (ok (bytes, enc)) f h = (bytes, enc, refl, h)
bind_ok (err e) f h = cc

module _ (hash : List ℕ → ℕ) (apart : TellsZerosApart hash) (element_cost budget : ℕ)
    (hb : budget < 2 ^ 64) where
  pub record ItemsWrote (xs : Items) (enc : Encoder) (ut : UnpackTable) (out : Bytes × Encoder)
      : Type 0 where
    pub by_count :
        Run hash budget
          (λ f. counted_items hash element_cost f (count_items xs))
          2
          out.0
          (norm_items xs)
          enc
          out.1
          ut
          (cost_items element_cost xs)
    pub by_end :
        Run hash budget
          (endless_items hash element_cost)
          2
          (out.0 ++ (3 ∷ []))
          (norm_items xs)
          enc
          out.1
          ut
          (cost_items element_cost xs)
    pub grows : length out.1.table.indices ≤ length enc.table.indices + leaves_items xs

  pub record FieldsWrote (fs : Fields) (enc : Encoder) (ut : UnpackTable) (out : Bytes × Encoder)
      : Type 0 where
    pub by_count :
        Run hash budget
          (λ f. counted_fields hash element_cost f (count_fields fs))
          2
          out.0
          (norm_fields fs)
          enc
          out.1
          ut
          (cost_fields element_cost fs)
    pub by_end :
        Run hash budget
          (endless_fields hash element_cost)
          2
          (out.0 ++ (3 ∷ []))
          (norm_fields fs)
          enc
          out.1
          ut
          (cost_fields element_cost fs)
    pub grows : length out.1.table.indices ≤ length enc.table.indices + leaves_fields fs

  -- A container is never replaced by a back-reference, nor recorded.
  unchanged :
      (v : Value) (base n : ℕ) (enc : Encoder) (ut : UnpackTable) (part whole out : Bytes × Encoder)
      → is_interned v ≡ false
      → 0xD0 ≤ container_tag base n
      → Wrote hash element_cost budget v enc ut (wrapped base n part)
      → wrapped base n part ≡ whole
      → intern_bytes v whole.0 whole.1 ≡ out
      → Wrote hash element_cost budget v enc ut out
  unchanged v base n enc ut (body, after) whole out plain high wrote form sealed =
      let new : lookup after.table (container_tag base n ∷ (body ++ finish_container n)) ≡ none =
        no_slot hash element_cost after.table wrote.run.table (container_tag base n) _
          wrote.run.sync high in
      subst (Wrote hash element_cost budget v enc ut)
        (sym (intern_bytes_plain v _ _ new plain) ∙ ap (λ w. intern_bytes v w.0 w.1) form ∙ sealed)
        wrote

  high_array : (n : ℕ) → (0xD0 ≤ container_tag 0xD0 n) × (container_tag 0xD0 n ≢ 3)
  unfolding container_tag
  high_array n = ground arith

  high_dict : (n : ℕ) → (0xD0 ≤ container_tag 0xE0 n) × (container_tag 0xE0 n ≢ 3)
  unfolding container_tag
  high_dict n = ground arith

  -- An array around elements that read back.
  pub array_Wrote :
      (xs : Items) (enc enc' : Encoder) (bytes : Bytes) (ut : UnpackTable)
      → ((after : Encoder) (body : Bytes)
          → write_items xs (record enc { depth = enc.depth + 1 }) ≡ ok (body, after)
          → ItemsWrote xs (record enc { depth = enc.depth + 1 }) ut (body, after))
      → encode_value (array xs) enc ≡ ok (bytes, enc')
      → Wrote hash element_cost budget (array xs) enc ut (bytes, enc')
  unfolding encode_value norm cost leaves is_interned
  array_Wrote xs enc enc' bytes ut elements e =
      let (raw, mid, wrote, out) = intern_ok (array xs) (write (array xs) enc) e in
      let (body, after, shallow, ran, form) =
        container_ok 0xD0 (count_items xs) enc (write_items xs) wrote in
      let w : ItemsWrote xs (record enc { depth = enc.depth + 1 }) ut (body, after) =
        elements after body ran in
      unchanged (array xs) 0xD0 (count_items xs) enc ut (body, after) (raw, mid) (bytes, enc') refl
        (high_array (count_items xs)).0
        (record {
          opens = record {
            head = container_tag 0xD0 (count_items xs);
            tail = body ++ finish_container (count_items xs);
            split = refl;
            no_terminator = (high_array (count_items xs)).1;
          };
          run =
              container_Run hash element_cost budget array (counted_items hash element_cost)
                (endless_items hash element_cost) (count_items xs) 0xD0 enc after ut body
                (norm_items xs) (cost_items element_cost xs) shallow
                (chosen-Run hash element_cost budget array (counted_items hash element_cost)
                  (endless_items hash element_cost) (count_items xs) body (norm_items xs)
                  (record enc { depth = enc.depth + 1 }) after ut (cost_items element_cost xs)
                  w.by_count w.by_end)
                (λ f o s tail v d.
                  array_step hash element_cost budget f (count_items xs) o s enc.depth ut tail v d);
          grows = w.grows;
        })
        form out

  -- A dictionary around entries that read back.
  pub dict_Wrote :
      (fs : Fields) (enc enc' : Encoder) (bytes : Bytes) (ut : UnpackTable)
      → ((after : Encoder) (body : Bytes)
          → write_fields fs (record enc { depth = enc.depth + 1 }) ≡ ok (body, after)
          → FieldsWrote fs (record enc { depth = enc.depth + 1 }) ut (body, after))
      → encode_value (dict fs) enc ≡ ok (bytes, enc')
      → Wrote hash element_cost budget (dict fs) enc ut (bytes, enc')
  unfolding encode_value norm cost leaves is_interned
  dict_Wrote fs enc enc' bytes ut elements e =
      let (raw, mid, wrote, out) = intern_ok (dict fs) (write (dict fs) enc) e in
      let (body, after, shallow, ran, form) =
        container_ok 0xE0 (count_fields fs) enc (write_fields fs) wrote in
      let w : FieldsWrote fs (record enc { depth = enc.depth + 1 }) ut (body, after) =
        elements after body ran in
      unchanged (dict fs) 0xE0 (count_fields fs) enc ut (body, after) (raw, mid) (bytes, enc') refl
        (high_dict (count_fields fs)).0
        (record {
          opens = record {
            head = container_tag 0xE0 (count_fields fs);
            tail = body ++ finish_container (count_fields fs);
            split = refl;
            no_terminator = (high_dict (count_fields fs)).1;
          };
          run =
              container_Run hash element_cost budget dict (counted_fields hash element_cost)
                (endless_fields hash element_cost) (count_fields fs) 0xE0 enc after ut body
                (norm_fields fs) (cost_fields element_cost fs) shallow
                (chosen-Run hash element_cost budget dict (counted_fields hash element_cost)
                  (endless_fields hash element_cost) (count_fields fs) body (norm_fields fs)
                  (record enc { depth = enc.depth + 1 }) after ut (cost_fields element_cost fs)
                  w.by_count w.by_end)
                (λ f o s tail v d.
                  dict_step hash element_cost budget f (count_fields fs) o s enc.depth ut tail v d);
          grows = w.grows;
        })
        form out

  pub nil_Wrote :
      (enc : Encoder) (ut : UnpackTable)
      → InSync hash enc.table ut
      → ItemsWrote nil enc ut ([], enc)
  unfolding norm cost leaves count_items
  nil_Wrote enc ut sync = record {
    by_count = counted_nil hash element_cost budget hb enc ut sync;
    by_end = endless_nil hash element_cost budget hb enc ut sync;
    grows = omega arith;
  }

  pub end_Wrote :
      (enc : Encoder) (ut : UnpackTable)
      → InSync hash enc.table ut
      → FieldsWrote end enc ut ([], enc)
  unfolding norm cost leaves count_fields
  end_Wrote enc ut sync = record {
    by_count = counted_end hash element_cost budget hb enc ut sync;
    by_end = endless_end hash element_cost budget hb enc ut sync;
    grows = omega arith;
  }

  pub cons_Wrote :
      (x : Value) (xs : Items) (enc mid enc' : Encoder) (ut : UnpackTable) (first body : Bytes)
      (head : Wrote hash element_cost budget x enc ut (first, mid))
      → ItemsWrote xs mid head.run.table (body, enc')
      → ItemsWrote (cons x xs) enc ut (first ++ body, enc')
  unfolding norm cost leaves count_items
  cons_Wrote x xs enc mid enc' ut first body head tail = record {
    by_count =
        counted_cons hash element_cost budget hb x xs enc mid enc' ut first body
          (cost element_cost x) (cost_items element_cost xs) head.opens head.run (count_items xs)
          tail.by_count;
    by_end =
        endless_cons hash element_cost budget hb x xs enc mid enc' ut first body
          (cost element_cost x) (cost_items element_cost xs) head.opens head.run tail.by_end;
    grows = omega (arith, head.grows, tail.grows);
  }

  pub field_Wrote :
      (k x : Value) (fs : Fields) (enc mid₁ mid₂ enc' : Encoder) (ut : UnpackTable)
      (first second body : Bytes) (key : Wrote hash element_cost budget k enc ut (first, mid₁))
      (item : Wrote hash element_cost budget x mid₁ key.run.table (second, mid₂))
      → FieldsWrote fs mid₂ item.run.table (body, enc')
      → FieldsWrote (field k x fs) enc ut (first ++ (second ++ body), enc')
  unfolding norm cost leaves count_fields
  field_Wrote k x fs enc mid₁ mid₂ enc' ut first second body key item tail = record {
    by_count =
        counted_field hash element_cost budget hb k x fs enc mid₁ mid₂ enc' ut first second body
          (cost element_cost k) (cost element_cost x) (cost_fields element_cost fs) key.opens
          item.opens key.run item.run (count_fields fs) tail.by_count;
    by_end =
        endless_field hash element_cost budget hb k x fs enc mid₁ mid₂ enc' ut first second body
          (cost element_cost k) (cost element_cost x) (cost_fields element_cost fs) key.opens
          item.opens key.run item.run tail.by_end;
    grows = omega (arith, key.grows, item.grows, tail.grows);
  }
