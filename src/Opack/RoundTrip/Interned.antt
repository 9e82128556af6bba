-- ===== src/Opack/RoundTrip/Interned.antt =====
-- One leaf through `Encoder::value`: new leaves are recorded on both sides, repeated ones resolve.
use pyatv_rs.Prelude.{
  ℕ, ◌+◌, ◌^◌, ◌≤◌, ◌<◌, ◌≡◌, sym, ap, ◌∙◌, true, false, some, none, List, Bytes, length, get_elem?,
  get_elem?-lt, arith, Bool-cases, Option-cases, inl, inr, subst, ◌-◌,
}
use pyatv_rs.Opack.Value.{Value, ok}
use pyatv_rs.Opack.Objects.{UnpackTable, lookup, record_encoding}
use pyatv_rs.Opack.Ser.{Encoder, write, encode_value, intern_bytes, pointer_bytes, is_interned}
use pyatv_rs.Opack.Spec.{LeafFits, norm, leaves}
use pyatv_rs.Opack.Reads.Leaves.{leaf_Reads}
use pyatv_rs.Opack.Sync.{TellsZerosApart, InSync, Slot}
use pyatv_rs.Opack.Sync.Step.{InSync-record, length-record_encoding}
use pyatv_rs.Opack.RoundTrip.{Wrote}
use pyatv_rs.Opack.RoundTrip.Normal.{leaf_IsNormal, payload-lt, payload-norm}
use pyatv_rs.Opack.RoundTrip.Pointer.{pointer_bytes-Points}
use pyatv_rs.Opack.RoundTrip.Leaf.{
  intern_ok, leaves_leaf, unique, full_recorded, full_unrecorded, pointed, raw_Opens,
}

intern_bytes_new :
    (v : Value) (raw : Bytes) (enc : Encoder)
    → lookup enc.table raw ≡ none
    → is_interned v ≡ true
    → intern_bytes v raw enc ≡ (raw, record enc { table = record_encoding enc.table raw })
unfolding intern_bytes
intern_bytes_new v raw enc new slot = ground arith

pub intern_bytes_plain :
    (v : Value) (raw : Bytes) (enc : Encoder)
    → lookup enc.table raw ≡ none
    → is_interned v ≡ false
    → intern_bytes v raw enc ≡ (raw, enc)
unfolding intern_bytes
intern_bytes_plain v raw enc new slot = ground arith

intern_bytes_seen :
    (v : Value) (raw p : Bytes) (enc : Encoder) (i : ℕ)
    → lookup enc.table raw ≡ some i
    → pointer_bytes i ≡ some p
    → intern_bytes v raw enc ≡ (p, enc)
unfolding intern_bytes
intern_bytes_seen v raw p enc i seen points = ground arith

module _ (hash : List ℕ → ℕ) (apart : TellsZerosApart hash) (element_cost budget : ℕ)
    (hb : budget < 2 ^ 64) where
  interned_Wrote :
      (v : Value) (enc : Encoder) (ut : UnpackTable) (raw : Bytes)
      → LeafFits v
      → write v enc ≡ ok (raw, enc)
      → InSync hash enc.table ut
      → length enc.table.indices + 1 ≤ 2 ^ 16
      → Wrote hash element_cost budget v enc ut (intern_bytes v raw enc)
  interned_Wrote v enc ut raw fits wrote sync room = elim (Option-cases (lookup enc.table raw)) [
    | inr new ↦ elim (Bool-cases (is_interned v)) [
      | inl slot ↦
          let n = leaf_IsNormal v enc enc raw fits wrote in
          let entry : Slot raw (norm v) = record {
            fits = n.fits;
            interned = n.interned ∙ slot;
            normal = n.normal;
            writes = n.writes;
          } in
          subst (Wrote hash element_cost budget v enc ut)
            (sym (intern_bytes_new v raw enc new slot))
            (record {
              opens = raw_Opens hash element_cost budget hb v enc ut raw fits wrote;
              run =
                  full_recorded hash element_cost budget hb v enc ut raw fits wrote slot
                    (InSync-record hash apart enc.table ut raw (norm v) sync entry new);
              grows = omega (
                arith,
                length-record_encoding enc.table raw new,
                leaves_leaf hash element_cost v fits,
              );
            })
      | inr slot ↦
          subst (Wrote hash element_cost budget v enc ut)
            (sym (intern_bytes_plain v raw enc new slot))
            (record {
              opens = raw_Opens hash element_cost budget hb v enc ut raw fits wrote;
              run = full_unrecorded hash element_cost budget hb v enc ut raw fits wrote slot sync;
              grows = omega arith;
            })
    ]
    | inl (i, seen) ↦
        let (w, at_i, entry) = sync.found raw i seen in
        let same : norm v ≡ w = same_value i w seen at_i entry in
        let (p, emitted, points) =
          pointer_bytes-Points hash element_cost ut enc.depth budget hb i (norm v)
            (omega (arith, get_elem?-lt ut.values i at_i, sync.size))
            (subst (λ u. get_elem? ut.values i ≡ some u) (sym same) at_i) in
        subst (Wrote hash element_cost budget v enc ut)
          (sym (intern_bytes_seen v raw p enc i seen emitted))
          (record {
            opens = record {
              head = points.head;
              tail = points.tail;
              split = points.split;
              no_terminator = points.no_terminator;
            };
            run = pointed hash element_cost budget hb v enc ut raw fits wrote p sync points;
            grows = omega arith;
          })
  ]
    where
      same_value :
          (i : ℕ) (w : Value)
          → lookup enc.table raw ≡ some i
          → get_elem? ut.values i ≡ some w
          → Slot raw w
          → norm v ≡ w
      same_value i w seen at_i entry =
          (unique hash element_cost ut enc.depth (2 ^ 64 - 1) (omega arith)
            (omega (arith, payload-norm v, payload-lt v fits))
            (omega (arith, payload-norm w, payload-lt w entry.fits))
            ((leaf_Reads hash element_cost ut enc.depth (2 ^ 64 - 1) (omega arith) v enc enc raw
              fits wrote).0)
            ((leaf_Reads hash element_cost ut enc.depth (2 ^ 64 - 1) (omega arith) w enc enc raw
              entry.fits (entry.writes enc)).0)).0
          ∙ entry.normal

  -- A leaf that fits comes back in normal form, and the tables stay in step.
  pub leaf_Wrote :
      (v : Value) (enc enc' : Encoder) (bytes : Bytes) (ut : UnpackTable)
      → LeafFits v
      → InSync hash enc.table ut
      → length enc.table.indices + leaves v ≤ 2 ^ 16
      → encode_value v enc ≡ ok (bytes, enc')
      → Wrote hash element_cost budget v enc ut (bytes, enc')
  unfolding encode_value
  leaf_Wrote v enc enc' bytes ut fits sync room e =
      let (raw, mid, wrote, out) = intern_ok v (write v enc) e in
      let same : mid ≡ enc =
        (leaf_Reads hash element_cost ut enc.depth budget hb v enc mid raw fits wrote).1 in
      subst (Wrote hash element_cost budget v enc ut) (ap (intern_bytes v raw) (sym same) ∙ out) (
        interned_Wrote v enc ut raw fits (subst (λ m. write v enc ≡ ok (raw, m)) same wrote) sync
          (omega (arith, leaves_leaf hash element_cost v fits)))
