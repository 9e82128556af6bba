-- ===== src/Opack/RoundTrip/Leaf.antt =====
-- The round trip of one leaf: written in full or as a back-reference.
use pyatv_rs.Prelude.{
  ℕ, zero, suc, ◌+◌, ◌*◌, ◌^◌, ◌≤◌, ◌<◌, ◌≡◌, refl, ap, ◌∙◌, Bool, true, false, List, [], ◌∷◌, ◌++◌,
  Bytes, length, arith,
}
use pyatv_rs.Opack.Value.{Value, ok, err, Result, stuck, array, dict}
use pyatv_rs.Opack.Objects.{UnpackTable, record_encoding, record_value}
use pyatv_rs.Opack.Ser.{Encoder, write, intern, intern_bytes, is_interned}
use pyatv_rs.Opack.De.{
  M, Decoder, bind, position, arm_of, decode_arm, note_value, value_with, value,
}
use pyatv_rs.Opack.Spec.{LeafFits, norm, payload, cost, leaves}
use pyatv_rs.Opack.Leaf.{at, tag_lem}
use pyatv_rs.Opack.Reads.{Reads}
use pyatv_rs.Opack.Reads.Leaves.{leaf_Reads}
use pyatv_rs.Opack.Sync.{InSync}
use pyatv_rs.Opack.RoundTrip.{Run, Opens}
use pyatv_rs.Opack.RoundTrip.Normal.{payload-norm}
use pyatv_rs.Opack.RoundTrip.Pointer.{Points}

-- The parts of a successful `intern`.
pub intern_ok :
    (v : Value) (r : Result (Bytes × Encoder)) {bytes : Bytes} {enc' : Encoder}
    → intern v r ≡ ok (bytes, enc')
    → (raw : Bytes) × (mid : Encoder) × (r ≡ ok (raw, mid))
      × (intern_bytes v raw mid ≡ (bytes, enc'))
unfolding intern
intern_ok v (ok (raw, mid)) h = (raw, mid, refl, cc)
intern_ok v (err e) h = cc

module _ (hash : List ℕ → ℕ) (element_cost : ℕ) where
  -- `value` on a tag whose arm is known.
  pub value_step :
      (f head : ℕ) (tail : Bytes) (ut : UnpackTable) (depth budget o s : ℕ) {v : Value}
      {slot : Bool} {d : Decoder}
      → ((array_body dict_body : ℕ → M Value)
          → decode_arm hash element_cost array_body dict_body head o
              (arm_of head)
              (at ut depth budget tail (o + 1) s)
            ≡ ok ((v, slot), d))
      → value hash element_cost (suc f) (at ut depth budget (head ∷ tail) o s)
        ≡ note_value hash element_cost v slot d
  unfolding value value_with position
  value_step f head tail ut depth budget o s h =
      rw (tag_lem ut depth budget head tail o s)
        (ap (λ r. bind r (λ (v, slot). note_value hash element_cost v slot)) (h _ _))

  pub cost_leaf : (v : Value) → LeafFits v → cost element_cost v ≡ payload v + element_cost
  unfolding cost
  cost_leaf (array xs) fits = absurd fits
  cost_leaf (dict fs) fits = absurd fits
  cost_leaf _ fits = refl

  pub leaves_leaf : (v : Value) → LeafFits v → leaves v ≡ 1
  unfolding leaves
  leaves_leaf (array xs) fits = absurd fits
  leaves_leaf (dict fs) fits = absurd fits
  leaves_leaf _ fits = refl

  -- The bytes of a leaf determine its normal form.
  pub unique :
      (ut : UnpackTable) (depth budget : ℕ) (hb : budget < 2 ^ 64) {bytes : Bytes} {v w : Value}
      {a b : Bool}
      → payload v ≤ budget
      → payload w ≤ budget
      → Reads hash element_cost ut depth budget hb bytes v a
      → Reads hash element_cost ut depth budget hb bytes w b
      → (v ≡ w) × (a ≡ b)
  unique ut depth budget hb hv hw r t =
      let body : ℕ → M Value = λ n d. err stuck in
      (
        cc (
          r.split,
          t.split,
          r.reads body body 0 [] 0 0 (omega arith),
          t.reads body body 0 [] 0 0 (omega arith),
        ),
        cc (
          r.split,
          t.split,
          r.reads body body 0 [] 0 0 (omega arith),
          t.reads body body 0 [] 0 0 (omega arith),
        ),
      )

  noted :
      (v : Value) (d : Decoder)
      → note_value hash element_cost v true d
        ≡ ok (v, record d { table = record_value hash d.table v })
  unfolding note_value
  noted v d = refl

  unnoted : (v : Value) (d : Decoder) → note_value hash element_cost v false d ≡ ok (v, d)
  unfolding note_value
  unnoted v d = refl

  module _ (budget : ℕ) (hb : budget < 2 ^ 64) (v : Value) (enc : Encoder) (ut : UnpackTable)
      (raw : Bytes) (fits : LeafFits v) (wrote : write v enc ≡ ok (raw, enc)) where
    pub raw_Reads : Reads hash element_cost ut enc.depth budget hb raw (norm v) (is_interned v)
    raw_Reads = (leaf_Reads hash element_cost ut enc.depth budget hb v enc enc raw fits wrote).0

    pub raw_Opens : Opens raw
    raw_Opens = record {
      head = raw_Reads.head;
      tail = raw_Reads.tail;
      split = raw_Reads.split;
      no_terminator = raw_Reads.no_terminator;
    }

    -- The decoder on the full encoding.
    full_value :
        (f : ℕ) (rest : Bytes) (o s : ℕ)
        → s + payload v ≤ budget
        → value hash element_cost (suc f) (at ut enc.depth budget (raw ++ rest) o s)
          ≡ note_value hash element_cost
              (norm v)
              (is_interned v)
              (at ut enc.depth budget rest (o + length raw) (s + payload v))
    full_value f rest o s room =
        ap (λ b. value hash element_cost (suc f) (at ut enc.depth budget (b ++ rest) o s))
          raw_Reads.split
        ∙ value_step f raw_Reads.head (raw_Reads.tail ++ rest) ut enc.depth budget o s
            (λ a b. raw_Reads.reads a b o rest o s (omega (arith, payload-norm v)))
        ∙ ap
            (λ p.
              note_value hash element_cost (norm v) (is_interned v)
                (at ut enc.depth budget rest (o + length raw) (s + p)))
            (payload-norm v)

    pub full_recorded :
        is_interned v ≡ true
        → InSync hash (record_encoding enc.table raw) (record_value hash ut (norm v))
        → Run hash budget
            (value hash element_cost)
            1
            raw
            (norm v)
            enc
            (record enc { table = record_encoding enc.table raw })
            ut
            (cost element_cost v)
    full_recorded slot sync = record {
      table = record_value hash ut (norm v);
      sync = sync;
      runs = λ f rest o s enough room. full f rest o s enough (omega (arith, cost_leaf v fits));
    }
      where
        full :
            (f : ℕ) (rest : Bytes) (o s : ℕ)
            → 2 * length raw + 1 ≤ f
            → s + (payload v + element_cost) ≤ budget
            → (s' : ℕ) × (s' ≤ s + cost element_cost v)
              × (value hash element_cost f (at ut enc.depth budget (raw ++ rest) o s)
                  ≡ ok (
                    norm v,
                    at (record_value hash ut (norm v)) enc.depth budget rest (o + length raw) s',
                  ))
        full zero rest o s enough room = absurd (omega arith)
        full (suc f) rest o s enough room = (
          s + payload v,
          omega (arith, cost_leaf v fits),
          full_value f rest o s (omega arith) ∙ rw slot (noted (norm v) _),
        )

    pub full_unrecorded :
        is_interned v ≡ false
        → InSync hash enc.table ut
        → Run hash budget (value hash element_cost) 1 raw (norm v) enc enc ut (cost element_cost v)
    full_unrecorded slot sync = record {
      table = ut;
      sync = sync;
      runs = λ f rest o s enough room. full f rest o s enough (omega (arith, cost_leaf v fits));
    }
      where
        full :
            (f : ℕ) (rest : Bytes) (o s : ℕ)
            → 2 * length raw + 1 ≤ f
            → s + (payload v + element_cost) ≤ budget
            → (s' : ℕ) × (s' ≤ s + cost element_cost v)
              × (value hash element_cost f (at ut enc.depth budget (raw ++ rest) o s)
                  ≡ ok (norm v, at ut enc.depth budget rest (o + length raw) s'))
        full zero rest o s enough room = absurd (omega arith)
        full (suc f) rest o s enough room = (
          s + payload v,
          omega (arith, cost_leaf v fits),
          full_value f rest o s (omega arith) ∙ rw slot (unnoted (norm v) _),
        )

    -- The decoder on a back-reference to the normal form.
    pub pointed :
        (p : Bytes)
        → InSync hash enc.table ut
        → Points hash element_cost ut enc.depth budget hb p (norm v)
        → Run hash budget (value hash element_cost) 1 p (norm v) enc enc ut (cost element_cost v)
    pointed p sync points = record {
      table = ut;
      sync = sync;
      runs = λ f rest o s enough room. follow f rest o s enough (omega (arith, cost_leaf v fits));
    }
      where
        follow :
            (f : ℕ) (rest : Bytes) (o s : ℕ)
            → 2 * length p + 1 ≤ f
            → s + (payload v + element_cost) ≤ budget
            → (s' : ℕ) × (s' ≤ s + cost element_cost v)
              × (value hash element_cost f (at ut enc.depth budget (p ++ rest) o s)
                  ≡ ok (norm v, at ut enc.depth budget rest (o + length p) s'))
        follow zero rest o s enough room = absurd (omega arith)
        follow (suc f) rest o s enough room = (
          s + element_cost,
          omega (arith, cost_leaf v fits),
          ap (λ b. value hash element_cost (suc f) (at ut enc.depth budget (b ++ rest) o s))
                points.split
              ∙ value_step f points.head (points.tail ++ rest) ut enc.depth budget o s
                  (λ a b. points.reads a b o rest o s (omega arith))
              ∙ unnoted (norm v) _,
        )
