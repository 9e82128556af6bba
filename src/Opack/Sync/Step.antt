-- ===== src/Opack/Sync/Step.antt =====
-- Recording a new leaf on both sides keeps the tables in step.
use pyatv_rs.Prelude.{
  ℕ, suc, ◌≡◌, refl, sym, ap, ◌∙◌, inl, inr, false, List, [], ◌∷◌, ◌++◌, Bytes, some, none, arith,
  ◌==◌, ltb, ==→eq, bytes_eq, bytes_eq→eq, bytes_eq_refl, Bool-cases, subst, All, All-map,
  All-append, get_elem?, get_elem?-append, get_elem?-last, get_elem?-snoc, length, length-append,
  if◌then◌else◌,
}
use pyatv_rs.Opack.Value.{Value, value_eq}
use pyatv_rs.Opack.Objects.{
  PackTable, UnpackTable, lookup, record_encoding, record_value, digest_of, any_equal, set_bucket,
}
use pyatv_rs.Opack.Ser.{fresh_encoder}
use pyatv_rs.Opack.Sync.{TellsZerosApart, Slot, InSync}
use pyatv_rs.Opack.Sync.Equality.{value_eq→eq}

lookup-record_encoding :
    (pt : PackTable) (bytes other : Bytes)
    → lookup pt bytes ≡ none
    → lookup (record_encoding pt bytes) other
      ≡ (if bytes_eq bytes other then some (length pt.indices) else lookup pt other)
unfolding record_encoding
lookup-record_encoding pt bytes other h = rw (h, record_encoding) (unfold lookup in refl)

pub length-record_encoding :
    (pt : PackTable) (bytes : Bytes)
    → lookup pt bytes ≡ none
    → length (record_encoding pt bytes).indices ≡ suc (length pt.indices)
unfolding record_encoding
length-record_encoding pt bytes h = ground arith

grown : (values : List Value) (v : Value) → length (values ++ v ∷ []) ≡ suc (length values)
grown values v = omega (arith, length-append values (v ∷ []))

-- Two slots of one value have one encoding.
Slot-bytes : (x y : Bytes) (v : Value) → Slot x v → Slot y v → x ≡ y
Slot-bytes x y v s t = cc (s.writes fresh_encoder, t.writes fresh_encoder)

module _ (hash : List ℕ → ℕ) (apart : TellsZerosApart hash) where
  abbrev Names : UnpackTable → ℕ → ℕ → Type 0
  Names ut d i = (v : Value) × (get_elem? ut.values i ≡ some v) × (digest_of hash v ≡ d)

  -- A value whose encoding is new equals none of its bucket.
  none_equal :
      (pt : PackTable) (ut : UnpackTable) (bytes : Bytes) (v : Value) (bucket : List ℕ)
      → InSync hash pt ut
      → Slot bytes v
      → lookup pt bytes ≡ none
      → All (Names ut (digest_of hash v)) bucket
      → any_equal ut.values v bucket ≡ false
  unfolding any_equal
  none_equal pt ut bytes v [] sync slot new named = refl
  none_equal pt ut bytes v (i ∷ bucket) sync slot new ((u, at_i, same), named) =
      rw (at_i, differ) (none_equal pt ut bytes v bucket sync slot new named)
    where
      differ : value_eq u v ≡ false
      differ = elim (Bool-cases (value_eq u v)) [
        | inr e ↦ e
        | inl e ↦
            let (x, here, other) = sync.kept i u at_i in
            let same_value : u ≡ v = value_eq→eq hash apart u v other.fits slot.fits e same in
            let same_bytes : x ≡ bytes =
              Slot-bytes x bytes v (subst (λ w. Slot x w) same_value other) slot in
            absurd (cc (here, new, same_bytes))
      ]

  record_value_new :
      (ut : UnpackTable) (v : Value)
      → any_equal ut.values v (ut.buckets (digest_of hash v)) ≡ false
      → record_value hash ut v ≡ (record {
        values = ut.values ++ v ∷ [];
        buckets =
            set_bucket ut.buckets
              (digest_of hash v)
              (ut.buckets (digest_of hash v) ++ length ut.values ∷ []);
      })
  unfolding record_value
  record_value_new ut v h = elim (Bool-cases (ltb (length (ut.buckets (digest_of hash v))) 64)) [
    | inl e ↦ rw (e, h)
    | inr e ↦ rw e
  ]

  module _ (pt : PackTable) (ut : UnpackTable) (bytes : Bytes) (v : Value)
      (sync : InSync hash pt ut) (slot : Slot bytes v) (new : lookup pt bytes ≡ none) where
    after_record : record_value hash ut v ≡ (record {
      values = ut.values ++ v ∷ [];
      buckets =
          set_bucket ut.buckets
            (digest_of hash v)
            (ut.buckets (digest_of hash v) ++ length ut.values ∷ []);
    })
    after_record =
        record_value_new ut v
          (none_equal pt ut bytes v _ sync slot new (sync.bucket (digest_of hash v)))

    -- Any other encoding is told apart from the new one.
    differs : (x : Bytes) (i : ℕ) → lookup pt x ≡ some i → bytes_eq bytes x ≡ false
    differs x i h = elim (Bool-cases (bytes_eq bytes x)) [
      | inl e ↦ absurd (cc (new, h, bytes_eq→eq bytes x e))
      | inr e ↦ e
    ]

    found_next :
        (x : Bytes) (i : ℕ)
        → lookup (record_encoding pt bytes) x ≡ some i
        → (w : Value) × (get_elem? (ut.values ++ v ∷ []) i ≡ some w) × Slot x w
    found_next x i h = elim (Bool-cases (bytes_eq bytes x)) [
      | inl e ↦
          let read : some (length pt.indices) ≡ some i =
            rw (lookup-record_encoding pt bytes x new, e) at h in
          let at_end : length ut.values ≡ i = cc (read, sync.size) in
          (
            v,
            subst (λ k. get_elem? (ut.values ++ v ∷ []) k ≡ some v) at_end
                (get_elem?-last ut.values v),
            subst (λ y. Slot y v) (bytes_eq→eq bytes x e) slot,
          )
      | inr e ↦
          let (w, here, s) = sync.found x i (rw (lookup-record_encoding pt bytes x new, e) at h) in
          (w, get_elem?-append ut.values (v ∷ []) i here, s)
    ]

    kept_next :
        (i : ℕ) (w : Value)
        → get_elem? (ut.values ++ v ∷ []) i ≡ some w
        → (x : Bytes) × (lookup (record_encoding pt bytes) x ≡ some i) × Slot x w
    kept_next i w h = elim (get_elem?-snoc ut.values v w i h) [
      | inl old ↦
          let (x, here, s) = sync.kept i w old in
          (x, rw (lookup-record_encoding pt bytes x new, differs x i here) here, s)
      | inr (last, e) ↦ (
        bytes,
        rw (lookup-record_encoding pt bytes bytes new, bytes_eq_refl bytes)
            (ap some (sync.size ∙ sym last)),
        subst (Slot bytes) e slot,
      )
    ]

    -- What an index named before, it names still.
    named_next :
        (d : ℕ)
        → All
            (λ i.
              (w : Value) × (get_elem? (ut.values ++ v ∷ []) i ≡ some w) × (digest_of hash w ≡ d))
            (ut.buckets d)
    named_next d =
        All-map (Names ut d) _ (ut.buckets d)
          (λ i (w, here, same). (w, get_elem?-append ut.values (v ∷ []) i here, same))
          (sync.bucket d)

    bucket_next :
        (d : ℕ)
        → All
            (λ i.
              (w : Value) × (get_elem? (ut.values ++ v ∷ []) i ≡ some w) × (digest_of hash w ≡ d))
            (set_bucket ut.buckets
              (digest_of hash v)
              (ut.buckets (digest_of hash v) ++ length ut.values ∷ [])
              d)
    unfolding set_bucket
    bucket_next d = elim (Bool-cases (d == digest_of hash v)) [
      | inr e ↦ rw e (named_next d)
      | inl e ↦ rw e (
          subst
            (λ k.
              All
                (λ i.
                  (w : Value) × (get_elem? (ut.values ++ v ∷ []) i ≡ some w)
                  × (digest_of hash w ≡ k))
                (ut.buckets (digest_of hash v) ++ length ut.values ∷ []))
            (sym (==→eq d (digest_of hash v) e))
            (All-append _ (ut.buckets (digest_of hash v)) (length ut.values ∷ [])
              (named_next (digest_of hash v)) ((v, get_elem?-last ut.values v, refl), tt)))
    ]

    -- The tables stay in step when both sides record the leaf.
    pub InSync-record : InSync hash (record_encoding pt bytes) (record_value hash ut v)
    InSync-record = rw after_record (record {
      size = length-record_encoding pt bytes new ∙ ap suc sync.size ∙ sym (grown ut.values v);
      found = found_next;
      kept = kept_next;
      bucket = bucket_next;
    })
