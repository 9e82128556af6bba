-- ===== src/Opack/RoundTrip/Fields.antt =====
-- The entries of a dictionary, read by the loop that counts and by the loop that looks for the
-- terminator.
use pyatv_rs.Prelude.{
  ℕ, zero, suc, ◌+◌, ◌*◌, ◌^◌, ◌≤◌, ◌<◌, ◌≡◌, refl, ap, ◌∙◌, List, [], ◌∷◌, ◌++◌, Bytes, length,
  append_assoc, length-append, arith,
}
use pyatv_rs.Opack.Value.{Value, Fields, end, field, ok}
use pyatv_rs.Opack.Objects.{UnpackTable}
use pyatv_rs.Opack.Ser.{Encoder}
use pyatv_rs.Opack.De.{Decoder, peek, skip_terminator, value, counted_fields, endless_fields}
use pyatv_rs.Opack.Spec.{norm, norm_fields}
use pyatv_rs.Opack.Leaf.{at, charge_lem}
use pyatv_rs.Opack.Sync.{InSync}
use pyatv_rs.Opack.RoundTrip.{Run, Opens}
use pyatv_rs.Opack.RoundTrip.Items.{peek-Opens, no_end, Opens-pos}

module _ (hash : List ℕ → ℕ) (element_cost budget : ℕ) (hb : budget < 2 ^ 64) where
  pub counted_end :
      (enc : Encoder) (ut : UnpackTable)
      → InSync hash enc.table ut
      → Run hash budget (λ f. counted_fields hash element_cost f zero) 2 [] end enc enc ut 0
  counted_end enc ut sync = record { table = ut; sync = sync; runs = stop }
    where
      stop :
          (f : ℕ) (rest : Bytes) (o s : ℕ)
          → 2 * 0 + 2 ≤ f
          → s + 0 ≤ budget
          → (s' : ℕ) × (s' ≤ s + 0)
            × (counted_fields hash element_cost f zero (at ut enc.depth budget rest o s)
                ≡ ok (end, at ut enc.depth budget rest (o + 0) s'))
      stop zero rest o s enough room = absurd (omega arith)
      stop (suc f) rest o s enough room = (s, omega arith, unfold value in ground arith)

  pub endless_end :
      (enc : Encoder) (ut : UnpackTable)
      → InSync hash enc.table ut
      → Run hash budget (endless_fields hash element_cost) 2 (3 ∷ []) end enc enc ut 0
  endless_end enc ut sync = record { table = ut; sync = sync; runs = stop }
    where
      stop :
          (f : ℕ) (rest : Bytes) (o s : ℕ)
          → 2 * 1 + 2 ≤ f
          → s + 0 ≤ budget
          → (s' : ℕ) × (s' ≤ s + 0)
            × (endless_fields hash element_cost f (at ut enc.depth budget (3 ∷ rest) o s)
                ≡ ok (end, at ut enc.depth budget rest (o + 1) s'))
      stop zero rest o s enough room = absurd (omega arith)
      stop (suc f) rest o s enough room =
          (s, omega arith, unfold value peek skip_terminator in refl)

  counted_step :
      (f n : ℕ) (ut : UnpackTable) (depth o s : ℕ) (r : Bytes) {key item : Value} {fields : Fields}
      {d₁ d₂ d₃ : Decoder}
      → s + 2 * element_cost ≤ budget
      → value hash element_cost f (at ut depth budget r o (s + 2 * element_cost)) ≡ ok (key, d₁)
      → value hash element_cost f d₁ ≡ ok (item, d₂)
      → counted_fields hash element_cost f n d₂ ≡ ok (fields, d₃)
      → counted_fields hash element_cost (suc f) (suc n) (at ut depth budget r o s)
        ≡ ok (field key item fields, d₃)
  unfolding value
  counted_step f n ut depth o s r room e₁ e₂ e₃ =
      rw (charge_lem ut depth budget (2 * element_cost) r o s hb room, e₁, e₂, e₃)

  endless_step :
      (f : ℕ) (ut : UnpackTable) (depth o s : ℕ) (first r : Bytes) (opens : Opens first)
      {key item : Value} {fields : Fields} {d₁ d₂ d₃ : Decoder}
      → s + 2 * element_cost ≤ budget
      → value hash element_cost f (at ut depth budget (first ++ r) o (s + 2 * element_cost))
        ≡ ok (key, d₁)
      → value hash element_cost f d₁ ≡ ok (item, d₂)
      → endless_fields hash element_cost f d₂ ≡ ok (fields, d₃)
      → endless_fields hash element_cost (suc f) (at ut depth budget (first ++ r) o s)
        ≡ ok (field key item fields, d₃)
  unfolding value
  endless_step f ut depth o s first r opens room e₁ e₂ e₃ = ground (
    arith,
    peek-Opens first r ut depth budget o s opens,
    no_end first opens,
    charge_lem ut depth budget (2 * element_cost) (first ++ r) o s hb room,
    e₁,
    e₂,
    e₃,
  )

  module _ (k x : Value) (fs : Fields) (enc mid₁ mid₂ enc' : Encoder) (ut : UnpackTable)
      (first second body : Bytes) (c₁ c₂ d : ℕ) (opens : Opens first) (also : Opens second)
      (key : Run hash budget (value hash element_cost) 1 first (norm k) enc mid₁ ut c₁)
      (item : Run hash budget
        (value hash element_cost)
        1
        second
        (norm x)
        mid₁
        mid₂
        key.table
        c₂) where
    -- The lengths of an entry and of what follows it.
    lengths :
        (end_bytes : Bytes)
        → length ((first ++ (second ++ body)) ++ end_bytes)
          ≡ length first + (length second + length (body ++ end_bytes))
    lengths end_bytes = omega (
      arith,
      length-append (first ++ (second ++ body)) end_bytes,
      length-append first (second ++ body),
      length-append second body,
      length-append body end_bytes,
    )

    regroup :
        (end_bytes rest : Bytes)
        → ((first ++ (second ++ body)) ++ end_bytes) ++ rest
          ≡ first ++ (second ++ ((body ++ end_bytes) ++ rest))
    regroup end_bytes rest = simp append_assoc

    -- One round of the loop that counts: the charge, the key, the value, then the rest.
    pub counted_field :
        (n : ℕ)
        → Run hash budget
            (λ f. counted_fields hash element_cost f n)
            2
            body
            (norm_fields fs)
            mid₂
            enc'
            item.table
            d
        → Run hash budget
            (λ f. counted_fields hash element_cost f (suc n))
            2
            (first ++ (second ++ body))
            (field (norm k) (norm x) (norm_fields fs))
            enc
            enc'
            ut
            (2 * element_cost + c₁ + c₂ + d)
    counted_field n tail = record { table = tail.table; sync = tail.sync; runs = both }
      where
        both :
            (f : ℕ) (rest : Bytes) (o s : ℕ)
            → 2 * length (first ++ (second ++ body)) + 2 ≤ f
            → s + (2 * element_cost + c₁ + c₂ + d) ≤ budget
            → (s' : ℕ) × (s' ≤ s + (2 * element_cost + c₁ + c₂ + d))
              × (counted_fields hash element_cost f
                    (suc n)
                    (at ut enc.depth budget ((first ++ (second ++ body)) ++ rest) o s)
                  ≡ ok (
                    field (norm k) (norm x) (norm_fields fs),
                    at tail.table enc'.depth budget rest
                        (o + length (first ++ (second ++ body)))
                        s',
                  ))
        both zero rest o s enough room = absurd (omega arith)
        both (suc f) rest o s enough room =
            let size : length (first ++ (second ++ body))
                ≡ length first + (length second + length body) =
              omega (arith, length-append first (second ++ body), length-append second body) in
            let (s₁, h₁, e₁) =
              key.runs f (second ++ (body ++ rest)) o (s + 2 * element_cost) (omega (arith, size))
                (omega arith) in
            let (s₂, h₂, e₂) =
              item.runs f (body ++ rest) (o + length first) s₁
                (omega (arith, size, Opens-pos first opens)) (omega arith) in
            let (s₃, h₃, e₃) =
              tail.runs f rest (o + length first + length second) s₂
                (omega (arith, size, Opens-pos first opens)) (omega arith) in
            (
              s₃,
              omega arith,
              ap
                    (λ b.
                      counted_fields hash element_cost (suc f) (suc n)
                        (at ut enc.depth budget b o s))
                    (simp append_assoc)
                  ∙ counted_step f n ut enc.depth o s (first ++ (second ++ (body ++ rest)))
                      (omega arith) e₁ e₂ e₃
                  ∙ ap
                      (λ t. ok (
                        field (norm k) (norm x) (norm_fields fs),
                        at tail.table enc'.depth budget rest t s₃,
                      ))
                      (omega (arith, size)),
            )

    -- One round of the loop that looks for the terminator.
    pub endless_field :
        Run hash budget
          (endless_fields hash element_cost)
          2
          (body ++ (3 ∷ []))
          (norm_fields fs)
          mid₂
          enc'
          item.table
          d
        → Run hash budget
            (endless_fields hash element_cost)
            2
            ((first ++ (second ++ body)) ++ (3 ∷ []))
            (field (norm k) (norm x) (norm_fields fs))
            enc
            enc'
            ut
            (2 * element_cost + c₁ + c₂ + d)
    endless_field tail = record { table = tail.table; sync = tail.sync; runs = both }
      where
        both :
            (f : ℕ) (rest : Bytes) (o s : ℕ)
            → 2 * length ((first ++ (second ++ body)) ++ (3 ∷ [])) + 2 ≤ f
            → s + (2 * element_cost + c₁ + c₂ + d) ≤ budget
            → (s' : ℕ) × (s' ≤ s + (2 * element_cost + c₁ + c₂ + d))
              × (endless_fields hash element_cost f
                    (at ut enc.depth budget (((first ++ (second ++ body)) ++ (3 ∷ [])) ++ rest) o s)
                  ≡ ok (
                    field (norm k) (norm x) (norm_fields fs),
                    at tail.table enc'.depth budget rest
                        (o + length ((first ++ (second ++ body)) ++ (3 ∷ [])))
                        s',
                  ))
        both zero rest o s enough room = absurd (omega arith)
        both (suc f) rest o s enough room =
            let (s₁, h₁, e₁) =
              key.runs f (second ++ ((body ++ (3 ∷ [])) ++ rest)) o (s + 2 * element_cost)
                (omega (arith, lengths (3 ∷ []))) (omega arith) in
            let (s₂, h₂, e₂) =
              item.runs f ((body ++ (3 ∷ [])) ++ rest) (o + length first) s₁
                (omega (arith, lengths (3 ∷ []), Opens-pos first opens)) (omega arith) in
            let (s₃, h₃, e₃) =
              tail.runs f rest (o + length first + length second) s₂
                (omega (arith, lengths (3 ∷ []), Opens-pos first opens)) (omega arith) in
            (
              s₃,
              omega arith,
              ap (λ b. endless_fields hash element_cost (suc f) (at ut enc.depth budget b o s))
                    (regroup (3 ∷ []) rest)
                  ∙ endless_step f ut enc.depth o s first (second ++ ((body ++ (3 ∷ [])) ++ rest))
                      opens (omega arith) e₁ e₂ e₃
                  ∙ ap
                      (λ t. ok (
                        field (norm k) (norm x) (norm_fields fs),
                        at tail.table enc'.depth budget rest t s₃,
                      ))
                      (omega (arith, lengths (3 ∷ []))),
            )
