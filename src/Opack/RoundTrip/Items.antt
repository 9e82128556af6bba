-- ===== src/Opack/RoundTrip/Items.antt =====
-- The elements of an array, read by the loop that counts and by the loop that looks for the
-- terminator.
use pyatv_rs.Prelude.{
  ℕ, zero, suc, ◌+◌, ◌*◌, ◌^◌, ◌≤◌, ◌<◌, ◌≡◌, refl, ap, ◌∙◌, false, List, [], ◌∷◌, ◌++◌, Bytes,
  length, append_assoc, length-append, arith, ◌==◌, ne→==_false,
}
use pyatv_rs.Opack.Value.{Value, Items, nil, cons, ok}
use pyatv_rs.Opack.Objects.{UnpackTable}
use pyatv_rs.Opack.Ser.{Encoder}
use pyatv_rs.Opack.De.{Decoder, peek, skip_terminator, value, counted_items, endless_items}
use pyatv_rs.Opack.Spec.{norm, norm_items}
use pyatv_rs.Opack.Leaf.{at, charge_lem}
use pyatv_rs.Opack.Sync.{InSync}
use pyatv_rs.Opack.RoundTrip.{Run, Opens}

pub peek-Opens :
    (first r : Bytes) (ut : UnpackTable) (depth budget o s : ℕ) (opens : Opens first)
    → peek (at ut depth budget (first ++ r) o s)
      ≡ ok (opens.head, at ut depth budget (first ++ r) o s)
unfolding peek
peek-Opens first r ut depth budget o s opens = rw opens.split

pub Opens-pos : (first : Bytes) → Opens first → 0 < length first
Opens-pos first opens = rw opens.split (omega arith)

pub no_end : (first : Bytes) (opens : Opens first) → (opens.head == 3) ≡ false
no_end first opens = ne→==_false opens.head 3 opens.no_terminator

module _ (hash : List ℕ → ℕ) (element_cost budget : ℕ) (hb : budget < 2 ^ 64) where
  pub counted_nil :
      (enc : Encoder) (ut : UnpackTable)
      → InSync hash enc.table ut
      → Run hash budget (λ f. counted_items hash element_cost f zero) 2 [] nil enc enc ut 0
  counted_nil enc ut sync = record { table = ut; sync = sync; runs = stop }
    where
      stop :
          (f : ℕ) (rest : Bytes) (o s : ℕ)
          → 2 * 0 + 2 ≤ f
          → s + 0 ≤ budget
          → (s' : ℕ) × (s' ≤ s + 0)
            × (counted_items hash element_cost f zero (at ut enc.depth budget rest o s)
                ≡ ok (nil, at ut enc.depth budget rest (o + 0) s'))
      stop zero rest o s enough room = absurd (omega arith)
      stop (suc f) rest o s enough room = (s, omega arith, unfold value in ground arith)

  pub endless_nil :
      (enc : Encoder) (ut : UnpackTable)
      → InSync hash enc.table ut
      → Run hash budget (endless_items hash element_cost) 2 (3 ∷ []) nil enc enc ut 0
  endless_nil enc ut sync = record { table = ut; sync = sync; runs = stop }
    where
      stop :
          (f : ℕ) (rest : Bytes) (o s : ℕ)
          → 2 * 1 + 2 ≤ f
          → s + 0 ≤ budget
          → (s' : ℕ) × (s' ≤ s + 0)
            × (endless_items hash element_cost f (at ut enc.depth budget (3 ∷ rest) o s)
                ≡ ok (nil, at ut enc.depth budget rest (o + 1) s'))
      stop zero rest o s enough room = absurd (omega arith)
      stop (suc f) rest o s enough room =
          (s, omega arith, unfold value peek skip_terminator in refl)

  counted_step :
      (f n : ℕ) (ut : UnpackTable) (depth o s : ℕ) (r : Bytes) {item : Value} {items : Items}
      {d₁ d₂ : Decoder}
      → s + element_cost ≤ budget
      → value hash element_cost f (at ut depth budget r o (s + element_cost)) ≡ ok (item, d₁)
      → counted_items hash element_cost f n d₁ ≡ ok (items, d₂)
      → counted_items hash element_cost (suc f) (suc n) (at ut depth budget r o s)
        ≡ ok (cons item items, d₂)
  unfolding value
  counted_step f n ut depth o s r room e₁ e₂ =
      rw (charge_lem ut depth budget element_cost r o s hb room, e₁, e₂)

  endless_step :
      (f : ℕ) (ut : UnpackTable) (depth o s : ℕ) (first r : Bytes) (opens : Opens first)
      {item : Value} {items : Items} {d₁ d₂ : Decoder}
      → s + element_cost ≤ budget
      → value hash element_cost f (at ut depth budget (first ++ r) o (s + element_cost))
        ≡ ok (item, d₁)
      → endless_items hash element_cost f d₁ ≡ ok (items, d₂)
      → endless_items hash element_cost (suc f) (at ut depth budget (first ++ r) o s)
        ≡ ok (cons item items, d₂)
  unfolding value
  endless_step f ut depth o s first r opens room e₁ e₂ = ground (
    arith,
    peek-Opens first r ut depth budget o s opens,
    no_end first opens,
    charge_lem ut depth budget element_cost (first ++ r) o s hb room,
    e₁,
    e₂,
  )

  module _ (x : Value) (xs : Items) (enc mid enc' : Encoder) (ut : UnpackTable) (first body : Bytes)
      (c d : ℕ) (opens : Opens first)
      (head : Run hash budget (value hash element_cost) 1 first (norm x) enc mid ut c) where
    -- One round of either loop: the charge, the element, then the rest.
    pub counted_cons :
        (n : ℕ)
        → Run hash budget
            (λ f. counted_items hash element_cost f n)
            2
            body
            (norm_items xs)
            mid
            enc'
            head.table
            d
        → Run hash budget
            (λ f. counted_items hash element_cost f (suc n))
            2
            (first ++ body)
            (cons (norm x) (norm_items xs))
            enc
            enc'
            ut
            (element_cost + c + d)
    counted_cons n tail = record { table = tail.table; sync = tail.sync; runs = both }
      where
        both :
            (f : ℕ) (rest : Bytes) (o s : ℕ)
            → 2 * length (first ++ body) + 2 ≤ f
            → s + (element_cost + c + d) ≤ budget
            → (s' : ℕ) × (s' ≤ s + (element_cost + c + d))
              × (counted_items hash element_cost f
                    (suc n)
                    (at ut enc.depth budget ((first ++ body) ++ rest) o s)
                  ≡ ok (
                    cons (norm x) (norm_items xs),
                    at tail.table enc'.depth budget rest (o + length (first ++ body)) s',
                  ))
        both zero rest o s enough room = absurd (omega arith)
        both (suc f) rest o s enough room =
            let (s₁, h₁, e₁) =
              head.runs f (body ++ rest) o (s + element_cost)
                (omega (arith, length-append first body)) (omega arith) in
            let (s₂, h₂, e₂) =
              tail.runs f rest (o + length first) s₁
                (omega (arith, length-append first body, Opens-pos first opens)) (omega arith) in
            (
              s₂,
              omega arith,
              rw (append_assoc first body rest) (
                  counted_step f n ut enc.depth o s (first ++ (body ++ rest)) (omega arith) e₁ e₂
                  ∙ ap
                      (λ k.
                        ok (
                          cons (norm x) (norm_items xs),
                          at tail.table enc'.depth budget rest k s₂,
                        ))
                      (omega (arith, length-append first body))),
            )

    pub endless_cons :
        Run hash budget
          (endless_items hash element_cost)
          2
          (body ++ (3 ∷ []))
          (norm_items xs)
          mid
          enc'
          head.table
          d
        → Run hash budget
            (endless_items hash element_cost)
            2
            ((first ++ body) ++ (3 ∷ []))
            (cons (norm x) (norm_items xs))
            enc
            enc'
            ut
            (element_cost + c + d)
    endless_cons tail = record { table = tail.table; sync = tail.sync; runs = both }
      where
        both :
            (f : ℕ) (rest : Bytes) (o s : ℕ)
            → 2 * length ((first ++ body) ++ (3 ∷ [])) + 2 ≤ f
            → s + (element_cost + c + d) ≤ budget
            → (s' : ℕ) × (s' ≤ s + (element_cost + c + d))
              × (endless_items hash element_cost f
                    (at ut enc.depth budget (((first ++ body) ++ (3 ∷ [])) ++ rest) o s)
                  ≡ ok (
                    cons (norm x) (norm_items xs),
                    at tail.table enc'.depth budget rest
                        (o + length ((first ++ body) ++ (3 ∷ [])))
                        s',
                  ))
        both zero rest o s enough room = absurd (omega arith)
        both (suc f) rest o s enough room =
            let (s₁, h₁, e₁) =
              head.runs f ((body ++ (3 ∷ [])) ++ rest) o (s + element_cost)
                (omega (arith, length-append (first ++ body) (3 ∷ []), length-append first body))
                (omega arith) in
            let (s₂, h₂, e₂) =
              tail.runs f rest (o + length first) s₁
                (omega (
                  arith,
                  length-append (first ++ body) (3 ∷ []),
                  length-append body (3 ∷ []),
                  length-append first body,
                  Opens-pos first opens,
                ))
                (omega arith) in
            (
              s₂,
              omega arith,
              ap (λ b. endless_items hash element_cost (suc f) (at ut enc.depth budget b o s))
                    (ap (λ b. b ++ rest) (append_assoc first body (3 ∷ []))
                      ∙ append_assoc first (body ++ (3 ∷ [])) rest)
                  ∙ endless_step f ut enc.depth o s first ((body ++ (3 ∷ [])) ++ rest) opens
                      (omega arith) e₁ e₂
                  ∙ ap
                      (λ k.
                        ok (
                          cons (norm x) (norm_items xs),
                          at tail.table enc'.depth budget rest k s₂,
                        ))
                      (omega (
                        arith,
                        length-append (first ++ body) (3 ∷ []),
                        length-append body (3 ∷ []),
                        length-append first body,
                      )),
            )
