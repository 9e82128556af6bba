-- ===== src/Raop/Fifo/Refine.antt =====
-- The backlog against its specification: a queue of the last packets, oldest first.
use pyatv_rs.Prelude.{
  ℕ, ◌+◌, ◌≡◌, ◌∙◌, sym, refl, ap, Bool, true, false, Option, none, some, List, [], ◌∷◌, ◌++◌, map,
  length, ltb, ◌==◌, if◌then◌else◌, find_key, HasDistinctKeys, find_key-insert_key,
  find_key-remove_key, length-insert_key, length-remove_key, remove_key-HasDistinctKeys,
  insert_key-HasDistinctKeys, arith, Bool-cases, Option-cases, inl, inr, length-append, ==→eq,
  ==_refl,
}
use pyatv_rs.Raop.Fifo.{PacketFifo, new, contains_key, evict_oldest, evict, store, insert}

-- The specification: the packets that a backlog has, oldest first, and what an insertion does to
-- them.
abbrev pub Queue {ℓ} : Type ℓ → Type ℓ
Queue P = List (ℕ × P)

unfoldable pub or_else {ℓ} : {A : Type ℓ} → Option A → Option A → Option A
or_else (some a) other = some a
or_else none other = other

module _ {ℓ} {P : Type ℓ} where
  unfoldable pub without_oldest : Queue P → Queue P
  without_oldest [] = []
  without_oldest (x ∷ q) = q

  unfoldable pub room : ℕ → Queue P → Queue P
  unfolding without_oldest
  room limit q = if ltb limit (length q + 1) then without_oldest q else q

  unfoldable pub push : ℕ → ℕ → P → Queue P → Bool × Queue P
  unfolding find_key room
  push limit seqno packet q = elim (find_key seqno q) [
    | some old ↦ (false, q)
    | none ↦ if limit == 0 then (false, q) else (true, room limit q ++ (seqno, packet) ∷ [])
  ]

  -- A backlog that stands for a queue: the same packets, the keys in the queue's order, no key twice,
  -- and no more packets than the limit.
  pub record Implements (q : Queue P) (f : PacketFifo P) : Type ℓ where
    pub keys : f.order ≡ map (λ p. p.0) q
    pub size : length f.items ≡ length q
    pub packets : (k : ℕ) → find_key k f.items ≡ find_key k q
    pub distinct : HasDistinctKeys q
    pub distinct_items : HasDistinctKeys f.items

  pub new-Implements : (limit : ℕ) → Implements [] (new limit)
  unfolding new find_key
  new-Implements limit = record {
    keys = refl;
    size = refl;
    packets = λ k. refl;
    distinct = tt;
    distinct_items = tt;
  }

  found_first : (k : ℕ) (p : P) (q : Queue P) → find_key k ((k, p) ∷ q) ≡ some p
  unfolding find_key
  found_first k p q = rw (==_refl k) refl

  removed_first :
      (k j : ℕ) (p : P) (q : Queue P) (items : List (ℕ × P))
      → find_key j items ≡ find_key j ((k, p) ∷ q)
      → find_key k q ≡ none
      → (if k == j then none else find_key j items) ≡ find_key j q
  unfolding find_key
  removed_first k j p q items h n = ground (arith, ==→eq k j)

  evict_oldest-Implements :
      (q : Queue P) (f : PacketFifo P)
      → Implements q f
      → Implements (without_oldest q) (evict_oldest f)
  unfolding without_oldest evict_oldest
  evict_oldest-Implements [] f i = rw (i.keys, evict_oldest) i
  evict_oldest-Implements ((k, p) ∷ q) f i =
      rw (i.keys, evict_oldest)
        (record {
          keys = refl;
          size = omega (
            arith,
            i.size,
            length-remove_key k p f.items i.distinct_items (i.packets k ∙ found_first k p q),
          );
          packets = λ j.
              find_key-remove_key k j f.items
              ∙ removed_first k j p q f.items (i.packets j) i.distinct.0;
          distinct = i.distinct.1;
          distinct_items = remove_key-HasDistinctKeys k f.items i.distinct_items;
        })

  find_key-append_one :
      (k j : ℕ) (p : P) (q : Queue P)
      → find_key j (q ++ (k, p) ∷ []) ≡ or_else (find_key j q) (if k == j then some p else none)
  unfolding find_key or_else
  find_key-append_one k j p [] = refl
  find_key-append_one k j p ((i, x) ∷ q) = ground (arith, find_key-append_one k j p q)

  append_one-HasDistinctKeys :
      (k : ℕ) (p : P) (q : Queue P)
      → find_key k q ≡ none
      → HasDistinctKeys q
      → HasDistinctKeys (q ++ (k, p) ∷ [])
  unfolding find_key or_else
  append_one-HasDistinctKeys k p [] h d = (refl, tt)
  append_one-HasDistinctKeys k p ((i, x) ∷ q) h d =
      ground (arith, append_one-HasDistinctKeys k p q, find_key-append_one k i p q)

  map-append_one :
      (k : ℕ) (p : P) (q : Queue P) → map (λ z. z.0) (q ++ (k, p) ∷ []) ≡ map (λ z. z.0) q ++ k ∷ []
  map-append_one k p [] = refl
  map-append_one k p ((i, x) ∷ q) = ap (λ l. i ∷ l) (map-append_one k p q)

  stored :
      (k j : ℕ) (p : P) (q : Queue P) (items : List (ℕ × P))
      → find_key j items ≡ find_key j q
      → find_key k q ≡ none
      → (if k == j then some p else find_key j items)
        ≡ or_else (find_key j q) (if k == j then some p else none)
  unfolding or_else
  stored k j p q items h n = ground (arith, ==→eq k j)

  store-Implements :
      (q : Queue P) (f : PacketFifo P) (k : ℕ) (p : P)
      → Implements q f
      → find_key k q ≡ none
      → Implements (q ++ (k, p) ∷ []) (store k p f)
  unfolding store
  store-Implements q f k p i h = record {
    keys = ap (λ l. l ++ k ∷ []) i.keys ∙ sym (map-append_one k p q);
    size = omega (
      arith,
      length-insert_key k p f.items (i.packets k ∙ h),
      i.size,
      length-append q ((k, p) ∷ []),
    );
    packets = λ j.
        find_key-insert_key k j p f.items
        ∙ stored k j p q f.items (i.packets j) h
        ∙ sym (find_key-append_one k j p q);
    distinct = append_one-HasDistinctKeys k p q h i.distinct;
    distinct_items = insert_key-HasDistinctKeys k p f.items i.distinct_items;
  }

  evict-Implements :
      (q : Queue P) (f : PacketFifo P)
      → Implements q f
      → Implements (room f.upper_limit q) (evict f)
  unfolding evict room
  evict-Implements q f i = elim (Bool-cases (ltb f.upper_limit (length q + 1))) [
    | inl e ↦ rw (i.size, e) (evict_oldest-Implements q f i)
    | inr e ↦ rw (i.size, e) i
  ]

  find_key-room :
      (limit k : ℕ) (q : Queue P) → find_key k q ≡ none → find_key k (room limit q) ≡ none
  unfolding room without_oldest find_key
  find_key-room limit k [] h = ground arith
  find_key-room limit k ((i, x) ∷ q) h = ground arith

  refused :
      (k : ℕ) (p old : P) (f : PacketFifo P)
      → find_key k f.items ≡ some old
      → insert k p f ≡ (false, f)
  unfolding insert contains_key
  refused k p old f h = ground arith

  no_room :
      (k : ℕ) (p : P) (f : PacketFifo P)
      → find_key k f.items ≡ none
      → (f.upper_limit == 0) ≡ true
      → insert k p f ≡ (false, f)
  unfolding insert contains_key
  no_room k p f h z = rw (insert, contains_key, h, z) refl

  accepted :
      (k : ℕ) (p : P) (f : PacketFifo P)
      → find_key k f.items ≡ none
      → (f.upper_limit == 0) ≡ false
      → insert k p f ≡ (true, store k p (evict f))
  unfolding insert contains_key
  accepted k p f h z = rw (insert, contains_key, h, z) refl

  upper_limit-store :
      (k : ℕ) (p : P) (f : PacketFifo P) → (store k p (evict f)).upper_limit ≡ f.upper_limit
  unfolding store evict evict_oldest
  upper_limit-store k p f = ground arith

  -- An implementation's answer and state against the specification's.
  abbrev pub Agree : Bool × PacketFifo P → Bool × Queue P → ℕ → Type ℓ
  Agree (done, f) (wanted, q) limit = (done ≡ wanted) × Implements q f × (f.upper_limit ≡ limit)

  pub insert-Agree :
      (q : Queue P) (f : PacketFifo P) (k : ℕ) (p : P)
      → Implements q f
      → Agree (insert k p f) (push f.upper_limit k p q) f.upper_limit
  unfolding push
  insert-Agree q f k p i = elim (Option-cases (find_key k q)) [
    | inl (old, e) ↦ rw (refused k p old f (i.packets k ∙ e), push, e) (refl, i, refl)
    | inr e ↦ elim (Bool-cases (f.upper_limit == 0)) [
      | inl z ↦ rw (no_room k p f (i.packets k ∙ e) z, push, e, z) (refl, i, refl)
      | inr z ↦
          rw (accepted k p f (i.packets k ∙ e) z, push, e, z)
            (
              refl,
              store-Implements (room f.upper_limit q) (evict f) k p (evict-Implements q f i)
                  (find_key-room f.upper_limit k q e),
              upper_limit-store k p f,
            )
    ]
  ]
