-- ===== src/Core/Relayer/Register.antt =====
-- Registering, taking over and releasing.
use pyatv_rs.Prelude.{
  ◌≡◌, refl, ◌∙◌, sym, true, false, some, List, [], ◌∷◌, if◌then◌else◌, arith, ap, Bool-cases, inl,
  inr,
}
use pyatv_rs.Core.Features.{FeatureName}
use pyatv_rs.Core.Relayer.{
  Protocol, dmap, mrp, air_play, companion, raop, number, same, contains, find, insert,
  Registration, Relayer, ok, err, not_in_priorities, register, get,
}

pub same_refl : (p : Protocol) → same p p ≡ true
unfolding same number
same_refl dmap = refl
same_refl mrp = refl
same_refl air_play = refl
same_refl companion = refl
same_refl raop = refl

pub same→eq : (p q : Protocol) → same p q ≡ true → p ≡ q
unfolding same number
same→eq p q h = ground arith

module _ {ℓ} {T : Type ℓ} where
  replaced :
      (k p q : Protocol) (x y : T) (m : List (Protocol × T))
      → same k p ≡ true
      → k ≡ p
      → find (insert p x ((k, y) ∷ m)) q ≡ (if same p q then some x else find ((k, y) ∷ m) q)
  unfolding find insert
  replaced k p q x y m h e = elim (Bool-cases (same p q)) [
    | inl g ↦ rw (h, g)
    | inr g ↦ rw (h, ap (λ z. same z q) e, g)
  ]

  kept :
      (p q : Protocol) (x : T) (k : Protocol) (y : T) (m : List (Protocol × T))
      → same k p ≡ false
      → find (insert p x m) q ≡ (if same p q then some x else find m q)
      → find (insert p x ((k, y) ∷ m)) q ≡ (if same p q then some x else find ((k, y) ∷ m) q)
  unfolding find insert
  kept p q x k y m h step = elim (Bool-cases (same p q)) [
    | inl e ↦ rw (h, ap (same k) (sym (same→eq p q e)) ∙ h, step, e)
    | inr e ↦ rw (h, step, e)
  ]

  pub find-insert :
      (p q : Protocol) (x : T) (m : List (Protocol × T))
      → find (insert p x m) q ≡ (if same p q then some x else find m q)
  unfolding find insert
  find-insert p q x [] = refl
  find-insert p q x ((k, y) ∷ m) = elim (Bool-cases (same k p)) [
    | inl h ↦ replaced k p q x y m h (same→eq k p h)
    | inr h ↦ kept p q x k y m h (find-insert p q x m)
  ]

module _ {ℓ} {T : Type ℓ} where
  -- A protocol outside the priority list is refused; any other registration makes that protocol
  -- answer with the new instance, and leaves the other protocols, the priorities and the takeover as
  -- they were.
  pub get-register :
      (p : Protocol) (x : T) (declared : List FeatureName) (r : Relayer T)
      → (contains r.priorities p ≡ false → register p x declared r ≡ err (not_in_priorities p))
        × (contains r.priorities p ≡ true
            → (r' : Relayer T) × (register p x declared r ≡ ok r')
              × ((q : Protocol) → get r' q ≡ (if same p q then some x else get r q))
              × (r'.priorities ≡ r.priorities)
              × (r'.takeover ≡ r.takeover))
  unfolding register get
  get-register p x declared r = (
    λ h. rw h,
    λ h. (
      record r {
        instances = insert p (record { implementation = x; declared = declared }) r.instances;
      },
      rw h,
      λ q. elim (Bool-cases (same p q)) [
        | inl e ↦ rw (
          find-insert {T = Registration T} p q (record { implementation = x; declared = declared })
              r.instances,
          e,
        )
        | inr e ↦ rw (
          find-insert {T = Registration T} p q (record { implementation = x; declared = declared })
              r.instances,
          e,
        )
      ],
      refl,
      refl,
    ),
  )
