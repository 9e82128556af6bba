-- ===== src/Core/Takeover/Refusal.antt =====
-- When a claim is refused.
use pyatv_rs.Prelude.{
  All, ◌≡◌, refl, sym, ap, ◌∙◌, ◌⊎◌, ℕ, true, none, some, List, [], ◌∷◌, ◌++◌, append_assoc,
  append-nil, arith, Bool-cases, Option-cases, inl, inr, subst,
}
use pyatv_rs.Core.Relayer.{Protocol}
use pyatv_rs.Core.Takeover.{
  Interface, Store, Registry, Claimed, guard, refused, put, entry, claim_all, claim,
}
use pyatv_rs.Core.Takeover.Rollback.{
  among, among-append, IsTaken, one_more, not_taken, nothing-IsTaken,
}

-- The relayer serves one of the interfaces.
abbrev pub Serves : Registry → ℕ → List Interface → Type 0
Serves registry id [] = ⊥
Serves registry id (i ∷ interfaces) = (entry registry i ≡ some id) ⊎ Serves registry id interfaces

-- Nobody held a relayer of these interfaces.
abbrev pub AreFree : Registry → Store → List Interface → Type 0
AreFree registry before interfaces =
    All (λ i. (id : ℕ) → entry registry i ≡ some id → before id ≡ none) interfaces

-- What a refusal is over: the first named interface whose relayer was not free when its turn came.
-- The holder that the refusal names held the relayer before the claim, or it is the claiming protocol
-- itself, which took the relayer for an interface named earlier.
pub record IsInTheWay (registry : Registry) (p : Protocol) (before : Store)
    (interfaces : List Interface) (i : Interface) (holder : Protocol) : Type 0 where
  pub earlier : List Interface
  pub later : List Interface
  pub parts : interfaces ≡ earlier ++ i ∷ later
  pub free : AreFree registry before earlier
  pub id : ℕ
  pub filed : entry registry i ≡ some id
  pub held :
      (before id ≡ some holder) ⊎ ((before id ≡ none) × (holder ≡ p) × Serves registry id earlier)

-- A claim that succeeds met none but free relayers; one that is refused met one that was not.
abbrev pub IsBlocked : Registry → Protocol → Store → List Interface → Store × Claimed → Type 0
IsBlocked registry p before interfaces (store, guard taken) = AreFree registry before interfaces
IsBlocked registry p before interfaces (store, refused i holder) =
    IsInTheWay registry p before interfaces i holder

some_protocol : (p q : Protocol) → some p ≡ some q → p ≡ q
some_protocol p q h = cc

some_relayer : (a b : ℕ) → some a ≡ some b → a ≡ b
some_relayer a b h = cc

Serves-append :
    (registry : Registry) (id : ℕ) (i : Interface) (earlier : List Interface)
    → Serves registry id earlier
    → Serves registry id (earlier ++ i ∷ [])
Serves-append registry id i [] h = elim h [ ]
Serves-append registry id i (j ∷ earlier) (inl h) = inl h
Serves-append registry id i (j ∷ earlier) (inr h) = inr (Serves-append registry id i earlier h)

Serves-last :
    (registry : Registry) (id : ℕ) (i : Interface) (earlier : List Interface)
    → entry registry i ≡ some id
    → Serves registry id (earlier ++ i ∷ [])
Serves-last registry id i [] h = inl h
Serves-last registry id i (j ∷ earlier) h = inr (Serves-last registry id i earlier h)

AreFree-append :
    (registry : Registry) (before : Store) (i : Interface) (earlier : List Interface)
    → AreFree registry before earlier
    → ((id : ℕ) → entry registry i ≡ some id → before id ≡ none)
    → AreFree registry before (earlier ++ i ∷ [])
AreFree-append registry before i [] free h = (h, tt)
AreFree-append registry before i (j ∷ earlier) (f, free) h =
    (f, AreFree-append registry before i earlier free h)

-- What holds in the loop: besides, what was taken serves an interface that was named.
record HasTaken (registry : Registry) (p : Protocol) (before : Store) (earlier : List Interface)
    (taken : List ℕ) (store : Store) : Type 0 where
  inv : IsTaken p before taken store
  named : (id : ℕ) → among taken id ≡ true → Serves registry id earlier
  free : AreFree registry before earlier

in_the_way :
    (registry : Registry) (p holder : Protocol) (before : Store) (earlier : List Interface)
    (taken : List ℕ) (store : Store) (id : ℕ)
    → HasTaken registry p before earlier taken store
    → store id ≡ some holder
    → (before id ≡ some holder) ⊎ ((before id ≡ none) × (holder ≡ p) × Serves registry id earlier)
in_the_way registry p holder before earlier taken store id has held =
    elim (Bool-cases (among taken id)) [
      | inl h ↦ inr (
        has.inv.was_free id h,
        some_protocol holder p (sym held ∙ has.inv.held id h),
        has.named id h,
      )
      | inr h ↦ inl (sym (has.inv.untouched id h) ∙ held)
    ]

passed_over :
    (registry : Registry) (p : Protocol) (before : Store) (i : Interface) (earlier : List Interface)
    (taken : List ℕ) (store : Store)
    → entry registry i ≡ none
    → HasTaken registry p before earlier taken store
    → HasTaken registry p before (earlier ++ i ∷ []) taken store
passed_over registry p before i earlier taken store e has = record {
  inv = has.inv;
  named = λ id h. Serves-append registry id i earlier (has.named id h);
  free = AreFree-append registry before i earlier has.free (λ id h. absurd (cc (sym e ∙ h)));
}

was_named :
    (registry : Registry) (i : Interface) (earlier : List Interface) (taken : List ℕ) (id k : ℕ)
    → entry registry i ≡ some id
    → ((k : ℕ) → among taken k ≡ true → Serves registry k earlier)
    → among (taken ++ id ∷ []) k ≡ true
    → Serves registry k (earlier ++ i ∷ [])
was_named registry i earlier taken id k e named h = elim (Bool-cases (among taken k)) [
  | inl b ↦ Serves-append registry k i earlier (named k b)
  | inr b ↦
      let here : k ≡ id = ground (arith, h, b, among-append taken id k) in
      Serves-last registry k i earlier (e ∙ ap some (sym here))
]

took :
    (registry : Registry) (p : Protocol) (before : Store) (i : Interface) (earlier : List Interface)
    (taken : List ℕ) (store : Store) (id : ℕ)
    → entry registry i ≡ some id
    → store id ≡ none
    → HasTaken registry p before earlier taken store
    → HasTaken registry p before (earlier ++ i ∷ []) (taken ++ id ∷ []) (put id (some p) store)
took registry p before i earlier taken store id e f has = record {
  inv = one_more p before taken store id has.inv f;
  named = λ k h. was_named registry i earlier taken id k e has.named h;
  free = AreFree-append registry before i earlier has.free (λ k h.
      subst (λ k. before k ≡ none) (some_relayer id k (sym e ∙ h))
        (not_taken p before taken store id has.inv f));
}

claim_all-IsBlocked :
    (registry : Registry) (p : Protocol) (before : Store) (interfaces earlier all : List Interface)
    (taken : List ℕ) (store : Store)
    → all ≡ earlier ++ interfaces
    → HasTaken registry p before earlier taken store
    → IsBlocked registry p before all (claim_all registry p interfaces taken store)
unfolding claim_all
claim_all-IsBlocked registry p before [] earlier all taken store parts has =
    subst (AreFree registry before) (sym (parts ∙ append-nil earlier)) has.free
claim_all-IsBlocked registry p before (i ∷ interfaces) earlier all taken store parts has =
    let next : all ≡ (earlier ++ i ∷ []) ++ interfaces =
      parts ∙ sym (append_assoc earlier (i ∷ []) interfaces) in
    elim (Option-cases (entry registry i)) [
      | inr e ↦
          rw (e, claim_all)
            (claim_all-IsBlocked registry p before interfaces (earlier ++ i ∷ []) all taken store
              next (passed_over registry p before i earlier taken store e has))
      | inl (id, e) ↦ elim (Option-cases (store id)) [
        | inl (holder, f) ↦
            rw (e, f, claim_all)
              (record {
                earlier = earlier;
                later = interfaces;
                parts = parts;
                free = has.free;
                id = id;
                filed = e;
                held = in_the_way registry p holder before earlier taken store id has f;
              })
        | inr f ↦
            rw (e, f, claim_all)
              (claim_all-IsBlocked registry p before interfaces (earlier ++ i ∷ []) all
                (taken ++ id ∷ []) (put id (some p) store) next
                (took registry p before i earlier taken store id e f has))
      ]
    ]

-- A claim that succeeds found every named interface's relayer free. A refused one is refused over an
-- interface that has a relayer, all before which were free; the protocol that the refusal names held
-- this relayer before, or it is the claiming protocol, the relayer was free before and the claim had
-- taken it for an interface named earlier.
pub claim-IsBlocked :
    (registry : Registry) (p : Protocol) (interfaces : List Interface) (before : Store)
    → IsBlocked registry p before interfaces (claim registry p interfaces before)
unfolding claim
claim-IsBlocked registry p interfaces before =
    claim_all-IsBlocked registry p before interfaces [] interfaces [] before refl
      (record { inv = nothing-IsTaken p before; named = λ id h. absurd (cc h); free = tt })
