-- ===== src/Core/Takeover/Rollback.antt =====
-- A claim is all or nothing, and its guard gives back what it took.
use pyatv_rs.Prelude.{
  All, ◌≡◌, ◌≢◌, refl, sym, ◌∙◌, ℕ, Bool, true, false, ◌||◌, none, some, List, [], ◌∷◌, ◌++◌, ◌==◌,
  if◌then◌else◌, arith, Bool-cases, Option-cases, inl, inr, subst,
}
use pyatv_rs.Core.Relayer.{Protocol}
use pyatv_rs.Core.Takeover.{
  Interface, Store, Registry, Claimed, guard, refused, put, entry, release_all, claim_all, claim,
}

abbrev pub among : List ℕ → ℕ → Bool
among [] k = false
among (id ∷ ids) k = k == id || among ids k

release_all-among :
    (taken : List ℕ) (store : Store) (k : ℕ)
    → release_all taken store k ≡ (if among taken k then none else store k)
unfolding release_all put
release_all-among [] store k = refl
release_all-among (id ∷ taken) store k =
    ground (arith, release_all-among taken (put id none store) k)

-- What holds in the loop: a claimed relayer was free and has the protocol as its holder, and the
-- others are as they were.
pub record IsTaken (p : Protocol) (before : Store) (taken : List ℕ) (store : Store) : Type 0 where
  pub was_free : (k : ℕ) → among taken k ≡ true → before k ≡ none
  pub held : (k : ℕ) → among taken k ≡ true → store k ≡ some p
  pub untouched : (k : ℕ) → among taken k ≡ false → store k ≡ before k

pub among-append : (ids : List ℕ) (id k : ℕ) → among (ids ++ id ∷ []) k ≡ (k == id || among ids k)
among-append [] id k = refl
among-append (j ∷ ids) id k = ground (arith, among-append ids id k)

restored :
    (p : Protocol) (before : Store) (taken : List ℕ) (store : Store)
    → IsTaken p before taken store
    → (k : ℕ) → release_all taken store k ≡ before k
restored p before taken store inv k = elim (Bool-cases (among taken k)) [
  | inl h ↦ rw (release_all-among taken store k, h) (sym (inv.was_free k h))
  | inr h ↦ rw (release_all-among taken store k, h) (inv.untouched k h)
]

pub nothing-IsTaken : (p : Protocol) (before : Store) → IsTaken p before [] before
nothing-IsTaken p before = record {
  was_free = λ k h. cc;
  held = λ k h. cc;
  untouched = λ k h. refl;
}

pub not_taken :
    (p : Protocol) (before : Store) (taken : List ℕ) (store : Store) (id : ℕ)
    → IsTaken p before taken store
    → store id ≡ none
    → before id ≡ none
not_taken p before taken store id inv free = elim (Bool-cases (among taken id)) [
  | inl h ↦ inv.was_free id h
  | inr h ↦ sym (inv.untouched id h) ∙ free
]

pub one_more :
    (p : Protocol) (before : Store) (taken : List ℕ) (store : Store) (id : ℕ)
    → IsTaken p before taken store
    → store id ≡ none
    → IsTaken p before (taken ++ id ∷ []) (put id (some p) store)
unfolding put
one_more p before taken store id inv free = record {
  was_free = λ k h. ground (
    arith,
    h,
    among-append taken id k,
    inv.was_free k,
    not_taken p before taken store id inv free,
  );
  held = λ k h. ground (arith, h, among-append taken id k, inv.held k);
  untouched = λ k h. ground (arith, h, among-append taken id k, inv.untouched k);
}

-- What a claim leaves behind on either way out.
abbrev pub IsOutcome : Protocol → Store → Store × Claimed → Type 0
IsOutcome p before (store, guard taken) = IsTaken p before taken store
IsOutcome p before (store, refused i holder) = (k : ℕ) → store k ≡ before k

claim_all-IsOutcome :
    (registry : Registry) (p : Protocol) (before : Store) (interfaces : List Interface)
    (taken : List ℕ) (store : Store)
    → IsTaken p before taken store
    → IsOutcome p before (claim_all registry p interfaces taken store)
unfolding claim_all
claim_all-IsOutcome registry p before [] taken store inv = inv
claim_all-IsOutcome registry p before (i ∷ interfaces) taken store inv =
    elim (Option-cases (entry registry i)) [
      | inr e ↦ rw (e, claim_all) (claim_all-IsOutcome registry p before interfaces taken store inv)
      | inl (id, e) ↦ elim (Option-cases (store id)) [
        | inl (holder, f) ↦ rw (e, f, claim_all) (restored p before taken store inv)
        | inr f ↦
            rw (e, f, claim_all)
              (claim_all-IsOutcome registry p before interfaces (taken ++ id ∷ [])
                (put id (some p) store) (one_more p before taken store id inv f))
      ]
    ]

-- What a successful claim holds: everything that was taken before it, and the relayer of each
-- interface it names that the registry has.
abbrev pub IsComplete : Registry → List Interface → List ℕ → Store × Claimed → Type 0
IsComplete registry interfaces taken (store, guard taken') =
    ((k : ℕ) → among taken k ≡ true → among taken' k ≡ true)
    × All (λ i. (id : ℕ) → entry registry i ≡ some id → among taken' id ≡ true) interfaces
IsComplete registry interfaces taken (store, refused i holder) = Unit

none≢some : (a : ℕ) → none ≢ some a
none≢some a = cc

some_injective : (a b : ℕ) → some a ≡ some b → a ≡ b
some_injective a b e = cc

skip :
    (registry : Registry) (i : Interface) (interfaces : List Interface) (taken : List ℕ)
    (result : Store × Claimed)
    → entry registry i ≡ none
    → IsComplete registry interfaces taken result
    → IsComplete registry (i ∷ interfaces) taken result
skip registry i interfaces taken (store, guard taken') e (kept, all) =
    (kept, (λ id f. elim (none≢some id (sym e ∙ f)) [ ], all))
skip registry i interfaces taken (store, refused j holder) e done = tt

take :
    (registry : Registry) (i : Interface) (interfaces : List Interface) (taken : List ℕ) (id : ℕ)
    (result : Store × Claimed)
    → entry registry i ≡ some id
    → IsComplete registry interfaces (taken ++ id ∷ []) result
    → IsComplete registry (i ∷ interfaces) taken result
take registry i interfaces taken id (store, guard taken') e (kept, all) = (
  λ k h. kept k (ground (arith, h, among-append taken id k)),
  (
    λ id' f.
        kept id' (ground (arith, among-append taken id id', some_injective id id' (sym e ∙ f))),
    all,
  ),
)
take registry i interfaces taken id (store, refused j holder) e done = tt

claim_all-IsComplete :
    (registry : Registry) (p : Protocol) (interfaces : List Interface) (taken : List ℕ)
    (store : Store)
    → IsComplete registry interfaces taken (claim_all registry p interfaces taken store)
unfolding claim_all
claim_all-IsComplete registry p [] taken store = (λ k h. h, tt)
claim_all-IsComplete registry p (i ∷ interfaces) taken store =
    elim (Option-cases (entry registry i)) [
      | inr e ↦
          rw (e, claim_all)
            (skip registry i interfaces taken (claim_all registry p interfaces taken store) e
              (claim_all-IsComplete registry p interfaces taken store))
      | inl (id, e) ↦ elim (Option-cases (store id)) [
        | inl (holder, f) ↦ rw (e, f, claim_all) tt
        | inr f ↦
            rw (e, f, claim_all)
              (take registry i interfaces taken id
                (claim_all registry p interfaces (taken ++ id ∷ []) (put id (some p) store)) e
                (claim_all-IsComplete registry p interfaces (taken ++ id ∷ [])
                  (put id (some p) store)))
      ]
    ]

-- A claim that is refused leaves every relayer with the holder it had, whatever was taken first.
-- One that succeeds took only free relayers, among them that of every named interface the registry
-- has, made the protocol the holder of each and left the others alone; releasing its guard gives
-- every relayer back as it was.
pub claim-IsOutcome :
    (registry : Registry) (p : Protocol) (interfaces : List Interface) (before : Store)
    → IsOutcome p before (claim registry p interfaces before)
      × IsComplete registry interfaces [] (claim registry p interfaces before)
      × ((taken : List ℕ) (after : Store)
          → claim registry p interfaces before ≡ (after, guard taken)
          → (k : ℕ) → release_all taken after k ≡ before k)
unfolding claim
claim-IsOutcome registry p interfaces before = (
  claim_all-IsOutcome registry p before interfaces [] before (nothing-IsTaken p before),
  claim_all-IsComplete registry p interfaces [] before,
  λ taken after h. restored p before taken after (
      subst (IsOutcome p before) h
        (claim_all-IsOutcome registry p before interfaces [] before (nothing-IsTaken p before))),
)
