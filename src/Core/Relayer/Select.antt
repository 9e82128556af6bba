-- ===== src/Core/Relayer/Select.antt =====
-- Which implementation is selected.
use pyatv_rs.Prelude.{
  ℕ, ◌+◌, ◌≡◌, ◌≢◌, refl, sym, ◌∙◌, true, false, Option, none, some, List, [], ◌∷◌, ◌++◌,
  if◌then◌else◌, ap, Bool-cases, inl, inr, subst, All, Option-cases,
}
use pyatv_rs.Core.Features.{FeatureName}
use pyatv_rs.Core.Relayer.{
  Protocol, same, find, Registration, Relayer, ok, take_over, err, already_taken_over, release, get,
  is_registered, search_order, find_declaring, declares, instance_for, main_protocol,
  first_registered,
}
use mathlib.Core.Option

-- How often a protocol stands in a list.
abbrev pub occurrences : Protocol → List Protocol → ℕ
occurrences q [] = 0
occurrences q (p ∷ ps) = (if same p q then 1 else 0) + occurrences q ps

-- The first list is the second with some members left out, in the same order.
pub data IsSublist : List Protocol → List Protocol → Type 0 where
  none_left : IsSublist [] []
  left_out : (p : Protocol) {ps qs : List Protocol} → IsSublist ps qs → IsSublist ps (p ∷ qs)
  kept : (p : Protocol) {ps qs : List Protocol} → IsSublist ps qs → IsSublist (p ∷ ps) (p ∷ qs)

-- The holder stands in front, and behind it the priorities in their order: the holder no more, and
-- any other protocol as often as before.
pub record IsHolderFirst (priorities : List Protocol) (holder : Protocol) (order : List Protocol)
    : Type 0 where
  pub rest : List Protocol
  pub parts : order ≡ holder ∷ rest
  pub in_order : IsSublist rest priorities
  pub counted :
      (q : Protocol) → occurrences q rest ≡ (if same holder q then 0 else occurrences q priorities)

none≢some {ℓ} : {A : Type ℓ} (a : A) → none ≢ some a
none≢some a = cc

module _ {ℓ} {T : Type ℓ} where
  -- No registration of these protocols declares the feature.
  abbrev pub NoneDeclares : List (Protocol × Registration T) → FeatureName → List Protocol → Type ℓ
  NoneDeclares m name ps =
      All (λ p. (reg : Registration T) → find m p ≡ some reg → declares reg.declared name ≡ false)
        ps

  none_found :
      (m : List (Protocol × Registration T)) (name : FeatureName) (p : Protocol)
      (ps : List Protocol)
      → find m p ≡ none
      → find_declaring m name (p ∷ ps) ≡ find_declaring m name ps
  unfolding find_declaring
  none_found m name p ps e = rw (e, find_declaring)

  some_found :
      (m : List (Protocol × Registration T)) (name : FeatureName) (p : Protocol)
      (ps : List Protocol) (reg : Registration T)
      → find m p ≡ some reg
      → find_declaring m name (p ∷ ps)
        ≡ (if declares reg.declared name then some reg else find_declaring m name ps)
  unfolding find_declaring
  some_found m name p ps reg e = rw (e, find_declaring)

  -- The first protocol in a list that declared a feature, with its registration.
  pub record IsFirst (m : List (Protocol × Registration T)) (name : FeatureName)
      (ps : List Protocol) (reg : Registration T) : Type ℓ where
    pub before : List Protocol
    pub protocol : Protocol
    pub after : List Protocol
    pub parts : ps ≡ before ++ protocol ∷ after
    pub found : find m protocol ≡ some reg
    pub declares_it : declares reg.declared name ≡ true
    pub none_before : NoneDeclares m name before

  later :
      (m : List (Protocol × Registration T)) (name : FeatureName) (p : Protocol)
      (ps : List Protocol) (reg : Registration T)
      → ((r : Registration T) → find m p ≡ some r → declares r.declared name ≡ false)
      → IsFirst m name ps reg
      → IsFirst m name (p ∷ ps) reg
  later m name p ps reg h first = record {
    before = p ∷ first.before;
    protocol = first.protocol;
    after = first.after;
    parts = ap (λ l. p ∷ l) first.parts;
    found = first.found;
    declares_it = first.declares_it;
    none_before = (h, first.none_before);
  }

  some_injective : (r r' : Registration T) → some r ≡ some r' → r ≡ r'
  some_injective r r' e = cc

  skipped :
      (r r' : Registration T) (name : FeatureName)
      → some r ≡ some r'
      → declares r.declared name ≡ false
      → declares r'.declared name ≡ false
  skipped r r' name e d = cc

  answer :
      (r reg : Registration T) (name : FeatureName) (p : Protocol) (ps : List Protocol)
      (m : List (Protocol × Registration T))
      → find m p ≡ some r
      → declares r.declared name ≡ true
      → find_declaring m name (p ∷ ps) ≡ some reg
      → r ≡ reg
  answer r reg name p ps m e d h =
      some_injective r reg (sym (some_found m name p ps r e ∙ rw d) ∙ h)

  here :
      (m : List (Protocol × Registration T)) (name : FeatureName) (p : Protocol)
      (ps : List Protocol) (reg : Registration T)
      → find m p ≡ some reg
      → declares reg.declared name ≡ true
      → IsFirst m name (p ∷ ps) reg
  here m name p ps reg e d = record {
    before = [];
    protocol = p;
    after = ps;
    parts = refl;
    found = e;
    declares_it = d;
    none_before = tt;
  }

  pub find_declaring-IsFirst :
      (m : List (Protocol × Registration T)) (name : FeatureName) (ps : List Protocol)
      (reg : Registration T)
      → find_declaring m name ps ≡ some reg
      → IsFirst m name ps reg
  unfolding find_declaring
  find_declaring-IsFirst m name [] reg h = cc
  find_declaring-IsFirst m name (p ∷ ps) reg h = elim (Option-cases (find m p)) [
    | inr e ↦
        later m name p ps reg (λ r' f. cc)
          (find_declaring-IsFirst m name ps reg (sym (none_found m name p ps e) ∙ h))
    | inl (r, e) ↦ elim (Bool-cases (declares r.declared name)) [
      | inl d ↦
          here m name p ps reg (subst (λ z. find m p ≡ some z) (answer r reg name p ps m e d h) e)
            (subst (λ z. declares z.declared name ≡ true) (answer r reg name p ps m e d h) d)
      | inr d ↦
          later m name p ps reg (λ r' f. skipped r r' name (sym e ∙ f) d)
            (find_declaring-IsFirst m name ps reg (sym (some_found m name p ps r e ∙ rw d) ∙ h))
    ]
  ]

  none_declares :
      (m : List (Protocol × Registration T)) (name : FeatureName) (ps : List Protocol)
      → find_declaring m name ps ≡ none
      → NoneDeclares m name ps
  none_declares m name [] h = tt
  none_declares m name (p ∷ ps) h = elim (Option-cases (find m p)) [
    | inr e ↦ (λ r' f. cc, none_declares m name ps (sym (none_found m name p ps e) ∙ h))
    | inl (r, e) ↦ elim (Bool-cases (declares r.declared name)) [
      | inl d ↦ elim (none≢some r (sym h ∙ some_found m name p ps r e ∙ rw d)) [ ]
      | inr d ↦ (
        λ r' f. skipped r r' name (sym e ∙ f) d,
        none_declares m name ps (sym (some_found m name p ps r e ∙ rw d) ∙ h),
      )
    ]
  ]

  map-some :
      (o : Option (Registration T)) (x : T)
      → Option.map (λ reg. reg.implementation) o ≡ some x
      → (reg : Registration T) × (o ≡ some reg) × (reg.implementation ≡ x)
  map-some none x h = elim (none≢some x h) [ ]
  map-some (some reg) x h = (reg, refl, cc)

  map-none :
      (o : Option (Registration T)) → Option.map (λ reg. reg.implementation) o ≡ none → o ≡ none
  map-none none h = refl
  map-none (some reg) h = elim (none≢some reg.implementation (sym h)) [ ]

  -- The implementation selected for a feature is that of the first protocol in search order whose
  -- registration declared the feature, and none is selected only when no registration of a protocol
  -- in search order declared it.
  pub instance_for-IsFirst :
      (r : Relayer T) (name : FeatureName)
      → ((x : T)
          → instance_for r name ≡ some x
          → (reg : Registration T) × IsFirst r.instances name
              (search_order r.priorities r.takeover)
              reg
            × (reg.implementation ≡ x))
        × (instance_for r name ≡ none
            → NoneDeclares r.instances name (search_order r.priorities r.takeover))
  unfolding instance_for
  instance_for-IsFirst r name = (
    λ x h.
        let found =
          map-some (find_declaring r.instances name (search_order r.priorities r.takeover)) x h in
        (
          found.0,
          find_declaring-IsFirst r.instances name (search_order r.priorities r.takeover) found.0
              found.1,
          found.2,
        ),
    λ h.
        none_declares r.instances name (search_order r.priorities r.takeover)
          (map-none (find_declaring r.instances name (search_order r.priorities r.takeover)) h),
  )

  -- A protocol takes a relayer over exactly when nobody holds it. Then a registered protocol is the
  -- main one, whatever the priorities are, its instance is the same as before, and a release gives the
  -- relayer back as it was. When one holds it, the attempt is refused with the holder's name.
  pub release-take_over :
      (r : Relayer T) (p : Protocol)
      → (r.takeover ≡ none
          → (r' : Relayer T) × (take_over p r ≡ ok r')
            × (is_registered r p ≡ true → main_protocol r' ≡ some p)
            × (get r' p ≡ get r p)
            × (release r' ≡ r))
        × ((holder : Protocol)
            → r.takeover ≡ some holder
            → take_over p r ≡ err (already_taken_over holder))
  unfolding take_over main_protocol first_registered search_order get release is_registered
  release-take_over r p = (
    λ h. (
      record r { takeover = some p },
      rw h,
      λ e. rw e,
      refl,
      ap (λ t. record r { takeover = t }) (sym h),
    ),
    λ holder h. rw h,
  )
