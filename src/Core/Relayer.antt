-- ===== src/Core/Relayer.antt =====
-- crates/pyatv-core/src/relayer.rs and the protocols of consts.rs: one implementation chosen among
-- those that the protocols registered. The `RwLock` serialises the operations, so each is a
-- function of the state; an `Arc<T>` is an element of `T`.
pub mod Select
pub mod Register
mod Runs
use pyatv_rs.Prelude.{
  ℕ, zero, suc, Bool, true, false, not, ◌&&◌, ◌||◌, Option, none, some, List, [], ◌∷◌, ◌++◌, ◌==◌,
  if◌then◌else◌, length,
}
use pyatv_rs.Core.Features.{FeatureName, ordinal}
use mathlib.Core.Option

pub data Protocol : Type 0 where
  dmap mrp air_play companion raop : Protocol

unfoldable pub number : Protocol → ℕ
number dmap = 1
number mrp = 2
number air_play = 3
number companion = 4
number raop = 5

unfoldable pub all_protocols : List Protocol
all_protocols = dmap ∷ mrp ∷ air_play ∷ companion ∷ raop ∷ []

unfoldable pub same : Protocol → Protocol → Bool
unfolding number
same p q = number p == number q

unfoldable pub contains : List Protocol → Protocol → Bool
contains [] p = false
contains (q ∷ qs) p = same q p || contains qs p

unfoldable pub declares : List FeatureName → FeatureName → Bool
declares [] name = false
declares (other ∷ names) name = (ordinal other == ordinal name) || declares names name

-- The errors of this file, with the protocol that each message names.
pub data Error : Type 0 where
  not_in_priorities : Protocol → Error
  already_taken_over : Protocol → Error

pub data Result {ℓ} (A : Type ℓ) : Type ℓ where
  ok : A → Result A
  err : Error → Result A

module _ {ℓ} {T : Type ℓ} where
  unfoldable pub find : List (Protocol × T) → Protocol → Option T
  find [] p = none
  find ((q, x) ∷ m) p = if same q p then some x else find m p

  -- `HashMap::insert`: one entry for a key.
  unfoldable pub insert : Protocol → T → List (Protocol × T) → List (Protocol × T)
  insert p x [] = (p, x) ∷ []
  insert p x ((q, y) ∷ m) = if same q p then (p, x) ∷ m else (q, y) ∷ insert p x m

pub record Registration {ℓ} (T : Type ℓ) : Type ℓ where
  pub implementation : T
  pub declared : List FeatureName

pub record Relayer {ℓ} (T : Type ℓ) : Type ℓ where
  pub priorities : List Protocol
  pub instances : List (Protocol × Registration T)
  pub takeover : Option Protocol

unfoldable pub without : Protocol → List Protocol → List Protocol
without p [] = []
without p (q ∷ qs) = let rest = without p qs in if same q p then rest else q ∷ rest

-- The holder of a takeover first, then the priorities with that protocol left out.
unfoldable pub search_order : List Protocol → Option Protocol → List Protocol
unfolding without
search_order priorities none = priorities
search_order priorities (some p) = p ∷ without p priorities

module _ {ℓ} {T : Type ℓ} where
  unfoldable pub new : List Protocol → Relayer T
  new priorities = record { priorities = priorities; instances = []; takeover = none }

  unfoldable pub register : Protocol → T → List FeatureName → Relayer T → Result (Relayer T)
  unfolding contains insert
  register p instance' declared r =
      if not (contains r.priorities p)
      then err (not_in_priorities p)
      else ok (record r {
        instances =
            insert p (record { implementation = instance'; declared = declared }) r.instances;
      })

  unfoldable pub find_first :
      List (Protocol × Registration T) → List Protocol → Option (Registration T)
  unfolding find
  find_first m [] = none
  find_first m (p ∷ ps) = elim (find m p) [ some reg ↦ some reg | none ↦ find_first m ps ]

  unfoldable pub main_instance : Relayer T → Option T
  unfolding find_first search_order
  main_instance r =
      Option.map (λ reg. reg.implementation)
        (find_first r.instances (search_order r.priorities r.takeover))

  -- The registrations in search order, of which the first that declares the feature answers.
  unfoldable pub find_declaring :
      List (Protocol × Registration T) → FeatureName → List Protocol → Option (Registration T)
  unfolding find declares
  find_declaring m name [] = none
  find_declaring m name (p ∷ ps) =
      let rest = find_declaring m name ps in
      elim (find m p) [
        | none ↦ rest
        | some reg ↦ if declares reg.declared name then some reg else rest
      ]

  unfoldable pub instance_for : Relayer T → FeatureName → Option T
  unfolding find_declaring search_order
  instance_for r name =
      Option.map (λ reg. reg.implementation)
        (find_declaring r.instances name (search_order r.priorities r.takeover))

  unfoldable pub is_registered : Relayer T → Protocol → Bool
  unfolding find
  is_registered r p = elim (find r.instances p) [ some reg ↦ true | none ↦ false ]

  unfoldable pub registered_among : Relayer T → List Protocol → List Protocol
  unfolding is_registered
  registered_among r [] = []
  registered_among r (p ∷ ps) =
      let rest = registered_among r ps in if is_registered r p then p ∷ rest else rest

  unfoldable pub first_registered : Relayer T → List Protocol → Option Protocol
  unfolding is_registered
  first_registered r [] = none
  first_registered r (p ∷ ps) =
      let rest = first_registered r ps in if is_registered r p then some p else rest

  unfoldable pub protocols : Relayer T → List Protocol
  unfolding registered_among search_order
  protocols r = registered_among r (search_order r.priorities r.takeover)

  unfoldable pub main_protocol : Relayer T → Option Protocol
  unfolding first_registered search_order
  main_protocol r = first_registered r (search_order r.priorities r.takeover)

  unfoldable pub instances_among : Relayer T → List Protocol → List T
  unfolding find
  instances_among r [] = []
  instances_among r (p ∷ ps) =
      let rest = instances_among r ps in
      elim (find r.instances p) [ some reg ↦ reg.implementation ∷ rest | none ↦ rest ]

  unfoldable pub all_instances : Relayer T → List T
  unfolding instances_among search_order
  all_instances r = instances_among r (search_order r.priorities r.takeover)

  unfoldable pub get : Relayer T → Protocol → Option T
  unfolding find
  get r p = Option.map (λ reg. reg.implementation) (find r.instances p)

  unfoldable pub count : Relayer T → ℕ
  count r = length r.instances

  unfoldable pub is_empty : Relayer T → Bool
  is_empty r = elim (r.instances) [ [] ↦ true | _ ∷ _ ↦ false ]

  unfoldable pub take_over : Protocol → Relayer T → Result (Relayer T)
  take_over p r = elim (r.takeover) [
    | some holder ↦ err (already_taken_over holder)
    | none ↦ ok (record r { takeover = some p })
  ]

  unfoldable pub release : Relayer T → Relayer T
  release r = record r { takeover = none }

  unfoldable pub taken_over_by : Relayer T → Option Protocol
  taken_over_by r = r.takeover
