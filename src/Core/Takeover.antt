-- ===== src/Core/Takeover.antt =====
-- crates/pyatv-core/src/facade/takeover.rs: one protocol claims several interfaces at once. A
-- relayer behind the `Claimable` trait is a number, its identity, under which the store keeps the
-- holder of its takeover; two interfaces filed under one `Arc` have one number.
pub mod Rollback
pub mod Refusal
mod Runs
use pyatv_rs.Prelude.{
  ℕ, Bool, true, false, ◌||◌, Option, none, some, List, [], ◌∷◌, ◌++◌, ◌==◌, if◌then◌else◌,
}
use pyatv_rs.Core.Relayer.{Protocol}

pub data Interface : Type 0 where
  remote_control metadata push_updater stream power apps audio keyboard touch_gestures
        user_accounts :
      Interface

unfoldable pub rank : Interface → ℕ
rank remote_control = 0
rank metadata = 1
rank push_updater = 2
rank stream = 3
rank power = 4
rank apps = 5
rank audio = 6
rank keyboard = 7
rank touch_gestures = 8
rank user_accounts = 9

abbrev pub Store : Type 0
Store = ℕ → Option Protocol

abbrev pub Registry : Type 0
Registry = List (Interface × ℕ)

-- What one claim meets: the relayer's own refusal, with the holder and the interface that
-- `TakeoverRegistry::claim` puts before the message.
pub data Claimed : Type 0 where
  guard : List ℕ → Claimed
  refused : Interface → Protocol → Claimed

unfoldable pub put : ℕ → Option Protocol → Store → Store
put id holder store k = if k == id then holder else store k

unfoldable pub entry : Registry → Interface → Option ℕ
unfolding rank
entry [] i = none
entry ((j, id) ∷ registry) i = if rank j == rank i then some id else entry registry i

-- `BTreeMap::insert`: one entry for an interface.
unfoldable pub file_under : Interface → ℕ → Registry → Registry
unfolding rank
file_under i id [] = (i, id) ∷ []
file_under i id ((j, k) ∷ registry) =
    if rank j == rank i then (i, id) ∷ registry else (j, k) ∷ file_under i id registry

-- Dropping a guard releases what it holds, in the order it was taken.
unfoldable pub release_all : List ℕ → Store → Store
unfolding put
release_all [] store = store
release_all (id ∷ taken) store = release_all taken (put id none store)

-- The loop of `claim`, with what the guard holds so far.
unfoldable pub claim_all : Registry → Protocol → List Interface → List ℕ → Store → Store × Claimed
unfolding entry release_all put
claim_all registry p [] taken store = (store, guard taken)
claim_all registry p (i ∷ interfaces) taken store = elim (entry registry i) [
  | none ↦ claim_all registry p interfaces taken store
  | some id ↦ elim (store id) [
    | some holder ↦ (release_all taken store, refused i holder)
    | none ↦ claim_all registry p interfaces (taken ++ id ∷ []) (put id (some p) store)
  ]
]

unfoldable pub claim : Registry → Protocol → List Interface → Store → Store × Claimed
unfolding claim_all
claim registry p interfaces store = claim_all registry p interfaces [] store

-- A registry with one protocol bound to it.
pub record FacadeTakeover : Type 0 where
  pub registry : Registry
  pub protocol : Protocol

unfoldable pub facade_claim : FacadeTakeover → List Interface → Store → Store × Claimed
unfolding claim
facade_claim facade interfaces store = claim facade.registry facade.protocol interfaces store
