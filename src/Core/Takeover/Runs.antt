-- ===== src/Core/Takeover/Runs.antt =====
-- Claims at concrete registries, and the properties applied there.
use pyatv_rs.Prelude.{◌≡◌, refl, ℕ, none, some, List, [], ◌∷◌, ◌==◌, if◌then◌else◌}
use pyatv_rs.Core.Relayer.{raop, mrp}
use pyatv_rs.Core.Takeover.{
  remote_control, metadata, stream, audio, Store, Registry, guard, refused, rank, put, entry,
  release_all, claim_all, claim,
}
use pyatv_rs.Core.Takeover.Refusal.{IsBlocked, claim-IsBlocked}
use pyatv_rs.Core.Takeover.Rollback.{IsOutcome, IsComplete, claim-IsOutcome}

abbrev registry : Registry
registry = (audio, 1) ∷ (stream, 2) ∷ (remote_control, 3) ∷ []

abbrev all_free : Store
all_free id = none

abbrev stream_held : Store
stream_held id = if id == 2 then some mrp else none

-- An interface that the registry does not have is passed over.
claim_two : (claim registry raop (audio ∷ metadata ∷ stream ∷ []) all_free).1 ≡ guard (1 ∷ 2 ∷ [])
unfolding claim claim_all entry rank put
claim_two = refl

claim_held : (claim registry raop (audio ∷ stream ∷ []) stream_held).1 ≡ refused stream mrp
unfolding claim claim_all entry rank put
claim_held = refl

claim_held_audio : (claim registry raop (audio ∷ stream ∷ []) stream_held).0 1 ≡ none
unfolding claim claim_all entry rank put release_all
claim_held_audio = refl

claim-IsOutcome_example :
    IsOutcome raop stream_held (claim registry raop (audio ∷ stream ∷ []) stream_held)
    × IsComplete registry
        (audio ∷ stream ∷ [])
        []
        (claim registry raop (audio ∷ stream ∷ []) stream_held)
    × ((taken : List ℕ) (after : Store)
        → claim registry raop (audio ∷ stream ∷ []) stream_held ≡ (after, guard taken)
        → (k : ℕ) → release_all taken after k ≡ stream_held k)
claim-IsOutcome_example = claim-IsOutcome registry raop (audio ∷ stream ∷ []) stream_held

-- A relayer that the same claim took is in the way of a second interface on it.
claim_twice : (claim registry raop (audio ∷ audio ∷ []) all_free).1 ≡ refused audio raop
unfolding claim claim_all entry rank put
claim_twice = refl

claim-IsBlocked_example :
    IsBlocked registry raop stream_held
      (audio ∷ stream ∷ [])
      (claim registry raop (audio ∷ stream ∷ []) stream_held)
claim-IsBlocked_example = claim-IsBlocked registry raop (audio ∷ stream ∷ []) stream_held
