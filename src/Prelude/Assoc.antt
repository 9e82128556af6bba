-- ===== src/Prelude/Assoc.antt =====
-- Maps with numbers for keys, as association lists: the standard library's `HashMap`.
use Prim.Native.Nat.{ℕ, suc}
use mathlib.Core.Path.{◌≡◌, refl}
use mathlib.Core.Option.{Option, none, some}
use mathlib.Core.List.{List, [], ◌∷◌}
use native.Mathlib.Omega.{arith}
use pyatv_rs.Prelude.Tests.{◌==◌, if◌then◌else◌, ==→eq}
use pyatv_rs.Prelude.Lists.{length}

module _ {ℓ} {A : Type ℓ} where
  unfoldable pub find_key : ℕ → List (ℕ × A) → Option A
  find_key k [] = none
  find_key k ((j, a) ∷ m) = if j == k then some a else find_key k m

  unfoldable pub insert_key : ℕ → A → List (ℕ × A) → List (ℕ × A)
  insert_key k a [] = (k, a) ∷ []
  insert_key k a ((j, b) ∷ m) = if j == k then (j, a) ∷ m else (j, b) ∷ insert_key k a m

  unfoldable pub remove_key : ℕ → List (ℕ × A) → List (ℕ × A)
  remove_key k [] = []
  remove_key k ((j, b) ∷ m) = let rest = remove_key k m in if j == k then rest else (j, b) ∷ rest

  -- No key stands twice.
  abbrev pub HasDistinctKeys : List (ℕ × A) → Type ℓ
  HasDistinctKeys [] = Unit
  HasDistinctKeys ((k, a) ∷ m) = (find_key k m ≡ none) × HasDistinctKeys m

  pub find_key-insert_key :
      (k j : ℕ) (a : A) (m : List (ℕ × A))
      → find_key j (insert_key k a m) ≡ (if k == j then some a else find_key j m)
  unfolding find_key insert_key
  find_key-insert_key k j a [] = refl
  find_key-insert_key k j a ((i, b) ∷ m) = ground (arith, find_key-insert_key k j a m)

  pub find_key-remove_key :
      (k j : ℕ) (m : List (ℕ × A))
      → find_key j (remove_key k m) ≡ (if k == j then none else find_key j m)
  unfolding find_key remove_key
  find_key-remove_key k j [] = ground arith
  find_key-remove_key k j ((i, b) ∷ m) = ground (arith, find_key-remove_key k j m)

  pub length-insert_key :
      (k : ℕ) (a : A) (m : List (ℕ × A))
      → find_key k m ≡ none
      → length (insert_key k a m) ≡ suc (length m)
  unfolding find_key insert_key
  length-insert_key k a [] h = refl
  length-insert_key k a ((i, b) ∷ m) h = ground (arith, length-insert_key k a m)

  pub remove_key_absent : (k : ℕ) (m : List (ℕ × A)) → find_key k m ≡ none → remove_key k m ≡ m
  unfolding find_key remove_key
  remove_key_absent k [] h = refl
  remove_key_absent k ((i, b) ∷ m) h = ground (arith, remove_key_absent k m)

  pub length-remove_key :
      (k : ℕ) (a : A) (m : List (ℕ × A))
      → HasDistinctKeys m
      → find_key k m ≡ some a
      → suc (length (remove_key k m)) ≡ length m
  unfolding find_key remove_key
  length-remove_key k a [] d h = cc
  length-remove_key k a ((i, b) ∷ m) d h =
      ground (arith, length-remove_key k a m, remove_key_absent k m, ==→eq i k)

  pub remove_key-HasDistinctKeys :
      (k : ℕ) (m : List (ℕ × A)) → HasDistinctKeys m → HasDistinctKeys (remove_key k m)
  unfolding remove_key
  remove_key-HasDistinctKeys k [] d = tt
  remove_key-HasDistinctKeys k ((i, b) ∷ m) d =
      ground (arith, remove_key-HasDistinctKeys k m, find_key-remove_key k i m)

  pub insert_key-HasDistinctKeys :
      (k : ℕ) (a : A) (m : List (ℕ × A)) → HasDistinctKeys m → HasDistinctKeys (insert_key k a m)
  unfolding find_key insert_key
  insert_key-HasDistinctKeys k a [] d = (refl, tt)
  insert_key-HasDistinctKeys k a ((i, b) ∷ m) d =
      ground (arith, insert_key-HasDistinctKeys k a m, find_key-insert_key k i a m)
