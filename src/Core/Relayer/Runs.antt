-- ===== src/Core/Relayer/Runs.antt =====
-- A relayer at work, and the properties applied to it.
use pyatv_rs.Prelude.{◌≡◌, refl, ℕ, true, false, none, some, [], ◌∷◌, if◌then◌else◌}
use pyatv_rs.Core.Features.{ordinal, play, pause, volume}
use pyatv_rs.Core.Relayer.{
  Protocol, mrp, dmap, air_play, same, number, contains, Registration, Relayer, ok, err,
  not_in_priorities, already_taken_over, find, search_order, declares, without, find_declaring,
  find_first, register, take_over, release, get, is_registered, main_protocol, instance_for,
  main_instance,
}
use pyatv_rs.Core.Relayer.Register.{get-register}
use pyatv_rs.Core.Relayer.Select.{IsFirst, NoneDeclares, instance_for-IsFirst, release-take_over}

abbrev sample : Relayer ℕ
sample = record {
  priorities = mrp ∷ dmap ∷ air_play ∷ [];
  instances =
      (dmap, record { implementation = 20; declared = play ∷ pause ∷ [] })
      ∷ (mrp, record { implementation = 10; declared = play ∷ [] })
      ∷ [];
  takeover = none;
}

main_sample : main_instance sample ≡ some 10
unfolding main_instance find_first find same number search_order
main_sample = refl

pause_sample : instance_for sample pause ≡ some 20
unfolding instance_for find_declaring find same number search_order declares ordinal
pause_sample = refl

volume_sample : instance_for sample volume ≡ none
unfolding instance_for find_declaring find same number search_order declares ordinal
volume_sample = refl

main_taken_over : main_instance (record sample { takeover = some dmap }) ≡ some 20
unfolding main_instance find_first find same number search_order without
main_taken_over = refl

get-register_example :
    (contains (sample.priorities) air_play ≡ false
      → register air_play 30 (volume ∷ []) sample ≡ err (not_in_priorities air_play))
    × (contains (sample.priorities) air_play ≡ true
        → (r' : Relayer ℕ) × (register air_play 30 (volume ∷ []) sample ≡ ok r')
          × ((q : Protocol) → get r' q ≡ (if same air_play q then some 30 else get sample q))
          × (r'.priorities ≡ sample.priorities)
          × (r'.takeover ≡ sample.takeover))
get-register_example = get-register air_play 30 (volume ∷ []) sample

instance_for-IsFirst_example :
    ((x : ℕ)
      → instance_for sample pause ≡ some x
      → (reg : Registration ℕ) × IsFirst sample.instances pause
          (search_order sample.priorities sample.takeover)
          reg
        × (reg.implementation ≡ x))
    × (instance_for sample pause ≡ none
        → NoneDeclares sample.instances pause (search_order sample.priorities sample.takeover))
instance_for-IsFirst_example = instance_for-IsFirst sample pause

release-take_over_example :
    (sample.takeover ≡ none
      → (r' : Relayer ℕ) × (take_over dmap sample ≡ ok r')
        × (is_registered sample dmap ≡ true → main_protocol r' ≡ some dmap)
        × (get r' dmap ≡ get sample dmap)
        × (release r' ≡ sample))
    × ((holder : Protocol)
        → sample.takeover ≡ some holder
        → take_over dmap sample ≡ err (already_taken_over holder))
release-take_over_example = release-take_over sample dmap
