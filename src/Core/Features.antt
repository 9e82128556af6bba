-- ===== src/Core/Features.antt =====
-- crates/pyatv-core/src/features.rs: the feature names in declaration order, and their table.
use pyatv_rs.Prelude.{ℕ, ◌≡◌, refl, some, List, [], ◌∷◌, length, get_elem?}

pub data FeatureName : Type 0 where
  up down left right play play_pause pause stop next previous select menu volume_up : FeatureName
  volume_down home home_hold top_menu suspend wake_up skip_forward skip_backward : FeatureName
  set_position set_shuffle set_repeat channel_up channel_down title artist album genre : FeatureName
  total_time position shuffle repeat series_name season_number episode_number : FeatureName
  content_identifier itunes_store_identifier app_list launch_app account_list : FeatureName
  switch_account artwork app push_updates play_url stream_file power_state screensaver : FeatureName
  turn_on turn_off volume set_volume output_devices add_output_devices : FeatureName
  remove_output_devices set_output_devices text_focus_state text_get text_clear : FeatureName
  text_append text_set swipe touch_action click guide control_center : FeatureName

-- The position in the declaration, by which the derived order and equality compare.
unfoldable pub ordinal : FeatureName → ℕ
ordinal up = 0
ordinal down = 1
ordinal left = 2
ordinal right = 3
ordinal play = 4
ordinal play_pause = 5
ordinal pause = 6
ordinal stop = 7
ordinal next = 8
ordinal previous = 9
ordinal select = 10
ordinal menu = 11
ordinal volume_up = 12
ordinal volume_down = 13
ordinal home = 14
ordinal home_hold = 15
ordinal top_menu = 16
ordinal suspend = 17
ordinal wake_up = 18
ordinal skip_forward = 19
ordinal skip_backward = 20
ordinal set_position = 21
ordinal set_shuffle = 22
ordinal set_repeat = 23
ordinal channel_up = 24
ordinal channel_down = 25
ordinal title = 26
ordinal artist = 27
ordinal album = 28
ordinal genre = 29
ordinal total_time = 30
ordinal position = 31
ordinal shuffle = 32
ordinal repeat = 33
ordinal series_name = 34
ordinal season_number = 35
ordinal episode_number = 36
ordinal content_identifier = 37
ordinal itunes_store_identifier = 38
ordinal app_list = 39
ordinal launch_app = 40
ordinal account_list = 41
ordinal switch_account = 42
ordinal artwork = 43
ordinal app = 44
ordinal push_updates = 45
ordinal play_url = 46
ordinal stream_file = 47
ordinal power_state = 48
ordinal screensaver = 49
ordinal turn_on = 50
ordinal turn_off = 51
ordinal volume = 52
ordinal set_volume = 53
ordinal output_devices = 54
ordinal add_output_devices = 55
ordinal remove_output_devices = 56
ordinal set_output_devices = 57
ordinal text_focus_state = 58
ordinal text_get = 59
ordinal text_clear = 60
ordinal text_append = 61
ordinal text_set = 62
ordinal swipe = 63
ordinal touch_action = 64
ordinal click = 65
ordinal guide = 66
ordinal control_center = 67

abbrev pub count : ℕ
count = 68

unfoldable pub all : List FeatureName
all =
    up ∷ down ∷ left ∷ right ∷ play ∷ play_pause ∷ pause ∷ stop ∷ next ∷ previous ∷ select ∷ menu
    ∷ volume_up ∷ volume_down ∷ home ∷ home_hold ∷ top_menu ∷ suspend ∷ wake_up ∷ skip_forward
    ∷ skip_backward ∷ set_position ∷ set_shuffle ∷ set_repeat ∷ channel_up ∷ channel_down ∷ title
    ∷ artist ∷ album ∷ genre ∷ total_time ∷ position ∷ shuffle ∷ repeat ∷ series_name
    ∷ season_number ∷ episode_number ∷ content_identifier ∷ itunes_store_identifier ∷ app_list
    ∷ launch_app ∷ account_list ∷ switch_account ∷ artwork ∷ app ∷ push_updates ∷ play_url
    ∷ stream_file ∷ power_state ∷ screensaver ∷ turn_on ∷ turn_off ∷ volume ∷ set_volume
    ∷ output_devices ∷ add_output_devices ∷ remove_output_devices ∷ set_output_devices
    ∷ text_focus_state ∷ text_get ∷ text_clear ∷ text_append ∷ text_set ∷ swipe ∷ touch_action
    ∷ click ∷ guide ∷ control_center ∷ []

-- Every feature name stands in `ALL` at its own position in the declaration, so the table skips
-- and reorders nothing.
pub get_elem?-all : (name : FeatureName) → get_elem? all (ordinal name) ≡ some name
unfolding all ordinal
get_elem?-all up = refl
get_elem?-all _ = refl

-- `ALL` has no entry more than there are names.
pub length-all : length all ≡ count
unfolding all
length-all = refl
