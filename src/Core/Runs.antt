-- ===== src/Core/Runs.antt =====
-- The feature table at one name.
use pyatv_rs.Prelude.{◌≡◌, some, get_elem?}
use pyatv_rs.Core.Features.{ordinal, all, volume, get_elem?-all}

get_elem?-all_example : get_elem? all (ordinal volume) ≡ some volume
get_elem?-all_example = get_elem?-all volume
