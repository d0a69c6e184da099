-- ===== src/Lookup/Tests.antt =====
-- Runs of the lookup, and its theorems at an input.
use flightrec.Prelude.{◌≡◌, refl, List, [], ◌∷◌}
use flightrec.Bisect.{bisect}
use flightrec.Lookup.{
  CachedUnit, find_line, search_unit, lookup_cache, found, not_found, division_by_zero,
}
use flightrec.Lookup.Samples.{line_at, util_unit}
use flightrec.Lookup.Units.{search_unit_single}

abbrev main_unit : CachedUnit
main_unit = record {
  start = 10;
  last = 31;
  line_count = 4;
  lines = line_at 10 ∷ line_at 11 ∷ line_at 13 ∷ line_at 31 ∷ [];
}

abbrev lone_unit : CachedUnit
lone_unit = record { start = 60; last = 60; line_count = 1; lines = line_at 60 ∷ [] }

abbrev cache : List CachedUnit
cache = main_unit ∷ util_unit ∷ []

runs :
    (lookup_cache cache 0 13 ≡ (0, found (line_at 13)))
    × (lookup_cache cache 0 50 ≡ (1, found (line_at 50)))
    × (lookup_cache cache 1 35 ≡ (1, not_found))
    × (lookup_cache (lone_unit ∷ []) 0 60 ≡ (0, division_by_zero))
    × (lookup_cache cache 1 45 ≡ (1, division_by_zero))
unfolding lookup_cache bisect search_unit find_line
runs = (refl, refl, refl, refl, refl)

search_unit_single_example : search_unit lone_unit 60 ≡ division_by_zero
search_unit_single_example = search_unit_single lone_unit (line_at 60) 60 refl refl
