-- ===== src/Progress/Examples.antt =====
-- The mapping at concrete counts: 200 files, of which the source at hand holds 50.
use librova.Progress.{
  pos, negsuc, ScopedProgress, map_percent, scaled_progress, scoped_progress, clamp_percent,
  denominator,
}
use librova.Base.{◌≡◌, ◌≤◌, ◌*◌, refl, arith, ◌<◌, ◌^◌}
use librova.Progress.Percent.{map_percent_mono, map_percent_handover, counts_fit}

abbrev second_source : ScopedProgress
second_source = record {
  total_entries = 200;
  processed_entries = 100;
  contribution_entries = 50;
  prior_imported_entries = 90;
  prior_failed_entries = 10;
  prior_skipped_entries = 0;
}

halfway : map_percent second_source (pos 50) ≡ 62
unfolding map_percent
halfway = refl

map_percent_mono_example :
    (map_percent second_source (negsuc 4) ≤ map_percent second_source (pos 70))
    × (map_percent second_source (pos 70) ≤ 100)
map_percent_mono_example = map_percent_mono second_source (negsuc 4) (pos 70) tt

map_percent_handover_example :
    map_percent (scoped_progress 200 100 50 90 10 0) (pos 100)
    ≡ map_percent (scoped_progress 200 150 25 140 10 0) (negsuc 0)
map_percent_handover_example =
    map_percent_handover 200 100 50 25 90 10 0 140 10 0 100 0 (omega arith)

counts_fit_example :
    (scaled_progress second_source (clamp_percent (pos 70)) * 100 < 2 ^ 63)
    × (denominator second_source < 2 ^ 63)
counts_fit_example = counts_fit second_source (pos 70) (omega arith) (omega arith) (omega arith)
