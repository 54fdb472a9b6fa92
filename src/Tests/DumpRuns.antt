-- ===== src/Tests/DumpRuns.antt =====
-- A specification whose keys come out of order, for dumppoolspectoyml.go.
use nomad_ondemand_scaler.Prelude.{◌≡◌, ◌≢◌, refl, String, true, [], ◌∷◌, eq_iff, str_eq}
use nomad_ondemand_scaler.Prelude.Int.{negsuc}
use nomad_ondemand_scaler.Prelude.Bytes.{bytes, decimal, codes, codes_lt}
use nomad_ondemand_scaler.Slices.{contains_in_slice, abbreviate_string}
use nomad_ondemand_scaler.Variant.{
  Variant, VariantMap, int_value, bool_value, string_value, slice_value, map_value, no_more,
  one_more, end, entry,
}
use nomad_ondemand_scaler.PoolSpec.Dump.{dump}
use nomad_ondemand_scaler.PoolSpec.Dump.Shuffled.{IsSame, maps, swaps, dump-IsSame}

abbrev inner : VariantMap
inner = entry "y" (int_value (negsuc 11)) (entry "x" (bool_value true) end)

abbrev inner_swapped : VariantMap
inner_swapped = entry "x" (bool_value true) (entry "y" (int_value (negsuc 11)) end)

abbrev outer : VariantMap → Variant
outer m =
    map_value
      (entry "b" (slice_value (one_more (map_value m) no_more)) (entry "a" (string_value "s") end))

dumped : dump (outer inner) [] 0 ("a" ∷ []) ≡ bytes "\n  b: \n    - x: true\n      y: -12\n  a: s"
unfolding dump bytes contains_in_slice codes_lt codes decimal abbreviate_string
dumped = refl

different : ◌≢◌ {A = String} "y" "x"
different h = let equal : str_eq "y" "x" ≡ true = (eq_iff "y" "x").1 h in cc equal

swapped : IsSame (map_value inner) (map_value inner_swapped)
swapped =
    maps inner inner_swapped (swaps "y" "x" (int_value (negsuc 11)) (bool_value true) end different)

dump-IsSame_example :
    dump (map_value inner) (bytes "- ") 1 ("y" ∷ [])
    ≡ dump (map_value inner_swapped) (bytes "- ") 1 ("y" ∷ [])
dump-IsSame_example =
    dump-IsSame (map_value inner) (map_value inner_swapped) (bytes "- ") 1 ("y" ∷ []) swapped
