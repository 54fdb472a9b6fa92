-- ===== src/Slices.antt =====
-- The helpers of util.go on slices and on texts, a text as its bytes.
pub mod Bounds
use nomad_ondemand_scaler.Prelude.{
  ℕ, ◌-◌, ◌/◌, String, Bool, true, false, Option, none, some, List, [], ◌∷◌, ◌++◌, if◌then◌else◌,
  str_eq, ltb, leb, length, take, drop,
}

unfoldable pub contains_in_slice : List String → String → Bool
contains_in_slice [] element = false
contains_in_slice (item ∷ slice) element =
    if str_eq item element then true else contains_in_slice slice element

unfoldable pub add_if_not_exists : List String → String → List String
unfolding contains_in_slice
add_if_not_exists list elem = if contains_in_slice list elem then list else list ++ elem ∷ []

-- "..."
abbrev pub dots : List ℕ
dots = 46 ∷ 46 ∷ 46 ∷ []

-- `none` is the panic of a slice whose bound is negative. Below 3 the length of a half rounds to 0.
unfoldable pub abbreviate_string : List ℕ → ℕ → Option (List ℕ)
abbreviate_string s max_length =
    if leb (length s) max_length
    then some s
    else if ltb max_length 2
    then none
    else let half_length = (max_length - 3) / 2 in
      some (take half_length s ++ dots ++ drop (length s - half_length) s)
