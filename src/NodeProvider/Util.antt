-- ===== src/NodeProvider/Util.antt =====
-- The helpers of nodeprovider/util.go that other modules write out or take as parameters: among them the random
-- texts by which the provider of nodeprovider/karpenter.go tells its goroutines apart.
use nomad_ondemand_scaler.Prelude.{
  ℕ, zero, suc, String, Bool, true, false, ◌&&◌, List, [], ◌∷◌, ltb, if◌then◌else◌, str_eq,
  get_or_else, get_elem?,
}
use nomad_ondemand_scaler.Prelude.Bytes.{bytes}

unfoldable pub min : ℕ → ℕ → ℕ
min a b = if ltb a b then a else b

unfoldable pub compare_slices : List String → List String → Bool
compare_slices [] [] = true
compare_slices [] (b ∷ bs) = false
compare_slices (a ∷ as_left) [] = false
compare_slices (a ∷ as_left) (b ∷ bs) = let rest = compare_slices as_left bs in str_eq a b && rest

unfoldable pub letter_runes : List ℕ
unfolding bytes
letter_runes = bytes "abcdefghijklmnopqrstuvwxyzABCDEFGHIJKLMNOPQRSTUVWXYZ"

-- `intn i` is the random number for the i-th place from the end, below the number of letters.
unfoldable pub generate_random_string : (ℕ → ℕ) → ℕ → List ℕ
unfolding letter_runes
generate_random_string intn zero = []
generate_random_string intn (suc n) =
    get_or_else (get_elem? letter_runes (intn n)) 0 ∷ generate_random_string intn n
