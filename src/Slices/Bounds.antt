-- ===== src/Slices/Bounds.antt =====
-- AbbreviateString of util.go: how long the result is.
use nomad_ondemand_scaler.Prelude.{
  ℕ, ◌≤◌, ◌+◌, ◌-◌, ◌≡◌, refl, some, List, [], ◌∷◌, ◌++◌, length, take, drop, length-append, arith,
  zero, suc, leb, ◌/◌, Bool-cases, inl, inr,
}
use nomad_ondemand_scaler.Slices.{abbreviate_string, dots}

length-take : (n : ℕ) (xs : List ℕ) → n ≤ length xs → length (take n xs) ≡ n
length-take zero xs h = refl
length-take (suc n) [] h = absurd (omega arith)
length-take (suc n) (x ∷ xs) h = omega (arith, length-take n xs)

length-drop : (n : ℕ) (xs : List ℕ) → n ≤ length xs → length (drop n xs) + n ≡ length xs
length-drop zero xs h = omega arith
length-drop (suc n) [] h = absurd (omega arith)
length-drop (suc n) (x ∷ xs) h = omega (arith, length-drop n xs)

halves :
    (s : List ℕ) (n : ℕ)
    → n ≤ length s
    → length (take n s ++ dots ++ drop (length s - n) s) ≡ n + 3 + n
halves s n h = omega (
  arith,
  length-append {0} (take n s ++ dots) (drop (length s - n) s),
  length-append {0} (take n s) dots,
  length-take n s h,
  length-drop (length s - n) s (omega arith),
)

-- For a maximal length of 3 at least, AbbreviateString does not panic, and its result is not longer.
pub abbreviate_string_bound :
    (s : List ℕ) (max_length : ℕ)
    → 3 ≤ max_length
    → (r : List ℕ) × (abbreviate_string s max_length ≡ some r) × (length r ≤ max_length)
unfolding abbreviate_string
abbreviate_string_bound s m h = elim (Bool-cases (leb (length s) m)) [
  | inl short ↦ (s, ground arith, ground arith)
  | inr long ↦
      let n = (m - 3) / 2 in
      (
        take n s ++ dots ++ drop (length s - n) s,
        ground arith,
        ground (arith, halves s n (ground arith)),
      )
]
