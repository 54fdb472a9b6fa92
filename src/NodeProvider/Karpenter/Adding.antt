-- ===== src/NodeProvider/Karpenter/Adding.antt =====
-- The goroutine of `UpdateNode` in nodeprovider/karpenter.go, which asks the plugin for instances until
-- all are there.
use nomad_ondemand_scaler.Prelude.{
  ℕ, ◌-◌, ◌≤◌, ◌≡◌, refl, String, true, some, List, [], ◌∷◌, ◌++◌, any, length, length-append,
  arith, Bool-cases, inl, inr, ◌==◌,
}
use nomad_ondemand_scaler.Prelude.Int.{pos, ◌-ℤ◌}
use nomad_ondemand_scaler.NodeProvider.Karpenter.{Added, add_loop}

-- No answer has more instances than were still asked for.
abbrev pub IsWithin : List Added → ℕ → Type 0
IsWithin [] n = Unit
IsWithin (a ∷ rest) n = (length a.instances ≤ n) × IsWithin rest (n - length a.instances)

less : (n m : ℕ) → m ≤ n → pos n -ℤ pos m ≡ pos (n - m)
unfolding ◌-ℤ◌
less n m h = ground arith

-- Where no answer has more instances than were still asked for, and the context is over after one of
-- them: the loop that adds instances ends, and has not added more than it was to.
pub add_loop_bound :
    (answers : List Added) (n : ℕ)
    → any (λ a. a.canceled) answers ≡ true
    → IsWithin answers n
    → (ids : List String) × (add_loop answers (pos n) ≡ some ids) × (length ids ≤ n)
unfolding add_loop
add_loop_bound [] n h g = absurd (cc h)
add_loop_bound (a ∷ rest) n h g = elim (Bool-cases (n == length a.instances)) [
  | inl e ↦ (a.instances, rw e refl, g.0)
  | inr e ↦ elim (Bool-cases a.canceled) [
    | inl e' ↦ (a.instances, rw (e, e') refl, g.0)
    | inr e' ↦
        let (ids, run, short) = add_loop_bound rest (n - length a.instances) (rw e' at h) g.1 in
        (
          a.instances ++ ids,
          rw (e, e', less n (length a.instances) g.0, run) refl,
          omega (arith, short, g.0, length-append {0} a.instances ids),
        )
  ]
]
