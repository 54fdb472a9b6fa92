-- ===== src/Scaling/Threads/Refine.antt =====
-- The goroutines of scalingAction.go are the threads that Evals/System.antt puts beside processEvals.go.
use nomad_ondemand_scaler.Prelude.{ℕ, ◌≡◌, refl, subst, sym, ◌⊎◌, inl, inr, [], ◌∷◌, ◌++◌}
use nomad_ondemand_scaler.Evals.System.{System, start, Reach-IsOnce, IsOnce}
use nomad_ondemand_scaler.Evals.System as Evals
use nomad_ondemand_scaler.Scaling.Threads.{
  Threads, Step, Reach, launched, starts, takes, plans, updates, reports, returns, evaluates, here,
  next, updating, ids_of, system_of,
}
use nomad_ondemand_scaler.Scaling.Threads.Stages.{
  ids_of-set_stage, ids_of-erase_idx, get_elem?-ids_of,
}

same_system :
    (w v : Threads)
    → v.state ≡ w.state
    → ids_of v.busy ≡ ids_of w.busy
    → v.done ≡ w.done
    → system_of v ≡ system_of w
same_system w v e f g = cc

-- A step of a goroutine is one of the system, or the system does not see it.
Step-system_of :
    (total : ℕ) (w v : Threads)
    → Step total w v
    → Evals.Step (system_of w) (system_of v) ⊎ (system_of v ≡ system_of w)
Step-system_of total w v (starts room) = inr refl
Step-system_of total w v (takes idle tokens q event one h) = inl (Evals.takes tokens q event h)
Step-system_of total w v (plans i id pools at) =
    inr (same_system w v refl (ids_of-set_stage i (updating pools) w.busy) refl)
Step-system_of total w v (updates i id pool rest went_on ctx ending at) =
    inr (same_system w v refl (ids_of-set_stage i (updating rest) w.busy) refl)
Step-system_of total w v (reports i id at room) = inl (
    subst
      (λ ids.
        Evals.Step (system_of w)
          (record { state = w.state; working = ids; done = w.done ++ id ∷ [] }))
      (sym (ids_of-erase_idx i w.busy)) (Evals.finishes i id (get_elem?-ids_of i w.busy _ at) room))
Step-system_of total w v (returns returning one) = inr refl
Step-system_of total w v (evaluates s step same) = inl (
    subst
      (λ ids. Evals.Step (system_of w) (record { state = s.state; working = ids; done = s.done }))
      same step)

-- Whatever the goroutines, the loop of processEvals.go and main.go do in any order, what the loop sees of it
-- is a run of the system of the loop and of threads that only take events and report their ids.
pub Reach-system_of :
    (total : ℕ) (w : Threads) → Reach total (launched total) w → Evals.Reach start (system_of w)
unfolding launched start
Reach-system_of total w here = Evals.here
Reach-system_of total w (next {u} steps step) =
    let before = Reach-system_of total u steps in
    elim (Step-system_of total u w step) [
      | inl seen ↦ Evals.next before seen
      | inr same ↦ subst (Evals.Reach start) (sym same) before
    ]
