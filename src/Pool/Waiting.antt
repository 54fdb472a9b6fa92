-- ===== src/Pool/Waiting.antt =====
-- The loop in `Update` of pool.go that waits for nodes and allocations, and how it ends.
use nomad_ondemand_scaler.Prelude.{
  ℕ, ◌+◌, ◌≤◌, ◌<◌, ◌≡◌, refl, inl, inr, Bool, true, false, ◌||◌, none, some, List, [], ◌∷◌, length,
  length-append, any, All, leb, ◌==◌, if◌then◌else◌, arith, Bool-cases, Option-cases, is_some, ◌∙◌,
}
use nomad_ondemand_scaler.Nomad.{Allocation}
use nomad_ondemand_scaler.Pool.Update.{
  Signal, canceled, timer, nodes, placed, Ending, interrupted, timed_out, complete, Waiting,
  find_alloc, on_signal, wait,
}

module _ (target : ℕ) (ea : List Allocation) where
  -- The signal gives no reason to stop: neither the context nor the timer.
  abbrev pub IsBenign : Signal → Type 0
  IsBenign canceled = ⊥
  IsBenign timer = ⊥
  IsBenign _ = Unit

  abbrev pub hit : Signal → ℕ
  hit (placed id) = if is_some (find_alloc id ea) then 1 else 0
  hit _ = 0

  -- How many of the signals report an allocation of the round.
  abbrev pub hits : List Signal → ℕ
  hits [] = 0
  hits (s ∷ ss) = hit s + hits ss

  on_benign :
      (s : Signal) (w : Waiting)
      → IsBenign s
      → length w.arrived < length ea
      → (length (on_signal target ea s w).0.arrived ≡ length w.arrived + hit s)
        × ((on_signal target ea s w).1
            ≡ (if length w.arrived + hit s == length ea then some complete else none))
  unfolding on_signal
  on_benign canceled w h l = absurd h
  on_benign timer w h l = absurd h
  on_benign (nodes count) w h l = ground arith
  on_benign (placed id) w h l = elim (Option-cases (find_alloc id ea)) [
    | inl e ↦ rw (e, on_signal) (ground arith)
    | inr (a, e) ↦ rw (e, on_signal) (ground (arith, length-append w.arrived (a ∷ [])))
  ]

  -- The loop ends as soon as every allocation of the round is reported.
  wait_from :
      (ss : List Signal) (w : Waiting)
      → All IsBenign ss
      → length w.arrived < length ea
      → length ea ≤ length w.arrived + hits ss
      → (wait target ea ss w).1 ≡ some complete
  unfolding wait
  wait_from [] w h l m = absurd (omega arith)
  wait_from (s ∷ ss) w h l m =
      let (count, ending) = on_benign s w h.0 l in
      elim (Bool-cases (length w.arrived + hit s == length ea)) [
        | inl all ↦ rw (ending, all, wait)
        | inr few ↦
            rw (ending, few, wait)
              (wait_from ss (on_signal target ea s w).0 h.1 (ground (arith, count, hit-le s))
                (ground (arith, count)))
      ]
    where
      hit-le : (s : Signal) → hit s ≤ 1
      hit-le s = ground arith

  -- The signal starts the timer.
  abbrev pub arms : Signal → Bool
  arms (nodes count) = leb target count
  arms (placed id) = is_some (find_alloc id ea)
  arms _ = false

  abbrev pub is_canceled : Signal → Bool
  is_canceled canceled = true
  is_canceled _ = false

  -- What each ending says of the signals and of the final variables.
  abbrev pub Explains : List Signal → Waiting → Waiting → Ending → Type 0
  Explains ss w w' interrupted = any is_canceled ss ≡ true
  Explains ss w w' timed_out = w.armed || any arms ss ≡ true
  Explains ss w w' complete = length w'.arrived ≡ length ea

  on_signal-Explains :
      (s : Signal) (ss : List Signal) (w : Waiting) (e : Ending)
      → (on_signal target ea s w).1 ≡ some e
      → Explains (s ∷ ss) w (on_signal target ea s w).0 e
  unfolding on_signal
  on_signal-Explains canceled ss w interrupted h = refl
  on_signal-Explains canceled ss w timed_out h = cc
  on_signal-Explains canceled ss w complete h = cc
  on_signal-Explains timer ss w interrupted h = ground arith
  on_signal-Explains timer ss w timed_out h = ground arith
  on_signal-Explains timer ss w complete h = ground arith
  on_signal-Explains (nodes count) ss w e h = cc
  on_signal-Explains (placed id) ss w interrupted h = ground arith
  on_signal-Explains (placed id) ss w timed_out h = ground arith
  on_signal-Explains (placed id) ss w complete h = ground arith

  armed_by :
      (s : Signal) (w : Waiting)
      → (on_signal target ea s w).1 ≡ none
      → (on_signal target ea s w).0.armed ≡ true
      → w.armed || arms s ≡ true
  unfolding on_signal
  armed_by canceled w h a = cc
  armed_by timer w h a = ground arith
  armed_by (nodes count) w h a = ground arith
  armed_by (placed id) w h a = ground arith

  later-Explains :
      (s : Signal) (ss : List Signal) (w w' : Waiting) (e : Ending)
      → (on_signal target ea s w).1 ≡ none
      → Explains ss (on_signal target ea s w).0 w' e
      → Explains (s ∷ ss) w w' e
  later-Explains s ss w w' interrupted h x = ground arith
  later-Explains s ss w w' timed_out h x = ground (arith, armed_by s w)
  later-Explains s ss w w' complete h x = x

  -- The loop is interrupted only by its context, times out only if the timer was started by enough
  -- nodes or by an allocation of the round, and is complete only with as many placed as asked for.
  pub wait-Explains :
      (ss : List Signal) (w : Waiting) (e : Ending)
      → (wait target ea ss w).1 ≡ some e
      → Explains ss w (wait target ea ss w).0 e
  unfolding wait
  wait-Explains [] w e h = cc
  wait-Explains (s ∷ ss) w e h = elim (Option-cases (on_signal target ea s w).1) [
    | inl on ↦
        rw (on, wait)
          (later-Explains s ss w (wait target ea ss (on_signal target ea s w).0).0 e on
            (wait-Explains ss (on_signal target ea s w).0 e (rw (on, wait) at h)))
    | inr (e', stop) ↦ rw (stop, wait) (on_signal-Explains s ss w e (stop ∙ (rw (stop, wait) at h)))
  ]

  -- Without interruption or timer, the loop ends as complete once as many reports of allocations of
  -- the round have come as the round has allocations, and it has some.
  pub wait-complete :
      (ss : List Signal)
      → 0 < length ea
      → All IsBenign ss
      → length ea ≤ hits ss
      → (wait target ea ss (record { armed = false; arrived = [] })).1 ≡ some complete
  wait-complete ss some_asked h m =
      wait_from ss (record { armed = false; arrived = [] }) h some_asked (omega arith)
