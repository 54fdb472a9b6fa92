-- ===== src/Pool/Update.antt =====
-- `Update`, `WarmUp` and `RemoveNode` of pool.go. A call of `Update` is `begin`, which asks the
-- provider, then either `forget` at once or the loop `wait` and then `forget`.
use nomad_ondemand_scaler.Prelude.{
  ℕ, ◌+◌, String, Bool, true, false, Option, none, some, List, [], ◌∷◌, ◌++◌, length, leb, ◌==◌,
  if◌then◌else◌, str_eq,
}
use nomad_ondemand_scaler.Prelude.Dict.{Dict, lookup, values}
use nomad_ondemand_scaler.Nomad.{Node, Allocation}
use nomad_ondemand_scaler.Pool.{Pool}

-- The ephemeral nodes and allocations of the round are added.
unfoldable pub reserve : List Node → List Allocation → Pool → Pool
reserve en ea p = record p {
  ephemeral_nodes = p.ephemeral_nodes ++ en;
  ephemeral_allocs = p.ephemeral_allocs ++ ea;
}

-- The size that the provider is asked for.
unfoldable pub wait_count : Pool → ℕ
wait_count p = length p.nomad_nodes + length p.ephemeral_nodes

-- The nested loops that take out, for each element of the first list, the first of the second with
-- its id.
module _ {A : Type 0} (id_of : A → String) where
  unfoldable pub remove_first : String → List A → List A
  remove_first id [] = []
  remove_first id (x ∷ rest) = if str_eq (id_of x) id then rest else x ∷ remove_first id rest

  unfoldable pub remove_each : List A → List A → List A
  unfolding remove_first
  remove_each [] xs = xs
  remove_each (y ∷ ys) xs = remove_each ys (remove_first (id_of y) xs)

-- The reset of what the round did not place, on failure and at the end.
unfoldable pub forget : List Node → List Allocation → Pool → Pool
unfolding remove_each
forget en ea p = record p {
  ephemeral_allocs = remove_each (λ a. a.id) ea p.ephemeral_allocs;
  ephemeral_nodes = remove_each (λ n. n.id) en p.ephemeral_nodes;
}

-- The round registers its two channels under a number of its own.
unfoldable pub subscribe : ℕ → Pool → Pool
subscribe ch p = record p {
  node_consumers = p.node_consumers ++ ch ∷ [];
  alloc_consumers = p.alloc_consumers ++ ch ∷ [];
}

-- The part of `Update` before the loop. `failed` is whether the provider's `UpdateNode` returned an
-- error; the answer is whether the call goes on to wait.
unfoldable pub begin : ℕ → Bool → List Node → List Allocation → Pool → Pool × Bool
unfolding reserve forget subscribe
begin ch failed en ea p =
    let q = reserve en ea p in if failed then (forget en ea q, false) else (subscribe ch q, true)

-- What the loop of `Update` may receive.
pub data Signal : Type 0 where
  canceled : Signal
  timer : Signal
  nodes : ℕ → Signal
  placed : String → Signal

-- How it ends: with the context's error, after the timer, or with all allocations placed.
pub data Ending : Type 0 where
  interrupted timed_out complete : Ending

-- The loop's variables: whether the timer runs, and the allocations placed.
pub record Waiting : Type 0 where
  pub armed : Bool
  pub arrived : List Allocation

unfoldable pub find_alloc : String → List Allocation → Option Allocation
find_alloc id [] = none
find_alloc id (a ∷ rest) = if str_eq a.id id then some a else find_alloc id rest

-- One round of the `select`. The timer that does not run cannot fire.
unfoldable pub on_signal : ℕ → List Allocation → Signal → Waiting → Waiting × Option Ending
unfolding find_alloc
on_signal target ea canceled w = (w, some interrupted)
on_signal target ea timer w = (w, if w.armed then some timed_out else none)
on_signal target ea (nodes count) w =
    (record w { armed = if leb target count then true else w.armed }, none)
on_signal target ea (placed id) w = elim (find_alloc id ea) [
  | none ↦ (w, none)
  | some a ↦
      let arrived = w.arrived ++ a ∷ [] in
      (
        record { armed = true; arrived = arrived },
        if length arrived == length ea then some complete else none,
      )
]

-- `none` as the ending: the loop still waits when the signals are used up.
unfoldable pub wait : ℕ → List Allocation → List Signal → Waiting → Waiting × Option Ending
unfolding on_signal
wait target ea [] w = (w, none)
wait target ea (s ∷ ss) w =
    let (w', ending) = on_signal target ea s w in
    let rest = wait target ea ss w' in elim ending [ some e ↦ (w', some e) | none ↦ rest ]

-- `WarmUp` asks for `launch` more nodes than there are, and waits for that count.
unfoldable pub warm_up : ℕ → ℕ → Pool → Pool × ℕ
warm_up ch launch p = (
  record p { node_consumers = p.node_consumers ++ ch ∷ [] },
  length (values p.nomad_nodes) + launch,
)

unfoldable pub warm_up_waits : ℕ → List ℕ → Bool
warm_up_waits target [] = true
warm_up_waits target (count ∷ counts) =
    let rest = warm_up_waits target counts in if leb target count then false else rest

-- The nodes that `RemoveNode` hands to the provider; the pool itself is left as it is.
unfoldable pub to_remove : List String → Dict Node → List Node
to_remove [] m = []
to_remove (id ∷ ids) m = elim (lookup id m) [
  | none ↦ to_remove ids m
  | some n ↦ n ∷ to_remove ids m
]
