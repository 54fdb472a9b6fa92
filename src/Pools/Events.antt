-- ===== src/Pools/Events.antt =====
-- Which pool a node event changes, in `processNodes` of main.go.
use nomad_ondemand_scaler.Prelude.{
  ℕ, ◌≡◌, refl, String, Bool, false, ◌&&◌, Option, none, some, [], ◌∷◌, if◌then◌else◌, str_eq,
  eq_iff, arith, All, ◌++◌, true, Bool-cases, inl, inr,
}
use nomad_ondemand_scaler.Prelude.Dict.{Dict, lookup, map_option, IsKeyed}
use nomad_ondemand_scaler.Nomad.{Node, NomadApi}
use nomad_ondemand_scaler.Pool.{Pool, try_nomad_node, add_node}
use nomad_ondemand_scaler.Pools.{process_node}

-- Whether the pool is the one that took the event.
abbrev pub is_taker : String → Option String → Bool
is_taker k none = false
is_taker k (some j) = str_eq j k

module _ (c : NomadApi) (exists : String → Node → Bool) (closed : ℕ → Bool) where
  -- A pool that does not take the event is as it was.
  not_mine_node :
      (n : Node) (known : Bool) (p : Pool)
      → (try_nomad_node c n known closed p).mine ≡ false
      → (try_nomad_node c n known closed p).pool ≡ p
  unfolding try_nomad_node add_node
  not_mine_node n known p h = ground arith

  -- Whether the pool, asked about the node, answers that the node is its own.
  abbrev pub takes : Node → String × Pool → Bool
  takes n (name, p) = (try_nomad_node c n (exists name n) closed p).mine

  -- The first of the pools that answers so, by its name, or none.
  abbrev pub IsFirst : Node → Dict Pool → Option String → Type 0
  IsFirst n pools none = All (λ e. takes n e ≡ false) pools
  IsFirst n pools (some j) =
      (before : Dict Pool) × (p : Pool) × (rest : Dict Pool) × (pools ≡ before ++ (j, p) ∷ rest)
      × All (λ e. takes n e ≡ false) before
      × (takes n (j, p) ≡ true)

  IsFirst-later :
      (n : Node) (e : String × Pool) (pools : Dict Pool) (taker : Option String)
      → takes n e ≡ false
      → IsFirst n pools taker
      → IsFirst n (e ∷ pools) taker
  IsFirst-later n e pools none h first = (h, first)
  IsFirst-later n e pools (some j) h (before, p, rest, split, passed, mine) =
      (e ∷ before, p, rest, rw split, (h, passed), mine)

  process_node-IsFirst :
      (n : Node) (pools : Dict Pool) → IsFirst n pools (process_node c exists closed n pools).1
  unfolding process_node
  process_node-IsFirst n [] = tt
  process_node-IsFirst n ((name, p) ∷ pools) = elim (Bool-cases (takes n (name, p))) [
    | inl mine ↦ simp mine ([], p, pools, refl, tt, mine)
    | inr other ↦ simp other (
        IsFirst-later n (name, p) pools (process_node c exists closed n pools).1 other
          (process_node-IsFirst n pools))
  ]

  lookup-process_node :
      (n : Node) (k : String) (pools : Dict Pool)
      → IsKeyed pools
      → let (pools', taker) = process_node c exists closed n pools in
        lookup k pools'
        ≡ map_option
            (λ p.
              let o = try_nomad_node c n (exists k n) closed p in
              if is_taker k taker && o.mine then o.pool else p)
            (lookup k pools)
  unfolding process_node lookup
  lookup-process_node n k [] h = refl
  lookup-process_node n k ((j, p) ∷ pools) h =
      ground
        (arith, lookup-process_node n k pools h.1, not_mine_node n (exists j n) p, eq_iff j k, h.0)

  -- Among pools of different names a node event is taken by the first pool whose own operation answers
  -- that the node is its own, and by none only if every pool answers that it is not; the pool that took
  -- it is as its own operation leaves it, and every other pool is as it was.
  pub process_node_lem :
      (n : Node) (pools : Dict Pool)
      → IsKeyed pools
      → let (pools', taker) = process_node c exists closed n pools in
        IsFirst n pools taker
        × ((k : String)
            → lookup k pools'
              ≡ map_option
                  (λ p.
                    let o = try_nomad_node c n (exists k n) closed p in
                    if is_taker k taker && o.mine then o.pool else p)
                  (lookup k pools))
  process_node_lem n pools h = (process_node-IsFirst n pools, λ k. lookup-process_node n k pools h)
