-- ===== src/Pool.antt =====
-- pool.go: one pool of nodes, as it follows nomad's events and the scaling in flight. A consumer of
-- `countNodesPubCh` or `countAllocsPubCh` is a number, and `closed` tells which consumers have closed
-- their monitor when a message is sent; the messages sent are part of the outcome.
pub mod Valid
pub mod Allocations
pub mod Update
pub mod Round
pub mod Waiting
pub mod Placing
use nomad_ondemand_scaler.Prelude.{
  ℕ, zero, suc, ◌+◌, String, Bool, true, false, not, ◌&&◌, ◌||◌, Option, none, some, List, [], ◌∷◌,
  ◌++◌, length, erase_idx, any, filterb, if◌then◌else◌, str_eq,
}
use nomad_ondemand_scaler.Prelude.Dict.{Dict, insert, delete, has, values}
use nomad_ondemand_scaler.Nomad.{Node, Allocation, NomadApi}

pub record Pool : Type 0 where
  pub nomad_nodes : Dict Node
  pub nomad_allocs : Dict Allocation
  pub ephemeral_nodes : List Node
  pub ephemeral_allocs : List Allocation
  pub node_consumers : List ℕ
  pub alloc_consumers : List ℕ

-- `told_nodes` are the counts sent and `told_allocs` the ids sent, each with its consumer.
pub record Outcome : Type 0 where
  pub pool : Pool
  pub mine : Bool
  pub told_nodes : List (ℕ × ℕ)
  pub told_allocs : List (ℕ × String)

abbrev pub quiet : Pool → Bool → Outcome
quiet p mine = record { pool = p; mine = mine; told_nodes = []; told_allocs = [] }

-- The loop over the consumers: a closed one is dropped, an open one is sent the value.
abbrev pub open_of : (ℕ → Bool) → List ℕ → List ℕ
open_of closed = filterb (λ c. not (closed c))

abbrev pub send_all {ℓ} : {A : Type ℓ} → A → List ℕ → List (ℕ × A)
send_all v [] = []
send_all v (c ∷ cs) = (c, v) ∷ send_all v cs

-- The allocations on a node, by id, in the order in which `range` visits them.
unfoldable pub allocs_on : String → List Allocation → List String
allocs_on node_id [] = []
allocs_on node_id (a ∷ rest) =
    let ids = allocs_on node_id rest in if str_eq a.node_id node_id then a.id ∷ ids else ids

unfoldable pub delete_all : List String → Dict Allocation → Dict Allocation
delete_all [] m = m
delete_all (k ∷ ks) m = delete_all ks (delete k m)

unfoldable pub add_node : String → Node → (ℕ → Bool) → Bool → Pool → Outcome
add_node id n closed already p =
    let nodes = insert id n p.nomad_nodes in
    let told = record p { nomad_nodes = nodes } in
    if already then quiet told true else record {
      pool = record told { node_consumers = open_of closed p.node_consumers };
      mine = true;
      told_nodes = send_all (length nodes) (open_of closed p.node_consumers);
      told_allocs = [];
    }

unfoldable pub drop_node : String → Pool → Pool
unfolding allocs_on delete_all
drop_node id p = record p {
  nomad_nodes = delete id p.nomad_nodes;
  nomad_allocs = delete_all (allocs_on id (values p.nomad_allocs)) p.nomad_allocs;
}

-- `exists` is what the provider's `IsNodeExists` answers; it is asked only for an unknown node.
unfoldable pub try_nomad_node : NomadApi → Node → Bool → (ℕ → Bool) → Pool → Outcome
unfolding add_node drop_node
try_nomad_node c n exists closed p =
    let already = has n.id p.nomad_nodes in
    if already || exists
    then if not (str_eq n.status c.node_status_down)
      then add_node n.id (c.node n) closed already p
      else quiet (drop_node n.id p) true
    else quiet p false
