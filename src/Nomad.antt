-- ===== src/Nomad.antt =====
-- The fields of nomad's structs that the scaler reads. `NomadApi` is what it takes from nomad: the
-- copies between the API's structs and the scheduler's, which keep identities, and the constants of
-- the statuses.
use nomad_ondemand_scaler.Prelude.{ℕ, String, Bool, true, ◌≡◌, List, any, str_eq, Option, some}
use nomad_ondemand_scaler.Prelude.Int.{ℤ}
use nomad_ondemand_scaler.Prelude.Dict.{Dict}

pub record NodeEvent : Type 0 where
  pub message : String
  pub timestamp : ℕ

pub record ReservedResources : Type 0 where
  pub cpu : ℤ
  pub mem : ℤ
  pub disk : ℤ

-- A device's instances by their number, and its attributes by the texts that they were parsed from.
pub record Device : Type 0 where
  pub name : String
  pub type_name : String
  pub vendor : String
  pub instances : ℕ
  pub attributes : Dict String

-- `drivers` has for each driver whether it was detected.
pub record Node : Type 0 where
  pub id : String
  pub status : String
  pub datacenter : String
  pub node_class : String
  pub attributes : Dict String
  pub meta : Dict String
  pub links : Dict String
  pub drivers : Dict Bool
  pub cpu : ℤ
  pub mem : ℤ
  pub disk : ℤ
  pub reserved : Option ReservedResources
  pub devices : List Device
  pub events : List NodeEvent

pub record Allocation : Type 0 where
  pub id : String
  pub namespace : String
  pub job_id : String
  pub task_group : String
  pub index : ℕ
  pub node_id : String
  pub desired_status : String
  pub client_status : String

pub record Constraint : Type 0 where
  pub left_target : String
  pub right_target : String
  pub operand : String

pub record Task : Type 0 where
  pub driver : String
  pub constraints : List Constraint

pub record TaskGroup : Type 0 where
  pub name : String
  pub constraints : List Constraint
  pub tasks : List Task

pub record Job : Type 0 where
  pub id : String
  pub namespace : String
  pub datacenters : List String
  pub constraints : List Constraint
  pub task_groups : List TaskGroup

-- Whether a node with the id is in the list, and whether an allocation is on it.
abbrev pub has_node : String → List Node → Bool
has_node k = any (λ n. str_eq n.id k)

abbrev pub is_used : String → List Allocation → Bool
is_used k = any (λ e. str_eq e.node_id k)

-- Nomad's generic stack, of which the scaler sets the nodes and asks for a place. `nodes_of` stands
-- for the nodes set last; the stack chooses among them.
pub record Scheduler (Stack : Type 0) : Type 0 where
  pub set_nodes : List Node → Stack → Stack
  pub select : TaskGroup → List Allocation → Stack → Stack × Option Node
  pub nodes_of : Stack → List Node
  pub set_nodes_lem : (ns : List Node) (s : Stack) → nodes_of (set_nodes ns s) ≡ ns
  pub select_keeps :
      (tg : TaskGroup) (plan : List Allocation) (s : Stack)
      → nodes_of (select tg plan s).0 ≡ nodes_of s
  pub select_sound :
      (tg : TaskGroup) (plan : List Allocation) (s : Stack) (n : Node)
      → (select tg plan s).1 ≡ some n
      → has_node n.id (nodes_of s) ≡ true

pub record NomadApi : Type 0 where
  pub node : Node → Node
  pub node_keeps : (n : Node) → (node n).id ≡ n.id
  pub alloc : Allocation → Allocation
  pub alloc_keeps : (a : Allocation) → (alloc a).id ≡ a.id
  pub alloc_stays : (a : Allocation) → (alloc a).node_id ≡ a.node_id
  pub node_status_down : String
  pub desired_status_run : String
  pub client_status_pending : String
  pub client_status_running : String
