-- ===== src/DumpState.antt =====
-- dumpState_linux.go: what is reported of the pools on a signal, before it is laid out as a text. The counters
-- that the report begins with are those of Stat.antt.
pub mod Counted
use nomad_ondemand_scaler.Prelude.{
  ℕ, zero, suc, String, Option, none, some, List, [], ◌∷◌, length, if◌then◌else◌, str_eq, ◌>>=◌,
  ◌==◌,
}
use nomad_ondemand_scaler.Prelude.Int.{ℤ}
use nomad_ondemand_scaler.Prelude.Bytes.{bytes}
use nomad_ondemand_scaler.Prelude.Dict.{Dict}
use nomad_ondemand_scaler.Nomad.{Node, NodeEvent, Allocation}
use nomad_ondemand_scaler.Variant.{Variant, VariantMap, map_value, end, entry}
use nomad_ondemand_scaler.Pool.{Pool}
use nomad_ondemand_scaler.PoolSpec.{PoolNodeSpec}
use nomad_ondemand_scaler.PoolSpec.FromNode.{get_spect_from_node}
use nomad_ondemand_scaler.PoolSpec.Dump.{dump}

pub record NodeLine : Type 0 where
  pub id : String
  pub status : String
  pub first_event : ℕ
  pub alloc_count : ℕ

-- `one_of` has the beginning of a node's id, and the node as a specification.
pub record PoolReport : Type 0 where
  pub name : String
  pub total_nodes : ℕ
  pub total_allocs : ℕ
  pub orig : List ℕ
  pub one_of : Option (List ℕ × List ℕ)
  pub nodes : List NodeLine
  pub allocs : List (String × String)

-- `lallocCount` of the node of that id.
unfoldable pub alloc_count_of : String → Dict Allocation → ℕ
alloc_count_of id [] = 0
alloc_count_of id ((k, a) ∷ allocs) =
    let count = alloc_count_of id allocs in if str_eq id a.node_id then suc count else count

-- `none` is the panic on a node without events.
abbrev pub line_at : Node → ℕ → List NodeEvent → Option NodeLine
line_at n count [] = none
line_at n count (e ∷ events) =
    some (record { id = n.id; status = n.status; first_event = e.timestamp; alloc_count = count })

unfoldable pub node_lines : Dict Allocation → Dict Node → Option (List NodeLine)
unfolding alloc_count_of
node_lines allocs [] = some []
node_lines allocs ((k, n) ∷ nodes) = do
  line ← line_at n (alloc_count_of n.id allocs) n.events
  lines ← node_lines allocs nodes
  some (line ∷ lines)

unfoldable pub alloc_lines : Dict Allocation → List (String × String)
alloc_lines [] = []
alloc_lines ((k, a) ∷ allocs) = (a.id, a.client_status) ∷ alloc_lines allocs

abbrev pub as_map : Dict Variant → VariantMap
as_map [] = end
as_map ((k, v) ∷ m) = entry k v (as_map m)

-- `strings.Split(text, "-")[0]`.
unfoldable pub before_dash : List ℕ → List ℕ
before_dash [] = []
before_dash (b ∷ text) = let rest = before_dash text in if b == b'-' then [] else b ∷ rest

-- `pick` is `GetRandomElementOfMap`.
module _ (as_text : String → Option String) (itoa : ℤ → String)
    (hash_text : String → Dict Variant → String) (pick : Dict Node → Option Node) where
  unfoldable pub one_of_nodes : PoolNodeSpec → Option Node → Option (List ℕ × List ℕ)
  unfolding before_dash
  one_of_nodes spec none = none
  one_of_nodes spec (some n) = some (
    before_dash (bytes n.id),
    dump (map_value (as_map (get_spect_from_node as_text itoa hash_text spec n).attributes)) [] 0
        [],
  )

  unfoldable pub report_of : String → PoolNodeSpec → Pool → List NodeLine → PoolReport
  unfolding one_of_nodes alloc_lines
  report_of name spec p lines = record {
    name = name;
    total_nodes = length p.nomad_nodes;
    total_allocs = length p.nomad_allocs;
    orig = dump (map_value (as_map spec.attributes)) [] 0 ("provider" ∷ []);
    one_of = one_of_nodes spec (pick p.nomad_nodes);
    nodes = lines;
    allocs = alloc_lines p.nomad_allocs;
  }

  unfoldable pub report_pool : String → PoolNodeSpec → Pool → Option PoolReport
  unfolding report_of node_lines
  report_pool name spec p = do
    lines ← node_lines p.nomad_allocs p.nomad_nodes
    some (report_of name spec p lines)
