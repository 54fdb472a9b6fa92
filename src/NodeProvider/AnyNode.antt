-- ===== src/NodeProvider/AnyNode.antt =====
-- nodeprovider/anynodetest.go: the provider to whose pool every node belongs, and whose size is not changed.
use nomad_ondemand_scaler.Prelude.{ℕ, String, Bool, true, Option, none, some, List, [], ◌∷◌}
use nomad_ondemand_scaler.Nomad.{Node, NodeEvent}

-- `none` is the panic on a node without events, whose last one goes to the log.
abbrev pub unless_none : List NodeEvent → Option Bool
unless_none [] = none
unless_none (e ∷ events) = some true

unfoldable pub is_node_exists : Node → Option Bool
is_node_exists n = unless_none n.events

-- The errors.
unfoldable pub remove_node : List Node → String
remove_node nodes = "RemoveNode not possible for AnyNodeProvider"

unfoldable pub update_node : List Node → ℕ → String
update_node nodes total = "UpdateNode not possible for AnyNodeProvider"
