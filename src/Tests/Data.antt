-- ===== src/Tests/Data.antt =====
-- A node of which only the id matters.
use nomad_ondemand_scaler.Prelude.{String, none, []}
use nomad_ondemand_scaler.Prelude.Int.{pos}
use nomad_ondemand_scaler.Nomad.{Node}

abbrev pub node_named : String → Node
node_named k = record {
  id = k;
  status = "ready";
  datacenter = "dc1";
  node_class = "";
  attributes = [];
  meta = [];
  links = [];
  drivers = [];
  cpu = pos 4000;
  mem = pos 8000;
  disk = pos 100;
  reserved = none;
  devices = [];
  events = [];
}
