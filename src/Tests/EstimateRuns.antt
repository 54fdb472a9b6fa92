-- ===== src/Tests/EstimateRuns.antt =====
-- A scheduler that puts one allocation on each node, for estimateRequiredNodes.go.
use Prim.Native.String.{◌∷◌ as str_cons}
use nomad_ondemand_scaler.Prelude.{
  ℕ, ◌*◌, ◌<◌, zero, suc, ◌≤◌, ◌≡◌, refl, ◌≢◌, String, true, false, Option, none, some, List, [],
  ◌∷◌, ◌++◌, length, All, if◌then◌else◌, eq_iff, arith, any-append, str_eq,
}
use nomad_ondemand_scaler.Nomad.{
  Node, Allocation, TaskGroup, Job, Scheduler, NomadApi, has_node, is_used,
}
use nomad_ondemand_scaler.Tests.Data.{node_named}
use nomad_ondemand_scaler.Pool.{Pool}
use nomad_ondemand_scaler.Prelude.Dict.{lookup}
use nomad_ondemand_scaler.Scaling.Action.{Turn, Plan, plan_event}
use nomad_ondemand_scaler.Scaling.Action.Planned.{IsReady, held_by, wanted, plan_event-wanted}
use nomad_ondemand_scaler.Scaling.Estimate.{Estimating, estimate_required_nodes}
use nomad_ondemand_scaler.Scaling.Estimate.Filling.{Fits, IsSupply}
use nomad_ondemand_scaler.Scaling.Estimate.Enough.{estimate-enough}

unfoldable first_free : List Allocation → List Node → Option Node
first_free plan [] = none
first_free plan (n ∷ ns) = if is_used n.id plan then first_free plan ns else some n

first_free_sound :
    (plan : List Allocation) (ns : List Node) (n : Node)
    → first_free plan ns ≡ some n
    → has_node n.id ns ≡ true
unfolding first_free
first_free_sound plan [] n h = cc
first_free_sound plan (m ∷ ns) n h = ground (arith, first_free_sound plan ns n, eq_iff m.id n.id)

first_free-some :
    (u : String) (plan : List Allocation) (ns : List Node)
    → has_node u ns ≡ true
    → is_used u plan ≡ false
    → first_free plan ns ≢ none
unfolding first_free
first_free-some u plan [] there free h = cc
first_free-some u plan (m ∷ ns) there free h =
    ground (arith, first_free-some u plan ns, eq_iff m.id u)

abbrev one_each : Scheduler (List Node)
one_each = record {
  set_nodes = λ ns s. ns;
  select = λ tg plan s. (s, first_free plan s);
  nodes_of = λ s. s;
  set_nodes_lem = λ ns s. refl;
  select_keeps = λ tg plan s. refl;
  select_sound = λ tg plan s n h. first_free_sound plan s n h;
}

none-not-some : (n : Node) → none ≢ some n
none-not-some n h = cc

-- A scheduler without room for anything.
abbrev full : Scheduler (List Node)
full = record {
  set_nodes = λ ns s. ns;
  select = λ tg plan s. (s, none);
  nodes_of = λ s. s;
  set_nodes_lem = λ ns s. refl;
  select_keeps = λ tg plan s. refl;
  select_sound = λ tg plan s n h. absurd (none-not-some n h);
}

unfoldable uuid : ℕ → String
uuid zero = ""
uuid (suc k) = str_cons "a" (uuid k)

uuid-injective : (j k : ℕ) → uuid j ≡ uuid k → j ≡ k
unfolding uuid
uuid-injective zero zero h = refl
uuid-injective zero (suc k) h = cc
uuid-injective (suc j) zero h = cc
uuid-injective (suc j) (suc k) h = ground (arith, uuid-injective j k)

abbrev get_node : String → Node
get_node u = node_named u

one_each-Fits : (tg : TaskGroup) → Fits one_each get_node tg uuid
one_each-Fits tg k ns plan s e new free =
    first_free-some (uuid k) plan s
      (ground (
        arith,
        e,
        any-append (λ n. str_eq n.id (uuid k)) ns (get_node (uuid k) ∷ []),
        eq_iff (uuid k) (uuid k),
      ))
      free

abbrev api : NomadApi
api = record {
  node = λ n. n;
  node_keeps = λ n. refl;
  alloc = λ a. a;
  alloc_keeps = λ a. refl;
  alloc_stays = λ a. refl;
  node_status_down = "down";
  desired_status_run = "run";
  client_status_pending = "pending";
  client_status_running = "running";
}

abbrev pub web : TaskGroup
web = record { name = "web"; constraints = []; tasks = [] }

abbrev pub job : Job
job = record {
  id = "job";
  namespace = "default";
  datacenters = "dc1" ∷ [];
  constraints = [];
  task_groups = web ∷ [];
}

abbrev pool : Pool
pool = record {
  nomad_nodes = [];
  nomad_allocs = [];
  ephemeral_nodes = [];
  ephemeral_allocs = [];
  node_consumers = [];
  alloc_consumers = [];
}

supply : IsSupply one_each api uuid get_node job web
supply = record { distinct = uuid-injective; named = λ u. refl }

estimate-enough_example :
    (t : Estimating (List Node)) × (estimate_required_nodes one_each api uuid get_node job web 7
        pool [] [] 3 0 []
      ≡ some t)
    × (length t.new_allocs ≡ 3)
    × (length t.new_nodes ≤ 3)
    × All (λ a. has_node a.node_id ([] ++ t.new_nodes) ≡ true) t.new_allocs
estimate-enough_example =
    estimate-enough one_each api uuid get_node job web pool [] [] 3 0 [] 7 supply
      (one_each-Fits web) (λ k h. (refl, refl)) (omega arith)

-- Two turns of one event, for one task group each, on the same pool.
abbrev turn_for : ℕ → Turn
turn_for n = record {
  tg_name = "web";
  info = record { un_alloc_count = n; pool_name = "dc1/pool" };
  pools = ("dc1/pool", pool) ∷ [];
}

web-IsReady : (n : ℕ) → 2 * n < 9 → IsReady one_each uuid (λ name. get_node) job 9 0 (turn_for n)
unfolding lookup
web-IsReady n h = (pool, refl, λ k l. (refl, refl), h, λ tg found. one_each-Fits tg)

has_groups : job.task_groups ≢ []
has_groups h = cc

plan_event-wanted_example :
    (s' : Plan) × (plan_event one_each api uuid
        (λ name. get_node)
        job
        []
        9
        (turn_for 2 ∷ turn_for 3 ∷ [])
        (record { to_scale = []; fresh = 0 })
      ≡ some s')
    × ((name : String) → length (held_by name s').ea ≡ wanted name (turn_for 2 ∷ turn_for 3 ∷ []))
plan_event-wanted_example =
    plan_event-wanted one_each api uuid (λ name. get_node) job []
      (λ name tg. record { distinct = uuid-injective; named = λ u. refl }) 9
      (turn_for 2 ∷ turn_for 3 ∷ []) 0 has_groups
      (web-IsReady 2 (omega arith), (web-IsReady 3 (omega arith), tt))
