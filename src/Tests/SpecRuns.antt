-- ===== src/Tests/SpecRuns.antt =====
-- Specifications of pools, for poolnodespec.go, parsePoolSpecDefinition.go and feasiblePoolByConstraint.go. Each number has one text,
-- and each structure one hash.
use nomad_ondemand_scaler.Prelude.{
  ℕ, ◌≡◌, ◌≢◌, refl, String, Bool, true, false, not, ◌&&◌, Option, none, some, List, [], ◌∷◌, all,
  All, any, ◌>>=◌, arith, eq_iff,
}
use nomad_ondemand_scaler.Prelude.Int.{ℤ, pos}
use nomad_ondemand_scaler.Prelude.Dict.{Dict, lookup, IsKeyed, map_option, insert}
use nomad_ondemand_scaler.Nomad.{Node, Scheduler, has_node}
use nomad_ondemand_scaler.Variant.{
  Variant, map_value, entry, end, get_map_value, get_string_value, int_value, string_value,
}
use nomad_ondemand_scaler.PoolSpec.{PoolNodeSpec, string_at, get_resources, get_name}
use nomad_ondemand_scaler.PoolSpec.Text.{strip_prefix}
use nomad_ondemand_scaler.PoolSpec.ToNode.{get_node}
use nomad_ondemand_scaler.PoolSpec.FromNode.{spec_attributes, get_spect_from_node}
use nomad_ondemand_scaler.PoolSpec.RoundTrip.{
  attr_back, text_back, links_back, get_resources-get_spect_from_node,
}
use nomad_ondemand_scaler.Evals.{Answers, Eval, JobEval, State, fire_event}
use nomad_ondemand_scaler.Evals.Placed.{answers, IsFired, IsNamed, fire_event-IsFired}
use nomad_ondemand_scaler.Queue.{new_queue}
use nomad_ondemand_scaler.PoolSpec.Suitable.{after_bar, get_optimal_pool_spec}
use nomad_ondemand_scaler.PoolSpec.Sound.{IsSuited, get_optimal_pool_spec-IsSuited}
use nomad_ondemand_scaler.Feasible.{Checkers, feasible_pool_by_constraint}
use nomad_ondemand_scaler.Feasible.Groups.{pool_suits, feasible_pool_by_constraint_lem}
use nomad_ondemand_scaler.PoolSpec.Parse.{convert}
use nomad_ondemand_scaler.PoolSpec.Converted.{sized, convert_lem}
use nomad_ondemand_scaler.Pools.Creating.{created, panicked, new_pool}
use nomad_ondemand_scaler.Tests.EstimateRuns.{web, job}

abbrev itoa : ℤ → String
itoa n = "4"

abbrev hash_text : String → Dict Variant → String
hash_text name attributes = "7"

abbrev as_text : String → Option String
as_text s = some s

abbrev canonicalize : Node → Node
canonicalize n = n

abbrev first_node : List Node → Option Node
first_node [] = none
first_node (n ∷ ns) = some n

first_node-has_node : (ns : List Node) (n : Node) → first_node ns ≡ some n → has_node n.id ns ≡ true
first_node-has_node [] n h = cc
first_node-has_node (m ∷ ns) n h = ground (arith, eq_iff m.id n.id)

-- A scheduler that takes the first node.
abbrev take_first : Scheduler (List Node)
take_first = record {
  set_nodes = λ ns s. ns;
  select = λ tg plan s. (s, first_node s);
  nodes_of = λ s. s;
  set_nodes_lem = λ ns s. refl;
  select_keeps = λ tg plan s. refl;
  select_sound = λ tg plan s n h. first_node-has_node s n h;
}

abbrev small : PoolNodeSpec
small = record {
  full_name = "small";
  attributes =
      ("cpu", int_value (pos 4))
      ∷ ("attr.cores", int_value (pos 4))
      ∷ ("links.ami", string_value "ami-1")
      ∷ ("meta.ami", string_value "other")
      ∷ ("datacenter", string_value "dc1")
      ∷ [];
}

keyed : IsKeyed small.attributes
unfolding lookup
keyed = (refl, (refl, (refl, (refl, (refl, tt)))))

abbrev back : Dict Variant
back = spec_attributes as_text (get_node itoa canonicalize "a" small) small.attributes

attr_cores : strip_prefix "attr." "attr.cores" ≡ some "cores"
unfolding strip_prefix
attr_cores = refl

links_ami : strip_prefix "links." "links.ami" ≡ some "ami"
unfolding strip_prefix
links_ami = refl

meta_ami : strip_prefix "meta." "meta.ami" ≡ some "ami"
unfolding strip_prefix
meta_ami = refl

attr_back_example :
    lookup "attr.cores" back ≡ (lookup "attr.cores" small.attributes >>= text_back itoa)
attr_back_example =
    attr_back itoa as_text canonicalize (λ n. refl) "a" small keyed "attr.cores" "cores" attr_cores

links_back_example : lookup "links.ami" back ≡ (
    string_at "links.ami" small.attributes >>= λ t.
    map_option string_value (string_at "meta.ami" small.attributes))
links_back_example =
    links_back itoa as_text canonicalize (λ n. refl) "a" small keyed "links.ami" "meta.ami" "ami"
      links_ami meta_ami

get_resources-get_spect_from_node_example :
    (get_resources
        (get_spect_from_node as_text itoa hash_text small (get_node itoa canonicalize "a" small))
      ≡ get_resources small)
    × (get_name itoa
          (get_spect_from_node as_text itoa hash_text small (get_node itoa canonicalize "a" small))
        ≡ get_name itoa small)
get_resources-get_spect_from_node_example =
    get_resources-get_spect_from_node itoa as_text canonicalize (λ n. refl) "a" small keyed
      hash_text

four_plain : after_bar "4" ≡ none
unfolding after_bar
four_plain = refl

get_optimal_pool_spec-IsSuited_example :
    (r : Dict (Option PoolNodeSpec)) × (get_optimal_pool_spec take_first
        (λ j. [])
        job
        itoa
        hash_text
        canonicalize
        (λ ns. ns)
        (small ∷ [])
      ≡ some r)
    × All (λ e. IsSuited job (small ∷ []) e.1) r
get_optimal_pool_spec-IsSuited_example =
    get_optimal_pool_spec-IsSuited take_first (λ j. []) job itoa (λ n. four_plain) hash_text
      canonicalize (λ n. refl) (λ ns. ns) (λ p ns h. h) (small ∷ [])

abbrev all_allowed : Checkers
all_allowed = record {
  constraints_feasible = λ cs n. true;
  drivers_feasible = λ ds n. true;
  devices_feasible = λ tg n. true;
}

feasible_pool_by_constraint_lem_example :
    feasible_pool_by_constraint all_allowed itoa canonicalize (small ∷ []) job
    ≡ not false
      && all (λ tg. any (pool_suits all_allowed itoa canonicalize job tg) (small ∷ [])) (web ∷ [])
feasible_pool_by_constraint_lem_example =
    feasible_pool_by_constraint_lem all_allowed itoa canonicalize (small ∷ []) job

abbrev parse_bytes : String → Option ℕ
parse_bytes s = some 2097152

abbrev read : Dict Variant
read = ("mem", int_value (pos 2)) ∷ ("cpu", int_value (pos 4)) ∷ []

abbrev given : Dict Variant
given = ("mem", string_value "2 MiB") ∷ ("cpu", int_value (pos 4)) ∷ []

read_lem : convert parse_bytes given ≡ some read
unfolding convert lookup insert get_string_value
read_lem = refl

convert_lem_example :
    (string_at "mem" read ≡ none)
    × (string_at "disk" read ≡ none)
    × (lookup "mem" read ≡ sized parse_bytes (lookup "mem" given))
    × (lookup "disk" read ≡ sized parse_bytes (lookup "disk" given))
    × (lookup "cpu" read ≡ lookup "cpu" given)
convert_lem_example = convert_lem parse_bytes given read read_lem

abbrev head : Eval
head = record {
  id = "e1";
  namespace = "default";
  job_id = "job";
  status = "blocked";
  create_index = 5;
}

abbrev tried : List JobEval
tried = record { create_index = 5; failed_tg_allocs = "web" ∷ [] } ∷ []

abbrev idle : State
idle = record {
  evals = ("e1", head) ∷ [];
  chains = ("default/job", "e1" ∷ []) ∷ [];
  fired = [];
  queue = new_queue;
  canceled = [];
  nosuited = 0;
}

some_tried : tried ≢ []
some_tried h = cc h

abbrev asked : Answers
asked =
    answers take_first (λ j. []) all_allowed itoa (λ n. four_plain) hash_text canonicalize
      (λ n. refl) (λ ns. ns) (λ p ns h. h) (small ∷ []) (λ e. job) (λ e. tried)
      (λ e. ("web", 2) ∷ [])

fire_event-IsFired_example :
    (r : State × Bool) × (fire_event asked "default/job" head idle ≡ some r)
    × IsFired (IsNamed job (small ∷ [])) "default/job" job idle r
fire_event-IsFired_example =
    fire_event-IsFired take_first (λ j. []) all_allowed itoa (λ n. four_plain) hash_text
      canonicalize (λ n. refl) (λ ns. ns) (λ p ns h. h) (small ∷ []) (λ e. job) (λ e. tried)
      (λ e. ("web", 2) ∷ []) "default/job" head idle some_tried

-- A pool whose provider has a name that NewPool does not know, and one whose name is a number.
abbrev with_provider : Variant → PoolNodeSpec
with_provider name = record {
  full_name = "small";
  attributes = ("provider", map_value (entry "name" name end)) ∷ [];
}

no_provider :
    new_pool {P = String}
      (λ a. some "aws")
      "any"
      (λ r a. some "k8s")
      (with_provider (string_value "gce"))
    ≡ created none
unfolding new_pool lookup get_map_value get_string_value
no_provider = refl

no_name :
    new_pool {P = String}
      (λ a. some "aws")
      "any"
      (λ r a. some "k8s")
      (with_provider (int_value (pos 1)))
    ≡ panicked
unfolding new_pool lookup get_map_value get_string_value
no_name = refl
