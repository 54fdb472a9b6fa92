-- ===== src/PoolSpec/Suitable.antt =====
-- `getSuitableNodes` and `GetOptimalPoolSpec` of poolnodespec.go. Parameters are nomad's stack, the text
-- of a number, the hash, what `Canonicalize` makes of a node, and the order that `sort.Slice` comes to,
-- which its comparison does not settle: it is not a strict order. A map is gone through in the order of
-- its list. The status of the job, which is set and set back, is read by nomad's stack only.
use Prim.Native.Char.{code}
use Prim.Native.String.{[] as str_nil, ◌∷◌ as str_cons, ◌++◌ as str_append}
use nomad_ondemand_scaler.Prelude.{
  String, Bool, true, false, Option, none, some, List, [], ◌∷◌, ◌++◌, if◌then◌else◌, str_eq, ◌==◌,
  get_or_else, ◌>>=◌, filterb, length, ◌||◌,
}
use nomad_ondemand_scaler.Prelude.Int.{ℤ}
use nomad_ondemand_scaler.Prelude.Dict.{Dict, lookup, insert, map_values}
use nomad_ondemand_scaler.Nomad.{Node, TaskGroup, Job, Scheduler}
use nomad_ondemand_scaler.Variant.{Variant}
use nomad_ondemand_scaler.Slices.{contains_in_slice}
use nomad_ondemand_scaler.PoolSpec.{PoolNodeSpec, get_name, compute_class}
use nomad_ondemand_scaler.PoolSpec.ToNode.{get_node}

-- `strings.SplitN(s, "|", 2)[1]`, where `none` is a panic.
unfoldable pub after_bar : String → Option String
after_bar str_nil = none
after_bar (str_cons c s) = let rest = after_bar s in if code c == 124 then some s else rest

abbrev pub has_no_devices : Node → Bool
has_no_devices n = elim n.devices [ [] ↦ true | d ∷ ds ↦ false ]

abbrev pub id_of : Option Node → String
id_of none = ""
id_of (some n) = n.id

module _ {Stack : Type 0} (sched : Scheduler Stack) where
  -- Without a place, all nodes are tried.
  unfoldable pub second_try : List Node → TaskGroup → Stack → Option Node → Stack × Option Node
  second_try nodes tg s (some rnode) = (s, some rnode)
  second_try nodes tg s none = sched.select tg [] (sched.set_nodes nodes s)

  -- The place for one task group: first among the nodes without devices, if there are any.
  unfoldable pub suit_group : List Node → List Node → TaskGroup → Stack → Stack × Option Node
  unfolding second_try
  suit_group [] nodes tg s = sched.select tg [] (sched.set_nodes nodes s)
  suit_group (n ∷ plain) nodes tg s =
      let tried = sched.select tg [] (sched.set_nodes (n ∷ plain) s) in
      second_try nodes tg tried.0 tried.1

  unfoldable pub suit_groups :
      String → List Node → List Node → List TaskGroup → Stack → Dict String → Dict String
  unfolding suit_group
  suit_groups name plain nodes [] s out = out
  suit_groups name plain nodes (tg ∷ tgs) s out =
      let placed = suit_group plain nodes tg s in
      let wanted = str_eq name "" || str_eq tg.name name in
      suit_groups name plain nodes tgs (if wanted then placed.0 else s)
        (if wanted then insert tg.name (id_of placed.1) out else out)

  unfoldable pub get_suitable_nodes : (Job → Stack) → String → Job → List Node → Dict String
  unfolding suit_groups
  get_suitable_nodes new_stack name job nodes =
      suit_groups name (filterb has_no_devices nodes) nodes job.task_groups (new_stack job) []

  -- The loop that ends at the first node of the group for which there is an answer, suitable or not.
  unfoldable pub first_answer : (Job → Stack) → String → Job → List Node → Option (String × String)
  unfolding get_suitable_nodes
  first_answer new_stack name job [] = none
  first_answer new_stack name job (n ∷ ns) =
      let later = first_answer new_stack name job ns in
      elim (get_suitable_nodes new_stack name job (n ∷ [])) [
        | [] ↦ later
        | answer ∷ more ↦ some answer
      ]

-- The pools in the job's datacenters, as nodes.
pub record Candidates : Type 0 where
  pub nodes : List Node
  pub by_group : Dict (List Node)
  pub by_name : Dict PoolNodeSpec

abbrev pub no_candidates : Candidates
no_candidates = record { nodes = []; by_group = []; by_name = [] }

abbrev pub name_of : (ℤ → String) → (String → Dict Variant → String) → PoolNodeSpec → String
name_of itoa hash_text pool =
    str_append (get_name itoa pool) (str_append "|" (compute_class hash_text pool))

unfoldable pub accept : String → String → Node → PoolNodeSpec → Candidates → Candidates
accept lcs name node pool c = record {
  nodes = c.nodes ++ node ∷ [];
  by_group = insert lcs (get_or_else (lookup lcs c.by_group) [] ++ node ∷ []) c.by_group;
  by_name = insert name pool c.by_name;
}

module _ (itoa : ℤ → String) (hash_text : String → Dict Variant → String)
    (canonicalize : Node → Node) (job : Job) where
  unfoldable pub add_candidate : PoolNodeSpec → Candidates → Candidates
  unfolding get_node accept
  add_candidate pool c =
      let name = name_of itoa hash_text pool in
      let node = get_node itoa canonicalize name pool in
      if contains_in_slice job.datacenters node.datacenter
      then accept (compute_class hash_text pool) name node pool c
      else c

  unfoldable pub candidates : List PoolNodeSpec → Candidates → Candidates
  unfolding add_candidate
  candidates [] c = c
  candidates (pool ∷ pools) c = candidates pools (add_candidate pool c)

module _ {Stack : Type 0} (sched : Scheduler Stack) (new_stack : Job → Stack) (job : Job) where
  unfoldable pub put_answer : Option (String × String) → Dict String → Dict String
  put_answer none out = out
  put_answer (some (tg_name, pool_name)) out = insert tg_name pool_name out

  -- The pool itself, if it is alone in its group.
  unfoldable pub choose_from : List Node → String → String → Dict String → Dict String
  unfolding first_answer put_answer
  choose_from group tg_name pool_name out =
      if length group == 1
      then insert tg_name pool_name out
      else put_answer (first_answer sched new_stack tg_name job group) out

  -- What is returned for one task group. `none` is a panic.
  unfoldable pub choose : Dict (List Node) → String → String → Dict String → Option (Dict String)
  unfolding choose_from after_bar
  choose groups tg_name pool_name out =
      if str_eq pool_name ""
      then some out
      else after_bar pool_name >>= λ lcs.
          some (choose_from (get_or_else (lookup lcs groups) []) tg_name pool_name out)

  unfoldable pub choose_all : Dict (List Node) → Dict String → Dict String → Option (Dict String)
  unfolding choose
  choose_all groups [] out = some out
  choose_all groups ((tg_name, pool_name) ∷ suitable) out =
      choose groups tg_name pool_name out >>= choose_all groups suitable

  unfoldable pub get_optimal_pool_spec :
      (ℤ → String)
      → (String → Dict Variant → String)
      → (Node → Node)
      → (List Node → List Node)
      → List PoolNodeSpec
      → Option (Dict (Option PoolNodeSpec))
  unfolding candidates choose_all
  get_optimal_pool_spec itoa hash_text canonicalize sort pools =
      let c = candidates itoa hash_text canonicalize job pools no_candidates in
      choose_all (map_values (λ lcs. sort) c.by_group)
        (get_suitable_nodes sched new_stack "" job c.nodes) []
      >>= λ names. some (
          map_values (λ tg_name name. if str_eq name "" then none else lookup name c.by_name) names)
