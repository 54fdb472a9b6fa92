-- ===== src/PoolSpec/Sound.antt =====
-- `GetOptimalPoolSpec` of poolnodespec.go: it never panics, and each pool that it returns is a pool of
-- the list in a datacenter of the job.
use nomad_ondemand_scaler.Prelude.{
  ℕ, ◌≡◌, refl, subst, String, Bool, true, false, Option, none, some, List, [], ◌∷◌, ◌++◌,
  if◌then◌else◌, str_eq, get_or_else, all, All, All-mono, arith, eq_iff, Bool-cases, inl, inr,
  is_some, get_elem?, suc,
}
use nomad_ondemand_scaler.Prelude.Int.{ℤ}
use nomad_ondemand_scaler.Prelude.Dict.{Dict, found, lookup, insert, has, map_values, lookup-insert}
use nomad_ondemand_scaler.Nomad.{Node, Job, Scheduler}
use nomad_ondemand_scaler.Variant.{Variant}
use nomad_ondemand_scaler.Slices.{contains_in_slice}
use nomad_ondemand_scaler.PoolSpec.{PoolNodeSpec, string_at, compute_class}
use nomad_ondemand_scaler.PoolSpec.ToNode.{get_node, raw_node}
use nomad_ondemand_scaler.PoolSpec.Suitable.{
  Candidates, no_candidates, name_of, after_bar, accept, add_candidate, candidates,
  get_suitable_nodes, get_optimal_pool_spec,
}
use nomad_ondemand_scaler.PoolSpec.Barred.{after_bar-name_of}
use nomad_ondemand_scaler.PoolSpec.Known.{
  All-insert, group-IsKnown, IsKnown, known_or_none, get_suitable_nodes-IsAnswered,
  choose_all-IsAnswered,
}

abbrev pub datacenter_of : PoolNodeSpec → String
datacenter_of p = get_or_else (string_at "datacenter" p.attributes) ""

-- A pool of the list, in a datacenter of the job.
abbrev pub IsPoolOf : Job → List PoolNodeSpec → PoolNodeSpec → Type 0
IsPoolOf job pools p =
    ((i : ℕ) × (get_elem? pools i ≡ some p))
    × (contains_in_slice job.datacenters (datacenter_of p) ≡ true)

-- No pool, or one of them.
abbrev pub IsSuited : Job → List PoolNodeSpec → Option PoolNodeSpec → Type 0
IsSuited job pools none = Unit
IsSuited job pools (some p) = IsPoolOf job pools p

all-append :
    {A : Type 0} (p : A → Bool) (xs : List A) (x : A)
    → all p xs ≡ true
    → p x ≡ true
    → all p (xs ++ x ∷ []) ≡ true
all-append p [] x h g = ground arith
all-append p (y ∷ ys) x h g = ground (arith, all-append p ys x)

module _ {V : Type 0} where
  -- What is there stays there.
  has-insert : (k j : String) (x : V) (m : Dict V) → has j m ≡ true → has j (insert k x m) ≡ true
  has-insert k j x m h = ground (arith, lookup-insert k j x m)

  IsKnown-insert :
      (k : String) (x : V) (m : Dict V) (ns : List Node)
      → IsKnown (λ j. has j m) ns
      → IsKnown (λ j. has j (insert k x m)) ns
  IsKnown-insert k x m [] h = refl
  IsKnown-insert k x m (n ∷ ns) h = ground (arith, has-insert k n.id x m, IsKnown-insert k x m ns)

  All-lookup :
      (P : String → V → Type 0) (k : String) (x : V) (m : Dict V)
      → All (λ e. P e.0 e.1) m
      → lookup k m ≡ some x
      → P k x
  unfolding lookup
  All-lookup P k x [] h g = absurd (cc g)
  All-lookup P k x ((j, y) ∷ m) h g = elim (Bool-cases (str_eq j k)) as (λ b. P k x) [
    | inl e ↦
        let same : j ≡ k = ground (arith, eq_iff j k) in
        let here : y ≡ x = cc (rw e at g) in subst (λ i. P i x) same (subst (P j) here h.0)
    | inr e ↦ All-lookup P k x m h.1 (rw e at g)
  ]

module _ (P : PoolNodeSpec → Type 0) (job : Job) where
  abbrev pub IsGood : PoolNodeSpec → Type 0
  IsGood p = P p × (contains_in_slice job.datacenters (datacenter_of p) ≡ true)

  pub record IsSound (c : Candidates) : Type 0 where
    pub nodes_known : IsKnown (λ k. has k c.by_name) c.nodes
    pub groups_known : All (λ g. IsKnown (λ k. has k c.by_name) g.1) c.by_group
    pub pools_good : All (λ e. IsGood e.1) c.by_name
    pub names_barred : All (λ e. is_some (after_bar e.0) ≡ true) c.by_name

  accept-IsSound :
      (lcs name : String) (node : Node) (p : PoolNodeSpec) (c : Candidates)
      → node.id ≡ name
      → is_some (after_bar name) ≡ true
      → IsGood p
      → IsSound c
      → IsSound (accept lcs name node p c)
  unfolding accept
  accept-IsSound lcs name node p c named barred good s =
      let known : has node.id (insert name p c.by_name) ≡ true =
        ground (arith, lookup-insert name node.id p c.by_name, eq_iff name node.id) in
      let grown : (ns : List Node)
          → IsKnown (λ k. has k c.by_name) ns
          → IsKnown (λ k. has k (insert name p c.by_name)) (ns ++ node ∷ []) =
        λ ns h.
          all-append (λ n. has n.id (insert name p c.by_name)) ns node
            (IsKnown-insert name p c.by_name ns h) known in
      record {
        nodes_known = grown c.nodes s.nodes_known;
        groups_known =
            All-insert (λ g. IsKnown (λ k. has k (insert name p c.by_name)) g.1) lcs _ c.by_group
              (grown _ (group-IsKnown (λ k. has k c.by_name) lcs c.by_group s.groups_known))
              (All-mono (λ g. IsKnown-insert name p c.by_name g.1) c.by_group s.groups_known);
        pools_good = All-insert (λ e. IsGood e.1) name p c.by_name good s.pools_good;
        names_barred =
            All-insert (λ e. is_some (after_bar e.0) ≡ true) name p c.by_name barred s.names_barred;
      }

  module _ (itoa : ℤ → String) (plain : (n : ℤ) → after_bar (itoa n) ≡ none)
      (hash_text : String → Dict Variant → String) (canonicalize : Node → Node)
      (canonicalize_keeps : (n : Node) → canonicalize n ≡ n) where
    get_node-datacenter :
        (uid : String) (p : PoolNodeSpec)
        → (get_node itoa canonicalize uid p).datacenter ≡ datacenter_of p
    unfolding get_node raw_node
    get_node-datacenter uid p = rw (canonicalize_keeps (raw_node itoa uid p)) refl

    get_node-id : (uid : String) (p : PoolNodeSpec) → (get_node itoa canonicalize uid p).id ≡ uid
    unfolding get_node raw_node
    get_node-id uid p = rw (canonicalize_keeps (raw_node itoa uid p)) refl

    add_candidate-IsSound :
        (p : PoolNodeSpec) (c : Candidates)
        → P p
        → IsSound c
        → IsSound (add_candidate itoa hash_text canonicalize job p c)
    unfolding add_candidate
    add_candidate-IsSound p c h s =
        let node = get_node itoa canonicalize (name_of itoa hash_text p) p in
        elim (Bool-cases (contains_in_slice job.datacenters node.datacenter)) [
          | inr e ↦ rw e s
          | inl e ↦ rw e (
              accept-IsSound (compute_class hash_text p) (name_of itoa hash_text p) node p c
                (get_node-id (name_of itoa hash_text p) p)
                (rw (after_bar-name_of itoa plain hash_text p) refl)
                (h, rw (get_node-datacenter (name_of itoa hash_text p) p) at e) s)
        ]

    candidates-IsSound :
        (pools : List PoolNodeSpec) (c : Candidates)
        → All P pools
        → IsSound c
        → IsSound (candidates itoa hash_text canonicalize job pools c)
    unfolding candidates
    candidates-IsSound [] c h s = s
    candidates-IsSound (p ∷ pools) c h s =
        candidates-IsSound pools (add_candidate itoa hash_text canonicalize job p c) h.1
          (add_candidate-IsSound p c h.0 s)

indexed : (pools : List PoolNodeSpec) → All (λ p. (i : ℕ) × (get_elem? pools i ≡ some p)) pools
indexed [] = tt
indexed (p ∷ pools) = ((0, refl), All-mono (λ q at. (suc at.0, at.1)) pools (indexed pools))

All-map_values :
    {V W : Type 0} (Q : V → Type 0) (R : W → Type 0) (f : String → V → W) (m : Dict V)
    → ((k : String) (x : V) → Q x → R (f k x))
    → All (λ e. Q e.1) m
    → All (λ e. R e.1) (map_values f m)
unfolding map_values
All-map_values Q R f [] h g = tt
All-map_values Q R f ((k, x) ∷ m) h g = (h k x g.0, All-map_values Q R f m h g.1)

-- The pool of a name that was chosen.
chosen-IsSuited :
    (job : Job) (pools : List PoolNodeSpec) (b : Bool) (o : Option PoolNodeSpec)
    → ((p : PoolNodeSpec) → o ≡ some p → IsPoolOf job pools p)
    → IsSuited job pools (if b then none else o)
chosen-IsSuited job pools true o h = tt
chosen-IsSuited job pools false none h = tt
chosen-IsSuited job pools false (some p) h = h p refl

module _ {Stack : Type 0} (sched : Scheduler Stack) (new_stack : Job → Stack) (job : Job)
    (itoa : ℤ → String) (plain : (n : ℤ) → after_bar (itoa n) ≡ none)
    (hash_text : String → Dict Variant → String) (canonicalize : Node → Node)
    (canonicalize_keeps : (n : Node) → canonicalize n ≡ n) (sort : List Node → List Node)
    (sort_keeps : (p : Node → Bool) (ns : List Node)
      → all p ns ≡ true
      → all p (sort ns) ≡ true) where
  -- Where the text of a number has no bar, making a node canonical changes nothing of it, and sorting
  -- keeps what holds of all nodes: GetOptimalPoolSpec does not panic, and each pool that it returns for a
  -- task group is one of the list, with a datacenter of the job. It may also be no pool.
  pub get_optimal_pool_spec-IsSuited :
      (pools : List PoolNodeSpec)
      → (r : Dict (Option PoolNodeSpec)) × (get_optimal_pool_spec sched new_stack job itoa hash_text
            canonicalize sort pools
          ≡ some r)
        × All (λ e. IsSuited job pools e.1) r
  unfolding get_optimal_pool_spec
  get_optimal_pool_spec-IsSuited pools =
      let c = candidates itoa hash_text canonicalize job pools no_candidates in
      let sound =
        candidates-IsSound (λ p. (i : ℕ) × (get_elem? pools i ≡ some p)) job itoa plain hash_text
          canonicalize canonicalize_keeps pools no_candidates (indexed pools)
          (record { nodes_known = refl; groups_known = tt; pools_good = tt; names_barred = tt }) in
      let known : String → Bool = λ k. has k c.by_name in
      let is_barred : (k : String)
          → (p : PoolNodeSpec) × (lookup k c.by_name ≡ some p)
          → is_some (after_bar k) ≡ true =
        λ k at.
          All-lookup (λ k p. is_some (after_bar k) ≡ true) k at.0 c.by_name sound.names_barred
            at.1 in
      let (names, e, answered) =
        choose_all-IsAnswered known sched new_stack job (map_values (λ lcs. sort) c.by_group)
          (λ k h. is_barred k (found k c.by_name h))
          (get_suitable_nodes sched new_stack "" job c.nodes) []
          (All-map_values (λ ns. IsKnown known ns) (λ ns. IsKnown known ns) (λ lcs. sort) c.by_group
            (λ k ns. sort_keeps (λ n. known n.id) ns) sound.groups_known)
          (get_suitable_nodes-IsAnswered known sched new_stack "" job c.nodes sound.nodes_known)
          tt in
      (
        map_values (λ tg_name name. if str_eq name "" then none else lookup name c.by_name) names,
        rw e refl,
        All-map_values (λ name. known_or_none known name ≡ true) (IsSuited job pools)
            (λ tg_name name. if str_eq name "" then none else lookup name c.by_name) names
            (λ tg_name name h.
              chosen-IsSuited job pools (str_eq name "") (lookup name c.by_name)
                (λ p at. All-lookup (λ k. IsPoolOf job pools) name p c.by_name sound.pools_good at))
            answered,
      )
