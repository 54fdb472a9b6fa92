-- ===== src/PoolSpec/Known.antt =====
-- The ids of nodes that `getSuitableNodes` and the loops after it in poolnodespec.go return: each is
-- that of a candidate, or there is none.
use nomad_ondemand_scaler.Prelude.{
  ◌≡◌, refl, String, Bool, true, ◌||◌, Option, none, some, List, [], ◌∷◌, str_eq, ◌==◌, get_or_else,
  filterb, length, all, All, arith, eq_iff, Bool-cases, Option-cases, inl, inr, is_some,
}
use nomad_ondemand_scaler.Prelude.Dict.{Dict, lookup, insert}
use nomad_ondemand_scaler.Nomad.{Node, TaskGroup, Job, Scheduler, has_node}
use nomad_ondemand_scaler.PoolSpec.Suitable.{
  has_no_devices, id_of, second_try, suit_group, suit_groups, get_suitable_nodes, first_answer,
  put_answer, choose_from, choose, choose_all, after_bar,
}

module _ {V : Type 0} where
  pub All-insert :
      (P : String × V → Type 0) (k : String) (x : V) (m : Dict V)
      → P (k, x)
      → All P m
      → All P (insert k x m)
  unfolding insert
  All-insert P k x [] h g = (h, tt)
  All-insert P k x ((j, y) ∷ m) h g =
      elim (Bool-cases (str_eq j k)) as (λ b. All P (insert k x ((j, y) ∷ m))) [
        | inl e ↦ rw e (h, g.1)
        | inr e ↦ rw e (g.0, All-insert P k x m h g.1)
      ]

all-filterb :
    {A : Type 0} (p q : A → Bool) (xs : List A) → all p xs ≡ true → all p (filterb q xs) ≡ true
all-filterb p q [] h = refl
all-filterb p q (x ∷ xs) h = ground (arith, all-filterb p q xs)

module _ (known : String → Bool) where
  abbrev pub IsKnown : List Node → Type 0
  IsKnown ns = all (λ n. known n.id) ns ≡ true

  -- A text that names a candidate, or nothing.
  abbrev pub known_or_none : String → Bool
  known_or_none k = str_eq k "" || known k

  abbrev pub IsAnswered : Dict String → Type 0
  IsAnswered = All (λ e. known_or_none e.1 ≡ true)

  known_node : (k : String) (ns : List Node) → IsKnown ns → has_node k ns ≡ true → known k ≡ true
  known_node k [] h g = absurd (cc g)
  known_node k (n ∷ ns) h g = ground (arith, eq_iff n.id k, known_node k ns)

  pub group-IsKnown :
      (lcs : String) (groups : Dict (List Node))
      → All (λ g. IsKnown g.1) groups
      → IsKnown (get_or_else (lookup lcs groups) [])
  unfolding lookup
  group-IsKnown lcs [] h = refl
  group-IsKnown lcs ((j, ns) ∷ groups) h = ground (arith, h.0, group-IsKnown lcs groups h.1)

  module _ {Stack : Type 0} (sched : Scheduler Stack) where
    select-known :
        (tg : TaskGroup) (ns : List Node) (s : Stack)
        → IsKnown ns
        → known_or_none (id_of (sched.select tg [] (sched.set_nodes ns s)).1) ≡ true
    select-known tg ns s h = elim (Option-cases (sched.select tg [] (sched.set_nodes ns s)).1) [
      | inl e ↦ rw e refl
      | inr (n, e) ↦
          let found = sched.select_sound tg [] (sched.set_nodes ns s) n e in
          ground (arith, e, known_node n.id ns h (rw (sched.set_nodes_lem ns s) at found))
    ]

    second_try-known :
        (ns : List Node) (tg : TaskGroup) (s : Stack) (o : Option Node)
        → IsKnown ns
        → known_or_none (id_of o) ≡ true
        → known_or_none (id_of (second_try sched ns tg s o).1) ≡ true
    unfolding second_try
    second_try-known ns tg s (some r) h g = g
    second_try-known ns tg s none h g = select-known tg ns s h

    suit_group-known :
        (plain ns : List Node) (tg : TaskGroup) (s : Stack)
        → IsKnown plain
        → IsKnown ns
        → known_or_none (id_of (suit_group sched plain ns tg s).1) ≡ true
    unfolding suit_group
    suit_group-known [] ns tg s h g = select-known tg ns s g
    suit_group-known (n ∷ plain) ns tg s h g =
        let tried = sched.select tg [] (sched.set_nodes (n ∷ plain) s) in
        second_try-known ns tg tried.0 tried.1 g (select-known tg (n ∷ plain) s h)

    suit_groups-IsAnswered :
        (name : String) (plain ns : List Node) (tgs : List TaskGroup) (s : Stack)
        (out : Dict String)
        → IsKnown plain
        → IsKnown ns
        → IsAnswered out
        → IsAnswered (suit_groups sched name plain ns tgs s out)
    unfolding suit_groups
    suit_groups-IsAnswered name plain ns [] s out h g a = a
    suit_groups-IsAnswered name plain ns (tg ∷ tgs) s out h g a =
        let placed = suit_group sched plain ns tg s in
        let known_place = suit_group-known plain ns tg s h g in
        elim (Bool-cases (str_eq name "" || str_eq tg.name name)) [
          | inl e ↦ rw e (
              suit_groups-IsAnswered name plain ns tgs placed.0
                (insert tg.name (id_of placed.1) out) h g
                (All-insert (λ e. known_or_none e.1 ≡ true) tg.name (id_of placed.1) out known_place
                  a))
          | inr e ↦ rw e (suit_groups-IsAnswered name plain ns tgs s out h g a)
        ]

    pub get_suitable_nodes-IsAnswered :
        (new_stack : Job → Stack) (name : String) (job : Job) (ns : List Node)
        → IsKnown ns
        → IsAnswered (get_suitable_nodes sched new_stack name job ns)
    unfolding get_suitable_nodes
    get_suitable_nodes-IsAnswered new_stack name job ns h =
        suit_groups-IsAnswered name (filterb has_no_devices ns) ns job.task_groups (new_stack job)
          [] (all-filterb (λ n. known n.id) has_no_devices ns h) h tt

    abbrev pub IsAnswer : Option (String × String) → Type 0
    IsAnswer none = Unit
    IsAnswer (some e) = known_or_none e.1 ≡ true

    first_of :
        (d : Dict String) (later : Option (String × String))
        → IsAnswered d
        → IsAnswer later
        → IsAnswer (elim d [ [] ↦ later | answer ∷ more ↦ some answer ])
    first_of [] later h g = g
    first_of (answer ∷ more) later h g = h.0

    first_answer-IsAnswer :
        (new_stack : Job → Stack) (name : String) (job : Job) (ns : List Node)
        → IsKnown ns
        → IsAnswer (first_answer sched new_stack name job ns)
    unfolding first_answer
    first_answer-IsAnswer new_stack name job [] h = tt
    first_answer-IsAnswer new_stack name job (n ∷ ns) h =
        first_of (get_suitable_nodes sched new_stack name job (n ∷ []))
          (first_answer sched new_stack name job ns)
          (get_suitable_nodes-IsAnswered new_stack name job (n ∷ []) (ground arith))
          (first_answer-IsAnswer new_stack name job ns (ground arith))

    put_answer-IsAnswered :
        (new_stack : Job → Stack) (job : Job) (o : Option (String × String)) (out : Dict String)
        → IsAnswer o
        → IsAnswered out
        → IsAnswered (put_answer sched new_stack job o out)
    unfolding put_answer
    put_answer-IsAnswered new_stack job none out h a = a
    put_answer-IsAnswered new_stack job (some (tg_name, name)) out h a =
        All-insert (λ e. known_or_none e.1 ≡ true) tg_name name out h a

    choose_from-IsAnswered :
        (new_stack : Job → Stack) (job : Job) (group : List Node) (tg_name name : String)
        (out : Dict String)
        → IsKnown group
        → known_or_none name ≡ true
        → IsAnswered out
        → IsAnswered (choose_from sched new_stack job group tg_name name out)
    unfolding choose_from
    choose_from-IsAnswered new_stack job group tg_name name out g k a =
        elim (Bool-cases (length group == 1)) [
          | inl e ↦ rw e (All-insert (λ e. known_or_none e.1 ≡ true) tg_name name out k a)
          | inr e ↦ rw e (
              put_answer-IsAnswered new_stack job (first_answer sched new_stack tg_name job group)
                out (first_answer-IsAnswer new_stack tg_name job group g) a)
        ]

    choose-IsAnswered :
        (new_stack : Job → Stack) (job : Job) (groups : Dict (List Node)) (tg_name name : String)
        (out : Dict String)
        → All (λ g. IsKnown g.1) groups
        → known_or_none name ≡ true
        → (str_eq name "" || is_some (after_bar name)) ≡ true
        → IsAnswered out
        → (r : Dict String) × (choose sched new_stack job groups tg_name name out ≡ some r)
          × IsAnswered r
    unfolding choose
    choose-IsAnswered new_stack job groups tg_name name out g k b a =
        elim (Bool-cases (str_eq name "")) [
          | inl e ↦ (out, rw e refl, a)
          | inr e ↦
              let (lcs, e') : (lcs : String) × (after_bar name ≡ some lcs) =
                elim (Option-cases (after_bar name)) [
                  | inl n ↦ absurd (ground arith)
                  | inr found ↦ found
                ] in
              (
                choose_from sched new_stack job (get_or_else (lookup lcs groups) []) tg_name name
                    out,
                rw (e, e') refl,
                choose_from-IsAnswered new_stack job (get_or_else (lookup lcs groups) []) tg_name
                    name out (group-IsKnown lcs groups g) k a,
              )
        ]

    -- Names of candidates have a class behind a bar.
    pub choose_all-IsAnswered :
        (new_stack : Job → Stack) (job : Job) (groups : Dict (List Node))
        (barred : (k : String) → known k ≡ true → is_some (after_bar k) ≡ true)
        (suitable out : Dict String)
        → All (λ g. IsKnown g.1) groups
        → IsAnswered suitable
        → IsAnswered out
        → (r : Dict String) × (choose_all sched new_stack job groups suitable out ≡ some r)
          × IsAnswered r
    unfolding choose_all
    choose_all-IsAnswered new_stack job groups barred [] out g h a = (out, refl, a)
    choose_all-IsAnswered new_stack job groups barred ((tg_name, name) ∷ suitable) out g h a =
        let (mid, e, a') =
          choose-IsAnswered new_stack job groups tg_name name out g h.0
            (ground (arith, h.0, barred name)) a in
        let (r, e', a'') =
          choose_all-IsAnswered new_stack job groups barred suitable mid g h.1 a' in
        (r, rw (e, e') refl, a'')
