-- ===== src/NodeProvider/Karpenter/Tracked.antt =====
-- Whatever the goroutines of nodeprovider/karpenter.go do, what it awaits is what they were started for.
use nomad_ondemand_scaler.Prelude.{
  ℕ, zero, suc, ◌+◌, ◌≤◌, ◌<◌, ◌≡◌, refl, subst, ap, ◌∙◌, sym, String, Bool, true, false, Option,
  none, some, List, [], ◌∷◌, all, length, arith, get_or_else, Bool-cases, Option-cases, inl, inr,
  ltb,
}
use nomad_ondemand_scaler.Prelude.Int.{ℤ, pos, negsuc, ◌-ℤ◌}
use nomad_ondemand_scaler.Prelude.Dict.{
  Dict, lookup, insert, delete, has, IsKeyed, insert-IsKeyed, delete-IsKeyed, map_values-IsKeyed,
}
use nomad_ondemand_scaler.Nomad.{Node}
use nomad_ondemand_scaler.NodeProvider.Aws.{Provider}
use nomad_ondemand_scaler.NodeProvider.Karpenter.{
  Karpenter, Sized, enough, asked, too_many, awaited, is_node_exists, update_node, remove_ids,
  finish_adding,
}
use nomad_ondemand_scaler.NodeProvider.Aws.{
  keep_seen, mark_seen, refresh, get_last_register_event, instance_of, instances_to_remove, batches,
}
use nomad_ondemand_scaler.NodeProvider.Karpenter.{
  ask_for, forget_ids, is_done, remove_batches, list_until_done, read_listed, with_known,
}
use nomad_ondemand_scaler.NodeProvider.Karpenter.Racing.{
  World, Step, Reach, registers, refreshes, forgets, asks, updates, adds, finishes, here, next,
  start_adder,
}
use nomad_ondemand_scaler.NodeProvider.Karpenter.Adders.{
  entries, coming, IsModest, coming-le, insert-new, delete-entries, entries-go_on, IsModest-append,
  IsModest-erase_idx, IsModest-go_on,
}
use nomad_ondemand_scaler.NodeProvider.Karpenter.Sizes.{IsBalanced, update_node-IsBalanced}

pub record IsTracked (w : World) : Type 0 where
  pub tracked : w.provider.incephemeral ≡ entries w.adders
  pub keyed : IsKeyed (entries w.adders)
  pub modest : IsModest w.adders
  pub once : IsKeyed w.provider.known.state

pub read_listed-IsKeyed :
    (ids : List String) (m : Dict Bool) → IsKeyed m → IsKeyed (read_listed ids m)
unfolding read_listed
read_listed-IsKeyed [] m h = h
read_listed-IsKeyed (id ∷ ids) m h =
    read_listed-IsKeyed ids (insert id false m) (insert-IsKeyed id false m h)

list_until_done-IsKeyed :
    (answers : List (Option (List String))) (m new : Dict Bool)
    → list_until_done answers m ≡ some new
    → IsKeyed m
    → IsKeyed new
unfolding list_until_done
list_until_done-IsKeyed [] m new h k = absurd (cc h)
list_until_done-IsKeyed (none ∷ answers) m new h k = list_until_done-IsKeyed answers m new h k
list_until_done-IsKeyed (some ids ∷ answers) m new h k =
    let same : read_listed ids m ≡ new = cc h in subst IsKeyed same (read_listed-IsKeyed ids m k)

keep_seen-IsKeyed : (old new : Dict Bool) → IsKeyed new → IsKeyed (keep_seen old new)
unfolding keep_seen
keep_seen-IsKeyed old new h = map_values-IsKeyed (λ id seen. get_or_else (lookup id old) seen) new h

mark_seen-IsKeyed :
    (id : String) (c : Provider) → IsKeyed c.state → IsKeyed (mark_seen id c).0.state
unfolding mark_seen
mark_seen-IsKeyed id c h = elim (Bool-cases (has id c.state)) [
  | inl e ↦ rw e (insert-IsKeyed id true c.state h)
  | inr e ↦ rw e h
]

forget_ids-IsKeyed : (ids : List String) (m : Dict Bool) → IsKeyed m → IsKeyed (forget_ids ids m)
unfolding forget_ids
forget_ids-IsKeyed [] m h = h
forget_ids-IsKeyed (id ∷ ids) m h = forget_ids-IsKeyed ids (delete id m) (delete-IsKeyed id m h)

remove_batches-IsKeyed :
    (bs : List (List String)) (ids : List String) (answers : List (List Bool)) (m m' : Dict Bool)
    → remove_batches bs ids answers m ≡ some m'
    → IsKeyed m
    → IsKeyed m'
unfolding remove_batches
remove_batches-IsKeyed [] ids answers m m' h k = let same : m ≡ m' = cc h in subst IsKeyed same k
remove_batches-IsKeyed (b ∷ bs) ids [] m m' h k = absurd (cc h)
remove_batches-IsKeyed (b ∷ bs) ids (a ∷ answers) m m' h k = elim (Bool-cases (is_done a)) [
  | inl e ↦
      remove_batches-IsKeyed bs ids answers (forget_ids ids m) m' (rw e at h)
        (forget_ids-IsKeyed ids m k)
  | inr e ↦ absurd (cc (rw e at h))
]

-- What a registration leaves of the provider.
abbrev Kept : Karpenter → Karpenter × Bool → Type 0
Kept k r = (r.0.incephemeral ≡ k.incephemeral) × IsKeyed r.0.known.state

is_node_exists-fields :
    (registered : String → Bool) (now : ℕ) (answers : List (Option (List String))) (n : Node)
    (k : Karpenter) (r : Karpenter × Bool)
    → is_node_exists registered now answers n k ≡ some r
    → IsKeyed k.known.state
    → Kept k r
unfolding is_node_exists refresh keep_seen
is_node_exists-fields registered now answers n k r h g =
    elim (Option-cases (get_last_register_event registered n.events)) [
      | inl e ↦ absurd (cc (rw (e, is_node_exists) at h))
      | inr (event, e) ↦ elim (Bool-cases (ltb k.known.last_updatetime event.timestamp)) [
        | inl late ↦ elim (Option-cases (list_until_done answers [])) [
          | inl f ↦ absurd (cc (rw (e, late, f, is_node_exists) at h))
          | inr (new, f) ↦
              let same : with_known k (mark_seen (instance_of n) (refresh now new k.known)) ≡ r =
                cc (rw (e, late, f, is_node_exists) at h) in
              subst (Kept k) same (
                refl,
                mark_seen-IsKeyed (instance_of n) (refresh now new k.known) (
                    keep_seen-IsKeyed k.known.state new
                      (list_until_done-IsKeyed answers [] new f tt)),
              )
        ]
        | inr early ↦
            let same : with_known k (mark_seen (instance_of n) k.known) ≡ r =
              cc (rw (e, early, is_node_exists) at h) in
            subst (Kept k) same (refl, mark_seen-IsKeyed (instance_of n) k.known g)
      ]
    ]

update_node-some :
    (key : String) (answers : List (List Bool)) (nodes : List Node) (total : ℕ) (k : Karpenter)
    (r : Karpenter × Sized)
    → update_node key answers nodes total k ≡ some r
    → (state : Dict Bool) × (z : ℤ) × (remove_ids
          (instances_to_remove nodes k.known.state)
          answers
          k.known.state
        ≡ some state)
      × (ask_for key z state k ≡ r)
unfolding update_node
update_node-some key answers nodes total k r h =
    let ids = instances_to_remove nodes k.known.state in
    elim (Option-cases (remove_ids ids answers k.known.state)) [
      | inl e ↦ absurd (cc (rw (e, update_node) at h))
      | inr (state, e) ↦ (
        state,
        pos total
            -ℤ (pos (length k.known.state) -ℤ pos (length ids))
            -ℤ pos (awaited k.incephemeral),
        e,
        cc (rw (e, update_node) at h),
      )
    ]

ask_for-IsTracked :
    (key : String) (z : ℤ) (state : Dict Bool) (w : World)
    → lookup key w.provider.incephemeral ≡ none
    → IsKeyed state
    → IsTracked w
    → let r = ask_for key z state w.provider in
      IsTracked (record { provider = r.0; adders = start_adder key r.1 w.adders })
unfolding ask_for start_adder
ask_for-IsTracked key (pos zero) state w fresh once h = record {
  tracked = h.tracked;
  keyed = h.keyed;
  modest = h.modest;
  once = once;
}
ask_for-IsTracked key (pos (suc n)) state w fresh once h =
    let same = insert-new key (suc n) w.adders (rw (sym h.tracked) fresh) in
    record {
      tracked = ap (insert key (suc n)) h.tracked ∙ same;
      keyed = subst IsKeyed same (insert-IsKeyed key (suc n) (entries w.adders) h.keyed);
      modest =
          IsModest-append w.adders (record { key = key; wanted = suc n; left = suc n }) h.modest
            (omega arith);
      once = once;
    }
ask_for-IsTracked key (negsuc n) state w fresh once h = record {
  tracked = h.tracked;
  keyed = h.keyed;
  modest = h.modest;
  once = once;
}

pub Step-IsTracked : (w v : World) → Step w v → IsTracked w → IsTracked v
unfolding finish_adding remove_ids refresh keep_seen
Step-IsTracked w v (registers registered now answers n r h) g =
    let kept = is_node_exists-fields registered now answers n w.provider r h g.once in
    record { tracked = kept.0 ∙ g.tracked; keyed = g.keyed; modest = g.modest; once = kept.1 }
Step-IsTracked w v (refreshes now answers new n listed) g = record {
  tracked = g.tracked;
  keyed = g.keyed;
  modest = g.modest;
  once = mark_seen-IsKeyed (instance_of n) (refresh now new w.provider.known) (
      keep_seen-IsKeyed w.provider.known.state new
        (list_until_done-IsKeyed answers [] new listed tt));
}
Step-IsTracked w v (forgets ids) g = record {
  tracked = g.tracked;
  keyed = g.keyed;
  modest = g.modest;
  once = forget_ids-IsKeyed ids w.provider.known.state g.once;
}
Step-IsTracked w v (asks key total count gone r fresh same) g =
    subst (λ r. IsTracked (record { provider = r.0; adders = start_adder key r.1 w.adders }))
      (sym same)
      (ask_for-IsTracked key
        (pos total -ℤ (pos count -ℤ pos gone) -ℤ pos (awaited w.provider.incephemeral))
        w.provider.known.state w fresh g.once g)
Step-IsTracked w v (updates key answers nodes total r fresh h) g =
    let (state, z, removed, same) = update_node-some key answers nodes total w.provider r h in
    let ids = instances_to_remove nodes w.provider.known.state in
    subst (λ r. IsTracked (record { provider = r.0; adders = start_adder key r.1 w.adders })) same
      (ask_for-IsTracked key z state w fresh
        (remove_batches-IsKeyed (batches ids) ids answers w.provider.known.state state removed
          g.once)
        g)
Step-IsTracked w v (adds i n a h le) g = record {
  tracked = g.tracked ∙ sym (entries-go_on i n w.adders);
  keyed = subst IsKeyed (sym (entries-go_on i n w.adders)) g.keyed;
  modest = IsModest-go_on i n w.adders g.modest;
  once = g.once;
}
Step-IsTracked w v (finishes i a h) g =
    let same = delete-entries w.adders i a h g.keyed in
    record {
      tracked = ap (delete a.key) g.tracked ∙ same;
      keyed = subst IsKeyed same (delete-IsKeyed a.key (entries w.adders) g.keyed);
      modest = IsModest-erase_idx w.adders i g.modest;
      once = g.once;
    }

-- From a provider that knows each instance once and awaits none, after any steps of calls, of their sections
-- and of goroutines, where the plugin never adds more than is asked for: `incephemeral` has exactly
-- the instances that the goroutines at work were started for, each under a key of its own, none of them
-- still adds more than it was started for, and each instance is known once.
pub Reach-IsTracked :
    (known : Provider) (v : World)
    → IsKeyed known.state
    → Reach (record { provider = record { known = known; incephemeral = [] }; adders = [] }) v
    → IsTracked v
Reach-IsTracked known v once here = record { tracked = refl; keyed = tt; modest = tt; once = once }
Reach-IsTracked known v once (next steps step) =
    Step-IsTracked _ v step (Reach-IsTracked known _ once steps)

-- What is known and what the goroutines will still add, against what is wanted.
abbrev pub IsWithin : ℕ → World → Sized → Type 0
IsWithin total w too_many = total < length w.provider.known.state + awaited (entries w.adders)
IsWithin total w _ = length w.provider.known.state + coming w.adders ≤ total

IsBalanced-IsWithin :
    (total : ℕ) (w : World) (o : Sized)
    → IsTracked w
    → IsBalanced total w.provider o
    → IsWithin total w o
IsBalanced-IsWithin total w enough h g =
    omega (arith, g, ap awaited h.tracked, coming-le w.adders h.modest)
IsBalanced-IsWithin total w (asked n) h g =
    omega (arith, g, ap awaited h.tracked, coming-le w.adders h.modest)
IsBalanced-IsWithin total w too_many h g = omega (arith, g, ap awaited h.tracked)

-- From a provider that knows each instance once and awaits none, after any steps of calls, of their sections
-- and of goroutines, where the plugin never adds more than is asked for: if the random text is new and each
-- batch of the instances to remove has an answer that ends in success, an `UpdateNode` with nothing between
-- its sections is a step that can be taken, and after it the instances that are known and those that all
-- goroutines will still add are at most as many as are wanted; or `UpdateNode` returns an error, and the
-- instances that are known and those that the goroutines were started for are more.
pub updates-IsWithin :
    (known : Provider) (w : World) (key : String) (answers : List (List Bool)) (nodes : List Node)
    (total : ℕ)
    → IsKeyed known.state
    → Reach (record { provider = record { known = known; incephemeral = [] }; adders = [] }) w
    → lookup key w.provider.incephemeral ≡ none
    → all is_done answers ≡ true
    → length (batches (instances_to_remove nodes w.provider.known.state)) ≤ length answers
    → (v : World) × (o : Sized) × (update_node key answers nodes total w.provider
        ≡ some (v.provider, o))
      × Step w v
      × IsWithin total v o
updates-IsWithin known w key answers nodes total once steps fresh done many =
    let tracked = Reach-IsTracked known w once steps in
    let (k, o, gives, left, balanced) =
      update_node-IsBalanced key answers nodes total w.provider tracked.once fresh done many in
    let v : World = record { provider = k; adders = start_adder key o w.adders } in
    let step : Step w v = updates key answers nodes total (k, o) fresh gives in
    (v, o, gives, step, IsBalanced-IsWithin total v o (Step-IsTracked w v step tracked) balanced)
