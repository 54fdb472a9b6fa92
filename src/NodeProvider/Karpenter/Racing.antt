-- ===== src/NodeProvider/Karpenter/Racing.antt =====
-- The provider of nodeprovider/karpenter.go beside the goroutines that add instances. A call of `UpdateNode`
-- or of `IsNodeExists` is one step, or, where another one comes between its sections under the lock, its
-- sections are steps of their own. A goroutine may end between any two steps.
use nomad_ondemand_scaler.Prelude.{
  ℕ, zero, suc, ◌-◌, ◌≤◌, ◌≡◌, String, Bool, Option, none, some, List, [], ◌∷◌, ◌++◌, get_elem?,
  erase_idx,
}
use nomad_ondemand_scaler.Prelude.Dict.{Dict, lookup}
use nomad_ondemand_scaler.Nomad.{Node}
use nomad_ondemand_scaler.Prelude.Int.{pos, ◌-ℤ◌}
use nomad_ondemand_scaler.NodeProvider.Aws.{mark_seen, refresh, instance_of}
use nomad_ondemand_scaler.NodeProvider.Karpenter.{
  Karpenter, Sized, enough, asked, too_many, is_node_exists, update_node, ask_for, awaited,
  forget_ids, list_until_done, finish_adding,
}

-- A goroutine: its key, the instances that it was started for, and those that it still asks for.
pub record Adder : Type 0 where
  pub key : String
  pub wanted : ℕ
  pub left : ℕ

pub record World : Type 0 where
  pub provider : Karpenter
  pub adders : List Adder

unfoldable pub start_adder : String → Sized → List Adder → List Adder
start_adder key enough adders = adders
start_adder key too_many adders = adders
start_adder key (asked n) adders = adders ++ record { key = key; wanted = n; left = n } ∷ []

-- The loop's `_inccount` goes down by an answer of some instances.
unfoldable pub go_on : ℕ → ℕ → List Adder → List Adder
go_on i n [] = []
go_on zero n (a ∷ adders) = record a { left = a.left - n } ∷ adders
go_on (suc i) n (a ∷ adders) = a ∷ go_on i n adders

pub data Step (w : World) : World → Type 0 where
  registers :
      (registered : String → Bool) (now : ℕ) (answers : List (Option (List String))) (n : Node)
      (r : Karpenter × Bool)
      → is_node_exists registered now answers n w.provider ≡ some r
      → Step w (record w { provider = r.0 })
  -- The second section of IsNodeExists; the first one changes nothing, and the plugin is asked in between.
  refreshes :
      (now : ℕ) (answers : List (Option (List String))) (new : Dict Bool) (n : Node)
      → list_until_done answers [] ≡ some new
      → Step w (record w {
        provider = record (w.provider) {
          known = (mark_seen (instance_of n) (refresh now new w.provider.known)).0;
        };
      })
  -- The section of a batch of a removal.
  forgets :
      (ids : List String)
      → Step w (record w {
        provider = record (w.provider) {
          known = record (w.provider.known) { state = forget_ids ids w.provider.known.state };
        };
      })
  updates :
      (key : String) (answers : List (List Bool)) (nodes : List Node) (total : ℕ)
      (r : Karpenter × Sized)
      → lookup key w.provider.incephemeral ≡ none
      → update_node key answers nodes total w.provider ≡ some r
      → Step w (record { provider = r.0; adders = start_adder key r.1 w.adders })
  -- The last section of UpdateNode, by the instances that its first section counted and found to be removed.
  -- By now there may be any number of them.
  asks :
      (key : String) (total count gone : ℕ) (r : Karpenter × Sized)
      → lookup key w.provider.incephemeral ≡ none
      → r
        ≡ ask_for key
            (pos total -ℤ (pos count -ℤ pos gone) -ℤ pos (awaited w.provider.incephemeral))
            w.provider.known.state
            w.provider
      → Step w (record { provider = r.0; adders = start_adder key r.1 w.adders })
  -- The plugin adds at most as many as are asked for.
  adds :
      (i n : ℕ) (a : Adder)
      → get_elem? w.adders i ≡ some a
      → n ≤ a.left
      → Step w (record w { adders = go_on i n w.adders })
  -- All are there, or the context is over.
  finishes :
      (i : ℕ) (a : Adder)
      → get_elem? w.adders i ≡ some a
      → Step w (record { provider = finish_adding a.key w.provider; adders = erase_idx w.adders i })

pub data Reach (w : World) : World → Type 0 where
  here : Reach w w
  next : {v u : World} → Reach w v → Step v u → Reach w u
