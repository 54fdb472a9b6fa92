-- ===== src/NodeProvider/Aws/Seen.antt =====
-- What nodeprovider/awsautoscalegroupv2.go knows of the instances: which are in the group, and which of
-- them the pool has seen.
use nomad_ondemand_scaler.Prelude.{
  ℕ, ◌≡◌, refl, String, Bool, true, false, not, ◌&&◌, ◌||◌, List, [], ◌∷◌, any, str_eq, eq_iff,
  arith, get_or_else,
}
use nomad_ondemand_scaler.Prelude.Dict.{
  Dict, lookup, has, IsKeyed, lookup-insert, lookup-map_values, map_option,
}
use nomad_ondemand_scaler.Nomad.{Node}
use nomad_ondemand_scaler.NodeProvider.Aws.{
  Provider, keep_seen, instance_of, mark_seen, refresh, instances_to_remove,
}

-- After a refresh the instances are those of the answer, each seen if it was seen before or the answer
-- says so; and the one that is asked for is seen now, if it is there.
pub mark_seen-refresh :
    (id j : String) (now : ℕ) (new : Dict Bool) (c : Provider)
    → let (c', there) = mark_seen id (refresh now new c) in
      (there ≡ has id new)
      × (lookup j c'.state
          ≡ map_option (λ seen. str_eq id j || get_or_else (lookup j c.state) seen) (lookup j new))
      × (c'.last_updatetime ≡ now)
unfolding mark_seen refresh keep_seen
mark_seen-refresh id j now new c = ground (
  arith,
  lookup-map_values (λ (k : String) (seen : Bool). get_or_else (lookup k c.state) seen) id new,
  lookup-map_values (λ (k : String) (seen : Bool). get_or_else (lookup k c.state) seen) j new,
  lookup-insert id j true (keep_seen c.state new),
  eq_iff id j,
)

-- Among instances with different ids, one is removed when the size is set exactly if the pool has seen
-- it and does not name it.
pub is_in-instances_to_remove :
    (id : String) (nodes : List Node) (state : Dict Bool)
    → IsKeyed state
    → any (λ k. str_eq k id) (instances_to_remove nodes state)
      ≡ get_or_else (lookup id state) false && not (any (λ n. str_eq (instance_of n) id) nodes)
unfolding instances_to_remove lookup
is_in-instances_to_remove id nodes [] h = refl
is_in-instances_to_remove id nodes ((k, seen) ∷ rest) h =
    ground (arith, is_in-instances_to_remove id nodes rest h.1, eq_iff k id, h.0)
