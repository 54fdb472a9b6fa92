-- ===== src/Pools/Listing.antt =====
-- The queries of `createPools` of pool.go, which are made at most twice.
use nomad_ondemand_scaler.Prelude.{ℕ, String, ◌&&◌, Option, none, some, List, if◌then◌else◌}
use nomad_ondemand_scaler.Prelude.Int.{ltb_ℤ}
use nomad_ondemand_scaler.Retry.{StaleApiConfig, Reply, failed, answered}

abbrev pub answer_of : {A : Type 0} → Reply A → Option A
answer_of failed = none
answer_of (answered a contact) = some a

-- The second reply is to a query that does not allow a stale answer.
unfoldable pub asked_twice : {A : Type 0} → StaleApiConfig → Reply A → Reply A → Option A
asked_twice cfg failed second = none
asked_twice cfg (answered a contact) second =
    if cfg.allow && ltb_ℤ cfg.stale_allowed_duration contact then answer_of second else some a

-- The ids of nomad's nodes, and the index that the event stream is opened from.
unfoldable pub list_nodes :
    StaleApiConfig → Reply (List String × ℕ) → Reply (List String × ℕ) → Option (List String × ℕ)
unfolding asked_twice
list_nodes cfg first second = asked_twice cfg first second
