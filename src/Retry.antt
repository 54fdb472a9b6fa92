-- ===== src/Retry.antt =====
-- The queries of util.go that are repeated until nomad gives an answer that is not too stale. The
-- replies of nomad are an argument; `none` means that the loop still asks when they are used up.
pub mod Fresh
use nomad_ondemand_scaler.Prelude.{
  Bool, true, false, ◌&&◌, Option, none, some, List, [], ◌∷◌, if◌then◌else◌,
}
use nomad_ondemand_scaler.Prelude.Int.{ℤ, ltb_ℤ}
use nomad_ondemand_scaler.Nomad.{Job}
use nomad_ondemand_scaler.Evals.{JobEval}

-- The duration is signed, as decoded: below zero, each answer is too stale.
pub record StaleApiConfig : Type 0 where
  pub allow : Bool
  pub stale_allowed_duration : ℤ

-- An error, or an answer with the time since the server's last contact with the leader.
pub data Reply {ℓ} (A : Type ℓ) : Type ℓ where
  failed : Reply A
  answered : A → ℤ → Reply A

module _ {ℓ} {A : Type ℓ} (cfg : StaleApiConfig) where
  -- `allow_stale` is the option of the next request. With the answer come the options of all
  -- requests that were made.
  unfoldable pub ask : Bool → List (Reply A) → Option (A × List Bool)
  ask allow_stale [] = none
  ask allow_stale (failed ∷ rest) = elim (ask allow_stale rest) [
    | none ↦ none
    | some (a, options) ↦ some (a, allow_stale ∷ options)
  ]
  ask allow_stale (answered a contact ∷ rest) =
      let again : Option (A × List Bool) = elim (ask false rest) [
        | none ↦ none
        | some (b, options) ↦ some (b, allow_stale ∷ options)
      ] in
      if cfg.allow && ltb_ℤ cfg.stale_allowed_duration contact
      then again
      else some (a, allow_stale ∷ [])

  unfoldable pub with_retry : List (Reply A) → Option (A × List Bool)
  unfolding ask
  with_retry replies = ask cfg.allow replies

-- `canonicalize` is nomad's.
unfoldable pub get_job_info_from_eval_with_retry :
    (Job → Job) → StaleApiConfig → List (Reply Job) → Option (Job × List Bool)
unfolding with_retry
get_job_info_from_eval_with_retry canonicalize cfg replies = elim (with_retry cfg replies) [
  | none ↦ none
  | some (job, options) ↦ some (canonicalize job, options)
]

unfoldable pub get_job_allocations_from_eval_with_retry {ℓ} :
    {Stub : Type ℓ} → StaleApiConfig → List (Reply (List Stub)) → Option (List Stub × List Bool)
unfolding with_retry
get_job_allocations_from_eval_with_retry cfg replies = with_retry cfg replies

unfoldable pub get_job_evals_from_eval_with_retry :
    StaleApiConfig → List (Reply (List JobEval)) → Option (List JobEval × List Bool)
unfolding with_retry
get_job_evals_from_eval_with_retry cfg replies = with_retry cfg replies

unfoldable pub get_job_summary_with_retry {ℓ} :
    {Summary : Type ℓ} → StaleApiConfig → List (Reply Summary) → Option (Summary × List Bool)
unfolding with_retry
get_job_summary_with_retry cfg replies = with_retry cfg replies
