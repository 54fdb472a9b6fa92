-- ===== src/Retry/Fresh.antt =====
-- What the repeated queries of util.go give.
use nomad_ondemand_scaler.Prelude.{
  ◌≡◌, refl, Bool, false, ◌&&◌, Option, none, some, List, [], ◌∷◌, if◌then◌else◌, Bool-cases,
  Option-cases, inl, inr,
}
use nomad_ondemand_scaler.Prelude.Int.{ltb_ℤ}
use nomad_ondemand_scaler.Prelude.Dict.{map_option}
use nomad_ondemand_scaler.Retry.{StaleApiConfig, Reply, failed, answered, ask, with_retry}

module _ {ℓ} {A : Type ℓ} (cfg : StaleApiConfig) where
  abbrev pub is_stale : Reply A → Bool
  is_stale failed = false
  is_stale (answered a contact) = cfg.allow && ltb_ℤ cfg.stale_allowed_duration contact

  -- The first answer that is not too stale.
  abbrev pub first_fresh : List (Reply A) → Option A
  first_fresh [] = none
  first_fresh (failed ∷ rest) = first_fresh rest
  first_fresh (answered a contact ∷ rest) =
      if is_stale (answered a contact) then first_fresh rest else some a

  -- The options of the requests that lead to it: as given, and consistent after a stale answer.
  abbrev pub options_for : Bool → List (Reply A) → List Bool
  options_for allow_stale [] = []
  options_for allow_stale (failed ∷ rest) = allow_stale ∷ options_for allow_stale rest
  options_for allow_stale (answered a contact ∷ rest) =
      if is_stale (answered a contact)
      then allow_stale ∷ options_for false rest
      else allow_stale ∷ []

  ask_lem :
      (allow_stale : Bool) (replies : List (Reply A))
      → ask cfg allow_stale replies
        ≡ map_option (λ a. (a, options_for allow_stale replies)) (first_fresh replies)
  unfolding ask
  ask_lem allow_stale [] = refl
  ask_lem allow_stale (failed ∷ rest) = elim (Option-cases (first_fresh rest)) [
    | inl e ↦ rw (ask_lem allow_stale rest, e)
    | inr (a, e) ↦ rw (ask_lem allow_stale rest, e)
  ]
  ask_lem allow_stale (answered a contact ∷ rest) =
      elim (Bool-cases (cfg.allow && ltb_ℤ cfg.stale_allowed_duration contact)) [
        | inr fresh ↦ rw fresh
        | inl stale ↦ elim (Option-cases (first_fresh rest)) [
          | inl e ↦ rw (stale, ask_lem false rest, e)
          | inr (b, e) ↦ rw (stale, ask_lem false rest, e)
        ]
      ]

  -- A query gives the first answer of nomad that is not too stale, and asks on while there is none;
  -- errors are passed over, and after a stale answer every request is for a consistent one.
  pub with_retry_lem :
      (replies : List (Reply A))
      → with_retry cfg replies
        ≡ map_option (λ a. (a, options_for cfg.allow replies)) (first_fresh replies)
  unfolding with_retry
  with_retry_lem replies = ask_lem cfg.allow replies
