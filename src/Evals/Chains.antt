-- ===== src/Evals/Chains.antt =====
-- The chains of processEvals.go: none is empty, the evaluations that they name are kept, and so the
-- loop never reads a missing one. After a tick the head of every chain is blocked.
use nomad_ondemand_scaler.Prelude.{
  ltb, ◌≡◌, refl, ◌≢◌, inl, inr, String, Bool, true, false, some, List, [], ◌∷◌, ◌++◌, All,
  All-append, All-mono, arith, eq_iff, str_eq, if◌then◌else◌, Bool-cases, Option-cases, subst,
}
use nomad_ondemand_scaler.Prelude.Dict.{
  found, Dict, lookup, insert, has, lookup-insert, IsKeyed, insert-IsKeyed,
}
use nomad_ondemand_scaler.Evals.{
  State, Eval, chain_id, is_blocked, is_in, last, join_chain, on_eval,
}
use nomad_ondemand_scaler.Evals.Guarded.{IsGuarded}

abbrev pub Known : Dict Eval → List String → Type 0
Known evals = All (λ k. has k evals ≡ true)

abbrev pub IsChain : Dict Eval → List String → Type 0
IsChain evals chain = (chain ≢ []) × Known evals chain

pub record IsSound (s : State) : Type 0 where
  pub guard : IsGuarded s
  pub keyed : IsKeyed s.chains
  pub chained :
      (cid : String) (chain : List String)
      → lookup cid s.chains ≡ some chain
      → IsChain s.evals chain

Known-insert :
    (k : String) (e : Eval) (evals : Dict Eval) (chain : List String)
    → Known evals chain
    → Known (insert k e evals) chain
Known-insert k e evals =
    All-mono (λ (j : String) (h : has j evals ≡ true). ground (arith, lookup-insert k j e evals))

last-total :
    (evals : Dict Eval) (chain : List String)
    → IsChain evals chain
    → (k : String) × (last chain ≡ some k) × (has k evals ≡ true)
unfolding last
last-total evals [] (h, known) = absurd (h refl)
last-total evals (k ∷ []) (h, known) = (k, refl, known.0)
last-total evals (k ∷ j ∷ ks) (h, known) = last-total evals (j ∷ ks) (λ p. cc, known.1)

not-nil-append : (xs : List String) (k : String) → xs ++ k ∷ [] ≢ []
not-nil-append [] k h = cc
not-nil-append (x ∷ xs) k h = cc

join_chain-IsChain :
    (evals : Dict Eval) (e : Eval) (chain : List String)
    → has e.id evals ≡ true
    → IsChain evals chain
    → (chain' : List String) × (join_chain evals e chain ≡ some chain') × IsChain evals chain'
unfolding join_chain
join_chain-IsChain evals e chain here ok = elim (Bool-cases (is_in e.id chain)) [
  | inl old ↦ (chain, rw old, ok)
  | inr new ↦
      let (k, is_last, kept) = last-total evals chain ok in
      let (newest, at) = found k evals kept in
      (
        if ltb newest.create_index e.create_index then chain ++ e.id ∷ [] else chain,
        ground (arith, new, is_last, at),
        grows (ltb newest.create_index e.create_index),
      )
]
  where
    grows : (b : Bool) → IsChain evals (if b then chain ++ e.id ∷ [] else chain)
    grows true = (
      not-nil-append chain e.id,
      All-append (λ k. has k evals ≡ true) chain (e.id ∷ []) ok.1 (here, tt),
    )
    grows false = ok

-- A chain put in place among sound chains.
put_chain :
    (evals : Dict Eval) (cid : String) (chain : List String) (chains : Dict (List String))
    → IsChain evals chain
    → ((j : String) (c : List String) → lookup j chains ≡ some c → IsChain evals c)
    → (j : String) (c : List String) → lookup j (insert cid chain chains) ≡ some c
    → IsChain evals c
put_chain evals cid chain chains ok all j c h = elim (Bool-cases (str_eq cid j)) [
  | inl same ↦
      let e : chain ≡ c = ground (arith, lookup-insert cid j chain chains) in
      subst (IsChain evals) e ok
  | inr other ↦ all j c (ground (arith, lookup-insert cid j chain chains))
]

-- The state with one evaluation more, and one chain put in place.
with_chain-IsSound :
    (e : Eval) (s : State) (cid : String) (chain : List String)
    → IsChain (insert e.id e s.evals) chain
    → IsSound s
    → IsSound (record s { evals = insert e.id e s.evals; chains = insert cid chain s.chains })
with_chain-IsSound e s cid chain ok v = record {
  guard = record { valid = v.guard.valid; guarded = v.guard.guarded };
  keyed = insert-IsKeyed cid chain s.chains v.keyed;
  chained = put_chain (insert e.id e s.evals) cid chain s.chains ok λ j c h.
      let (some_ids, known) = v.chained j c h in (some_ids, Known-insert e.id e s.evals c known);
}

-- Receiving an evaluation never panics, and keeps the state sound.
pub on_eval-IsSound :
    (e : Eval) (s : State) → IsSound s → (r : State × Bool) × (on_eval e s ≡ some r) × IsSound r.0
unfolding on_eval
on_eval-IsSound e s v = elim (Option-cases (lookup (chain_id e) s.chains)) [
  | inr (chain, at) ↦
      let (some_ids, known) = v.chained (chain_id e) chain at in
      let (chain', joined, ok) =
        join_chain-IsChain evals e chain here (some_ids, Known-insert e.id e s.evals chain known) in
      (
        (record s { evals = evals; chains = insert (chain_id e) chain' s.chains }, true),
        ground (arith, at, joined),
        with_chain-IsSound e s (chain_id e) chain' ok v,
      )
  | inl missing ↦ elim (Bool-cases (is_blocked e)) [
    | inl blocked ↦ (
      (record s { evals = evals; chains = insert (chain_id e) (e.id ∷ []) s.chains }, true),
      ground (arith, missing, blocked),
      with_chain-IsSound e s (chain_id e) (e.id ∷ []) (λ h. cc, (here, tt)) v,
    )
    | inr other ↦ (
      (record s { evals = evals }, false),
      ground (arith, missing, other),
      record {
        guard = record { valid = v.guard.valid; guarded = v.guard.guarded };
        keyed = v.keyed;
        chained = λ j c h.
            let (some_ids, known) = v.chained j c h in
            (some_ids, Known-insert e.id e s.evals c known);
      },
    )
  ]
]
  where
    evals : Dict Eval
    evals = insert e.id e s.evals

    here : has e.id evals ≡ true
    here = ground (arith, lookup-insert e.id e.id e s.evals, eq_iff e.id e.id)
