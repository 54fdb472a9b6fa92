-- ===== src/Evals/Judging.antt =====
-- What the timer of processEvals.go does about one chain: it is live, or it is dropped.
use nomad_ondemand_scaler.Prelude.{
  ◌≡◌, refl, ◌≢◌, ◌⊎◌, inl, inr, String, Bool, true, false, some, List, [], ◌∷◌, ◌++◌, any-append,
  All, All-mono, arith, eq_iff, str_eq, if◌then◌else◌, Bool-cases,
}
use nomad_ondemand_scaler.Prelude.Dict.{found, Dict, lookup, insert, has, lookup-insert}
use nomad_ondemand_scaler.Evals.{
  State, Answers, Eval, Tick, is_blocked, is_in, trim, keep_evals, judge, ◌>>=◌,
}
use nomad_ondemand_scaler.Evals.Guarded.{IsGuarded, Keeps, cancel_event-Keeps, fire_event-Keeps}
use nomad_ondemand_scaler.Evals.Chains.{Known}

-- The head is kept and blocked, and every evaluation of the chain is kept.
abbrev pub IsLive : Dict Eval → List String → Type 0
IsLive evals [] = ⊥
IsLive evals (k ∷ ks) =
    ((e : Eval) × (lookup k evals ≡ some e) × (is_blocked e ≡ true)) × Known evals (k ∷ ks)

pub trim-IsLive :
    (evals : Dict Eval) (chain : List String)
    → Known evals chain
    → (c : List String) × (trim evals chain ≡ some c) × ((c ≡ []) ⊎ IsLive evals c)
unfolding trim
trim-IsLive evals [] h = ([], refl, inl refl)
trim-IsLive evals (k ∷ ks) h =
    let (e, at) = found k evals h.0 in
    elim (Bool-cases (is_blocked e)) [
      | inl blocked ↦ (k ∷ ks, ground (arith, at, blocked), inr ((e, at, blocked), h))
      | inr over ↦
          let (c, rest, live) = trim-IsLive evals ks h.1 in
          (c, ground (arith, at, over, rest), live)
    ]

-- Every kept evaluation is the current one.
abbrev pub IsCopy : Dict Eval → Dict Eval → Type 0
IsCopy evals acc = (k : String) (e : Eval) → lookup k acc ≡ some e → lookup k evals ≡ some e

keep_evals_lem :
    (evals : Dict Eval) (chain : List String) (acc : Dict Eval)
    → Known evals chain
    → (kept : Dict Eval) × (keep_evals evals chain acc ≡ some kept)
      × ((k : String) → lookup k kept ≡ (if is_in k chain then lookup k evals else lookup k acc))
unfolding keep_evals
keep_evals_lem evals [] acc h = (acc, refl, λ k. refl)
keep_evals_lem evals (j ∷ js) acc h =
    let (e, at) = found j evals h.0 in
    let (kept, rest, all) = keep_evals_lem evals js (insert j e acc) h.1 in
    (
      kept,
      ground (arith, at, rest),
      λ k. ground (arith, all k, lookup-insert j k e acc, eq_iff j k, at),
    )

module _ (evals kept acc : Dict Eval) (chain : List String)
    (all : (k : String) → lookup k kept ≡ (if is_in k chain then lookup k evals else lookup k acc))
    (copy : IsCopy evals acc) where
  kept-IsCopy : IsCopy evals kept
  kept-IsCopy k e h = ground (arith, all k, copy k e)

  still_there : (k : String) (e : Eval) → lookup k acc ≡ some e → lookup k kept ≡ some e
  still_there k e h = ground (arith, all k, copy k e)

  kept-IsLive : (d : List String) → IsLive acc d → IsLive kept d
  kept-IsLive [] h = h
  kept-IsLive (k ∷ ks) ((e, at, blocked), known) = (
    (e, still_there k e at, blocked),
    All-mono
        (λ (j : String) (h : has j acc ≡ true).
          let (e', p) = found j acc h in ground (arith, still_there j e' p))
        (k ∷ ks) known,
  )

  chain-Known : (d : List String) → All (λ k. is_in k chain ≡ true) d → Known evals d → Known kept d
  chain-Known [] m h = tt
  chain-Known (k ∷ ks) m h = (ground (arith, all k, m.0, h.0), chain-Known ks m.1 h.1)

  chain-IsLive :
      (d : List String) → All (λ k. is_in k chain ≡ true) d → IsLive evals d → IsLive kept d
  chain-IsLive [] m h = h
  chain-IsLive (k ∷ ks) m ((e, at, blocked), known) =
      ((e, ground (arith, all k, m.0, at), blocked), chain-Known (k ∷ ks) m known)

is_in_self : (xs : List String) → All (λ k. is_in k xs ≡ true) xs
is_in_self [] = tt
is_in_self (x ∷ xs) = (
  ground (arith, eq_iff x x),
  All-mono (λ (k : String) (h : is_in k xs ≡ true). ground arith) xs (is_in_self xs),
)

-- What judging a chain comes to. It is dropped at the end of the tick, or live in what is kept.
pub record Judged (cid : String) (chain : List String) (t u : Tick) : Type 0 where
  pub chains : u.state.chains ≡ t.state.chains
  pub evals : u.state.evals ≡ t.state.evals
  pub guard : IsGuarded u.state
  pub copied : IsCopy u.state.evals u.new_evals
  pub lives : (d : List String) → IsLive t.new_evals d → IsLive u.new_evals d
  pub drops : (j : String) → is_in j t.removed ≡ true → is_in j u.removed ≡ true
  pub verdict : (is_in cid u.removed ≡ true) ⊎ IsLive u.new_evals chain

-- Nomad lists at least one evaluation for a job that has one.
abbrev pub AnswersEvals : Answers → Type 0
AnswersEvals ans = (e : Eval) → ans.job_evals e ≢ []

in_append_left :
    (j cid : String) (xs : List String) → is_in j xs ≡ true → is_in j (xs ++ cid ∷ []) ≡ true
in_append_left j cid xs h = ground (arith, any-append (λ i. str_eq i j) xs (cid ∷ []))

in_append_self : (cid : String) (xs : List String) → is_in cid (xs ++ cid ∷ []) ≡ true
in_append_self cid xs = ground (arith, any-append (λ i. str_eq i cid) xs (cid ∷ []), eq_iff cid cid)

judge_empty :
    (ans : Answers) (cid : String) (t : Tick)
    → IsGuarded t.state
    → IsCopy t.state.evals t.new_evals
    → (u : Tick) × (judge ans cid [] t ≡ some u) × Judged cid [] t u
unfolding judge
judge_empty ans cid t g copy =
    let (s, e, (same_chains, same_evals, g')) = cancel_event-Keeps cid t.state g in
    (
      record t { state = s; removed = t.removed ++ cid ∷ [] },
      rw (e, ◌>>=◌),
      record {
        chains = same_chains;
        evals = same_evals;
        guard = g';
        copied = rw same_evals copy;
        lives = λ d h. h;
        drops = λ j h. in_append_left j cid t.removed h;
        verdict = inl (in_append_self cid t.removed);
      },
    )

Judged-live :
    (cid k : String) (ks gone : List String) (t : Tick) (s : State) (kept : Dict Eval)
    → ((j : String)
        → lookup j kept
          ≡ (if is_in j (k ∷ ks) then lookup j t.state.evals else lookup j t.new_evals))
    → IsCopy t.state.evals t.new_evals
    → IsLive t.state.evals (k ∷ ks)
    → Keeps t.state s
    → ((j : String) → is_in j t.removed ≡ true → is_in j gone ≡ true)
    → Judged cid (k ∷ ks) t (record { state = s; new_evals = kept; removed = gone })
Judged-live cid k ks gone t s kept all copy live (same_chains, same_evals, g) drops = record {
  chains = same_chains;
  evals = same_evals;
  guard = g;
  copied = rw same_evals (kept-IsCopy t.state.evals kept t.new_evals (k ∷ ks) all copy);
  lives = kept-IsLive t.state.evals kept t.new_evals (k ∷ ks) all copy;
  drops = drops;
  verdict = inr (
      chain-IsLive t.state.evals kept t.new_evals (k ∷ ks) all copy (k ∷ ks) (is_in_self (k ∷ ks))
        live);
}

if_drops :
    (b : Bool) (cid j : String) (xs : List String)
    → is_in j xs ≡ true
    → is_in j (if b then xs else xs ++ cid ∷ []) ≡ true
if_drops true cid j xs h = h
if_drops false cid j xs h = in_append_left j cid xs h

judge_live :
    (ans : Answers) (cid : String) (k : String) (ks : List String) (t : Tick)
    → AnswersEvals ans
    → IsGuarded t.state
    → IsCopy t.state.evals t.new_evals
    → IsLive t.state.evals (k ∷ ks)
    → (u : Tick) × (judge ans cid (k ∷ ks) t ≡ some u) × Judged cid (k ∷ ks) t u
unfolding judge
judge_live ans cid k ks t answers g copy live =
    let (kept, e, all) = keep_evals_lem t.state.evals (k ∷ ks) t.new_evals live.1 in
    let (head, at, blocked) = live.0 in
    elim (Bool-cases (has cid t.state.fired)) [
      | inl fired ↦ (
        record t { new_evals = kept },
        ground (arith, e, at, fired),
        Judged-live cid k ks t.removed t t.state kept all copy live (refl, refl, g) (λ j h. h),
      )
      | inr idle ↦
          let (r, e', keeps) = fire_event-Keeps ans cid head t.state (answers head) idle g in
          let gone : List String = if r.1 then t.removed else t.removed ++ cid ∷ [] in
          (
            record { state = r.0; new_evals = kept; removed = gone },
            ground (arith, e, at, idle, e'),
            Judged-live cid k ks gone t r.0 kept all copy live keeps
                (λ j h. if_drops r.1 cid j t.removed h),
          )
    ]

pub judge_lem :
    (ans : Answers) (cid : String) (chain : List String) (t : Tick)
    → AnswersEvals ans
    → IsGuarded t.state
    → IsCopy t.state.evals t.new_evals
    → ((chain ≡ []) ⊎ IsLive t.state.evals chain)
    → (u : Tick) × (judge ans cid chain t ≡ some u) × Judged cid chain t u
judge_lem ans cid [] t answers g copy live = judge_empty ans cid t g copy
judge_lem ans cid (k ∷ ks) t answers g copy (inl e) = absurd (cc)
judge_lem ans cid (k ∷ ks) t answers g copy (inr live) =
    judge_live ans cid k ks t answers g copy live
